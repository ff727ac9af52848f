-- ===== src/Service/Runner/Worker/Asked.antt =====
-- Requests only add to the end of the channel.
use pda_proxy.Base.{Option, none, some, String, List, [], ◌∷◌, Bytes, inl, inr}
use pda_proxy.Service.Job.{
  Job, JobStatus, permanent, retry_with, local_zk_proof_pending, remote_zk_proof_requesting,
  remote_zk_proof_pending, zk_proof_finished, failed,
}
use pda_proxy.Service.Action.Keeps.{keeps_rules}
use pda_proxy.Service.Platform.{Platform, World, IsDocumented}
use pda_proxy.Service.Runner.State.{Runner}
use pda_proxy.Service.Runner.Requests.{
  answer_finished, answer_queued, initial_status, enqueue, start_job, answer_queue, answer,
  get_verifiable_encryption,
}
use pda_proxy.Service.Runner.Invariant.Request.{initial_status-cases}
use pda_proxy.Service.Runner.Worker.Channel.{Begins, KeepsAhead, step_rules}

-- The calls of `get_verifiable_encryption` for a list of requests, one after another.
unfoldable pub ask_all : (P : Platform) → List (World P × Job) → Runner P → Runner P
ask_all P [] r = r
ask_all P ((w, job) ∷ requests) r = ask_all P requests (get_verifiable_encryption P w job r).1

module _ (P : Platform) (D : IsDocumented P) (ahead : List (Option Job)) where
  finished_answered :
      (job : Job) (key : Bytes) (status : JobStatus P.Proof)
      → KeepsAhead P D ahead (answer_finished P job key status)
  unfolding answer_finished
  finished_answered job key (zk_proof_finished proof) = search step_rules
  finished_answered job key (failed error permanent) = search step_rules
  finished_answered job key (failed error (retry_with status)) = search step_rules depth 12
  finished_answered job key local_zk_proof_pending = search step_rules
  finished_answered job key remote_zk_proof_requesting = search step_rules
  finished_answered job key (remote_zk_proof_pending id) = search step_rules

  queued_answered :
      (key : Bytes) (status : JobStatus P.Proof) → KeepsAhead P D ahead (answer_queued P key status)
  unfolding answer_queued
  queued_answered key local_zk_proof_pending = search keeps_rules
  queued_answered key remote_zk_proof_requesting = search keeps_rules
  queued_answered key (remote_zk_proof_pending id) = search keeps_rules
  queued_answered key (zk_proof_finished proof) = search keeps_rules
  queued_answered key (failed error maybe_status) = search keeps_rules

  starting_status : (t : String) → KeepsAhead P D ahead (initial_status P t)
  starting_status t = record {
    at = λ r h. elim (initial_status-cases P t r) [
      | inl (s, q, e) ↦ rw e h
      | inr (message, e) ↦ rw e h
    ];
  }

  enqueued :
      (job : Job) (key : Bytes) (status : JobStatus P.Proof)
      → KeepsAhead P D ahead (enqueue P job key status)
  unfolding enqueue
  enqueued job key status = search step_rules depth 30

  started : (w : World P) (job : Job) (key : Bytes) → KeepsAhead P D ahead (start_job P w job key)
  unfolding start_job
  started w job key = search (keeps_rules, starting_status, enqueued) depth 20

  queue_answered :
      (w : World P) (job : Job) (key : Bytes) (o : Option Bytes)
      → KeepsAhead P D ahead (answer_queue P w job key o)
  unfolding answer_queue
  queue_answered w job key none = started w job key
  queue_answered w job key (some b) = search (keeps_rules, queued_answered) depth 12

  answered :
      (w : World P) (job : Job) (key : Bytes) (o : Option Bytes)
      → KeepsAhead P D ahead (answer P w job key o)
  unfolding answer
  answered w job key none = search (keeps_rules, queue_answered) depth 20
  answered w job key (some b) = search (keeps_rules, finished_answered) depth 12

  request-Begins :
      (w : World P) (job : Job) → KeepsAhead P D ahead (get_verifiable_encryption P w job)
  unfolding get_verifiable_encryption
  request-Begins w job = search (keeps_rules, answered) depth 20

  pub ask_all-Begins :
      (requests : List (World P × Job)) (r : Runner P)
      → Begins P D ahead r
      → Begins P D ahead (ask_all P requests r)
  unfolding ask_all
  ask_all-Begins [] r h = h
  ask_all-Begins ((w, job) ∷ requests) r h =
      ask_all-Begins requests (get_verifiable_encryption P w job r).1
        ((request-Begins w job).at r h)
