-- ===== src/Service/Runner/Steps.antt =====
-- The runner as a step relation: clients ask, the worker runs a job, the service is shut down or
-- started, in any order, with any answers of the environment.
use pda_proxy.Base.{◌≡◌, Option, none, some, String, List, [], ◌∷◌, Bytes, Result, ok, err}
use pda_proxy.Service.Job.{
  Job, JobStatus, local_zk_proof_pending, remote_zk_proof_requesting, remote_zk_proof_pending,
  zk_proof_finished, failed,
}
use pda_proxy.Service.Action.Keeps.{Keeps-bind, Keeps-expect, keeps_rules}
use pda_proxy.Service.Platform.{Platform, World, IsDocumented}
use pda_proxy.Service.Runner.State.{Runner}
use pda_proxy.Service.Runner.Proving.{prove}
use pda_proxy.Service.Runner.Requests.{get_verifiable_encryption}
use pda_proxy.Service.Runner.Startup.{
  send_or_ignore, resume_status, resume_entries, resume, shutdown,
}
use pda_proxy.Service.Runner.Invariant.{IsConsistent}
use pda_proxy.Service.Runner.Invariant.Laws.{TreeInvariant, Intact, IsLast}
use pda_proxy.Service.Runner.Invariant.Methods.{KeepsIntact, send_message-Intact}
use pda_proxy.Service.Runner.Invariant.Prove.{prove-Intact}
use pda_proxy.Service.Runner.Invariant.Request.{get_verifiable_encryption-Intact}
use pda_proxy.Service.Runner.Invariant.Instances.{consistency, consistent-IsSettled, permanence}

pub data Step (P : Platform) : Runner P → Runner P → Type 0 where
  asks : (w : World P) (job : Job) (r : Runner P) → Step P r (get_verifiable_encryption P w job r).1
  works : (w : World P) (job : Job) (r : Runner P) → Step P r (prove P w job r).1
  restarts : (r : Runner P) → Step P r (resume P r).1
  shuts_down : (r : Runner P) → Step P r (shutdown P r).1

pub data Reach (P : Platform) (s : Runner P) : Runner P → Type 0 where
  here : Reach P s s
  next : {t u : Runner P} → Reach P s t → Step P t u → Reach P s u

module _ (P : Platform) (D : IsDocumented P) (T : TreeInvariant P D) where
  ignored : (m : Option Job) → KeepsIntact P D T (send_or_ignore P m)
  unfolding send_or_ignore
  ignored m = search (keeps_rules, send_message-Intact) depth 12

  status_resumed :
      (job : Job) (s : Result String (JobStatus P.Proof))
      → KeepsIntact P D T (resume_status P job s)
  unfolding resume_status
  status_resumed job (ok local_zk_proof_pending) = ignored (some job)
  status_resumed job (ok (remote_zk_proof_pending id)) = ignored (some job)
  status_resumed job (ok remote_zk_proof_requesting) = search keeps_rules
  status_resumed job (ok (zk_proof_finished proof)) = search keeps_rules
  status_resumed job (ok (failed error maybe_status)) = search keeps_rules
  status_resumed job (err message) = search keeps_rules

  entries_resumed :
      (entries : List (Result String (Bytes × Bytes)))
      → KeepsIntact P D T (resume_entries P entries)
  unfolding resume_entries
  entries_resumed [] = search keeps_rules
  entries_resumed (err e ∷ entries) = entries_resumed entries
  entries_resumed (ok (key, b) ∷ entries) =
      Keeps-bind _ _ (Keeps-expect _ _)
        (λ job. Keeps-bind _ _ (status_resumed job _) (λ _. entries_resumed entries))

  pub resume-Intact : KeepsIntact P D T (resume P)
  unfolding resume
  resume-Intact = search (keeps_rules, entries_resumed) depth 12

  pub shutdown-Intact : KeepsIntact P D T (shutdown P)
  unfolding shutdown
  shutdown-Intact = ignored none

  step-Intact : {r t : Runner P} → Step P r t → Intact T r → Intact T t
  step-Intact (asks w job r) h = (get_verifiable_encryption-Intact P D T w job).at r h
  step-Intact (works w job r) h = (prove-Intact P D T w job).at r h
  step-Intact (restarts r) h = resume-Intact.at r h
  step-Intact (shuts_down r) h = shutdown-Intact.at r h

  pub reach-Intact : {r t : Runner P} → Reach P r t → Intact T r → Intact T t
  reach-Intact here h = h
  reach-Intact (next path step) h = step-Intact step (reach-Intact path h)

module _ (P : Platform) (D : IsDocumented P) where
  -- From consistent trees, any sequence of requests, runs of the worker, restarts and shutdowns
  -- leads to consistent trees: no job is both queued and finished, each queued job has a pending
  -- status, each finished one a proof or a failure that is final or to be retried with a pending
  -- status.
  pub Reach-IsConsistent :
      (r t : Runner P)
      → Reach P r t
      → IsConsistent P D r.queue_db r.finished_db
      → IsConsistent P D t.queue_db t.finished_db
  Reach-IsConsistent r t path h =
      (reach-Intact P D (consistency P D) path (record { trees = h })).trees

  -- From consistent trees where the finished tree holds a proof or a permanent failure of a job, any
  -- sequence of requests, runs of the worker, restarts and shutdowns leads to a state where it holds
  -- the very same entry, and the job is not in the queue.
  pub Reach-keeps_last :
      (r t : Runner P) (key b : Bytes) (status : JobStatus P.Proof)
      → Reach P r t
      → IsConsistent P D r.queue_db r.finished_db
      → D.contents r.finished_db key ≡ some b
      → P.deserialize_status b ≡ ok status
      → IsLast status
      → (D.contents t.finished_db key ≡ some b) × (D.contents t.queue_db key ≡ none)
  Reach-keeps_last r t key b status path h there decoded last =
      let settled =
        (reach-Intact P D (permanence P D key b status decoded last) path (record {
          trees = consistent-IsSettled P D key b r.queue_db r.finished_db h there;
        })).trees in
      (settled.there, settled.unqueued)
