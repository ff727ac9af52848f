-- ===== src/Service/Runner/Worker/Channel.antt =====
-- What waits in the channel stays there, in its order, whatever requests and tasks do: they only send.
use mathlib.Core.List.{append_assoc}
use pda_proxy.Base.{
  ◌≡◌, refl, ◌∙◌, inl, inr, Option, none, some, String, List, [], ◌∷◌, ◌++◌, Bytes, Result, ok, err,
  Result-cases,
}
use pda_proxy.Service.Job.{
  PdaRunnerError, Job, JobStatus, local_zk_proof_pending, remote_zk_proof_requesting,
  remote_zk_proof_pending, zk_proof_finished, failed,
}
use pda_proxy.Service.Action.{modify, ◌>>=◌}
use pda_proxy.Service.Action.Keeps.{Keeps, Keeps-modify, keeps_rules}
use pda_proxy.Service.Platform.{
  Platform, World, IsDocumented, Sp1ProofSetup, Write, Sp1NetworkError, ProverError, network,
  unknown,
}
use pda_proxy.Service.Runner.State.{Runner, Method, send_message, transact}
use pda_proxy.Service.Runner.Setup.{
  or_build_local, or_build_remote, recall_or_generate, get_or_try_init, get_zk_client_local,
  get_zk_client_remote, get_proof_setup_local, get_proof_setup_remote,
}
use pda_proxy.Service.Runner.Jobs.{finalize_job, send_job_with_new_status}
use pda_proxy.Service.Runner.Proving.{
  handle_zk_client_error, or_handle, encryption_key, draw_nonce, zk_proof_local, zk_proof_remote,
  wait_for_zk_proof, then_or_log, drive, drive_queued, prove,
}

module _ (P : Platform) (D : IsDocumented P) (ahead : List (Option Job)) where
  -- The messages begin with those.
  pub record Begins (r : Runner P) : Type 0 where
    pub more : List (Option Job)
    pub begins : D.messages r.job_sender ≡ ahead ++ more

  abbrev pub KeepsAhead : {A : Type 0} → Method P A → Type 0
  KeepsAhead m = Keeps Begins m

  of_same_channel :
      (f : Runner P → Runner P)
      → ((r : Runner P) → (f r).job_sender ≡ r.job_sender)
      → KeepsAhead (modify f)
  of_same_channel f same =
      Keeps-modify f λ r h. record { more = h.more; begins = rw (same r) h.begins }

  pub keeps_local :
      (c : Option P.LocalClient)
      → KeepsAhead (modify (λ r. record r { zk_client_handle_local = c }))
  keeps_local c = of_same_channel _ λ r. refl

  pub keeps_remote :
      (c : Option P.RemoteClient)
      → KeepsAhead (modify (λ r. record r { zk_client_handle_remote = c }))
  keeps_remote c = of_same_channel _ λ r. refl

  pub keeps_config : (t : P.Tree) → KeepsAhead (modify (λ r. record r { config_db = t }))
  keeps_config t = of_same_channel _ λ r. refl

  pub keeps_setup :
      (c : Option (Sp1ProofSetup P.Pk P.Vk))
      → KeepsAhead (modify (λ r. record r { chacha_setup = c }))
  keeps_setup c = of_same_channel _ λ r. refl

  pub keeps_queue : (t : P.Tree) → KeepsAhead (modify (λ r. record r { queue_db = t }))
  keeps_queue t = of_same_channel _ λ r. refl

  pub transacted : (writes : List Write) → KeepsAhead (transact P writes)
  unfolding transact ◌>>=◌
  transacted writes = record {
    at = λ r h. elim (Result-cases (P.transaction (r.queue_db, r.finished_db) writes)) [
      | inl ((q, f), e) ↦ rw e (record { more = h.more; begins = h.begins })
      | inr (message, e) ↦ rw e h
    ];
  }

  pub sent : (m : Option Job) → KeepsAhead (send_message P m)
  unfolding send_message ◌>>=◌
  sent m = record {
    at = λ r h. elim (Result-cases (P.send r.job_sender m)) [
      | inl (channel', e) ↦ rw e (record {
        more = h.more ++ (m ∷ []);
        begins =
            D.messages-send r.job_sender m channel' e
            ∙ rw h.begins (append_assoc ahead h.more (m ∷ []));
      })
      | inr (message, e) ↦ rw e h
    ];
  }

  pub ruleset frame_rules = (
    keeps_rules, keeps_local, keeps_remote, keeps_config, keeps_setup, keeps_queue, transacted,
    sent,
  )

  pub local_built : (o : Option P.LocalClient) → KeepsAhead (or_build_local P o)
  unfolding or_build_local
  local_built none = search frame_rules depth 12
  local_built (some client) = search frame_rules

  pub remote_built : (o : Option P.RemoteClient) → KeepsAhead (or_build_remote P o)
  unfolding or_build_remote
  remote_built none = search frame_rules depth 12
  remote_built (some client) = search frame_rules

  recalled :
      (sha2 : Bytes) (reply : Result String (P.Pk × P.Vk)) (o : Option Bytes)
      → KeepsAhead (recall_or_generate P sha2 reply o)
  unfolding recall_or_generate
  recalled sha2 reply (some b) = search frame_rules
  recalled sha2 reply none = search frame_rules depth 20

  pub initialised :
      (sha2 : Bytes) (reply : Result String (P.Pk × P.Vk)) (o : Option (Sp1ProofSetup P.Pk P.Vk))
      → KeepsAhead (get_or_try_init P sha2 reply o)
  unfolding get_or_try_init
  initialised sha2 reply (some setup) = search frame_rules
  initialised sha2 reply none = search (frame_rules, recalled) depth 20

  pub finalized :
      (key : Bytes) (status : JobStatus P.Proof) → KeepsAhead (finalize_job P key status)
  unfolding finalize_job
  finalized key status = search frame_rules depth 12

  pub sent_again :
      (key : Bytes) (status : JobStatus P.Proof) (job : Job)
      → KeepsAhead (send_job_with_new_status P key status job)
  unfolding send_job_with_new_status
  sent_again key status job = search frame_rules depth 12

  pub ruleset step_rules =
      (frame_rules, local_built, remote_built, initialised, finalized, sent_again)

  handled_error :
      (error : Sp1NetworkError) (job : Job) (key : Bytes)
      → KeepsAhead (handle_zk_client_error P error job key)
  unfolding handle_zk_client_error
  handled_error error job key = search step_rules depth 12

  handled :
      {A : Type 0} (text : String → String) (job : Job) (key : Bytes) (r : Result ProverError A)
      → KeepsAhead (or_handle P text job key r)
  unfolding or_handle
  handled text job key (ok a) = search step_rules
  handled text job key (err (network error)) = search (step_rules, handled_error) depth 12
  handled text job key (err (unknown e)) = search step_rules

  proved_local :
      (w : World P) (id : Bytes) (job : Job) (key : Bytes)
      → KeepsAhead (zk_proof_local P w id job key)
  unfolding zk_proof_local get_zk_client_local get_proof_setup_local encryption_key draw_nonce
  proved_local w id job key = search (step_rules, handled) depth 30

  proved_remote :
      (w : World P) (id : Bytes) (job : Job) (key : Bytes)
      → KeepsAhead (zk_proof_remote P w id job key)
  unfolding zk_proof_remote get_zk_client_remote get_proof_setup_remote encryption_key draw_nonce
  proved_remote w id job key = search (step_rules, handled) depth 40

  waited :
      (w : World P) (job : Job) (key id : Bytes) → KeepsAhead (wait_for_zk_proof P w job key id)
  unfolding wait_for_zk_proof get_zk_client_remote
  waited w job key id = search (step_rules, handled) depth 20

  followed :
      {A : Type 0} (next : A → Method P (Unit {0})) (r : Result PdaRunnerError A)
      → ((a : A) → KeepsAhead (next a))
      → KeepsAhead (then_or_log P next r)
  unfolding then_or_log
  followed next (ok a) k = k a
  followed next (err e) k = search keeps_rules

  ruleset drive_rules = (step_rules, proved_local, proved_remote, waited, followed)

  driven :
      (w : World P) (job : Job) (key : Bytes) (status : JobStatus P.Proof)
      → KeepsAhead (drive P w job key status)
  unfolding drive
  driven w job key local_zk_proof_pending = search drive_rules depth 12
  driven w job key remote_zk_proof_requesting = search drive_rules depth 12
  driven w job key (remote_zk_proof_pending id) = search drive_rules depth 12
  driven w job key (zk_proof_finished proof) = search keeps_rules
  driven w job key (failed error maybe_status) = search keeps_rules

  queued_driven :
      (w : World P) (job : Job) (key : Bytes) (o : Option Bytes)
      → KeepsAhead (drive_queued P w job key o)
  unfolding drive_queued
  queued_driven w job key none = search keeps_rules
  queued_driven w job key (some b) = search (keeps_rules, driven) depth 12

  pub prove-Begins : (w : World P) (job : Job) → Keeps Begins (prove P w job)
  unfolding prove
  prove-Begins w job = search (keeps_rules, queued_driven) depth 20
