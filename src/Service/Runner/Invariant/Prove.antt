-- ===== src/Service/Runner/Invariant/Prove.antt =====
-- The invariant of the job trees through `prove`.
use pda_proxy.Base.{
  ◌≡◌, sym, ◌∙◌, inl, inr, Result-cases, Option, none, some, String, Bytes, Result, ok, err,
}
use pda_proxy.Service.Job.{
  PdaRunnerError, Job, JobStatus, local_zk_proof_pending, remote_zk_proof_requesting,
  remote_zk_proof_pending, zk_proof_finished, failed,
}
use pda_proxy.Service.Action.{◌>>=◌}
use pda_proxy.Service.Action.Keeps.{keeps_rules}
use pda_proxy.Service.Platform.{
  Platform, World, IsDocumented, Sp1NetworkError, simulation_failed, request_unexecutable,
  request_unfulfillable, request_timed_out, rpc_error, other, ProverError, network, unknown,
}
use pda_proxy.Service.Runner.State.{Method}
use pda_proxy.Service.Runner.Proving.{
  classify, handle_zk_client_error, or_handle, encryption_key, draw_nonce, zk_proof_local,
  zk_proof_remote, wait_for_zk_proof, then_or_log, drive, drive_queued, prove,
}
use pda_proxy.Service.Runner.Invariant.{IsFinal}
use pda_proxy.Service.Runner.Invariant.Laws.{TreeInvariant}
use pda_proxy.Service.Runner.Invariant.Methods.{
  KeepsIntact, get_zk_client_local-Intact, get_zk_client_remote-Intact,
  get_proof_setup_local-Intact, get_proof_setup_remote-Intact, finalize_job-Intact,
  send_job_with_new_status-Intact,
}

-- A failure of the prover leaves the job in a final status.
pub classify-IsFinal :
    (P : Platform) (error : Sp1NetworkError) (job : Job) → IsFinal (classify P error job).1
unfolding classify
classify-IsFinal P simulation_failed job = tt
classify-IsFinal P (request_unexecutable id) job = tt
classify-IsFinal P (request_unfulfillable id) job = tt
classify-IsFinal P (request_timed_out id) job = tt
classify-IsFinal P (rpc_error s) job = tt
classify-IsFinal P (other s) job = tt

module _ (P : Platform) (D : IsDocumented P) (T : TreeInvariant P D) where
  ruleset prove_rules = (
    keeps_rules, classify-IsFinal, get_zk_client_local-Intact, get_zk_client_remote-Intact,
    get_proof_setup_local-Intact, get_proof_setup_remote-Intact, finalize_job-Intact,
    send_job_with_new_status-Intact,
  )

  handle_zk_client_error-Intact :
      (error : Sp1NetworkError) (job : Job) (key : Bytes)
      → T.Allowed key
      → KeepsIntact P D T (handle_zk_client_error P error job key)
  unfolding handle_zk_client_error
  handle_zk_client_error-Intact error job key p = search prove_rules depth 12

  handled :
      {A : Type 0} (text : String → String) (job : Job) (key : Bytes) (r : Result ProverError A)
      → T.Allowed key
      → KeepsIntact P D T (or_handle P text job key r)
  unfolding or_handle
  handled text job key (ok a) p = search prove_rules
  handled text job key (err (network error)) p =
      search (prove_rules, handle_zk_client_error-Intact) depth 12
  handled text job key (err (unknown e)) p = search prove_rules

  pub encryption_key-Intact : (w : World P) → KeepsIntact P D T (encryption_key P w)
  unfolding encryption_key
  encryption_key-Intact w = search prove_rules depth 12

  nonce_drawn : (w : World P) → KeepsIntact P D T (draw_nonce P w)
  unfolding draw_nonce
  nonce_drawn w = search prove_rules depth 12

  ruleset proving_rules = (prove_rules, handled, encryption_key-Intact, nonce_drawn)

  zk_proof_local-Intact :
      (w : World P) (id : Bytes) (job : Job) (key : Bytes)
      → T.Allowed key
      → KeepsIntact P D T (zk_proof_local P w id job key)
  unfolding zk_proof_local
  zk_proof_local-Intact w id job key p = search proving_rules depth 20

  zk_proof_remote-Intact :
      (w : World P) (id : Bytes) (job : Job) (key : Bytes)
      → T.Allowed key
      → KeepsIntact P D T (zk_proof_remote P w id job key)
  unfolding zk_proof_remote
  zk_proof_remote-Intact w id job key p = search proving_rules depth 24

  wait_for_zk_proof-Intact :
      (w : World P) (job : Job) (key id : Bytes)
      → T.Allowed key
      → KeepsIntact P D T (wait_for_zk_proof P w job key id)
  unfolding wait_for_zk_proof
  wait_for_zk_proof-Intact w job key id p = search proving_rules depth 12

  followed :
      {A : Type 0} (next : A → Method P (Unit {0})) (r : Result PdaRunnerError A)
      → ((a : A) → KeepsIntact P D T (next a))
      → KeepsIntact P D T (then_or_log P next r)
  unfolding then_or_log
  followed next (ok a) k = k a
  followed next (err e) k = search prove_rules

  ruleset drive_rules = (
    prove_rules, zk_proof_local-Intact, zk_proof_remote-Intact, wait_for_zk_proof-Intact, followed,
  )

  pub drive-Intact :
      (w : World P) (job : Job) (key : Bytes) (status : JobStatus P.Proof)
      → T.Allowed key
      → KeepsIntact P D T (drive P w job key status)
  unfolding drive
  drive-Intact w job key local_zk_proof_pending p = search drive_rules depth 12
  drive-Intact w job key remote_zk_proof_requesting p = search drive_rules depth 12
  drive-Intact w job key (remote_zk_proof_pending id) p = search drive_rules depth 12
  drive-Intact w job key (zk_proof_finished proof) p = search prove_rules
  drive-Intact w job key (failed error maybe_status) p = search prove_rules

  queued_driven :
      (w : World P) (job : Job) (key : Bytes) (o : Option Bytes)
      → T.Allowed key
      → KeepsIntact P D T (drive_queued P w job key o)
  unfolding drive_queued
  queued_driven w job key none p = search prove_rules
  queued_driven w job key (some b) p = search (prove_rules, drive-Intact) depth 12

  -- Whatever status the job has and whatever the prover answers, `prove` keeps the property.
  pub prove-Intact : (w : World P) (job : Job) → KeepsIntact P D T (prove P w job)
  unfolding prove drive_queued ◌>>=◌
  prove-Intact w job = record {
    at = λ r h. elim (Result-cases (P.serialize_anchor job.anchor)) [
      | inr (message, e) ↦ rw e h
      | inl (key, e) ↦ elim (Result-cases (P.get r.queue_db key)) [
        | inr (message, f) ↦ rw (e, f) h
        | inl (o, f) ↦ elim (T.guarded r.queue_db r.finished_db key h.trees) [
          | inl p ↦ rw (e, f) ((queued_driven w job key o p).at r h)
          | inr (b, status, unqueued, _, _, _) ↦
              let absent : o ≡ none = sym (D.get-contents r.queue_db key o f) ∙ unqueued in
              rw (e, f, absent) h
        ]
      ]
    ];
  }
