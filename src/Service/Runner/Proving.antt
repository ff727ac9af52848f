-- ===== src/Service/Runner/Proving.antt =====
-- One step of a job towards its proof: `prove` and what it calls.
use pda_proxy.Base.{Option, none, some, String, ◌<>◌, [], ◌∷◌, Bytes, Result, ok, err, ok_or}
use pda_proxy.Zkvm.Cli.{random_nonce}
use pda_proxy.Service.Job.{
  PdaRunnerError, internal_error, zk_client_error, Job, job_debug, JobStatus, permanent, retry_with,
  local_zk_proof_pending, remote_zk_proof_requesting, remote_zk_proof_pending, zk_proof_finished,
  failed,
}
use pda_proxy.Service.Action.{◌>>=◌, pure, throw, gets, lift_with, expect, expect_some, attempt}
use pda_proxy.Service.Platform.{
  Platform, World, Sp1NetworkError, simulation_failed, request_unexecutable, request_unfulfillable,
  request_timed_out, rpc_error, other, ProverError, network, unknown,
}
use pda_proxy.Service.Runner.State.{Method, internal}
use pda_proxy.Service.Runner.Setup.{
  get_program_id, get_zk_client_local, get_zk_client_remote, get_proof_setup_local,
  get_proof_setup_remote,
}
use pda_proxy.Service.Runner.Jobs.{finalize_job, send_job_with_new_status}

module _ (P : Platform) where
  unfoldable pub critical : Sp1NetworkError → Job → String
  critical error job =
      "ZKP program critical failure: "
      <> P.display_network_error error
      <> " occurred for "
      <> job_debug P.input_debug job
      <> " PLEASE REPORT!"

  unfoldable pub network_failure : Sp1NetworkError → Job → String
  network_failure error job =
      "ZKP network failure: "
      <> P.display_network_error error
      <> " occurred for "
      <> job_debug P.input_debug job
      <> " PLEASE REPORT!"

  unfoldable pub start_over : Sp1NetworkError → Job → String
  start_over error job =
      "ZKP network: "
      <> P.display_network_error error
      <> " occurred for "
      <> job_debug P.input_debug job
      <> " - callback to start the job over"

  -- The error that a failed call of the prover gives, and the status that the job is left in.
  unfoldable pub classify : Sp1NetworkError → Job → PdaRunnerError × JobStatus P.Proof
  classify simulation_failed job =
      let e = zk_client_error (critical simulation_failed job) in (e, failed e permanent)
  classify (request_unexecutable id) job =
      let e = zk_client_error (critical (request_unexecutable id) job) in (e, failed e permanent)
  classify (request_unfulfillable id) job =
      let e = zk_client_error (network_failure (request_unfulfillable id) job) in
      (e, failed e permanent)
  classify (request_timed_out id) job =
      let e = zk_client_error (start_over (request_timed_out id) job) in
      (e, failed e (retry_with remote_zk_proof_requesting))
  classify (rpc_error s) job =
      let e = zk_client_error (network_failure (rpc_error s) job) in
      (e, failed e (retry_with remote_zk_proof_requesting))
  classify (other s) job =
      let e = zk_client_error (network_failure (other s) job) in
      (e, failed e (retry_with remote_zk_proof_requesting))

  unfoldable pub either_error : PdaRunnerError → Result PdaRunnerError (Unit {0}) → PdaRunnerError
  either_error e (ok _) = e
  either_error e (err internal_err) = internal_err

  unfoldable pub handle_zk_client_error : Sp1NetworkError → Job → Bytes → Method P PdaRunnerError
  handle_zk_client_error error job job_key = do
    let (e, job_status) = classify error job
    finalized ← attempt (finalize_job P job_key job_status)
    pure (either_error e finalized)

  -- The `map_err` behind each call of the prover, with its `?`; `text` is the message for an error
  -- that is not the network's.
  unfoldable pub or_handle :
      {A : Type 0} → (String → String) → Job → Bytes → Result ProverError A → Method P A
  or_handle text job job_key (ok a) = pure a
  or_handle text job job_key (err (network error)) = do
    throw (← handle_zk_client_error error job job_key)
  or_handle text job job_key (err (unknown e)) = throw (zk_client_error (text e))

  unfoldable pub unhandled : String → String
  unhandled e = "Unhandled Error: " <> e <> " PLEASE REPORT"

  unfoldable pub encryption_key : World P → Method P Bytes
  encryption_key w = do
    key_text ← expect_some "Missing ENCRYPTION_KEY env var" (w.var "ENCRYPTION_KEY")
    expect_some "ENCRYPTION_KEY must be 32 bytes, hex encoded (ex: `1234...abcd`)"
        (P.from_hex 32 key_text)

  unfoldable pub draw_nonce : World P → Method P Bytes
  draw_nonce w = expect "Rng->buffer" (random_nonce w.try_fill_bytes)

  unfoldable pub zk_proof_local : World P → Bytes → Job → Bytes → Method P P.Proof
  zk_proof_local w program_id job job_key = do
    zk_client_handle ← get_zk_client_local P
    proof_setup ← get_proof_setup_local P w program_id zk_client_handle
    key ← encryption_key w
    nonce ← draw_nonce w
    let stdin = key ∷ nonce ∷ job.input.data_bytes ∷ []
    or_handle unhandled job job_key (w.run_local zk_client_handle proof_setup.pk stdin)

  unfoldable pub zk_proof_remote : World P → Bytes → Job → Bytes → Method P Bytes
  zk_proof_remote w program_id job job_key = do
    zk_client_handle ← get_zk_client_remote P
    proof_setup ← get_proof_setup_remote P w program_id zk_client_handle
    fs_string ←
        expect_some "Missing SP1_FULFILLMENT_STRATEGY env var" (w.var "SP1_FULFILLMENT_STRATEGY")
    strategy ←
        lift_with (λ e. e)
          (ok_or (P.from_str_name fs_string)
            (internal_error "SP1_FULFILLMENT_STRATEGY env var malformed"))
    key ← encryption_key w
    nonce ← draw_nonce w
    let stdin = key ∷ nonce ∷ job.input.data_bytes ∷ []
    timeout ← gets (λ r. r.zk_proof_gen_timeout_remote)
    or_handle unhandled job job_key
        (w.request_async zk_client_handle proof_setup.pk stdin strategy timeout)

  unfoldable pub wait_for_zk_proof : World P → Job → Bytes → Bytes → Method P P.Proof
  wait_for_zk_proof w job job_key request_id = do
    zk_client_handle ← get_zk_client_remote P
    or_handle unhandled job job_key (w.wait_proof zk_client_handle request_id)

  -- What follows a step of `prove`: an error has been dealt with, and is only logged.
  unfoldable pub then_or_log :
      {A : Type 0} → (A → Method P (Unit {0})) → Result PdaRunnerError A → Method P (Unit {0})
  then_or_log next (ok a) = next a
  then_or_log next (err e) = pure tt

  -- The `match job_status` of `prove`.
  unfoldable pub drive : World P → Job → Bytes → JobStatus P.Proof → Method P (Unit {0})
  drive w job job_key remote_zk_proof_requesting = do
    result ← attempt (zk_proof_remote w (get_program_id P) job job_key)
    then_or_log
        (λ zk_job_id. send_job_with_new_status P job_key (remote_zk_proof_pending zk_job_id) job)
        result
  drive w job job_key (remote_zk_proof_pending zk_request_id) = do
    result ← attempt (wait_for_zk_proof w job job_key zk_request_id)
    then_or_log (λ zk_proof. finalize_job P job_key (zk_proof_finished zk_proof)) result
  drive w job job_key local_zk_proof_pending = do
    result ← attempt (zk_proof_local w (get_program_id P) job job_key)
    then_or_log (λ zk_proof. finalize_job P job_key (zk_proof_finished zk_proof)) result
  drive w job job_key (zk_proof_finished proof) = pure tt
  drive w job job_key (failed error maybe_status) = pure tt

  unfoldable pub drive_queued : World P → Job → Bytes → Option Bytes → Method P (Unit {0})
  drive_queued w job job_key none = pure tt
  drive_queued w job job_key (some queue_data) = do
    job_status ← internal (P.deserialize_status queue_data)
    drive w job job_key job_status

  unfoldable pub prove : World P → Job → Method P (Unit {0})
  prove w job = do
    job_key ← internal (P.serialize_anchor job.anchor)
    queue ← gets (λ r. r.queue_db)
    queue_data ← internal (P.get queue job_key)
    drive_queued w job job_key queue_data
