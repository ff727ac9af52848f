-- ===== src/Service/Runner/Requests.antt =====
-- A client's request: `get_verifiable_encryption`.
use pda_proxy.Base.{
  Bool, ◌||◌, Option, none, some, String, ◌<>◌, Bytes, Result, ok, err, if◌then◌else◌, str_eq,
}
use pda_proxy.Service.Job.{
  PdaRunnerError, internal_error, error_debug, Job, JobStatus, permanent, retry_with,
  local_zk_proof_pending, remote_zk_proof_requesting, remote_zk_proof_pending, zk_proof_finished,
  failed,
}
use pda_proxy.Service.Action.{◌>>=◌, ◌>>◌, pure, throw, gets, modify, expect_some, attempt}
use pda_proxy.Service.Platform.{Platform, World}
use pda_proxy.Service.Runner.State.{Method, internal, send_message}
use pda_proxy.Service.Runner.Jobs.{send_job_with_new_status}

abbrev pub is_local_prover : String → Bool
is_local_prover prover_type =
    str_eq prover_type "cuda" || (str_eq prover_type "cpu" || str_eq prover_type "mock")

module _ (P : Platform) where
  unfoldable pub retrying : PdaRunnerError → Result PdaRunnerError (Unit {0}) → PdaRunnerError
  retrying error (ok _) = internal_error ("Retrying! Previous error: " <> error_debug error)
  retrying error (err e) =
      internal_error ("PLEASE REPORT! Internal error, cannot retry: " <> error_debug e)

  -- The `match` on the status found in `finished_db`.
  unfoldable pub answer_finished : Job → Bytes → JobStatus P.Proof → Method P (Option P.Proof)
  answer_finished job job_key (zk_proof_finished proof) = pure (some proof)
  answer_finished job job_key (failed error permanent) = throw (internal_error (error_debug error))
  answer_finished job job_key (failed error (retry_with retry_status)) = do
    sent ← attempt (send_job_with_new_status P job_key retry_status job)
    throw (retrying error sent)
  answer_finished job job_key local_zk_proof_pending =
      throw (internal_error "PLEASE REPORT! Finished DB is in invalid state")
  answer_finished job job_key remote_zk_proof_requesting =
      throw (internal_error "PLEASE REPORT! Finished DB is in invalid state")
  answer_finished job job_key (remote_zk_proof_pending request_id) =
      throw (internal_error "PLEASE REPORT! Finished DB is in invalid state")

  -- The `match` on the status found in `queue_db`.
  unfoldable pub answer_queued : Bytes → JobStatus P.Proof → Method P (Option P.Proof)
  answer_queued job_key local_zk_proof_pending = pure none
  answer_queued job_key remote_zk_proof_requesting = pure none
  answer_queued job_key (remote_zk_proof_pending request_id) = pure none
  answer_queued job_key (zk_proof_finished proof) =
      throw (internal_error ("0x" <> P.hex_encode job_key <> " - Job queue is in invalid state"))
  answer_queued job_key (failed error maybe_status) =
      throw (internal_error ("0x" <> P.hex_encode job_key <> " - Job queue is in invalid state"))

  -- The status that a new job starts in, by the variable `SP1_PROVER`.
  unfoldable pub initial_status : String → Method P (JobStatus P.Proof)
  initial_status prover_type =
      if str_eq prover_type "network"
      then pure remote_zk_proof_requesting
      else if is_local_prover prover_type
      then pure local_zk_proof_pending
      else throw (internal_error ("SP1_PROVER is unkown: " <> prover_type))

  -- Into `queue_db` first, and then to the worker.
  unfoldable pub enqueue : Job → Bytes → JobStatus P.Proof → Method P (Option P.Proof)
  enqueue job job_key status = do
    serialized ← internal (P.serialize_status status)
    queue ← gets (λ r. r.queue_db)
    queue' ← internal (P.insert_into queue job_key serialized)
    modify (λ r. record r { queue_db = queue' })
    send_message P (some job)
    pure none

  unfoldable pub start_job : World P → Job → Bytes → Method P (Option P.Proof)
  start_job w job job_key = do
    prover_type ← expect_some "Missing SP1_PROVER env var" (w.var "SP1_PROVER")
    status ← initial_status prover_type
    enqueue job job_key status

  unfoldable pub answer_queue : World P → Job → Bytes → Option Bytes → Method P (Option P.Proof)
  answer_queue w job job_key (some queue_data) = do
    job_status ← internal (P.deserialize_status queue_data)
    answer_queued job_key job_status
  answer_queue w job job_key none = start_job w job job_key

  unfoldable pub answer : World P → Job → Bytes → Option Bytes → Method P (Option P.Proof)
  answer w job job_key (some proof_data) = do
    job_status ← internal (P.deserialize_status proof_data)
    answer_finished job job_key job_status
  answer w job job_key none = do
    queue ← gets (λ r. r.queue_db)
    queue_data ← internal (P.get queue job_key)
    answer_queue w job job_key queue_data

  unfoldable pub get_verifiable_encryption : World P → Job → Method P (Option P.Proof)
  get_verifiable_encryption w job = do
    job_key ← internal (P.serialize_anchor job.anchor)
    finished ← gets (λ r. r.finished_db)
    proof_data ← internal (P.get finished job_key)
    answer w job job_key proof_data
