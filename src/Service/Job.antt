-- ===== src/Service/Job.antt =====
-- service/src/internal/job.rs and service/src/internal/error.rs: jobs, the statuses that a job goes
-- through, and the errors, with their texts.
use pda_proxy.Base.{String, ◌<>◌, Bytes}
use pda_proxy.Zkvm.Hex.{bytes_to_hex}

pub data PdaRunnerError : Type 0 where
  internal_error zk_client_error da_client_error invalid_parameter : String → PdaRunnerError

-- `Display`, from the `#[error]` attributes.
unfoldable pub error_display : PdaRunnerError → String
error_display (internal_error s) = "Service: " <> s
error_display (zk_client_error s) = "ZK Prover: " <> s
error_display (da_client_error s) = "Data Availability Node: " <> s
error_display (invalid_parameter s) = "Invalid parameter: " <> s

unfoldable pub error_debug : PdaRunnerError → String
error_debug (internal_error s) = "InternalError(" <> s <> ")"
error_debug (zk_client_error s) = "ZkClientError(" <> s <> ")"
error_debug (da_client_error s) = "DaClientError(" <> s <> ")"
error_debug (invalid_parameter s) = "InvalidParameter(" <> s <> ")"

pub record Input : Type 0 where
  pub data_bytes : Bytes

pub record Anchor : Type 0 where
  pub data_bytes : Bytes

pub record Job : Type 0 where
  pub anchor : Anchor
  pub input : Input

unfoldable pub anchor_debug : Anchor → String
anchor_debug a = "Anchor { data (hex): \"" <> bytes_to_hex a.data_bytes <> "\" }"

-- The derived `Debug`, over that of the input.
unfoldable pub job_debug : (Input → String) → Job → String
unfolding anchor_debug
job_debug input_debug job =
    "Job { anchor: " <> anchor_debug job.anchor <> ", input: " <> input_debug job.input <> " }"

-- `MaybeStatus` is `Option<Box<JobStatus>>`.
mutual
  pub data JobStatus (Proof : Type 0) : Type 0 where
    local_zk_proof_pending : JobStatus Proof
    remote_zk_proof_requesting : JobStatus Proof
    remote_zk_proof_pending : Bytes → JobStatus Proof
    zk_proof_finished : Proof → JobStatus Proof
    failed : PdaRunnerError → MaybeStatus Proof → JobStatus Proof

  pub data MaybeStatus (Proof : Type 0) : Type 0 where
    permanent : MaybeStatus Proof
    retry_with : JobStatus Proof → MaybeStatus Proof

unfoldable pub status_debug : {Proof : Type 0} → JobStatus Proof → String
status_debug local_zk_proof_pending = "LocalZkProofPending"
status_debug remote_zk_proof_requesting = "RemoteZkProofRequesting"
status_debug (remote_zk_proof_pending request_id) = "RemoteZkProofPending"
status_debug (zk_proof_finished proof) = "ZkProofFinished"
status_debug (failed error maybe_status) = "Failed"
