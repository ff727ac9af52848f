-- ===== src/Service/Runner/Jobs.antt =====
-- The two moves of a job between the trees: `finalize_job` and `send_job_with_new_status`.
use pda_proxy.Base.{some, [], ◌∷◌, Bytes}
use pda_proxy.Service.Job.{Job, JobStatus}
use pda_proxy.Service.Action.{◌>>=◌, ◌>>◌, expect}
use pda_proxy.Service.Platform.{Platform, queue_tx, finished_tx, remove, insert}
use pda_proxy.Service.Runner.State.{Method, send_message, transact}

module _ (P : Platform) where
  unfoldable pub finalize_job : Bytes → JobStatus P.Proof → Method P (Unit {0})
  finalize_job job_key job_status = do
    serialized ← expect "Always given serializable job status" (P.serialize_status job_status)
    transact P (remove queue_tx job_key ∷ insert finished_tx job_key serialized ∷ [])

  unfoldable pub send_job_with_new_status : Bytes → JobStatus P.Proof → Job → Method P (Unit {0})
  send_job_with_new_status job_key update_status job = do
    serialized ← expect "Always given serializable job status" (P.serialize_status update_status)
    transact P (remove finished_tx job_key ∷ insert queue_tx job_key serialized ∷ [])
    send_message P (some job)
