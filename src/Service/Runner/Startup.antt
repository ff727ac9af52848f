-- ===== src/Service/Runner/Startup.antt =====
-- The ends of the service's life: the loop of `main` in service/src/main.rs that restarts unfinished
-- jobs, and `PdaRunner::shutdown`.
use pda_proxy.Base.{
  ◌≡◌, Option, none, some, String, List, [], ◌∷◌, ◌++◌, ◌≢◌, Bytes, Result, ok, err,
}
use pda_proxy.Service.Job.{
  Input, Anchor, Job, JobStatus, local_zk_proof_pending, remote_zk_proof_requesting,
  remote_zk_proof_pending, zk_proof_finished, failed,
}
use pda_proxy.Service.Action.{◌>>=◌, ◌>>◌, panic, pure, gets, expect, attempt}
use pda_proxy.Service.Platform.{Platform}
use pda_proxy.Service.Runner.State.{Runner, Method, send_message}

module _ (P : Platform) where
  -- `let _ = job_sender.send(message)`
  unfoldable pub send_or_ignore : Option Job → Method P (Unit {0})
  send_or_ignore message = do sent ← attempt (send_message P message); pure tt

  unfoldable pub resume_status : Job → Result String (JobStatus P.Proof) → Method P (Unit {0})
  resume_status job (ok local_zk_proof_pending) = send_or_ignore (some job)
  resume_status job (ok (remote_zk_proof_pending request_id)) = send_or_ignore (some job)
  resume_status job (ok remote_zk_proof_requesting) = pure tt
  resume_status job (ok (zk_proof_finished proof)) = pure tt
  resume_status job (ok (failed error maybe_status)) = pure tt
  resume_status job (err message) = pure tt

  -- `flatten` skips what could not be read.
  unfoldable pub resume_entries : List (Result String (Bytes × Bytes)) → Method P (Unit {0})
  resume_entries [] = pure tt
  resume_entries (err e ∷ entries) = resume_entries entries
  resume_entries (ok (job_key, queue_data) ∷ entries) = do
    job ← expect "called `Result::unwrap()` on an `Err` value" (P.deserialize_job job_key)
    resume_status job (P.deserialize_status queue_data)
    resume_entries entries

  unfoldable pub resume : Method P (Unit {0})
  resume = do queue ← gets (λ r. r.queue_db); resume_entries (P.iter queue)

  unfoldable pub shutdown : Method P (Unit {0})
  shutdown = send_or_ignore none

-- What bincode documents of the structs: a job is its anchor followed by its input, which takes at
-- least its length prefix, and bytes that end before the value is complete are refused.
pub record IsBincode (P : Platform) : Type 0 where
  pub serialize_job : Job → Result String Bytes
  pub serialize_input : Input → Result String Bytes
  pub input-ne-nil : (i : Input) → serialize_input i ≢ ok []
  pub input_ok : Input
  pub input_ok_bytes : Bytes
  pub input_ok_lem : serialize_input input_ok ≡ ok input_ok_bytes
  pub serialize_job-append :
      (a : Anchor) (i : Input) (x y : Bytes)
      → P.serialize_anchor a ≡ ok x
      → serialize_input i ≡ ok y
      → serialize_job (record { anchor = a; input = i }) ≡ ok (x ++ y)
  pub truncated :
      (job : Job) (x y : Bytes)
      → serialize_job job ≡ ok (x ++ y)
      → y ≢ []
      → (e : String) × (P.deserialize_job x ≡ err e)

-- The keys of `queue_db` are serialized anchors, and the loop reads them as jobs: with an entry in
-- the queue whose key is that of an anchor, restarting panics and nothing is sent.
pub resume_panics :
    (P : Platform) (B : IsBincode P) (r : Runner P) (a : Anchor) (key queue_data : Bytes)
    (entries : List (Result String (Bytes × Bytes)))
    → P.serialize_anchor a ≡ ok key
    → P.iter r.queue_db ≡ ok (key, queue_data) ∷ entries
    → resume P r ≡ (panic "called `Result::unwrap()` on an `Err` value", r)
unfolding resume resume_entries ◌>>=◌
resume_panics P B r a key queue_data entries serialized listed =
    let job = B.serialize_job-append a B.input_ok key B.input_ok_bytes serialized B.input_ok_lem in
    let (e, refused) =
      B.truncated _ key B.input_ok_bytes job
        (λ empty. B.input-ne-nil B.input_ok (rw empty at B.input_ok_lem)) in
    rw (listed, refused)
