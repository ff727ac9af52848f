-- ===== src/Service/Runner/Failures.antt =====
-- A job of the prover network that fails: what the worker leaves behind, and what a later request
-- for it does.
use pda_proxy.Base.{
  ◌≡◌, refl, sym, ◌∙◌, List, Option, none, some, ◌<>◌, [], ◌∷◌, ◌++◌, Bytes, ok, err, bytes_eq_refl,
}
use pda_proxy.Service.Job.{
  PdaRunnerError, internal_error, error_debug, Job, JobStatus, permanent, retry_with,
  remote_zk_proof_pending, failed,
}
use pda_proxy.Service.Action.{done, fail, ◌>>=◌}
use pda_proxy.Service.Platform.{
  Platform, World, IsDocumented, Write, queue_tx, finished_tx, remove, insert, Sp1NetworkError,
  simulation_failed, request_unexecutable, request_unfulfillable, request_timed_out, rpc_error,
  other, network,
}
use pda_proxy.Service.Runner.State.{Runner, transact, send_message}
use pda_proxy.Service.Runner.Setup.{get_zk_client_remote, or_build_remote}
use pda_proxy.Service.Runner.Jobs.{finalize_job, send_job_with_new_status}
use pda_proxy.Service.Runner.Proving.{
  classify, handle_zk_client_error, or_handle, wait_for_zk_proof, then_or_log, drive, drive_queued,
  prove,
}
use pda_proxy.Service.Runner.Requests.{retrying, answer_finished, answer, get_verifiable_encryption}
use pda_proxy.Service.Runner.Lifecycle.{finalizing}

-- What `send_job_with_new_status` writes.
abbrev pub requeuing : Bytes → Bytes → List Write
requeuing key b = remove finished_tx key ∷ insert queue_tx key b ∷ []

-- The failures that no retry can mend.
abbrev pub IsPermanent : Sp1NetworkError → Type 0
IsPermanent simulation_failed = Unit
IsPermanent (request_unexecutable id) = Unit
IsPermanent (request_unfulfillable id) = Unit
IsPermanent (request_timed_out id) = ⊥
IsPermanent (rpc_error s) = ⊥
IsPermanent (other s) = ⊥

module _ (P : Platform) (D : IsDocumented P) where
  classify-permanent :
      (e : Sp1NetworkError) (job : Job)
      → IsPermanent e
      → (classify P e job).1 ≡ failed (classify P e job).0 permanent
  unfolding classify
  classify-permanent simulation_failed job p = refl
  classify-permanent (request_unexecutable id) job p = refl
  classify-permanent (request_unfulfillable id) job p = refl
  classify-permanent (request_timed_out id) job p = absurd p
  classify-permanent (rpc_error s) job p = absurd p
  classify-permanent (other s) job p = absurd p

  -- `job` waits for the network's request `id`, and the client is built.
  abbrev pub IsWaiting : Job → Bytes → Bytes → P.RemoteClient → Runner P → Type 0
  IsWaiting job key id client r =
      (b : Bytes) × (P.serialize_anchor job.anchor ≡ ok key)
      × (P.get r.queue_db key ≡ ok (some b))
      × (P.deserialize_status b ≡ ok (remote_zk_proof_pending id))
      × (r.zk_client_handle_remote ≡ some client)

  prove-network_error :
      (w : World P) (job : Job) (key id b : Bytes) (client : P.RemoteClient) (e : Sp1NetworkError)
      (r : Runner P) (queue' finished' : P.Tree)
      → IsWaiting job key id client r
      → w.wait_proof client id ≡ err (network e)
      → P.serialize_status (classify P e job).1 ≡ ok b
      → P.transaction (r.queue_db, r.finished_db) (finalizing key b) ≡ ok (queue', finished')
      → prove P w job r ≡ (done tt, record r { queue_db = queue'; finished_db = finished' })
  unfolding prove drive_queued drive then_or_log wait_for_zk_proof get_zk_client_remote
      or_build_remote or_handle handle_zk_client_error finalize_job transact ◌>>=◌
  prove-network_error w job key id b client e r queue' finished'
        (q, anchored, found, waiting, built) failed_run serialized committed =
      rw (anchored, found, waiting, built, failed_run, serialized, committed)

  -- When the network reports a failure that is permanent, the worker takes the job out of the queue,
  -- and every later request that can read the finished tree fails with this error, without changing
  -- anything or sending the job again.
  pub prove-permanent :
      (w w' : World P) (job : Job) (key id b : Bytes) (client : P.RemoteClient)
      (e : Sp1NetworkError) (r : Runner P) (queue' finished' : P.Tree) (o : Option Bytes)
      → IsWaiting job key id client r
      → w.wait_proof client id ≡ err (network e)
      → IsPermanent e
      → P.serialize_status (classify P e job).1 ≡ ok b
      → P.transaction (r.queue_db, r.finished_db) (finalizing key b) ≡ ok (queue', finished')
      → P.get finished' key ≡ ok o
      → (t : Runner P) × (prove P w job r ≡ (done tt, t))
        × (D.contents t.queue_db key ≡ none)
        × (get_verifiable_encryption P w' job t
            ≡ (fail (internal_error (error_debug (classify P e job).0)), t))
  unfolding get_verifiable_encryption answer answer_finished ◌>>=◌
  prove-permanent w w' job key id b client e r queue' finished' o waiting failed_run p serialized
        committed readable =
      let (q, anchored, _, _, _) = waiting in
      let (removed, inserted) =
        D.contents-transaction r.queue_db r.finished_db (finalizing key b) queue' finished' key
          committed in
      let is_b : o ≡ some b =
        sym (D.get-contents finished' key o readable) ∙ inserted ∙ rw (bytes_eq_refl key) in
      (
        record r { queue_db = queue'; finished_db = finished' },
        prove-network_error w job key id b client e r queue' finished' waiting failed_run serialized
            committed,
        removed ∙ rw (bytes_eq_refl key),
        rw (
          anchored,
          readable,
          is_b,
          D.deserialize-serialize _ b serialized,
          classify-permanent e job p,
        ),
      )

  -- A request for a job whose failure allows a retry fails with the earlier error, but it moves the
  -- job from the finished tree back into the queue with the status to retry with, and sends exactly
  -- this job to the worker.
  pub get_verifiable_encryption-retries :
      (w : World P) (job : Job) (key b c : Bytes) (error : PdaRunnerError)
      (status : JobStatus P.Proof) (r : Runner P) (queue' finished' : P.Tree) (channel' : P.Channel)
      → P.serialize_anchor job.anchor ≡ ok key
      → P.get r.finished_db key ≡ ok (some b)
      → P.deserialize_status b ≡ ok (failed error (retry_with status))
      → P.serialize_status status ≡ ok c
      → P.transaction (r.queue_db, r.finished_db) (requeuing key c) ≡ ok (queue', finished')
      → P.send r.job_sender (some job) ≡ ok channel'
      → (t : Runner P) × (get_verifiable_encryption P w job r
          ≡ (fail (internal_error ("Retrying! Previous error: " <> error_debug error)), t))
        × (D.contents t.finished_db key ≡ none)
        × (D.contents t.queue_db key ≡ some c)
        × (D.messages t.job_sender ≡ D.messages r.job_sender ++ (some job ∷ []))
  unfolding get_verifiable_encryption answer answer_finished retrying send_job_with_new_status
      transact send_message ◌>>=◌
  get_verifiable_encryption-retries w job key b c error status r queue' finished' channel' anchored
        found is_failed serialized committed sent =
      let (inserted, removed) =
        D.contents-transaction r.queue_db r.finished_db (requeuing key c) queue' finished' key
          committed in
      (
        record r { queue_db = queue'; finished_db = finished'; job_sender = channel' },
        rw (anchored, found, is_failed, serialized, committed, sent),
        removed ∙ rw (bytes_eq_refl key),
        inserted ∙ rw (bytes_eq_refl key),
        D.messages-send r.job_sender (some job) channel' sent,
      )
