-- ===== src/Service/Runner/Registry/Work.antt =====
-- A run of the worker, by the reply of the prover, against the phases of a job.
use pda_proxy.Base.{◌≡◌, refl, some, Bytes, Result, ok, err}
use pda_proxy.Service.Job.{
  Job, JobStatus, local_zk_proof_pending, remote_zk_proof_requesting, remote_zk_proof_pending,
  zk_proof_finished,
}
use pda_proxy.Service.Action.{done, attempt, ◌>>=◌}
use pda_proxy.Service.Platform.{
  Platform, World, IsDocumented, Sp1NetworkError, simulation_failed, request_unexecutable,
  request_unfulfillable, request_timed_out, rpc_error, other, ProverError, network, unknown,
}
use pda_proxy.Service.Runner.State.{Runner, Method}
use pda_proxy.Service.Runner.Setup.{Setup, get_zk_client_remote, or_build_remote}
use pda_proxy.Service.Runner.Jobs.{finalize_job, send_job_with_new_status}
use pda_proxy.Service.Runner.Proving.{
  classify, handle_zk_client_error, or_handle, unhandled, wait_for_zk_proof, then_or_log, drive,
  drive_queued, prove,
}
use pda_proxy.Service.Runner.Invariant.{IsFinal}
use pda_proxy.Service.Runner.Network.{IsReadyRemote, zk_proof_remote-ready}
use pda_proxy.Service.Runner.Lifecycle.{IsReady, stdin, zk_proof_local-ready}
use pda_proxy.Service.Runner.Registry.{
  Effect, queued, replied, with_proof, with_request, At, IsReliable, IsWritable, Moves,
}
use pda_proxy.Service.Runner.Registry.Moves.{stayed, settled_down, moved_back}

module _ (P : Platform) (D : IsDocumented P) where
  classify-IsFinal : (e : Sp1NetworkError) (job : Job) → IsFinal (classify P e job).1
  unfolding classify
  classify-IsFinal simulation_failed job = tt
  classify-IsFinal (request_unexecutable id) job = tt
  classify-IsFinal (request_unfulfillable id) job = tt
  classify-IsFinal (request_timed_out id) job = tt
  classify-IsFinal (rpc_error s) job = tt
  classify-IsFinal (other s) job = tt

  -- The end of a run that got the reply: what the caller of the prover does with it, and `prove`
  -- after it.
  concluded :
      {A : Type 0} (job : Job) (key : Bytes) (status : JobStatus P.Proof)
      (next : A → Effect P.Proof) (then : A → Method P (Unit {0})) (reply : Result ProverError A)
      (r : Runner P)
      → IsReliable P D
      → At P D r key (queued status)
      → ((a : A)
          → IsWritable P D (next a).0
          → (t : Runner P) × (then a r ≡ (done tt, t)) × Moves P D job key (next a) r t)
      → IsWritable P D (replied P job status next reply).0
      → (t : Runner P) × ((attempt (or_handle P (unhandled P) job key reply) >>= then_or_log P then)
            r
          ≡ (done tt, t))
        × Moves P D job key (replied P job status next reply) r t
  unfolding or_handle handle_zk_client_error then_or_log ◌>>=◌
  concluded job key status next then (ok a) r reliable there follows written = follows a written
  concluded job key status next then (err (network e)) r reliable there follows written =
      let (t, finalized, moves) =
        settled_down P D job key (classify P e job).1 r reliable (classify-IsFinal e job) written in
      (t, rw finalized, moves)
  concluded job key status next then (err (unknown text)) r reliable there follows written =
      (r, refl, stayed P D job key (queued status) r there)

  -- A run of the local prover refines the phases: where the database works, the prover is ready, and
  -- the status of the next phase can be written, the run for a job that is queued for the local
  -- prover ends without an error, leaves the job in the phase that the prover's reply gives,
  -- whichever reply it is, sends nothing, and touches no other job.
  pub prove_local-replied :
      (w : World P) (job : Job) (job_key key nonce : Bytes) (client : P.LocalClient)
      (setup : Setup P) (reply : Result ProverError P.Proof) (r : Runner P)
      → IsReliable P D
      → P.serialize_anchor job.anchor ≡ ok job_key
      → At P D r job_key (queued local_zk_proof_pending)
      → IsReady P D w client setup key nonce r
      → w.run_local client setup.pk (stdin P D key nonce job) ≡ reply
      → IsWritable P D (replied P job local_zk_proof_pending with_proof reply).0
      → (t : Runner P) × (prove P w job r ≡ (done tt, t))
        × Moves P D job job_key (replied P job local_zk_proof_pending with_proof reply) r t
  unfolding prove drive_queued drive ◌>>=◌
  prove_local-replied w job job_key key nonce client setup reply r reliable anchored there is_ready
        ran written =
      let (b, found, decoded, pending, unfinished) = there in
      let (t, ended, moves) =
        concluded job job_key local_zk_proof_pending with_proof
          (λ proof. finalize_job P job_key (zk_proof_finished proof)) reply r reliable there
          (λ proof. settled_down P D job job_key (zk_proof_finished proof) r reliable tt) written in
      (
        t,
        rw (
          anchored,
          reliable.reads r.queue_db job_key,
          found,
          decoded,
          zk_proof_local-ready P D w job job_key client setup key nonce r is_ready,
          ran,
          ended,
        ),
        moves,
      )

  wait_for_zk_proof-built :
      (w : World P) (job : Job) (key id : Bytes) (client : P.RemoteClient) (r : Runner P)
      → r.zk_client_handle_remote ≡ some client
      → wait_for_zk_proof P w job key id r
        ≡ or_handle P (unhandled P) job key (w.wait_proof client id) r
  unfolding wait_for_zk_proof get_zk_client_remote or_build_remote ◌>>=◌
  wait_for_zk_proof-built w job key id client r built = rw built

  -- A run that waits for the network refines the phases: where the database works, the client is
  -- built, and the status of the next phase can be written, the run for a job that waits for a
  -- request ends without an error, leaves the job in the phase that the network's reply gives,
  -- whichever reply it is, sends nothing, and touches no other job.
  pub prove_waiting-replied :
      (w : World P) (job : Job) (key id : Bytes) (client : P.RemoteClient)
      (reply : Result ProverError P.Proof) (r : Runner P)
      → IsReliable P D
      → P.serialize_anchor job.anchor ≡ ok key
      → At P D r key (queued (remote_zk_proof_pending id))
      → r.zk_client_handle_remote ≡ some client
      → w.wait_proof client id ≡ reply
      → IsWritable P D (replied P job (remote_zk_proof_pending id) with_proof reply).0
      → (t : Runner P) × (prove P w job r ≡ (done tt, t))
        × Moves P D job key (replied P job (remote_zk_proof_pending id) with_proof reply) r t
  unfolding prove drive_queued drive ◌>>=◌
  prove_waiting-replied w job key id client reply r reliable anchored there built ran written =
      let (b, found, decoded, pending, unfinished) = there in
      let (t, ended, moves) =
        concluded job key (remote_zk_proof_pending id) with_proof
          (λ proof. finalize_job P key (zk_proof_finished proof)) reply r reliable there
          (λ proof. settled_down P D job key (zk_proof_finished proof) r reliable tt) written in
      (
        t,
        rw (
          anchored,
          reliable.reads r.queue_db key,
          found,
          decoded,
          wait_for_zk_proof-built w job key id client r built,
          ran,
          ended,
        ),
        moves,
      )

  -- A run that requests a proof refines the phases: where the database and the channel work, the
  -- network's client is ready, and the status of the next phase can be written, the run for a job
  -- that is queued for the network ends without an error, leaves the job in the phase that the
  -- network's reply gives, whichever reply it is, sends the job to the worker again exactly when the
  -- network accepted the request, and touches no other job.
  pub prove_requesting-replied :
      (w : World P) (job : Job) (job_key key nonce : Bytes) (client : P.RemoteClient)
      (setup : Setup P) (strategy : P.Strategy) (reply : Result ProverError Bytes) (r : Runner P)
      → IsReliable P D
      → P.serialize_anchor job.anchor ≡ ok job_key
      → At P D r job_key (queued remote_zk_proof_requesting)
      → IsReadyRemote P D w client setup strategy key nonce r
      → w.request_async client setup.pk
          (stdin P D key nonce job)
          strategy
          r.zk_proof_gen_timeout_remote
        ≡ reply
      → IsWritable P D (replied P job remote_zk_proof_requesting with_request reply).0
      → (t : Runner P) × (prove P w job r ≡ (done tt, t))
        × Moves P D job job_key (replied P job remote_zk_proof_requesting with_request reply) r t
  unfolding prove drive_queued drive ◌>>=◌
  prove_requesting-replied w job job_key key nonce client setup strategy reply r reliable anchored
        there is_ready ran written =
      let (b, found, decoded, pending, unfinished) = there in
      let (t, ended, moves) =
        concluded job job_key remote_zk_proof_requesting with_request
          (λ id. send_job_with_new_status P job_key (remote_zk_proof_pending id) job) reply r
          reliable there
          (λ id. moved_back P D job job_key (remote_zk_proof_pending id) r reliable tt) written in
      (
        t,
        rw (
          anchored,
          reliable.reads r.queue_db job_key,
          found,
          decoded,
          zk_proof_remote-ready P D w job job_key key nonce client setup strategy r is_ready,
          ran,
          ended,
        ),
        moves,
      )
