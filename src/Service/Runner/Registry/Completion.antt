-- ===== src/Service/Runner/Registry/Completion.antt =====
-- A job of the local prover from its first request to the answer, by the phases.
use pda_proxy.Base.{◌≡◌, ap, ◌∙◌, none, some, Bytes, ok}
use pda_proxy.Service.Job.{Job, local_zk_proof_pending, zk_proof_finished}
use pda_proxy.Service.Action.{done, ◌>>=◌}
use pda_proxy.Service.Platform.{Platform, World, IsDocumented}
use pda_proxy.Service.Runner.State.{Runner}
use pda_proxy.Service.Runner.Setup.{Setup}
use pda_proxy.Service.Runner.Proving.{prove}
use pda_proxy.Service.Runner.Requests.{answer, answer_finished, get_verifiable_encryption}
use pda_proxy.Service.Runner.Lifecycle.{IsReady, stdin}
use pda_proxy.Service.Runner.Registry.{absent, queued, settled, At, IsReliable, IsWritable}
use pda_proxy.Service.Runner.Registry.Request.{StartsIn, get_verifiable_encryption-request}
use pda_proxy.Service.Runner.Registry.Work.{prove_local-replied}

module _ (P : Platform) (D : IsDocumented P) where
  -- What the job, the environment and the runner are like before the first request: the job is not
  -- known, and a local prover is ready and proves it.
  pub record IsProvable (w w' : World P) (job : Job) (job_key : Bytes) (proof : P.Proof)
      (r : Runner P) : Type 0 where
    pub key : Bytes
    pub nonce : Bytes
    pub client : P.LocalClient
    pub setup : Setup P
    pub reliable : IsReliable P D
    pub anchored : P.serialize_anchor job.anchor ≡ ok job_key
    pub starting : StartsIn P D w local_zk_proof_pending
    pub unknown : At P D r job_key absent
    pub ready : IsReady P D w' client setup key nonce r
    pub ran : w'.run_local client setup.pk (stdin P D key nonce job) ≡ ok proof
    pub pending_written : IsWritable P D (queued local_zk_proof_pending)
    pub proof_written : IsWritable P D (settled (zk_proof_finished proof))

  -- The first request is answered with "pending", the run of the worker for it ends without an
  -- error, and leaves the proof in the finished tree.
  pub requested-proved :
      (w w' : World P) (job : Job) (job_key : Bytes) (proof : P.Proof) (r : Runner P)
      → IsProvable w w' job job_key proof r
      → (t : Runner P) × (u : Runner P) × (get_verifiable_encryption P w job r ≡ (done none, t))
        × (prove P w' job t ≡ (done tt, u))
        × At P D u job_key (settled (zk_proof_finished proof))
  requested-proved w w' job job_key proof r p =
      let (t, asked, (waiting, told, others, same)) =
        get_verifiable_encryption-request P D w job job_key local_zk_proof_pending absent r
          p.reliable p.anchored p.starting p.unknown p.pending_written in
      let (text, set, is_key, filled, built, cached) = p.ready in
      let still_ready : IsReady P D w' p.client p.setup p.key p.nonce t = (
        text,
        set,
        is_key,
        filled,
        ap (λ (x : Runner P). x.zk_client_handle_local) same ∙ built,
        ap (λ (x : Runner P). x.chacha_setup) same ∙ cached,
      ) in
      let (u, worked, moves) =
        prove_local-replied P D w' job job_key p.key p.nonce p.client p.setup (ok proof) t
          p.reliable p.anchored waiting still_ready p.ran p.proof_written in
      (t, u, asked, worked, moves.0)

  -- A job that is not known yet, where the database and the channel work, `SP1_PROVER` names a local
  -- prover, and the prover is ready and proves the job: the first request is answered with
  -- "pending", the run of the worker for it ends without an error, and the next request is answered
  -- with the proof and changes nothing.
  pub get_verifiable_encryption-prove :
      (w w' : World P) (job : Job) (job_key : Bytes) (proof : P.Proof) (r : Runner P)
      → IsProvable w w' job job_key proof r
      → (t : Runner P) × (u : Runner P) × (get_verifiable_encryption P w job r ≡ (done none, t))
        × (prove P w' job t ≡ (done tt, u))
        × (get_verifiable_encryption P w job u ≡ (done (some proof), u))
  unfolding get_verifiable_encryption answer answer_finished ◌>>=◌
  get_verifiable_encryption-prove w w' job job_key proof r p =
      let (t, u, asked, worked, (b, there, decoded, final, unqueued)) =
        requested-proved w w' job job_key proof r p in
      (t, u, asked, worked, rw (p.anchored, p.reliable.reads u.finished_db job_key, there, decoded))
