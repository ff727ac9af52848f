-- ===== src/Service/Runner/Registry/Remote.antt =====
-- A job of the prover network from its first request to the answer, by the phases.
use pda_proxy.Base.{◌≡◌, ap, ◌∙◌, none, some, ◌++◌, [], ◌∷◌, Bytes, ok}
use pda_proxy.Service.Job.{
  Job, remote_zk_proof_requesting, remote_zk_proof_pending, zk_proof_finished,
}
use pda_proxy.Service.Action.{done, ◌>>=◌}
use pda_proxy.Service.Platform.{Platform, World, IsDocumented}
use pda_proxy.Service.Runner.State.{Runner}
use pda_proxy.Service.Runner.Setup.{Setup}
use pda_proxy.Service.Runner.Proving.{prove}
use pda_proxy.Service.Runner.Requests.{answer, answer_finished, get_verifiable_encryption}
use pda_proxy.Service.Runner.Lifecycle.{stdin}
use pda_proxy.Service.Runner.Network.{IsReadyRemote}
use pda_proxy.Service.Runner.Registry.{absent, queued, settled, At, IsReliable, IsWritable}
use pda_proxy.Service.Runner.Registry.Request.{StartsIn, get_verifiable_encryption-request}
use pda_proxy.Service.Runner.Registry.Work.{prove_requesting-replied, prove_waiting-replied}

module _ (P : Platform) (D : IsDocumented P) where
  -- What the job, the environment and the runner are like before the first request: the job is not
  -- known, and the network is ready, accepts the request `id` for it and fulfils it.
  pub record IsFulfilled (w w' w'' : World P) (job : Job) (job_key : Bytes) (proof : P.Proof)
      (r : Runner P) : Type 0 where
    pub key : Bytes
    pub nonce : Bytes
    pub id : Bytes
    pub client : P.RemoteClient
    pub setup : Setup P
    pub strategy : P.Strategy
    pub reliable : IsReliable P D
    pub anchored : P.serialize_anchor job.anchor ≡ ok job_key
    pub starting : StartsIn P D w remote_zk_proof_requesting
    pub unknown : At P D r job_key absent
    pub ready : IsReadyRemote P D w' client setup strategy key nonce r
    pub accepted :
        w'.request_async client setup.pk
          (stdin P D key nonce job)
          strategy
          r.zk_proof_gen_timeout_remote
        ≡ ok id
    pub fulfilled : w''.wait_proof client id ≡ ok proof
    pub requesting_written : IsWritable P D (queued remote_zk_proof_requesting)
    pub waiting_written : IsWritable P D (queued (remote_zk_proof_pending id))
    pub proof_written : IsWritable P D (settled (zk_proof_finished proof))

  -- A job that is not known yet, where the database and the channel work, `SP1_PROVER` names the
  -- network, and the network accepts the request for its proof and fulfils it: the first request is
  -- answered with "pending"; the first run of the worker for the job ends without an error, and the
  -- job has by then been sent to the worker twice; the second run ends without an error; and the
  -- next request is answered with the proof and changes nothing.
  pub get_verifiable_encryption-prove_remote :
      (w w' w'' : World P) (job : Job) (job_key : Bytes) (proof : P.Proof) (r : Runner P)
      → IsFulfilled w w' w'' job job_key proof r
      → (t : Runner P) × (u : Runner P) × (v : Runner P) × (get_verifiable_encryption P w job r
          ≡ (done none, t))
        × (prove P w' job t ≡ (done tt, u))
        × (D.messages u.job_sender
            ≡ (D.messages r.job_sender ++ (some job ∷ [])) ++ (some job ∷ []))
        × (prove P w'' job u ≡ (done tt, v))
        × (get_verifiable_encryption P w job v ≡ (done (some proof), v))
  unfolding get_verifiable_encryption answer answer_finished ◌>>=◌
  get_verifiable_encryption-prove_remote w w' w'' job job_key proof r p =
      let (t, asked, (requesting, told, _, same)) =
        get_verifiable_encryption-request P D w job job_key remote_zk_proof_requesting absent r
          p.reliable p.anchored p.starting p.unknown p.requesting_written in
      let (text, strategy_text, set, is_key, chosen, is_strategy, filled, built, cached) =
        p.ready in
      let still_built : t.zk_client_handle_remote ≡ some p.client =
        ap (λ (x : Runner P). x.zk_client_handle_remote) same ∙ built in
      let still_ready : IsReadyRemote P D w' p.client p.setup p.strategy p.key p.nonce t = (
        text,
        strategy_text,
        set,
        is_key,
        chosen,
        is_strategy,
        filled,
        still_built,
        ap (λ (x : Runner P). x.chacha_setup) same ∙ cached,
      ) in
      let (u, worked, (waiting, told_again, _, same')) =
        prove_requesting-replied P D w' job job_key p.key p.nonce p.client p.setup p.strategy
          (ok p.id) t p.reliable p.anchored requesting still_ready
          (rw (ap (λ (x : Runner P). x.zk_proof_gen_timeout_remote) same) p.accepted)
          p.waiting_written in
      let (v, finished, (settlement, _, _, _)) =
        prove_waiting-replied P D w'' job job_key p.id p.client (ok proof) u p.reliable p.anchored
          waiting (ap (λ (x : Runner P). x.zk_client_handle_remote) same' ∙ still_built) p.fulfilled
          p.proof_written in
      let (b, there, decoded, final, unqueued) = settlement in
      (
        t,
        u,
        v,
        asked,
        worked,
        told_again ∙ ap (λ ms. ms ++ (some job ∷ [])) told,
        finished,
        rw (p.anchored, p.reliable.reads v.finished_db job_key, there, decoded),
      )
