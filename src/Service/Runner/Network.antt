-- ===== src/Service/Runner/Network.antt =====
-- The first step of a job of the prover network: the request for its proof.
use pda_proxy.Base.{◌≡◌, ◌∙◌, none, some, String, [], ◌∷◌, ◌++◌, Bytes, ok, bytes_eq_refl}
use pda_proxy.Zkvm.Cli.{random_nonce}
use pda_proxy.Service.Job.{Job, remote_zk_proof_requesting, remote_zk_proof_pending}
use pda_proxy.Service.Action.{done, ◌>>=◌}
use pda_proxy.Service.Platform.{Platform, World, IsDocumented}
use pda_proxy.Service.Runner.State.{Runner, transact, send_message}
use pda_proxy.Service.Runner.Setup.{
  get_program_id, Setup, get_zk_client_remote, or_build_remote, get_proof_setup_remote,
  get_or_try_init,
}
use pda_proxy.Service.Runner.Jobs.{send_job_with_new_status}
use pda_proxy.Service.Runner.Proving.{
  unhandled, zk_proof_remote, encryption_key, draw_nonce, or_handle, then_or_log, drive,
  drive_queued, prove,
}
use pda_proxy.Service.Runner.Lifecycle.{stdin}
use pda_proxy.Service.Runner.Failures.{requeuing}

module _ (P : Platform) (D : IsDocumented P) where
  -- What a request to the network needs: a built client, a setup, a fulfillment strategy, the key of
  -- the environment and a nonce.
  abbrev pub IsReadyRemote :
      World P → P.RemoteClient → Setup P → P.Strategy → Bytes → Bytes → Runner P → Type 0
  IsReadyRemote w client setup strategy key nonce r =
      (key_text : String) × (strategy_text : String) × (w.var "ENCRYPTION_KEY" ≡ some key_text)
      × (P.from_hex 32 key_text ≡ some key)
      × (w.var "SP1_FULFILLMENT_STRATEGY" ≡ some strategy_text)
      × (P.from_str_name strategy_text ≡ some strategy)
      × (w.try_fill_bytes 12 ≡ ok nonce)
      × (r.zk_client_handle_remote ≡ some client)
      × (r.chacha_setup ≡ some setup)

  pub zk_proof_remote-ready :
      (w : World P) (job : Job) (job_key key nonce : Bytes) (client : P.RemoteClient)
      (setup : Setup P) (strategy : P.Strategy) (r : Runner P)
      → IsReadyRemote w client setup strategy key nonce r
      → zk_proof_remote P w (get_program_id P) job job_key r
        ≡ or_handle P
            (unhandled P)
            job
            job_key
            (w.request_async client setup.pk
              (stdin P D key nonce job)
              strategy
              r.zk_proof_gen_timeout_remote)
            r
  unfolding zk_proof_remote get_zk_client_remote or_build_remote get_proof_setup_remote
      get_or_try_init encryption_key draw_nonce random_nonce ◌>>=◌
  zk_proof_remote-ready w job job_key key nonce client setup strategy r
        (key_text, strategy_text, set, is_key, chosen, is_strategy, filled, built, cached) =
      rw (built, cached, chosen, is_strategy, set, is_key, filled)

  -- Once the network has accepted the request for a queued job, the run of the worker ends with the
  -- job still in the queue, now waiting for this request, not in the finished tree, and sent to the
  -- worker once more.
  pub prove-requested :
      (w : World P) (job : Job) (job_key q b id key nonce : Bytes) (client : P.RemoteClient)
      (setup : Setup P) (strategy : P.Strategy) (r : Runner P) (queue' finished' : P.Tree)
      (channel' : P.Channel)
      → P.serialize_anchor job.anchor ≡ ok job_key
      → P.get r.queue_db job_key ≡ ok (some q)
      → P.deserialize_status q ≡ ok remote_zk_proof_requesting
      → IsReadyRemote w client setup strategy key nonce r
      → w.request_async client setup.pk
          (stdin P D key nonce job)
          strategy
          r.zk_proof_gen_timeout_remote
        ≡ ok id
      → P.serialize_status (remote_zk_proof_pending id) ≡ ok b
      → P.transaction (r.queue_db, r.finished_db) (requeuing job_key b) ≡ ok (queue', finished')
      → P.send r.job_sender (some job) ≡ ok channel'
      → (t : Runner P) × (prove P w job r ≡ (done tt, t))
        × (D.contents t.queue_db job_key ≡ some b)
        × (P.deserialize_status b ≡ ok (remote_zk_proof_pending id))
        × (D.contents t.finished_db job_key ≡ none)
        × (D.messages t.job_sender ≡ D.messages r.job_sender ++ (some job ∷ []))
  unfolding prove drive_queued drive then_or_log zk_proof_remote get_zk_client_remote
      or_build_remote get_proof_setup_remote get_or_try_init encryption_key draw_nonce random_nonce
      or_handle send_job_with_new_status transact send_message ◌>>=◌
  prove-requested w job job_key q b id key nonce client setup strategy r queue' finished' channel'
        anchored found requesting
        (key_text, strategy_text, set, is_key, chosen, is_strategy, filled, built, cached) accepted
        serialized committed sent =
      let (inserted, removed) =
        D.contents-transaction r.queue_db r.finished_db (requeuing job_key b) queue' finished'
          job_key committed in
      (
        record r { queue_db = queue'; finished_db = finished'; job_sender = channel' },
        rw (
          anchored, found, requesting, built, cached, chosen, is_strategy, set, is_key, filled,
          accepted, serialized, committed, sent,
        ),
        inserted ∙ rw (bytes_eq_refl job_key),
        D.deserialize-serialize _ b serialized,
        removed ∙ rw (bytes_eq_refl job_key),
        D.messages-send r.job_sender (some job) channel' sent,
      )
