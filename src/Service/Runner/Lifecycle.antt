-- ===== src/Service/Runner/Lifecycle.antt =====
-- A job of the local prover from the queue to the answer.
use pda_proxy.Base.{
  ◌≡◌, sym, ◌∙◌, List, Option, none, some, String, [], ◌∷◌, Bytes, ok, err, bytes_eq_refl,
}
use pda_proxy.Zkvm.Cli.{random_nonce}
use pda_proxy.Service.Job.{Job, local_zk_proof_pending, zk_proof_finished}
use pda_proxy.Service.Action.{done, ◌>>=◌}
use pda_proxy.Service.Platform.{
  Platform, World, IsDocumented, Write, queue_tx, finished_tx, remove, insert, unknown,
}
use pda_proxy.Service.Runner.State.{Runner, transact}
use pda_proxy.Service.Runner.Setup.{
  Setup, get_program_id, get_zk_client_local, or_build_local, get_proof_setup_local,
  get_or_try_init,
}
use pda_proxy.Service.Runner.Jobs.{finalize_job}
use pda_proxy.Service.Runner.Proving.{
  zk_proof_local, encryption_key, draw_nonce, or_handle, unhandled, then_or_log, drive,
  drive_queued, prove,
}
use pda_proxy.Service.Runner.Requests.{
  answer_finished, answer_queued, answer_queue, answer, get_verifiable_encryption,
}

-- What `finalize_job` writes.
abbrev pub finalizing : Bytes → Bytes → List Write
finalizing key b = remove queue_tx key ∷ insert finished_tx key b ∷ []

module _ (P : Platform) (D : IsDocumented P) where
  -- `job` is in the queue for the local prover, and the tree can be read.
  abbrev pub IsQueuedLocal : Job → Bytes → Runner P → Type 0
  IsQueuedLocal job key r =
      (b : Bytes) × (P.serialize_anchor job.anchor ≡ ok key)
      × (P.get r.queue_db key ≡ ok (some b))
      × (P.deserialize_status b ≡ ok local_zk_proof_pending)

  -- What the local prover needs: a built client, a setup, the key of the environment and a nonce.
  abbrev pub IsReady : World P → P.LocalClient → Setup P → Bytes → Bytes → Runner P → Type 0
  IsReady w client setup key nonce r =
      (key_text : String) × (w.var "ENCRYPTION_KEY" ≡ some key_text)
      × (P.from_hex 32 key_text ≡ some key)
      × (w.try_fill_bytes 12 ≡ ok nonce)
      × (r.zk_client_handle_local ≡ some client)
      × (r.chacha_setup ≡ some setup)

  abbrev pub stdin : Bytes → Bytes → Job → List Bytes
  stdin key nonce job = key ∷ nonce ∷ job.input.data_bytes ∷ []

  pub zk_proof_local-ready :
      (w : World P) (job : Job) (job_key : Bytes) (client : P.LocalClient) (setup : Setup P)
      (key nonce : Bytes) (r : Runner P)
      → IsReady w client setup key nonce r
      → zk_proof_local P w (get_program_id P) job job_key r
        ≡ or_handle P
            (unhandled P)
            job
            job_key
            (w.run_local client setup.pk (stdin key nonce job))
            r
  unfolding zk_proof_local get_zk_client_local or_build_local get_proof_setup_local get_or_try_init
      encryption_key draw_nonce random_nonce ◌>>=◌
  zk_proof_local-ready w job job_key client setup key nonce r
        (text, set, is_key, filled, ready, cached) =
      rw (ready, cached, set, is_key, filled)

  -- Once the local prover returns a proof for a queued job and the transaction commits, the run of
  -- the worker ends, the job is out of the queue, and every later request for it that can read the
  -- finished tree is answered with this proof.
  pub prove-then-answered :
      (w w' : World P) (job : Job) (job_key b key nonce : Bytes) (client : P.LocalClient)
      (setup : Setup P) (proof : P.Proof) (r : Runner P) (queue' finished' : P.Tree)
      (o : Option Bytes)
      → IsQueuedLocal job job_key r
      → IsReady w client setup key nonce r
      → w.run_local client setup.pk (stdin key nonce job) ≡ ok proof
      → P.serialize_status (zk_proof_finished proof) ≡ ok b
      → P.transaction (r.queue_db, r.finished_db) (finalizing job_key b) ≡ ok (queue', finished')
      → P.get finished' job_key ≡ ok o
      → (t : Runner P) × (prove P w job r ≡ (done tt, t))
        × (D.contents t.queue_db job_key ≡ none)
        × (get_verifiable_encryption P w' job t ≡ (done (some proof), t))
  unfolding get_verifiable_encryption answer answer_finished prove drive_queued drive then_or_log
      or_handle finalize_job transact ◌>>=◌
  prove-then-answered w w' job job_key b key nonce client setup proof r queue' finished' o
        (q, anchored, found, local) is_ready ran serialized committed readable =
      let (removed, inserted) =
        D.contents-transaction r.queue_db r.finished_db (finalizing job_key b) queue' finished'
          job_key committed in
      let is_b : o ≡ some b =
        sym (D.get-contents finished' job_key o readable) ∙ inserted ∙ rw (bytes_eq_refl job_key) in
      (
        record r { queue_db = queue'; finished_db = finished' },
        rw (
          anchored,
          found,
          local,
          zk_proof_local-ready w job job_key client setup key nonce r is_ready,
          ran,
          serialized,
          committed,
        ),
        removed ∙ rw (bytes_eq_refl job_key),
        rw (anchored, readable, is_b, D.deserialize-serialize _ b serialized),
      )

  -- An error of the local prover that is not a network error is only logged: the run of the worker
  -- ends with the whole state as it was, so the job stays in the queue and nothing is sent to the
  -- worker, and a later request for it is again answered with "pending".
  pub prove-unknown_error :
      (w w' : World P) (job : Job) (job_key key nonce : Bytes) (client : P.LocalClient)
      (setup : Setup P) (text : String) (r : Runner P)
      → IsQueuedLocal job job_key r
      → IsReady w client setup key nonce r
      → w.run_local client setup.pk (stdin key nonce job) ≡ err (unknown text)
      → P.get r.finished_db job_key ≡ ok none
      → (prove P w job r ≡ (done tt, r)) × (get_verifiable_encryption P w' job r ≡ (done none, r))
  unfolding get_verifiable_encryption answer answer_queue answer_queued prove drive_queued drive
      then_or_log or_handle ◌>>=◌
  prove-unknown_error w w' job job_key key nonce client setup text r (q, anchored, found, local)
        is_ready failed_run absent =
      (
        rw (
          anchored,
          found,
          local,
          zk_proof_local-ready w job job_key client setup key nonce r is_ready,
          failed_run,
        ),
        rw (anchored, absent, found, local),
      )
