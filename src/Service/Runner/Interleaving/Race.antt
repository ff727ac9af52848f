-- ===== src/Service/Runner/Interleaving/Race.antt =====
-- A request that reads the finished tree before the worker finalizes its job, and goes on after.
use pda_proxy.Base.{◌≡◌, ◌∙◌, inl, inr, none, some, [], ◌∷◌, Bytes, ok, bytes_eq_refl}
use pda_proxy.Service.Job.{Job, local_zk_proof_pending, zk_proof_finished}
use pda_proxy.Service.Action.{done, ◌>>=◌}
use pda_proxy.Service.Platform.{Platform, World, IsDocumented}
use pda_proxy.Service.Runner.State.{Runner, transact, send_message}
use pda_proxy.Service.Runner.Setup.{Setup}
use pda_proxy.Service.Runner.Jobs.{finalize_job}
use pda_proxy.Service.Runner.Proving.{or_handle, then_or_log, drive}
use pda_proxy.Service.Runner.Requests.{initial_status, enqueue, start_job, answer_queue, answer}
use pda_proxy.Service.Runner.Invariant.{IsConsistent}
use pda_proxy.Service.Runner.Lifecycle.{
  IsQueuedLocal, IsReady, stdin, finalizing, zk_proof_local-ready,
}
use pda_proxy.Service.Runner.Interleaving.{
  answering, driving, first, asks, answers, receives, drives, Turns, stay, then_turn,
}

module _ (P : Platform) (D : IsDocumented P) where
  in_both-not-IsConsistent :
      (queue finished : P.Tree) (key b c : Bytes)
      → D.contents queue key ≡ some c
      → D.contents finished key ≡ some b
      → IsConsistent P D queue finished
      → ⊥
  in_both-not-IsConsistent queue finished key b c queued settled h = elim (h.exclusive key) [
    | inl absent ↦ cc (absent, queued)
    | inr absent ↦ cc (absent, settled)
  ]

  drive-finished :
      (w : World P) (job : Job) (key b k nonce : Bytes) (client : P.LocalClient) (setup : Setup P)
      (proof : P.Proof) (r : Runner P) (queue' finished' : P.Tree)
      → IsReady P D w client setup k nonce r
      → w.run_local client setup.pk (stdin P D k nonce job) ≡ ok proof
      → P.serialize_status (zk_proof_finished proof) ≡ ok b
      → P.transaction (r.queue_db, r.finished_db) (finalizing key b) ≡ ok (queue', finished')
      → drive P w job key local_zk_proof_pending r
        ≡ (done tt, record r { queue_db = queue'; finished_db = finished' })
  unfolding drive then_or_log or_handle finalize_job transact ◌>>=◌
  drive-finished w job key b k nonce client setup proof r queue' finished' is_ready ran serialized
        committed =
      rw (
        zk_proof_local-ready P D w job key client setup k nonce r is_ready,
        ran,
        serialized,
        committed,
      )

  stale_answer :
      (w : World P) (job : Job) (key c : Bytes) (t : Runner P) (queue'' : P.Tree)
      (channel' : P.Channel)
      → P.get t.queue_db key ≡ ok none
      → w.var "SP1_PROVER" ≡ some "cpu"
      → P.serialize_status local_zk_proof_pending ≡ ok c
      → P.insert_into t.queue_db key c ≡ ok queue''
      → P.send t.job_sender (some job) ≡ ok channel'
      → answer P w job key none t
        ≡ (done none, record t { queue_db = queue''; job_sender = channel' })
  unfolding answer answer_queue start_job initial_status enqueue send_message ◌>>=◌
  stale_answer w job key c t queue'' channel' absent set serialized stored sent =
      rw (absent, set, serialized, stored, sent)

  -- A request that finds nothing in the finished tree, while the worker is still proving its job, and
  -- goes on after the worker has finalized it, puts the job back into the queue: every call
  -- succeeds, and the trees are not consistent any more, the job being queued and finished at once.
  pub race-breaks_consistency :
      (w w' : World P) (job : Job) (key b c k nonce : Bytes) (client : P.LocalClient)
      (setup : Setup P) (proof : P.Proof) (r : Runner P) (queue' finished' queue'' : P.Tree)
      (channel' : P.Channel)
      → IsQueuedLocal P D job key r
      → IsReady P D w client setup k nonce r
      → w.run_local client setup.pk (stdin P D k nonce job) ≡ ok proof
      → P.serialize_status (zk_proof_finished proof) ≡ ok b
      → P.transaction (r.queue_db, r.finished_db) (finalizing key b) ≡ ok (queue', finished')
      → P.get r.finished_db key ≡ ok none
      → P.get queue' key ≡ ok none
      → w'.var "SP1_PROVER" ≡ some "cpu"
      → P.serialize_status local_zk_proof_pending ≡ ok c
      → P.insert_into queue' key c ≡ ok queue''
      → P.send r.job_sender (some job) ≡ ok channel'
      → (t : Runner P) × Turns P r [] t []
        × (D.contents t.queue_db key ≡ some c)
        × (D.contents t.finished_db key ≡ some b)
        × (¬ (IsConsistent P D t.queue_db t.finished_db))
  race-breaks_consistency w w' job key b c k nonce client setup proof r queue' finished' queue''
        channel' (q, anchored, found, local) is_ready ran serialized committed unfinished unqueued
        set pending stored sent =
      let s : Runner P = record r { queue_db = queue'; finished_db = finished' } in
      let t : Runner P = record s { queue_db = queue''; job_sender = channel' } in
      let driven =
        drive-finished w job key b k nonce client setup proof r queue' finished' is_ready ran
          serialized committed in
      let answered =
        stale_answer w' job key c s queue'' channel' unqueued set pending stored sent in
      let queued : D.contents queue'' key ≡ some c =
        D.contents-insert queue' key c queue'' key stored ∙ rw (bytes_eq_refl key) in
      let settled : D.contents finished' key ≡ some b =
        (D.contents-transaction r.queue_db r.finished_db (finalizing key b) queue' finished' key
          committed).1
        ∙ rw (bytes_eq_refl key) in
      let both : Turns P r [] r
          (driving job key local_zk_proof_pending ∷ answering job key none ∷ []) =
        then_turn (then_turn stay (asks job key none anchored unfinished))
          (receives job key q local_zk_proof_pending anchored found local) in
      let proved : Turns P r [] s (answering job key none ∷ []) = rw driven at (
        then_turn both
          (drives w job key local_zk_proof_pending (answering job key none ∷ []) (first _))) in
      let done_all : Turns P r [] t [] =
        rw answered at (then_turn proved (answers w' job key none [] (first _))) in
      (
        t,
        done_all,
        queued,
        settled,
        in_both-not-IsConsistent queue'' finished' key b c queued settled,
      )
