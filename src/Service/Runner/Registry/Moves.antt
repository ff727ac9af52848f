-- ===== src/Service/Runner/Registry/Moves.antt =====
-- The three ways in which the methods move a job: into the queue, back into the queue, and into the
-- finished tree.
use pda_proxy.Base.{true, false, ◌≡◌, inr, refl, ◌∙◌, none, some, Bytes, bytes_eq_refl}
use pda_proxy.Service.Job.{Job, JobStatus}
use pda_proxy.Service.Action.{done, ◌>>=◌}
use pda_proxy.Service.Platform.{Platform, IsDocumented}
use pda_proxy.Service.Runner.State.{Runner, transact, send_message}
use pda_proxy.Service.Runner.Jobs.{finalize_job, send_job_with_new_status}
use pda_proxy.Service.Runner.Requests.{enqueue}
use pda_proxy.Service.Runner.Invariant.{IsPending, IsFinal}
use pda_proxy.Service.Runner.Lifecycle.{finalizing}
use pda_proxy.Service.Runner.Failures.{requeuing}
use pda_proxy.Service.Runner.Registry.{
  Phase, queued, settled, At, IsReliable, IsWritable, Moves, but_for,
}

module _ (P : Platform) (D : IsDocumented P) where
  pub stayed :
      (job : Job) (key : Bytes) (phase : Phase P.Proof) (r : Runner P)
      → At P D r key phase
      → Moves P D job key (phase, false) r r
  stayed job key phase r there = (there, refl, λ k. inr (refl, refl), refl)

  pub moved_back :
      (job : Job) (key : Bytes) (status : JobStatus P.Proof) (r : Runner P)
      → IsReliable P D
      → IsPending status
      → IsWritable P D (queued status)
      → (t : Runner P) × (send_job_with_new_status P key status job r ≡ (done tt, t))
        × Moves P D job key (queued status, true) r t
  unfolding send_job_with_new_status transact send_message ◌>>=◌
  moved_back job key status r reliable pending (b, written) =
      let (queue', finished', committed) =
        reliable.commits r.queue_db r.finished_db (requeuing key b) in
      let (channel', sent) = reliable.sends r.job_sender (some job) in
      let now = λ (k : Bytes).
        D.contents-transaction r.queue_db r.finished_db (requeuing key b) queue' finished' k
          committed in
      (
        record r { queue_db = queue'; finished_db = finished'; job_sender = channel' },
        rw (written, committed, sent),
        (
          (
            b,
            (now key).0 ∙ rw (bytes_eq_refl key),
            D.deserialize-serialize status b written,
            pending,
            (now key).1 ∙ rw (bytes_eq_refl key),
          ),
          D.messages-send r.job_sender (some job) channel' sent,
          λ k. but_for key k (λ differ. ((now k).0 ∙ rw differ, (now k).1 ∙ rw differ)),
          refl,
        ),
      )

  pub put_in :
      (job : Job) (key : Bytes) (status : JobStatus P.Proof) (r : Runner P)
      → IsReliable P D
      → IsPending status
      → IsWritable P D (queued status)
      → D.contents r.finished_db key ≡ none
      → (t : Runner P) × (enqueue P job key status r ≡ (done none, t))
        × Moves P D job key (queued status, true) r t
  unfolding enqueue send_message ◌>>=◌
  put_in job key status r reliable pending (b, written) unfinished =
      let (queue', stored) = reliable.stores r.queue_db key b in
      let (channel', sent) = reliable.sends r.job_sender (some job) in
      let now = λ (k : Bytes). D.contents-insert r.queue_db key b queue' k stored in
      (
        record r { queue_db = queue'; job_sender = channel' },
        rw (written, stored, sent),
        (
          (
            b,
            now key ∙ rw (bytes_eq_refl key),
            D.deserialize-serialize status b written,
            pending,
            unfinished,
          ),
          D.messages-send r.job_sender (some job) channel' sent,
          λ k. but_for key k (λ differ. (now k ∙ rw differ, refl)),
          refl,
        ),
      )

  pub settled_down :
      (job : Job) (key : Bytes) (status : JobStatus P.Proof) (r : Runner P)
      → IsReliable P D
      → IsFinal status
      → IsWritable P D (settled status)
      → (t : Runner P) × (finalize_job P key status r ≡ (done tt, t))
        × Moves P D job key (settled status, false) r t
  unfolding finalize_job transact ◌>>=◌
  settled_down job key status r reliable final (b, written) =
      let (queue', finished', committed) =
        reliable.commits r.queue_db r.finished_db (finalizing key b) in
      let now = λ (k : Bytes).
        D.contents-transaction r.queue_db r.finished_db (finalizing key b) queue' finished' k
          committed in
      (
        record r { queue_db = queue'; finished_db = finished' },
        rw (written, committed),
        (
          (
            b,
            (now key).1 ∙ rw (bytes_eq_refl key),
            D.deserialize-serialize status b written,
            final,
            (now key).0 ∙ rw (bytes_eq_refl key),
          ),
          refl,
          λ k. but_for key k (λ differ. ((now k).0 ∙ rw differ, (now k).1 ∙ rw differ)),
          refl,
        ),
      )
