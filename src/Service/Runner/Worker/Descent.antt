-- ===== src/Service/Runner/Worker/Descent.antt =====
-- Each task of the worker that makes progress lowers the weight of what is left to do.
use pda_proxy.Base.{
  Bool, ◌+◌, ◌≤◌, ◌<◌, ◌≡◌, refl, ap, inl, inr, some, [], ◌∷◌, true, false, arith, Bytes, ok,
}
use pda_proxy.Service.Job.{Job, JobStatus, remote_zk_proof_requesting, remote_zk_proof_pending}
use pda_proxy.Service.Platform.{Platform, IsDocumented}
use pda_proxy.Service.Runner.State.{Runner}
use pda_proxy.Service.Runner.Registry.{Phase, absent, queued, settled, At, Moves}
use pda_proxy.Service.Runner.Worker.Progress.{Progress}
use pda_proxy.Service.Runner.Worker.Attended.{Moves-elsewhere, same_or_other}
use pda_proxy.Service.Runner.Worker.Weight.{
  status_weight, message_weight, weight, message_weight_bounds, status_weight_bounds, weight-append,
  Lightens, weight-le,
}

module _ (P : Platform) (D : IsDocumented P) (job : Job) (key : Bytes) (r : Runner P)
    (anchored : P.serialize_anchor job.anchor ≡ ok key) where
  -- Only the job itself may have become lighter.
  pub lighter :
      (effect : Phase P.Proof × Bool) (t : Runner P)
      → Moves P D job key effect r t
      → status_weight P D (D.contents t.queue_db key) ≡ 1
      → Lightens P D r.queue_db t.queue_db
  lighter effect t moves one k = elim (same_or_other P D key k) [
    | inl same ↦
        let bounds : 1 ≤ status_weight P D (D.contents r.queue_db k) =
          (status_weight_bounds P D (D.contents r.queue_db k)).0 in
        rw (ap (λ (x : Bytes). status_weight P D (D.contents t.queue_db x)) same, one) bounds
    | inr other ↦ rw (Moves-elsewhere P D job key k effect r t moves other).0 (omega arith)
  ]

  settled_lowers :
      (final : JobStatus P.Proof) (t : Runner P)
      → Moves P D job key (settled final, false) r t
      → weight P D t.queue_db (D.messages t.job_sender)
        < message_weight P D r.queue_db (some job) + weight P D r.queue_db (D.messages r.job_sender)
  settled_lowers final t ((b, there, decoded, last, unqueued), told, others, frame) =
      let moves : Moves P D job key (settled final, false) r t =
        ((b, there, decoded, last, unqueued), told, others, frame) in
      let kept =
        weight-le P D r.queue_db t.queue_db (D.messages r.job_sender)
          (lighter (settled final, false) t moves (rw unqueued refl)) in
      rw told (omega (arith, kept, message_weight_bounds P D r.queue_db (some job)))

  requeued_lowers :
      (id : Bytes) (t : Runner P)
      → At P D r key (queued remote_zk_proof_requesting)
      → Moves P D job key (queued (remote_zk_proof_pending id), true) r t
      → weight P D t.queue_db (D.messages t.job_sender)
        < message_weight P D r.queue_db (some job) + weight P D r.queue_db (D.messages r.job_sender)
  requeued_lowers id t (c, was, was_decoded, was_pending, was_unfinished)
        ((b, there, decoded, pending, unfinished), told, others, frame) =
      let moves : Moves P D job key (queued (remote_zk_proof_pending id), true) r t =
        ((b, there, decoded, pending, unfinished), told, others, frame) in
      let kept =
        weight-le P D r.queue_db t.queue_db (D.messages r.job_sender) (
          lighter (queued (remote_zk_proof_pending id), true) t moves (rw (there, decoded) refl)) in
      let appended = weight-append P D t.queue_db (D.messages r.job_sender) (some job ∷ []) in
      let now : message_weight P D t.queue_db (some job) ≡ 1 = rw (anchored, there, decoded) refl in
      let then : message_weight P D r.queue_db (some job) ≡ 2 =
        rw (anchored, was, was_decoded) refl in
      rw told (omega (arith, kept, appended, now, then))

  pub weight-Progress :
      (t : Runner P)
      → Progress P D job key r t
      → weight P D t.queue_db (D.messages t.job_sender)
        < message_weight P D r.queue_db (some job) + weight P D r.queue_db (D.messages r.job_sender)
  weight-Progress t (inl (unqueued, same)) =
      rw same (omega (arith, message_weight_bounds P D r.queue_db (some job)))
  weight-Progress t (inr (status, (settled final, false), there, advances, moves)) =
      settled_lowers final t moves
  weight-Progress t (inr (status, (queued next, true), there, (requesting, id, pending), moves)) =
      requeued_lowers id t (rw requesting at there) (rw pending at moves)
  weight-Progress t (inr (status, (settled final, true), there, advances, moves)) = absurd advances
  weight-Progress t (inr (status, (queued next, false), there, advances, moves)) = absurd advances
  weight-Progress t (inr (status, (absent, sent), there, advances, moves)) = absurd advances
