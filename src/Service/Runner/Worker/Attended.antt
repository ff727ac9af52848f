-- ===== src/Service/Runner/Worker/Attended.antt =====
-- Queued jobs that have a message in the channel.
use pda_proxy.Base.{
  ◌≡◌, ◌≢◌, ap, sym, ◌∙◌, ◌⊎◌, inl, inr, Option, none, some, List, [], ◌∷◌, ◌++◌, true, false,
  Bytes, ok, ok-injective, bytes_eq_iff,
}
use pda_proxy.Service.Job.{Job, JobStatus}
use pda_proxy.Service.Platform.{Platform, IsDocumented}
use pda_proxy.Service.Runner.State.{Runner}
use pda_proxy.Service.Runner.Registry.{Effect, absent, queued, settled, Moves, but_for}
use pda_proxy.Service.Runner.Worker.Progress.{Progress}

module _ (P : Platform) (D : IsDocumented P) where
  -- One of the messages is a job with the key.
  abbrev pub Awaits : Bytes → List (Option Job) → Type 0
  Awaits key [] = ⊥
  Awaits key (none ∷ ms) = Awaits key ms
  Awaits key (some job ∷ ms) = (P.serialize_anchor job.anchor ≡ ok key) ⊎ Awaits key ms

  -- Every queued job waits in the channel for the worker.
  abbrev pub IsAttended : Runner P → Type 0
  IsAttended r =
      (key b : Bytes) → D.contents r.queue_db key ≡ some b → Awaits key (D.messages r.job_sender)

  -- There is no message to shut down.
  abbrev pub AllJobs : List (Option Job) → Type 0
  AllJobs [] = Unit
  AllJobs (none ∷ ms) = ⊥
  AllJobs (some job ∷ ms) = AllJobs ms

  pub Awaits-append_left :
      (key : Bytes) (ms ns : List (Option Job)) → Awaits key ms → Awaits key (ms ++ ns)
  Awaits-append_left key [] ns h = absurd h
  Awaits-append_left key (none ∷ ms) ns h = Awaits-append_left key ms ns h
  Awaits-append_left key (some job ∷ ms) ns (inl mine) = inl mine
  Awaits-append_left key (some job ∷ ms) ns (inr later) = inr (Awaits-append_left key ms ns later)

  pub Awaits-append_last :
      (job : Job) (key : Bytes) (ms : List (Option Job))
      → P.serialize_anchor job.anchor ≡ ok key
      → Awaits key (ms ++ (some job ∷ []))
  Awaits-append_last job key [] e = inl e
  Awaits-append_last job key (none ∷ ms) e = Awaits-append_last job key ms e
  Awaits-append_last job key (some other ∷ ms) e = inr (Awaits-append_last job key ms e)

  pub AllJobs-append_last :
      (job : Job) (ms : List (Option Job)) → AllJobs ms → AllJobs (ms ++ (some job ∷ []))
  AllJobs-append_last job [] h = tt
  AllJobs-append_last job (none ∷ ms) h = absurd h
  AllJobs-append_last job (some other ∷ ms) h = AllJobs-append_last job ms h

  Awaits-elsewhere :
      (job : Job) (key k : Bytes) (ms : List (Option Job))
      → P.serialize_anchor job.anchor ≡ ok key
      → (k ≢ key)
      → Awaits k (some job ∷ ms)
      → Awaits k ms
  Awaits-elsewhere job key k ms anchored other (inl mine) =
      absurd (other (ok-injective (sym mine ∙ anchored)))
  Awaits-elsewhere job key k ms anchored other (inr later) = later

  pub same_or_other : (key k : Bytes) → (k ≡ key) ⊎ (k ≢ key)
  same_or_other key k = but_for key k (λ differ same. cc ((bytes_eq_iff k key).1 same, differ))

  -- What a task does not touch, for a job other than its own.
  pub Moves-elsewhere :
      (job : Job) (key k : Bytes) (effect : Effect P.Proof) (r t : Runner P)
      → Moves P D job key effect r t
      → (k ≢ key)
      → (D.contents t.queue_db k ≡ D.contents r.queue_db k)
        × (D.contents t.finished_db k ≡ D.contents r.finished_db k)
  Moves-elsewhere job key k effect r t (now, told, others, frame) other = elim (others k) [
    | inl same ↦ absurd (other same)
    | inr kept ↦ kept
  ]

  module _ (job : Job) (key : Bytes) (r : Runner P)
      (anchored : P.serialize_anchor job.anchor ≡ ok key)
      (before : (k b : Bytes)
        → D.contents r.queue_db k ≡ some b
        → Awaits k (some job ∷ D.messages r.job_sender)) where
    settled_IsAttended :
        (final : JobStatus P.Proof) (t : Runner P)
        → Moves P D job key (settled final, false) r t
        → IsAttended t
    settled_IsAttended final t ((c, there, decoded, last, unqueued), told, others, frame) k b
          found =
        rw told (elim (same_or_other key k) [
          | inl same ↦ cc (same, unqueued, found)
          | inr other ↦
              let moves : Moves P D job key (settled final, false) r t =
                ((c, there, decoded, last, unqueued), told, others, frame) in
              Awaits-elsewhere job key k (D.messages r.job_sender) anchored other (
                before k b (
                  sym (Moves-elsewhere job key k (settled final, false) r t moves other).0 ∙ found))
        ])

    pub requeued_IsAttended :
        (next : JobStatus P.Proof) (t : Runner P)
        → Moves P D job key (queued next, true) r t
        → IsAttended t
    requeued_IsAttended next t (now, told, others, frame) k b found =
        rw told (elim (same_or_other key k) [
          | inl same ↦
              Awaits-append_last job k (D.messages r.job_sender) (anchored ∙ ap ok (sym same))
          | inr other ↦
              let moves : Moves P D job key (queued next, true) r t = (now, told, others, frame) in
              Awaits-append_left k (D.messages r.job_sender) (some job ∷ []) (
                Awaits-elsewhere job key k (D.messages r.job_sender) anchored other (
                  before k b (
                    sym (Moves-elsewhere job key k (queued next, true) r t moves other).0 ∙ found)))
        ])

    unqueued_IsAttended : (t : Runner P) → D.contents r.queue_db key ≡ none → t ≡ r → IsAttended t
    unqueued_IsAttended t unqueued same k b found =
        let there : D.contents r.queue_db k ≡ some b =
          ap (λ (x : Runner P). D.contents x.queue_db k) (sym same) ∙ found in
        rw same (
          Awaits-elsewhere job key k (D.messages r.job_sender) anchored
            (λ e. cc (e, unqueued, there)) (before k b there))

    -- A task that made progress leaves every queued job attended, where they were with its message.
    pub Progress-IsAttended : (t : Runner P) → Progress P D job key r t → IsAttended t
    Progress-IsAttended t (inl (unqueued, same)) = unqueued_IsAttended t unqueued same
    Progress-IsAttended t (inr (status, (settled final, false), there, advances, moves)) =
        settled_IsAttended final t moves
    Progress-IsAttended t (inr (status, (queued next, true), there, advances, moves)) =
        requeued_IsAttended next t moves
    Progress-IsAttended t (inr (status, (settled final, true), there, advances, moves)) =
        absurd advances
    Progress-IsAttended t (inr (status, (queued next, false), there, advances, moves)) =
        absurd advances
    Progress-IsAttended t (inr (status, (absent, sent), there, advances, moves)) = absurd advances
