-- ===== src/Service/Runner/Worker/Pool.antt =====
-- `job_worker` with the tasks that it spawns side by side: each message becomes a task, and the tasks
-- run in any order, each to its end.
use pda_proxy.Base.{
  ℕ, suc, ◌+◌, ◌≤◌, ◌≡◌, ◌≢◌, refl, ap, sym, ◌∙◌, ◌⊎◌, inl, inr, Option, some, List, [], ◌∷◌,
  length, true, false, arith, Bytes, ok,
}
use pda_proxy.Service.Job.{Job}
use pda_proxy.Service.Platform.{Platform, World, IsDocumented}
use pda_proxy.Service.Runner.State.{Runner}
use pda_proxy.Service.Runner.Proving.{prove}
use pda_proxy.Service.Runner.Interleaving.{Picks, first, later}
use pda_proxy.Service.Runner.Registry.{absent, queued, settled}
use pda_proxy.Service.Runner.Worker.Progress.{Progress}
use pda_proxy.Service.Runner.Worker.Attended.{
  Awaits, Awaits-append_left, Awaits-append_last, Moves-elsewhere, same_or_other,
}
use pda_proxy.Service.Runner.Worker.Weight.{message_weight, weight, message_weight_bounds, Lightens}
use pda_proxy.Service.Runner.Worker.Descent.{lighter}

-- One step: a message is received and its task spawned, or a task runs, in an environment of a kind.
pub data PoolStep (P : Platform) (Env : World P → Type 0) (r : Runner P) (pool : List Job)
    : Runner P → List Job → Type 0 where
  spawns :
      (job : Job) (channel' : P.Channel)
      → P.recv r.job_sender ≡ some (some job, channel')
      → PoolStep P Env r pool (record r { job_sender = channel' }) (job ∷ pool)
  runs :
      (w : World P) (job : Job) (others : List Job)
      → Env w
      → Picks job pool others
      → PoolStep P Env r pool (prove P w job r).1 others

-- So many steps, one after another.
pub data PoolRun (P : Platform) (Env : World P → Type 0) (r : Runner P) (pool : List Job)
    : ℕ → Runner P → List Job → Type 0 where
  rests : PoolRun P Env r pool 0 r pool
  goes_on :
      {n : ℕ} {s : Runner P} {us : List Job} {t : Runner P} {vs : List Job}
      → PoolRun P Env r pool n s us
      → PoolStep P Env s us t vs
      → PoolRun P Env r pool (suc n) t vs

-- The messages that the tasks were spawned for.
abbrev pub received_for : List Job → List (Option Job)
received_for [] = []
received_for (job ∷ pool) = some job ∷ received_for pool

module _ (P : Platform) (D : IsDocumented P) where
  pub weight-Picks :
      (queue : P.Tree) {job : Job} {pool others : List Job}
      → Picks job pool others
      → weight P D queue (received_for pool)
        ≡ message_weight P D queue (some job) + weight P D queue (received_for others)
  weight-Picks queue (first xs) = refl
  weight-Picks queue (later y xs ys p) = omega (arith, weight-Picks queue p)

  pub length-le-weight :
      (queue : P.Tree) (pool : List Job) → length pool ≤ weight P D queue (received_for pool)
  length-le-weight queue [] = omega arith
  length-le-weight queue (job ∷ pool) =
      omega (arith, message_weight_bounds P D queue (some job), length-le-weight queue pool)

  pub length-Picks :
      {job : Job} {pool others : List Job}
      → Picks job pool others
      → length pool ≡ suc (length others)
  length-Picks (first xs) = refl
  length-Picks (later y xs ys p) = omega (arith, length-Picks p)

  pub Awaits-Picks :
      (key : Bytes) {job : Job} {pool others : List Job}
      → Picks job pool others
      → Awaits P D key (received_for pool)
      → (P.serialize_anchor job.anchor ≡ ok key) ⊎ Awaits P D key (received_for others)
  Awaits-Picks key (first xs) h = h
  Awaits-Picks key (later y xs ys p) (inl mine) = inr (inl mine)
  Awaits-Picks key (later y xs ys p) (inr h) = elim (Awaits-Picks key p h) [
    | inl mine ↦ inl mine
    | inr others ↦ inr (inr others)
  ]

  module _ (job : Job) (key : Bytes) (r t : Runner P)
      (anchored : P.serialize_anchor job.anchor ≡ ok key) where
    -- No job becomes heavier.
    pub Progress-Lightens : Progress P D job key r t → Lightens P D r.queue_db t.queue_db
    Progress-Lightens (inl (unqueued, same)) = λ k. rw same (omega arith)
    Progress-Lightens (inr (status, (settled final, false), there, advances, moves)) =
        let (b, stored, decoded, last, unqueued) = moves.0 in
        lighter P D job key r anchored (settled final, false) t moves (rw unqueued refl)
    Progress-Lightens (inr (status, (queued next, true), there, (requesting, id, pending), moves)) =
        let (b, stored, decoded, is_pending, unfinished) = moves.0 in
        lighter P D job key r anchored (queued next, true) t moves
          (rw (stored, decoded, pending) refl)
    Progress-Lightens (inr (status, (settled final, true), there, advances, moves)) =
        absurd advances
    Progress-Lightens (inr (status, (queued next, false), there, advances, moves)) = absurd advances
    Progress-Lightens (inr (status, (absent, sent), there, advances, moves)) = absurd advances

    -- What waits in the channel stays there.
    pub Progress-Awaits :
        (k : Bytes)
        → Progress P D job key r t
        → Awaits P D k (D.messages r.job_sender)
        → Awaits P D k (D.messages t.job_sender)
    Progress-Awaits k (inl (unqueued, same)) h = rw same h
    Progress-Awaits k (inr (status, (phase, false), there, advances, moves)) h = rw moves.1 h
    Progress-Awaits k (inr (status, (phase, true), there, advances, moves)) h =
        rw moves.1 (Awaits-append_left P D k (D.messages r.job_sender) (some job ∷ []) h)

    -- A job that is queued after the task was queued before it, or has been sent to the worker again.
    pub Progress-queued :
        (k b : Bytes)
        → Progress P D job key r t
        → D.contents t.queue_db k ≡ some b
        → Awaits P D k (D.messages t.job_sender) ⊎ ((k ≢ key) × (D.contents r.queue_db k ≡ some b))
    Progress-queued k b (inl (unqueued, same)) found =
        let there : D.contents r.queue_db k ≡ some b =
          ap (λ (x : Runner P). D.contents x.queue_db k) (sym same) ∙ found in
        inr (λ e. cc (e, unqueued, there), there)
    Progress-queued k b (inr (status, (settled final, false), there, advances, moves)) found =
        let (c, stored, decoded, last, unqueued) = moves.0 in
        elim (same_or_other P D key k) [
          | inl same ↦ cc (same, unqueued, found)
          | inr other ↦ inr (
            other,
            sym (Moves-elsewhere P D job key k (settled final, false) r t moves other).0 ∙ found,
          )
        ]
    Progress-queued k b (inr (status, (queued next, true), there, advances, moves)) found =
        elim (same_or_other P D key k) [
          | inl same ↦ inl (
              rw moves.1 (
                Awaits-append_last P D job k (D.messages r.job_sender)
                  (anchored ∙ ap ok (sym same))))
          | inr other ↦ inr (
            other,
            sym (Moves-elsewhere P D job key k (queued next, true) r t moves other).0 ∙ found,
          )
        ]
    Progress-queued k b (inr (status, (settled final, true), there, advances, moves)) found =
        absurd advances
    Progress-queued k b (inr (status, (queued next, false), there, advances, moves)) found =
        absurd advances
    Progress-queued k b (inr (status, (absent, sent), there, advances, moves)) found =
        absurd advances
