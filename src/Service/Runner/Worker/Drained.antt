-- ===== src/Service/Runner/Worker/Drained.antt =====
-- However the worker's tasks take turns, they come to an end, with every job settled.
use pda_proxy.Base.{
  ℕ, ◌*◌, ◌≤◌, ◌≡◌, refl, ◌⊎◌, inl, inr, none, some, List, [], ◌∷◌, length, arith, Bytes,
  Option-cases,
}
use pda_proxy.Service.Job.{Job, JobStatus}
use pda_proxy.Service.Platform.{Platform, World, IsDocumented}
use pda_proxy.Service.Runner.State.{Runner}
use pda_proxy.Service.Runner.Invariant.{IsConsistent}
use pda_proxy.Service.Runner.Invariant.Laws.{TreeInvariant, Intact}
use pda_proxy.Service.Runner.Invariant.Prove.{prove-Intact}
use pda_proxy.Service.Runner.Invariant.Instances.{presence}
use pda_proxy.Service.Runner.Interleaving.{first}
use pda_proxy.Service.Runner.Registry.{absent, settled, At, IsReliable}
use pda_proxy.Service.Runner.Worker.Progress.{Equipment, Has, IsServed}
use pda_proxy.Service.Runner.Worker.Attended.{IsAttended, AllJobs}
use pda_proxy.Service.Runner.Worker.Weight.{weight, weight-le-length}
use pda_proxy.Service.Runner.Worker.Termination.{absent_or_IsKnown}
use pda_proxy.Service.Runner.Worker.Pool.{
  PoolStep, spawns, runs, PoolRun, rests, goes_on, length-le-weight,
}
use pda_proxy.Service.Runner.Worker.Drain.{IsDraining, run_IsDraining}

module _ (P : Platform) (D : IsDocumented P) (T : TreeInvariant P D) (Env : World P → Type 0) where
  pub PoolRun-Intact :
      (r : Runner P) (n : ℕ) (t : Runner P) (pool : List Job)
      → PoolRun P Env r [] n t pool
      → Intact T r
      → Intact T t
  PoolRun-Intact r n t pool rests h = h
  PoolRun-Intact r n t pool (goes_on {s = s} {us = us} run (spawns job channel' arrived)) h =
      record { trees = (PoolRun-Intact r _ s us run h).trees }
  PoolRun-Intact r n t pool (goes_on {s = s} {us = us} run (runs w job others env picks)) h =
      (prove-Intact P D T w job).at s (PoolRun-Intact r _ s us run h)

module _ (P : Platform) (D : IsDocumented P) (e : Equipment P) where
  -- What the end of all tasks leaves, from what was there before them.
  abbrev pub IsDrained : Runner P → Runner P → List Job → Type 0
  IsDrained r t pool =
      (D.messages t.job_sender ≡ [])
      × (pool ≡ [])
      × ((key : Bytes) → D.contents t.queue_db key ≡ none)
      × ((key : Bytes)
          → At P D r key absent ⊎ ((status : JobStatus P.Proof) × At P D t key (settled status)))

  abbrev pub CanGoOn : Runner P → List Job → Type 0
  CanGoOn t pool = (u : Runner P) × (pool' : List Job) × PoolStep P (IsServed P D e) t pool u pool'

module _ (P : Platform) (D : IsDocumented P) (e : Equipment P) (reliable : IsReliable P D) where
  unqueued :
      (total n : ℕ) (key : Bytes) (t : Runner P)
      → IsDraining P D e total n t []
      → D.messages t.job_sender ≡ []
      → D.contents t.queue_db key ≡ none
  unqueued total n key t h empty = elim (Option-cases (D.contents t.queue_db key)) [
    | inl none_there ↦ none_there
    | inr (b, found) ↦ elim (h.pooled key b found) [
      | inl waits ↦ absurd (rw empty at waits)
      | inr spawned ↦ absurd spawned
    ]
  ]

  drained :
      (total n : ℕ) (r t : Runner P)
      → IsConsistent P D r.queue_db r.finished_db
      → PoolRun P (IsServed P D e) r [] n t []
      → IsDraining P D e total n t []
      → D.messages t.job_sender ≡ []
      → IsDrained P D e r t []
  drained total n r t before run h empty = (
    empty,
    refl,
    λ key. unqueued total n key t h empty,
    λ key. elim (absent_or_IsKnown P D e reliable key r before.valid) [
      | inl none_there ↦ inl none_there
      | inr known ↦
          let intact : Intact (presence P D key) t =
            PoolRun-Intact P D (presence P D key) (IsServed P D e) r n t [] run
              (record { trees = known }) in
          elim intact.trees.somewhere [
            | inl (b, there) ↦ cc (there, unqueued total n key t h empty)
            | inr (b, there) ↦
                let (status, decoded, final) = h.consistent.valid.finished_final key b there in
                inr (status, (b, there, decoded, final, unqueued total n key t h empty))
          ]
    ],
  )

  goes_on_or_IsDrained :
      (w : World P) (total n : ℕ) (r t : Runner P) (pool : List Job)
      → IsServed P D e w
      → IsConsistent P D r.queue_db r.finished_db
      → PoolRun P (IsServed P D e) r [] n t pool
      → IsDraining P D e total n t pool
      → CanGoOn P D e t pool ⊎ IsDrained P D e r t pool
  goes_on_or_IsDrained w total n r t (job ∷ pool) served before run h =
      inl (_, _, runs w job pool served (first pool))
  goes_on_or_IsDrained w total n r t [] served before run h =
      elim (Option-cases (P.recv t.job_sender)) [
        | inl empty ↦ inr (drained total n r t before run h (D.recv-none t.job_sender empty))
        | inr ((none, c), arrived) ↦
            absurd (rw (D.messages-recv t.job_sender none c arrived) at h.jobs)
        | inr ((some job, c), arrived) ↦ inl (_, _, spawns job c arrived)
      ]

  -- Let the database and the channel not fail, both prover clients be built and the proof setup be
  -- cached in the runner, `ENCRYPTION_KEY` be set to a key and `SP1_FULFILLMENT_STRATEGY` to a
  -- known strategy, random bytes be there, every call of the prover be answered with a result or a
  -- network error that can be stored, the trees be consistent, every queued job have a message in
  -- the channel and none of its messages ask for the end. However the worker receives the messages
  -- and runs the tasks that it has spawned, in any order, each to its end: it takes four steps for
  -- each message at most; and as long as a message or a task is left another step can be taken, and
  -- else no job is queued, and each job that was queued or finished has a proof or a failure in the
  -- finished tree.
  pub PoolRun-IsDrained :
      (w : World P) (r t : Runner P) (n : ℕ) (pool : List Job)
      → IsServed P D e w
      → Has r e
      → IsConsistent P D r.queue_db r.finished_db
      → IsAttended P D r
      → AllJobs P D (D.messages r.job_sender)
      → PoolRun P (IsServed P D e) r [] n t pool
      → (n ≤ 4 * length (D.messages r.job_sender))
        × (CanGoOn P D e t pool ⊎ IsDrained P D e r t pool)
  PoolRun-IsDrained w r t n pool served has consistent attended jobs run =
      let total : ℕ = weight P D r.queue_db (D.messages r.job_sender) in
      let h = run_IsDraining P D e reliable total r n t pool run (record {
        has = has;
        consistent = consistent;
        pooled = λ k b found. inl (attended k b found);
        jobs = jobs;
        cost = omega arith;
      }) in
      (
        omega (
          arith,
          h.cost,
          length-le-weight P D t.queue_db pool,
          weight-le-length P D r.queue_db (D.messages r.job_sender),
        ),
        goes_on_or_IsDrained w total n r t pool served consistent run h,
      )
