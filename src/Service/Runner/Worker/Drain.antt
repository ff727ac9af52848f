-- ===== src/Service/Runner/Worker/Drain.antt =====
-- The tasks of `job_worker`, side by side, come to an end, and then no job is left in the queue.
use pda_proxy.Base.{
  ℕ, suc, ◌+◌, ◌*◌, ◌≤◌, ◌≡◌, sym, ◌∙◌, ◌⊎◌, inl, inr, some, String, List, [], ◌∷◌, length, arith,
  Bytes, ok, err, Result-cases, ok-injective,
}
use pda_proxy.Service.Job.{Job}
use pda_proxy.Service.Platform.{Platform, IsDocumented}
use pda_proxy.Service.Runner.State.{Runner}
use pda_proxy.Service.Runner.Invariant.{IsConsistent}
use pda_proxy.Service.Runner.Invariant.Laws.{Intact}
use pda_proxy.Service.Runner.Invariant.Prove.{prove-Intact}
use pda_proxy.Service.Runner.Invariant.Instances.{consistency}
use pda_proxy.Service.Runner.Interleaving.{Picks}
use pda_proxy.Service.Runner.Registry.{IsReliable}
use pda_proxy.Service.Runner.Worker.Progress.{Equipment, Has, IsServed, Progress, prove-Progress}
use pda_proxy.Service.Runner.Worker.Attended.{Awaits, AllJobs}
use pda_proxy.Service.Runner.Worker.Weight.{
  message_weight, weight, weight-le, message_weight_bounds,
}
use pda_proxy.Service.Runner.Worker.Descent.{weight-Progress}
use pda_proxy.Service.Runner.Worker.Running.{Progress-Has, Progress-AllJobs, prove-unwritten}
use pda_proxy.Service.Runner.Worker.Pool.{
  PoolStep, spawns, runs, PoolRun, rests, goes_on, received_for, weight-Picks, length-Picks,
  Awaits-Picks, Progress-Lightens, Progress-Awaits, Progress-queued,
}

module _ (P : Platform) (D : IsDocumented P) (e : Equipment P) where
  -- Every queued job waits in the channel, or for a task in the pool.
  abbrev pub IsPooled : Runner P → List Job → Type 0
  IsPooled r pool =
      (k b : Bytes)
      → D.contents r.queue_db k ≡ some b
      → Awaits P D k (D.messages r.job_sender) ⊎ Awaits P D k (received_for pool)

  -- What holds after `n` steps, from channel and tasks of a total weight.
  pub record IsDraining (total n : ℕ) (r : Runner P) (pool : List Job) : Type 0 where
    pub has : Has r e
    pub consistent : IsConsistent P D r.queue_db r.finished_db
    pub pooled : IsPooled r pool
    pub jobs : AllJobs P D (D.messages r.job_sender)
    pub cost :
        n
          + 2 * weight P D r.queue_db (D.messages r.job_sender)
          + 2 * weight P D r.queue_db (received_for pool)
        ≤ 2 * total + length pool

  spawned_IsPooled :
      (job : Job) (channel' : P.Channel) (r : Runner P) (pool : List Job)
      → IsPooled r pool
      → D.messages r.job_sender ≡ some job ∷ D.messages channel'
      → IsPooled (record r { job_sender = channel' }) (job ∷ pool)
  spawned_IsPooled job channel' r pool h front k b found = elim (h k b found) [
    | inr spawned ↦ inr (inr spawned)
    | inl waits ↦
        let arrived : Awaits P D k (some job ∷ D.messages channel') = rw front at waits in
        elim arrived [ inl mine ↦ inr (inl mine) | inr still ↦ inl still ]
  ]

  spawned_IsDraining :
      (total n : ℕ) (job : Job) (channel' : P.Channel) (r : Runner P) (pool : List Job)
      → IsDraining total n r pool
      → D.messages r.job_sender ≡ some job ∷ D.messages channel'
      → IsDraining total (suc n) (record r { job_sender = channel' }) (job ∷ pool)
  spawned_IsDraining total n job channel' r pool h front =
      let cost : n
            + 2
              * (message_weight P D r.queue_db (some job)
                  + weight P D r.queue_db (D.messages channel'))
            + 2 * weight P D r.queue_db (received_for pool)
          ≤ 2 * total + length pool =
        rw front at h.cost in
      record {
        has = h.has;
        consistent = h.consistent;
        pooled = spawned_IsPooled job channel' r pool h.pooled front;
        jobs = rw front at h.jobs;
        cost = omega (arith, cost);
      }

  ran_IsPooled :
      (job : Job) (key : Bytes) (r t : Runner P) (pool others : List Job)
      → P.serialize_anchor job.anchor ≡ ok key
      → Picks job pool others
      → IsPooled r pool
      → Progress P D job key r t
      → IsPooled t others
  ran_IsPooled job key r t pool others anchored picks h progress k b found =
      elim (Progress-queued P D job key r t anchored k b progress found) [
        | inl sent ↦ inl sent
        | inr (other, there) ↦ elim (h k b there) [
          | inl waits ↦ inl (Progress-Awaits P D job key r t anchored k progress waits)
          | inr spawned ↦ elim (Awaits-Picks P D k picks spawned) [
            | inl mine ↦ absurd (other (ok-injective (sym mine ∙ anchored)))
            | inr left ↦ inr left
          ]
        ]
      ]

  ran_IsDraining :
      (total n : ℕ) (job : Job) (key : Bytes) (r t : Runner P) (pool others : List Job)
      → P.serialize_anchor job.anchor ≡ ok key
      → Picks job pool others
      → IsDraining total n r pool
      → IsConsistent P D t.queue_db t.finished_db
      → Progress P D job key r t
      → IsDraining total (suc n) t others
  ran_IsDraining total n job key r t pool others anchored picks h consistent progress =
      let lowered = weight-Progress P D job key r anchored t progress in
      let kept =
        weight-le P D r.queue_db t.queue_db (received_for others)
          (Progress-Lightens P D job key r t anchored progress) in
      record {
        has = Progress-Has P D e job key r t progress h.has;
        consistent = consistent;
        pooled = ran_IsPooled job key r t pool others anchored picks h.pooled progress;
        jobs = Progress-AllJobs P D e job key r t progress h.jobs;
        cost = omega (
          arith,
          h.cost,
          lowered,
          kept,
          weight-Picks P D r.queue_db picks,
          length-Picks P D picks,
        );
      }

  dropped_IsDraining :
      (total n : ℕ) (job : Job) (text : String) (r : Runner P) (pool others : List Job)
      → P.serialize_anchor job.anchor ≡ err text
      → Picks job pool others
      → IsDraining total n r pool
      → IsDraining total (suc n) r others
  dropped_IsDraining total n job text r pool others unwritten picks h = record {
    has = h.has;
    consistent = h.consistent;
    pooled = λ k b found. elim (h.pooled k b found) [
      | inl waits ↦ inl waits
      | inr spawned ↦ elim (Awaits-Picks P D k picks spawned) [
        | inl mine ↦ cc (mine, unwritten)
        | inr left ↦ inr left
      ]
    ];
    jobs = h.jobs;
    cost = omega (
      arith,
      h.cost,
      weight-Picks P D r.queue_db picks,
      length-Picks P D picks,
      message_weight_bounds P D r.queue_db (some job),
    );
  }

  module _ (reliable : IsReliable P D) where
    step_IsDraining :
        (total n : ℕ) (r t : Runner P) (pool pool' : List Job)
        → PoolStep P (IsServed P D e) r pool t pool'
        → IsDraining total n r pool
        → IsDraining total (suc n) t pool'
    step_IsDraining total n r t pool pool' (spawns job channel' arrived) h =
        spawned_IsDraining total n job channel' r pool h
          (D.messages-recv r.job_sender (some job) channel' arrived)
    step_IsDraining total n r t pool pool' (runs w job others served picks) h =
        elim (Result-cases (P.serialize_anchor job.anchor)) [
          | inl (key, anchored) ↦
              let (u, ended, progress) =
                prove-Progress P D e w job key r reliable served h.has h.consistent anchored in
              let intact : Intact (consistency P D) u = rw ended at (
                (prove-Intact P D (consistency P D) w job).at r
                  (record { trees = h.consistent })) in
              rw ended (
                ran_IsDraining total n job key r u pool others anchored picks h intact.trees
                  progress)
          | inr (text, unwritten) ↦
              rw (prove-unwritten P D e w job text r unwritten)
                (dropped_IsDraining total n job text r pool others unwritten picks h)
        ]

    pub run_IsDraining :
        (total : ℕ) (r : Runner P) (n : ℕ) (t : Runner P) (pool : List Job)
        → PoolRun P (IsServed P D e) r [] n t pool
        → IsDraining total 0 r []
        → IsDraining total n t pool
    run_IsDraining total r n t pool rests h = h
    run_IsDraining total r n t pool (goes_on {n = m} {s = s} {us = us} run step) h =
        step_IsDraining total m s t us pool step (run_IsDraining total r m s us run h)
