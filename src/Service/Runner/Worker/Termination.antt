-- ===== src/Service/Runner/Worker/Termination.antt =====
-- The loop of `job_worker` comes to rest, and then no job is left in the queue.
use pda_proxy.Base.{
  ℕ, zero, suc, ◌*◌, ◌<◌, ◌≡◌, refl, ◌⊎◌, inl, inr, none, some, [], arith, length, Bytes,
  Option-cases,
}
use pda_proxy.Service.Job.{Job, JobStatus}
use pda_proxy.Service.Platform.{Platform, World, IsDocumented}
use pda_proxy.Service.Runner.State.{Runner}
use pda_proxy.Service.Runner.Proving.{prove}
use pda_proxy.Service.Runner.Invariant.{IsConsistent, AreValid}
use pda_proxy.Service.Runner.Invariant.Laws.{Intact}
use pda_proxy.Service.Runner.Invariant.Instances.{presence, IsKnown}
use pda_proxy.Service.Runner.Registry.{absent, settled, At, IsReliable}
use pda_proxy.Service.Runner.Worker.Rounds.{waits, after, handle_message, round, rounds}
use pda_proxy.Service.Runner.Worker.Progress.{Equipment, Has, IsServed}
use pda_proxy.Service.Runner.Worker.Attended.{IsAttended, AllJobs}
use pda_proxy.Service.Runner.Worker.Weight.{weight-le-length}
use pda_proxy.Service.Runner.Worker.Running.{
  rounds-Intact, IsRunning, IsReceived, left, task_IsRunning,
}

module _ (P : Platform) (D : IsDocumented P) (e : Equipment P) (reliable : IsReliable P D) where
  arrived_IsReceived :
      (job : Job) (c : P.Channel) (r : Runner P)
      → IsRunning P D e r
      → P.recv r.job_sender ≡ some (some job, c)
      → IsReceived P D e job c r
  arrived_IsReceived job c r h arrived = record {
    running = h;
    first = D.messages-recv r.job_sender (some job) c arrived;
  }

  module _ (ws : ℕ → World P) (served : (i : ℕ) → IsServed P D e (ws i)) where
    -- Enough fuel brings the loop to rest on an empty channel.
    pub rests :
        (n : ℕ) (r : Runner P)
        → IsRunning P D e r
        → left P D e r < n
        → (t : Runner P) × (rounds P n ws r ≡ (waits, t))
          × IsRunning P D e t
          × (D.messages t.job_sender ≡ [])
    unfolding rounds after round handle_message
    rests zero r h enough = absurd (omega arith)
    rests (suc n) r h enough = elim (Option-cases (P.recv r.job_sender)) [
      | inl empty ↦ (r, rw empty refl, h, D.recv-none r.job_sender empty)
      | inr ((none, c), arrived) ↦
          absurd (rw (D.messages-recv r.job_sender none c arrived) at h.jobs)
      | inr ((some job, c), arrived) ↦
          let (running, less) =
            task_IsRunning P D e (ws n) job c r reliable (served n)
              (arrived_IsReceived job c r h arrived) in
          rw arrived
            (rests n (prove P (ws n) job (record r { job_sender = c })).1 running (omega arith))
    ]

  -- No job is queued when the channel is empty.
  unqueued :
      (key : Bytes) (t : Runner P)
      → IsRunning P D e t
      → D.messages t.job_sender ≡ []
      → D.contents t.queue_db key ≡ none
  unqueued key t h empty = elim (Option-cases (D.contents t.queue_db key)) [
    | inl none_there ↦ none_there
    | inr (b, found) ↦ absurd (rw empty at (h.attended key b found))
  ]

  -- A job that one of the trees had before the loop is settled when the channel is empty.
  pub known_settled :
      (n : ℕ) (ws : ℕ → World P) (key : Bytes) (r t : Runner P)
      → rounds P n ws r ≡ (waits, t)
      → IsRunning P D e t
      → D.messages t.job_sender ≡ []
      → IsKnown P D key r.queue_db r.finished_db
      → (status : JobStatus P.Proof) × At P D t key (settled status)
  known_settled n ws key r t ended h empty known =
      let intact : Intact (presence P D key) t =
        rw ended at (rounds-Intact P D (presence P D key) n ws r (record { trees = known })) in
      elim intact.trees.somewhere [
        | inl (b, there) ↦ cc (there, unqueued key t h empty)
        | inr (b, there) ↦
            let (status, decoded, final) = h.consistent.valid.finished_final key b there in
            (status, (b, there, decoded, final, unqueued key t h empty))
      ]

  -- Each job is absent or known.
  pub absent_or_IsKnown :
      (key : Bytes) (r : Runner P)
      → AreValid P D r.queue_db r.finished_db
      → At P D r key absent ⊎ IsKnown P D key r.queue_db r.finished_db
  absent_or_IsKnown key r valid = elim (Option-cases (D.contents r.queue_db key)) [
    | inr there ↦ inr (record { valid = valid; somewhere = inl there })
    | inl unqueued ↦ elim (Option-cases (D.contents r.finished_db key)) [
      | inr there ↦ inr (record { valid = valid; somewhere = inr there })
      | inl unfinished ↦ inl (unqueued, unfinished)
    ]
  ]

  -- Let the database and the channel not fail, both prover clients be built and the proof setup be
  -- cached in the runner, `ENCRYPTION_KEY` be set to a key and `SP1_FULFILLMENT_STRATEGY` to a
  -- known strategy, random bytes be there, every call of the prover be answered with a result or a
  -- network error that can be stored, the trees be consistent, every queued job have a message in
  -- the channel and none of its messages ask for the end. Then the worker on its own, its tasks one
  -- after another, comes to wait on an empty channel, within one round more than twice the
  -- messages; then no job is queued, and each job that was queued or finished has a final status in
  -- the finished tree: a proof, or a failure.
  pub rounds-settled :
      (ws : ℕ → World P) (r : Runner P) (n : ℕ)
      → ((i : ℕ) → IsServed P D e (ws i))
      → Has r e
      → IsConsistent P D r.queue_db r.finished_db
      → IsAttended P D r
      → AllJobs P D (D.messages r.job_sender)
      → 2 * length (D.messages r.job_sender) < n
      → (t : Runner P) × (rounds P n ws r ≡ (waits, t))
        × (D.messages t.job_sender ≡ [])
        × ((key : Bytes) → D.contents t.queue_db key ≡ none)
        × ((key : Bytes)
            → At P D r key absent ⊎ ((status : JobStatus P.Proof) × At P D t key (settled status)))
  rounds-settled ws r n served has consistent attended jobs enough =
      let running : IsRunning P D e r = record {
        has = has;
        consistent = consistent;
        attended = attended;
        jobs = jobs;
      } in
      let (t, ended, h, empty) =
        rests ws served n r running
          (omega (arith, weight-le-length P D r.queue_db (D.messages r.job_sender))) in
      (
        t,
        ended,
        empty,
        λ key. unqueued key t h empty,
        λ key. elim (absent_or_IsKnown key r consistent.valid) [
          | inl none_there ↦ inl none_there
          | inr known ↦ inr (known_settled n ws key r t ended h empty known)
        ],
      )
