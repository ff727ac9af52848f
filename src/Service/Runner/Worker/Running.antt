-- ===== src/Service/Runner/Worker/Running.antt =====
-- What the loop of `job_worker` keeps from round to round.
use pda_proxy.Base.{
  ℕ, zero, suc, ◌<◌, ◌≡◌, ap, ◌∙◌, inl, inr, Option, none, some, String, ◌∷◌, true, false, arith,
  Bytes, ok, err, Result-cases,
}
use pda_proxy.Service.Job.{Job}
use pda_proxy.Service.Action.{◌>>=◌}
use pda_proxy.Service.Action.Keeps.{keeps_rules}
use pda_proxy.Service.Platform.{Platform, World, IsDocumented}
use pda_proxy.Service.Runner.State.{Runner}
use pda_proxy.Service.Runner.Proving.{prove}
use pda_proxy.Service.Runner.Invariant.{IsConsistent}
use pda_proxy.Service.Runner.Invariant.Laws.{TreeInvariant, Intact}
use pda_proxy.Service.Runner.Invariant.Methods.{KeepsIntact}
use pda_proxy.Service.Runner.Invariant.Prove.{prove-Intact}
use pda_proxy.Service.Runner.Invariant.Instances.{consistency}
use pda_proxy.Service.Runner.Registry.{Effect, Moves, IsReliable}
use pda_proxy.Service.Runner.Worker.Rounds.{
  Round, waits, ran, exits, clean_up, after, handle_message, round, rounds,
}
use pda_proxy.Service.Runner.Worker.Progress.{Equipment, Has, IsServed, Progress, prove-Progress}
use pda_proxy.Service.Runner.Worker.Attended.{
  IsAttended, AllJobs, Awaits, AllJobs-append_last, Progress-IsAttended,
}
use pda_proxy.Service.Runner.Worker.Weight.{weight, message_weight_bounds}
use pda_proxy.Service.Runner.Worker.Descent.{weight-Progress}

module _ (P : Platform) (D : IsDocumented P) (T : TreeInvariant P D) where
  pub clean_up-Intact : KeepsIntact P D T (clean_up P)
  unfolding clean_up
  clean_up-Intact = search keeps_rules depth 12

  received : (c : P.Channel) (r : Runner P) → Intact T r → Intact T (record r { job_sender = c })
  received c r h = record { trees = h.trees }

  handled :
      (w : World P) (r : Runner P) (m : Option (Option Job × P.Channel))
      → Intact T r
      → Intact T (handle_message P w r m).1
  unfolding handle_message
  handled w r none h = h
  handled w r (some (none, c)) h = clean_up-Intact.at (record r { job_sender = c }) (received c r h)
  handled w r (some (some job, c)) h =
      (prove-Intact P D T w job).at (record r { job_sender = c }) (received c r h)

  carried :
      (outcome : Round × Runner P) (more : Runner P → Round × Runner P)
      → Intact T outcome.1
      → ((t : Runner P) → Intact T t → Intact T (more t).1)
      → Intact T (after P outcome more).1
  unfolding after
  carried (waits, t) more h k = h
  carried (exits code, t) more h k = h
  carried (ran, t) more h k = k t h

  -- The loop keeps every property of the trees that each task keeps.
  pub rounds-Intact :
      (n : ℕ) (ws : ℕ → World P) (r : Runner P) → Intact T r → Intact T (rounds P n ws r).1
  unfolding rounds round
  rounds-Intact zero ws r h = h
  rounds-Intact (suc n) ws r h =
      carried (handle_message P (ws n) r (P.recv r.job_sender)) (λ t. rounds P n ws t)
        (handled (ws n) r (P.recv r.job_sender) h) (rounds-Intact n ws)

module _ (P : Platform) (D : IsDocumented P) (e : Equipment P) where
  -- What holds between two rounds.
  pub record IsRunning (r : Runner P) : Type 0 where
    pub has : Has r e
    pub consistent : IsConsistent P D r.queue_db r.finished_db
    pub attended : IsAttended P D r
    pub jobs : AllJobs P D (D.messages r.job_sender)

  abbrev pub left : Runner P → ℕ
  left r = weight P D r.queue_db (D.messages r.job_sender)

  pub Moves-Has :
      (job : Job) (key : Bytes) (effect : Effect P.Proof) (r t : Runner P)
      → Moves P D job key effect r t
      → Has r e
      → Has t e
  Moves-Has job key effect r t (now, told, others, frame) (local, remote, setup, timeout) = (
    ap (λ (x : Runner P). x.zk_client_handle_local) frame ∙ local,
    ap (λ (x : Runner P). x.zk_client_handle_remote) frame ∙ remote,
    ap (λ (x : Runner P). x.chacha_setup) frame ∙ setup,
    ap (λ (x : Runner P). x.zk_proof_gen_timeout_remote) frame ∙ timeout,
  )

  pub Progress-Has :
      (job : Job) (key : Bytes) (r t : Runner P) → Progress P D job key r t → Has r e → Has t e
  Progress-Has job key r t (inl (unqueued, same)) has = rw same has
  Progress-Has job key r t (inr (status, effect, there, advances, moves)) has =
      Moves-Has job key effect r t moves has

  pub Progress-AllJobs :
      (job : Job) (key : Bytes) (r t : Runner P)
      → Progress P D job key r t
      → AllJobs P D (D.messages r.job_sender)
      → AllJobs P D (D.messages t.job_sender)
  Progress-AllJobs job key r t (inl (unqueued, same)) h = rw same h
  Progress-AllJobs job key r t
        (inr (status, (phase, false), there, advances, (now, told, others, frame))) h =
      rw told h
  Progress-AllJobs job key r t
        (inr (status, (phase, true), there, advances, (now, told, others, frame))) h =
      rw told (AllJobs-append_last P D job (D.messages r.job_sender) h)

  -- What the loop relies on when a job has been received.
  pub record IsReceived (job : Job) (c : P.Channel) (r : Runner P) : Type 0 where
    pub running : IsRunning r
    pub first : D.messages r.job_sender ≡ some job ∷ D.messages c

  before :
      (job : Job) (c : P.Channel) (r : Runner P)
      → IsReceived job c r
      → (k b : Bytes) → D.contents r.queue_db k ≡ some b
      → Awaits P D k (some job ∷ D.messages c)
  before job c r h k b found = rw h.first at (h.running.attended k b found)

  progressed :
      (job : Job) (key : Bytes) (c : P.Channel) (r t : Runner P)
      → IsReceived job c r
      → P.serialize_anchor job.anchor ≡ ok key
      → IsConsistent P D t.queue_db t.finished_db
      → Progress P D job key (record r { job_sender = c }) t
      → IsRunning t × left t < left r
  progressed job key c r t h anchored consistent progress = (
    record {
      has = Progress-Has job key (record r { job_sender = c }) t progress h.running.has;
      consistent = consistent;
      attended =
          Progress-IsAttended P D job key (record r { job_sender = c }) anchored (before job c r h)
            t progress;
      jobs =
          Progress-AllJobs job key (record r { job_sender = c }) t progress
            (rw h.first at h.running.jobs);
    },
    rw h.first (weight-Progress P D job key (record r { job_sender = c }) anchored t progress),
  )

  dropped :
      (job : Job) (text : String) (c : P.Channel) (r : Runner P)
      → IsReceived job c r
      → P.serialize_anchor job.anchor ≡ err text
      → IsRunning (record r { job_sender = c }) × left (record r { job_sender = c }) < left r
  dropped job text c r h unwritten = (
    record {
      has = h.running.has;
      consistent = h.running.consistent;
      attended = λ k b found. elim (before job c r h k b found) [
        | inl mine ↦ cc (mine, unwritten)
        | inr later ↦ later
      ];
      jobs = rw h.first at h.running.jobs;
    },
    rw h.first (omega (arith, message_weight_bounds P D r.queue_db (some job))),
  )

  pub prove-unwritten :
      (w : World P) (job : Job) (text : String) (r : Runner P)
      → P.serialize_anchor job.anchor ≡ err text
      → (prove P w job r).1 ≡ r
  unfolding prove ◌>>=◌
  prove-unwritten w job text r unwritten = rw unwritten

  -- The task for the first message ends, and less is left than was before the message came.
  pub task_IsRunning :
      (w : World P) (job : Job) (c : P.Channel) (r : Runner P)
      → IsReliable P D
      → IsServed P D e w
      → IsReceived job c r
      → IsRunning (prove P w job (record r { job_sender = c })).1
        × left (prove P w job (record r { job_sender = c })).1 < left r
  task_IsRunning w job c r reliable served h = elim (Result-cases (P.serialize_anchor job.anchor)) [
    | inl (key, anchored) ↦
        let (t, ended, progress) =
          prove-Progress P D e w job key (record r { job_sender = c }) reliable served h.running.has
            h.running.consistent anchored in
        let intact : Intact (consistency P D) t = rw ended at (
          (prove-Intact P D (consistency P D) w job).at (record r { job_sender = c })
            (record { trees = h.running.consistent })) in
        rw ended (progressed job key c r t h anchored intact.trees progress)
    | inr (text, unwritten) ↦
        rw (prove-unwritten w job text (record r { job_sender = c }) unwritten)
          (dropped job text c r h unwritten)
  ]
