-- ===== src/Service/Runner/Worker/Answering.antt =====
-- Requests, then the worker: each request that was told to wait is answered.
use pda_proxy.Base.{
  ℕ, ◌+◌, ◌*◌, ◌≤◌, ◌<◌, ◌≡◌, Option, none, some, List, [], ◌∷◌, arith, length, Bytes, ok,
}
use pda_proxy.Service.Job.{
  PdaRunnerError, Job, JobStatus, permanent, retry_with, local_zk_proof_pending,
  remote_zk_proof_requesting, remote_zk_proof_pending, zk_proof_finished, failed,
}
use pda_proxy.Service.Action.{Outcome, done, fail, panic, ◌>>=◌}
use pda_proxy.Service.Platform.{Platform, World, IsDocumented}
use pda_proxy.Service.Runner.State.{Runner}
use pda_proxy.Service.Runner.Requests.{answer, answer_finished, get_verifiable_encryption}
use pda_proxy.Service.Runner.Invariant.Laws.{Intact}
use pda_proxy.Service.Runner.Invariant.Request.{get_verifiable_encryption-Intact}
use pda_proxy.Service.Runner.Invariant.Instances.{presence, IsKnown}
use pda_proxy.Service.Runner.Registry.{settled, At, IsReliable}
use pda_proxy.Service.Runner.Registry.Request.{StartsIn, settled_answer}
use pda_proxy.Service.Runner.Worker.Asked.{ask_all}
use pda_proxy.Service.Runner.Worker.Rounds.{rounds, waits}
use pda_proxy.Service.Runner.Worker.Progress.{Equipment, IsServed}
use pda_proxy.Service.Runner.Worker.Running.{IsRunning}
use pda_proxy.Service.Runner.Worker.Weight.{weight-le-length}
use pda_proxy.Service.Runner.Worker.Termination.{rests, known_settled}
use pda_proxy.Service.Runner.Worker.Requested.{ArePendingWritable, request_IsRunning}

module _ (P : Platform) (D : IsDocumented P) where
  -- Each request names its job, and `SP1_PROVER` is set to a known prover.
  abbrev pub AreAskable : List (World P × Job) → Type 0
  AreAskable [] = Unit
  AreAskable ((w, job) ∷ requests) =
      ((key : Bytes) × (P.serialize_anchor job.anchor ≡ ok key))
      × ((initial : JobStatus P.Proof) × StartsIn P D w initial)
      × AreAskable requests

  -- An answer that is a proof or an error.
  abbrev pub IsConclusive : Outcome PdaRunnerError (Option P.Proof) → Type 0
  IsConclusive (done none) = ⊥
  IsConclusive (done (some proof)) = Unit
  IsConclusive (fail e) = Unit
  IsConclusive (panic message) = ⊥

  -- Whatever the environment, the next request for each of the jobs is not told to wait.
  abbrev pub AreAnswered : List (World P × Job) → Runner P → Type 0
  AreAnswered [] t = Unit
  AreAnswered ((w, job) ∷ requests) t =
      ((w' : World P) → IsConclusive (get_verifiable_encryption P w' job t).0)
      × AreAnswered requests t

  settled_answered :
      (w : World P) (job : Job) (key : Bytes) (status : JobStatus P.Proof) (t : Runner P)
      → IsReliable P D
      → ArePendingWritable P D
      → P.serialize_anchor job.anchor ≡ ok key
      → At P D t key (settled status)
      → IsConclusive (get_verifiable_encryption P w job t).0
  unfolding get_verifiable_encryption answer answer_finished ◌>>=◌
  settled_answered w job key (zk_proof_finished proof) t reliable writable anchored
        (b, found, decoded, final, unqueued) =
      rw (anchored, reliable.reads t.finished_db key, found, decoded) tt
  settled_answered w job key (failed error permanent) t reliable writable anchored
        (b, found, decoded, final, unqueued) =
      rw (anchored, reliable.reads t.finished_db key, found, decoded) tt
  settled_answered w job key (failed error (retry_with status)) t reliable writable anchored
        (b, found, decoded, final, unqueued) =
      let (u, answers, moves) =
        settled_answer P D job key status (failed error (retry_with status)) t reliable final
          (b, found, decoded, final, unqueued) (writable status final) in
      rw (anchored, reliable.reads t.finished_db key, found, decoded, answers) tt
  settled_answered w job key local_zk_proof_pending t reliable writable anchored
        (b, found, decoded, final, unqueued) =
      absurd final
  settled_answered w job key remote_zk_proof_requesting t reliable writable anchored
        (b, found, decoded, final, unqueued) =
      absurd final
  settled_answered w job key (remote_zk_proof_pending id) t reliable writable anchored
        (b, found, decoded, final, unqueued) =
      absurd final

  -- Each job is in one of the trees.
  abbrev AreKnown : List (World P × Job) → Runner P → Type 0
  AreKnown [] r = Unit
  AreKnown ((w, job) ∷ requests) r =
      ((key : Bytes) × (P.serialize_anchor job.anchor ≡ ok key)
        × IsKnown P D key r.queue_db r.finished_db)
      × AreKnown requests r

  ask_all-IsKnown :
      (key : Bytes) (requests : List (World P × Job)) (r : Runner P)
      → IsKnown P D key r.queue_db r.finished_db
      → IsKnown P D key (ask_all P requests r).queue_db (ask_all P requests r).finished_db
  unfolding ask_all
  ask_all-IsKnown key [] r known = known
  ask_all-IsKnown key ((w, job) ∷ requests) r known =
      let intact : Intact (presence P D key) (get_verifiable_encryption P w job r).1 =
        (get_verifiable_encryption-Intact P D (presence P D key) w job).at r
          (record { trees = known }) in
      ask_all-IsKnown key requests (get_verifiable_encryption P w job r).1 intact.trees

  module _ (e : Equipment P) (reliable : IsReliable P D) (writable : ArePendingWritable P D) where
    asked_all :
        (requests : List (World P × Job)) (r : Runner P)
        → AreAskable requests
        → IsRunning P D e r
        → IsRunning P D e (ask_all P requests r)
          × AreKnown requests (ask_all P requests r)
          × length (D.messages (ask_all P requests r).job_sender)
            ≤ length (D.messages r.job_sender) + length requests
    unfolding ask_all
    asked_all [] r askable h = (h, tt, omega arith)
    asked_all ((w, job) ∷ requests) r ((key, anchored), (initial, starting), askable) h =
        let t : Runner P = (get_verifiable_encryption P w job r).1 in
        let (running, known, few) =
          request_IsRunning P D e w job key initial r reliable anchored starting writable h in
        let (all_running, all_known, all_few) = asked_all requests t askable running in
        (
          all_running,
          ((key, anchored, ask_all-IsKnown key requests t known), all_known),
          omega (arith, few, all_few),
        )

    all_answered :
        (n : ℕ) (ws : ℕ → World P) (requests : List (World P × Job)) (r t : Runner P)
        → rounds P n ws r ≡ (waits, t)
        → IsRunning P D e t
        → D.messages t.job_sender ≡ []
        → AreKnown requests r
        → AreAnswered requests t
    all_answered n ws [] r t ended h empty known = tt
    all_answered n ws ((w, job) ∷ requests) r t ended h empty ((key, anchored, known), others) =
        let (status, there) = known_settled P D e reliable n ws key r t ended h empty known in
        (
          λ w'. settled_answered w' job key status t reliable writable anchored there,
          all_answered n ws requests r t ended h empty others,
        )

    -- Let the database and the channel not fail, both prover clients be built and the proof setup
    -- be cached in the runner, `ENCRYPTION_KEY` be set to a key and `SP1_FULFILLMENT_STRATEGY` to a
    -- known strategy, random bytes be there, the statuses of pending jobs be storable, every call
    -- of the prover be answered with a result or a network error that can be stored, the trees be
    -- consistent, every queued job have a message in the channel and none of its messages ask for
    -- the end. Whatever clients then request, each a job whose anchor serializes and with
    -- `SP1_PROVER` set to a known prover, the worker on its own, its tasks one after another, comes
    -- to wait on an empty channel, within one round more than twice the messages and the requests;
    -- and from then the next request for each of these jobs is answered with a proof or an error,
    -- and not told to wait.
    pub ask_all-rounds :
        (requests : List (World P × Job)) (ws : ℕ → World P) (r : Runner P) (n : ℕ)
        → AreAskable requests
        → ((i : ℕ) → IsServed P D e (ws i))
        → IsRunning P D e r
        → 2 * (length (D.messages r.job_sender) + length requests) < n
        → (t : Runner P) × (rounds P n ws (ask_all P requests r) ≡ (waits, t))
          × (D.messages t.job_sender ≡ [])
          × AreAnswered requests t
    ask_all-rounds requests ws r n askable served h enough =
        let s : Runner P = ask_all P requests r in
        let (running, known, few) = asked_all requests r askable h in
        let (t, ended, rested, empty) =
          rests P D e reliable ws served n s running
            (omega (arith, few, weight-le-length P D s.queue_db (D.messages s.job_sender))) in
        (t, ended, empty, all_answered n ws requests s t ended rested empty known)
