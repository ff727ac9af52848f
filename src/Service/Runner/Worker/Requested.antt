-- ===== src/Service/Runner/Worker/Requested.antt =====
-- A request keeps what the loop of `job_worker` relies on, and its job is then known.
use pda_proxy.Base.{
  ◌+◌, ◌≤◌, ◌≡◌, ◌⊎◌, inl, inr, some, [], ◌∷◌, true, arith, length, length-append, Bytes, ok,
  Option-cases,
}
use pda_proxy.Service.Job.{
  Job, JobStatus, permanent, retry_with, local_zk_proof_pending, remote_zk_proof_requesting,
  remote_zk_proof_pending, zk_proof_finished, failed,
}
use pda_proxy.Service.Action.{◌>>=◌}
use pda_proxy.Service.Platform.{Platform, World, IsDocumented}
use pda_proxy.Service.Runner.State.{Runner}
use pda_proxy.Service.Runner.Requests.{
  answer, answer_queue, answer_finished, get_verifiable_encryption,
}
use pda_proxy.Service.Runner.Invariant.{IsPending, IsConsistent}
use pda_proxy.Service.Runner.Invariant.Laws.{Intact}
use pda_proxy.Service.Runner.Invariant.Request.{get_verifiable_encryption-Intact}
use pda_proxy.Service.Runner.Invariant.Instances.{consistency, IsKnown}
use pda_proxy.Service.Runner.Registry.{
  Phase, absent, queued, settled, At, IsReliable, IsWritable, Moves,
}
use pda_proxy.Service.Runner.Registry.Request.{
  StartsIn, get_verifiable_encryption-request, still_queued,
}
use pda_proxy.Service.Runner.Worker.Progress.{Equipment, At-queued}
use pda_proxy.Service.Runner.Worker.Attended.{AllJobs-append_last, requeued_IsAttended}
use pda_proxy.Service.Runner.Worker.Running.{IsRunning, Moves-Has}

module _ (P : Platform) (D : IsDocumented P) where
  -- Every status of a job in the queue can be written.
  abbrev pub ArePendingWritable : Type 0
  ArePendingWritable =
      (status : JobStatus P.Proof) → IsPending status → IsWritable P D (queued status)

  -- How a request leaves the runner: as it is, with a job that one of the trees has, or with the job
  -- queued and sent.
  abbrev Asks : Job → Bytes → Runner P → Runner P → Type 0
  Asks job key r t =
      ((t ≡ r) × IsKnown P D key r.queue_db r.finished_db)
      ⊎ ((status : JobStatus P.Proof) × Moves P D job key (queued status, true) r t)

  -- In consistent trees each job has a phase.
  pub phase_cases :
      (key : Bytes) (r : Runner P)
      → IsConsistent P D r.queue_db r.finished_db
      → (phase : Phase P.Proof) × At P D r key phase
  phase_cases key r h = elim (Option-cases (D.contents r.queue_db key)) [
    | inr (b, found) ↦ let (status, there) = At-queued P D key b r h found in (queued status, there)
    | inl unqueued ↦ elim (Option-cases (D.contents r.finished_db key)) [
      | inr (b, found) ↦
          let (status, decoded, final) = h.valid.finished_final key b found in
          (settled status, (b, found, decoded, final, unqueued))
      | inl unfinished ↦ (absent, (unqueued, unfinished))
    ]
  ]

  module _ (w : World P) (job : Job) (key : Bytes) (initial : JobStatus P.Proof) (r : Runner P)
      (reliable : IsReliable P D) (anchored : P.serialize_anchor job.anchor ≡ ok key)
      (starting : StartsIn P D w initial) (writable : ArePendingWritable)
      (h : IsConsistent P D r.queue_db r.finished_db) where
    stays_settled :
        (status : JobStatus P.Proof)
        → At P D r key (settled status)
        → (get_verifiable_encryption P w job r).1 ≡ r
        → Asks job key r (get_verifiable_encryption P w job r).1
    stays_settled status (b, found, decoded, final, unqueued) same =
        inl (same, record { valid = h.valid; somewhere = inr (b, found) })

    asked :
        (phase : Phase P.Proof)
        → At P D r key phase
        → Asks job key r (get_verifiable_encryption P w job r).1
    unfolding get_verifiable_encryption answer answer_queue answer_finished ◌>>=◌
    asked absent there =
        let (prover_type, set, starts, pending) = starting in
        let (t, ended, moves) =
          get_verifiable_encryption-request P D w job key initial absent r reliable anchored
            starting there (writable initial pending) in
        inr (initial, rw ended moves)
    asked (queued status) (b, found, decoded, pending, unfinished) = inl (
      rw (
        anchored,
        reliable.reads r.finished_db key,
        unfinished,
        reliable.reads r.queue_db key,
        found,
        decoded,
        still_queued P D key status r pending,
      ),
      record { valid = h.valid; somewhere = inl (b, found) },
    )
    asked (settled (failed error (retry_with status))) (b, found, decoded, final, unqueued) =
        let (t, ended, moves) =
          get_verifiable_encryption-request P D w job key initial
            (settled (failed error (retry_with status))) r reliable anchored starting
            (b, found, decoded, final, unqueued) (writable status final) in
        inr (status, rw ended moves)
    asked (settled (failed error permanent)) (b, found, decoded, final, unqueued) =
        stays_settled (failed error permanent) (b, found, decoded, final, unqueued)
          (rw (anchored, reliable.reads r.finished_db key, found, decoded))
    asked (settled (zk_proof_finished proof)) (b, found, decoded, final, unqueued) =
        stays_settled (zk_proof_finished proof) (b, found, decoded, final, unqueued)
          (rw (anchored, reliable.reads r.finished_db key, found, decoded))
    asked (settled local_zk_proof_pending) (b, found, decoded, final, unqueued) = absurd final
    asked (settled remote_zk_proof_requesting) (b, found, decoded, final, unqueued) = absurd final
    asked (settled (remote_zk_proof_pending id)) (b, found, decoded, final, unqueued) = absurd final

  asks-IsKnown :
      (job : Job) (key : Bytes) (r t : Runner P)
      → IsConsistent P D t.queue_db t.finished_db
      → Asks job key r t
      → IsKnown P D key t.queue_db t.finished_db
  asks-IsKnown job key r t h (inl (same, known)) = rw same known
  asks-IsKnown job key r t h
        (inr (status, ((b, found, decoded, pending, unfinished), told, others, frame))) =
      record { valid = h.valid; somewhere = inl (b, found) }

  asks-IsRunning :
      (e : Equipment P) (job : Job) (key : Bytes) (r t : Runner P)
      → P.serialize_anchor job.anchor ≡ ok key
      → IsRunning P D e r
      → IsConsistent P D t.queue_db t.finished_db
      → Asks job key r t
      → IsRunning P D e t
  asks-IsRunning e job key r t anchored h consistent (inl (same, known)) = rw same h
  asks-IsRunning e job key r t anchored h consistent (inr (status, (there, told, others, frame))) =
      let (local, remote, setup, timeout) = h.has in
      record {
        has = Moves-Has P D e job key (queued status, true) r t (there, told, others, frame) h.has;
        consistent = consistent;
        attended =
            requeued_IsAttended P D job key r anchored (λ k b found. inr (h.attended k b found))
              status t (there, told, others, frame);
        jobs = rw told (AllJobs-append_last P D job (D.messages r.job_sender) h.jobs);
      }

  asks_length :
      (job : Job) (key : Bytes) (r t : Runner P)
      → Asks job key r t
      → length (D.messages t.job_sender) ≤ length (D.messages r.job_sender) + 1
  asks_length job key r t (inl (same, known)) = rw same (omega arith)
  asks_length job key r t (inr (status, (there, told, others, frame))) =
      rw (told, length-append (D.messages r.job_sender) (some job ∷ [])) (omega arith)

  -- A request keeps what the loop relies on, and leaves its job known; it sends one message at
  -- most.
  pub request_IsRunning :
      (e : Equipment P) (w : World P) (job : Job) (key : Bytes) (initial : JobStatus P.Proof)
      (r : Runner P)
      → IsReliable P D
      → P.serialize_anchor job.anchor ≡ ok key
      → StartsIn P D w initial
      → ArePendingWritable
      → IsRunning P D e r
      → IsRunning P D e (get_verifiable_encryption P w job r).1
        × IsKnown P D key
            (get_verifiable_encryption P w job r).1.queue_db
            (get_verifiable_encryption P w job r).1.finished_db
        × length (D.messages (get_verifiable_encryption P w job r).1.job_sender)
          ≤ length (D.messages r.job_sender) + 1
  request_IsRunning e w job key initial r reliable anchored starting writable h =
      let t : Runner P = (get_verifiable_encryption P w job r).1 in
      let (phase, there) = phase_cases key r h.consistent in
      let asks =
        asked w job key initial r reliable anchored starting writable h.consistent phase there in
      let intact : Intact (consistency P D) t =
        (get_verifiable_encryption-Intact P D (consistency P D) w job).at r
          (record { trees = h.consistent }) in
      (
        asks-IsRunning e job key r t anchored h intact.trees asks,
        asks-IsKnown job key r t intact.trees asks,
        asks_length job key r t asks,
      )
