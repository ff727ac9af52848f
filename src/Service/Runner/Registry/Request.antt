-- ===== src/Service/Runner/Registry/Request.antt =====
-- `get_verifiable_encryption` against the phases of a job.
use pda_proxy.Base.{◌≡◌, refl, none, some, String, Bytes, ok}
use pda_proxy.Service.Job.{
  Job, JobStatus, permanent, retry_with, local_zk_proof_pending, remote_zk_proof_requesting,
  remote_zk_proof_pending, zk_proof_finished, failed,
}
use pda_proxy.Service.Action.{done, ◌>>=◌}
use pda_proxy.Service.Platform.{Platform, World, IsDocumented}
use pda_proxy.Service.Runner.State.{Runner}
use pda_proxy.Service.Runner.Requests.{
  retrying, answer_finished, answer_queued, initial_status, start_job, answer_queue, answer,
  get_verifiable_encryption,
}
use pda_proxy.Service.Runner.Invariant.{IsPending, IsFinal}
use pda_proxy.Service.Runner.Registry.{
  Phase, absent, queued, settled, request, At, IsReliable, IsWritable, Moves,
}
use pda_proxy.Service.Runner.Registry.Moves.{stayed, moved_back, put_in}

module _ (P : Platform) (D : IsDocumented P) where
  -- The variable `SP1_PROVER` is set to a prover whose jobs start in the status `initial`.
  abbrev pub StartsIn : World P → JobStatus P.Proof → Type 0
  StartsIn w initial =
      (prover_type : String) × (w.var "SP1_PROVER" ≡ some prover_type)
      × ((r : Runner P) → initial_status P prover_type r ≡ (done initial, r))
      × IsPending initial

  pub still_queued :
      (key : Bytes) (status : JobStatus P.Proof) (r : Runner P)
      → IsPending status
      → answer_queued P key status r ≡ (done none, r)
  unfolding answer_queued ◌>>=◌
  still_queued key local_zk_proof_pending r p = refl
  still_queued key remote_zk_proof_requesting r p = refl
  still_queued key (remote_zk_proof_pending id) r p = refl
  still_queued key (zk_proof_finished proof) r p = absurd p
  still_queued key (failed error maybe_status) r p = absurd p

  pub settled_answer :
      (job : Job) (key : Bytes) (initial status : JobStatus P.Proof) (r : Runner P)
      → IsReliable P D
      → IsFinal status
      → At P D r key (settled status)
      → IsWritable P D (request initial (settled status)).1.0
      → (t : Runner P) × (answer_finished P job key status r
          ≡ ((request initial (settled status)).0, t))
        × Moves P D job key (request initial (settled status)).1 r t
  unfolding answer_finished retrying ◌>>=◌
  settled_answer job key initial (zk_proof_finished proof) r reliable final there written =
      (r, refl, stayed P D job key (settled (zk_proof_finished proof)) r there)
  settled_answer job key initial (failed error permanent) r reliable final there written =
      (r, refl, stayed P D job key (settled (failed error permanent)) r there)
  settled_answer job key initial (failed error (retry_with status)) r reliable final there written =
      let (t, sent, moves) = moved_back P D job key status r reliable final written in
      (t, rw sent, moves)
  settled_answer job key initial local_zk_proof_pending r reliable final there written =
      absurd final
  settled_answer job key initial remote_zk_proof_requesting r reliable final there written =
      absurd final
  settled_answer job key initial (remote_zk_proof_pending id) r reliable final there written =
      absurd final

  -- A request refines the phases: where the database and the channel work, `SP1_PROVER` is set to a
  -- known prover, and the status of the next phase can be written, the request for a job in any
  -- phase ends with the outcome that the phases give, leaves the job in the phase that they give,
  -- sends it to the worker exactly when they say so, and touches no other job.
  pub get_verifiable_encryption-request :
      (w : World P) (job : Job) (key : Bytes) (initial : JobStatus P.Proof) (phase : Phase P.Proof)
      (r : Runner P)
      → IsReliable P D
      → P.serialize_anchor job.anchor ≡ ok key
      → StartsIn w initial
      → At P D r key phase
      → IsWritable P D (request initial phase).1.0
      → (t : Runner P) × (get_verifiable_encryption P w job r ≡ ((request initial phase).0, t))
        × Moves P D job key (request initial phase).1 r t
  unfolding get_verifiable_encryption answer answer_queue start_job ◌>>=◌
  get_verifiable_encryption-request w job key initial absent r reliable anchored
        (prover_type, set, starts, pending) (unqueued, unfinished) written =
      let (t, enqueued, moves) = put_in P D job key initial r reliable pending written unfinished in
      (
        t,
        rw (
          anchored,
          reliable.reads r.finished_db key,
          unfinished,
          reliable.reads r.queue_db key,
          unqueued,
          set,
          starts r,
          enqueued,
        ),
        moves,
      )
  get_verifiable_encryption-request w job key initial (queued status) r reliable anchored starting
        (b, found, decoded, pending, unfinished) written =
      (
        r,
        rw (
          anchored,
          reliable.reads r.finished_db key,
          unfinished,
          reliable.reads r.queue_db key,
          found,
          decoded,
          still_queued key status r pending,
        ),
        stayed P D job key (queued status) r (b, found, decoded, pending, unfinished),
      )
  get_verifiable_encryption-request w job key initial (settled status) r reliable anchored starting
        (b, found, decoded, final, unqueued) written =
      let (t, answers, moves) =
        settled_answer job key initial status r reliable final (b, found, decoded, final, unqueued)
          written in
      (t, rw (anchored, reliable.reads r.finished_db key, found, decoded, answers), moves)
