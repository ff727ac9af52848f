-- ===== src/Service/Runner/Answers.antt =====
-- What the answer of `get_verifiable_encryption` says about the trees.
use pda_proxy.Base.{
  ◌≡◌, refl, ap, ◌∙◌, ◌⊎◌, inl, inr, Option, none, some, [], ◌∷◌, ◌++◌, Bytes, ok, bytes_eq_refl,
  Result-cases, Option-cases,
}
use pda_proxy.Service.Job.{
  Job, JobStatus, permanent, retry_with, local_zk_proof_pending, remote_zk_proof_requesting,
  remote_zk_proof_pending, zk_proof_finished, failed,
}
use pda_proxy.Service.Action.{done, pure, attempt, ◌>>=◌, ◌>>◌}
use pda_proxy.Service.Action.Outcomes.{state-eq, throw-ne-done}
use pda_proxy.Service.Platform.{Platform, World, IsDocumented}
use pda_proxy.Service.Runner.State.{Runner, send_message}
use pda_proxy.Service.Runner.Jobs.{send_job_with_new_status}
use pda_proxy.Service.Runner.Requests.{
  retrying, answer_finished, answer_queued, enqueue, start_job, answer_queue, answer,
  get_verifiable_encryption,
}
use pda_proxy.Service.Runner.Invariant.{IsPending, Holds}
use pda_proxy.Service.Runner.Invariant.Request.{initial_status-cases}

module _ (P : Platform) (D : IsDocumented P) where
  -- What a request for `key` that is answered with "pending" has done.
  abbrev pub Queued : Job → Bytes → Runner P → Runner P → Type 0
  Queued job key r r' =
      (b : Bytes) × (D.contents r'.queue_db key ≡ some b)
      × Holds P IsPending b
      × ((r' ≡ r)
          ⊎ ((D.contents r.queue_db key ≡ none)
              × (D.messages r'.job_sender ≡ D.messages r.job_sender ++ (some job ∷ []))))

  sent_and_none :
      (job : Job) (o : Option P.Proof) (r r' : Runner P)
      → (send_message P (some job) >> pure {A = Option P.Proof} none) r ≡ (done o, r')
      → (o ≡ none)
        × (r'.queue_db ≡ r.queue_db)
        × (D.messages r'.job_sender ≡ D.messages r.job_sender ++ (some job ∷ []))
  unfolding send_message ◌>>=◌
  sent_and_none job o r r' h = elim (Result-cases (P.send r.job_sender (some job))) [
    | inl (c, e) ↦
        let t : r' ≡ record r { job_sender = c } = state-eq (rw e at h) in
        (
          cc (rw e at h),
          ap (λ (x : Runner P). x.queue_db) t,
          ap (λ (x : Runner P). D.messages x.job_sender) t
              ∙ D.messages-send r.job_sender (some job) c e,
        )
    | inr (message, e) ↦ cc (rw e at h)
  ]

  answer_queued-IsPending :
      (key : Bytes) (s : JobStatus P.Proof) (o : Option P.Proof) (r r' : Runner P)
      → answer_queued P key s r ≡ (done o, r')
      → (o ≡ none) × IsPending s × (r' ≡ r)
  unfolding answer_queued ◌>>=◌
  answer_queued-IsPending key local_zk_proof_pending o r r' h = (cc, tt, cc)
  answer_queued-IsPending key remote_zk_proof_requesting o r r' h = (cc, tt, cc)
  answer_queued-IsPending key (remote_zk_proof_pending id) o r r' h = (cc, tt, cc)
  answer_queued-IsPending key (zk_proof_finished proof) o r r' h = cc
  answer_queued-IsPending key (failed error maybe_status) o r r' h = cc

  finished_proof :
      (job : Job) (key : Bytes) (s : JobStatus P.Proof) (o : Option P.Proof) (r r' : Runner P)
      → answer_finished P job key s r ≡ (done o, r')
      → (proof : P.Proof) × (s ≡ zk_proof_finished proof) × (o ≡ some proof) × (r' ≡ r)
  unfolding answer_finished ◌>>=◌
  finished_proof job key (zk_proof_finished proof) o r r' h = (proof, refl, cc, cc)
  finished_proof job key (failed error permanent) o r r' h = cc
  finished_proof job key (failed error (retry_with status)) o r r' h = absurd (
      throw-ne-done (attempt (send_job_with_new_status P key status job)) (retrying P error) r r' o
        h)
  finished_proof job key local_zk_proof_pending o r r' h = cc
  finished_proof job key remote_zk_proof_requesting o r r' h = cc
  finished_proof job key (remote_zk_proof_pending id) o r r' h = cc

  enqueued :
      (job : Job) (key : Bytes) (s : JobStatus P.Proof) (o : Option P.Proof) (r r' : Runner P)
      → IsPending s
      → D.contents r.queue_db key ≡ none
      → enqueue P job key s r ≡ (done o, r')
      → (o ≡ none) × Queued job key r r'
  unfolding enqueue ◌>>=◌
  enqueued job key s o r r' q absent h = elim (Result-cases (P.serialize_status s)) [
    | inr (message, e) ↦ cc (rw e at h)
    | inl (b, e) ↦ elim (Result-cases (P.insert_into r.queue_db key b)) [
      | inr (message, f) ↦ cc (rw (e, f) at h)
      | inl (queue', f) ↦
          let (none_back, same, sent) =
            sent_and_none job o (record r { queue_db = queue' }) r'
              (unfold ◌>>=◌ in rw (e, f) at h) in
          (
            none_back,
            (
              b,
              ap (λ (t : P.Tree). D.contents t key) same
                  ∙ D.contents-insert r.queue_db key b queue' key f
                  ∙ rw bytes_eq_refl,
              (s, D.deserialize-serialize s b e, q),
              inr (absent, sent),
            ),
          )
    ]
  ]

  started :
      (w : World P) (job : Job) (key : Bytes) (o : Option P.Proof) (r r' : Runner P)
      → D.contents r.queue_db key ≡ none
      → start_job P w job key r ≡ (done o, r')
      → (o ≡ none) × Queued job key r r'
  unfolding start_job ◌>>=◌
  started w job key o r r' absent h = elim (Option-cases (w.var "SP1_PROVER")) [
    | inl unset ↦ cc (rw unset at h)
    | inr (t, set) ↦ elim (initial_status-cases P t r) [
      | inl (s, q, e) ↦ enqueued job key s o r r' q absent (rw (set, e) at h)
      | inr (message, e) ↦ cc (rw (set, e) at h)
    ]
  ]

  -- The proof that the finished tree holds for `key`.
  abbrev pub Finished : Bytes → Runner P → P.Proof → Type 0
  Finished key r proof =
      (b : Bytes) × (D.contents r.finished_db key ≡ some b)
      × (P.deserialize_status b ≡ ok (zk_proof_finished proof))

  queue_answered :
      (w : World P) (job : Job) (key : Bytes) (q : Option Bytes) (o : Option P.Proof)
      (r r' : Runner P)
      → D.contents r.queue_db key ≡ q
      → answer_queue P w job key q r ≡ (done o, r')
      → (o ≡ none) × Queued job key r r'
  unfolding answer_queue ◌>>=◌
  queue_answered w job key none o r r' absent h = started w job key o r r' absent h
  queue_answered w job key (some b) o r r' found h = elim (Result-cases (P.deserialize_status b)) [
    | inr (message, e) ↦ cc (rw e at h)
    | inl (s, e) ↦
        let (none_back, q, same) = answer_queued-IsPending key s o r r' (rw e at h) in
        (
          none_back,
          (b, ap (λ (x : Runner P). D.contents x.queue_db key) same ∙ found, (s, e, q), inl same),
        )
  ]

  abbrev pub Answered : Job → Bytes → Option P.Proof → Runner P → Runner P → Type 0
  Answered job key o r r' =
      ((proof : P.Proof) × (o ≡ some proof) × Finished key r proof × (r' ≡ r))
      ⊎ ((o ≡ none) × (D.contents r.finished_db key ≡ none) × Queued job key r r')

  answered :
      (w : World P) (job : Job) (key : Bytes) (f : Option Bytes) (o : Option P.Proof)
      (r r' : Runner P)
      → D.contents r.finished_db key ≡ f
      → answer P w job key f r ≡ (done o, r')
      → Answered job key o r r'
  unfolding answer ◌>>=◌
  answered w job key (some b) o r r' found h = elim (Result-cases (P.deserialize_status b)) [
    | inr (message, e) ↦ cc (rw e at h)
    | inl (s, e) ↦
        let (proof, is_finished, back, same) = finished_proof job key s o r r' (rw e at h) in
        inl (proof, back, (b, found, e ∙ ap ok is_finished), same)
  ]
  answered w job key none o r r' absent h = elim (Result-cases (P.get r.queue_db key)) [
    | inr (message, e) ↦ cc (rw e at h)
    | inl (q, e) ↦
        let (back, queued) =
          queue_answered w job key q o r r' (D.get-contents r.queue_db key q e) (rw e at h) in
        inr (back, absent, queued)
  ]

  -- A request that succeeds returns either the proof that the finished tree holds for the job's
  -- key, and changes nothing; or no proof, where the finished tree has nothing for the key, and then
  -- the queue has a pending status for it: the request changed nothing, or the key was new to the
  -- queue and exactly this job was sent to the worker.
  pub get_verifiable_encryption-answered :
      (w : World P) (job : Job) (o : Option P.Proof) (r r' : Runner P)
      → get_verifiable_encryption P w job r ≡ (done o, r')
      → (key : Bytes) × (P.serialize_anchor job.anchor ≡ ok key) × Answered job key o r r'
  unfolding get_verifiable_encryption ◌>>=◌
  get_verifiable_encryption-answered w job o r r' h =
      elim (Result-cases (P.serialize_anchor job.anchor)) [
        | inr (message, e) ↦ cc (rw e at h)
        | inl (key, e) ↦ elim (Result-cases (P.get r.finished_db key)) [
          | inr (message, f) ↦ cc (rw (e, f) at h)
          | inl (found, f) ↦ (
            key,
            e,
            answered w job key found o r r' (D.get-contents r.finished_db key found f)
                (rw (e, f) at h),
          )
        ]
      ]
