-- ===== src/Service/Runner/Invariant/Request.antt =====
-- The invariant of the job trees through `get_verifiable_encryption`.
use pda_proxy.Base.{
  ◌≡◌, sym, ◌∙◌, Bytes, ◌⊎◌, inl, inr, Option, none, some, String, ◌<>◌, Bytes, Result-cases,
  Option-cases, Bool-cases, str_eq,
}
use pda_proxy.Service.Job.{
  PdaRunnerError, internal_error, Job, JobStatus, permanent, retry_with, local_zk_proof_pending,
  remote_zk_proof_requesting, remote_zk_proof_pending, zk_proof_finished, failed,
}
use pda_proxy.Service.Action.{done, fail, ◌>>=◌, ◌>>◌, pure}
use pda_proxy.Service.Action.Keeps.{keeps_rules}
use pda_proxy.Service.Platform.{Platform, World, IsDocumented}
use pda_proxy.Service.Runner.State.{Runner, send_message}
use pda_proxy.Service.Runner.Requests.{
  is_local_prover, answer_finished, answer_queued, initial_status, enqueue, start_job, answer_queue,
  answer, get_verifiable_encryption,
}
use pda_proxy.Service.Runner.Invariant.{IsPending, IsFinal, Holds}
use pda_proxy.Service.Runner.Invariant.Laws.{TreeInvariant, Intact, IsLast, HasLast}
use pda_proxy.Service.Runner.Invariant.Methods.{
  KeepsIntact, send_message-Intact, send_job_with_new_status-Intact,
}

module _ (P : Platform) where
  -- A job starts in a pending status, or is refused with the state as it was.
  pub initial_status-cases :
      (t : String) (r : Runner P)
      → ((s : JobStatus P.Proof) × IsPending s × (initial_status P t r ≡ (done s, r)))
        ⊎ ((e : PdaRunnerError) × (initial_status P t r ≡ (fail e, r)))
  unfolding initial_status ◌>>=◌
  initial_status-cases t r = elim (Bool-cases (str_eq t "network")) [
    | inl yes_network ↦ inl (remote_zk_proof_requesting, tt, rw yes_network)
    | inr not_network ↦ elim (Bool-cases (is_local_prover t)) [
      | inl local ↦ inl (local_zk_proof_pending, tt, rw (not_network, local))
      | inr strange ↦
          inr (internal_error ("SP1_PROVER is unkown: " <> t), rw (not_network, strange))
    ]
  ]

module _ (P : Platform) (D : IsDocumented P) (T : TreeInvariant P D) where
  finished_answered :
      (job : Job) (key : Bytes) (status : JobStatus P.Proof)
      → T.Allowed key
      → IsFinal status
      → KeepsIntact P D T (answer_finished P job key status)
  unfolding answer_finished
  finished_answered job key (zk_proof_finished proof) p q = search keeps_rules
  finished_answered job key (failed error permanent) p q = search keeps_rules
  finished_answered job key (failed error (retry_with status)) p q =
      search (keeps_rules, send_job_with_new_status-Intact) depth 12
  finished_answered job key local_zk_proof_pending p q = absurd q
  finished_answered job key remote_zk_proof_requesting p q = absurd q
  finished_answered job key (remote_zk_proof_pending id) p q = absurd q

  last_answered :
      (job : Job) (key : Bytes) (status : JobStatus P.Proof)
      → IsLast status
      → KeepsIntact P D T (answer_finished P job key status)
  unfolding answer_finished
  last_answered job key (zk_proof_finished proof) q = search keeps_rules
  last_answered job key (failed error permanent) q = search keeps_rules
  last_answered job key (failed error (retry_with status)) q = absurd q
  last_answered job key local_zk_proof_pending q = absurd q
  last_answered job key remote_zk_proof_requesting q = absurd q
  last_answered job key (remote_zk_proof_pending id) q = absurd q

  queued_answered :
      (key : Bytes) (status : JobStatus P.Proof) → KeepsIntact P D T (answer_queued P key status)
  unfolding answer_queued
  queued_answered key local_zk_proof_pending = search keeps_rules
  queued_answered key remote_zk_proof_requesting = search keeps_rules
  queued_answered key (remote_zk_proof_pending id) = search keeps_rules
  queued_answered key (zk_proof_finished proof) = search keeps_rules
  queued_answered key (failed error maybe_status) = search keeps_rules

  message_sent :
      (job : Job) → KeepsIntact P D T (send_message P (some job) >> pure {A = Option P.Proof} none)
  message_sent job = search (keeps_rules, send_message-Intact) depth 12

  enqueued :
      (job : Job) (key : Bytes) (status : JobStatus P.Proof) (r : Runner P)
      → T.Allowed key
      → IsPending status
      → Intact T r
      → T.Fresh r.finished_db key
      → Intact T (enqueue P job key status r).1
  unfolding enqueue ◌>>=◌
  enqueued job key status r p q h fresh = elim (Result-cases (P.serialize_status status)) [
    | inr (message, e) ↦ rw e h
    | inl (b, e) ↦ elim (Result-cases (P.insert_into r.queue_db key b)) [
      | inr (message, f) ↦ rw (e, f) h
      | inl (queue', f) ↦
          rw (e, f)
            ((message_sent job).at (record r { queue_db = queue' })
              (record {
                trees =
                    T.inserted r.queue_db r.finished_db queue' key b status h.trees p e q fresh f;
              }))
    ]
  ]

  -- A new job is put into the queue.
  pub start_job-Intact :
      (w : World P) (job : Job) (key : Bytes) (r : Runner P)
      → T.Allowed key
      → Intact T r
      → T.Fresh r.finished_db key
      → Intact T (start_job P w job key r).1
  unfolding start_job ◌>>=◌
  start_job-Intact w job key r p h fresh = elim (Option-cases (w.var "SP1_PROVER")) [
    | inl unset ↦ rw unset h
    | inr (t, set) ↦ elim (initial_status-cases P t r) [
      | inl (s, q, e) ↦ rw (set, e) (enqueued job key s r p q h fresh)
      | inr (message, e) ↦ rw (set, e) h
    ]
  ]

  queue_answered :
      (w : World P) (job : Job) (key : Bytes) (o : Option Bytes) (r : Runner P)
      → T.Allowed key
      → Intact T r
      → T.Fresh r.finished_db key
      → Intact T (answer_queue P w job key o r).1
  unfolding answer_queue ◌>>=◌
  queue_answered w job key none r p h fresh = start_job-Intact w job key r p h fresh
  queue_answered w job key (some b) r p h fresh = elim (Result-cases (P.deserialize_status b)) [
    | inl (s, e) ↦ rw e ((queued_answered key s).at r h)
    | inr (message, e) ↦ rw e h
  ]

  -- What a request that has read `o` in the finished tree goes by.
  abbrev pub GoesBy : Bytes → Option Bytes → Runner P → Type 0
  GoesBy key none r = T.Fresh r.finished_db key
  GoesBy key (some b) r = Holds P IsFinal b

  -- The rest of a request, after the finished tree was read.
  pub answer-Intact :
      (w : World P) (job : Job) (key : Bytes) (o : Option Bytes) (r : Runner P)
      → T.Allowed key
      → Intact T r
      → GoesBy key o r
      → Intact T (answer P w job key o r).1
  unfolding answer ◌>>=◌
  answer-Intact w job key (some b) r p h (s, e, q) = rw e ((finished_answered job key s p q).at r h)
  answer-Intact w job key none r p h fresh = elim (Result-cases (P.get r.queue_db key)) [
    | inl (o, e) ↦ rw e (queue_answered w job key o r p h fresh)
    | inr (message, e) ↦ rw e h
  ]

  just_read :
      (key : Bytes) (o : Option Bytes) (r : Runner P)
      → Intact T r
      → D.contents r.finished_db key ≡ o
      → GoesBy key o r
  just_read key none r h found = T.absent r.finished_db key found
  just_read key (some b) r h found = T.final r.queue_db r.finished_db key b h.trees found

  last_read :
      (w : World P) (job : Job) (key : Bytes) (o : Option Bytes) (r : Runner P)
      → D.contents r.finished_db key ≡ o
      → HasLast P D r.queue_db r.finished_db key
      → Intact T r
      → Intact T (answer P w job key o r).1
  unfolding answer ◌>>=◌
  last_read w job key o r found (b, status, unqueued, there, e, q) h =
      rw (sym found ∙ there, e) ((last_answered job key status q).at r h)

  -- A request, whatever it finds and whichever of its steps fails, keeps the property.
  pub get_verifiable_encryption-Intact :
      (w : World P) (job : Job) → KeepsIntact P D T (get_verifiable_encryption P w job)
  unfolding get_verifiable_encryption ◌>>=◌
  get_verifiable_encryption-Intact w job = record {
    at = λ r h. elim (Result-cases (P.serialize_anchor job.anchor)) [
      | inr (message, e) ↦ rw e h
      | inl (key, e) ↦ elim (Result-cases (P.get r.finished_db key)) [
        | inr (message, f) ↦ rw (e, f) h
        | inl (o, f) ↦
            let found = D.get-contents r.finished_db key o f in
            elim (T.guarded r.queue_db r.finished_db key h.trees) [
              | inl p ↦ rw (e, f) (answer-Intact w job key o r p h (just_read key o r h found))
              | inr last ↦ rw (e, f) (last_read w job key o r found last h)
            ]
      ]
    ];
  }
