-- ===== src/Service/Runner/Registry.antt =====
-- The runner as its clients may think of it: each job is in one phase, and a request or a run of the
-- worker moves it to the next. Request and Work compare the methods with this, for a database and a
-- channel that work; Completion and Remote follow a job from its first request to the answer.
pub mod Completion
pub mod Moves
pub mod Remote
pub mod Request
pub mod Work
use pda_proxy.Base.{
  ◌≡◌, ◌⊎◌, Option, none, some, String, ◌<>◌, List, [], ◌∷◌, ◌++◌, Bool, true, false, Bytes, Result,
  ok, err, ◌==ᵇ◌, bytes_eq_iff, Bool-cases, inl, inr, if◌then◌else◌,
}
use pda_proxy.Service.Job.{
  PdaRunnerError, internal_error, error_debug, Job, JobStatus, permanent, retry_with,
  local_zk_proof_pending, remote_zk_proof_requesting, remote_zk_proof_pending, zk_proof_finished,
  failed,
}
use pda_proxy.Service.Action.{Outcome, done, fail}
use pda_proxy.Service.Platform.{Platform, World, IsDocumented, Write, ProverError, network, unknown}
use pda_proxy.Service.Runner.State.{Runner}
use pda_proxy.Service.Runner.Proving.{classify}
use pda_proxy.Service.Runner.Invariant.{IsPending, IsFinal}

pub data Phase (Proof : Type 0) : Type 0 where
  absent : Phase Proof
  queued settled : JobStatus Proof → Phase Proof

-- What a request or a run of the worker does to its job: the next phase, and whether the job is sent
-- to the worker.
abbrev pub Effect : Type 0 → Type 0
Effect Proof = Phase Proof × Bool

-- A request in a phase, where `initial` is the status that new jobs start in: its outcome and effect.
abbrev pub request :
    {Proof : Type 0}
    → JobStatus Proof
    → Phase Proof
    → Outcome PdaRunnerError (Option Proof) × Effect Proof
request initial absent = (done none, (queued initial, true))
request initial (queued status) = (done none, (queued status, false))
request initial (settled (zk_proof_finished proof)) =
    (done (some proof), (settled (zk_proof_finished proof), false))
request initial (settled (failed error permanent)) =
    (fail (internal_error (error_debug error)), (settled (failed error permanent), false))
request initial (settled (failed error (retry_with status))) = (
  fail (internal_error ("Retrying! Previous error: " <> error_debug error)),
  (queued status, true),
)
request initial (settled status) = (done none, (settled status, false))

-- A proof settles its job; a request that the network accepted is waited for, by another run.
abbrev pub with_proof : {Proof : Type 0} → Proof → Effect Proof
with_proof proof = (settled (zk_proof_finished proof), false)

abbrev pub with_request : {Proof : Type 0} → Bytes → Effect Proof
with_request id = (queued (remote_zk_proof_pending id), true)

-- What the reply of the prover does to the job that it is for.
abbrev pub replied :
    {A : Type 0}
    → (P : Platform) → Job
    → JobStatus P.Proof
    → (A → Effect P.Proof)
    → Result ProverError A
    → Effect P.Proof
replied P job status next (ok a) = next a
replied P job status next (err (network e)) = (settled (classify P e job).1, false)
replied P job status next (err (unknown text)) = (queued status, false)

module _ (P : Platform) (D : IsDocumented P) where
  abbrev pub At : Runner P → Bytes → Phase P.Proof → Type 0
  At r key absent = (D.contents r.queue_db key ≡ none) × (D.contents r.finished_db key ≡ none)
  At r key (queued status) =
      (b : Bytes) × (D.contents r.queue_db key ≡ some b)
      × (P.deserialize_status b ≡ ok status)
      × IsPending status
      × (D.contents r.finished_db key ≡ none)
  At r key (settled status) =
      (b : Bytes) × (D.contents r.finished_db key ≡ some b)
      × (P.deserialize_status b ≡ ok status)
      × IsFinal status
      × (D.contents r.queue_db key ≡ none)

  -- The database and the channel do not fail.
  pub record IsReliable : Type 0 where
    pub reads : (t : P.Tree) (k : Bytes) → P.get t k ≡ ok (D.contents t k)
    pub stores : (t : P.Tree) (k v : Bytes) → (t' : P.Tree) × (P.insert_into t k v ≡ ok t')
    pub commits :
        (q f : P.Tree) (writes : List Write)
        → (q' : P.Tree) × (f' : P.Tree) × (P.transaction (q, f) writes ≡ ok (q', f'))
    pub sends : (c : P.Channel) (m : Option Job) → (c' : P.Channel) × (P.send c m ≡ ok c')

  -- The status of a phase can be written.
  abbrev pub IsWritable : Phase P.Proof → Type 0
  IsWritable absent = Unit
  IsWritable (queued status) = (b : Bytes) × (P.serialize_status status ≡ ok b)
  IsWritable (settled status) = (b : Bytes) × (P.serialize_status status ≡ ok b)

  -- The messages in the channel after one to the worker was sent, or was not.
  abbrev pub with_sent : Job → Bool → List (Option Job) → List (Option Job)
  with_sent job true messages = messages ++ (some job ∷ [])
  with_sent job false messages = messages

  -- From `r` to `t`, `key`'s job has the effect, no other job is touched, and nothing else of the
  -- runner is.
  abbrev pub Moves : Job → Bytes → Effect P.Proof → Runner P → Runner P → Type 0
  Moves job key (phase, sent) r t =
      At t key phase
      × (D.messages t.job_sender ≡ with_sent job sent (D.messages r.job_sender))
      × ((k : Bytes)
          → (k ≡ key)
            ⊎ ((D.contents t.queue_db k ≡ D.contents r.queue_db k)
                × (D.contents t.finished_db k ≡ D.contents r.finished_db k)))
      × (t ≡ record r {
        queue_db = t.queue_db;
        finished_db = t.finished_db;
        job_sender = t.job_sender;
      })

-- A statement about every key but one.
pub but_for : {Q : Type 0} (key k : Bytes) → ((k ==ᵇ key) ≡ false → Q) → (k ≡ key) ⊎ Q
but_for key k q = elim (Bool-cases (k ==ᵇ key)) [
  | inl same ↦ inl ((bytes_eq_iff k key).0 same)
  | inr differ ↦ inr (q differ)
]
