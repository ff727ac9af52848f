-- ===== src/Service/Runner/Invariant.antt =====
-- The properties of the two job trees. Valid: a queued job has a pending status, and a finished one
-- a proof or a failure that may be retried with a pending status. Consistent: moreover no job is in
-- both. The lemmas about the methods are for every property that `Laws` describes; `Instances` has
-- the properties of this kind.
pub mod Trees
pub mod Laws
pub mod Methods
pub mod Prove
pub mod Request
pub mod Instances
use pda_proxy.Base.{◌≡◌, Option, none, some, ◌⊎◌, Bytes, Result, ok, err}
use pda_proxy.Service.Job.{
  JobStatus, MaybeStatus, permanent, retry_with, local_zk_proof_pending, remote_zk_proof_requesting,
  remote_zk_proof_pending, zk_proof_finished, failed,
}
use pda_proxy.Service.Platform.{Platform, IsDocumented}

abbrev pub IsPending : {Proof : Type 0} → JobStatus Proof → Type 0
IsPending local_zk_proof_pending = Unit
IsPending remote_zk_proof_requesting = Unit
IsPending (remote_zk_proof_pending request_id) = Unit
IsPending (zk_proof_finished proof) = ⊥
IsPending (failed error maybe_status) = ⊥

abbrev IsRetryable : {Proof : Type 0} → MaybeStatus Proof → Type 0
IsRetryable permanent = Unit
IsRetryable (retry_with status) = IsPending status

abbrev pub IsFinal : {Proof : Type 0} → JobStatus Proof → Type 0
IsFinal (zk_proof_finished proof) = Unit
IsFinal (failed error maybe_status) = IsRetryable maybe_status
IsFinal local_zk_proof_pending = ⊥
IsFinal remote_zk_proof_requesting = ⊥
IsFinal (remote_zk_proof_pending request_id) = ⊥

-- The stored bytes decode to a status with the property.
abbrev pub Holds : (P : Platform) → (JobStatus P.Proof → Type 0) → Bytes → Type 0
Holds P Q b = (s : JobStatus P.Proof) × (P.deserialize_status b ≡ ok s) × Q s

-- Every status that is stored is of its tree's kind.
pub record AreValid (P : Platform) (D : IsDocumented P) (queue finished : P.Tree) : Type 0 where
  pub queued_pending : (k : Bytes) (b : Bytes) → D.contents queue k ≡ some b → Holds P IsPending b
  pub finished_final : (k : Bytes) (b : Bytes) → D.contents finished k ≡ some b → Holds P IsFinal b

pub record IsConsistent (P : Platform) (D : IsDocumented P) (queue finished : P.Tree) : Type 0 where
  pub exclusive : (k : Bytes) → (D.contents queue k ≡ none) ⊎ (D.contents finished k ≡ none)
  pub valid : AreValid P D queue finished
