-- ===== src/Service/Runner/Invariant/Laws.antt =====
-- A property of the two job trees, with the writes that it survives: what the lemmas about the
-- methods go by, for each property of its own.
use pda_proxy.Base.{◌≡◌, ◌⊎◌, none, some, [], ◌∷◌, Bytes, ok}
use pda_proxy.Service.Job.{
  JobStatus, permanent, retry_with, local_zk_proof_pending, remote_zk_proof_requesting,
  remote_zk_proof_pending, zk_proof_finished, failed,
}
use pda_proxy.Service.Platform.{Platform, IsDocumented, queue_tx, finished_tx, remove, insert}
use pda_proxy.Service.Runner.State.{Runner}
use pda_proxy.Service.Runner.Invariant.{IsPending, IsFinal, Holds}

-- A proof, or a failure that is not retried.
abbrev pub IsLast : {Proof : Type 0} → JobStatus Proof → Type 0
IsLast (zk_proof_finished proof) = Unit
IsLast (failed error permanent) = Unit
IsLast (failed error (retry_with status)) = ⊥
IsLast local_zk_proof_pending = ⊥
IsLast remote_zk_proof_requesting = ⊥
IsLast (remote_zk_proof_pending request_id) = ⊥

-- The job is finished for good.
abbrev pub HasLast : (P : Platform) → IsDocumented P → P.Tree → P.Tree → Bytes → Type 0
HasLast P D queue finished key =
    (b : Bytes) × (status : JobStatus P.Proof) × (D.contents queue key ≡ none)
    × (D.contents finished key ≡ some b)
    × (P.deserialize_status b ≡ ok status)
    × IsLast status

pub record TreeInvariant (P : Platform) (D : IsDocumented P) : Type 1 where
  pub Good : P.Tree → P.Tree → Type 0
  -- the keys that may be written, and where a key may be new to the queue
  pub Allowed : Bytes → Type 0
  pub Fresh : P.Tree → Bytes → Type 0
  pub absent :
      (finished : P.Tree) (key : Bytes) → D.contents finished key ≡ none → Fresh finished key
  pub final :
      (queue finished : P.Tree) (key b : Bytes)
      → Good queue finished
      → D.contents finished key ≡ some b
      → Holds P IsFinal b
  -- a key that may not be written is that of a job that is finished for good
  pub guarded :
      (queue finished : P.Tree) (key : Bytes)
      → Good queue finished
      → Allowed key ⊎ HasLast P D queue finished key
  pub finalized :
      (queue finished queue' finished' : P.Tree) (key b : Bytes) (status : JobStatus P.Proof)
      → Good queue finished
      → Allowed key
      → P.serialize_status status ≡ ok b
      → IsFinal status
      → P.transaction (queue, finished) (remove queue_tx key ∷ insert finished_tx key b ∷ [])
        ≡ ok (queue', finished')
      → Good queue' finished'
  pub requeued :
      (queue finished queue' finished' : P.Tree) (key b : Bytes) (status : JobStatus P.Proof)
      → Good queue finished
      → Allowed key
      → P.serialize_status status ≡ ok b
      → IsPending status
      → P.transaction (queue, finished) (remove finished_tx key ∷ insert queue_tx key b ∷ [])
        ≡ ok (queue', finished')
      → Good queue' finished'
  pub inserted :
      (queue finished queue' : P.Tree) (key b : Bytes) (status : JobStatus P.Proof)
      → Good queue finished
      → Allowed key
      → P.serialize_status status ≡ ok b
      → IsPending status
      → Fresh finished key
      → P.insert_into queue key b ≡ ok queue'
      → Good queue' finished

-- A runner whose trees have the property.
pub record Intact {P : Platform} {D : IsDocumented P} (T : TreeInvariant P D) (r : Runner P)
    : Type 0 where
  pub trees : T.Good r.queue_db r.finished_db
