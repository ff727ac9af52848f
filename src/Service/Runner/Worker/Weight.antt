-- ===== src/Service/Runner/Worker/Weight.antt =====
-- How many tasks the messages in the channel may take.
use pda_proxy.Base.{
  ℕ, ◌+◌, ◌*◌, ◌≤◌, ◌≡◌, Option, none, some, String, List, [], ◌∷◌, ◌++◌, arith, length, Bytes,
  Result, ok, err,
}
use pda_proxy.Service.Job.{
  Job, JobStatus, local_zk_proof_pending, remote_zk_proof_requesting, remote_zk_proof_pending,
  zk_proof_finished, failed,
}
use pda_proxy.Service.Platform.{Platform, IsDocumented}

module _ (P : Platform) (D : IsDocumented P) where
  -- How many tasks a job in a status may take: the request to the network takes another.
  abbrev pub decoded_weight : Result String (JobStatus P.Proof) → ℕ
  decoded_weight (ok remote_zk_proof_requesting) = 2
  decoded_weight (ok local_zk_proof_pending) = 1
  decoded_weight (ok (remote_zk_proof_pending id)) = 1
  decoded_weight (ok (zk_proof_finished proof)) = 1
  decoded_weight (ok (failed error maybe_status)) = 1
  decoded_weight (err e) = 1

  abbrev pub status_weight : Option Bytes → ℕ
  status_weight none = 1
  status_weight (some b) = decoded_weight (P.deserialize_status b)

  abbrev pub key_weight : P.Tree → Result String Bytes → ℕ
  key_weight queue (ok key) = status_weight (D.contents queue key)
  key_weight queue (err e) = 1

  abbrev pub message_weight : P.Tree → Option Job → ℕ
  message_weight queue none = 1
  message_weight queue (some job) = key_weight queue (P.serialize_anchor job.anchor)

  abbrev pub weight : P.Tree → List (Option Job) → ℕ
  weight queue [] = 0
  weight queue (m ∷ ms) = message_weight queue m + weight queue ms

  decoded_weight_bounds :
      (s : Result String (JobStatus P.Proof)) → (1 ≤ decoded_weight s) × (decoded_weight s ≤ 2)
  decoded_weight_bounds (ok remote_zk_proof_requesting) = omega arith
  decoded_weight_bounds (ok local_zk_proof_pending) = omega arith
  decoded_weight_bounds (ok (remote_zk_proof_pending id)) = omega arith
  decoded_weight_bounds (ok (zk_proof_finished proof)) = omega arith
  decoded_weight_bounds (ok (failed error maybe_status)) = omega arith
  decoded_weight_bounds (err e) = omega arith

  pub status_weight_bounds : (o : Option Bytes) → (1 ≤ status_weight o) × (status_weight o ≤ 2)
  status_weight_bounds none = omega arith
  status_weight_bounds (some b) = decoded_weight_bounds (P.deserialize_status b)

  key_weight_bounds :
      (queue : P.Tree) (k : Result String Bytes)
      → (1 ≤ key_weight queue k) × (key_weight queue k ≤ 2)
  key_weight_bounds queue (ok key) = status_weight_bounds (D.contents queue key)
  key_weight_bounds queue (err e) = omega arith

  pub message_weight_bounds :
      (queue : P.Tree) (m : Option Job)
      → (1 ≤ message_weight queue m) × (message_weight queue m ≤ 2)
  message_weight_bounds queue none = omega arith
  message_weight_bounds queue (some job) = key_weight_bounds queue (P.serialize_anchor job.anchor)

  pub weight-le-length : (queue : P.Tree) (ms : List (Option Job)) → weight queue ms ≤ 2 * length ms
  weight-le-length queue [] = omega arith
  weight-le-length queue (m ∷ ms) =
      omega (arith, message_weight_bounds queue m, weight-le-length queue ms)

  pub weight-append :
      (queue : P.Tree) (ms ns : List (Option Job))
      → weight queue (ms ++ ns) ≡ weight queue ms + weight queue ns
  weight-append queue [] ns = omega arith
  weight-append queue (m ∷ ms) ns = omega (arith, weight-append queue ms ns)

  -- No job has become heavier.
  abbrev pub Lightens : P.Tree → P.Tree → Type 0
  Lightens queue queue' =
      (key : Bytes) → status_weight (D.contents queue' key) ≤ status_weight (D.contents queue key)

  key_weight-le :
      (queue queue' : P.Tree) (k : Result String Bytes)
      → Lightens queue queue'
      → key_weight queue' k ≤ key_weight queue k
  key_weight-le queue queue' (ok key) h = h key
  key_weight-le queue queue' (err e) h = omega arith

  message_weight-le :
      (queue queue' : P.Tree) (m : Option Job)
      → Lightens queue queue'
      → message_weight queue' m ≤ message_weight queue m
  message_weight-le queue queue' none h = omega arith
  message_weight-le queue queue' (some job) h =
      key_weight-le queue queue' (P.serialize_anchor job.anchor) h

  pub weight-le :
      (queue queue' : P.Tree) (ms : List (Option Job))
      → Lightens queue queue'
      → weight queue' ms ≤ weight queue ms
  weight-le queue queue' [] h = omega arith
  weight-le queue queue' (m ∷ ms) h =
      omega (arith, message_weight-le queue queue' m h, weight-le queue queue' ms h)
