-- ===== src/Service/Platform.antt =====
-- What the service takes from outside: the crates bincode, sled, tokio, hex and sp1_sdk, the prover
-- and the environment. `IsDocumented` states what the crates document.
use pda_proxy.Base.{
  ℕ, ◌≡◌, Bool, true, false, ◌&&◌, Option, none, some, String, List, [], ◌∷◌, ◌++◌, Bytes, Result,
  ok, ◌==ᵇ◌, if◌then◌else◌,
}
use pda_proxy.Zkvm.Primitives.{Primitives}
use pda_proxy.Service.Job.{Input, Anchor, Job, JobStatus}

-- A transaction over the trees `queue_db` and `finished_db` is the list of its writes.
pub data Side : Type 0 where
  queue_tx finished_tx : Side

pub data Write : Type 0 where
  remove : Side → Bytes → Write
  insert : Side → Bytes → Bytes → Write

-- `sp1_sdk::network::Error`; the payloads are known by the text that they print.
pub data Sp1NetworkError : Type 0 where
  simulation_failed : Sp1NetworkError
  request_unexecutable request_unfulfillable request_timed_out : Bytes → Sp1NetworkError
  rpc_error other : String → Sp1NetworkError

-- An `anyhow::Error` of the prover: one that downcasts to a network error, or any other, as text.
pub data ProverError : Type 0 where
  network : Sp1NetworkError → ProverError
  unknown : String → ProverError

-- `SP1ProofSetup` of service/src/internal/util.rs
pub record Sp1ProofSetup (Pk Vk : Type 0) : Type 0 where
  pub pk : Pk
  pub vk : Vk

-- `impl From<(SP1ProvingKey, SP1VerifyingKey)> for SP1ProofSetup`
unfoldable pub setup_from : {Pk Vk : Type 0} → Pk × Vk → Sp1ProofSetup Pk Vk
setup_from (pk, vk) = record { pk = pk; vk = vk }

pub record Platform : Type 1 where
  pub Proof : Type 0
  pub Pk : Type 0
  pub Vk : Type 0
  pub Strategy : Type 0
  pub LocalClient : Type 0
  pub RemoteClient : Type 0
  pub Tree : Type 0
  pub Channel : Type 0
  -- bincode
  pub serialize_anchor : Anchor → Result String Bytes
  pub deserialize_job : Bytes → Result String Job
  pub serialize_status : JobStatus Proof → Result String Bytes
  pub deserialize_status : Bytes → Result String (JobStatus Proof)
  pub serialize_setup : Sp1ProofSetup Pk Vk → Result String Bytes
  pub deserialize_setup : Bytes → Result String (Sp1ProofSetup Pk Vk)
  -- sled
  pub get : Tree → Bytes → Result String (Option Bytes)
  pub insert_into : Tree → Bytes → Bytes → Result String Tree
  pub transaction : Tree × Tree → List Write → Result String (Tree × Tree)
  pub iter : Tree → List (Result String (Bytes × Bytes))
  pub flush : Tree → Result String (Unit {0})
  -- tokio's unbounded channel, both ends together; `none`: the receiver has to wait
  pub send : Channel → Option Job → Result String Channel
  pub recv : Channel → Option (Option Job × Channel)
  -- hex, the derived `Debug` of `Input`, sp1_sdk and the embedded guest program
  pub hex_encode : Bytes → String
  pub from_hex : ℕ → String → Option Bytes
  pub input_debug : Input → String
  pub display_network_error : Sp1NetworkError → String
  pub from_str_name : String → Option Strategy
  pub local_client_from_env : Result String LocalClient
  pub remote_client_build : Result String RemoteClient
  pub public_values : Proof → Bytes
  pub chacha_elf : Bytes
  pub primitives : Primitives

-- What the environment answers during one call: variables, random bytes and the prover's replies.
pub record World (P : Platform) : Type 0 where
  pub var : String → Option String
  pub try_fill_bytes : ℕ → Result String Bytes
  pub setup_local : P.LocalClient → Bytes → Result String (P.Pk × P.Vk)
  pub setup_remote : P.RemoteClient → Bytes → Result String (P.Pk × P.Vk)
  pub run_local : P.LocalClient → P.Pk → List Bytes → Result ProverError P.Proof
  pub request_async : P.RemoteClient → P.Pk → List Bytes → P.Strategy → ℕ → Result ProverError Bytes
  pub wait_proof : P.RemoteClient → Bytes → Result ProverError P.Proof

-- Whether a write is to `key` on the given side.
abbrev pub is_side : Side → Side → Bool
is_side queue_tx queue_tx = true
is_side finished_tx finished_tx = true
is_side _ _ = false

-- What a key of one tree holds after a write, from what it held before.
abbrev pub effect : Side → Bytes → Option Bytes → Write → Option Bytes
effect side key old (remove to k) = if is_side side to && (key ==ᵇ k) then none else old
effect side key old (insert to k v) = if is_side side to && (key ==ᵇ k) then some v else old

abbrev pub replay : Side → Bytes → Option Bytes → List Write → Option Bytes
replay side key old [] = old
replay side key old (write ∷ writes) = replay side key (effect side key old write) writes

-- The documented behaviour: a tree is a map, whose reads and writes may fail but do not lie; a
-- transaction commits all of its writes or none; a channel keeps what was sent in order until it is
-- received; what bincode wrote it reads back.
pub record IsDocumented (P : Platform) : Type 0 where
  pub contents : P.Tree → Bytes → Option Bytes
  pub messages : P.Channel → List (Option Job)
  pub get-contents :
      (t : P.Tree) (k : Bytes) (o : Option Bytes) → P.get t k ≡ ok o → contents t k ≡ o
  pub contents-insert :
      (t : P.Tree) (k v : Bytes) (t' : P.Tree) (j : Bytes)
      → P.insert_into t k v ≡ ok t'
      → contents t' j ≡ (if j ==ᵇ k then some v else contents t j)
  pub contents-transaction :
      (q f : P.Tree) (writes : List Write) (q' f' : P.Tree) (j : Bytes)
      → P.transaction (q, f) writes ≡ ok (q', f')
      → (contents q' j ≡ replay queue_tx j (contents q j) writes)
        × (contents f' j ≡ replay finished_tx j (contents f j) writes)
  pub messages-send :
      (c : P.Channel) (m : Option Job) (c' : P.Channel)
      → P.send c m ≡ ok c'
      → messages c' ≡ messages c ++ (m ∷ [])
  pub messages-recv :
      (c : P.Channel) (m : Option Job) (c' : P.Channel)
      → P.recv c ≡ some (m, c')
      → messages c ≡ m ∷ messages c'
  pub recv-none : (c : P.Channel) → P.recv c ≡ none → messages c ≡ []
  pub deserialize-serialize :
      (s : JobStatus P.Proof) (b : Bytes)
      → P.serialize_status s ≡ ok b
      → P.deserialize_status b ≡ ok s
