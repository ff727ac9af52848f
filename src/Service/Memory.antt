-- ===== src/Service/Memory.antt =====
-- A platform in memory, on which the theorems about the service are run: trees are association
-- lists, the channel a list, nothing fails. Of the failed statuses it serializes those with the texts
-- `boom` and `doom`. The first state and the environment of the runs stand at the end.
use mathlib.Core.List.{map}
use text.Mathlib.TextEquality.{eq_iff}
use pda_proxy.Base.{
  ℕ, zero, suc, ◌≡◌, refl, sym, ap, ◌∙◌, Option, none, some, String, List, [], ◌∷◌, ◌++◌, inl, inr,
  arith, Bytes, Result, ok, err, ◌==ᵇ◌, bytes_eq_iff, str_eq, if◌then◌else◌, Bool-cases,
  ok-injective, replicate, length,
}
use pda_proxy.Zkvm.Primitives.{Primitives, xor_stream}
use pda_proxy.Zkvm.Hex.{bytes_to_hex}
use pda_proxy.Service.Job.{
  Job, JobStatus, permanent, retry_with, zk_client_error, local_zk_proof_pending,
  remote_zk_proof_requesting, remote_zk_proof_pending, zk_proof_finished, failed,
}
use pda_proxy.Service.Platform.{
  Platform, IsDocumented, Side, Write, queue_tx, finished_tx, remove, insert, effect, replay,
  is_side, World, ProverError,
}
use pda_proxy.Service.Runner.State.{Runner}

abbrev Dict : Type 0
Dict = List (Bytes × Bytes)

abbrev lookup : Dict → Bytes → Option Bytes
lookup [] k = none
lookup ((j, v) ∷ d) k = if k ==ᵇ j then some v else lookup d k

abbrev erase : Dict → Bytes → Dict
erase [] k = []
erase ((j, v) ∷ d) k = let rest = erase d k in if j ==ᵇ k then rest else (j, v) ∷ rest

lookup-erase :
    (d : Dict) (k j : Bytes) → lookup (erase d k) j ≡ (if j ==ᵇ k then none else lookup d j)
lookup-erase [] k j = ground arith
lookup-erase ((i, v) ∷ d) k j =
    ground (arith, lookup-erase d k j, bytes_eq_iff i k, bytes_eq_iff j k, bytes_eq_iff j i)

abbrev write : Side → Dict → Write → Dict
write side d (remove to k) = if is_side side to then erase d k else d
write side d (insert to k v) = if is_side side to then (k, v) ∷ d else d

abbrev writes : Side → Dict → List Write → Dict
writes side d [] = d
writes side d (x ∷ xs) = writes side (write side d x) xs

lookup-write :
    (side : Side) (d : Dict) (x : Write) (j : Bytes)
    → lookup (write side d x) j ≡ effect side j (lookup d j) x
lookup-write queue_tx d (remove queue_tx k) j = lookup-erase d k j
lookup-write queue_tx d (remove finished_tx k) j = refl
lookup-write finished_tx d (remove queue_tx k) j = refl
lookup-write finished_tx d (remove finished_tx k) j = lookup-erase d k j
lookup-write queue_tx d (insert queue_tx k v) j = refl
lookup-write queue_tx d (insert finished_tx k v) j = refl
lookup-write finished_tx d (insert queue_tx k v) j = refl
lookup-write finished_tx d (insert finished_tx k v) j = refl

pub lookup-writes :
    (side : Side) (d : Dict) (xs : List Write) (j : Bytes)
    → lookup (writes side d xs) j ≡ replay side j (lookup d j) xs
lookup-writes side d [] j = refl
lookup-writes side d (x ∷ xs) j =
    lookup-writes side (write side d x) xs j ∙ rw (lookup-write side d x j)

-- The texts of errors that are serialized: what a job of the tests fails with.
abbrev pub boom : String
boom =
    "ZKP network: timed out occurred for Job { anchor: Anchor { data (hex): \"09\" }, input: [7] } - callback to start the job over"

abbrev doom : String
doom =
    "ZKP program critical failure: timed out occurred for Job { anchor: Anchor { data (hex): \"09\" }, input: [7] } PLEASE REPORT!"

abbrev encode : JobStatus Bytes → Result String Bytes
encode local_zk_proof_pending = ok (0 ∷ [])
encode remote_zk_proof_requesting = ok (1 ∷ [])
encode (remote_zk_proof_pending id) = ok (2 ∷ id)
encode (zk_proof_finished proof) = ok (3 ∷ proof)
encode (failed (zk_client_error s) (retry_with remote_zk_proof_requesting)) =
    if str_eq s boom then ok (4 ∷ []) else err "text"
encode (failed (zk_client_error s) permanent) = if str_eq s doom then ok (5 ∷ []) else err "text"
encode (failed _ _) = err "status"

abbrev decode : Bytes → Result String (JobStatus Bytes)
decode [] = err "empty"
decode (zero ∷ rest) = ok local_zk_proof_pending
decode (suc zero ∷ rest) = ok remote_zk_proof_requesting
decode (suc (suc zero) ∷ id) = ok (remote_zk_proof_pending id)
decode (suc (suc (suc zero)) ∷ proof) = ok (zk_proof_finished proof)
decode (suc (suc (suc (suc zero))) ∷ rest) =
    ok (failed (zk_client_error boom) (retry_with remote_zk_proof_requesting))
decode (suc (suc (suc (suc (suc n)))) ∷ rest) = ok (failed (zk_client_error doom) permanent)

pub decode-encode : (s : JobStatus Bytes) (b : Bytes) → encode s ≡ ok b → decode b ≡ ok s
decode-encode local_zk_proof_pending b h = rw (← ok-injective h)
decode-encode remote_zk_proof_requesting b h = rw (← ok-injective h)
decode-encode (remote_zk_proof_pending id) b h = rw (← ok-injective h)
decode-encode (zk_proof_finished proof) b h = rw (← ok-injective h)
decode-encode (failed (zk_client_error s) (retry_with remote_zk_proof_requesting)) b h =
    elim (Bool-cases (str_eq s boom)) [
      | inl same ↦ rw (← ok-injective (rw same at h), (eq_iff s boom).0 same)
      | inr differ ↦ cc (rw differ at h)
    ]
decode-encode (failed (zk_client_error s) permanent) b h = elim (Bool-cases (str_eq s doom)) [
  | inl same ↦ rw (← ok-injective (rw same at h), (eq_iff s doom).0 same)
  | inr differ ↦ cc (rw differ at h)
]
decode-encode (failed _ _) b h = cc

abbrev received : List (Option Job) → Option (Option Job × List (Option Job))
received [] = none
received (m ∷ ms) = some (m, ms)

pub messages-received :
    (c : List (Option Job)) (m : Option Job) (c' : List (Option Job))
    → received c ≡ some (m, c')
    → c ≡ m ∷ c'
messages-received [] m c' h = cc
messages-received (n ∷ c) m c' h = cc

pub received-none : (c : List (Option Job)) → received c ≡ none → c ≡ []
received-none [] h = refl
received-none (m ∷ c) h = cc

abbrev pub toy_primitives : Primitives
toy_primitives = record {
  apply_keystream = λ key nonce buffer. xor_stream (λ i. 85) 0 buffer;
  sha256 = λ m. replicate 32 (length m);
}

-- The channel is the list of what was sent.
abbrev pub memory : Platform
memory = record {
  Proof = Bytes;
  Pk = ℕ;
  Vk = ℕ;
  Strategy = String;
  LocalClient = ℕ;
  RemoteClient = ℕ;
  Tree = Dict;
  Channel = List (Option Job);
  serialize_anchor = λ a. ok a.data_bytes;
  deserialize_job = λ b. err "unexpected end of file";
  serialize_status = encode;
  deserialize_status = decode;
  serialize_setup = λ s. ok (s.pk ∷ s.vk ∷ []);
  deserialize_setup = λ b. err "setup";
  get = λ t k. ok (lookup t k);
  insert_into = λ t k v. ok ((k, v) ∷ t);
  transaction = λ (q, f) xs. ok (writes queue_tx q xs, writes finished_tx f xs);
  iter = λ t. map ok t;
  flush = λ t. ok tt;
  send = λ c m. ok (c ++ (m ∷ []));
  recv = received;
  hex_encode = bytes_to_hex;
  from_hex = λ n s. some (replicate n 1);
  input_debug = λ i. "[7]";
  display_network_error = λ e. "timed out";
  from_str_name = λ s. some s;
  local_client_from_env = ok 1;
  remote_client_build = ok 2;
  public_values = λ p. p;
  chacha_elf = 127 ∷ [];
  primitives = toy_primitives;
}

abbrev pub memory-IsDocumented : IsDocumented memory
memory-IsDocumented = record {
  contents = lookup;
  messages = λ c. c;
  get-contents = λ t k o h. ok-injective h;
  contents-insert = λ t k v t' j h. rw (← ok-injective h);
  contents-transaction = λ q f xs q' f' j h.
      let e = ok-injective h in
      (
        ap (λ t. lookup t.0 j) (sym e) ∙ lookup-writes queue_tx q xs j,
        ap (λ t. lookup t.1 j) (sym e) ∙ lookup-writes finished_tx f xs j,
      );
  messages-send = λ c m c' h. sym (ok-injective h);
  messages-recv = messages-received;
  recv-none = received-none;
  deserialize-serialize = decode-encode;
}

abbrev pub world : Result ProverError Bytes → World memory
world reply = record {
  var = λ s. if str_eq s "SP1_PROVER" then some "cpu" else some "HOSTED";
  try_fill_bytes = λ n. ok (replicate n 9);
  setup_local = λ client elf. ok (client, 8);
  setup_remote = λ client elf. ok (client, 8);
  run_local = λ client pk stdin. reply;
  request_async = λ client pk stdin strategy timeout. reply;
  wait_proof = λ client id. reply;
}

abbrev pub empty : Runner memory
empty = record {
  zk_proof_gen_timeout_remote = 600;
  config_db = [];
  queue_db = [];
  finished_db = [];
  job_sender = [];
  zk_client_handle_local = none;
  zk_client_handle_remote = none;
  chacha_setup = none;
}
