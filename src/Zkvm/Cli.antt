-- ===== src/Zkvm/Cli.antt =====
-- The command line tool, zkVM/sp1/src/bin/cli.rs. What it prints is left out, but for the lines
-- that follow the three assertions.
use pda_proxy.Base.{
  ℕ, ◌≡◌, Bool, true, false, String, Option, some, List, [], ◌∷◌, Bytes, length, Result, ok, err,
  ok_or, map_err, ◌>>=◌, ◌==ᵇ◌, Result-cases, inl, inr, bytes_eq_refl, if◌then◌else◌,
}
use pda_proxy.Zkvm.Primitives.{Primitives, IsDocumented, key_len, nonce_len, chacha, chacha-chacha}
use pda_proxy.Zkvm.Output.{from_bytes}
use pda_proxy.Zkvm.Program.{main, from_bytes-main}

-- `Args`; `n` is never read.
pub record Args : Type 0 where
  pub execute : Bool
  pub prove : Bool
  pub n : ℕ

-- What the tool gets from outside: the environment, the crates `hex` and `rand`, the example input
-- and the client of the SDK, over the slices that were written to its `stdin`. `Rng`'s reply is the
-- filled buffer.
pub record World (Proof : Type 0) : Type 0 where
  pub encryption_key : Option String
  pub from_hex : ℕ → String → Option Bytes
  pub try_fill_bytes : ℕ → Result String Bytes
  pub input_bytes : Bytes
  pub client_execute : List Bytes → Result String Bytes
  pub client_prove : List Bytes → Result String Proof
  pub client_verify : Proof → Result String (Unit {0})

-- `exited n` is `process::exit`, and `err` below is a panic.
pub data Ending : Type 0 where
  exited : ℕ → Ending
  finished : List String → Ending

-- `random_nonce` of zkVM/common/src/lib.rs
unfoldable pub random_nonce : (ℕ → Result String Bytes) → Result String Bytes
random_nonce try_fill_bytes = map_err (try_fill_bytes nonce_len) (λ _. "Rng->buffer")

abbrev assert_eq : Bytes → Bytes → Result String (Unit {0})
assert_eq a b = if a ==ᵇ b then ok tt else err "assertion `left == right` failed"

infixl 5 ◌>>◌
abbrev ◌>>◌ : {A : Type 0} → Result String (Unit {0}) → Result String A → Result String A
m >> k = m >>= λ _. k

-- The branch under `--execute`.
execute_branch :
    {Proof : Type 0} → Primitives → World Proof → Bytes → Bytes → List Bytes → Result String Ending
execute_branch p w input_key input_nonce stdin = do
  output_buffer ← w.client_execute stdin
  output ← map_err (from_bytes output_buffer) (λ _. "Failed to parse header")
  assert_eq input_nonce output.nonce
  let output_plaintext = chacha p input_key output.nonce output.ciphertext
  assert_eq output_plaintext w.input_bytes
  let input_key_hash = p.sha256 input_key
  assert_eq input_key_hash output.privkey_hash
  ok (finished ("Decryption of zkVM ciphertext matches input!" ∷ "Key used matched!" ∷ []))

-- The branch under `--prove`.
prove_branch : {Proof : Type 0} → World Proof → List Bytes → Result String Ending
prove_branch w stdin = do
  proof ← map_err (w.client_prove stdin) (λ _. "failed to generate proof")
  map_err (w.client_verify proof) (λ _. "failed to verify proof")
  ok (finished ("Successfully generated proof!" ∷ "Successfully verified proof!" ∷ []))

-- Both flags or none.
abbrev same_flags : Bool → Bool → Bool
same_flags true b = b
same_flags false true = false
same_flags false false = true

unfoldable pub cli_main : {Proof : Type 0} → Primitives → World Proof → Args → Result String Ending
unfolding execute_branch prove_branch
cli_main p w args = if same_flags args.execute args.prove then ok (exited 1) else do
  key_text ← ok_or w.encryption_key "Missing ENCRYPTION_KEY env var"
  input_key ←
      ok_or (w.from_hex key_len key_text)
        "ENCRYPTION_KEY must be 32 bytes, hex encoded (ex: `1234...abcd`)"
  input_nonce ← random_nonce w.try_fill_bytes
  let stdin = input_key ∷ input_nonce ∷ w.input_bytes ∷ []
  if args.execute then execute_branch p w input_key input_nonce stdin else prove_branch w stdin

-- What the crates document: `from_hex` and the generator give as many bytes as were asked for, and
-- execution runs the guest on the slices of `stdin`.
pub record IsFaithful {Proof : Type 0} (p : Primitives) (w : World Proof) : Type 0 where
  pub from_hex-length : (n : ℕ) (s : String) (k : Bytes) → w.from_hex n s ≡ some k → length k ≡ n
  pub fill-length : (n : ℕ) (v : Bytes) → w.try_fill_bytes n ≡ ok v → length v ≡ n
  pub executes-main :
      (key nonce buffer : Bytes)
      → w.client_execute (key ∷ nonce ∷ buffer ∷ []) ≡ main p key nonce buffer

execute_branch-attested :
    {Proof : Type 0} (p : Primitives) (d : IsDocumented p) (w : World Proof) (f : IsFaithful p w)
    (key nonce : Bytes)
    → length key ≡ key_len
    → length nonce ≡ nonce_len
    → execute_branch p w key nonce (key ∷ nonce ∷ w.input_bytes ∷ [])
      ≡ ok (finished ("Decryption of zkVM ciphertext matches input!" ∷ "Key used matched!" ∷ []))
unfolding execute_branch
execute_branch-attested p d w f key nonce hk hn =
    elim (Result-cases (main p key nonce w.input_bytes)) [
      | inr (e, ran) ↦ cc (rw ran at (from_bytes-main p d key nonce w.input_bytes hk hn))
      | inl (journal, ran) ↦ rw (
        f.executes-main key nonce w.input_bytes,
        ran,
        rw ran at (from_bytes-main p d key nonce w.input_bytes hk hn),
        bytes_eq_refl nonce,
        chacha-chacha p d key nonce w.input_bytes,
        bytes_eq_refl w.input_bytes,
        bytes_eq_refl (p.sha256 key),
      )
    ]

-- With a well-formed key and a working generator, `--execute` alone passes all three assertions.
pub cli_main-execute :
    {Proof : Type 0} (p : Primitives) (d : IsDocumented p) (w : World Proof) (f : IsFaithful p w)
    (n : ℕ) {text : String} {key nonce : Bytes}
    → w.encryption_key ≡ some text
    → w.from_hex key_len text ≡ some key
    → w.try_fill_bytes nonce_len ≡ ok nonce
    → cli_main p w (record { execute = true; prove = false; n = n })
      ≡ ok (finished ("Decryption of zkVM ciphertext matches input!" ∷ "Key used matched!" ∷ []))
unfolding cli_main random_nonce
cli_main-execute p d w f n {text} {key} {nonce} et ek en =
    rw (et, ek, en)
      (execute_branch-attested p d w f key nonce (f.from_hex-length key_len text key ek)
        (f.fill-length nonce_len nonce en))
