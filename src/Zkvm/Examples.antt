-- ===== src/Zkvm/Examples.antt =====
-- The theorems of this part at concrete inputs, over a cipher that xors every byte with 85 and a
-- digest that keeps the length alone.
use pda_proxy.Base.{
  ◌≡◌, refl, String, ◌↔◌, true, false, some, List, [], ◌∷◌, arith, Bytes, length, replicate,
  length-replicate, Result, ok, err, ◌>>=◌, ok-injective,
}
use mathlib.Core.Option.{some-injective}
use pda_proxy.Zkvm.Primitives.{Primitives, IsDocumented, xor_stream, chacha}
use pda_proxy.Zkvm.Hex.{bytes_to_hex}
use pda_proxy.Zkvm.Output.{
  ZkvmOutput, HasLengths, to_bytes, from_bytes, from_bytes-to_bytes, to_bytes-from_bytes,
}
use pda_proxy.Zkvm.Program.{main, attested, main_ok_iff, length-main, chacha-from_bytes-main}
use pda_proxy.Zkvm.Cli.{World, IsFaithful, finished, cli_main, cli_main-execute}

abbrev toy : Primitives
toy = record {
  apply_keystream = λ key nonce buffer. xor_stream (λ i. 85) 0 buffer;
  sha256 = λ m. replicate 32 (length m);
}

toy-IsDocumented : IsDocumented toy
toy-IsDocumented = record {
  keystream = λ key nonce i. 85;
  applies = λ key nonce buffer. refl;
  length-sha256 = λ m. length-replicate 32 (length m);
}

abbrev key : Bytes
key = replicate 32 7

abbrev nonce : Bytes
nonce = replicate 12 9

hex_text : bytes_to_hex (222 ∷ 10 ∷ []) ≡ "de0a"
unfolding bytes_to_hex
hex_text = refl

from_bytes-to_bytes_example :
    from_bytes (to_bytes (attested toy key nonce (1 ∷ 2 ∷ [])))
    ≡ ok (attested toy key nonce (1 ∷ 2 ∷ []))
unfolding chacha
from_bytes-to_bytes_example =
    from_bytes-to_bytes (attested toy key nonce (1 ∷ 2 ∷ [])) (omega arith)

too_short : from_bytes (replicate 75 0) ≡ err "Input too short for header"
unfolding from_bytes
too_short = refl

abbrev zeros : ZkvmOutput
zeros = record {
  privkey_hash = replicate 32 0;
  nonce = replicate 12 0;
  plaintext_hash = replicate 32 0;
  ciphertext = [];
}

to_bytes-from_bytes_example : HasLengths zeros × (to_bytes zeros ≡ replicate 76 0)
unfolding from_bytes
to_bytes-from_bytes_example = to_bytes-from_bytes (replicate 76 0) zeros refl

main_ok_iff_example :
    ((journal : Bytes) × (main toy key nonce (1 ∷ []) ≡ ok journal))
    ↔ ((length key ≡ 32) × (length nonce ≡ 12))
main_ok_iff_example = main_ok_iff toy key nonce (1 ∷ [])

abbrev committed : Bytes
committed = to_bytes (attested toy key nonce (1 ∷ []))

has_run : main toy key nonce (1 ∷ []) ≡ ok committed
unfolding main chacha
has_run = refl

length-main_example : length committed ≡ 77
unfolding chacha
length-main_example = length-main toy toy-IsDocumented key nonce (1 ∷ []) committed has_run

chacha-from_bytes-main_example :
    (do
      journal ← main toy key nonce (1 ∷ 255 ∷ [])
      o ← from_bytes journal
      ok (chacha toy key o.nonce o.ciphertext))
    ≡ ok (1 ∷ 255 ∷ [])
chacha-from_bytes-main_example =
    chacha-from_bytes-main toy toy-IsDocumented key nonce (1 ∷ 255 ∷ []) refl refl

abbrev run : List Bytes → Result String Bytes
run (k ∷ n ∷ buffer ∷ []) = main toy k n buffer
run stdin = err "stdin"

abbrev world : World Bytes
world = record {
  encryption_key = some "07";
  from_hex = λ n s. some (replicate n 7);
  try_fill_bytes = λ n. ok (replicate n 9);
  input_bytes = 104 ∷ 105 ∷ [];
  client_execute = run;
  client_prove = run;
  client_verify = λ proof. ok tt;
}

world-IsFaithful : IsFaithful toy world
world-IsFaithful = record {
  from_hex-length = λ n s k h. rw (← some-injective (replicate n 7) k h) (length-replicate n 7);
  fill-length = λ n v h. rw (← ok-injective h) (length-replicate n 9);
  executes-main = λ key nonce buffer. refl;
}

cli_main-execute_example :
    cli_main toy world (record { execute = true; prove = false; n = 20 })
    ≡ ok (finished ("Decryption of zkVM ciphertext matches input!" ∷ "Key used matched!" ∷ []))
cli_main-execute_example =
    cli_main-execute toy toy-IsDocumented world world-IsFaithful 20 {text = "07"} {key = key}
      {nonce = nonce} refl refl refl
