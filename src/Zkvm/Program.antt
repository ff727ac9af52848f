-- ===== src/Zkvm/Program.antt =====
-- The guest program, zkVM/sp1/program-chacha/src/main.rs. Its arguments are what the three calls of
-- `read_vec` return; the result is what it has committed, and `err` is a panic, after which there
-- is no proof.
use pda_proxy.Base.{
  ℕ, ◌+◌, ◌≡◌, ap, sym, ◌∙◌, length-append, ok-injective, ◌↔◌, String, [], ◌++◌, arith, Bytes,
  length, Result, ok, err, ◌>>=◌, ◌==◌, ==_iff, if◌then◌else◌,
}
use mathlib.Core.List.{append_assoc}
use pda_proxy.Zkvm.Primitives.{
  Primitives, IsDocumented, key_len, nonce_len, header_len, chacha, chacha-chacha, length-chacha,
}
use pda_proxy.Zkvm.Output.{ZkvmOutput, HasLengths, to_bytes, from_bytes, from_bytes-to_bytes}

-- `v.try_into().expect(message)`, into an array of `n` bytes.
abbrev pub expect_array : ℕ → Bytes → String → Result String Bytes
expect_array n v message = if length v == n then ok v else err message

-- `commit_slice` appends to the public values.
abbrev commit_slice : Bytes → Bytes → Bytes
commit_slice journal bs = journal ++ bs

unfoldable pub main : Primitives → Bytes → Bytes → Bytes → Result String Bytes
main p key nonce_vec buffer = do
  let journal_key = commit_slice [] (p.sha256 key)
  nonce ← expect_array nonce_len nonce_vec "nonce=12B"
  let journal_nonce = commit_slice journal_key nonce
  let journal_hash = commit_slice journal_nonce (p.sha256 buffer)
  key_array ← expect_array key_len key "key=32B"
  let ciphertext = chacha p key_array nonce buffer
  ok (commit_slice journal_hash ciphertext)

-- What a proof of the program attests for given inputs.
abbrev pub attested : Primitives → Bytes → Bytes → Bytes → ZkvmOutput
attested p key nonce buffer = record {
  privkey_hash = p.sha256 key;
  nonce = nonce;
  plaintext_hash = p.sha256 buffer;
  ciphertext = chacha p key nonce buffer;
}

main-to_bytes :
    (p : Primitives) (key nonce buffer : Bytes)
    → length key ≡ key_len
    → length nonce ≡ nonce_len
    → main p key nonce buffer ≡ ok (to_bytes (attested p key nonce buffer))
unfolding main
main-to_bytes p key nonce buffer hk hn =
    rw ((==_iff (length nonce) nonce_len).1 hn, (==_iff (length key) key_len).1 hk)
      (ap ok (simp append_assoc))

-- The program commits its output exactly on a key of 32 and a nonce of 12 bytes; on any other
-- length it panics.
pub main_ok_iff :
    (p : Primitives) (key nonce buffer : Bytes)
    → ((journal : Bytes) × (main p key nonce buffer ≡ ok journal))
      ↔ ((length key ≡ key_len) × (length nonce ≡ nonce_len))
unfolding main
main_ok_iff p key nonce buffer = (
  λ (journal, h). ground arith,
  λ (hk, hn). (to_bytes (attested p key nonce buffer), main-to_bytes p key nonce buffer hk hn),
)

module _ (p : Primitives) (d : IsDocumented p) where
  attested-HasLengths :
      (key nonce buffer : Bytes)
      → length nonce ≡ nonce_len
      → HasLengths (attested p key nonce buffer)
  attested-HasLengths key nonce buffer hn = record {
    privkey_hash_len = d.length-sha256 key;
    nonce_len_ok = hn;
    plaintext_hash_len = d.length-sha256 buffer;
  }

  length-to_bytes :
      (key nonce buffer : Bytes)
      → length nonce ≡ nonce_len
      → length (to_bytes (attested p key nonce buffer)) ≡ header_len + length buffer
  length-to_bytes key nonce buffer hn =
      let o = attested p key nonce buffer in
      omega (
        arith,
        length-append o.privkey_hash (o.nonce ++ (o.plaintext_hash ++ o.ciphertext)),
        length-append o.nonce (o.plaintext_hash ++ o.ciphertext),
        length-append o.plaintext_hash o.ciphertext,
        d.length-sha256 key,
        d.length-sha256 buffer,
        length-chacha p d key nonce buffer,
      )

  -- Whenever the program commits its output, the public values are the header of fixed length and
  -- as many bytes as the plaintext has.
  pub length-main :
      (key nonce buffer journal : Bytes)
      → main p key nonce buffer ≡ ok journal
      → length journal ≡ header_len + length buffer
  length-main key nonce buffer journal ran =
      let (hk, hn) = (main_ok_iff p key nonce buffer).0 (journal, ran) in
      rw (← ok-injective (sym (main-to_bytes p key nonce buffer hk hn) ∙ ran))
        (length-to_bytes key nonce buffer hn)

  -- The host reads back from the public values what the guest was given to commit: the hashes of
  -- key and plaintext, the nonce and the ciphertext.
  pub from_bytes-main :
      (key nonce buffer : Bytes)
      → length key ≡ key_len
      → length nonce ≡ nonce_len
      → (main p key nonce buffer >>= from_bytes) ≡ ok (attested p key nonce buffer)
  from_bytes-main key nonce buffer hk hn =
      rw (main-to_bytes p key nonce buffer hk hn) (
        from_bytes-to_bytes (attested p key nonce buffer) (attested-HasLengths key nonce buffer hn))

  -- Parsing the public values and running the cipher once more gives the plaintext back.
  pub chacha-from_bytes-main :
      (key nonce buffer : Bytes)
      → length key ≡ key_len
      → length nonce ≡ nonce_len
      → (do
        journal ← main p key nonce buffer
        o ← from_bytes journal
        ok (chacha p key o.nonce o.ciphertext))
        ≡ ok buffer
  chacha-from_bytes-main key nonce buffer hk hn =
      rw
        (
          main-to_bytes p key nonce buffer hk hn,
          from_bytes-to_bytes (attested p key nonce buffer)
              (attested-HasLengths key nonce buffer hn),
        )
        (ap ok (chacha-chacha p d key nonce buffer))
