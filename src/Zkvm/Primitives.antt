-- ===== src/Zkvm/Primitives.antt =====
-- The crates `chacha20` and `sha2`, as parameters with the behaviour that they document, and the
-- lengths and the cipher call of zkVM/common/src/lib.rs.
use Prim.Native.Nat.{bit_xor}
use pda_proxy.Base.{ℕ, suc, ◌+◌, ◌≡◌, refl, ap, [], ◌∷◌, Bytes, length, bit_xor-bit_xor}

abbrev pub key_len : ℕ
key_len = 32

abbrev pub hash_len : ℕ
hash_len = 32

abbrev pub nonce_len : ℕ
nonce_len = 12

abbrev pub header_len : ℕ
header_len = hash_len + nonce_len + hash_len

-- `ChaCha20::new(key, nonce).apply_keystream(buffer)` and `Sha256::digest(data)`.
pub record Primitives : Type 0 where
  pub apply_keystream : Bytes → Bytes → Bytes → Bytes
  pub sha256 : Bytes → Bytes

-- The bytes of `buffer`, each xored with the byte of the stream at its position.
abbrev pub xor_stream : (ℕ → ℕ) → ℕ → Bytes → Bytes
xor_stream stream i [] = []
xor_stream stream i (b ∷ bs) = bit_xor b (stream i) ∷ xor_stream stream (suc i) bs

-- What the crates document: the cipher xors a keystream of bytes that depends on key and nonce
-- alone onto the buffer, and a digest has 32 bytes.
pub record IsDocumented (p : Primitives) : Type 0 where
  pub keystream : Bytes → Bytes → ℕ → ℕ
  pub applies :
      (key nonce buffer : Bytes)
      → p.apply_keystream key nonce buffer ≡ xor_stream (keystream key nonce) 0 buffer
  pub length-sha256 : (m : Bytes) → length (p.sha256 m) ≡ hash_len

-- Encrypts or decrypts a buffer in place.
unfoldable pub chacha : Primitives → Bytes → Bytes → Bytes → Bytes
chacha p key nonce buffer = p.apply_keystream key nonce buffer

xor_stream-xor_stream :
    (stream : ℕ → ℕ) (i : ℕ) (bs : Bytes) → xor_stream stream i (xor_stream stream i bs) ≡ bs
xor_stream-xor_stream stream i [] = refl
xor_stream-xor_stream stream i (b ∷ bs) =
    cc (bit_xor-bit_xor b (stream i), xor_stream-xor_stream stream (suc i) bs)

length-xor_stream :
    (stream : ℕ → ℕ) (i : ℕ) (bs : Bytes) → length (xor_stream stream i bs) ≡ length bs
length-xor_stream stream i [] = refl
length-xor_stream stream i (b ∷ bs) = ap suc (length-xor_stream stream (suc i) bs)

module _ (p : Primitives) (d : IsDocumented p) where
  -- A second run of the cipher with the same key and nonce gives the plaintext back.
  pub chacha-chacha :
      (key nonce buffer : Bytes) → chacha p key nonce (chacha p key nonce buffer) ≡ buffer
  unfolding chacha
  chacha-chacha key nonce buffer =
      rw (d.applies key nonce (p.apply_keystream key nonce buffer), d.applies key nonce buffer)
        (xor_stream-xor_stream (d.keystream key nonce) 0 buffer)

  pub length-chacha :
      (key nonce buffer : Bytes) → length (chacha p key nonce buffer) ≡ length buffer
  unfolding chacha
  length-chacha key nonce buffer = rw d.applies (length-xor_stream (d.keystream key nonce) 0 buffer)
