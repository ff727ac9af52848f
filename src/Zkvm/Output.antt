-- ===== src/Zkvm/Output.antt =====
-- `ZkvmOutput` of zkVM/common/src/lib.rs: the public values of a proof, read by their layout
-- (32 bytes key hash, 12 bytes nonce, 32 bytes plaintext hash, then the ciphertext).
use pda_proxy.Base.{
  ℕ, ◌+◌, ◌-◌, ◌≤◌, ◌≡◌, sym, ◌∙◌, ap, String, List, [], ◌∷◌, ◌++◌, inl, inr, arith, Bytes, length,
  take, drop, length-append, length-take, length-drop, take-append-drop, take-append, drop-append,
  Result, ok, err, ltb, ltb→lt, ltb-false→le, ok-injective, drop-add, take_all, if◌then◌else◌,
  Bool-cases,
}
use mathlib.Core.List.{append_assoc}
use pda_proxy.Zkvm.Primitives.{Primitives, hash_len, nonce_len, header_len}
use pda_proxy.Zkvm.Hex.{bytes_to_hex}

pub record ZkvmOutput : Type 0 where
  pub privkey_hash : Bytes
  pub nonce : Bytes
  pub plaintext_hash : Bytes
  pub ciphertext : Bytes

-- `data[from..to]`
abbrev pub slice : ℕ → ℕ → Bytes → Bytes
slice from to bs = take (to - from) (drop from bs)

-- The fields, where the data is long enough.
abbrev split_header : Bytes → ZkvmOutput
split_header data_bytes =
    let header = take header_len data_bytes in
    record {
      privkey_hash = slice 0 hash_len header;
      nonce = slice hash_len (hash_len + nonce_len) header;
      plaintext_hash = slice (hash_len + nonce_len) header_len header;
      ciphertext = drop header_len data_bytes;
    }

unfoldable pub from_bytes : Bytes → Result String ZkvmOutput
from_bytes data_bytes =
    if ltb (length data_bytes) header_len
    then err "Input too short for header"
    else ok (split_header data_bytes)

-- What `fmt` hands to the `debug_struct` builder: the name, then each field's name and text.
unfoldable pub output_debug : Primitives → ZkvmOutput → String × List (String × String)
output_debug p o = (
  "ZkvmOutput",
  ("privkey_hash", bytes_to_hex o.privkey_hash)
      ∷ ("nonce", bytes_to_hex o.nonce)
      ∷ ("plaintext_hash", bytes_to_hex o.plaintext_hash)
      ∷ ("ciphertext_sha256", bytes_to_hex (p.sha256 o.ciphertext))
      ∷ [],
)

-- The layout that the guest writes.
abbrev pub to_bytes : ZkvmOutput → Bytes
to_bytes o = o.privkey_hash ++ (o.nonce ++ (o.plaintext_hash ++ o.ciphertext))

pub record HasLengths (o : ZkvmOutput) : Type 0 where
  pub privkey_hash_len : length o.privkey_hash ≡ hash_len
  pub nonce_len_ok : length o.nonce ≡ nonce_len
  pub plaintext_hash_len : length o.plaintext_hash ≡ hash_len

module _ (k n p c : Bytes) (hk : length k ≡ 32) (hn : length n ≡ 12) (hp : length p ≡ 32) where
  regroup : k ++ (n ++ (p ++ c)) ≡ (k ++ (n ++ p)) ++ c
  regroup = simp append_assoc

  header_len_lem : length (k ++ (n ++ p)) ≡ header_len
  header_len_lem = omega (arith, length-append k (n ++ p), length-append n p)

  header_lem : take header_len (k ++ (n ++ (p ++ c))) ≡ k ++ (n ++ p)
  header_lem = rw regroup (take-append header_len (k ++ (n ++ p)) c header_len_lem)

  rest_lem : drop header_len (k ++ (n ++ (p ++ c))) ≡ c
  rest_lem = rw regroup (drop-append header_len (k ++ (n ++ p)) c header_len_lem)

  slices_lem :
      (slice 0 32 (k ++ (n ++ p)) ≡ k)
      × (slice 32 44 (k ++ (n ++ p)) ≡ n)
      × (slice 44 76 (k ++ (n ++ p)) ≡ p)
  slices_lem = (
    take-append 32 k (n ++ p) hk,
    rw (drop-append 32 k (n ++ p) hk) (take-append 12 n p hn),
    rw (drop-add 32 12 (k ++ (n ++ p)), drop-append 32 k (n ++ p) hk, drop-append 12 n p hn)
        (take_all 32 p (omega arith)),
  )

  pub split_header-append :
      split_header (k ++ (n ++ (p ++ c)))
      ≡ record { privkey_hash = k; nonce = n; plaintext_hash = p; ciphertext = c }
  split_header-append = cc (
    ap (slice 0 32) header_lem ∙ slices_lem.0,
    ap (slice 32 44) header_lem ∙ slices_lem.1,
    ap (slice 44 76) header_lem ∙ slices_lem.2,
    rest_lem,
  )

-- What the layout wrote is read back field by field.
pub from_bytes-to_bytes : (o : ZkvmOutput) → HasLengths o → from_bytes (to_bytes o) ≡ ok o
unfolding from_bytes
from_bytes-to_bytes o h = elim (Bool-cases (ltb (length (to_bytes o)) header_len)) [
  | inl short ↦ absurd (
      omega (
        arith,
        ltb→lt _ _ short,
        length-append o.privkey_hash (o.nonce ++ (o.plaintext_hash ++ o.ciphertext)),
        length-append o.nonce (o.plaintext_hash ++ o.ciphertext),
        length-append o.plaintext_hash o.ciphertext,
      ))
  | inr long ↦ rw long (
      ap ok (
        split_header-append o.privkey_hash o.nonce o.plaintext_hash o.ciphertext h.privkey_hash_len
          h.nonce_len_ok h.plaintext_hash_len))
]

split_header-HasLengths : (bs : Bytes) → header_len ≤ length bs → HasLengths (split_header bs)
split_header-HasLengths bs long = omega (
  arith,
  length-take header_len bs,
  length-drop 32 (take header_len bs),
  length-drop 44 (take header_len bs),
  length-drop 0 (take header_len bs),
  length-take 32 (drop 0 (take header_len bs)),
  length-take 12 (drop 32 (take header_len bs)),
  length-take 32 (drop 44 (take header_len bs)),
)

join : (n : ℕ) (xs ys : Bytes) → take n xs ++ (drop n xs ++ ys) ≡ xs ++ ys
join n xs ys = sym (append_assoc (take n xs) (drop n xs) ys) ∙ rw take-append-drop

to_bytes-split_header : (bs : Bytes) → to_bytes (split_header bs) ≡ bs
to_bytes-split_header bs =
    let t = take header_len bs in
    let tail_lem : take 32 (drop 44 t) ≡ drop 12 (drop 32 t) =
      take_all 32 (drop 44 t) (omega (arith, length-drop 44 t, length-take header_len bs))
      ∙ drop-add 32 12 t in
    rw (
      tail_lem,
      join 12 (drop 32 t) (drop header_len bs),
      join 32 t (drop header_len bs),
      take-append-drop header_len bs,
    )

-- Whatever is read has fields of the right lengths that together are the input.
pub to_bytes-from_bytes :
    (bs : Bytes) (o : ZkvmOutput) → from_bytes bs ≡ ok o → HasLengths o × (to_bytes o ≡ bs)
unfolding from_bytes
to_bytes-from_bytes bs o h = elim (Bool-cases (ltb (length bs) header_len)) [
  | inl short ↦ cc (rw short at h)
  | inr long ↦
      rw (← ok-injective (rw long at h))
        (split_header-HasLengths bs (ltb-false→le _ _ long), to_bytes-split_header bs)
]
