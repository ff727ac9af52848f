-- ===== src/Zkvm/Hex.antt =====
-- `bytes_to_hex` of zkVM/common/src/lib.rs; service/src/internal/job.rs has the same function.
-- `unhex` is a decoder to state its round trip by.
use Prim.Native.Char.{Char, code}
use pda_proxy.Base.{
  ℕ, zero, suc, ◌+◌, ◌-◌, ◌*◌, ◌/◌, ◌%◌, ◌<◌, ◌≡◌, refl, Option, none, some, Bool, true, false,
  ◌&&◌, String, List, [], ◌∷◌, arith, Bytes, AreBytes, ltb, ◌==◌, ==_iff, Bool-cases, inl, inr,
  if◌then◌else◌,
}

abbrev hex_alphabet : List Char
hex_alphabet =
    "0" ∷ "1" ∷ "2" ∷ "3" ∷ "4" ∷ "5" ∷ "6" ∷ "7" ∷ "8" ∷ "9" ∷ "a" ∷ "b" ∷ "c" ∷ "d" ∷ "e" ∷ "f"
    ∷ []

abbrev char_or : List Char → ℕ → Char → Char
char_or [] i d = d
char_or (c ∷ cs) zero d = c
char_or (c ∷ cs) (suc i) d = char_or cs i d

-- One digit of `{:02x}`.
hex_digit : ℕ → Char
hex_digit n = char_or hex_alphabet n "0"

-- Each byte as two lower-case digits.
unfoldable pub bytes_to_hex : Bytes → String
unfolding hex_digit
bytes_to_hex [] = ""
bytes_to_hex (b ∷ bs) =
    String.◌∷◌ (hex_digit (b / 16)) (String.◌∷◌ (hex_digit (b % 16)) (bytes_to_hex bs))

pub digit_value : Char → Option ℕ
digit_value c =
    if ltb 47 (code c) && ltb (code c) 58
    then some (code c - 48)
    else if ltb 96 (code c) && ltb (code c) 103
    then some (code c - 87)
    else none

abbrev pub join_digits : Option ℕ → Option ℕ → Option Bytes → Option Bytes
join_digits (some a) (some b) (some bs) = some ((a * 16 + b) ∷ bs)
join_digits _ _ _ = none

unfoldable pub unhex : String → Option Bytes
unfolding digit_value
unhex String.[] = some []
unhex (String.◌∷◌ a String.[]) = none
unhex (String.◌∷◌ a (String.◌∷◌ b s)) = join_digits (digit_value a) (digit_value b) (unhex s)

abbrev is_value : ℕ → Option ℕ → Bool
is_value n none = false
is_value n (some m) = n == m

-- Whether the digits of all numbers below a bound decode to their numbers.
unfoldable digits_decode : ℕ → Bool
digits_decode zero = true
digits_decode (suc n) = digits_decode n && is_value n (digit_value (hex_digit n))

sixteen_digits : digits_decode 16 ≡ true
unfolding digits_decode digit_value hex_digit
sixteen_digits = refl

is_value_lem : (n : ℕ) (o : Option ℕ) → is_value n o ≡ true → o ≡ some n
is_value_lem n none h = cc
is_value_lem n (some m) h = ground arith

digit_value-hex_digit :
    (bound n : ℕ) → digits_decode bound ≡ true → n < bound → digit_value (hex_digit n) ≡ some n
unfolding digits_decode
digit_value-hex_digit zero n table h = absurd (omega arith)
digit_value-hex_digit (suc bound) n table h = elim (Bool-cases (digits_decode bound)) [
  | inr fails ↦ cc (rw fails at table)
  | inl holds ↦ elim (Bool-cases (n == bound)) [
    | inl same ↦ rw ((==_iff n bound).0 same) (is_value_lem bound _ (rw holds at table))
    | inr differ ↦ digit_value-hex_digit bound n holds (ground (arith, differ))
  ]
]

-- The hexadecimal text of any byte string reads back as that byte string.
pub unhex-bytes_to_hex : (bs : Bytes) → AreBytes bs → unhex (bytes_to_hex bs) ≡ some bs
unfolding unhex bytes_to_hex
unhex-bytes_to_hex [] h = refl
unhex-bytes_to_hex (b ∷ bs) h =
    rw
      (
        digit_value-hex_digit 16 (b / 16) sixteen_digits (omega arith),
        digit_value-hex_digit 16 (b % 16) sixteen_digits (omega arith),
        unhex-bytes_to_hex bs h.1,
      )
      (ground arith)
