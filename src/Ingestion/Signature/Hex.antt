-- ===== src/Ingestion/Signature/Hex.antt =====
-- Hexadecimal text and decimal numbers read back what was written.
use webhook_mind.Prelude.{
  All, Bool, Bool-cases, List, [], ap, arith, false, inl, inr, is_empty, is_space, leb, ltb, pos,
  refl, some, suc, sym, true, zero, ℕ, ◌%◌, ◌&&◌, ◌+◌, ◌/◌, ◌<◌, ◌==◌, ◌||◌, ◌∙◌, ◌∷◌, ◌≡◌,
}
use webhook_mind.Ingestion.Signature.{
  format_from, format_int, hex_decode, hex_digit, hex_encode, hex_value, in_int64, int64_limit,
  is_digit, parse_digits, parse_int,
}

-- A byte that neither ends a part of the header nor is trimmed.
abbrev pub IsPlain : ℕ → Type 0
IsPlain c = ((c == b',') ≡ false) × (is_space c ≡ false)

-- The letters and digits that the header's values consist of.
abbrev pub is_hex : ℕ → Bool
is_hex c = (leb b'0' c && leb c b'9') || (leb b'a' c && leb c b'f')

pub is_hex-IsPlain : (c : ℕ) → is_hex c ≡ true → IsPlain c
unfolding is_space
is_hex-IsPlain c h = ground arith

hex_value-hex_digit : (d : ℕ) → d < 16 → hex_value (hex_digit d) ≡ some d
unfolding hex_value hex_digit
hex_value-hex_digit d h = ground arith

is_hex-hex_digit : (d : ℕ) → d < 16 → is_hex (hex_digit d) ≡ true
unfolding hex_digit
is_hex-hex_digit d h = ground arith

-- Decoding gives back every list of bytes that was encoded.
pub hex_decode-hex_encode : (s : List ℕ) → All (λ b. b < 256) s → hex_decode (hex_encode s) ≡ some s
unfolding hex_decode hex_encode
hex_decode-hex_encode [] h = refl
hex_decode-hex_encode (b ∷ s) h =
    rw
      (
        hex_value-hex_digit (b / 16) (omega arith),
        hex_value-hex_digit (b % 16) (omega arith),
        hex_decode-hex_encode s h.1,
      )
      (ap (λ x. some (x ∷ s)) (omega arith))

pub hex_encode-is_hex :
    (s : List ℕ) → All (λ b. b < 256) s → All (λ c. is_hex c ≡ true) (hex_encode s)
unfolding hex_encode
hex_encode-is_hex [] h = tt
hex_encode-is_hex (b ∷ s) h = (
  is_hex-hex_digit (b / 16) (omega arith),
  (is_hex-hex_digit (b % 16) (omega arith), hex_encode-is_hex s h.1),
)

format_from-is_hex :
    (f n : ℕ) (acc : List ℕ)
    → All (λ c. is_hex c ≡ true) acc
    → All (λ c. is_hex c ≡ true) (format_from f n acc)
unfolding format_from
format_from-is_hex zero n acc h = h
format_from-is_hex (suc f) n acc h = elim (Bool-cases (ltb n 10)) [
  | inl few ↦ rw few (ground arith, h)
  | inr more ↦ rw more (format_from-is_hex f (n / 10) ((b'0' + n % 10) ∷ acc) (ground arith, h))
]

pub format_int-is_hex : (n : ℕ) → All (λ c. is_hex c ≡ true) (format_int n)
unfolding format_int
format_int-is_hex n = format_from-is_hex (suc n) n [] tt

parse_digits-format_from :
    (f n : ℕ) (s : List ℕ) → n < f → parse_digits 0 (format_from f n s) ≡ parse_digits n s
unfolding format_from parse_digits
parse_digits-format_from zero n s h = elim h [ ]
parse_digits-format_from (suc f) n s h = elim (Bool-cases (ltb n 10)) [
  | inl few ↦ rw few (ground arith)
  | inr more ↦
      rw more
        (parse_digits-format_from f (n / 10) ((b'0' + n % 10) ∷ s) (ground arith) ∙ ground arith)
]

-- A first digit, which is no sign.
starts_with_digit :
    (f n : ℕ) (acc : List ℕ)
    → n < f
    → (c : ℕ) × (s : List ℕ) × (format_from f n acc ≡ c ∷ s) × (is_digit c ≡ true)
unfolding format_from
starts_with_digit zero n acc h = elim h [ ]
starts_with_digit (suc f) n acc h = elim (Bool-cases (ltb n 10)) [
  | inl few ↦ rw few (b'0' + n, acc, refl, ground arith)
  | inr more ↦ rw more (starts_with_digit f (n / 10) ((b'0' + n % 10) ∷ acc) (ground arith))
]

parse_int_of_digits :
    (c : ℕ) (s : List ℕ)
    → is_digit c ≡ true
    → parse_int (c ∷ s) ≡ in_int64 (parse_digits 0 (c ∷ s)) false
unfolding parse_int
parse_int_of_digits c s h = ground arith

-- Reading gives back every number below 2 ^ 63 that was written, and what was written is not empty.
pub parse_int-format_int :
    (n : ℕ)
    → n < int64_limit
    → (parse_int (format_int n) ≡ some (pos n)) × (is_empty (format_int n) ≡ false)
unfolding format_int
parse_int-format_int n h =
    let (c, s, shape, digit) = starts_with_digit (suc n) n [] (omega arith) in
    let value : parse_digits 0 (c ∷ s) ≡ some n =
      ap (parse_digits 0) (sym shape)
      ∙ parse_digits-format_from (suc n) n [] (omega arith)
      ∙ unfold parse_digits in refl in
    (
      ap parse_int shape
          ∙ parse_int_of_digits c s digit
          ∙ ap (λ v. in_int64 v false) value
          ∙ ground arith,
      ap is_empty shape,
    )
