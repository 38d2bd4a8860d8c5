-- ===== src/Ingestion/Signature/Digits.antt =====
-- Hexadecimal text, described by its digits, and the decoder.
use webhook_mind.Prelude.{
  List, Option-cases, [], arith, inl, inr, refl, some, subst, ℕ, ◌*◌, ◌+◌, ◌<◌, ◌↔◌, ◌∷◌, ◌≡◌, ◌≤◌,
  ◌⊎◌,
}
use webhook_mind.Ingestion.Signature.{hex_decode, hex_value, second}

-- The character is the hexadecimal digit of this value, in either case.
abbrev pub IsHexDigit : ℕ → ℕ → Type 0
IsHexDigit c v =
    ((v < 10) × (c ≡ b'0' + v))
    ⊎ ((10 ≤ v) × (v < 16) × (c + 10 ≡ b'a' + v))
    ⊎ ((10 ≤ v) × (v < 16) × (c + 10 ≡ b'A' + v))

-- The text writes these bytes, two digits for each, the higher one first.
abbrev pub IsHexOf : List ℕ → List ℕ → Type 0
IsHexOf [] [] = Unit
IsHexOf (c ∷ d ∷ s) (b ∷ bytes) =
    ((hi : ℕ) × (lo : ℕ) × IsHexDigit c hi × IsHexDigit d lo × (b ≡ hi * 16 + lo)) × IsHexOf s bytes
IsHexOf _ _ = ⊥

hex_value-IsHexDigit : (c v : ℕ) → (hex_value c ≡ some v) ↔ IsHexDigit c v
unfolding hex_value
hex_value-IsHexDigit c v = ground arith

some_path : {a b : List ℕ} → some a ≡ some b → a ≡ b
some_path e = cc

pub hex_decode-IsHexOf : (s bytes : List ℕ) → hex_decode s ≡ some bytes → IsHexOf s bytes
unfolding hex_decode
hex_decode-IsHexOf [] [] e = tt
hex_decode-IsHexOf [] (b ∷ bytes) e = cc
hex_decode-IsHexOf (c ∷ []) bytes e = cc
hex_decode-IsHexOf (c ∷ d ∷ s) bytes e = elim (Option-cases (hex_value c)) [
  | inl bad ↦ cc (rw bad at e)
  | inr (hi, first) ↦ elim (Option-cases (hex_value d)) [
    | inl bad ↦ cc (rw (first, bad) at e)
    | inr (lo, second) ↦ elim (Option-cases (hex_decode s)) [
      | inl bad ↦ cc (rw (first, second, bad) at e)
      | inr (rest, decoded) ↦
          let same : (hi * 16 + lo) ∷ rest ≡ bytes = some_path (rw (first, second, decoded) at e) in
          subst (IsHexOf (c ∷ d ∷ s)) same (
            (
              hi,
              lo,
              (hex_value-IsHexDigit c hi).0 first,
              (hex_value-IsHexDigit d lo).0 second,
              refl,
            ),
            hex_decode-IsHexOf s rest decoded,
          )
    ]
  ]
]

pub IsHexOf-hex_decode : (s bytes : List ℕ) → IsHexOf s bytes → hex_decode s ≡ some bytes
unfolding hex_decode
IsHexOf-hex_decode [] [] h = refl
IsHexOf-hex_decode [] (b ∷ bytes) h = absurd h
IsHexOf-hex_decode (c ∷ []) bytes h = absurd h
IsHexOf-hex_decode (c ∷ d ∷ s) [] h = absurd h
IsHexOf-hex_decode (c ∷ d ∷ s) (b ∷ bytes) ((hi, lo, first, second, value), h) =
    rw
      (
        (hex_value-IsHexDigit c hi).1 first,
        (hex_value-IsHexDigit d lo).1 second,
        IsHexOf-hex_decode s bytes h,
        value,
      )
      refl
