-- ===== src/Ingestion/Signature/Header.antt =====
-- The header `t=...,v1=...` is taken apart into the two values that were put in.
use mathlib.Core.List.{reverse, reverse-reverse, reverse_aux}
use webhook_mind.Prelude.{
  All, List, [], ap, append-nil, append_assoc, arith, bytes_equal, codes, false, index_byte,
  is_empty, is_space, refl, some, split_from, trim_left, trim_space, true, ℕ, ◌++◌, ◌∙◌, ◌∷◌, ◌≡◌,
}
use webhook_mind.Ingestion.Signature.{
  assign, both_found, parse_signature_header, read_part, read_parts,
}
use webhook_mind.Ingestion.Signature.Hex.{IsPlain, is_hex, is_hex-IsPlain}

split_from_last : (cur s : List ℕ) → All IsPlain s → split_from b',' cur s ≡ (cur ++ s) ∷ []
unfolding split_from
split_from_last cur [] h = rw (append-nil cur)
split_from_last cur (c ∷ s) h =
    rw h.0.0
      (split_from_last (cur ++ c ∷ []) s h.1 ∙ ap (λ x. x ∷ []) (append_assoc cur (c ∷ []) s))

split_from_comma :
    (cur s rest : List ℕ)
    → All IsPlain s
    → split_from b',' cur (s ++ b',' ∷ rest) ≡ (cur ++ s) ∷ split_from b',' [] rest
unfolding split_from
split_from_comma cur [] rest h = rw (append-nil cur)
split_from_comma cur (c ∷ s) rest h = rw h.0.0 (
    split_from_comma (cur ++ c ∷ []) s rest h.1
    ∙ ap (λ x. x ∷ split_from b',' [] rest) (append_assoc cur (c ∷ []) s))

All-reverse_aux {ℓ κ} :
    {A : Type ℓ} (P : A → Type κ) (xs ys : List A) → All P xs → All P ys → All P (reverse_aux xs ys)
All-reverse_aux P [] ys h k = k
All-reverse_aux P (x ∷ xs) ys h k = All-reverse_aux P xs (x ∷ ys) h.1 (h.0, k)

trim_left_plain : (s : List ℕ) → All IsPlain s → trim_left s ≡ s
unfolding trim_left
trim_left_plain [] h = refl
trim_left_plain (c ∷ s) h = rw h.0.1

trim_space_plain : (s : List ℕ) → All IsPlain s → trim_space s ≡ s
trim_space_plain s h =
    unfold trim_space in
    rw (trim_left_plain s h, trim_left_plain (reverse s) (All-reverse_aux IsPlain s [] h tt))
      (reverse-reverse s)

pub All-is_hex-IsPlain : (s : List ℕ) → All (λ c. is_hex c ≡ true) s → All IsPlain s
All-is_hex-IsPlain [] h = tt
All-is_hex-IsPlain (c ∷ s) h = (is_hex-IsPlain c h.0, All-is_hex-IsPlain s h.1)

t_part : (ts : List ℕ) → All IsPlain ts → All IsPlain (codes "t=" ++ ts)
unfolding is_space
t_part ts h = ((refl, refl), ((refl, refl), h))

v1_part : (sig : List ℕ) → All IsPlain sig → All IsPlain (codes "v1=" ++ sig)
unfolding is_space
v1_part sig h = ((refl, refl), ((refl, refl), ((refl, refl), h)))

-- A header of the documented form whose values are not empty, and hold no comma and no space, is
-- parsed into these values.
pub parse_signature_header_lem :
    (ts sig : List ℕ)
    → All IsPlain ts
    → All IsPlain sig
    → is_empty ts ≡ false
    → is_empty sig ≡ false
    → parse_signature_header (codes "t=" ++ (ts ++ (codes ",v1=" ++ sig))) ≡ some (ts, sig)
unfolding parse_signature_header
parse_signature_header_lem ts sig p q n m =
    ap (λ parts. both_found (read_parts parts ([], [])))
      (split_from_comma [] (codes "t=" ++ ts) (codes "v1=" ++ sig) (t_part ts p)
        ∙ ap (λ r. (codes "t=" ++ ts) ∷ r)
            (split_from_last [] (codes "v1=" ++ sig) (v1_part sig q)))
    ∙ unfold read_parts read_part in
      rw
        (
          trim_space_plain (codes "t=" ++ ts) (t_part ts p),
          trim_space_plain (codes "v1=" ++ sig) (v1_part sig q),
        )
        (unfold index_byte assign bytes_equal in ground arith)
