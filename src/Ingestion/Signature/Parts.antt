-- ===== src/Ingestion/Signature/Parts.antt =====
-- The header parser against a description of the two values that it finds.
use webhook_mind.Prelude.{
  List, Option, [], ap, arith, bytes_equal, codes, if◌then◌else◌, index_byte, none, refl, some,
  split, trim_space, ℕ, ◌==◌, ◌∙◌, ◌∷◌, ◌≡◌,
}
use webhook_mind.Ingestion.Signature.{
  assign, assign_at, both_found, parse_signature_header, read_part, read_parts,
}

-- What stands after `name` in a text that starts with it.
abbrev pub value_after : (name part : List ℕ) → Option (List ℕ)
value_after [] part = some part
value_after (n ∷ name) [] = none
value_after (n ∷ name) (c ∷ part) = if c == n then value_after name part else none

abbrev pub or_default : List ℕ → Option (List ℕ) → List ℕ
or_default default none = default
or_default default (some value) = value

-- The value of the last part that starts with `name`.
abbrev pub last_value : List ℕ → List (List ℕ) → List ℕ → List ℕ
last_value name [] default = default
last_value name (part ∷ parts) default =
    last_value name parts (or_default default (value_after name (trim_space part)))

abbrev pub value_of : List ℕ → List ℕ → List ℕ
value_of name header = last_value name (split b',' header) []

assign-value_after :
    (part ts sig : List ℕ)
    → assign_at part (index_byte part b'=') (ts, sig) ≡ (
      or_default ts (value_after (codes "t=") part),
      or_default sig (value_after (codes "v1=") part),
    )
unfolding assign index_byte bytes_equal
assign-value_after [] ts sig = refl
assign-value_after (c ∷ []) ts sig = ground arith
assign-value_after (c ∷ d ∷ []) ts sig = ground arith
assign-value_after (c ∷ d ∷ e ∷ s) ts sig = ground arith

read_parts-last_value :
    (parts : List (List ℕ)) (ts sig : List ℕ)
    → read_parts parts (ts, sig)
      ≡ (last_value (codes "t=") parts ts, last_value (codes "v1=") parts sig)
unfolding read_parts read_part
read_parts-last_value [] ts sig = refl
read_parts-last_value (part ∷ parts) ts sig =
    ap (read_parts parts) (assign-value_after (trim_space part) ts sig)
    ∙ read_parts-last_value parts (or_default ts (value_after (codes "t=") (trim_space part)))
        (or_default sig (value_after (codes "v1=") (trim_space part)))

-- The parser finds the last values of the parts `t=` and `v1=`, if neither is empty.
pub parse_signature_header-value_of :
    (header : List ℕ)
    → parse_signature_header header
      ≡ both_found (value_of (codes "t=") header, value_of (codes "v1=") header)
unfolding parse_signature_header
parse_signature_header-value_of header =
    ap both_found (read_parts-last_value (split b',' header) [] [])
