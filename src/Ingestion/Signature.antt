-- ===== src/Ingestion/Signature.antt =====
-- internal/ingestion/signature.go: `Verify`, its header parser, `computeSignature` and the helper
-- that signs. HMAC-SHA256 is a parameter; `time`, `strconv` and `encoding/hex` are modelled.
pub mod Hex
pub mod Header
pub mod Parts
pub mod Digits
pub mod Checked
pub mod Sound
pub mod Signed
pub mod Stale
use webhook_mind.Prelude.{
  Bool, List, Option, [], bytes_equal, codes, drop, false, if◌then◌else◌, index_byte, is_empty, leb,
  ltb, negsuc, none, not, pos, some, split, sub_ℕ, suc, take, trim_space, true, zero, ℕ, ℤ, ◌%◌,
  ◌&&◌, ◌*◌, ◌++◌, ◌+◌, ◌-◌, ◌/◌, ◌==◌, ◌||◌, ◌∷◌,
}

pub data SignatureError : Type 0 where
  invalid_secret missing_header malformed_header stale_timestamp signature_mismatch : SignatureError

-- What one `key=value` pair of the header changes.
unfoldable pub assign : List ℕ → List ℕ → List ℕ × List ℕ → List ℕ × List ℕ
unfolding bytes_equal
assign key value (ts, sig) =
    if bytes_equal key (codes "t")
    then (value, sig)
    else if bytes_equal key (codes "v1")
    then (ts, value)
    else (ts, sig)

-- The position of "=" decides: none, or at the start, and the part is passed over.
abbrev pub assign_at : List ℕ → Option ℕ → List ℕ × List ℕ → List ℕ × List ℕ
assign_at part none found = found
assign_at part (some zero) found = found
assign_at part (some (suc i)) found = assign (take (suc i) part) (drop (suc (suc i)) part) found

-- One round of the loop.
unfoldable pub read_part : List ℕ → List ℕ × List ℕ → List ℕ × List ℕ
unfolding trim_space index_byte assign
read_part part found = let part = trim_space part in assign_at part (index_byte part b'=') found

unfoldable pub read_parts : List (List ℕ) → List ℕ × List ℕ → List ℕ × List ℕ
unfolding read_part
read_parts [] found = found
read_parts (p ∷ ps) found = read_parts ps (read_part p found)

abbrev pub both_found : List ℕ × List ℕ → Option (List ℕ × List ℕ)
both_found (ts, sig) = if is_empty ts || is_empty sig then none else some (ts, sig)

-- `parseSignatureHeader`; `none` is `ErrMalformedHeader`.
unfoldable pub parse_signature_header : List ℕ → Option (List ℕ × List ℕ)
unfolding split read_parts
parse_signature_header h = both_found (read_parts (split b',' h) ([], []))

abbrev pub is_digit : ℕ → Bool
is_digit c = leb b'0' c && leb c b'9'

-- The digits of a decimal number, most significant first; `none` if there is another byte.
unfoldable pub parse_digits : ℕ → List ℕ → Option ℕ
parse_digits acc [] = some acc
parse_digits acc (c ∷ s) =
    let rest = parse_digits (acc * 10 + (c - b'0')) s in if is_digit c then rest else none

-- At least one digit.
unfoldable pub parse_nat : List ℕ → Option ℕ
unfolding parse_digits
parse_nat [] = none
parse_nat (c ∷ s) = parse_digits 0 (c ∷ s)

abbrev pub int64_limit : ℕ
int64_limit = 9223372036854775808

abbrev pub in_int64 : Option ℕ → Bool → Option ℤ
in_int64 none negative = none
in_int64 (some n) true = if leb n int64_limit then some (sub_ℕ 0 n) else none
in_int64 (some n) false = if ltb n int64_limit then some (pos n) else none

-- `strconv.ParseInt(s, 10, 64)`: a sign, digits, and the range of int64.
unfoldable pub parse_int : List ℕ → Option ℤ
unfolding parse_nat
parse_int [] = none
parse_int (c ∷ s) =
    if c == b'-'
    then in_int64 (parse_nat s) true
    else if c == b'+'
    then in_int64 (parse_nat s) false
    else in_int64 (parse_nat (c ∷ s)) false

unfoldable pub hex_value : ℕ → Option ℕ
hex_value c =
    if leb b'0' c && leb c b'9'
    then some (c - b'0')
    else if leb b'a' c && leb c b'f'
    then some (c - b'a' + 10)
    else if leb b'A' c && leb c b'F'
    then some (c - b'A' + 10)
    else none

abbrev pub hex_pair : Option ℕ → Option ℕ → Option (List ℕ) → Option (List ℕ)
hex_pair (some hi) (some lo) (some rest) = some ((hi * 16 + lo) ∷ rest)
hex_pair _ _ _ = none

-- `hex.DecodeString`
unfoldable pub hex_decode : List ℕ → Option (List ℕ)
unfolding hex_value
hex_decode [] = some []
hex_decode (c ∷ []) = none
hex_decode (c ∷ d ∷ s) = hex_pair (hex_value c) (hex_value d) (hex_decode s)

-- A second in nanoseconds, and the seconds that `time.Unix` adds to count from the year 1.
abbrev pub second : ℕ
second = 1000000000

abbrev pub unix_to_internal : ℕ
unix_to_internal = 62135596800

-- `now.Sub(time.Unix(t, 0))` for a time `now` in nanoseconds: the seconds since the year 1 wrap at
-- int64, and the difference stops at the ends of int64.
unfoldable pub since : ℕ → ℤ → ℤ
since now (pos t) =
    if leb (int64_limit - unix_to_internal) t
    then pos (int64_limit - 1)
    else if leb (t * second) now
    then pos (if ltb (now - t * second) int64_limit then now - t * second else int64_limit - 1)
    else negsuc
        (if ltb (t * second - now - 1) int64_limit then t * second - now - 1 else int64_limit - 1)
since now (negsuc t) =
    let d = now + suc t * second in pos (if ltb d int64_limit then d else int64_limit - 1)

-- `abs`: the negation of the least int64 is itself.
unfoldable pub abs : ℤ → ℤ
abs (pos n) = pos n
abs (negsuc n) = if n == int64_limit - 1 then negsuc n else pos (suc n)

-- `d > maxAge`
abbrev pub exceeds : ℤ → ℕ → Bool
exceeds (pos n) max_age = ltb max_age n
exceeds (negsuc n) max_age = false

-- `strconv.FormatInt(n, 10)` for a time that is not before 1970; `n + 1` rounds are enough.
unfoldable pub format_from : ℕ → ℕ → List ℕ → List ℕ
format_from zero n acc = acc
format_from (suc f) n acc =
    let rest = format_from f (n / 10) ((b'0' + n % 10) ∷ acc) in
    if ltb n 10 then (b'0' + n) ∷ acc else rest

unfoldable pub format_int : ℕ → List ℕ
unfolding format_from
format_int n = format_from (suc n) n []

unfoldable pub hex_digit : ℕ → ℕ
hex_digit d = if ltb d 10 then b'0' + d else b'a' + (d - 10)

-- `hex.EncodeToString`
unfoldable pub hex_encode : List ℕ → List ℕ
unfolding hex_digit
hex_encode [] = []
hex_encode (b ∷ s) = hex_digit (b / 16) ∷ hex_digit (b % 16) ∷ hex_encode s

module _ (hmac : List ℕ → List ℕ → List ℕ) where
  -- `computeSignature`
  unfoldable pub compute_signature : List ℕ → List ℕ → List ℕ → List ℕ
  compute_signature secret ts body = hmac secret (ts ++ b'.' ∷ body)

  abbrev pub compare_signature : List ℕ → Option (List ℕ) → Option SignatureError
  compare_signature expected none = some malformed_header
  compare_signature expected (some provided) =
      if not (bytes_equal expected provided) then some signature_mismatch else none

  abbrev pub verify_at :
      List ℕ → List ℕ → ℕ → ℕ → List ℕ → List ℕ → Option ℤ → Option SignatureError
  verify_at secret body now max_age ts sig none = some malformed_header
  verify_at secret body now max_age ts sig (some t) =
      if exceeds (abs (since now t)) max_age
      then some stale_timestamp
      else compare_signature (compute_signature secret ts body) (hex_decode sig)

  abbrev pub verify_parsed :
      List ℕ → List ℕ → ℕ → ℕ → Option (List ℕ × List ℕ) → Option SignatureError
  verify_parsed secret body now max_age none = some malformed_header
  verify_parsed secret body now max_age (some (ts, sig)) =
      verify_at secret body now max_age ts sig (parse_int ts)

  -- `Verify`; `none` is success.
  unfoldable pub verify : List ℕ → List ℕ → List ℕ → ℕ → ℕ → Option SignatureError
  unfolding parse_signature_header parse_int abs since bytes_equal compute_signature hex_decode
  verify secret header body now max_age =
      if is_empty secret
      then some invalid_secret
      else if is_empty header
      then some missing_header
      else verify_parsed secret body now max_age (parse_signature_header header)

  -- `SignForTest`
  unfoldable pub sign_for_test : List ℕ → List ℕ → ℕ → List ℕ
  unfolding format_int compute_signature hex_encode
  sign_for_test secret body t =
      codes "t="
      ++ (format_int t
          ++ (codes ",v1=" ++ hex_encode (compute_signature secret (format_int t) body)))
