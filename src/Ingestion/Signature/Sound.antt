-- ===== src/Ingestion/Signature/Sound.antt =====
-- What `Verify` accepts, exactly.
use webhook_mind.Prelude.{
  List, ap, arith, codes, false, is_empty, none, refl, some, sym, ℕ, ℤ, ◌++◌, ◌-◌, ◌<◌, ◌↔◌, ◌∙◌,
  ◌∷◌, ◌≡◌,
}
use webhook_mind.Ingestion.Signature.{both_found, int64_limit, parse_int, verify}
use webhook_mind.Ingestion.Signature.Stale.{IsFresh, exceeds-IsFresh}
use webhook_mind.Ingestion.Signature.Parts.{parse_signature_header-value_of, value_of}
use webhook_mind.Ingestion.Signature.Digits.{IsHexOf, IsHexOf-hex_decode, hex_decode-IsHexOf}
use webhook_mind.Ingestion.Signature.Checked.{IsChecked, verify-IsChecked}

-- The last `t=` part of the header is a time that is fresh in the sense of `IsFresh`, and its last
-- `v1=` part is in hexadecimal the HMAC of the text of this time, a dot and the body.
pub record IsSigned (hmac : List ℕ → List ℕ → List ℕ) (secret header body : List ℕ)
    (now max_age : ℕ) : Type 0 where
  pub time : ℤ
  pub has_time : is_empty (value_of (codes "t=") header) ≡ false
  pub has_mac : is_empty (value_of (codes "v1=") header) ≡ false
  pub timed : parse_int (value_of (codes "t=") header) ≡ some time
  pub fresh : IsFresh now max_age time
  pub signed :
      IsHexOf
        (value_of (codes "v1=") header)
        (hmac secret (value_of (codes "t=") header ++ b'.' ∷ body))

both_found-some :
    (ts sig a b : List ℕ)
    → both_found (ts, sig) ≡ some (a, b)
    → (is_empty ts ≡ false) × (is_empty sig ≡ false) × (ts ≡ a) × (sig ≡ b)
both_found-some ts sig a b e = ground arith

module _ (hmac : List ℕ → List ℕ → List ℕ) (secret header body : List ℕ) (now max_age : ℕ) where
  IsSigned-IsChecked :
      now < int64_limit
      → max_age < int64_limit - 1
      → IsChecked hmac secret header body now max_age
      → IsSigned hmac secret header body now max_age
  IsSigned-IsChecked early window c =
      let (has_time, has_mac, same_ts, same_sig) =
        both_found-some (value_of (codes "t=") header) (value_of (codes "v1=") header) c.ts c.sig
          (sym (parse_signature_header-value_of header) ∙ c.parsed) in
      record {
        time = c.time;
        has_time = has_time;
        has_mac = has_mac;
        timed = ap parse_int same_ts ∙ c.timed;
        fresh = (exceeds-IsFresh now max_age c.time early window).0 c.fresh;
        signed =
            hex_decode-IsHexOf (value_of (codes "v1=") header)
              (hmac secret (value_of (codes "t=") header ++ b'.' ∷ body))
              (rw (same_ts, same_sig) c.signed);
      }

  IsChecked-IsSigned :
      now < int64_limit
      → max_age < int64_limit - 1
      → IsSigned hmac secret header body now max_age
      → IsChecked hmac secret header body now max_age
  IsChecked-IsSigned early window s = record {
    ts = value_of (codes "t=") header;
    sig = value_of (codes "v1=") header;
    time = s.time;
    parsed = parse_signature_header-value_of header ∙ rw (s.has_time, s.has_mac) refl;
    timed = s.timed;
    fresh = (exceeds-IsFresh now max_age s.time early window).1 s.fresh;
    signed =
        IsHexOf-hex_decode (value_of (codes "v1=") header)
          (hmac secret (value_of (codes "t=") header ++ b'.' ∷ body)) s.signed;
  }

  pub verify_iff :
      now < int64_limit
      → max_age < int64_limit - 1
      → (verify hmac secret header body now max_age ≡ none) ↔ (
          (is_empty secret ≡ false)
          × (is_empty header ≡ false)
          × IsSigned hmac secret header body now max_age)
  verify_iff early window =
      let checked = verify-IsChecked hmac secret header body now max_age in
      (
        λ h. let (a, b, c) = checked.0 h in (a, b, IsSigned-IsChecked early window c),
        λ (a, b, s). checked.1 (a, b, IsChecked-IsSigned early window s),
      )
