-- ===== src/Ingestion/Signature/Checked.antt =====
-- What the checks of `Verify` come to when they all pass.
use webhook_mind.Prelude.{
  Bool-cases, List, Option, ap, arith, bytes_equal_refl, eq_of_bytes_equal, false, inl, inr,
  is_empty, none, refl, some, sym, ℕ, ℤ, ◌++◌, ◌↔◌, ◌∷◌, ◌≡◌,
}
use webhook_mind.Ingestion.Signature.{
  abs, compare_signature, compute_signature, exceeds, hex_decode, parse_int, parse_signature_header,
  since, verify, verify_at, verify_parsed,
}

-- The checks that a header passes.
pub record IsChecked (hmac : List ℕ → List ℕ → List ℕ) (secret header body : List ℕ)
    (now max_age : ℕ) : Type 0 where
  pub ts : List ℕ
  pub sig : List ℕ
  pub time : ℤ
  pub parsed : parse_signature_header header ≡ some (ts, sig)
  pub timed : parse_int ts ≡ some time
  pub fresh : exceeds (abs (since now time)) max_age ≡ false
  pub signed : hex_decode sig ≡ some (hmac secret (ts ++ b'.' ∷ body))

module _ (hmac : List ℕ → List ℕ → List ℕ) (secret header body : List ℕ) (now max_age : ℕ) where
  compare_signature_sound :
      (expected : List ℕ) (provided : Option (List ℕ))
      → compare_signature hmac expected provided ≡ none
      → provided ≡ some expected
  compare_signature_sound expected none h = cc
  compare_signature_sound expected (some provided) h =
      ap some (sym (eq_of_bytes_equal expected provided (ground arith)))

  verify_at_sound :
      (ts sig : List ℕ) (time : Option ℤ)
      → verify_at hmac secret body now max_age ts sig time ≡ none
      → (t : ℤ) × (time ≡ some t)
        × (exceeds (abs (since now t)) max_age ≡ false)
        × (hex_decode sig ≡ some (hmac secret (ts ++ b'.' ∷ body)))
  unfolding compute_signature
  verify_at_sound ts sig none h = cc
  verify_at_sound ts sig (some t) h = elim (Bool-cases (exceeds (abs (since now t)) max_age)) [
    | inl stale ↦ cc (rw stale at h)
    | inr in_time ↦ (
      t,
      refl,
      in_time,
      compare_signature_sound (hmac secret (ts ++ b'.' ∷ body)) (hex_decode sig) (rw in_time at h),
    )
  ]

  verify_parsed_sound :
      (found : Option (List ℕ × List ℕ))
      → parse_signature_header header ≡ found
      → verify_parsed hmac secret body now max_age found ≡ none
      → IsChecked hmac secret header body now max_age
  verify_parsed_sound none e h = cc
  verify_parsed_sound (some (ts, sig)) e h =
      let (t, timed, in_time, signed) = verify_at_sound ts sig (parse_int ts) h in
      record {
        ts = ts;
        sig = sig;
        time = t;
        parsed = e;
        timed = timed;
        fresh = in_time;
        signed = signed;
      }

  pub verify-IsChecked : (verify hmac secret header body now max_age ≡ none) ↔ (
      (is_empty secret ≡ false)
      × (is_empty header ≡ false)
      × IsChecked hmac secret header body now max_age)
  unfolding verify
  verify-IsChecked = (
    λ h. elim (Bool-cases (is_empty secret)) [
      | inl no_secret ↦ cc (rw no_secret at h)
      | inr has_secret ↦ elim (Bool-cases (is_empty header)) [
        | inl no_header ↦ cc (rw (has_secret, no_header) at h)
        | inr has_header ↦ (
          has_secret,
          has_header,
          verify_parsed_sound (parse_signature_header header) refl
              (rw (has_secret, has_header) at h),
        )
      ]
    ],
    λ (has_secret, has_header, s).
        rw (has_secret, has_header, s.parsed)
          (rw s.timed (
            rw (s.fresh, s.signed)
              (unfold compute_signature in
                rw (bytes_equal_refl (hmac secret (s.ts ++ b'.' ∷ body)))))),
  )
