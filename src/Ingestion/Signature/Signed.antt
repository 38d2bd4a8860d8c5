-- ===== src/Ingestion/Signature/Signed.antt =====
-- What the helper `SignForTest` signs is accepted by `Verify`.
use webhook_mind.Prelude.{
  All, List, [], arith, false, is_empty, none, pos, refl, ℕ, ◌*◌, ◌++◌, ◌+◌, ◌-◌, ◌<◌, ◌∷◌, ◌≡◌,
  ◌≤◌,
}
use webhook_mind.Ingestion.Signature.{
  abs, compute_signature, exceeds, format_int, hex_encode, int64_limit, second, sign_for_test,
  since, unix_to_internal, verify,
}
use webhook_mind.Ingestion.Signature.Hex.{
  format_int-is_hex, hex_decode-hex_encode, hex_encode-is_hex, parse_int-format_int,
}
use webhook_mind.Ingestion.Signature.Header.{All-is_hex-IsPlain, parse_signature_header_lem}
use webhook_mind.Ingestion.Signature.Stale.{exceeds-far_future}
use webhook_mind.Ingestion.Signature.Checked.{verify-IsChecked}

is_empty-hex_encode : (s : List ℕ) → is_empty s ≡ false → is_empty (hex_encode s) ≡ false
unfolding hex_encode
is_empty-hex_encode [] h = h
is_empty-hex_encode (b ∷ s) h = refl

module _ (hmac : List ℕ → List ℕ → List ℕ)
    (bytes : (secret message : List ℕ) → All (λ b. b < 256) (hmac secret message))
    (not_empty : (secret message : List ℕ) → is_empty (hmac secret message) ≡ false) where
  -- If the HMAC is a list of bytes that is not empty, the secret is not empty, and the time `t` of
  -- signing is a second since 1970 that lies inside the window, then the signed body is accepted.
  pub verify-sign_for_test :
      (secret body : List ℕ) (t now max_age : ℕ)
      → is_empty secret ≡ false
      → t < int64_limit
      → exceeds (abs (since now (pos t))) max_age ≡ false
      → verify hmac secret (sign_for_test hmac secret body t) body now max_age ≡ none
  unfolding sign_for_test
  verify-sign_for_test secret body t now max_age has_secret small in_time =
      let ts = format_int t in
      let mac = compute_signature hmac secret ts body in
      let mac_bytes : All (λ b. b < 256) mac =
        unfold compute_signature in bytes secret (ts ++ b'.' ∷ body) in
      (verify-IsChecked hmac secret (sign_for_test hmac secret body t) body now max_age).1 (
        has_secret,
        refl,
        record {
          ts = ts;
          sig = hex_encode mac;
          time = pos t;
          parsed =
              parse_signature_header_lem ts (hex_encode mac)
                (All-is_hex-IsPlain ts (format_int-is_hex t))
                (All-is_hex-IsPlain (hex_encode mac) (hex_encode-is_hex mac mac_bytes))
                (parse_int-format_int t small).1
                (is_empty-hex_encode mac
                  (unfold compute_signature in not_empty secret (ts ++ b'.' ∷ body)));
          timed = (parse_int-format_int t small).0;
          fresh = in_time;
          signed = unfold compute_signature in hex_decode-hex_encode mac mac_bytes;
        },
      )

  -- Under the same assumptions on the HMAC, a body signed for a time 2 ^ 63 nanoseconds or more in
  -- the future (whose seconds do not wrap) is accepted now, whatever the window is.
  pub verify-far_future :
      (secret body : List ℕ) (t now max_age : ℕ)
      → is_empty secret ≡ false
      → t < int64_limit - unix_to_internal
      → now + int64_limit ≤ t * second
      → verify hmac secret (sign_for_test hmac secret body t) body now max_age ≡ none
  verify-far_future secret body t now max_age has_secret small future =
      verify-sign_for_test secret body t now max_age has_secret (omega arith)
        (exceeds-far_future now t max_age small future)
