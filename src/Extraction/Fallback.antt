-- ===== src/Extraction/Fallback.antt =====
-- internal/extraction/fallback.go: `FallbackExtractor`.
use webhook_mind.Prelude.{
  Bool-cases, Option, String, arith, false, if◌then◌else◌, inl, inr, none, refl, some, true, ◌||◌,
  ◌≡◌,
}
use webhook_mind.Extraction.Backend.{ExtractRequest, Extracted, Extractor, succeeded}

pub record FallbackExtractor (W : Type 0) : Type 0 where
  pub primary : Extractor W
  pub fallback : Extractor W

abbrev pub first_error : Option String → Option String → Option String
first_error none later = later
first_error (some e) later = some e

module _ {W : Type 0} where
  -- What follows the primary's answer; whatever the fallback returns is returned.
  abbrev pub second_try : FallbackExtractor W → ExtractRequest → Extracted → W → Extracted × W
  second_try f req first w = if succeeded first then (first, w) else f.fallback.extract req w

  -- `FallbackExtractor.Extract`
  unfoldable pub extract_with_fallback : FallbackExtractor W → ExtractRequest → W → Extracted × W
  extract_with_fallback f req w =
      let (first, w') = f.primary.extract req w in second_try f req first w'

  -- `FallbackExtractor.Close`
  unfoldable pub close_both : FallbackExtractor W → W → Option String × W
  close_both f w =
      let (first, w') = f.primary.close w in
      let (second, w'') = f.fallback.close w' in (first_error first second, w'')

  -- The wrapper as an extractor.
  abbrev pub as_extractor : FallbackExtractor W → Extractor W
  as_extractor f = record { extract = extract_with_fallback f; close = close_both f }

  -- If the primary succeeds, its answer is returned in the world that it leaves, so the fallback
  -- has not run; if it does not, the answer and the world are those of the fallback, run in the
  -- world that the primary leaves. The wrapper succeeds exactly if one of the two does.
  pub extract_with_fallback_lem :
      (f : FallbackExtractor W) (req : ExtractRequest) (w : W)
      → let (first, w₁) = f.primary.extract req w in
        let (second, w₂) = f.fallback.extract req w₁ in
        (succeeded first ≡ true → extract_with_fallback f req w ≡ (first, w₁))
        × (succeeded first ≡ false → extract_with_fallback f req w ≡ (second, w₂))
        × (succeeded (extract_with_fallback f req w).0 ≡ (succeeded first || succeeded second))
  unfolding extract_with_fallback
  extract_with_fallback_lem f req w = elim (Bool-cases (succeeded (f.primary.extract req w).0)) [
    | inl good ↦ rw good (λ h. refl, λ h. absurd (ground arith), good)
    | inr bad ↦ rw bad (λ h. absurd (ground arith), λ h. refl, refl)
  ]
