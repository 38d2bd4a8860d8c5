-- ===== src/Extraction/Detect.antt =====
-- internal/extraction/detect.go: `DetectFileType`.
use webhook_mind.Prelude.{
  Bool, List, String, [], bytes_equal, codes, drop, false, has_prefix, if◌then◌else◌, index_byte,
  is_some, leb, length, ltb, not, take, true, ℕ, ◌&&◌, ◌==◌, ◌||◌, ◌∷◌,
}

-- `isPrintableASCII`
unfoldable pub is_printable_ascii : List ℕ → Bool
is_printable_ascii [] = true
is_printable_ascii (b ∷ bytes) =
    let rest = is_printable_ascii bytes in
    if ltb b 0x20 && not (b == 10) && not (b == 13) && not (b == 9) then false else rest

abbrev pub without_bom : List ℕ → List ℕ
without_bom text = if has_prefix text (0xEF ∷ 0xBB ∷ 0xBF ∷ []) then drop 3 text else text

unfoldable pub skip_blanks : List ℕ → List ℕ
skip_blanks [] = []
skip_blanks (c ∷ text) =
    let rest = skip_blanks text in
    if (c == 32) || (c == 9) || (c == 10) || (c == 13) then rest else c ∷ text

-- The sync word: 0xFF, and a byte whose three high bits are set.
abbrev pub is_sync_word : List ℕ → Bool
is_sync_word (a ∷ b ∷ _) = (a == 0xFF) && leb 0xE0 b
is_sync_word _ = false

abbrev pub starts_xml : List ℕ → Bool
starts_xml [] = false
starts_xml (c ∷ _) = c == b'<'

unfoldable pub detect_file_type : List ℕ → String
unfolding has_prefix skip_blanks is_printable_ascii index_byte bytes_equal
detect_file_type header =
    if ltb (length header) 4
    then "unknown"
    else if has_prefix header (0x50 ∷ 0x4B ∷ 0x03 ∷ 0x04 ∷ [])
    then "zip"
    else if has_prefix header (codes "%PDF")
    then "pdf"
    else if has_prefix header (0xFF ∷ 0xD8 ∷ 0xFF ∷ [])
    then "image"
    else if has_prefix header (0x89 ∷ 0x50 ∷ 0x4E ∷ 0x47 ∷ [])
    then "image"
    else if has_prefix header (0x49 ∷ 0x49 ∷ 0x2A ∷ 0x00 ∷ [])
    then "image"
    else if has_prefix header (0x4D ∷ 0x4D ∷ 0x00 ∷ 0x2A ∷ [])
    then "image"
    else if has_prefix header (codes "ID3")
    then "audio"
    else if is_sync_word header
    then "audio"
    else if leb 12 (length header)
        && has_prefix header (codes "RIFF")
        && bytes_equal (take 4 (drop 8 header)) (codes "WAVE")
    then "audio"
    else if leb 8 (length header) && bytes_equal (take 4 (drop 4 header)) (codes "ftyp")
    then "audio"
    else if starts_xml (skip_blanks (without_bom header))
    then "xml"
    else if is_printable_ascii header && is_some (index_byte header b',')
    then "csv"
    else "unknown"
