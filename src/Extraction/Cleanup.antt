-- ===== src/Extraction/Cleanup.antt =====
-- internal/extraction/cleanup.go: `StripCodeFences`.
use webhook_mind.Prelude.{
  Bool, List, Option, [], codes, drop, false, if◌then◌else◌, index, index_byte, is_empty, none,
  some, take, trim_space, ℕ, ◌+◌, ◌==◌, ◌||◌, ◌∷◌,
}

abbrev pub fence : List ℕ
fence = codes "```"

-- All before a position, or all of it.
abbrev pub cut : List ℕ → Option ℕ → List ℕ
cut s none = s
cut s (some i) = take i s

-- What follows the first line.
abbrev pub after_line : List ℕ → Option ℕ → List ℕ
after_line s none = s
after_line s (some i) = drop (i + 1) s

abbrev pub starts_json : List ℕ → Bool
starts_json [] = false
starts_json (c ∷ s) = (c == b'{') || (c == b'[')

-- A text that is JSON from its start, by the position of a fence in it.
abbrev pub first_json : List ℕ → Option ℕ → List ℕ
first_json s none = s
first_json s (some i) = trim_space (take i s)

-- Any other text, by the position of its first fence.
abbrev pub fenced : List ℕ → Option ℕ → List ℕ
fenced s none = s
fenced s (some start) =
    let rest = drop (start + 3) s in
    let block = after_line rest (index_byte rest 10) in trim_space (cut block (index block fence))

unfoldable pub strip_code_fences : List ℕ → List ℕ
unfolding trim_space index index_byte
strip_code_fences text =
    let s = trim_space text in
    if is_empty s
    then s
    else if starts_json s
    then first_json s (index s fence)
    else fenced s (index s fence)
