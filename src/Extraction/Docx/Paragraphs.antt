-- ===== src/Extraction/Docx/Paragraphs.antt =====
-- The text of a document of paragraphs.
use webhook_mind.Prelude.{
  Bool-cases, List, [], ap, append-nil, append_assoc, false, filter, if◌then◌else◌, inl, inr,
  is_empty, map, none, not, refl, sym, ℕ, ◌++◌, ◌∙◌, ◌∷◌, ◌≡◌,
}
use webhook_mind.Extraction.Docx.{
  DocState, Token, add_line, char_data, end_element, parse_document_xml, read_end, read_token,
  read_tokens, start_element, trim_right,
}

-- A document: its paragraphs, each a list of runs of text.
abbrev pub run_tokens : List ℕ → List Token
run_tokens text =
    start_element "r" ∷ start_element "t" ∷ char_data text ∷ end_element "t" ∷ end_element "r" ∷ []

abbrev pub runs_tokens : List (List ℕ) → List Token
runs_tokens [] = []
runs_tokens (text ∷ runs) = run_tokens text ++ runs_tokens runs

abbrev pub paragraphs_tokens : List (List (List ℕ)) → List Token
paragraphs_tokens [] = []
paragraphs_tokens (runs ∷ paragraphs) =
    (start_element "p" ∷ runs_tokens runs) ++ (end_element "p" ∷ paragraphs_tokens paragraphs)

abbrev pub document_tokens : List (List (List ℕ)) → List Token
document_tokens paragraphs =
    start_element "document"
    ∷ start_element "body"
    ∷ (paragraphs_tokens paragraphs ++ (end_element "body" ∷ end_element "document" ∷ []))

-- The runs of a paragraph, joined.
abbrev pub joined_runs : List (List ℕ) → List ℕ
joined_runs [] = []
joined_runs (text ∷ runs) = text ++ joined_runs runs

-- Lines, joined by line breaks.
abbrev pub joined_lines : List (List ℕ) → List ℕ
joined_lines [] = []
joined_lines (line ∷ []) = line
joined_lines (line ∷ next ∷ lines) = line ++ (10 ∷ joined_lines (next ∷ lines))

-- The lines of a document: the paragraphs that are not blank, without blanks at their end.
abbrev pub lines_of : List (List (List ℕ)) → List (List ℕ)
lines_of paragraphs =
    filter (λ line. not (is_empty line)) (map (λ runs. trim_right (joined_runs runs)) paragraphs)

read_tokens-append :
    (ts us : List Token) (st : DocState)
    → read_tokens (ts ++ us) st ≡ read_tokens us (read_tokens ts st)
unfolding read_tokens
read_tokens-append [] us st = refl
read_tokens-append (t ∷ ts) us st = read_tokens-append ts us (read_token t st)

abbrev reading : List ℕ → List ℕ → DocState
reading out paragraph = record { out = out; paragraph = paragraph; in_text = false }

read_tokens-runs :
    (runs : List (List ℕ)) (out paragraph : List ℕ)
    → read_tokens (runs_tokens runs) (reading out paragraph)
      ≡ reading out (paragraph ++ joined_runs runs)
unfolding read_tokens
read_tokens-runs [] out paragraph = ap (reading out) (sym (append-nil paragraph))
read_tokens-runs (text ∷ runs) out paragraph =
    read_tokens-runs runs out (paragraph ++ text)
    ∙ ap (reading out) (append_assoc paragraph text (joined_runs runs))

-- The lines that follow a text.
abbrev then_lines : List ℕ → List (List ℕ) → List ℕ
then_lines out [] = out
then_lines out (line ∷ lines) =
    if is_empty out then joined_lines (line ∷ lines) else out ++ (10 ∷ joined_lines (line ∷ lines))

then_lines-add_line :
    (out line : List ℕ) (lines : List (List ℕ))
    → is_empty line ≡ false
    → then_lines (add_line out line) lines ≡ then_lines out (line ∷ lines)
then_lines-add_line [] line [] h = rw h refl
then_lines-add_line [] line (u ∷ us) h = rw (h, h) refl
then_lines-add_line (o ∷ os) line [] h = rw h refl
then_lines-add_line (o ∷ os) line (u ∷ us) h =
    rw h (append_assoc (o ∷ os) (10 ∷ line) (10 ∷ joined_lines (u ∷ us)))

then_lines_lem :
    (out line : List ℕ) (lines : List (List ℕ))
    → then_lines (add_line out line) lines
      ≡ then_lines out (if not (is_empty line) then line ∷ lines else lines)
then_lines_lem out line lines = elim (Bool-cases (is_empty line)) [
  | inl blank ↦ rw blank refl
  | inr some_text ↦ then_lines-add_line out line lines some_text ∙ (rw some_text refl)
]

read_tokens-paragraphs :
    (paragraphs : List (List (List ℕ))) (out : List ℕ)
    → read_tokens (paragraphs_tokens paragraphs) (reading out [])
      ≡ reading (then_lines out (lines_of paragraphs)) []
unfolding read_tokens
read_tokens-paragraphs [] out = refl
read_tokens-paragraphs (runs ∷ paragraphs) out =
    read_tokens-append (runs_tokens runs) (end_element "p" ∷ paragraphs_tokens paragraphs)
      (reading out [])
    ∙ ap (read_tokens (end_element "p" ∷ paragraphs_tokens paragraphs))
        (read_tokens-runs runs out [])
    ∙ read_tokens-paragraphs paragraphs (add_line out (trim_right (joined_runs runs)))
    ∙ ap (λ text. reading text [])
        (then_lines_lem out (trim_right (joined_runs runs)) (lines_of paragraphs))

first_lines : (lines : List (List ℕ)) → then_lines [] lines ≡ joined_lines lines
first_lines [] = refl
first_lines (line ∷ lines) = refl

-- The text of a document whose paragraphs are made of runs of text: the paragraphs that are not
-- blank, each without the blanks at its end, joined by line breaks.
pub parse_document_xml_lem :
    (paragraphs : List (List (List ℕ)))
    → parse_document_xml (record { tokens = document_tokens paragraphs; failure = none })
      ≡ inl (joined_lines (lines_of paragraphs))
unfolding parse_document_xml
parse_document_xml_lem paragraphs =
    ap (λ st. read_end st none)
      (read_tokens-append (paragraphs_tokens paragraphs)
          (end_element "body" ∷ end_element "document" ∷ []) (reading [] [])
        ∙ ap (read_tokens (end_element "body" ∷ end_element "document" ∷ []))
            (read_tokens-paragraphs paragraphs []))
    ∙ ap inl (first_lines (lines_of paragraphs))
