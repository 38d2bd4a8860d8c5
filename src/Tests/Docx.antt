-- ===== src/Tests/Docx.antt =====
-- The text of small documents.
use webhook_mind.Prelude.{List, String, [], codes, inl, inr, none, refl, ℕ, ◌++◌, ◌∷◌, ◌≡◌, ◌⊎◌}
use webhook_mind.Extraction.Docx.{
  Tokens, char_data, classify_zip, extract_docx_text, parse_document_xml, start_element, trim_right,
}
use webhook_mind.Extraction.Docx.Paragraphs.{
  document_tokens, joined_lines, lines_of, parse_document_xml_lem,
}

-- Two paragraphs with text, the first in two runs, and a blank one between them.
abbrev letter : List (List (List ℕ))
letter = (codes "Total" ∷ codes ": 5 " ∷ []) ∷ (codes " " ∷ []) ∷ (codes "Thanks" ∷ []) ∷ []

lines_test : joined_lines (lines_of letter) ≡ codes "Total: 5" ++ (10 ∷ codes "Thanks")
unfolding trim_right
lines_test = refl

parse_document_xml_lem_example :
    parse_document_xml (record { tokens = document_tokens letter; failure = none })
    ≡ inl (joined_lines (lines_of letter))
parse_document_xml_lem_example = parse_document_xml_lem letter

abbrev archive : List ℕ → List (String × (Tokens ⊎ String)) ⊎ String
archive [] = inr "zip: not a valid zip file"
archive (b ∷ bytes) = inl (
    ("[Content_Types].xml", inr "encrypted")
    ∷ (
      "word/document.xml",
      inl (record {
        tokens = start_element "t" ∷ char_data (codes "a") ∷ start_element "tab" ∷ [];
        failure = none;
      }),
    )
    ∷ [])

archive_tests :
    (classify_zip archive [] ≡ "unknown")
    × (classify_zip archive (80 ∷ []) ≡ "docx")
    × (extract_docx_text archive (80 ∷ []) ≡ inl (codes "a"))
unfolding classify_zip extract_docx_text
archive_tests = (refl, refl, refl)
