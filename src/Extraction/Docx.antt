-- ===== src/Extraction/Docx.antt =====
-- internal/extraction/docx.go: `ExtractDocxText`, `IsDocxZip`, `ClassifyZip` and `parseDocumentXML`.
-- Text is a list of code points. `zip.NewReader`, which gives the files of an archive in order, and
-- `xml.Decoder`, which gives the tokens of a file, are parameters.
pub mod Paragraphs
use webhook_mind.Prelude.{
  Bool, List, Option, String, [], false, if◌then◌else◌, inl, inr, is_empty, is_some, none, some,
  str_eq, true, ℕ, ◌&&◌, ◌++◌, ◌<>◌, ◌==◌, ◌||◌, ◌∷◌, ◌⊎◌,
}

-- An XML token by what the loop looks at: the local name of an element, or text.
pub data Token : Type 0 where
  start_element : String → Token
  end_element : String → Token
  char_data : List ℕ → Token
  other_token : Token

-- The tokens of a file, and the error that ends them, if they do not end at the end of the file.
pub record Tokens : Type 0 where
  pub tokens : List Token
  pub failure : Option String

-- `strings.TrimRight(s, " \t")`
unfoldable pub trim_right : List ℕ → List ℕ
trim_right [] = []
trim_right (c ∷ s) =
    let rest = trim_right s in if is_empty rest && ((c == 32) || (c == 9)) then [] else c ∷ rest

pub record DocState : Type 0 where
  pub out : List ℕ
  pub paragraph : List ℕ
  pub in_text : Bool

-- A line more, after a line break unless it is the first; an empty one is left out.
abbrev pub add_line : List ℕ → List ℕ → List ℕ
add_line out text = if is_empty text then out else if is_empty out then text else out ++ (10 ∷ text)

-- `flushParagraph`
unfoldable pub flush_paragraph : DocState → DocState
unfolding trim_right
flush_paragraph st = record st { out = add_line st.out (trim_right st.paragraph); paragraph = [] }

-- The `switch` on a token.
unfoldable pub read_token : Token → DocState → DocState
unfolding flush_paragraph
read_token (start_element name) st =
    if str_eq name "t"
    then record st { in_text = true }
    else if str_eq name "tab"
    then record st { paragraph = st.paragraph ++ 9 ∷ [] }
    else if str_eq name "br"
    then record st { paragraph = st.paragraph ++ 10 ∷ [] }
    else st
read_token (end_element name) st =
    if str_eq name "t"
    then record st { in_text = false }
    else if str_eq name "p"
    then flush_paragraph st
    else st
read_token (char_data text) st =
    if st.in_text then record st { paragraph = st.paragraph ++ text } else st
read_token other_token st = st

-- The loop.
unfoldable pub read_tokens : List Token → DocState → DocState
unfolding read_token
read_tokens [] st = st
read_tokens (t ∷ ts) st = read_tokens ts (read_token t st)

abbrev pub read_end : DocState → Option String → List ℕ ⊎ String
read_end st none = inl (flush_paragraph st).out
read_end st (some e) = inr ("parse document.xml: " <> e)

-- `parseDocumentXML`
unfoldable pub parse_document_xml : Tokens → List ℕ ⊎ String
unfolding read_tokens flush_paragraph
parse_document_xml file =
    read_end (read_tokens file.tokens (record { out = []; paragraph = []; in_text = false }))
      file.failure

-- The first file of a name.
unfoldable pub find_file : {A : Type 0} → String → List (String × A) → Option A
find_file wanted [] = none
find_file wanted ((name, file) ∷ files) =
    if str_eq name wanted then some file else find_file wanted files

module _ (open_zip : List ℕ → List (String × (Tokens ⊎ String)) ⊎ String) where
  abbrev pub read_document : Option (Tokens ⊎ String) → List ℕ ⊎ String
  read_document none = inr "not a valid docx: word/document.xml not found"
  read_document (some (inr e)) = inr ("open document.xml: " <> e)
  read_document (some (inl file)) = parse_document_xml file

  abbrev pub extract_opened : List (String × (Tokens ⊎ String)) ⊎ String → List ℕ ⊎ String
  extract_opened (inr e) = inr ("open docx: " <> e)
  extract_opened (inl files) = read_document (find_file "word/document.xml" files)

  -- `ExtractDocxText`
  unfoldable pub extract_docx_text : List ℕ → List ℕ ⊎ String
  unfolding parse_document_xml find_file
  extract_docx_text bytes = extract_opened (open_zip bytes)

  abbrev pub has_document : List (String × (Tokens ⊎ String)) ⊎ String → Bool
  has_document (inr e) = false
  has_document (inl files) = is_some (find_file "word/document.xml" files)

  -- `IsDocxZip`
  unfoldable pub is_docx_zip : List ℕ → Bool
  unfolding find_file
  is_docx_zip bytes = has_document (open_zip bytes)

  -- `ClassifyZip`
  unfoldable pub classify_zip : List ℕ → String
  unfolding is_docx_zip
  classify_zip bytes = if is_docx_zip bytes then "docx" else "unknown"
