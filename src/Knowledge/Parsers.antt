-- ===== src/Knowledge/Parsers.antt =====
-- knowledge/parsers.py: from a file's bytes to plain text.
use atlascore.Base.{
  ℕ, String, Bool, true, false, ◌||◌, Option, none, some, List, [], ◌∷◌, Result, ok, err, Error,
  str_eq, if◌then◌else◌, is_ok, Bool-cases, inl, inr, arith, ◌≡◌, refl, ◌==◌,
}
use Prim.Native.Char.{code}
use atlascore.Platform.{Platform}

-- the flags of `re.compile`
pub data Flag : Type 0 where
  plain multiline dotall : Flag

-- What the parsers take from `bytes`, `str` and `re`.
pub record Texts : Type 0 where
  -- `content.decode("utf-8")`, `none` for the UnicodeDecodeError; latin-1 decodes every byte
  pub utf8 : List ℕ → Option String
  pub latin1 : List ℕ → String
  -- `text.replace(old, new)`
  pub replace : String → String → String → String
  -- `re.compile(pattern, flags).sub(replacement, text)`
  pub sub : String → Flag → String → String → String

unfoldable pub decode : Texts → List ℕ → String
decode tx content = elim (tx.utf8 content) [ none ↦ tx.latin1 content | some t ↦ t ]

module _ (py : Platform) (tx : Texts) where
  -- `PlainTextParser.parse`
  unfoldable pub parse_plain : List ℕ → String
  parse_plain content =
      py.strip
        (tx.replace "\r" "\n" (tx.replace "\r\n" "\n" (tx.replace "\0" "" (decode tx content))))

  -- the substitutions of `MarkdownParser.parse`, in their order
  abbrev pub markdown_rules : List (String × Flag × String)
  markdown_rules =
      ("```.*?```", Flag.dotall, "")
      ∷ ("`[^`\n]+`", Flag.plain, "")
      ∷ ("<[^>]+>", Flag.plain, "")
      ∷ ("^#{1,6}\\s+", Flag.multiline, "")
      ∷ ("\\*{1,3}(.*?)\\*{1,3}", Flag.dotall, "\\1")
      ∷ ("~~(.*?)~~", Flag.dotall, "\\1")
      ∷ ("!\\[([^\\]]*)\\]\\([^\\)]*\\)", Flag.plain, "\\1")
      ∷ ("\\[([^\\]]+)\\]\\([^\\)]*\\)", Flag.plain, "\\1")
      ∷ ("^>\\s+", Flag.multiline, "")
      ∷ ("^[-*_]{3,}\\s*$", Flag.multiline, "")
      ∷ ("^[\\s]*[-*+]\\s+", Flag.multiline, "")
      ∷ ("^[\\s]*\\d+\\.\\s+", Flag.multiline, "")
      ∷ ("\n{3,}", Flag.plain, "\n\n")
      ∷ []

  unfoldable pub substitute : List (String × Flag × String) → String → String
  substitute [] text = text
  substitute ((pattern, flag, replacement) ∷ rules) text =
      substitute rules (tx.sub pattern flag replacement text)

  -- `MarkdownParser.parse`
  unfoldable pub parse_markdown : List ℕ → String
  parse_markdown content =
      py.strip (tx.replace "\0" "" (substitute markdown_rules (decode tx content)))

-- `PARSER_REGISTRY`: the classes by the media types that they support
pub data Parser : Type 0 where
  plain_text_parser markdown_parser : Parser

abbrev pub registry : List (String × Parser)
registry =
    ("text/plain", Parser.plain_text_parser)
    ∷ ("text/markdown", Parser.markdown_parser)
    ∷ ("text/x-markdown", Parser.markdown_parser)
    ∷ []

-- `d.get(key)`
unfoldable pub lookup : String → List (String × Parser) → Option Parser
lookup key [] = none
lookup key ((k, p) ∷ rest) = let later = lookup key rest in if str_eq k key then some p else later

-- `key in d`
unfoldable pub has_key : String → List (String × Parser) → Bool
has_key key [] = false
has_key key ((k, p) ∷ rest) = str_eq k key || has_key key rest

-- `s.split(";")[0]`
unfoldable pub before_semicolon : String → String
before_semicolon String.[] = ""
before_semicolon (String.◌∷◌ c s) =
    let rest = before_semicolon s in if code c == b';' then "" else String.◌∷◌ c rest

abbrev pub base_type : Platform → String → String
base_type py media_type = py.lower (py.strip (before_semicolon media_type))

unfoldable pub get_parser : Platform → String → Result Parser
get_parser py media_type = elim (lookup (base_type py media_type) registry) [
  | none ↦ err Error.unsupported_media_type
  | some p ↦ ok p
]

unfoldable pub is_supported_media_type : Platform → String → Bool
is_supported_media_type py media_type = has_key (base_type py media_type) registry

unfoldable pub run_parser : Platform → Texts → List ℕ → Result Parser → Result String
run_parser py tx content (err e) = err e
run_parser py tx content (ok Parser.plain_text_parser) = ok (parse_plain py tx content)
run_parser py tx content (ok Parser.markdown_parser) = ok (parse_markdown py tx content)

-- `get_parser(media_type).parse(content, media_type).text`
unfoldable pub parse : Platform → Texts → List ℕ → String → Result String
parse py tx content media_type = run_parser py tx content (get_parser py media_type)

run_parser-ok :
    (py : Platform) (tx : Texts) (content : List ℕ) (p : Parser)
    → is_ok (run_parser py tx content (ok p)) ≡ true
unfolding run_parser
run_parser-ok py tx content Parser.plain_text_parser = refl
run_parser-ok py tx content Parser.markdown_parser = refl

get_parser-ok :
    (py : Platform) (media_type : String) (p : Parser)
    → lookup (base_type py media_type) registry ≡ some p
    → get_parser py media_type ≡ ok p
unfolding get_parser
get_parser-ok py media_type p found = rw (found, get_parser) refl

has_key-lookup :
    (key : String) (l : List (String × Parser))
    → has_key key l ≡ true
    → (p : Parser) × (lookup key l ≡ some p)
unfolding has_key lookup
has_key-lookup key [] h = absurd (ground (arith, h))
has_key-lookup key ((k, p) ∷ rest) h = elim (Bool-cases (str_eq k key)) [
  | inl here ↦ (p, rw here refl)
  | inr other ↦ let (q, e) = has_key-lookup key rest (ground (arith, h, other)) in (q, rw other e)
]

-- A file of a supported media type parses, whatever it holds.
pub parse-supported :
    (py : Platform) (tx : Texts) (content : List ℕ) (media_type : String)
    → is_supported_media_type py media_type ≡ true
    → is_ok (parse py tx content media_type) ≡ true
unfolding parse is_supported_media_type
parse-supported py tx content media_type h =
    let (p, found) = has_key-lookup (base_type py media_type) registry h in
    rw (get_parser-ok py media_type p found) (run_parser-ok py tx content p)
