-- ===== src/Answering/Citation.antt =====
-- answering/citation.py: the citation identifiers that a provider returns, resolved to the
-- evidence of the request.
pub mod Sorting
pub mod Provenance
use Prim.Native.String.{◌++◌ as append}
use atlascore.Base.{
  ℕ, zero, suc, ltb, leb, String, Bool, Option, none, some, List, [], ◌∷◌, Result, ok, err, Error,
  str_eq, contains, if◌then◌else◌, not,
}
use atlascore.Platform.{Platform}
use atlascore.Answering.Evidence.{EvidenceItem, EvidencePacket}

-- What the module takes from `re` and from `int`.
pub record Patterns : Type 0 where
  -- `_EVIDENCE_ID_PATTERN.match(raw_id)` finds a match
  pub is_evidence_id : String → Bool
  -- `int(citation_id[1:])`
  pub number : String → ℕ

pub record Citation : Type 0 where
  pub citation_id : String
  pub source_id : ℕ
  pub document_id : ℕ
  pub document_version_id : ℕ
  pub chunk_id : ℕ
  pub source_name : String
  pub document_title : String
  pub version_number : ℕ
  pub chunk_index : ℕ
  pub excerpt : Option String

pub record CitationValidator : Type 0 where
  pub max_excerpt_chars : ℕ

-- `len(s)` and `s[:n]` of a text
unfoldable pub text_length : String → ℕ
text_length String.[] = 0
text_length (String.◌∷◌ c s) = suc (text_length s)

unfoldable pub text_take : ℕ → String → String
text_take zero s = ""
text_take (suc n) String.[] = ""
text_take (suc n) (String.◌∷◌ c s) = String.◌∷◌ c (text_take n s)

-- insertion into citations that are sorted by number, behind those of the same number
unfoldable pub insert_sorted : Patterns → Citation → List Citation → List Citation
insert_sorted re c [] = c ∷ []
insert_sorted re c (d ∷ ds) =
    let rest = insert_sorted re c ds in
    if leb (re.number d.citation_id) (re.number c.citation_id) then d ∷ rest else c ∷ d ∷ ds

-- `citations.sort(key=lambda c: int(c.citation_id[1:]))`
unfoldable pub sort_onto : Patterns → List Citation → List Citation → List Citation
sort_onto re [] sorted = sorted
sort_onto re (c ∷ cs) sorted = sort_onto re cs (insert_sorted re c sorted)

module _ (py : Platform) (self : CitationValidator) where
  unfoldable pub make_excerpt : String → Option String
  make_excerpt content =
      if str_eq content ""
      then none
      else some (
          let s = py.strip (text_take self.max_excerpt_chars content) in
          if ltb self.max_excerpt_chars (text_length content) then append s "…" else s)

-- what the loop does with one identifier and with the citations of the later ones
unfoldable pub add_citation : Bool → Citation → Result (List Citation) → Result (List Citation)
add_citation seen c (err e) = err e
add_citation seen c (ok cs) = ok (if seen then cs else c ∷ cs)

unfoldable pub sorted_result : Patterns → Result (List Citation) → Result (List Citation)
sorted_result re (err e) = err e
sorted_result re (ok cs) = ok (sort_onto re cs [])

module _ {Score : Type 0} where
  -- `evidence_map`: of two items with the same identifier the later one
  unfoldable pub evidence_map : List (EvidenceItem Score) → String → Option (EvidenceItem Score)
  evidence_map [] raw_id = none
  evidence_map (i ∷ is) raw_id = elim (evidence_map is raw_id) [
    | some j ↦ some j
    | none ↦ if str_eq i.evidence_id raw_id then some i else none
  ]

  module _ (py : Platform) (re : Patterns) (self : CitationValidator) where
    unfoldable pub cite : String → EvidenceItem Score → Citation
    cite raw_id item = record {
      citation_id = raw_id;
      source_id = item.source_id;
      document_id = item.document_id;
      document_version_id = item.document_version_id;
      chunk_id = item.chunk_id;
      source_name = item.source_name;
      document_title = item.document_title;
      version_number = item.version_number;
      chunk_index = item.chunk_index;
      excerpt = make_excerpt py self item.content;
    }

    unfoldable pub cite_all :
        List (EvidenceItem Score) → List String → List String → Result (List Citation)
    cite_all items seen [] = ok []
    cite_all items seen (raw_id ∷ ids) =
        let rest = cite_all items (raw_id ∷ seen) ids in
        if not (re.is_evidence_id raw_id)
        then err Error.citation_validation_error
        else elim (evidence_map items raw_id) [
          | none ↦ err Error.citation_validation_error
          | some item ↦ add_citation (contains raw_id seen) (cite raw_id item) rest
        ]

    unfoldable pub validate : List String → EvidencePacket Score → Result (List Citation)
    validate ids packet = sorted_result re (cite_all packet.items [] ids)
