-- ===== src/Tests/AnswerRuns.antt =====
-- Runs of backend/app/answering.
use atlascore.Base.{ℕ, ◌≡◌, refl, true, none, some, [], ◌∷◌, String, err, Error}
use atlascore.Answering.Evidence.{EvidenceItem, EvidencePacket, EvidenceBand}
use atlascore.Answering.Citation.{Patterns, CitationValidator, evidence_map, validate}
use atlascore.Answering.Citation.Provenance.{
  IsResolved, Cites, validate-IsResolved, validate-unknown, validate-known,
}
use atlascore.Tests.Examples.{plain, tally}

abbrev patterns : Patterns
patterns = record { is_evidence_id = λ s. true; number = tally }

abbrev validator : CitationValidator
validator = record { max_excerpt_chars = 200 }

abbrev evidence : String → EvidenceItem ℕ
evidence id = record {
  evidence_id = id;
  chunk_id = 1;
  source_id = 2;
  document_id = 3;
  document_version_id = 4;
  chunk_index = 0;
  source_name = "handbook";
  document_title = "leave";
  version_number = 1;
  content = "text";
  lexical_rank = some 1;
  vector_rank = none;
  hybrid_score = 16;
  injection_flags = [];
}

abbrev packet : EvidencePacket ℕ
packet = record {
  query = "q";
  items = evidence "E" ∷ evidence "EE" ∷ [];
  distinct_sources = 1;
  distinct_documents = 1;
  evidence_band = EvidenceBand.medium;
  evidence_score_internal = 50;
  limitations = [];
  suspicious_count = 0;
}

resolved_example :
    IsResolved plain patterns validator packet.items
      ("EE" ∷ "E" ∷ "EE" ∷ [])
      (validate plain patterns validator ("EE" ∷ "E" ∷ "EE" ∷ []) packet)
resolved_example = validate-IsResolved plain patterns validator ("EE" ∷ "E" ∷ "EE" ∷ []) packet

unknown_example :
    validate plain patterns validator ("E" ∷ "X" ∷ []) packet ≡ err Error.citation_validation_error
unfolding evidence_map
unknown_example = validate-unknown plain patterns validator ("E" ∷ "X" ∷ []) packet "X" refl refl

known_example : Cites ("EE" ∷ "E" ∷ []) (validate plain patterns validator ("EE" ∷ "E" ∷ []) packet)
unfolding evidence_map
known_example =
    validate-known plain patterns validator ("EE" ∷ "E" ∷ []) packet
      ((refl, refl), ((refl, refl), tt))
