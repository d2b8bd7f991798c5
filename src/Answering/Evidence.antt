-- ===== src/Answering/Evidence.antt =====
-- answering/evidence.py and answering/sufficiency.py: the evidence packet, and the policy that
-- decides whether a provider may be asked at all. `Score` is the type of floating-point scores,
-- which the policy does not look into; `provenance`, which nothing reads, is left out.
use atlascore.Base.{
  ℕ, ltb, ◌==◌, length, Bool, true, false, ◌&&◌, ◌||◌, String, Option, List, if◌then◌else◌,
}

pub data EvidenceBand : Type 0 where
  high medium low no_evidence : EvidenceBand

pub record EvidenceItem (Score : Type 0) : Type 0 where
  pub evidence_id : String
  pub chunk_id : ℕ
  pub source_id : ℕ
  pub document_id : ℕ
  pub document_version_id : ℕ
  pub chunk_index : ℕ
  pub source_name : String
  pub document_title : String
  pub version_number : ℕ
  pub content : String
  pub lexical_rank : Option ℕ
  pub vector_rank : Option ℕ
  pub hybrid_score : Score
  pub injection_flags : List String

pub record EvidencePacket (Score : Type 0) : Type 0 where
  pub query : String
  pub items : List (EvidenceItem Score)
  pub distinct_sources : ℕ
  pub distinct_documents : ℕ
  pub evidence_band : EvidenceBand
  pub evidence_score_internal : Score
  pub limitations : List String
  pub suspicious_count : ℕ

pub data SufficiencyOutcome : Type 0 where
  answer abstain_no_evidence abstain_weak_evidence provider_failure : SufficiencyOutcome

pub record EvidenceSufficiencyPolicy : Type 0 where
  pub min_items : ℕ
  pub require_medium : Bool

abbrev pub is_no_evidence : EvidenceBand → Bool
is_no_evidence EvidenceBand.no_evidence = true
is_no_evidence band = false

abbrev pub is_low : EvidenceBand → Bool
is_low EvidenceBand.low = true
is_low band = false

unfoldable pub assess :
    {Score : Type 0} → EvidenceSufficiencyPolicy → EvidencePacket Score → SufficiencyOutcome
assess self packet =
    if length packet.items == 0 || is_no_evidence packet.evidence_band
    then SufficiencyOutcome.abstain_no_evidence
    else if ltb (length packet.items) self.min_items
    then SufficiencyOutcome.abstain_no_evidence
    else if is_low packet.evidence_band && self.require_medium
    then SufficiencyOutcome.abstain_weak_evidence
    else SufficiencyOutcome.answer
