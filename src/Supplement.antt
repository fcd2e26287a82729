-- ===== src/Supplement.antt =====
-- Evidence from outside CodeQL: `EvidenceSupplementEntry` and `EvidenceSupplement` of
-- src/evitriage/domain/evidence.py, and `merge_evidence_supplement` with `_evidence_item` of
-- src/evitriage/evidence/registry.py.
--
-- What `str.strip` and `ord` say of a text are the parameters `is_trimmed` and `is_printable`; the
-- digest of an item's content is the parameter `digest`.
pub mod Items
pub mod Merge
mod Tests
use evi_triage_ql.Prelude.{
  ℕ, String, Bool, true, false, not, ◌&&◌, Option, none, some, List, [], ◌∷◌, ◌++◌, map, ◌==◌, ◌≡◌,
  ◌↔◌, refl, nat_eq, string_eq, Eq, Result, ok, err, raise_if, or_raise, ◌>>◌, ◌>>=◌, map_result,
  any, Dict, lookup, index_by, nat_beq, nat_beq_iff, arith, ap,
}
use evi_triage_ql.Evidence.{
  Sha256, EvidenceId, EvidenceType, evidence_type_eq, EvidencePolarity, neutral, polarity_eq,
  EvidenceStrength, decisive, strength_eq, EvidenceOrigin, SourceLocation, EvidenceContent,
  EvidenceItem, EvidenceError,
}
use evi_triage_ql.Evidence.Registry.{
  ArtifactKind, EvidenceArtifactReference, EvidenceRegistry, validate_closed_registry,
}
use evi_triage_ql.Alerts.{NormalizedAlert, AlertBundle, pair_eq}
use evi_triage_ql.Manifest.{ArtifactRecord, ArtifactRole}

pub data SupplementKind : Type 0 where
  human test verification : SupplementKind

pub record EvidenceSupplementEntry : Type 0 where
  pub run_index : ℕ
  pub result_index : ℕ
  pub type : EvidenceType
  pub polarity : EvidencePolarity
  pub strength : EvidenceStrength
  pub summary : String

pub record EvidenceSupplement : Type 0 where
  pub project_id : String
  pub repository_identity : String
  pub raw_sarif_sha256 : Sha256
  pub kind : SupplementKind
  pub producer : String
  pub purpose : String
  pub entries : List EvidenceSupplementEntry

pub data SupplementError : Type 0 where
  surrounding_whitespace control_characters decisive_neutral duplicate_entries : SupplementError

module _ (is_trimmed is_printable : String → Bool) where
  -- `EvidenceSupplementEntry.validate_semantic_shape`
  unfoldable pub validate_semantic_shape :
      EvidenceSupplementEntry → Result SupplementError (Unit {0})
  validate_semantic_shape entry = do
    raise_if (not (is_trimmed entry.summary)) surrounding_whitespace
    raise_if (not (is_printable entry.summary)) control_characters
    raise_if ((entry.polarity == neutral) && (entry.strength == decisive)) decisive_neutral

  -- the fields of an entry's identity are all of its fields
  abbrev pub same_entry : EvidenceSupplementEntry → EvidenceSupplementEntry → Bool
  same_entry a b =
      (a.run_index == b.run_index)
      && (a.result_index == b.result_index)
      && (a.type == b.type)
      && (a.polarity == b.polarity)
      && (a.strength == b.strength)
      && (a.summary == b.summary)

  unfoldable pub entries_are_unique : List EvidenceSupplementEntry → Bool
  unfolding any
  entries_are_unique [] = true
  entries_are_unique (entry ∷ entries) =
      not (any (same_entry entry) entries) && entries_are_unique entries

  -- `EvidenceSupplement.validate_supplement`
  unfoldable pub validate_supplement : EvidenceSupplement → Result SupplementError (Unit {0})
  unfolding entries_are_unique
  validate_supplement supplement = do
    raise_if (not (is_trimmed supplement.producer)) surrounding_whitespace
    raise_if (not (is_printable supplement.producer)) control_characters
    raise_if (not (is_trimmed supplement.purpose)) surrounding_whitespace
    raise_if (not (is_printable supplement.purpose)) control_characters
    raise_if (not (entries_are_unique supplement.entries)) duplicate_entries

pub data MergeError : Type 0 where
  other_repository other_sarif wrong_role no_occurrence : MergeError
  invalid_registry : EvidenceError → MergeError

abbrev pub origin_by_kind : SupplementKind → EvidenceOrigin
origin_by_kind human = EvidenceOrigin.human
origin_by_kind test = EvidenceOrigin.test
origin_by_kind verification = EvidenceOrigin.verifier

abbrev pub artifact_kind : SupplementKind → ArtifactKind
artifact_kind human = ArtifactKind.human
artifact_kind test = ArtifactKind.test
artifact_kind verification = ArtifactKind.verification

abbrev pub is_input : ArtifactRole → Bool
is_input ArtifactRole.input = true
is_input _ = false

module _ {Severity Json : Type 0} where
  abbrev pub indexes_of : NormalizedAlert Severity Json → ℕ × ℕ
  indexes_of alert = (alert.raw_result_reference.run_index, alert.raw_result_reference.result_index)

  -- `_evidence_item`
  unfoldable pub evidence_item :
      (EvidenceContent → EvidenceId)
      → NormalizedAlert Severity Json
      → EvidenceType
      → EvidencePolarity
      → EvidenceStrength
      → EvidenceOrigin
      → Option SourceLocation
      → Option String
      → Sha256
      → String
      → String
      → Option Sha256
      → Option String
      → EvidenceItem
  evidence_item digest alert type polarity strength origin location excerpt artifact_sha256
        extractor summary path_fingerprint source_anchor =
      let content : EvidenceContent = record {
        alert_fingerprint = alert.alert_fingerprint;
        raw_result_reference = alert.raw_result_reference;
        type = type;
        polarity = polarity;
        strength = strength;
        origin = origin;
        location = location;
        excerpt = excerpt;
        artifact_sha256 = artifact_sha256;
        extractor = extractor;
        summary = summary;
        path_fingerprint = path_fingerprint;
        source_anchor = source_anchor;
      } in
      record { evidence_id = digest content; content = content }

  module _ (digest : EvidenceContent → EvidenceId) (bundle : AlertBundle Severity Json)
      (supplement : EvidenceSupplement) (supplement_artifact : ArtifactRecord) where
    -- the loop over `supplement.entries`
    unfoldable pub entry_item : EvidenceSupplementEntry → Result MergeError EvidenceItem
    unfolding index_by lookup evidence_item
    entry_item entry = do
      alert ←
          or_raise
            (lookup (entry.run_index, entry.result_index) (index_by indexes_of bundle.alerts))
            no_occurrence
      ok (
          evidence_item digest alert entry.type entry.polarity entry.strength
            (origin_by_kind supplement.kind) none none supplement_artifact.sha256
            "evidence-supplement@1.0" entry.summary none none)

    abbrev pub supplement_reference : EvidenceArtifactReference
    supplement_reference = record {
      kind = artifact_kind supplement.kind;
      relative_path = supplement_artifact.relative_path;
      artifact_sha256 = supplement_artifact.sha256;
    }

    abbrev pub merged : EvidenceRegistry → List EvidenceItem → EvidenceRegistry
    merged registry added = record registry {
      artifacts = registry.artifacts ++ supplement_reference ∷ [];
      items = registry.items ++ added;
    }

    -- The registry with its validator.
    unfoldable pub validated : EvidenceRegistry → Result MergeError EvidenceRegistry
    validated registry = elim (validate_closed_registry registry) [
      | ok _ ↦ ok registry
      | err e ↦ err (invalid_registry e)
    ]

    -- `merge_evidence_supplement`
    unfoldable pub merge_evidence_supplement : EvidenceRegistry → Result MergeError EvidenceRegistry
    unfolding entry_item map_result validated
    merge_evidence_supplement registry = do
      raise_if (not (supplement.repository_identity == registry.repository_identity))
          other_repository
      raise_if (not (supplement.raw_sarif_sha256 == registry.raw_sarif_sha256)) other_sarif
      raise_if (not (is_input supplement_artifact.role)) wrong_role
      added ← map_result entry_item supplement.entries
      validated (merged registry added)
