-- ===== src/Evidence/Registry.antt =====
-- `EvidenceRegistry` of src/evitriage/domain/evidence.py and its validator.
pub mod Closure
mod Tests
use evi_triage_ql.Prelude.{
  String, not, ◌||◌, List, [], ◌∷◌, map, ◌==◌, nat_eq, Result, ok, raise_if, ◌>>◌, elem, is_subset,
  is_unique,
}
use evi_triage_ql.Evidence.{
  Sha256, EvidenceId, EvidenceItem, Claim, EvidenceError, self_edge, duplicate_artifacts,
  duplicate_evidence, duplicate_claims, unknown_artifact, foreign_sarif, dangling_relationship,
  dangling_claim,
}

pub data ArtifactKind : Type 0 where
  normalized slice build test verification human : ArtifactKind

pub record EvidenceArtifactReference : Type 0 where
  pub kind : ArtifactKind
  pub relative_path : String
  pub artifact_sha256 : Sha256

pub data Relation : Type 0 where
  supports rebuts depends_on unresolved : Relation

pub record EvidenceRelationship : Type 0 where
  pub source_evidence_id : EvidenceId
  pub relation : Relation
  pub target_evidence_id : EvidenceId

-- `EvidenceRelationship.reject_self_edge`
unfoldable pub reject_self_edge : EvidenceRelationship → Result EvidenceError (Unit {0})
reject_self_edge edge = raise_if (edge.source_evidence_id == edge.target_evidence_id) self_edge

pub record EvidenceRegistry : Type 0 where
  pub run_id : String
  pub repository_identity : String
  pub raw_sarif_sha256 : Sha256
  pub artifacts : List EvidenceArtifactReference
  pub items : List EvidenceItem
  pub relationships : List EvidenceRelationship
  pub claims : List Claim

abbrev pub artifact_hash : EvidenceArtifactReference → Sha256
artifact_hash a = a.artifact_sha256

abbrev pub item_id : EvidenceItem → EvidenceId
item_id i = i.evidence_id

abbrev pub claim_id_of : Claim → EvidenceId
claim_id_of c = c.claim_id

-- the loop over `self.items`
pub check_items : List Sha256 → Sha256 → List EvidenceItem → Result EvidenceError (Unit {0})
check_items known sarif [] = ok tt
check_items known sarif (item ∷ items) = do
  raise_if (not (elem item.artifact_sha256 known)) unknown_artifact
  raise_if (not (item.raw_result_reference.raw_sarif_sha256 == sarif)) foreign_sarif
  check_items known sarif items

-- the loop over `self.relationships`
pub check_relationships :
    List EvidenceId → List EvidenceRelationship → Result EvidenceError (Unit {0})
check_relationships known [] = ok tt
check_relationships known (edge ∷ edges) = do
  raise_if (not (elem edge.source_evidence_id known) || not (elem edge.target_evidence_id known))
      dangling_relationship
  check_relationships known edges

-- the loop over `self.claims`
pub check_claims : List EvidenceId → List Claim → Result EvidenceError (Unit {0})
check_claims known [] = ok tt
check_claims known (claim ∷ claims) = do
  raise_if (not (is_subset claim.evidence_ids known)) dangling_claim
  check_claims known claims

-- `EvidenceRegistry.validate_closed_registry`
pub validate_closed_registry : EvidenceRegistry → Result EvidenceError (Unit {0})
validate_closed_registry r = do
  raise_if (not (is_unique (map artifact_hash r.artifacts))) duplicate_artifacts
  raise_if (not (is_unique (map item_id r.items))) duplicate_evidence
  raise_if (not (is_unique (map claim_id_of r.claims))) duplicate_claims
  check_items (map artifact_hash r.artifacts) r.raw_sarif_sha256 r.items
  check_relationships (map item_id r.items) r.relationships
  check_claims (map item_id r.items) r.claims
