-- ===== src/Evidence/Registry/Tests.antt =====
-- A run of the validator of the evidence registry of src/evitriage/domain/evidence.py.
use evi_triage_ql.Prelude.{◌≡◌, refl, ◌↔◌, none, [], ◌∷◌, ok, is_unique, is_subset}
use evi_triage_ql.Evidence.{
  EvidenceType, neutral, low, EvidenceOrigin, EvidenceItem, Claim, ClaimKind, supported, analyst,
}
use evi_triage_ql.Evidence.Registry.{
  EvidenceRegistry, ArtifactKind, Relation, validate_closed_registry, check_items,
  check_relationships, check_claims,
}
use evi_triage_ql.Evidence.Registry.Closure.{IsClosed, validate_closed_registry_iff}

abbrev slice_item : EvidenceItem
slice_item = record {
  evidence_id = 11;
  content = record {
    alert_fingerprint = 40;
    raw_result_reference = record { raw_sarif_sha256 = 7; run_index = 0; result_index = 0 };
    type = EvidenceType.guard;
    polarity = neutral;
    strength = low;
    origin = EvidenceOrigin.repository;
    location = none;
    excerpt = none;
    artifact_sha256 = 5;
    extractor = "slice";
    summary = "a guard";
    path_fingerprint = none;
    source_anchor = none;
  };
}

abbrev guard_item : EvidenceItem
guard_item = record slice_item { evidence_id = 12 }

abbrev guard_claim : Claim
guard_claim = record {
  claim_id = 21;
  content = record {
    kind = ClaimKind.path_feasible;
    statement = "the guard does not hold";
    status = supported;
    evidence_ids = 11 ∷ 12 ∷ [];
    produced_by = analyst;
  };
}

abbrev small_registry : EvidenceRegistry
small_registry = record {
  run_id = "run";
  repository_identity = "repository";
  raw_sarif_sha256 = 7;
  artifacts =
      record { kind = ArtifactKind.slice; relative_path = "slice.json"; artifact_sha256 = 5 } ∷ [];
  items = slice_item ∷ guard_item ∷ [];
  relationships =
      record { source_evidence_id = 11; relation = Relation.supports; target_evidence_id = 12 }
      ∷ [];
  claims = guard_claim ∷ [];
}

validate_closed_registry_iff_example :
    (validate_closed_registry small_registry ≡ ok tt) ↔ IsClosed small_registry
validate_closed_registry_iff_example = validate_closed_registry_iff small_registry

-- The registry is one that the validator accepts.
small_registry-IsClosed : IsClosed small_registry
unfolding validate_closed_registry is_unique check_items check_relationships check_claims is_subset
small_registry-IsClosed = (validate_closed_registry_iff small_registry).0 refl
