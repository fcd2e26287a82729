-- ===== src/Builder.antt =====
-- `build_evidence_registry` of src/evitriage/evidence/registry.py.
--
-- The items and the edges so far are the graph. `show` writes a number, `observe` is
-- `extract_resource_observations` on a slice's text from a line on, `length_of` is the length of a
-- text, and `digest` that of an item's content.
pub mod Walk
pub mod Build
pub mod Sound
pub mod Lookups
pub mod Alert
pub mod Closed
mod Tests
use evi_triage_ql.Prelude.{
  ℕ, ◌+◌, String, Bool, true, false, not, ◌&&◌, Option, none, some, List, [], ◌∷◌, ◌++◌, map, ◌==◌,
  nat_eq, string_eq, leb, Result, ok, err, raise_if, ◌>>◌, ◌>>=◌, if◌then◌else◌, is_empty, Dict,
  lookup, insert, index_by, sorted, to_set,
}
use Prim.Native.String.{◌++◌ as concat}
use evi_triage_ql.Evidence.{
  Sha256, EvidenceId, EvidenceType, supports_tp, neutral, low, medium, high, EvidenceOrigin,
  ColumnKind, SourceLocation, EvidenceContent, EvidenceItem, EvidenceError, self_edge,
}
use evi_triage_ql.Evidence.Registry.{
  ArtifactKind, EvidenceArtifactReference, Relation, EvidenceRelationship, reject_self_edge,
  EvidenceRegistry, validate_closed_registry,
}
use evi_triage_ql.Resource.{QueryFamily, classify_query_family}
use evi_triage_ql.Alerts.{DataFlowPath, PathStep, NormalizedAlert, AlertBundle, pair_eq}
use evi_triage_ql.Manifest.{ArtifactRecord}
use evi_triage_ql.Context.{
  SourceSlice, ContextReference, ContextCandidate, CandidateKind, ContextOmission, Selection,
  ContextOmissionCode, SliceArtifact,
}
use evi_triage_ql.Supplement.{evidence_item, indexes_of}

-- `ResourceObservation` of src/evitriage/evidence/resource.py.
pub record ResourceObservation : Type 0 where
  pub type : EvidenceType
  pub line_number : ℕ
  pub excerpt : String
  pub summary : String

pub record Graph : Type 0 where
  pub items : List EvidenceItem
  pub relationships : List EvidenceRelationship

-- What the builder raises: what pydantic's validators refuse, a path with
-- no step, or a missing key.
pub data BuildError : Type 0 where
  invalid : EvidenceError → BuildError
  no_step key_error : BuildError

abbrev pub Step : Type 0
Step = Graph → Result BuildError Graph

abbrev pub then_step : Step → Step → Step
then_step f g graph = f graph >>= g

-- `items.append(item)`
abbrev pub add_item : EvidenceItem → Step
add_item item graph = ok (record graph { items = graph.items ++ item ∷ [] })

-- `relationships.append(EvidenceRelationship(...))`, with the validator of the edge.
unfoldable pub add_edge : EvidenceId → EvidenceId → Step
add_edge from to graph =
    let edge : EvidenceRelationship = record {
      source_evidence_id = from;
      relation = Relation.depends_on;
      target_evidence_id = to;
    } in
    elim (reject_self_edge edge) [
      | ok _ ↦ ok (record graph { relationships = graph.relationships ++ edge ∷ [] })
      | err e ↦ err (invalid e)
    ]

-- A loop over a list.
unfoldable pub for_each : {A : Type 0} → List A → (A → Step) → Step
for_each [] f graph = ok graph
for_each (x ∷ xs) f graph = f x graph >>= for_each xs f

-- An item, and its edge to an item before it.
abbrev pub add_linked : EvidenceItem → EvidenceId → Step
add_linked item to = then_step (add_item item) (add_edge item.evidence_id to)

abbrev pub covers : String → ℕ → SourceSlice → Bool
covers path line slice =
    (slice.path == path) && (leb slice.start_line line && leb line slice.end_line)

abbrev pub is_legacy : QueryFamily → Bool
is_legacy QueryFamily.legacy_security = true
is_legacy _ = false

abbrev pub candidate_type : CandidateKind → EvidenceType
candidate_type CandidateKind.guard = EvidenceType.guard
candidate_type CandidateKind.sanitizer = EvidenceType.sanitizer

abbrev pub kind_text : CandidateKind → String
kind_text CandidateKind.guard = "guard"
kind_text CandidateKind.sanitizer = "sanitizer"

abbrev pub selection_text : Selection → String
selection_text Selection.fixed_window = "fixed_window"
selection_text Selection.enclosing_function = "enclosing_function"

abbrev pub code_text : ContextOmissionCode → String
code_text ContextOmissionCode.source_file_missing = "source_file_missing"
code_text ContextOmissionCode.resource_context_bound = "resource_context_bound"
code_text ContextOmissionCode.source_not_regular = "source_not_regular"
code_text ContextOmissionCode.source_too_large = "source_too_large"
code_text ContextOmissionCode.binary_source = "binary_source"
code_text ContextOmissionCode.unsupported_encoding = "unsupported_encoding"
code_text ContextOmissionCode.coordinate_out_of_bounds = "coordinate_out_of_bounds"
code_text ContextOmissionCode.source_digest_mismatch = "source_digest_mismatch"
code_text ContextOmissionCode.function_boundary_unresolved = "function_boundary_unresolved"
code_text ContextOmissionCode.token_budget_exceeded = "token_budget_exceeded"

-- The last slice that covers a line, and the first one.
unfoldable pub last_covering :
    String → ℕ → Option SourceSlice → List SourceSlice → Option SourceSlice
last_covering path line found [] = found
last_covering path line found (slice ∷ slices) =
    last_covering path line (if covers path line slice then some slice else found) slices

unfoldable pub first_covering : String → ℕ → List SourceSlice → Option SourceSlice
first_covering path line [] = none
first_covering path line (slice ∷ slices) =
    let rest = first_covering path line slices in
    if covers path line slice then some slice else rest
