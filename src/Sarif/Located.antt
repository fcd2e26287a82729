-- ===== src/Sarif/Located.antt =====
-- `_LocationResolver.source_location` of src/evitriage/sarif/normalizer.py, with the artifact that it
-- names and the digest of its file.
use evi_triage_ql.Prelude.{
  ℕ, String, Bool, Option, none, some, List, [], ◌∷◌, ◌==◌, nat_eq, string_eq, if◌then◌else◌,
  get_elem?, Dict, lookup, insert, Result, ok, err,
}
use evi_triage_ql.Evidence.{Sha256, SourceLocation, ColumnKind}
use evi_triage_ql.Alerts.{validate_region_order}
use evi_triage_ql.ContextBuilder.{Text}
use evi_triage_ql.Sarif.{
  SarifError, no_physical_location, no_artifact_location, no_start_line, no_column_kind,
  index_out_of_range, no_uri_or_index, invalid_region, digest_mismatch, traverses_link,
  cannot_inspect, not_a_regular_file, cannot_hash, ArtifactLocation,
}
use evi_triage_ql.Sarif.Bases.{Snapshot, BaseCache, relative_source_path}
use evi_triage_ql.Sarif.Raw.{Message, Artifact, Region, PhysicalLocation, Location}

-- What looking at a source file ends with.
pub data Looked : Type 0 where
  crosses_link missing unreadable irregular broken : Looked
  hashed : Sha256 → Looked

-- What the resolver takes from outside: the file system with a state of its own, the readings of an
-- artifact's hashes, and the text of code points.
pub record Sources (S : Type 0) : Type 0 where
  pub look : Text → S → Looked × S
  -- the key names SHA-256, and the value as a digest
  pub is_digest_key : String → Bool
  pub as_digest : String → Option Sha256
  pub text_of : Text → String

-- The two caches of a resolver and the state of the file system.
pub record Resolver (S : Type 0) : Type 0 where
  pub bases : BaseCache
  pub hashes : Dict String (Option Sha256)
  pub system : S

-- A call: the value or the error, and what it leaves.
abbrev pub Resolving : Type 0 → Type 0 → Type 0
Resolving S A = Resolver S → Result SarifError A × Resolver S

abbrev pub go_on :
    {S A B : Type 0}
    → Result SarifError A × Resolver S
    → (A → Resolving S B)
    → Result SarifError B × Resolver S
go_on (ok a, r) f = f a r
go_on (err e, r) f = (err e, r)

infixl 5 ◌>>=◌
abbrev pub ◌>>=◌ : {S A B : Type 0} → Resolving S A → (A → Resolving S B) → Resolving S B
◌>>=◌ m f r = go_on (m r) f

abbrev pub return : {S A : Type 0} → A → Resolving S A
return a r = (ok a, r)

abbrev pub raise : {S A : Type 0} → SarifError → Resolving S A
raise e r = (err e, r)

abbrev pub or_raise : {S A : Type 0} → Option A → SarifError → Resolving S A
or_raise none e = raise e
or_raise (some a) e = return a

abbrev pub lift : {S A : Type 0} → Result SarifError A → Resolving S A
lift (ok a) = return a
lift (err e) = raise e

-- `tuple(f(x) for x in xs)`
unfoldable pub each : {S A B : Type 0} → (A → Resolving S B) → List A → Resolving S (List B)
each f [] = return []
each f (x ∷ xs) = do b ← f x; bs ← each f xs; return (b ∷ bs)

-- `a or b`, of two texts: an empty one counts as absent.
abbrev pub or_text : Option String → Option String → Option String
or_text none b = b
or_text (some a) b = if a == "" then b else some a

-- `_message_text`
unfoldable pub message_text : Option Message → Option String
message_text none = none
message_text (some m) = elim m.text [ some text ↦ some text | none ↦ m.markdown ]

module _ {S : Type 0} (sources : Sources S) (snapshot : Snapshot) (artifacts : List Artifact)
    (column_kind : Option ColumnKind) where
  -- `_asserted_artifact_sha256`, of the hashes
  unfoldable pub asserted_digest : Dict String String → Option Sha256
  asserted_digest [] = none
  asserted_digest ((key, value) ∷ hashes) =
      let later = asserted_digest hashes in
      if sources.is_digest_key key
      then elim (sources.as_digest value) [ some d ↦ some d | none ↦ later ]
      else later

  -- What looking at the file says of its digest.
  unfoldable pub observed_digest : Looked → Result SarifError (Option Sha256)
  observed_digest crosses_link = err traverses_link
  observed_digest missing = ok none
  observed_digest unreadable = err cannot_inspect
  observed_digest irregular = err not_a_regular_file
  observed_digest broken = err cannot_hash
  observed_digest (hashed d) = ok (some d)

  -- The digest that is asserted must be the one that is observed.
  unfoldable pub agreed : Option Sha256 → Option Sha256 → Result SarifError (Option Sha256)
  agreed (some asserted) (some observed) =
      if asserted == observed then ok (some observed) else err digest_mismatch
  agreed _ observed = ok observed

  abbrev asserted_of : Option Artifact → Option Sha256
  asserted_of none = none
  asserted_of (some artifact) = asserted_digest artifact.hashes

  -- A digest that was looked up, which the cache keeps.
  unfoldable pub remember : String → Result SarifError (Option Sha256) → Resolving S (Option Sha256)
  unfolding insert
  remember path (err e) r = (err e, r)
  remember path (ok observed) r = (ok observed, record r { hashes = insert path observed r.hashes })

  unfoldable pub file_digest : Text → Resolving S (Option Sha256)
  unfolding lookup observed_digest remember
  file_digest path r = elim (lookup (sources.text_of path) r.hashes) [
    | some observed ↦ (ok observed, r)
    | none ↦
        let (looked, system) = sources.look path r.system in
        remember (sources.text_of path) (observed_digest looked) (record r { system = system })
  ]

  -- `_verified_artifact_sha256`
  unfoldable pub verified_artifact_sha256 : Text → Option Artifact → Resolving S (Option Sha256)
  unfolding file_digest asserted_digest agreed
  verified_artifact_sha256 path artifact = do
    observed ← file_digest path
    lift (agreed (asserted_of artifact) observed)

  abbrev or_option : {A : Type 0} → Option A → Option A → Option A
  or_option none b = b
  or_option (some a) b = some a

  -- The location that an artifact of the run has, for one that has no URI.
  unfoldable pub location_of_artifact :
      ArtifactLocation → Option Artifact → Result SarifError (ArtifactLocation × Option Artifact)
  location_of_artifact location none = err no_uri_or_index
  location_of_artifact location (some artifact) = elim artifact.location [
    | none ↦ err no_uri_or_index
    | some given ↦ elim given.uri [
      | none ↦ err no_uri_or_index
      | some uri ↦ ok (
        record {
          uri = some uri;
          uri_base_id = or_text location.uri_base_id given.uri_base_id;
          index = none;
        },
        some artifact,
      )
    ]
  ]

  -- `_artifact_location`, with the artifact that the index names
  unfoldable pub with_artifact :
      ArtifactLocation → Option Artifact → Result SarifError (ArtifactLocation × Option Artifact)
  unfolding location_of_artifact
  with_artifact location artifact = elim location.uri [
    | some uri ↦ ok (location, artifact)
    | none ↦ location_of_artifact location artifact
  ]

  unfoldable pub artifact_location :
      ArtifactLocation → Result SarifError (ArtifactLocation × Option Artifact)
  unfolding with_artifact
  artifact_location location = elim location.index [
    | none ↦ with_artifact location none
    | some index ↦ elim (get_elem? artifacts index) [
      | none ↦ err index_out_of_range
      | some artifact ↦ with_artifact location (some artifact)
    ]
  ]

  -- The cache of the bases goes with the resolver.
  unfoldable pub source_path : ArtifactLocation → Resolving S Text
  unfolding relative_source_path
  source_path location r =
      let (path, bases) = relative_source_path snapshot location r.bases in
      (path, record r { bases = bases })

  -- The location that has a physical one: itself, or the related one that it names.
  unfoldable pub physical_of : Dict ℕ Location → Location → Result SarifError PhysicalLocation
  unfolding lookup
  physical_of related location = elim location.physical_location [
    | some physical ↦ ok physical
    | none ↦ elim location.id [
      | none ↦ err no_physical_location
      | some id ↦ elim (lookup id related) [
        | none ↦ err no_physical_location
        | some other ↦ elim other.physical_location [
          | none ↦ err no_artifact_location
          | some physical ↦ ok physical
        ]
      ]
    ]
  ]

  abbrev start_column_of : Option ℕ → ℕ
  start_column_of none = 1
  start_column_of (some column) = column

  -- `endLine` defaults to `startLine` where there is an `endColumn`.
  unfoldable pub end_line_of : ℕ → Option ℕ → Option ℕ → Option ℕ
  end_line_of start_line none (some column) = some start_line
  end_line_of start_line none none = none
  end_line_of start_line (some line) column = some line

  abbrev snippet_of : Region → Option Region → Option Message
  snippet_of region none = region.snippet
  snippet_of region (some context) = or_option region.snippet context.snippet

  -- The record is refused if its region is not in order.
  unfoldable pub checked_location : SourceLocation → Result SarifError SourceLocation
  unfolding validate_region_order
  checked_location location = elim (validate_region_order location) [
    | ok _ ↦ ok location
    | err e ↦ err invalid_region
  ]

  -- `source_location`
  unfoldable pub source_location : Dict ℕ Location → Location → Resolving S SourceLocation
  unfolding physical_of artifact_location source_path verified_artifact_sha256 checked_location
      end_line_of message_text
  source_location related location = do
    physical ← lift (physical_of related location)
    given ← or_raise physical.artifact_location no_artifact_location
    region ← or_raise physical.region no_start_line
    start_line ← or_raise region.start_line no_start_line
    found ← lift (artifact_location given)
    path ← source_path found.0
    digest ← verified_artifact_sha256 path found.1
    kind ← or_raise column_kind no_column_kind
    lift (
        checked_location (record {
          path = sources.text_of path;
          column_kind = kind;
          start_line = start_line;
          start_column = start_column_of region.start_column;
          end_line = end_line_of start_line region.end_line region.end_column;
          end_column = region.end_column;
          artifact_sha256 = digest;
          snippet = message_text (snippet_of region physical.context_region);
        }))
