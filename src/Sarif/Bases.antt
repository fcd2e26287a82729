-- ===== src/Sarif/Bases.antt =====
-- `_LocationResolver._resolve_base` and `_relative_source_path` of src/evitriage/sarif/normalizer.py.
use evi_triage_ql.Prelude.{
  ℕ, zero, suc, String, Bool, true, false, Option, none, some, List, [], ◌∷◌, ◌++◌, string_eq,
  if◌then◌else◌, is_empty, elem, Dict, lookup, insert, Result, ok, err, raise_if, ◌>>◌, ◌>>=◌,
}
use evi_triage_ql.ContextBuilder.{Text}
use evi_triage_ql.Sarif.{
  SarifError, base_too_deep, cyclic_base, unknown_base, base_has_no_uri, missing_uri,
  windows_without_base, is_source_root, posix, windows, UriPath, BasePath, ArtifactLocation,
  UriText, slash,
}
use evi_triage_ql.Sarif.Uri.{parse_uri, join, relative_parts}

-- `_MAXIMUM_URI_BASE_DEPTH`
abbrev pub maximum_uri_base_depth : ℕ
maximum_uri_base_depth = 64

-- `"/".join(parts)`
unfoldable pub join_path : List Text → Text
join_path [] = []
join_path (p ∷ []) = p
join_path (p ∷ q ∷ parts) = p ++ slash ∷ join_path (q ∷ parts)

-- What the resolver has: the run's bases, the text functions, the case folding of an identifier, the
-- source root as a path, and what the file system says of the components below the root.
pub record Snapshot : Type 0 where
  pub texts : UriText
  pub is_source_root_id : String → Bool
  pub original_uri_base_ids : Dict String ArtifactLocation
  pub source_root : Text
  -- `_reject_snapshot_symlinks` and the check that the resolved path stays below the root
  pub inspect : List Text → Result SarifError (Unit {0})

-- `_base_cache`
abbrev pub BaseCache : Type 0
BaseCache = Dict String BasePath

-- What a call leaves: the cache, and a value or the error.
abbrev pub Cached : Type 0 → Type 0
Cached A = Result SarifError A × BaseCache

module _ (snapshot : Snapshot) where
  abbrev pub relative_root : BasePath
  relative_root = record {
    path = record { flavor = posix; absolute = false; parts = []; drive = none };
    absolute_anchor = none;
  }

  abbrev pub anchor_of : UriPath → Option UriPath
  anchor_of path = if path.absolute then some path else none

  -- A value that is stored under its identifier.
  abbrev pub stored : String → BasePath → BaseCache → Cached BasePath
  stored base_id value cache = (ok value, insert base_id value cache)

  -- A base whose parent has been resolved.
  abbrev pub on_parent : String → UriPath → Cached BasePath → Cached BasePath
  on_parent base_id path (err e, cache) = (err e, cache)
  on_parent base_id path (ok parent, cache) =
      stored base_id
        (record { path = join parent.path path; absolute_anchor = parent.absolute_anchor }) cache

  -- A base that the run does not declare.
  unfoldable pub undeclared : String → BaseCache → Cached BasePath
  unfolding insert
  undeclared base_id cache =
      if snapshot.is_source_root_id base_id
      then stored base_id relative_root cache
      else (err unknown_base, cache)

  -- The URI of a declared base, as a path.
  unfoldable pub base_path : ArtifactLocation → Result SarifError UriPath
  unfolding parse_uri
  base_path location = elim location.uri [
    | none ↦ err base_has_no_uri
    | some uri ↦ parse_uri snapshot.texts uri
  ]

  -- `_resolve_base`; `depth` is how many more bases may be active.
  unfoldable pub resolve_base : ℕ → List String → String → BaseCache → Cached BasePath
  unfolding lookup insert elem undeclared base_path join
  resolve_base zero active base_id cache = (err base_too_deep, cache)
  resolve_base (suc depth) active base_id cache = elim (lookup base_id cache) [
    | some value ↦ (ok value, cache)
    | none ↦ elim (elem base_id active) [
      | true ↦ (err cyclic_base, cache)
      | false ↦ elim (lookup base_id snapshot.original_uri_base_ids) [
        | none ↦ undeclared base_id cache
        | some location ↦ elim (base_path location) [
          | err e ↦ (err e, cache)
          | ok path ↦ elim location.uri_base_id [
            | none ↦ stored base_id (record { path = path; absolute_anchor = anchor_of path }) cache
            | some parent ↦
                on_parent base_id path (resolve_base depth (active ++ base_id ∷ []) parent cache)
          ]
        ]
      ]
    ]
  ]

  -- The parts of an absolute path below its anchor, or below the source root.
  unfoldable pub below_anchor : UriPath → Option UriPath → Result SarifError (List Text)
  unfolding relative_parts parse_uri
  below_anchor child (some anchor) = relative_parts child anchor
  below_anchor child none = elim child.flavor [
    | posix ↦ parse_uri snapshot.texts snapshot.source_root >>= λ root. relative_parts child root
    | windows ↦ err windows_without_base
  ]

  -- The path of a child in its base.
  unfoldable pub path_in : UriPath → Option UriPath → Result SarifError Text
  unfolding below_anchor join_path
  path_in child anchor = do
    parts ← elim child.absolute [ true ↦ below_anchor child anchor | false ↦ ok child.parts ]
    raise_if (is_empty parts) is_source_root
    snapshot.inspect parts
    ok (join_path parts)

  -- A child, in the base that was resolved for it.
  abbrev pub in_base : UriPath → Cached BasePath → Cached Text
  in_base child (err e, cache) = (err e, cache)
  in_base child (ok base, cache) = (path_in (join base.path child) base.absolute_anchor, cache)

  -- The child of a location, which may name a base.
  unfoldable pub child_path : UriPath → Option String → BaseCache → Cached Text
  unfolding resolve_base path_in join
  child_path child none cache = (path_in child none, cache)
  child_path child (some base_id) cache =
      in_base child (resolve_base maximum_uri_base_depth [] base_id cache)

  -- `_relative_source_path`
  unfoldable pub relative_source_path : ArtifactLocation → BaseCache → Cached Text
  unfolding child_path parse_uri
  relative_source_path location cache = elim location.uri [
    | none ↦ (err missing_uri, cache)
    | some uri ↦ elim (parse_uri snapshot.texts uri) [
      | err e ↦ (err e, cache)
      | ok child ↦ child_path child location.uri_base_id cache
    ]
  ]
