-- ===== src/Sarif/Resolved.antt =====
-- What `_relative_source_path` of src/evitriage/sarif/normalizer.py returns.
use evi_triage_ql.Prelude.{
  ℕ, zero, suc, ◌≡◌, refl, subst, ◌⊎◌, inl, inr, String, Bool, true, false, Option, none, some,
  List, [], ◌∷◌, ◌++◌, Bool-cases, Option-cases, is_empty, Result, ok, err, ◌>>=◌, >>=-eq-ok,
  raise_if_elim, >>_elim, ◌==◌, string_eq, elem, lookup, lookup-insert,
}
use evi_triage_ql.ContextBuilder.{Text}
use evi_triage_ql.Sarif.{
  SarifError, Flavor, posix, windows, UriPath, BasePath, ArtifactLocation, base_has_no_uri,
  is_source_root, windows_without_base,
}
use evi_triage_ql.Sarif.Uri.{split_path, parse_uri, join, relative_parts}
use evi_triage_ql.Sarif.PathText.{validate_relative_posix_path}
use evi_triage_ql.Sarif.Bases.{
  join_path, Snapshot, BaseCache, Cached, stored, on_parent, undeclared, base_path, resolve_base,
  below_anchor, path_in, in_base, child_path, relative_source_path, relative_root,
  maximum_uri_base_depth,
}
use evi_triage_ql.Sarif.Safe.{
  IsComponent, AreComponents, parse_uri-AreComponents, join-AreComponents, relative_parts-In,
}
use evi_triage_ql.Sarif.Joined.{split_path-join_path, join_path-IsRelative}

-- A path below the source root: its components are names, it passes the validator of a location's
-- path, and splitting it at the slashes gives its components.
pub record IsInside (path : Text) : Type 0 where
  pub component : Text
  pub components : List Text
  pub joined : path ≡ join_path (component ∷ components)
  pub safe : AreComponents (component ∷ components)
  pub splits : split_path [] path ≡ component ∷ components
  pub valid : validate_relative_posix_path path ≡ ok tt

IsInside-join_path :
    (parts : List Text) → is_empty parts ≡ false → AreComponents parts → IsInside (join_path parts)
IsInside-join_path [] e h = absurd (cc e)
IsInside-join_path (part ∷ parts) e h = record {
  component = part;
  components = parts;
  joined = refl;
  safe = h;
  splits = split_path-join_path part parts (λ p m. (h p m).no_slash);
  valid = join_path-IsRelative part parts h;
}

Result-cases :
    {A : Type 0} (r : Result SarifError A)
    → ((e : SarifError) × (r ≡ err e)) ⊎ ((a : A) × (r ≡ ok a))
Result-cases (err e) = inl (e, refl)
Result-cases (ok a) = inr (a, refl)

module _ (snapshot : Snapshot) where
  -- Every base in the cache has components that are names.
  abbrev pub IsSafeCache : BaseCache → Type 0
  IsSafeCache cache =
      (id : String) (base : BasePath) → lookup id cache ≡ some base → AreComponents base.path.parts

  abbrev IsSafeResult : Cached BasePath → Type 0
  IsSafeResult o =
      ((base : BasePath) → o.0 ≡ ok base → AreComponents base.path.parts) × IsSafeCache o.1

  failed-IsSafe :
      (e : SarifError) (cache : BaseCache) → IsSafeCache cache → IsSafeResult (err e, cache)
  failed-IsSafe e cache h = (λ base q. absurd (cc q), h)

  stored-IsSafe :
      (id : String) (base : BasePath) (cache : BaseCache)
      → AreComponents base.path.parts
      → IsSafeCache cache
      → IsSafeResult (stored snapshot id base cache)
  stored-IsSafe id base cache good h = (
    λ other q.
        let e : base ≡ other = cc q in subst (λ (b : BasePath). AreComponents b.path.parts) e good,
    λ j other q. elim (Bool-cases (id == j)) [
      | inl p ↦
          let k : some base ≡ some other = rw (lookup-insert, p) at q in
          let e : base ≡ other = cc k in subst (λ (b : BasePath). AreComponents b.path.parts) e good
      | inr p ↦ h j other (rw (lookup-insert, p) at q)
    ],
  )

  undeclared-IsSafe :
      (id : String) (cache : BaseCache)
      → IsSafeCache cache
      → IsSafeResult (undeclared snapshot id cache)
  unfolding undeclared
  undeclared-IsSafe id cache h = elim (Bool-cases (snapshot.is_source_root_id id)) [
    | inl q ↦ rw q (stored-IsSafe id (relative_root snapshot) cache (λ p m. absurd m) h)
    | inr q ↦ rw q (failed-IsSafe _ cache h)
  ]

  base_path-AreComponents :
      (location : ArtifactLocation) (path : UriPath)
      → base_path snapshot location ≡ ok path
      → AreComponents path.parts
  unfolding base_path
  base_path-AreComponents location path h = elim (Option-cases location.uri) [
    | inl q ↦ absurd (let k : err base_has_no_uri ≡ ok path = rw (q, base_path) at h in cc k)
    | inr (uri, q) ↦ parse_uri-AreComponents snapshot.texts uri path (rw (q, base_path) at h)
  ]

  on_parent-IsSafe :
      (id : String) (path : UriPath) (o : Cached BasePath)
      → AreComponents path.parts
      → IsSafeResult o
      → IsSafeResult (on_parent snapshot id path o)
  on_parent-IsSafe id path (err e, cache) good h = failed-IsSafe e cache h.1
  on_parent-IsSafe id path (ok parent, cache) good h =
      stored-IsSafe id _ cache (join-AreComponents parent.path path (h.0 parent refl) good) h.1

  resolve_base-IsSafe :
      (depth : ℕ) (active : List String) (id : String) (cache : BaseCache)
      → IsSafeCache cache
      → IsSafeResult (resolve_base snapshot depth active id cache)
  unfolding resolve_base
  resolve_base-IsSafe zero active id cache h = failed-IsSafe _ cache h
  resolve_base-IsSafe (suc depth) active id cache h =
      let parents =
        λ (parent : String). resolve_base-IsSafe depth (active ++ id ∷ []) parent cache h in
      elim (Option-cases (lookup id cache)) [
        | inr (value, q) ↦
            rw (q, resolve_base)
              (
                λ base e.
                    let same : value ≡ base = cc e in
                    subst (λ (b : BasePath). AreComponents b.path.parts) same (h id value q),
                h,
              )
        | inl q ↦ elim (Bool-cases (elem id active)) [
          | inl a ↦ rw (q, a, resolve_base) (failed-IsSafe _ cache h)
          | inr a ↦ elim (Option-cases (lookup id snapshot.original_uri_base_ids)) [
            | inl d ↦ rw (q, a, d, resolve_base) (undeclared-IsSafe id cache h)
            | inr (location, d) ↦ elim (Result-cases (base_path snapshot location)) [
              | inl (e, b) ↦ rw (q, a, d, b, resolve_base) (failed-IsSafe e cache h)
              | inr (path, b) ↦
                  let good = base_path-AreComponents location path b in
                  elim (Option-cases location.uri_base_id) [
                    | inl u ↦ rw (q, a, d, b, u, resolve_base) (stored-IsSafe id _ cache good h)
                    | inr (parent, u) ↦
                        rw (q, a, d, b, u, resolve_base)
                          (on_parent-IsSafe id path _ good (parents parent))
                  ]
            ]
          ]
        ]
      ]

  below_anchor-AreComponents :
      (child : UriPath) (anchor : Option UriPath) (parts : List Text)
      → AreComponents child.parts
      → below_anchor snapshot child anchor ≡ ok parts
      → AreComponents parts
  unfolding below_anchor
  below_anchor-AreComponents child (some anchor) parts good h p m =
      good p (relative_parts-In child anchor parts p h m)
  below_anchor-AreComponents child none parts good h p m = of_flavor child.flavor h
    where
      of_flavor :
          (f : Flavor)
          → (elim f as (λ x. Result SarifError (List Text)) [
            | posix ↦
                parse_uri snapshot.texts snapshot.source_root >>= λ root. relative_parts child root
            | windows ↦ err windows_without_base
          ])
            ≡ ok parts
          → IsComponent p
      of_flavor windows h = absurd (cc h)
      of_flavor posix h =
          let (root, _, k) = >>=-eq-ok (parse_uri snapshot.texts snapshot.source_root) _ h in
          good p (relative_parts-In child root parts p k m)

  path_in-IsInside :
      (child : UriPath) (anchor : Option UriPath) (path : Text)
      → AreComponents child.parts
      → path_in snapshot child anchor ≡ ok path
      → IsInside path
  unfolding path_in
  path_in-IsInside child anchor path good h =
      let (parts, h0, h1) = >>=-eq-ok (chosen child.absolute) _ h in
      let (full, h2) = raise_if_elim (is_empty parts) is_source_root _ path h1 in
      let (_, h3) = >>_elim (snapshot.inspect parts) _ path h2 in
      let e : join_path parts ≡ path = cc h3 in
      subst IsInside e (IsInside-join_path parts full (components child.absolute parts h0))
    where
      chosen : Bool → Result SarifError (List Text)
      chosen b = elim b [ true ↦ below_anchor snapshot child anchor | false ↦ ok child.parts ]

      components : (b : Bool) (parts : List Text) → chosen b ≡ ok parts → AreComponents parts
      components true parts q = below_anchor-AreComponents child anchor parts good q
      components false parts q = let e : child.parts ≡ parts = cc q in subst AreComponents e good

  -- What a call leaves of a safe cache: a path inside the root, if it returned, and a safe cache.
  abbrev pub LeavesInside : Cached Text → Type 0
  LeavesInside o = ((path : Text) → o.0 ≡ ok path → IsInside path) × IsSafeCache o.1

  raised-LeavesInside :
      (e : SarifError) (cache : BaseCache) → IsSafeCache cache → LeavesInside (err e, cache)
  raised-LeavesInside e cache h = (λ path q. absurd (cc q), h)

  in_base-LeavesInside :
      (child : UriPath) (o : Cached BasePath)
      → AreComponents child.parts
      → IsSafeResult o
      → LeavesInside (in_base snapshot child o)
  in_base-LeavesInside child (err e, cache) good h = raised-LeavesInside e cache h.1
  in_base-LeavesInside child (ok base, cache) good h = (
    λ path k.
        path_in-IsInside (join base.path child) base.absolute_anchor path
          (join-AreComponents base.path child (h.0 base refl) good) k,
    h.1,
  )

  child_path-LeavesInside :
      (child : UriPath) (base_id : Option String) (cache : BaseCache)
      → AreComponents child.parts
      → IsSafeCache cache
      → LeavesInside (child_path snapshot child base_id cache)
  unfolding child_path
  child_path-LeavesInside child none cache good h =
      (λ path k. path_in-IsInside child none path good k, h)
  child_path-LeavesInside child (some id) cache good h =
      in_base-LeavesInside child (resolve_base snapshot maximum_uri_base_depth [] id cache) good
        (resolve_base-IsSafe maximum_uri_base_depth [] id cache h)

-- From a cache whose bases have safe components, as the empty one has, a path that is returned for a
-- location is joined from components that are names, splits into them again and passes the
-- validator of a location's path; and the cache that is left is such a cache, also after an error.
pub relative_source_path-LeavesInside :
    (snapshot : Snapshot) (location : ArtifactLocation) (cache : BaseCache)
    → IsSafeCache snapshot cache
    → LeavesInside snapshot (relative_source_path snapshot location cache)
unfolding relative_source_path
relative_source_path-LeavesInside snapshot location cache h = elim (Option-cases location.uri) [
  | inl q ↦ rw (q, relative_source_path) (raised-LeavesInside snapshot _ cache h)
  | inr (uri, q) ↦ elim (Result-cases (parse_uri snapshot.texts uri)) [
    | inl (e, p) ↦ rw (q, p, relative_source_path) (raised-LeavesInside snapshot e cache h)
    | inr (child, p) ↦
        rw (q, p, relative_source_path)
          (child_path-LeavesInside snapshot child location.uri_base_id cache
            (parse_uri-AreComponents snapshot.texts uri child p) h)
  ]
]
