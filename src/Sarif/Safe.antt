-- ===== src/Sarif/Safe.antt =====
-- The parts of the paths that `_LocationResolver` of src/evitriage/sarif/normalizer.py makes of URIs.
use evi_triage_ql.Prelude.{
  ℕ, ◌≡◌, ◌≢◌, refl, sym, subst, ap, ◌∙◌, ◌⊎◌, inl, inr, false, not, ◌||◌, ◌&&◌, Option, none, some,
  List, [], ◌∷◌, ◌++◌, map, arith, any, Bool-cases, Option-cases, In, In-append, map-In,
  any-eq-false, is_empty, Result, ok, err, >>=-eq-ok, raise_if_elim, ◌==◌, nat_eq, string_eq,
}
use evi_triage_ql.ContextBuilder.{Text, text_beq}
use evi_triage_ql.Sarif.{
  SarifError, parent_traversal, unsafe_colon, control_characters, invalid_uri, outside_base,
  UriPath, UriText, slash, backslash, colon, dot, is_control,
}
use evi_triage_ql.Sarif.Uri.{
  slashed, with_slashes, drive_at, windows_drive, strip_slashes, split_path, safe_parts, path_of,
  decoded_path, parse_uri, raw_path, join, after_prefix, relative_parts, same_flavor, same_drive,
  is_letter,
}
use evi_triage_ql.Sarif.PathText.{is_unsafe_component}

-- The characters of a decoded path: no backslash and no control character.
abbrev pub IsClean : Text → Type 0
IsClean text = (c : ℕ) → In c text → (c ≢ backslash) × (is_control c ≡ false)

-- A component of a path.
pub record IsComponent (part : Text) : Type 0 where
  pub is_name : is_unsafe_component part ≡ false
  pub no_slash : (c : ℕ) → In c part → c ≢ slash
  pub no_colon : (c : ℕ) → In c part → c ≢ colon
  pub clean : IsClean part

abbrev pub AreComponents : List Text → Type 0
AreComponents parts = (p : Text) → In p parts → IsComponent p

split_path-In :
    (part text p : Text) (c : ℕ)
    → In p (split_path part text)
    → In c p
    → In c part ⊎ (In c text × (c ≢ slash))
unfolding split_path
split_path-In part [] p c (inl e) m = inl (subst (In c) e m)
split_path-In part [] p c (inr h) m = absurd h
split_path-In part (d ∷ text) p c h m = elim (Bool-cases (d == slash)) [
  | inl q ↦ elim (let k : In p (part ∷ split_path [] text) = rw q at h in k) [
    | inl e ↦ inl (subst (In c) e m)
    | inr k ↦ elim (split_path-In [] text p c k m) [
      | inl x ↦ absurd x
      | inr (x, n) ↦ inr (inr x, n)
    ]
  ]
  | inr q ↦ elim (split_path-In (part ++ d ∷ []) text p c (rw q at h) m) [
    | inr (x, n) ↦ inr (inr x, n)
    | inl x ↦ elim (In-append c part (d ∷ []) x) [
      | inl y ↦ inl y
      | inr (inl e) ↦ inr (inl e, ground arith)
      | inr (inr y) ↦ absurd y
    ]
  ]
]

-- The parts that the loop keeps.
safe_parts-In :
    (rest parts : List Text) (p : Text)
    → safe_parts rest ≡ ok parts
    → In p parts
    → In p rest × (is_unsafe_component p ≡ false) × (any (λ c. c == colon) p ≡ false)
unfolding safe_parts is_unsafe_component
safe_parts-In [] parts p h m = let e : [] ≡ parts = cc h in absurd (subst (In p) (sym e) m)
safe_parts-In (part ∷ rest) parts p h m =
    elim (Bool-cases (is_empty part || text_beq part (dot ∷ []))) [
      | inl q ↦ let (i, n, k) = safe_parts-In rest parts p (rw q at h) m in (inr i, n, k)
      | inr q ↦ elim (Bool-cases (text_beq part (dot ∷ dot ∷ []))) [
        | inl r ↦ absurd (let k : err parent_traversal ≡ ok parts = rw (q, r) at h in cc k)
        | inr r ↦ elim (Bool-cases (any (λ c. c == colon) part)) [
          | inl s ↦ absurd (let k : err unsafe_colon ≡ ok parts = rw (q, r, s) at h in cc k)
          | inr s ↦
              let (later, h1, h2) = >>=-eq-ok (safe_parts rest) _ (rw (q, r, s) at h) in
              let e : part ∷ later ≡ parts = cc h2 in
              elim (subst (In p) (sym e) m) [
                | inl x ↦ (inl x, rw x (ground arith), rw x s)
                | inr x ↦ let (i, n, k) = safe_parts-In rest later p h1 x in (inr i, n, k)
              ]
        ]
      ]
    ]

-- The parts of a clean text.
safe_parts-AreComponents :
    (text : Text) (parts : List Text)
    → IsClean text
    → safe_parts (split_path [] text) ≡ ok parts
    → AreComponents parts
safe_parts-AreComponents text parts clean h p m =
    let (i, n, k) = safe_parts-In (split_path [] text) parts p h m in
    let from = λ (c : ℕ) (x : In c p). source c (split_path-In [] text p c i x) in
    record {
      is_name = n;
      no_slash = λ c x. (from c x).1;
      no_colon = λ c x e. ground (arith, any-eq-false (λ (d : ℕ). d == colon) c p k x);
      clean = λ c x. clean c (from c x).0;
    }
  where
    source : (c : ℕ) → In c [] ⊎ (In c text × (c ≢ slash)) → In c text × (c ≢ slash)
    source c (inl x) = absurd x
    source c (inr x) = x

strip_slashes-In : (c : ℕ) (text : Text) → In c (strip_slashes text) → In c text
unfolding strip_slashes
strip_slashes-In c [] m = m
strip_slashes-In c (d ∷ text) m = elim (Bool-cases (d == slash)) [
  | inl q ↦ inr (strip_slashes-In c text (rw q at m))
  | inr q ↦ rw q at m
]

drive_at-In : (text rest : Text) (l c : ℕ) → drive_at text ≡ some (l, rest) → In c rest → In c text
unfolding drive_at
drive_at-In [] rest l c h m = absurd (cc h)
drive_at-In (a ∷ []) rest l c h m = absurd (cc h)
drive_at-In (a ∷ b ∷ []) rest l c h m = elim (Bool-cases (is_letter a && (b == colon))) [
  | inl q ↦
      let e : some (a, []) ≡ some (l, rest) = rw q at h in
      let same : [] ≡ rest = cc e in absurd (subst (In c) (sym same) m)
  | inr q ↦ absurd (let k : none ≡ some (l, rest) = rw q at h in cc k)
]
drive_at-In (a ∷ b ∷ d ∷ text) rest l c h m = elim (Bool-cases (is_letter a && (b == colon))) [
  | inr q ↦ absurd (let k : none ≡ some (l, rest) = rw q at h in cc k)
  | inl q ↦ elim (Bool-cases (d == slash)) [
    | inl r ↦
        let e : some (a, text) ≡ some (l, rest) = rw (q, r) at h in
        let same : text ≡ rest = cc e in inr (inr (inr (subst (In c) (sym same) m)))
    | inr r ↦ elim (Bool-cases ((d == 10) && is_empty text)) [
      | inl t ↦
          let e : some (a, d ∷ text) ≡ some (l, rest) = rw (q, r, t) at h in
          let same : d ∷ text ≡ rest = cc e in
          let n : In c (d ∷ text) = subst (In c) (sym same) m in inr (inr n)
      | inr t ↦ absurd (let k : none ≡ some (l, rest) = rw (q, r, t) at h in cc k)
    ]
  ]
]

windows_drive-In :
    (text rest : Text) (l c : ℕ) → windows_drive text ≡ some (l, rest) → In c rest → In c text
unfolding windows_drive
windows_drive-In [] rest l c h m = absurd (cc h)
windows_drive-In (d ∷ text) rest l c h m = elim (Bool-cases (d == slash)) [
  | inl q ↦ inr (drive_at-In text rest l c (rw q at h) m)
  | inr q ↦ drive_at-In (d ∷ text) rest l c (rw q at h) m
]

-- The parts of a path that was returned.
ap_parts :
    {path : UriPath} {given : UriPath}
    → ◌≡◌ {A = Result SarifError UriPath} (ok given) (ok path)
    → given.parts ≡ path.parts
ap_parts {path} {given} h = let e : given ≡ path = cc h in ap (λ (u : UriPath). u.parts) e

path_of-AreComponents :
    (decoded : Text) (drive : Option (ℕ × Text)) (path : UriPath)
    → IsClean decoded
    → ((l c : ℕ) (rest : Text) → drive ≡ some (l, rest) → In c rest → In c decoded)
    → path_of decoded drive ≡ ok path
    → AreComponents path.parts
unfolding path_of
path_of-AreComponents decoded (some (l, rest)) path clean inside h =
    let (parts, h1, h2) = >>=-eq-ok (safe_parts (split_path [] rest)) _ h in
    let e : parts ≡ path.parts = ap_parts h2 in
    subst AreComponents e
      (safe_parts-AreComponents rest parts (λ c m. clean c (inside l c rest refl m)) h1)
path_of-AreComponents decoded none path clean inside h =
    let (parts, h1, h2) = >>=-eq-ok (safe_parts (split_path [] (strip_slashes decoded))) _ h in
    let e : parts ≡ path.parts = ap_parts h2 in
    subst AreComponents e (
      safe_parts-AreComponents (strip_slashes decoded) parts
        (λ c m. clean c (strip_slashes-In c decoded m)) h1)

slashed-ne : (c : ℕ) → slashed c ≢ backslash
slashed-ne c = ground arith

with_slashes-IsClean :
    (text : Text) → any is_control (with_slashes text) ≡ false → IsClean (with_slashes text)
unfolding with_slashes
with_slashes-IsClean text h c m =
    let (d, n, e) = map-In slashed c text m in
    (λ q. slashed-ne d (sym e ∙ q), any-eq-false is_control c (map slashed text) h m)

decoded_path-AreComponents :
    (texts : UriText) (unquoted : Option Text) (path : UriPath)
    → decoded_path texts unquoted ≡ ok path
    → AreComponents path.parts
unfolding decoded_path
decoded_path-AreComponents texts none path h = absurd (cc h)
decoded_path-AreComponents texts (some text) path h =
    let decoded = with_slashes text in
    let (clean, h1) = raise_if_elim (any is_control decoded) control_characters _ path h in
    path_of-AreComponents decoded (windows_drive decoded) path (with_slashes-IsClean text clean)
      (λ l c rest q m. windows_drive-In decoded rest l c q m) h1

-- A URI that is parsed has components that are names.
pub parse_uri-AreComponents :
    (texts : UriText) (value : Text) (path : UriPath)
    → parse_uri texts value ≡ ok path
    → AreComponents path.parts
unfolding parse_uri
parse_uri-AreComponents texts value path h =
    let (_, h1) =
      raise_if_elim (is_empty value || texts.has_bad_escape value) invalid_uri _ path h in
    let (raw, _, h2) = >>=-eq-ok (raw_path texts (with_slashes value)) _ h1 in
    decoded_path-AreComponents texts (texts.unquote raw) path h2

AreComponents-append :
    (xs ys : List Text) → AreComponents xs → AreComponents ys → AreComponents (xs ++ ys)
AreComponents-append xs ys h k p m = elim (In-append p xs ys m) [ inl n ↦ h p n | inr n ↦ k p n ]

pub join-AreComponents :
    (base child : UriPath)
    → AreComponents base.parts
    → AreComponents child.parts
    → AreComponents (join base child).parts
unfolding join
join-AreComponents base child h k = elim (Bool-cases child.absolute) [
  | inl q ↦ rw (q, join) k
  | inr q ↦ rw (q, join) (AreComponents-append base.parts child.parts h k)
]

after_prefix-In :
    (prefix parts rest : List Text) (p : Text)
    → after_prefix prefix parts ≡ some rest
    → In p rest
    → In p parts
unfolding after_prefix
after_prefix-In [] parts rest p h m = let e : parts ≡ rest = cc h in subst (In p) (sym e) m
after_prefix-In (a ∷ prefix) [] rest p h m = absurd (cc h)
after_prefix-In (a ∷ prefix) (b ∷ parts) rest p h m = elim (Bool-cases (text_beq b a)) [
  | inl q ↦ inr (after_prefix-In prefix parts rest p (rw q at h) m)
  | inr q ↦ absurd (let k : none ≡ some rest = rw q at h in cc k)
]

pub relative_parts-In :
    (path anchor : UriPath) (rest : List Text) (p : Text)
    → relative_parts path anchor ≡ ok rest
    → In p rest
    → In p path.parts
unfolding relative_parts
relative_parts-In path anchor rest p h m =
    elim (Bool-cases (
      not path.absolute
      || (not anchor.absolute
          || (not (same_flavor path.flavor anchor.flavor)
              || not (same_drive path.drive anchor.drive))))) [
                | inl q ↦ absurd (let k : err outside_base ≡ ok rest = rw q at h in cc k)
                | inr q ↦ elim (Option-cases (after_prefix anchor.parts path.parts)) [
                  | inl r ↦
                      absurd (
                        let k : err outside_base ≡ ok rest = rw (q, r, relative_parts) at h in cc k)
                  | inr (parts, r) ↦
                      let e : ok parts ≡ ok rest = rw (q, r, relative_parts) at h in
                      let same : parts ≡ rest = cc e in
                      after_prefix-In anchor.parts path.parts parts p r (subst (In p) (sym same) m)
                ]
              ]
