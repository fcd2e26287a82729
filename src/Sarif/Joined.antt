-- ===== src/Sarif/Joined.antt =====
-- `"/".join(parts)` and `path.split("/")`, by which src/evitriage/sarif/normalizer.py and the readers of
-- its paths agree.
use evi_triage_ql.Prelude.{
  ℕ, ◌≡◌, ◌≢◌, refl, sym, subst, ap, ◌∙◌, ◌⊎◌, inl, inr, Bool, false, ◌||◌, List, [], ◌∷◌, ◌++◌,
  arith, any, any_elim, Bool-cases, In, In-append, ◌==◌, nat_eq, ok, raise_if_intro, raise_if_ok,
}
use mathlib.Core.List.{append_assoc, append-nil}
use evi_triage_ql.ContextBuilder.{Text, starts_with}
use evi_triage_ql.Sarif.{slash, backslash, is_control}
use evi_triage_ql.Sarif.Uri.{split_path}
use evi_triage_ql.Sarif.Bases.{join_path}
use evi_triage_ql.Sarif.PathText.{
  is_unsafe_component, validate_relative_posix_path, not_relative, unsafe_component,
  control_character,
}
use evi_triage_ql.Sarif.Safe.{AreComponents}

abbrev Unslashed : Text → Type 0
Unslashed p = (c : ℕ) → In c p → c ≢ slash

slash_test : (d : ℕ) → d ≢ slash → (d == slash) ≡ false
slash_test d h = ground arith

-- A part before the end, and before a slash.
split_path-last : (part p : Text) → Unslashed p → split_path part p ≡ (part ++ p) ∷ []
unfolding split_path
split_path-last part [] h = rw append-nil
split_path-last part (d ∷ p) h = rw (slash_test d (h d (inl refl))) (
    split_path-last (part ++ d ∷ []) p (λ c m. h c (inr m))
    ∙ ap (λ x. x ∷ []) (append_assoc part (d ∷ []) p))

split_path-part :
    (part p rest : Text)
    → Unslashed p
    → split_path part (p ++ slash ∷ rest) ≡ (part ++ p) ∷ split_path [] rest
unfolding split_path
split_path-part part [] rest h = rw append-nil
split_path-part part (d ∷ p) rest h = rw (slash_test d (h d (inl refl))) (
    split_path-part (part ++ d ∷ []) p rest (λ c m. h c (inr m))
    ∙ ap (λ x. x ∷ split_path [] rest) (append_assoc part (d ∷ []) p))

-- Splitting a path gives back the parts that it was joined from, where there is a part and no part
-- has a slash.
pub split_path-join_path :
    (part : Text) (parts : List Text)
    → ((p : Text) → In p (part ∷ parts) → (c : ℕ) → In c p → c ≢ slash)
    → split_path [] (join_path (part ∷ parts)) ≡ part ∷ parts
unfolding join_path
split_path-join_path part [] h = split_path-last [] part (h part (inl refl))
split_path-join_path part (q ∷ parts) h =
    split_path-part [] part (join_path (q ∷ parts)) (h part (inl refl))
    ∙ ap (λ ps. part ∷ ps) (split_path-join_path q parts (λ p m. h p (inr m)))

-- The characters of a joined path.
join_path-In :
    (parts : List Text) (c : ℕ)
    → In c (join_path parts)
    → (c ≡ slash) ⊎ ((p : Text) × In p parts × In c p)
unfolding join_path
join_path-In [] c m = absurd m
join_path-In (p ∷ []) c m = inr (p, inl refl, m)
join_path-In (p ∷ q ∷ parts) c m = elim (In-append c p (slash ∷ join_path (q ∷ parts)) m) [
  | inl n ↦ inr (p, inl refl, n)
  | inr (inl e) ↦ inl e
  | inr (inr n) ↦ elim (join_path-In (q ∷ parts) c n) [
    | inl e ↦ inl e
    | inr (r, k, i) ↦ inr (r, inr k, i)
  ]
]

none_of : (p : ℕ → Bool) (text : Text) → ((c : ℕ) → In c text → p c ≡ false) → any p text ≡ false
none_of p text h = elim (Bool-cases (any p text)) [
  | inr q ↦ q
  | inl q ↦ let (c, m, t) = any_elim p text q in absurd (let k = h c m in cc (k, t))
]

none_of_parts :
    (f : Text → Bool) (parts : List Text)
    → ((p : Text) → In p parts → f p ≡ false)
    → any f parts ≡ false
none_of_parts f parts h = elim (Bool-cases (any f parts)) [
  | inr q ↦ q
  | inl q ↦ let (p, m, t) = any_elim f parts q in absurd (let k = h p m in cc (k, t))
]

-- What a joined path starts with.
head_of :
    (part : Text) (parts : List Text) (c : ℕ)
    → is_unsafe_component part ≡ false
    → ((d : ℕ) → In d part → d ≢ c)
    → starts_with (c ∷ []) (join_path (part ∷ parts)) ≡ false
unfolding starts_with join_path is_unsafe_component
head_of [] parts c n h = absurd (cc n)
head_of (d ∷ part) [] c n h = let k = h d (inl refl) in ground arith
head_of (d ∷ part) (q ∷ parts) c n h = let k = h d (inl refl) in ground arith

module _ (part : Text) (parts : List Text) (h : AreComponents (part ∷ parts)) where
  abbrev path : Text
  path = join_path (part ∷ parts)

  no_backslash : (c : ℕ) → In c path → (c == backslash) ≡ false
  no_backslash c m = elim (join_path-In (part ∷ parts) c m) [
    | inl e ↦ rw e refl
    | inr (p, n, i) ↦ let k = ((h p n).clean c i).0 in ground arith
  ]

  no_control : (c : ℕ) → In c path → is_control c ≡ false
  no_control c m = elim (join_path-In (part ∷ parts) c m) [
    | inl e ↦ rw e refl
    | inr (p, n, i) ↦ ((h p n).clean c i).1
  ]

  same_parts : split_path [] path ≡ part ∷ parts
  same_parts = split_path-join_path part parts (λ p m. (h p m).no_slash)

  -- A path that is joined from components is a relative path.
  pub join_path-IsRelative : validate_relative_posix_path path ≡ ok tt
  unfolding validate_relative_posix_path
  join_path-IsRelative =
      let first = h part (inl refl) in
      let no_slash = head_of part parts slash first.is_name first.no_slash in
      let no_back = head_of part parts backslash first.is_name (λ c m. (first.clean c m).0) in
      let nowhere = none_of (λ c. c == backslash) path no_backslash in
      raise_if_intro
        (starts_with (slash ∷ []) path
          || (starts_with (backslash ∷ []) path || any (λ c. c == backslash) path))
        not_relative _ tt (rw (no_slash, no_back) nowhere)
        (raise_if_intro (any is_unsafe_component (split_path [] path)) unsafe_component _ tt
          (subst (λ ps. any is_unsafe_component ps ≡ false) (sym same_parts)
            (none_of_parts is_unsafe_component (part ∷ parts) (λ p m. (h p m).is_name)))
          (raise_if_ok (any is_control path) control_character
            (none_of is_control path no_control)))
