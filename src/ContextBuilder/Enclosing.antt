-- ===== src/ContextBuilder/Enclosing.antt =====
-- What `_enclosing_java_function` of src/evitriage/context/builder.py returns.
use evi_triage_ql.Prelude.{
  ℕ, suc, ◌+◌, ◌≤◌, ◌<◌, ◌≡◌, refl, sym, subst, inl, inr, Bool, true, false, ◌&&◌, Option, none,
  some, List, [], ◌∷◌, arith, length, leb, Bool-cases, In, In-append, if◌then◌else◌, ◌==◌, nat_eq,
}
use evi_triage_ql.ContextBuilder.{Text, JavaPatterns, is_control_keyword}
use evi_triage_ql.ContextBuilder.Strip.{strip_java_comments_and_literals}
use evi_triage_ql.ContextBuilder.Blank.{strip-Over}
use evi_triage_ql.ContextBuilder.Lines.{newlines_before, line_number-strip}
use evi_triage_ql.ContextBuilder.Callable.{
  Callable, line_at, is_smaller, smallest, smallest_of, last_name, declared, candidate, candidates,
  enclosing_java_function, spanning, unless_excluded, opening_brace, closing_brace,
}

-- A callable of the text around a line: its last line is that of a character of the text.
pub record Encloses (text : Text) (target_line : ℕ) (f : Callable) : Type 0 where
  pub positive : 0 < f.start_line
  pub starts : f.start_line ≤ target_line
  pub ends : target_line ≤ f.end_line
  pub closing : ℕ
  pub closing_inside : closing < length text
  pub end_line_at : f.end_line ≡ suc (newlines_before closing text)
  pub is_named : is_control_keyword f.symbol ≡ false

line_at_lem :
    (text : Text) (offset : ℕ)
    → line_at (strip_java_comments_and_literals text) offset ≡ suc (newlines_before offset text)
unfolding line_at
line_at_lem text offset = rw (line_number-strip text offset, line_at)

module _ (patterns : JavaPatterns) where
  unless_excluded-named :
      (header symbol : Text) (name : Option Text)
      → unless_excluded patterns header name ≡ some symbol
      → is_control_keyword symbol ≡ false
  unfolding unless_excluded
  unless_excluded-named header symbol none h = absurd (cc h)
  unless_excluded-named header symbol (some name) h = ground (arith, h)

  declared-named :
      (header symbol : Text)
      → declared patterns header ≡ some symbol
      → is_control_keyword symbol ≡ false
  unfolding declared
  declared-named header symbol h = elim (Bool-cases (patterns.is_control_header header)) [
    | inl q ↦ absurd (let k : none ≡ some symbol = rw q at h in cc k)
    | inr q ↦
        unless_excluded-named header symbol (last_name (patterns.header_names header)) (rw q at h)
  ]

module _ (text : Text) (target_line : ℕ) where
  abbrev sanitized : Text
  sanitized = strip_java_comments_and_literals text

  abbrev found : ℕ → ℕ → Text → Callable
  found header_start offset symbol = record {
    start_line = line_at sanitized header_start;
    end_line = line_at sanitized offset;
    symbol = symbol;
  }

  abbrev spans : ℕ → ℕ → Bool
  spans header_start offset =
      leb (line_at sanitized header_start) target_line && leb target_line (line_at sanitized offset)

  spanning-Encloses :
      (header_start offset : ℕ) (name : Option Text) (f : Callable)
      → ((symbol : Text) → name ≡ some symbol → is_control_keyword symbol ≡ false)
      → offset < length text
      → In f (spanning sanitized target_line header_start offset name)
      → Encloses text target_line f
  unfolding spanning
  spanning-Encloses header_start offset none f named inside m = absurd m
  spanning-Encloses header_start offset (some symbol) f named inside m =
      elim (Bool-cases (spans header_start offset)) [
        | inr q ↦ absurd (rw q at m)
        | inl q ↦ elim (let k : In f (found header_start offset symbol ∷ []) = rw q at m in k) [
          | inl e ↦ subst (Encloses text target_line) (sym e) (record {
            positive = omega (arith, line_at_lem text header_start);
            starts = ground arith;
            ends = ground arith;
            closing = offset;
            closing_inside = inside;
            end_line_at = line_at_lem text offset;
            is_named = named symbol refl;
          })
          | inr n ↦ absurd n
        ]
      ]

  module _ (patterns : JavaPatterns) where
    candidates-Encloses :
        (stack : List ℕ) (offset : ℕ) (rest : Text) (f : Callable)
        → offset + length rest ≤ length text
        → In f (candidates patterns sanitized target_line stack offset rest)
        → Encloses text target_line f
    unfolding candidates candidate
    candidates-Encloses stack offset [] f inside m = absurd m
    candidates-Encloses [] offset (c ∷ rest) f inside m =
        candidates-Encloses (if c == opening_brace then offset ∷ [] else []) (offset + 1) rest f
          (omega arith) m
    candidates-Encloses (opening ∷ below) offset (c ∷ rest) f inside m =
        elim (Bool-cases (c == opening_brace)) [
          | inl q ↦
              candidates-Encloses (offset ∷ opening ∷ below) (offset + 1) rest f (omega arith)
                (rw q at m)
          | inr q ↦ elim (Bool-cases (c == closing_brace)) [
            | inr p ↦
                candidates-Encloses (opening ∷ below) (offset + 1) rest f (omega arith)
                  (rw (q, p) at m)
            | inl p ↦
                elim (In-append f (candidate patterns sanitized target_line opening offset) _
                  (rw (q, p) at m)) [
                    | inl n ↦
                        spanning-Encloses _ offset _ f (λ symbol. declared-named patterns _ symbol)
                          (omega arith) n
                    | inr n ↦ candidates-Encloses below (offset + 1) rest f (omega arith) n
                  ]
          ]
        ]

smallest-In : (best : Callable) (fs : List Callable) → In (smallest best fs) (best ∷ fs)
unfolding smallest
smallest-In best [] = inl refl
smallest-In best (f ∷ fs) =
    one_of (is_smaller f best) _ (smallest-In (if is_smaller f best then f else best) fs)
  where
    one_of : (b : Bool) (r : Callable) → In r ((if b then f else best) ∷ fs) → In r (best ∷ f ∷ fs)
    one_of true r m = inr m
    one_of false r (inl e) = inl e
    one_of false r (inr m) = inr (inr m)

smallest_of-In : (fs : List Callable) (f : Callable) → smallest_of fs ≡ some f → In f fs
unfolding smallest_of
smallest_of-In [] f h = absurd (cc h)
smallest_of-In (g ∷ gs) f h =
    let e : smallest g gs ≡ f = cc h in subst (λ z. In z (g ∷ gs)) e (smallest-In g gs)

-- Where the extractor finds a callable around a line, the callable starts at or before the line and
-- ends at or after it, its last line is that of a character of the text, and it is not named by a
-- control keyword.
pub enclosing_java_function-Encloses :
    (patterns : JavaPatterns) (text : Text) (target_line : ℕ) (f : Callable)
    → enclosing_java_function patterns text target_line ≡ some f
    → Encloses text target_line f
unfolding enclosing_java_function
enclosing_java_function-Encloses patterns text target_line f h =
    let (_, same) = strip-Over text in
    candidates-Encloses text target_line patterns [] 0 (strip_java_comments_and_literals text) f
      (omega arith) (smallest_of-In _ f h)
