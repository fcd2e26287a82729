-- ===== src/ContextBuilder/Lines.antt =====
-- The line numbers of offsets in src/evitriage/context/builder.py: `line_starts` and the binary search
-- `line_number`, which `_enclosing_java_function` and `_resource_same_file_callees` both have.
use evi_triage_ql.Prelude.{
  ℕ, zero, suc, ◌+◌, ◌-◌, ◌/◌, ◌≤◌, ◌<◌, ◌≡◌, refl, ap, ◌∙◌, subst, inl, inr, true, false, Option,
  none, some, List, [], ◌∷◌, arith, length, get_elem?, ltb, leb, ◌==◌, nat_eq, if◌then◌else◌,
  Bool-cases,
}
use evi_triage_ql.ContextBuilder.{Text, newline}
use evi_triage_ql.ContextBuilder.Strip.{strip_java_comments_and_literals}
use evi_triage_ql.ContextBuilder.Blank.{Over, strip-Over}

-- The ends of the newlines, counted from an offset on.
unfoldable pub newline_ends : ℕ → Text → List ℕ
newline_ends k [] = []
newline_ends k (c ∷ rest) =
    let ends = newline_ends (k + 1) rest in if c == newline then (k + 1) ∷ ends else ends

unfoldable pub line_starts : Text → List ℕ
unfolding newline_ends
line_starts text = 0 ∷ newline_ends 0 text

-- `while low < high`, with fuel; `none` also stands for an index out of range.
unfoldable pub bisect : ℕ → List ℕ → ℕ → ℕ → ℕ → Option ℕ
bisect zero starts offset low high = none
bisect (suc fuel) starts offset low high = elim (ltb low high) [
  | false ↦ some low
  | true ↦ elim (get_elem? starts ((low + high) / 2)) [
    | none ↦ none
    | some start ↦ elim (leb start offset) [
      | true ↦ bisect fuel starts offset ((low + high) / 2 + 1) high
      | false ↦ bisect fuel starts offset low ((low + high) / 2)
    ]
  ]
]

unfoldable pub line_number : Text → ℕ → Option ℕ
unfolding line_starts bisect
line_number text offset =
    let starts = line_starts text in bisect (suc (length starts)) starts offset 0 (length starts)

-- How many newlines stand before an offset.
unfoldable pub newlines_before : ℕ → Text → ℕ
newlines_before zero text = 0
newlines_before (suc k) [] = 0
newlines_before (suc k) (c ∷ rest) =
    let later = newlines_before k rest in if c == newline then suc later else later

-- The numbers of the list up to `offset` are the first `rank` ones.
record Ranks (starts : List ℕ) (offset rank : ℕ) : Type 0 where
  within : rank ≤ length starts
  below : (i v : ℕ) → get_elem? starts i ≡ some v → i < rank → v ≤ offset
  above : (i v : ℕ) → get_elem? starts i ≡ some v → rank ≤ i → offset < v

get_elem?-some : (xs : List ℕ) (i : ℕ) → i < length xs → (v : ℕ) × (get_elem? xs i ≡ some v)
get_elem?-some [] i h = absurd (omega arith)
get_elem?-some (x ∷ xs) zero h = (x, refl)
get_elem?-some (x ∷ xs) (suc i) h = get_elem?-some xs i (omega arith)

bisect_lem :
    (fuel : ℕ) (starts : List ℕ) (offset rank low high : ℕ)
    → Ranks starts offset rank
    → high - low < fuel
    → low ≤ rank
    → rank ≤ high
    → high ≤ length starts
    → bisect fuel starts offset low high ≡ some rank
unfolding bisect
bisect_lem zero starts offset rank low high r f l h n = absurd (omega arith)
bisect_lem (suc fuel) starts offset rank low high r f l h n = elim (Bool-cases (ltb low high)) [
  | inr q ↦ rw (q, bisect) (let e : low ≡ rank = ground arith in ap some e)
  | inl q ↦
      let lt : low < high = ground arith in
      let middle : ℕ = (low + high) / 2 in
      let (v, at) = get_elem?-some starts middle (omega arith) in
      elim (Bool-cases (leb v offset)) [
        | inl s ↦
            rw (q, at, s, bisect)
              (bisect_lem fuel starts offset rank (middle + 1) high r (omega arith)
                (ground (arith, r.above middle v at)) h n)
        | inr s ↦
            rw (q, at, s, bisect)
              (bisect_lem fuel starts offset rank low middle r (omega arith) l
                (ground (arith, r.below middle v at)) (omega arith))
      ]
]

at_least :
    (k : ℕ) (ends : List ℕ)
    → ((i v : ℕ) → get_elem? ends i ≡ some v → k < v)
    → (i v : ℕ) → get_elem? (k ∷ ends) i ≡ some v
    → k ≤ v
at_least k ends h zero v e = let p : k ≡ v = cc e in omega arith
at_least k ends h (suc i) v e = let p : k < v = h i v e in omega arith

newline_ends-above :
    (k : ℕ) (text : Text) (i v : ℕ) → get_elem? (newline_ends k text) i ≡ some v → k < v
unfolding newline_ends
newline_ends-above k [] i v h = absurd (cc h)
newline_ends-above k (c ∷ rest) i v h =
    let later = newline_ends-above (k + 1) rest in
    elim (Bool-cases (c == newline)) [
      | inr q ↦ let g : k + 1 < v = later i v (rw q at h) in omega arith
      | inl q ↦
          let g : k + 1 ≤ v = at_least (k + 1) (newline_ends (k + 1) rest) later i v (rw q at h) in
          omega arith
    ]

-- One more line start, where the text goes on.
Ranks-cons :
    (k offset rank : ℕ) (ends : List ℕ)
    → k ≤ offset
    → Ranks ends offset rank
    → Ranks (k ∷ ends) offset (suc rank)
Ranks-cons k offset rank ends le r = record {
  within = let w = r.within in omega arith;
  below = below;
  above = above;
}
  where
    below : (i v : ℕ) → get_elem? (k ∷ ends) i ≡ some v → i < suc rank → v ≤ offset
    below zero v e h = let p : k ≡ v = cc e in omega arith
    below (suc i) v e h = r.below i v e (omega arith)

    above : (i v : ℕ) → get_elem? (k ∷ ends) i ≡ some v → suc rank ≤ i → offset < v
    above zero v e h = absurd (omega arith)
    above (suc i) v e h = r.above i v e (omega arith)

newline_ends-Ranks :
    (k offset : ℕ) (text : Text)
    → Ranks (newline_ends k text) (k + offset) (newlines_before offset text)
unfolding newline_ends newlines_before
newline_ends-Ranks k zero text = record {
  within = omega arith;
  below = λ i v e h. absurd (omega arith);
  above = λ i v e h. let g = newline_ends-above k text i v e in omega arith;
}
newline_ends-Ranks k (suc offset) [] = record {
  within = omega arith;
  below = λ i v e h. absurd (cc e);
  above = λ i v e h. absurd (cc e);
}
newline_ends-Ranks k (suc offset) (c ∷ rest) =
    let sum : k + 1 + offset ≡ k + suc offset = omega arith in
    let later : Ranks (newline_ends (k + 1) rest) (k + suc offset) (newlines_before offset rest) =
      subst (λ z. Ranks (newline_ends (k + 1) rest) z (newlines_before offset rest)) sum
        (newline_ends-Ranks (k + 1) offset rest) in
    elim (Bool-cases (c == newline)) [
      | inr q ↦ rw q later
      | inl q ↦
          rw q
            (Ranks-cons (k + 1) (k + suc offset) _ (newline_ends (k + 1) rest) (omega arith) later)
    ]

-- The binary search gives a number, and it is that of the line at the offset.
pub line_number_lem :
    (text : Text) (offset : ℕ) → line_number text offset ≡ some (suc (newlines_before offset text))
unfolding line_number line_starts
line_number_lem text offset =
    let zero_offset : 0 + offset ≡ offset = omega arith in
    let r = Ranks-cons 0 offset (newlines_before offset text) (newline_ends 0 text) (omega arith) (
      subst (λ z. Ranks (newline_ends 0 text) z (newlines_before offset text)) zero_offset
        (newline_ends-Ranks 0 offset text)) in
    bisect_lem (suc (length (line_starts text))) (line_starts text) offset
      (suc (newlines_before offset text)) 0 (length (line_starts text)) r (omega arith)
      (omega arith) r.within (omega arith)

-- Characters over others stand behind as many newlines.
newlines_before-Over :
    (offset : ℕ) (os cs : Text)
    → Over os cs
    → length os ≡ length cs
    → newlines_before offset os ≡ newlines_before offset cs
unfolding newlines_before
newlines_before-Over zero os cs h l = refl
newlines_before-Over (suc k) [] [] h l = refl
newlines_before-Over (suc k) [] (c ∷ cs) h l = absurd (omega arith)
newlines_before-Over (suc k) (o ∷ os) [] h l = absurd h
newlines_before-Over (suc k) (o ∷ os) (c ∷ cs) (b, h) l =
    ground (arith, newlines_before-Over k os cs h (omega arith))

-- For every text and offset the binary search, run on the text with its comments and literals
-- blanked, returns the number of the line that the offset has in the text as it was.
pub line_number-strip :
    (text : Text) (offset : ℕ)
    → line_number (strip_java_comments_and_literals text) offset
      ≡ some (suc (newlines_before offset text))
line_number-strip text offset =
    let (o, l) = strip-Over text in
    line_number_lem (strip_java_comments_and_literals text) offset
    ∙ ap (λ n. some (suc n)) (newlines_before-Over offset _ text o l)
