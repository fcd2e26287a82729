-- ===== src/ContextBuilder/Blank.antt =====
-- What `_strip_java_comments_and_literals` of src/evitriage/context/builder.py leaves: characters of
-- the text and spaces, with every newline in its place.
use evi_triage_ql.Prelude.{ℕ, ◌≡◌, ◌≢◌, refl, ◌⊎◌, [], ◌∷◌, arith, length}
use evi_triage_ql.ContextBuilder.{Text, newline, space, starts_with}
use evi_triage_ql.ContextBuilder.Strip.{
  State, code, line_comment, block_comment, text_block, string, character, Round, escaped,
  code_round, blank_round, round, strip_from, strip_java_comments_and_literals,
}

-- A character is kept, or one that is no newline gives way to a space.
abbrev pub Blanks : ℕ → ℕ → Type 0
Blanks o c = (o ≡ c) ⊎ ((o ≡ space) × (c ≢ newline))

-- The characters of the first text, each for the one at its place in the second.
abbrev pub Over : Text → Text → Type 0
Over [] _ = Unit
Over (o ∷ os) [] = ⊥
Over (o ∷ os) (c ∷ cs) = Blanks o c × Over os cs

abbrev IsRound : Round → ℕ → Text → Type 0
IsRound r c rest = Blanks r.first c × Over r.pending rest

code_round-IsRound : (c : ℕ) (rest : Text) → IsRound (code_round c rest) c rest
unfolding code_round starts_with
code_round-IsRound c [] = ground arith
code_round-IsRound c (d ∷ []) = ground arith
code_round-IsRound c (d ∷ e ∷ rest) = ground arith

escaped-Over : (rest : Text) → Over (escaped rest) rest
escaped-Over [] = tt
escaped-Over (d ∷ rest) = ground arith

blank_round-IsRound :
    (s : State) (c : ℕ) (rest : Text) → c ≢ newline → IsRound (blank_round s c rest) c rest
unfolding blank_round starts_with
blank_round-IsRound code c rest h = code_round-IsRound c rest
blank_round-IsRound line_comment c rest h = ground arith
blank_round-IsRound block_comment c [] h = ground arith
blank_round-IsRound block_comment c (d ∷ rest) h = ground arith
blank_round-IsRound text_block c [] h = ground arith
blank_round-IsRound text_block c (d ∷ []) h = ground arith
blank_round-IsRound text_block c (d ∷ e ∷ rest) h = ground arith
blank_round-IsRound string c rest h = ground (arith, escaped-Over rest)
blank_round-IsRound character c rest h = ground (arith, escaped-Over rest)

round-IsRound : (s : State) (c : ℕ) (rest : Text) → IsRound (round s c rest) c rest
unfolding round
round-IsRound code c rest = code_round-IsRound c rest
round-IsRound line_comment c rest = ground (arith, blank_round-IsRound line_comment c rest)
round-IsRound block_comment c rest = ground (arith, blank_round-IsRound block_comment c rest)
round-IsRound text_block c rest = ground (arith, blank_round-IsRound text_block c rest)
round-IsRound string c rest = ground (arith, blank_round-IsRound string c rest)
round-IsRound character c rest = ground (arith, blank_round-IsRound character c rest)

strip_from-Over :
    (s : State) (pending text : Text)
    → Over pending text
    → Over (strip_from s pending text) text × (length (strip_from s pending text) ≡ length text)
unfolding strip_from
strip_from-Over s pending [] h = (tt, refl)
strip_from-Over s (w ∷ pending) (c ∷ rest) (b, h) =
    let (o, l) = strip_from-Over s pending rest h in ((b, o), omega arith)
strip_from-Over s [] (c ∷ rest) h =
    let r = round s c rest in
    let (b, p) = round-IsRound s c rest in
    let (o, l) = strip_from-Over r.next r.pending rest p in ((b, o), omega arith)

-- Stripping a text gives one of the same length, with each character in its place kept, or a space
-- for one that is no newline.
pub strip-Over :
    (text : Text)
    → Over (strip_java_comments_and_literals text) text
      × (length (strip_java_comments_and_literals text) ≡ length text)
unfolding strip_java_comments_and_literals
strip-Over text = strip_from-Over code [] text tt
