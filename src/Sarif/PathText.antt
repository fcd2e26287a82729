-- ===== src/Sarif/PathText.antt =====
-- `SourceLocation.validate_relative_posix_path` of src/evitriage/domain/alerts.py.
use evi_triage_ql.Prelude.{Bool, ◌||◌, [], ◌∷◌, any, ◌==◌, nat_eq, is_empty, Result, raise_if, ◌>>◌}
use evi_triage_ql.ContextBuilder.{Text, starts_with, text_beq}
use evi_triage_ql.Sarif.{slash, backslash, dot, is_control}
use evi_triage_ql.Sarif.Uri.{split_path}

-- The messages of the validator.
pub data PathError : Type 0 where
  not_relative unsafe_component control_character : PathError

-- `part in {"", ".", ".."}`
unfoldable pub is_unsafe_component : Text → Bool
unfolding text_beq
is_unsafe_component part =
    is_empty part || (text_beq part (dot ∷ []) || text_beq part (dot ∷ dot ∷ []))

unfoldable pub validate_relative_posix_path : Text → Result PathError (Unit {0})
unfolding starts_with any split_path is_unsafe_component
validate_relative_posix_path value = do
  raise_if
      (starts_with (slash ∷ []) value
        || (starts_with (backslash ∷ []) value || any (λ c. c == backslash) value))
      not_relative
  raise_if (any is_unsafe_component (split_path [] value)) unsafe_component
  raise_if (any is_control value) control_character
