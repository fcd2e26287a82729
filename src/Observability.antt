-- ===== src/Observability.antt =====
-- The redaction of secrets before a payload leaves the program, `redact` and `redact_mapping` of
-- src/evitriage/observability.py.
--
-- A payload is a JSON value. The regular expressions are parameters: `is_secret` is whether
-- `_SECRET_KEY` is found in a key, `redact_text` the three substitutions on a text. A number is
-- kept as the text of its literal.
pub mod Redacted
mod Tests
use evi_triage_ql.Prelude.{String, Bool, if◌then◌else◌}

mutual
  pub data Json : Type 0 where
    null : Json
    boolean : Bool → Json
    number : String → Json
    text : String → Json
    array : Items → Json
    object : Fields → Json

  pub data Items : Type 0 where
    nil : Items
    cons : Json → Items → Items

  pub data Fields : Type 0 where
    end : Fields
    field : String → Json → Fields → Fields

module _ (is_secret : String → Bool) (redact_text : String → String) where
  unfoldable mutual
    pub redact : Json → Json
    redact null = null
    redact (boolean b) = boolean b
    redact (number n) = number n
    redact (text s) = text (redact_text s)
    redact (array xs) = array (redact_items xs)
    redact (object fs) = object (redact_mapping fs)

    pub redact_items : Items → Items
    redact_items nil = nil
    redact_items (cons x xs) = cons (redact x) (redact_items xs)

    pub redact_mapping : Fields → Fields
    redact_mapping end = end
    redact_mapping (field key item fs) =
        let hidden = redact item in
        field key (if is_secret key then text "[REDACTED]" else hidden) (redact_mapping fs)
