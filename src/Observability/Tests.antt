-- ===== src/Observability/Tests.antt =====
-- A run of the redaction of src/evitriage/observability.py: a secret's key deep in a payload.
use evi_triage_ql.Prelude.{String, Bool, ◌≡◌, refl, ◌==◌, string_eq}
use evi_triage_ql.Observability.{Json, Items, Fields, redact_mapping}
use evi_triage_ql.Observability.Redacted.{IsRedactedMapping, redact_mapping-IsRedactedMapping}

abbrev payload : Fields
payload = Fields.field "note" (Json.text "a note") (
    Fields.field "items"
      (Json.array (
        Items.cons (Json.object (Fields.field "password" (Json.object Fields.end) Fields.end))
          Items.nil))
      Fields.end)

abbrev is_password : String → Bool
is_password key = key == "password"

abbrev keep_text : String → String
keep_text s = s

redact_mapping-IsRedactedMapping_example :
    IsRedactedMapping is_password keep_text (redact_mapping is_password keep_text payload)
redact_mapping-IsRedactedMapping_example =
    redact_mapping-IsRedactedMapping is_password keep_text payload

payload_redacted :
    redact_mapping is_password keep_text payload
    ≡ Fields.field "note" (Json.text "a note") (
        Fields.field "items"
          (Json.array (
            Items.cons
              (Json.object (Fields.field "password" (Json.text "[REDACTED]") Fields.end))
              Items.nil))
          Fields.end)
unfolding redact_mapping
payload_redacted = refl
