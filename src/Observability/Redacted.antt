-- ===== src/Observability/Redacted.antt =====
-- What redaction (src/evitriage/observability.py) leaves in a payload.
use evi_triage_ql.Prelude.{String, ◌≡◌, inl, inr, Bool, true, false, Bool-cases}
use evi_triage_ql.Observability.{Json, Items, Fields, redact, redact_items, redact_mapping}

module _ (is_secret : String → Bool) (redact_text : String → String) where
  -- Every text is one that the substitutions give or the mark, and under a secret key stands the mark.
  mutual
    pub data IsRedacted : Json → Type 0 where
      null : IsRedacted Json.null
      boolean : (b : Bool) → IsRedacted (Json.boolean b)
      number : (n : String) → IsRedacted (Json.number n)
      text : (s : String) → IsRedacted (Json.text (redact_text s))
      array : {xs : Items} → AreRedacted xs → IsRedacted (Json.array xs)
      object : {fs : Fields} → IsRedactedMapping fs → IsRedacted (Json.object fs)

    pub data AreRedacted : Items → Type 0 where
      nil : AreRedacted Items.nil
      cons : {x : Json} {xs : Items} → IsRedacted x → AreRedacted xs → AreRedacted (Items.cons x xs)

    pub data IsRedactedMapping : Fields → Type 0 where
      end : IsRedactedMapping Fields.end
      hidden :
          (key : String) {fs : Fields}
          → is_secret key ≡ true
          → IsRedactedMapping fs
          → IsRedactedMapping (Fields.field key (Json.text "[REDACTED]") fs)
      shown :
          (key : String) {item : Json} {fs : Fields}
          → is_secret key ≡ false
          → IsRedacted item
          → IsRedactedMapping fs
          → IsRedactedMapping (Fields.field key item fs)

  mutual
    unfolding redact redact_items redact_mapping

    redact-IsRedacted : (v : Json) → IsRedacted (redact is_secret redact_text v)
    redact-IsRedacted Json.null = null
    redact-IsRedacted (Json.boolean b) = boolean b
    redact-IsRedacted (Json.number n) = number n
    redact-IsRedacted (Json.text s) = text s
    redact-IsRedacted (Json.array xs) = array (redact_items-AreRedacted xs)
    redact-IsRedacted (Json.object fs) = object (redact_fields-IsRedactedMapping fs)

    redact_items-AreRedacted : (xs : Items) → AreRedacted (redact_items is_secret redact_text xs)
    redact_items-AreRedacted Items.nil = nil
    redact_items-AreRedacted (Items.cons x xs) =
        cons (redact-IsRedacted x) (redact_items-AreRedacted xs)

    redact_fields-IsRedactedMapping :
        (fs : Fields) → IsRedactedMapping (redact_mapping is_secret redact_text fs)
    redact_fields-IsRedactedMapping Fields.end = end
    redact_fields-IsRedactedMapping (Fields.field key item fs) =
        let inner = redact-IsRedacted item in
        let rest = redact_fields-IsRedactedMapping fs in
        elim (Bool-cases (is_secret key)) [
          | inl e ↦ rw e (hidden key e rest)
          | inr e ↦ rw e (shown key e inner rest)
        ]

-- A redacted mapping has, under every key that looks like a secret's, only the mark, and every other
-- text in it, at any depth, is one that the substitutions gave.
pub redact_mapping-IsRedactedMapping :
    (is_secret : String → Bool) (redact_text : String → String) (fs : Fields)
    → IsRedactedMapping is_secret redact_text (redact_mapping is_secret redact_text fs)
redact_mapping-IsRedactedMapping is_secret redact_text fs =
    redact_fields-IsRedactedMapping is_secret redact_text fs
