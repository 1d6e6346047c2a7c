-- ===== src/Agc/Json.antt =====
-- src/agc/client.rs: the redaction of a reply before it is shown, and that it leaves no secret.
use hap_resigner.Prelude.{
  ◌≡◌, refl, ap, Bool, true, false, ◌||◌, [], ◌∷◌, if◌then◌else◌, ◌==◌, Text, codes,
}
use hap_resigner.Strings.{to_ascii_lowercase, contains_any, is_one_of}
use hap_resigner.Agc.{
  Value, null, boolean, integer, real, string, array, object, Values, end_array, item, Fields,
  end_object, field,
}

-- `replace(['_', '-'], "")`.
unfoldable pub without_marks : Text → Text
without_marks [] = []
without_marks (c ∷ cs) =
    let rest = without_marks cs in if c == 95 || c == 45 then rest else c ∷ rest

unfoldable pub is_sensitive : Text → Bool
is_sensitive key =
    contains_any (without_marks (to_ascii_lowercase key)) (
      codes "csr"
      ∷ (codes "token"
          ∷ (codes "authorization"
              ∷ (codes "password"
                  ∷ (codes "secret"
                      ∷ (codes "url" ∷ (codes "objectid" ∷ (codes "sourceuri" ∷ []))))))))
    || is_one_of (without_marks (to_ascii_lowercase key)) (codes "udid" ∷ (codes "deviceid" ∷ []))

unfoldable mutual
  pub redact_sensitive_json : Value → Value
  redact_sensitive_json (object fields) = object (redact_fields fields)
  redact_sensitive_json (array items) = array (redact_items items)
  redact_sensitive_json null = null
  redact_sensitive_json (boolean b) = boolean b
  redact_sensitive_json (integer n) = integer n
  redact_sensitive_json (real text) = real text
  redact_sensitive_json (string text) = string text

  pub redact_items : Values → Values
  redact_items end_array = end_array
  redact_items (item value items) = item (redact_sensitive_json value) (redact_items items)

  pub redact_fields : Fields → Fields
  redact_fields end_object = end_object
  redact_fields (field key value fields) =
      field key
        (if is_sensitive key then string (codes "<redacted>") else redact_sensitive_json value)
        (redact_fields fields)

-- At every depth the value of a sensitive key is the mark.
mutual
  pub HasNoSecret : Value → Type 0
  HasNoSecret (object fields) = HaveNoSecret fields
  HasNoSecret (array items) = AllHaveNoSecret items
  HasNoSecret null = Unit {0}
  HasNoSecret (boolean b) = Unit {0}
  HasNoSecret (integer n) = Unit {0}
  HasNoSecret (real text) = Unit {0}
  HasNoSecret (string text) = Unit {0}

  pub AllHaveNoSecret : Values → Type 0
  AllHaveNoSecret end_array = Unit {0}
  AllHaveNoSecret (item value items) = HasNoSecret value × AllHaveNoSecret items

  pub HaveNoSecret : Fields → Type 0
  HaveNoSecret end_object = Unit {0}
  HaveNoSecret (field key value fields) =
      (is_sensitive key ≡ true → value ≡ string (codes "<redacted>"))
      × HasNoSecret value
      × HaveNoSecret fields

-- The value that the redaction keeps or marks.
marked-HasNoSecret :
    (b : Bool) (value : Value)
    → HasNoSecret value
    → (b ≡ true → (if b then string (codes "<redacted>") else value) ≡ string (codes "<redacted>"))
      × HasNoSecret (if b then string (codes "<redacted>") else value)
unfolding HasNoSecret
marked-HasNoSecret true value h = (λ e. refl, tt)
marked-HasNoSecret false value h = (λ e. cc (e), h)

mutual
  unfolding redact_sensitive_json HasNoSecret

  redacted-HasNoSecret : (value : Value) → HasNoSecret (redact_sensitive_json value)
  redacted-HasNoSecret (object fields) = redacted-HaveNoSecret fields
  redacted-HasNoSecret (array items) = redacted-AllHaveNoSecret items
  redacted-HasNoSecret null = tt
  redacted-HasNoSecret (boolean b) = tt
  redacted-HasNoSecret (integer n) = tt
  redacted-HasNoSecret (real text) = tt
  redacted-HasNoSecret (string text) = tt

  redacted-AllHaveNoSecret : (items : Values) → AllHaveNoSecret (redact_items items)
  redacted-AllHaveNoSecret end_array = tt
  redacted-AllHaveNoSecret (item value items) =
      (redacted-HasNoSecret value, redacted-AllHaveNoSecret items)

  redacted-HaveNoSecret : (fields : Fields) → HaveNoSecret (redact_fields fields)
  redacted-HaveNoSecret end_object = tt
  redacted-HaveNoSecret (field key value fields) =
      let (marked, kept) =
        marked-HasNoSecret (is_sensitive key) (redact_sensitive_json value)
          (redacted-HasNoSecret value) in
      (marked, kept, redacted-HaveNoSecret fields)

-- A second redaction changes nothing.
marked-again :
    (b : Bool) (value : Value)
    → redact_sensitive_json (redact_sensitive_json value) ≡ redact_sensitive_json value
    → (if b
        then string (codes "<redacted>")
        else redact_sensitive_json
            (if b then string (codes "<redacted>") else redact_sensitive_json value))
      ≡ (if b then string (codes "<redacted>") else redact_sensitive_json value)
marked-again true value h = refl
marked-again false value h = h

mutual
  unfolding redact_sensitive_json

  redacted-again :
      (value : Value)
      → redact_sensitive_json (redact_sensitive_json value) ≡ redact_sensitive_json value
  redacted-again (object fields) = ap object (fields-again fields)
  redacted-again (array items) = ap array (items-again items)
  redacted-again null = refl
  redacted-again (boolean b) = refl
  redacted-again (integer n) = refl
  redacted-again (real text) = refl
  redacted-again (string text) = refl

  items-again : (items : Values) → redact_items (redact_items items) ≡ redact_items items
  items-again end_array = refl
  items-again (item value items) = cc (redacted-again value, items-again items)

  fields-again : (fields : Fields) → redact_fields (redact_fields fields) ≡ redact_fields fields
  fields-again end_object = refl
  fields-again (field key value fields) =
      cc (marked-again (is_sensitive key) value (redacted-again value), fields-again fields)

-- In a redacted reply the value of every sensitive key, at any depth, is the mark and nothing else, and
-- a second redaction changes nothing.
pub redact_sensitive_json-HasNoSecret :
    (value : Value)
    → HasNoSecret (redact_sensitive_json value)
      × (redact_sensitive_json (redact_sensitive_json value) ≡ redact_sensitive_json value)
redact_sensitive_json-HasNoSecret value = (redacted-HasNoSecret value, redacted-again value)
