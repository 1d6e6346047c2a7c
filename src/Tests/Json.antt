-- ===== src/Tests/Json.antt =====
-- A reply with a secret inside an array.
use hap_resigner.Prelude.{◌≡◌, refl, codes, bytes_eq, starts_with}
use hap_resigner.Strings.{contains, contains_any, is_one_of, to_ascii_lowercase, lower}
use hap_resigner.Agc.{Value, string, array, object, end_array, item, end_object, field}
use hap_resigner.Agc.Json.{
  without_marks, is_sensitive, redact_sensitive_json, HasNoSecret,
  redact_sensitive_json-HasNoSecret,
}

abbrev reply : Value
reply =
    array (item (object (field (codes "access_Token") (string (codes "x")) end_object)) end_array)

reply-marked :
    redact_sensitive_json reply
    ≡ array (
        item
          (object (field (codes "access_Token") (string (codes "<redacted>")) end_object))
          end_array)
unfolding redact_sensitive_json is_sensitive without_marks to_ascii_lowercase lower contains_any
    contains is_one_of starts_with bytes_eq
reply-marked = refl

redact_sensitive_json-HasNoSecret_example :
    HasNoSecret (redact_sensitive_json reply)
    × (redact_sensitive_json (redact_sensitive_json reply) ≡ redact_sensitive_json reply)
redact_sensitive_json-HasNoSecret_example = redact_sensitive_json-HasNoSecret reply
