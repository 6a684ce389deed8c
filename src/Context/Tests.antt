-- ===== src/Context/Tests.antt =====
-- Runs of src/context.rs at concrete inputs, its unit tests among them.
use caroba_guard.Prelude.{
  ◌+◌, ◌-◌, ◌≤◌, ◌<◌, ◌≡◌, refl, ◌⊎◌, true, some, List, [], ◌∷◌, ◌++◌, arith, length, Bytes, codes,
}
use caroba_guard.Context.{
  number_value, string_value, array_value, object_value, no_items, item, no_fields, field, got,
  failed, is_char_boundary, floor_boundary, truncated_suffix, truncate_utf8, sensitive_key,
  redact_string, redact_json, redact_items, redact_fields, build_context, Value, ContextRequest,
  Adapters, container,
}
use caroba_guard.Context.Truncation.{concat, truncate_utf8_whole}
use caroba_guard.Context.Redaction.{
  same, alike_strings, alike_arrays, alike_objects, nil, cons, nil_fields, hidden, shown,
  with_inspect, build_context-Alike, Alike,
}
use caroba_guard.Context.Redacted.{Redacted, RedactedFields, redact_json-Redacted}
use caroba_guard.Context.Size.{length-build_context-le}

abbrev a_acute : Bytes
a_acute = 0xC3 ∷ 0xA1 ∷ []

abbrev accents : List Bytes
accents =
    a_acute ∷ a_acute ∷ a_acute ∷ a_acute ∷ a_acute ∷ a_acute ∷ a_acute ∷ a_acute ∷ a_acute
    ∷ a_acute ∷ a_acute ∷ a_acute ∷ a_acute ∷ a_acute ∷ a_acute ∷ a_acute ∷ []

-- Cut at 25 bytes, the text has 27: the mark alone is longer than the maximum.
longer_than_maximum : truncate_utf8 (concat accents) 25 ≡ truncated_suffix
unfolding truncate_utf8 floor_boundary is_char_boundary
longer_than_maximum = refl

abbrev inspected : Bytes → Value
inspected secret = object_value (
    field (codes "Env")
      (array_value (
        item (string_value (codes "PUBLIC=value"))
          (item (string_value (codes "API_TOKEN" ++ b'=' ∷ secret)) no_items)))
      (field (codes "password") (string_value secret) no_fields))

abbrev clean_env : Value
clean_env = object_value (
    field (codes "Env")
      (array_value (
        item (string_value (codes "PUBLIC=value"))
          (item (string_value (codes "API_TOKEN=[REDACTED]")) no_items)))
      (field (codes "password") (string_value (codes "[REDACTED]")) no_fields))

-- `redacts_nested_and_environment_secrets`
redacts_secrets : redact_json (inspected (codes "top-secret")) ≡ clean_env
unfolding redact_json redact_items redact_fields redact_string sensitive_key
redacts_secrets = refl

truncate_utf8_whole_example :
    ((length (concat accents) ≤ 26) × (truncate_utf8 (concat accents) 26 ≡ concat accents))
    ⊎ ((26 < length (concat accents))
        × ((kept : List Bytes) × (next : Bytes) × (dropped : List Bytes) × (accents
              ≡ kept ++ next ∷ dropped)
            × (length (concat kept) ≤ 26 - 24)
            × (26 - 24 < length (concat kept) + length next)
            × (truncate_utf8 (concat accents) 26 ≡ concat kept ++ truncated_suffix)))
truncate_utf8_whole_example = truncate_utf8_whole accents 26 (ground arith)

abbrev adapters : Adapters
adapters = record {
  host_metrics = codes "{}";
  docker_status = codes "ok";
  systemd_status = codes "ok";
  adapter_status = codes "{}";
  inspect = λ target. got (inspected (codes "one"));
  stats = λ target. failed (codes "no statistics");
  container_logs = λ target. got (codes "started");
  unit_details = λ target. failed (codes "no unit");
  unit_logs = λ target. failed (codes "no unit");
  registered_project = λ target. failed (codes "no project");
  to_string_pretty = λ v. codes "{}";
}

abbrev request : ContextRequest
request = record { kind = container; target = some (codes "web") }

length-build_context-le_example : length (build_context adapters (some request)) ≤ 65536 + 11
length-build_context-le_example = length-build_context-le adapters (some request)

runs : Unit {0}
unfolding sensitive_key
runs = tt

api_token_is_sensitive : sensitive_key (codes "API_TOKEN") ≡ true
unfolding runs
api_token_is_sensitive = refl

password_is_sensitive : sensitive_key (codes "password") ≡ true
unfolding runs
password_is_sensitive = refl

secrets-Alike : (a b : Bytes) → Alike (inspected a) (inspected b)
secrets-Alike a b = alike_objects (
    shown (codes "Env")
      (alike_arrays (
        cons (same (string_value (codes "PUBLIC=value")))
          (cons (alike_strings (codes "API_TOKEN") a b (ground arith) api_token_is_sensitive) nil)))
      (hidden (codes "password") password_is_sensitive nil_fields))

build_context-Alike_example :
    build_context (with_inspect (λ target. got (inspected (codes "two"))) adapters) (some request)
    ≡ build_context adapters (some request)
build_context-Alike_example =
    build_context-Alike adapters (λ target. got (inspected (codes "two"))) (some request)
      (λ target. secrets-Alike (codes "two") (codes "one"))

redact_json-Redacted_example :
    Redacted (redact_json (inspected (codes "x")))
    × (redact_json (redact_json (inspected (codes "x"))) ≡ redact_json (inspected (codes "x")))
redact_json-Redacted_example = redact_json-Redacted (inspected (codes "x"))

abbrev plain : Value
plain = object_value (field (codes "name") (number_value (codes "1")) no_fields)

plain-Redacted : Redacted plain
unfolding runs Redacted RedactedFields
plain-Redacted = (λ s. cc s, λ s. tt, tt)
