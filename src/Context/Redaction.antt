-- ===== src/Context/Redaction.antt =====
-- src/context.rs, `redact_json`: no secret of an inspected container reaches a context.
use caroba_guard.Prelude.{
  ◌≡◌, refl, sym, ap, ◌∙◌, true, Option, none, some, List, [], ◌∷◌, ◌++◌, if◌then◌else◌, Bytes,
  Avoids, split_once-append,
}
use caroba_guard.Context.{
  string_value, array_value, object_value, no_items, item, no_fields, field, got, failed,
  sensitive_key, redacted, redact_pair, redact_string, redact_json, redact_items, redact_fields,
  section, assemble, answer_section, pretty_redacted, target_sections, build_context, Value, Items,
  Fields, ContextKind, ContextRequest, Answer, Adapters, system, container, service, doctor,
  project,
}

-- Two values that differ only in what is secret: the value under a sensitive key of an object, and
-- what follows the first `=` of a string with a sensitive key before it.
mutual
  pub data Alike : Value → Value → Type 0 where
    same : (v : Value) → Alike v v
    alike_strings :
        (key a b : Bytes)
        → Avoids b'=' key
        → sensitive_key key ≡ true
        → Alike (string_value (key ++ b'=' ∷ a)) (string_value (key ++ b'=' ∷ b))
    alike_arrays : {xs ys : Items} → AlikeItems xs ys → Alike (array_value xs) (array_value ys)
    alike_objects : {xs ys : Fields} → AlikeFields xs ys → Alike (object_value xs) (object_value ys)

  pub data AlikeItems : Items → Items → Type 0 where
    nil : AlikeItems no_items no_items
    cons :
        {v w : Value} {xs ys : Items}
        → Alike v w
        → AlikeItems xs ys
        → AlikeItems (item v xs) (item w ys)

  pub data AlikeFields : Fields → Fields → Type 0 where
    nil_fields : AlikeFields no_fields no_fields
    hidden :
        {v w : Value} {xs ys : Fields} (key : Bytes)
        → sensitive_key key ≡ true
        → AlikeFields xs ys
        → AlikeFields (field key v xs) (field key w ys)
    shown :
        {v w : Value} {xs ys : Fields} (key : Bytes)
        → Alike v w
        → AlikeFields xs ys
        → AlikeFields (field key v xs) (field key w ys)

redact_string-secret :
    (key a : Bytes)
    → Avoids b'=' key
    → sensitive_key key ≡ true
    → redact_string (key ++ b'=' ∷ a) ≡ key ++ b'=' ∷ redacted
unfolding redact_string
redact_string-secret key a h s =
    ap (redact_pair (key ++ b'=' ∷ a)) (split_once-append b'=' key a h) ∙ rw s

field-eq :
    (key : Bytes) {v w : Value} {xs ys : Fields} → v ≡ w → xs ≡ ys → field key v xs ≡ field key w ys
field-eq key e f = cc

mutual
  unfolding redact_json redact_items redact_fields

  redact_json-Alike : {v w : Value} → Alike v w → redact_json v ≡ redact_json w
  redact_json-Alike (same v) = refl
  redact_json-Alike (alike_strings key a b h s) =
      ap string_value (redact_string-secret key a h s ∙ sym (redact_string-secret key b h s))
  redact_json-Alike (alike_arrays h) = ap array_value (redact_items-Alike h)
  redact_json-Alike (alike_objects h) = ap object_value (redact_fields-Alike h)

  redact_items-Alike : {xs ys : Items} → AlikeItems xs ys → redact_items xs ≡ redact_items ys
  redact_items-Alike nil = refl
  redact_items-Alike (cons v h) = cc (redact_json-Alike v, redact_items-Alike h)

  redact_fields-Alike : {xs ys : Fields} → AlikeFields xs ys → redact_fields xs ≡ redact_fields ys
  redact_fields-Alike nil_fields = refl
  redact_fields-Alike (hidden key s h) = rw s (field-eq key refl (redact_fields-Alike h))
  redact_fields-Alike (shown key v h) =
      field-eq key
        (ap (λ (x : Value). if sensitive_key key then string_value redacted else x)
          (redact_json-Alike v))
        (redact_fields-Alike h)

-- The answers of a daemon about a container, alike.
abbrev pub AlikeAnswers : Answer Value → Answer Value → Type 0
AlikeAnswers (got v) (got w) = Alike v w
AlikeAnswers (failed e) (failed f) = e ≡ f
AlikeAnswers _ _ = ⊥

pretty_redacted-Alike :
    (pretty : Value → Bytes) (a b : Answer Value)
    → AlikeAnswers a b
    → pretty_redacted pretty a ≡ pretty_redacted pretty b
pretty_redacted-Alike pretty (got v) (got w) h =
    ap (λ (x : Value). got (pretty x)) (redact_json-Alike h)
pretty_redacted-Alike pretty (failed e) (failed f) h = ap failed h
pretty_redacted-Alike pretty (got v) (failed f) h = elim h [ ]
pretty_redacted-Alike pretty (failed e) (got w) h = elim h [ ]

-- The same adapters, with other answers about containers.
abbrev pub with_inspect : (Bytes → Answer Value) → Adapters → Adapters
with_inspect inspect adapters = record adapters { inspect = inspect }

-- Containers that differ only in their secrets give the same context, whatever is asked for.
pub build_context-Alike :
    (adapters : Adapters) (inspect : Bytes → Answer Value) (request : Option ContextRequest)
    → ((target : Bytes) → AlikeAnswers (inspect target) (adapters.inspect target))
    → build_context (with_inspect inspect adapters) request ≡ build_context adapters request
unfolding build_context target_sections
build_context-Alike adapters inspect none h = refl
build_context-Alike adapters inspect (some request) h =
    ap (λ (s : List (Bytes × Bytes)). assemble (section "host_metrics" adapters.host_metrics ∷ s))
      (sections request.kind request.target)
  where
    sections :
        (kind : ContextKind) (target : Option Bytes)
        → target_sections (with_inspect inspect adapters) kind target
          ≡ target_sections adapters kind target
    sections system target = refl
    sections doctor target = refl
    sections container none = refl
    sections container (some target) =
        ap
          (λ (a : Answer Bytes).
            answer_section "docker_inspect_redacted" "docker_inspect_error" a
            ∷ answer_section "container_stats" "container_stats_error" (adapters.stats target)
            ∷ answer_section "recent_container_logs_untrusted" "container_logs_error"
                (adapters.container_logs target)
            ∷ [])
          (pretty_redacted-Alike adapters.to_string_pretty (inspect target)
            (adapters.inspect target) (h target))
    sections service none = refl
    sections service (some target) = refl
    sections project none = refl
    sections project (some target) = refl
