-- ===== src/Context/Redacted.antt =====
-- src/context.rs, `redact_json`: what it leaves of a value.
use caroba_guard.Prelude.{
  ℕ, ◌≡◌, refl, sym, ap, subst, ◌∙◌, inl, inr, true, false, some, [], ◌∷◌, ◌++◌, arith, ◌==◌,
  Bool-cases, Option-cases, Bytes, split_once, Avoids, split_once-append,
}
use caroba_guard.Context.{
  null_value, bool_value, number_value, string_value, array_value, object_value, no_items, item,
  no_fields, field, sensitive_key, redacted, redact_string, redact_json, redact_items,
  redact_fields, Value, Items, Fields,
}

-- A value with no secret left in it.
unfoldable mutual
  pub Redacted : Value → Type 0
  Redacted (object_value fields) = RedactedFields fields
  Redacted (array_value items) = RedactedItems items
  Redacted (string_value value) =
      (key secret : Bytes)
      → Avoids b'=' key
      → value ≡ key ++ b'=' ∷ secret
      → sensitive_key key ≡ true
      → secret ≡ redacted
  Redacted _ = Unit

  pub RedactedItems : Items → Type 0
  RedactedItems no_items = Unit
  RedactedItems (item value items) = Redacted value × RedactedItems items

  pub RedactedFields : Fields → Type 0
  RedactedFields no_fields = Unit
  RedactedFields (field key value fields) =
      (sensitive_key key ≡ true → value ≡ string_value redacted)
      × (sensitive_key key ≡ false → Redacted value)
      × RedactedFields fields

-- The key that `split_once` finds is the text up to the first separator.
split_once-Avoids :
    (c : ℕ) (s : Bytes) {r : Bytes × Bytes}
    → split_once c s ≡ some r
    → Avoids c r.0 × (s ≡ r.0 ++ c ∷ r.1)
split_once-Avoids c [] h = cc
split_once-Avoids c (b ∷ s) {r} h = elim (Bool-cases (b == c)) [
  | inl e ↦
      let same : ([], s) ≡ r = cc (rw e at h) in
      let at_c : b ≡ c = ground arith in
      subst (λ (x : Bytes × Bytes). Avoids c x.0 × (b ∷ s ≡ x.0 ++ c ∷ x.1)) same
        (tt, ap (λ (n : ℕ). n ∷ s) at_c)
  | inr e ↦ elim (Option-cases (split_once c s)) [
    | inl n ↦ cc (rw (e, n) at h)
    | inr ((k, v), f) ↦
        let ih : Avoids c k × (s ≡ k ++ c ∷ v) = split_once-Avoids c s f in
        let same : (b ∷ k, v) ≡ r = cc (rw (e, f) at h) in
        subst (λ (x : Bytes × Bytes). Avoids c x.0 × (b ∷ s ≡ x.0 ++ c ∷ x.1)) same
          ((ground arith, ih.0), ap (◌∷◌ b) ih.1)
  ]
]

redact_string-Redacted : (value : Bytes) → Redacted (string_value (redact_string value))
unfolding redact_string Redacted
redact_string-Redacted value key secret h e s =
    let found : split_once b'=' (redact_string value) ≡ some (key, secret) =
      ap (split_once b'=') e ∙ split_once-append b'=' key secret h in
    elim (Option-cases (split_once b'=' value)) [
      | inl n ↦ cc (rw n at found)
      | inr ((k, v), f) ↦ elim (Bool-cases (sensitive_key k)) [
        | inl t ↦
            let again : split_once b'=' (k ++ b'=' ∷ redacted) ≡ some (key, secret) =
              rw (f, t) at found in
            let first : split_once b'=' (k ++ b'=' ∷ redacted) ≡ some (k, redacted) =
              split_once-append b'=' k redacted (split_once-Avoids b'=' value f).0 in
            cc
        | inr t ↦ let again : split_once b'=' value ≡ some (key, secret) = rw (f, t) at found in cc
      ]
    ]

mutual
  unfolding Redacted RedactedItems RedactedFields redact_json redact_items redact_fields

  redact_json_clean : (v : Value) → Redacted (redact_json v)
  redact_json_clean null_value = tt
  redact_json_clean (bool_value b) = tt
  redact_json_clean (number_value n) = tt
  redact_json_clean (string_value value) = redact_string-Redacted value
  redact_json_clean (array_value items) = redact_items_clean items
  redact_json_clean (object_value fields) = redact_fields_clean fields

  redact_items_clean : (xs : Items) → RedactedItems (redact_items xs)
  redact_items_clean no_items = tt
  redact_items_clean (item v xs) = (redact_json_clean v, redact_items_clean xs)

  redact_fields_clean : (xs : Fields) → RedactedFields (redact_fields xs)
  redact_fields_clean no_fields = tt
  redact_fields_clean (field key v xs) =
      (λ s. rw s, λ s. rw s (redact_json_clean v), redact_fields_clean xs)

redact_string-kept : (value : Bytes) → Redacted (string_value value) → redact_string value ≡ value
unfolding redact_string Redacted
redact_string-kept value clean = elim (Option-cases (split_once b'=' value)) [
  | inl n ↦ rw n
  | inr ((k, v), f) ↦ elim (Bool-cases (sensitive_key k)) [
    | inl t ↦
        let whole : Avoids b'=' k × (value ≡ k ++ b'=' ∷ v) = split_once-Avoids b'=' value f in
        let gone : v ≡ redacted = clean k v whole.0 whole.1 t in
        rw (f, t) (ap (λ (x : Bytes). k ++ b'=' ∷ x) (sym gone) ∙ sym whole.1)
    | inr t ↦ rw (f, t)
  ]
]

mutual
  unfolding Redacted RedactedItems RedactedFields redact_json redact_items redact_fields

  redact_json_kept : (v : Value) → Redacted v → redact_json v ≡ v
  redact_json_kept null_value h = refl
  redact_json_kept (bool_value b) h = refl
  redact_json_kept (number_value n) h = refl
  redact_json_kept (string_value value) h = ap string_value (redact_string-kept value h)
  redact_json_kept (array_value items) h = ap array_value (redact_items_kept items h)
  redact_json_kept (object_value fields) h = ap object_value (redact_fields_kept fields h)

  redact_items_kept : (xs : Items) → RedactedItems xs → redact_items xs ≡ xs
  redact_items_kept no_items h = refl
  redact_items_kept (item v xs) h = cc (redact_json_kept v h.0, redact_items_kept xs h.1)

  redact_fields_kept : (xs : Fields) → RedactedFields xs → redact_fields xs ≡ xs
  redact_fields_kept no_fields h = refl
  redact_fields_kept (field key v xs) h = elim (Bool-cases (sensitive_key key)) [
    | inl s ↦ rw s (cc (h.0 s, redact_fields_kept xs h.2))
    | inr s ↦ rw s (cc (redact_json_kept v (h.1 s), redact_fields_kept xs h.2))
  ]

-- After `redact_json`, every sensitive key of an object, however deep, and every string with a
-- sensitive key before its first `=` has `[REDACTED]` for its value; and a second pass changes
-- nothing.
pub redact_json-Redacted :
    (v : Value) → Redacted (redact_json v) × (redact_json (redact_json v) ≡ redact_json v)
redact_json-Redacted v =
    (redact_json_clean v, redact_json_kept (redact_json v) (redact_json_clean v))

-- A value with no secret in it is left as it is.
pub redact_json-id : (v : Value) → Redacted v → redact_json v ≡ v
redact_json-id v h = redact_json_kept v h
