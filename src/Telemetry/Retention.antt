-- ===== src/Telemetry/Retention.antt =====
-- src/telemetry.rs, enforce_retention: which samples are kept, whatever the setting says.
use caroba_guard.Prelude.{
  ℕ, ◌≤◌, ◌≡◌, refl, inl, inr, Bool, true, Option, none, some, List, [], ◌∷◌, arith, Bool-cases,
  tests, keep, All, keep-keep_stronger, Signed,
}
use caroba_guard.Telemetry.Snapshot.{Numbers}
use caroba_guard.Telemetry.Service.{
  clamped_days, retention_days, is_within, enforce_retention, Setting, Sample, TelemetryDb,
}

clamped_days-bounds : (days : Option Signed) → (1 ≤ clamped_days days) × (clamped_days days ≤ 365)
clamped_days-bounds none = (omega arith, omega arith)
clamped_days-bounds (some days) = (ground arith, ground arith)

keep-All_weaker {ℓ} :
    {A : Type ℓ} (p q : A → Bool) (xs : List A)
    → ((x : A) → p x ≡ true → q x ≡ true)
    → All (λ x. q x ≡ true) (keep p xs)
keep-All_weaker p q [] h = tt
keep-All_weaker p q (x ∷ xs) h = elim (Bool-cases (p x)) [
  | inl e ↦ rw e (h x e, keep-All_weaker p q xs h)
  | inr e ↦ rw e (keep-All_weaker p q xs h)
]

retention_days-bounds :
    (settings : List Setting) → (1 ≤ retention_days settings) × (retention_days settings ≤ 365)
unfolding retention_days
retention_days-bounds settings = clamped_days-bounds _

module _ (n : Numbers) where
  is_within-le :
      (now a b : ℕ)
      → a ≤ b
      → (s : Sample n) → is_within n now a s ≡ true
      → is_within n now b s ≡ true
  is_within-le now a b h s e = grind tests

  -- Whatever the setting of the days says: the samples that are left are not older than 365 days, all of
  -- the last day are left in their order, and the settings are the same.
  pub enforce_retention-bounds :
      (now : ℕ) (db : TelemetryDb n)
      → All (λ s. is_within n now 365 s ≡ true) (enforce_retention n now db).telemetry_samples
        × (keep (is_within n now 1) (enforce_retention n now db).telemetry_samples
            ≡ keep (is_within n now 1) db.telemetry_samples)
        × ((enforce_retention n now db).settings ≡ db.settings)
  unfolding enforce_retention
  enforce_retention-bounds now db =
      let (least, greatest) = retention_days-bounds db.settings in
      let kept = is_within n now (retention_days db.settings) in
      (
        keep-All_weaker kept (is_within n now 365) db.telemetry_samples
            (is_within-le now _ 365 greatest),
        keep-keep_stronger (is_within n now 1) kept db.telemetry_samples
            (is_within-le now 1 _ least),
        refl,
      )
