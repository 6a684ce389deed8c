-- ===== src/Telemetry/Settings.antt =====
-- src/telemetry.rs and src/db.rs: what configure stores is what start reads.
use caroba_guard.Prelude.{
  ℕ, String, ◌≡◌, refl, sym, ap, subst, ◌∙◌, inl, inr, Bool, true, false, some, List, [], ◌∷◌,
  str_eq, eq_iff, eq_refl, if◌then◌else◌, Bool-cases, Bytes,
}
use caroba_guard.Telemetry.Service.{
  profile_text, profile_of, setting, set_setting, profile_setting, mode_setting, mode_text,
  effective_interval, service_of, start, configure, TelemetryProfile, Setting, TelemetryDb,
  TelemetryService, performance, balanced, low_overhead, no_failure,
}
use caroba_guard.Telemetry.HostFiles.{disk_usage, DiskBlocks, Host}
use caroba_guard.Telemetry.Snapshot.{snapshot_of, build_snapshot, Numbers, RawSnapshot}

pub setting-set_setting :
    (key : String) (value : Bytes) (settings : List Setting)
    → setting key (set_setting key value settings) ≡ some value
setting-set_setting key value [] = rw (eq_refl key) refl
setting-set_setting key value (s ∷ settings) = elim (Bool-cases (str_eq s.key key)) [
  | inl e ↦ rw (e, e) refl
  | inr e ↦ rw (e, e) (setting-set_setting key value settings)
]

pub setting-set_setting_other :
    (key other : String) (value : Bytes) (settings : List Setting)
    → str_eq key other ≡ false
    → setting other (set_setting key value settings) ≡ setting other settings
setting-set_setting_other key other value [] h = rw h refl
setting-set_setting_other key other value (s ∷ settings) h =
    let rest = setting-set_setting_other key other value settings h in
    elim (Bool-cases (str_eq s.key key)) [
      | inl e ↦
          let same = subst (λ k. str_eq k other ≡ false) (sym ((eq_iff s.key key).0 e)) h in
          rw (e, same) refl
      | inr e ↦ rw e (ap (λ found. if str_eq s.key other then some s.value else found) rest)
    ]

pub profile_of-profile_text :
    (profile : TelemetryProfile) → profile_of (profile_text profile) ≡ profile
profile_of-profile_text performance = refl
profile_of-profile_text balanced = refl
profile_of-profile_text low_overhead = refl

pub mode_setting-mode_text : (mode : Bool) → mode_setting (some (mode_text mode)) ≡ mode
mode_setting-mode_text true = refl
mode_setting-mode_text false = refl

module _ (n : Numbers) where
  pub stored_profile :
      (profile : TelemetryProfile) (mode : Bool) (service : TelemetryService n)
      → profile_setting
          (setting "telemetry_profile" (configure n no_failure profile mode service).1.db.settings)
        ≡ profile
  unfolding configure
  stored_profile profile mode service =
      let kept =
        setting-set_setting_other "performance_mode" "telemetry_profile" (mode_text mode)
          (set_setting "telemetry_profile" (profile_text profile) service.db.settings) refl in
      let written =
        setting-set_setting "telemetry_profile" (profile_text profile) service.db.settings in
      ap profile_setting (kept ∙ written) ∙ profile_of-profile_text profile

  pub stored_mode :
      (profile : TelemetryProfile) (mode : Bool) (service : TelemetryService n)
      → mode_setting
          (setting "performance_mode" (configure n no_failure profile mode service).1.db.settings)
        ≡ mode
  unfolding configure
  stored_mode profile mode service =
      let written =
        setting-set_setting "performance_mode" (mode_text mode)
          (set_setting "telemetry_profile" (profile_text profile) service.db.settings) in
      ap mode_setting written ∙ mode_setting-mode_text mode

  abbrev pub effective : (db : TelemetryDb n) → ℕ × Bool
  effective db =
      let mode = mode_setting (setting "performance_mode" db.settings) in
      (effective_interval (profile_setting (setting "telemetry_profile" db.settings)) mode, mode)

  pub start-some :
      (host : Host) (raw : RawSnapshot n) (disk : DiskBlocks) (now : ℕ) (db : TelemetryDb n)
      → host.root_disk ≡ some disk
      → (fresh : TelemetryService n) × (start n host (some raw) now db ≡ some fresh)
        × (fresh.interval_seconds ≡ (effective db).0)
        × (fresh.performance_mode ≡ (effective db).1)
        × (fresh.latest.telemetry_interval_seconds ≡ (effective db).0)
        × (fresh.latest.performance_mode ≡ (effective db).1)
        × (fresh.db ≡ db)
  unfolding start build_snapshot snapshot_of
  start-some host raw disk now db h =
      let (seconds, mode) = effective db in
      let initial =
        snapshot_of n host raw raw seconds mode 0 (n.of_u64 0) (n.of_u64 0) (disk_usage disk) in
      (service_of n db now seconds mode initial, rw h refl, refl, refl, refl, refl, refl)

  -- If nothing fails when the settings are stored, and the use of the disk can be read at the next start:
  -- the server starts, its interval and its mode are those that were set, its first sample shows the
  -- interval and the mode that the service shows, and the database is the same.
  pub configure-start :
      (host : Host) (raw : RawSnapshot n) (disk : DiskBlocks) (now : ℕ) (profile : TelemetryProfile)
      (mode : Bool) (service : TelemetryService n)
      → host.root_disk ≡ some disk
      → (let after = (configure n no_failure profile mode service).1 in
          (fresh : TelemetryService n) × (start n host (some raw) now after.db ≡ some fresh)
          × (fresh.interval_seconds ≡ after.interval_seconds)
          × (fresh.performance_mode ≡ after.performance_mode)
          × (fresh.latest.telemetry_interval_seconds ≡ after.latest.telemetry_interval_seconds)
          × (fresh.latest.performance_mode ≡ after.latest.performance_mode)
          × (fresh.db ≡ after.db))
  unfolding configure
  configure-start host raw disk now profile mode service h =
      let after = (configure n no_failure profile mode service).1 in
      let (fresh, started, seconds, is_on, shown, shows_mode, db) =
        start-some host raw disk now after.db h in
      let profiles = stored_profile profile mode service in
      let modes = stored_mode profile mode service in
      let same : (effective after.db).0 ≡ effective_interval profile mode =
        rw (profiles, modes) refl in
      (fresh, started, seconds ∙ same, is_on ∙ modes, shown ∙ same, shows_mode ∙ modes, db)
