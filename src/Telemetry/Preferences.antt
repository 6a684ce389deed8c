-- ===== src/Telemetry/Preferences.antt =====
-- src/telemetry.rs: the table of the settings as what it stands for.
use caroba_guard.Prelude.{ℕ, ◌≡◌, refl, ap, ◌∙◌, Bool, some, List, [], ◌∷◌}
use caroba_guard.Telemetry.HostFiles.{DiskBlocks, Host}
use caroba_guard.Telemetry.Snapshot.{Numbers, RawSnapshot}
use caroba_guard.Telemetry.Service.{
  profile_text, setting, profile_setting, mode_setting, effective_interval, start, configure,
  TelemetryProfile, Setting, TelemetryService, WriteFailure, no_failure, profile_fails, mode_fails,
}
use caroba_guard.Telemetry.Settings.{
  setting-set_setting, setting-set_setting_other, profile_of-profile_text, stored_profile,
  stored_mode, start-some,
}

-- What the settings mean: a profile, and whether Performance Mode is on.
pub record Preferences : Type 0 where
  pub profile : TelemetryProfile
  pub performance_mode : Bool

abbrev pub preferences : List Setting → Preferences
preferences settings = record {
  profile = profile_setting (setting "telemetry_profile" settings);
  performance_mode = mode_setting (setting "performance_mode" settings);
}

-- The profile is stored before the mode, and the second write can fail alone.
abbrev pub preferred :
    {n : Numbers} → WriteFailure n → TelemetryProfile → Bool → Preferences → Preferences
preferred profile_fails profile mode kept = kept
preferred mode_fails profile mode kept = record kept { profile = profile }
preferred no_failure profile mode kept = record { profile = profile; performance_mode = mode }

module _ (n : Numbers) where
  pub configure-preferences :
      (failure : WriteFailure n) (profile : TelemetryProfile) (mode : Bool)
      (service : TelemetryService n)
      → preferences (configure n failure profile mode service).1.db.settings
        ≡ preferred failure profile mode (preferences service.db.settings)
  unfolding configure
  configure-preferences profile_fails profile mode service = refl
  configure-preferences mode_fails profile mode service =
      let settings = service.db.settings in
      let text = profile_text profile in
      rw
        (
          setting-set_setting "telemetry_profile" text settings,
          setting-set_setting_other "telemetry_profile" "performance_mode" text settings refl,
          profile_of-profile_text profile,
        )
        refl
  configure-preferences no_failure profile mode service =
      rw (stored_profile n profile mode service, stored_mode n profile mode service) refl

  -- A call of configure, and which of its writes fails.
  pub record Call : Type 0 where
    pub failure : WriteFailure n
    pub profile : TelemetryProfile
    pub performance_mode : Bool

  abbrev pub configure_all : List Call → TelemetryService n → TelemetryService n
  configure_all [] service = service
  configure_all (c ∷ cs) service =
      configure_all cs (configure n c.failure c.profile c.performance_mode service).1

  abbrev pub preferred_all : List Call → Preferences → Preferences
  preferred_all [] kept = kept
  preferred_all (c ∷ cs) kept =
      preferred_all cs (preferred c.failure c.profile c.performance_mode kept)

  configure_all-preferences :
      (cs : List Call) (service : TelemetryService n)
      → preferences (configure_all cs service).db.settings
        ≡ preferred_all cs (preferences service.db.settings)
  configure_all-preferences [] service = refl
  configure_all-preferences (c ∷ cs) service =
      configure_all-preferences cs (configure n c.failure c.profile c.performance_mode service).1
      ∙ ap (preferred_all cs) (configure-preferences c.failure c.profile c.performance_mode service)

  -- The settings table implements the preferences: after any calls of configure, of whose writes some fail,
  -- and if the use of the disk can be read, the server starts with the interval and the mode of the
  -- preferences in which the calls leave those that the table had, where a call whose first write fails
  -- changes nothing, and one whose second fails the profile alone.
  pub configure_all-start :
      (cs : List Call) (service : TelemetryService n) (host : Host) (raw : RawSnapshot n)
      (disk : DiskBlocks) (now : ℕ)
      → host.root_disk ≡ some disk
      → (fresh : TelemetryService n) × (start n host (some raw) now (configure_all cs service).db
          ≡ some fresh)
        × (fresh.performance_mode
            ≡ (preferred_all cs (preferences service.db.settings)).performance_mode)
        × (fresh.interval_seconds ≡ (
            let kept = preferred_all cs (preferences service.db.settings) in
            effective_interval kept.profile kept.performance_mode))
  configure_all-start cs service host raw disk now h =
      let (fresh, started, seconds, is_on, _, _, _) =
        start-some n host raw disk now (configure_all cs service).db h in
      let same = configure_all-preferences cs service in
      (
        fresh,
        started,
        is_on ∙ ap (λ p. p.performance_mode) same,
        seconds ∙ ap (λ p. effective_interval p.profile p.performance_mode) same,
      )
