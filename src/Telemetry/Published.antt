-- ===== src/Telemetry/Published.antt =====
-- src/telemetry.rs: what the statements of a round after its sample change of the settings and the sample.
use caroba_guard.Prelude.{
  ℕ, ◌%◌, ◌≡◌, refl, sym, ap, inl, inr, Bool, not, ◌&&◌, Option, none, some, [], ◌∷◌, ◌++◌, ltb,
  ◌==◌, Bool-cases, Option-cases, unwrap_or, Bytes,
}
use caroba_guard.Telemetry.HostFiles.{root_disk_usage, Host}
use caroba_guard.Telemetry.Snapshot.{
  snapshot_of, build_snapshot, Numbers, SystemSnapshot, RawSnapshot,
}
use caroba_guard.Telemetry.Service.{TelemetryService}
use caroba_guard.Telemetry.Collector.{publish, stored, retain, Round}

module _ (n : Numbers) where
  -- What the statements after a sample leave alone.
  pub record Shows (s t : TelemetryService n) : Type 0 where
    pub seconds : t.interval_seconds ≡ s.interval_seconds
    pub mode : t.performance_mode ≡ s.performance_mode
    pub latest : t.latest ≡ s.latest

  pub retain-Shows :
      (round : Round n) (k : ℕ) (s : TelemetryService n) → Shows s (retain n round k s)
  retain-Shows round k s = elim (Bool-cases (k % 240 == 0 && not round.retention_fails)) [
    | inl e ↦ rw e (record { seconds = refl; mode = refl; latest = refl })
    | inr e ↦ rw e (record { seconds = refl; mode = refl; latest = refl })
  ]

  pub stored-Shows :
      (round : Round n) (k : ℕ) (x : SystemSnapshot n) (s : TelemetryService n) (o : Option Bytes)
      → Shows s (stored n round k x s o)
  stored-Shows round k x s none = record { seconds = refl; mode = refl; latest = refl }
  stored-Shows round k x s (some payload) = elim (Bool-cases round.insert_fails) [
    | inl f ↦ rw f (record { seconds = refl; mode = refl; latest = refl })
    | inr f ↦ rw f (record { seconds = refl; mode = refl; latest = refl })
  ]

  pub publish-Shows :
      (round : Round n) (x : SystemSnapshot n) (s : TelemetryService n)
      → Shows (record s { latest = x }) (publish n round x s)
  publish-Shows round x s = elim (Option-cases (round.to_json x)) [
    | inl e ↦ rw e (record { seconds = refl; mode = refl; latest = refl })
    | inr (payload, e) ↦ elim (Bool-cases (ltb 0 round.receiver_count)) [
      | inl f ↦ rw (e, f) (record { seconds = refl; mode = refl; latest = refl })
      | inr f ↦ rw (e, f) (record { seconds = refl; mode = refl; latest = refl })
    ]
  ]

  pub publish-sends :
      (round : Round n) (x : SystemSnapshot n) (s : TelemetryService n)
      → (publish n round x s).events ≡ s.events ++ x ∷ []
  publish-sends round x s = elim (Option-cases (round.to_json x)) [
    | inl e ↦ rw e refl
    | inr (payload, e) ↦ elim (Bool-cases (ltb 0 round.receiver_count)) [
      | inl f ↦ rw (e, f) refl
      | inr f ↦ rw (e, f) refl
    ]
  ]

  pub build_snapshot-shows :
      (host : Host) (previous current : RawSnapshot n) (seconds : ℕ) (mode : Bool) (size : ℕ)
      (sse writes : n.F) {x : SystemSnapshot n}
      → build_snapshot n host previous current seconds mode size sse writes ≡ some x
      → (x.telemetry_interval_seconds ≡ seconds) × (x.performance_mode ≡ mode)
  unfolding build_snapshot snapshot_of
  build_snapshot-shows host previous current seconds mode size sse writes {x} h =
      elim (Option-cases (root_disk_usage host.root_disk)) [
        | inl e ↦ absurd (cc (rw (e, build_snapshot) at h))
        | inr (disk, e) ↦
            let same = ap (λ o. unwrap_or o x) (rw (e, build_snapshot) at h) in
            (
              sym (ap (λ y. y.telemetry_interval_seconds) same),
              sym (ap (λ y. y.performance_mode) same),
            )
      ]
