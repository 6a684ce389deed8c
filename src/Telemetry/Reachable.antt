-- ===== src/Telemetry/Reachable.antt =====
-- src/telemetry.rs: the service with its collector, between whose steps the settings change.
use caroba_guard.Prelude.{
  ℕ, ◌+◌, ◌%◌, ◌≤◌, String, ◌≡◌, refl, Bool, Option, none, some, [], ◌∷◌, ◌++◌, arith, Bytes,
}
use caroba_guard.Telemetry.HostFiles.{DiskBlocks, Host}
use caroba_guard.Telemetry.Snapshot.{Numbers, SystemSnapshot, RawSnapshot}
use caroba_guard.Telemetry.Service.{
  profile_text, setting, set_setting, profile_setting, mode_text, effective_interval, relabelled,
  configure, record_sse_bytes, TelemetryProfile, TelemetryDb, TelemetryService, performance,
  balanced, low_overhead, no_failure,
}
use caroba_guard.Telemetry.Counters.{u64}
use caroba_guard.Telemetry.Collector.{
  took, showed, kept, wake_at, wake, take_at, take_counts, snapshot_of_taken, show_built, show_at,
  show_sample, keep_at, keep_sample, retain_at, end_round, Round, Taken, Stage, Collector, looping,
  asleep,
}
use caroba_guard.Telemetry.Settings.{effective, start-some}
use caroba_guard.Telemetry.Published.{
  retain-Shows, stored-Shows, publish-Shows, build_snapshot-shows, Shows,
}

module _ (n : Numbers) where
  abbrev pub collecting : RawSnapshot n → TelemetryService n → Collector n
  collecting raw service = record {
    service = service;
    previous = raw;
    samples = 0;
    interval = service.interval_seconds;
    stage = looping;
  }

  -- The parts of `configure` between which other calls and the collector can run.
  abbrev pub store_setting : String → Bytes → TelemetryService n → TelemetryService n
  store_setting key value service = record service {
    db = record (service.db) { settings = set_setting key value service.db.settings };
  }

  abbrev pub count_writes : TelemetryService n → TelemetryService n
  count_writes service = record service { db_writes = (service.db_writes + 2) % u64 }

  abbrev pub set_interval : TelemetryProfile → Bool → TelemetryService n → TelemetryService n
  set_interval profile mode service = record service {
    interval_seconds = effective_interval profile mode;
  }

  abbrev pub set_mode : Bool → TelemetryService n → TelemetryService n
  set_mode mode service = record service { performance_mode = mode }

  abbrev pub show_settings : TelemetryProfile → Bool → TelemetryService n → TelemetryService n
  show_settings profile mode service =
      let shown = relabelled n (effective_interval profile mode) mode service.latest in
      record service { latest = shown; events = service.events ++ shown ∷ [] }

  pub configure-parts :
      (profile : TelemetryProfile) (mode : Bool) (service : TelemetryService n)
      → (configure n no_failure profile mode service).1
        ≡ show_settings profile mode (
            set_mode mode (
              set_interval profile mode (
                count_writes (
                  store_setting "performance_mode"
                    (mode_text mode)
                    (store_setting "telemetry_profile" (profile_text profile) service)))))
  unfolding configure
  configure-parts profile mode service = refl

  abbrev pub serving : (TelemetryService n → TelemetryService n) → Collector n → Collector n
  serving part c = record c { service = part c.service }

  -- The parts of any calls of `configure`, in any order, the samples that are sent, and the collector's.
  pub data Step : Collector n → Collector n → Type 0 where
    stores_setting :
        (c : Collector n) (key : String) (value : Bytes)
        → Step c (serving (store_setting key value) c)
    counts_writes : (c : Collector n) → Step c (serving count_writes c)
    sets_interval :
        (c : Collector n) (profile : TelemetryProfile) (mode : Bool)
        → Step c (serving (set_interval profile mode) c)
    sets_mode : (c : Collector n) (mode : Bool) → Step c (serving (set_mode mode) c)
    shows_settings :
        (c : Collector n) (profile : TelemetryProfile) (mode : Bool)
        → Step c (serving (show_settings profile mode) c)
    sends : (c : Collector n) (bytes : ℕ) → Step c (serving (record_sse_bytes n bytes) c)
    wakes : (c : Collector n) → Step c (wake n c)
    takes : (c : Collector n) (round : Round n) → Step c (take_counts n round c)
    shows : (c : Collector n) (round : Round n) → Step c (show_sample n round c)
    keeps : (c : Collector n) (round : Round n) → Step c (keep_sample n round c)
    ends : (c : Collector n) (round : Round n) → Step c (end_round n round c)

  pub data Reach : Collector n → Type 0 where
    starts :
        (host : Host) (raw : RawSnapshot n) (disk : DiskBlocks) (now : ℕ) (db : TelemetryDb n)
        → (h : host.root_disk ≡ some disk)
        → Reach (collecting raw (start-some n host raw disk now db h).0)
    steps : {c d : Collector n} → Reach c → Step c d → Reach d

  abbrev pub InRange : ℕ → Type 0
  InRange seconds = (5 ≤ seconds) × (seconds ≤ 60)

  -- The three intervals: of the service, of the collector's sleep, and of the latest sample.
  pub record IsSound (c : Collector n) : Type 0 where
    pub seconds : InRange c.service.interval_seconds
    pub waits : InRange c.interval
    pub shown : InRange c.service.latest.telemetry_interval_seconds

  effective_interval-bounds :
      (profile : TelemetryProfile) (mode : Bool)
      → (5 ≤ effective_interval profile mode) × (effective_interval profile mode ≤ 60)
  effective_interval-bounds performance mode = (ground arith, ground arith)
  effective_interval-bounds balanced mode = (ground arith, ground arith)
  effective_interval-bounds low_overhead mode = (ground arith, ground arith)

  Shows-IsSound :
      (c : Collector n) (t : TelemetryService n) (k : ℕ) (stage : Stage n)
      → Shows n c.service t
      → IsSound c
      → IsSound (record c { service = t; samples = k; stage = stage })
  Shows-IsSound c t k stage s h = record {
    seconds = rw s.seconds h.seconds;
    waits = h.waits;
    shown = rw s.latest h.shown;
  }

  wake_at-IsSound : (stage : Stage n) (c : Collector n) → IsSound c → IsSound (wake_at n stage c)
  wake_at-IsSound looping c h = record { seconds = h.seconds; waits = h.seconds; shown = h.shown }
  wake_at-IsSound asleep c h = h
  wake_at-IsSound (took t) c h = h
  wake_at-IsSound (showed x) c h = h
  wake_at-IsSound kept c h = h

  take_at-IsSound :
      (stage : Stage n) (round : Round n) (current : Option (RawSnapshot n)) (c : Collector n)
      → IsSound c
      → IsSound (take_at n stage round current c)
  take_at-IsSound asleep round none c h = record {
    seconds = h.seconds;
    waits = h.waits;
    shown = h.shown;
  }
  take_at-IsSound asleep round (some current) c h = record {
    seconds = h.seconds;
    waits = h.waits;
    shown = h.shown;
  }
  take_at-IsSound looping round current c h = h
  take_at-IsSound (took t) round current c h = h
  take_at-IsSound (showed x) round current c h = h
  take_at-IsSound kept round current c h = h

  show_built-IsSound :
      (round : Round n) (c : Collector n) (t : Taken n) (o : Option (SystemSnapshot n))
      → snapshot_of_taken n round c t ≡ o
      → IsSound c
      → IsSound (show_built n round t.current o c)
  show_built-IsSound round c t none e h = record {
    seconds = h.seconds;
    waits = h.waits;
    shown = h.shown;
  }
  show_built-IsSound round c t (some x) e h =
      let (seconds, mode) =
        build_snapshot-shows n round.host c.previous t.current c.interval t.performance_mode _ _ _
          e in
      let s = publish-Shows n round x c.service in
      record {
        seconds = rw s.seconds h.seconds;
        waits = h.waits;
        shown = rw (s.latest, seconds) h.waits;
      }

  show_at-IsSound :
      (stage : Stage n) (round : Round n) (c : Collector n)
      → IsSound c
      → IsSound (show_at n stage round c)
  show_at-IsSound (took t) round c h =
      show_built-IsSound round c t (snapshot_of_taken n round c t) refl h
  show_at-IsSound looping round c h = h
  show_at-IsSound asleep round c h = h
  show_at-IsSound (showed x) round c h = h
  show_at-IsSound kept round c h = h

  keep_at-IsSound :
      (stage : Stage n) (round : Round n) (c : Collector n)
      → IsSound c
      → IsSound (keep_at n stage round c)
  keep_at-IsSound (showed x) round c h =
      Shows-IsSound c _ _ kept (stored-Shows n round c.interval x c.service (round.to_json x)) h
  keep_at-IsSound looping round c h = h
  keep_at-IsSound asleep round c h = h
  keep_at-IsSound (took t) round c h = h
  keep_at-IsSound kept round c h = h

  retain_at-IsSound :
      (stage : Stage n) (round : Round n) (c : Collector n)
      → IsSound c
      → IsSound (retain_at n stage round c)
  retain_at-IsSound kept round c h =
      Shows-IsSound c _ c.samples looping (retain-Shows n round c.samples c.service) h
  retain_at-IsSound looping round c h = h
  retain_at-IsSound asleep round c h = h
  retain_at-IsSound (took t) round c h = h
  retain_at-IsSound (showed x) round c h = h

  collecting-IsSound :
      (host : Host) (raw : RawSnapshot n) (disk : DiskBlocks) (now : ℕ) (db : TelemetryDb n)
      (h : host.root_disk ≡ some disk)
      → IsSound (collecting raw (start-some n host raw disk now db h).0)
  collecting-IsSound host raw disk now db h =
      let (fresh, _, seconds, is_on, shown, shows_mode, _) = start-some n host raw disk now db h in
      let profile = profile_setting (setting "telemetry_profile" db.settings) in
      let bounds = effective_interval-bounds profile (effective n db).1 in
      record { seconds = rw seconds bounds; waits = rw seconds bounds; shown = rw shown bounds }

  Step-IsSound : {c d : Collector n} → Step c d → IsSound c → IsSound d
  unfolding wake take_counts show_sample keep_sample end_round
  Step-IsSound (stores_setting c key value) h = record {
    seconds = h.seconds;
    waits = h.waits;
    shown = h.shown;
  }
  Step-IsSound (counts_writes c) h = record {
    seconds = h.seconds;
    waits = h.waits;
    shown = h.shown;
  }
  Step-IsSound (sets_interval c profile mode) h = record {
    seconds = effective_interval-bounds profile mode;
    waits = h.waits;
    shown = h.shown;
  }
  Step-IsSound (sets_mode c mode) h = record {
    seconds = h.seconds;
    waits = h.waits;
    shown = h.shown;
  }
  Step-IsSound (shows_settings c profile mode) h = record {
    seconds = h.seconds;
    waits = h.waits;
    shown = effective_interval-bounds profile mode;
  }
  Step-IsSound (sends c bytes) h = record { seconds = h.seconds; waits = h.waits; shown = h.shown }
  Step-IsSound (wakes c) h = wake_at-IsSound c.stage c h
  Step-IsSound (takes c round) h = take_at-IsSound c.stage round round.current c h
  Step-IsSound (shows c round) h = show_at-IsSound c.stage round c h
  Step-IsSound (keeps c round) h = keep_at-IsSound c.stage round c h
  Step-IsSound (ends c round) h = retain_at-IsSound c.stage round c h

  pub Reach-IsSound : {c : Collector n} → Reach c → IsSound c
  Reach-IsSound (starts host raw disk now db h) = collecting-IsSound host raw disk now db h
  Reach-IsSound (steps r s) = Step-IsSound s (Reach-IsSound r)
