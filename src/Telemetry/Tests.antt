-- ===== src/Telemetry/Tests.antt =====
-- Runs of src/telemetry.rs at concrete values.
use caroba_guard.Prelude.{
  ℕ, ◌+◌, ◌*◌, ◌/◌, max, String, ◌≡◌, refl, true, false, none, some, List, [], ◌∷◌, ltb, leb,
  length, keep, All, codes, parse_unsigned, parse_signed,
}
use caroba_guard.Telemetry.Counters.{
  parse_u64, parse_cpu, parse_meminfo, mem, parse_network, CpuCounter,
}
use caroba_guard.Telemetry.HostFiles.{disk_usage, DiskBlocks, Host}
use caroba_guard.Telemetry.Snapshot.{
  read_temperatures, snapshot_of, build_snapshot, Numbers, SystemSnapshot, RawSnapshot,
}
use caroba_guard.Telemetry.Service.{
  effective_interval, retention_days, service_of, start, configure, is_within, enforce_retention,
  Setting, Sample, TelemetryDb, TelemetryService, performance, low_overhead, no_failure, mode_fails,
}
use caroba_guard.Telemetry.Readings.{process_ticks, self_memory}
use caroba_guard.Telemetry.Collector.{
  take_counts, show_sample, keep_sample, end_round, Round, Collector, asleep,
}
use caroba_guard.Telemetry.Settings.{start-some}
use caroba_guard.Telemetry.Preferences.{
  preferences, configure_all, preferred_all, configure_all-start, Call,
}
use caroba_guard.Telemetry.Reachable.{collecting, starts}
use caroba_guard.Telemetry.Settling.{shown_next, Reach-Settled, Settled}
use caroba_guard.Telemetry.Retention.{enforce_retention-bounds}

abbrev counter : ℕ → ℕ → CpuCounter
counter total idle = record { total = total; idle = idle }

cpu_lines :
    parse_cpu (codes "cpu  10 0 5 85 0 0 0 0\ncpu0 10 0 5 85 0 0 0 0\nintr 4\ncpu1 1 1 1 1\n")
    ≡ some (counter 100 85 ∷ counter 100 85 ∷ [])
unfolding parse_cpu parse_unsigned
cpu_lines = refl

no_cpu : parse_cpu (codes "intr 4\n") ≡ none
unfolding parse_cpu parse_unsigned
no_cpu = refl

loopback_ignored :
    parse_network (
      codes
        "Inter-|\n face |\n lo: 100 0 0 0 0 0 0 0 200 0 0 0 0 0 0 0\n eth0: 500 0 0 0 0 0 0 0 900 0 0 0 0 0 0 0\n")
    ≡ (500, 900)
unfolding parse_network parse_unsigned
loopback_ignored = refl

meminfo_kib :
    mem (parse_meminfo (codes "MemTotal: 1024 kB\nMemAvailable: 512 kB\n")) "MemTotal" ≡ 1048576
unfolding mem parse_meminfo parse_unsigned
meminfo_kib = refl

-- Whole numbers.
abbrev whole : Numbers
whole = record {
  F = ℕ;
  of_u64 = λ a. a;
  thousandth = 1;
  minus = λ a. 0;
  abs = λ a. a;
  times = λ a b. a * b;
  over = λ a b. a / b;
  max_of = max;
  gt = λ a b. ltb b a;
  le = leb;
  parse = parse_u64;
  as_secs = λ a. a / 1000000000;
}

abbrev disk : DiskBlocks
disk = record { f_frsize = 4096; f_blocks = 1000; f_bavail = 400 }

abbrev host : Host
host = record {
  hostname = some (codes "box\n");
  os_release = some (codes "NAME=Arch\nPRETTY_NAME=\"Arch Linux\"\n");
  kernel = none;
  architecture = codes "x86_64";
  cpu_frequency = some (codes "3600000\n");
  root_disk = some disk;
  executable_bytes = none;
  thermal = some (
      record { file_name = codes "thermal_zone0"; temp = some (codes "61200\n"); kind = none }
      ∷ []);
}

abbrev raw_at : ℕ → ℕ → ℕ → RawSnapshot whole
raw_at seconds total idle = record {
  collected_at = seconds * 1000000000;
  timestamp = 1700000000 + seconds;
  cpu = counter total idle ∷ [];
  process_ticks = 0;
  memory = [];
  network_rx = 0;
  network_tx = 0;
  disk_read_sectors = 0;
  disk_write_sectors = 0;
  uptime = 0;
  load = (0, 0, 0);
  process_count = 1;
  self_memory = 0;
}

abbrev setting_of : String → String → Setting
setting_of key value = record { key = key; value = codes value }

abbrev db : TelemetryDb whole
db = record {
  settings =
      setting_of "telemetry_profile" "balanced"
      ∷ setting_of "performance_mode" "false"
      ∷ setting_of "telemetry_retention_days" "7"
      ∷ [];
  telemetry_samples = [];
}

abbrev begun : Collector whole
begun =
    collecting whole (raw_at 0 100 85) (start-some whole host (raw_at 0 100 85) disk 0 db refl).0

abbrev round : Round whole
round = record {
  host = host;
  current = some (raw_at 15 200 160);
  now = 15000000000;
  unix_now = 1700000015;
  database_size = some 4096;
  receiver_count = 1;
  to_json = λ s. some (codes "{}");
  insert_fails = false;
  retention_fails = false;
}

Reach-Settled_example : Settled whole begun.service (shown_next whole round begun)
Reach-Settled_example =
    Reach-Settled whole round (raw_at 15 200 160) disk
      (starts host (raw_at 0 100 85) disk 0 db refl) refl refl refl

abbrev calls : List (Call whole)
calls =
    record { failure = no_failure; profile = performance; performance_mode = false }
    ∷ record { failure = mode_fails; profile = low_overhead; performance_mode = true }
    ∷ []

-- The second call is answered with an error, and has changed the profile.
half_stored :
    preferred_all whole calls (preferences db.settings)
    ≡ record { profile = low_overhead; performance_mode = false }
half_stored = refl

configure_all-start_example :
    (fresh : TelemetryService whole) × (start whole host
        (some (raw_at 0 100 85))
        7
        (configure_all whole calls begun.service).db
      ≡ some fresh)
    × (fresh.performance_mode
        ≡ (preferred_all whole calls (preferences begun.service.db.settings)).performance_mode)
    × (fresh.interval_seconds ≡ (
        let kept = preferred_all whole calls (preferences begun.service.db.settings) in
        effective_interval kept.profile kept.performance_mode))
configure_all-start_example =
    configure_all-start whole calls begun.service host (raw_at 0 100 85) disk 7 refl

abbrev initial : SystemSnapshot whole
initial =
    snapshot_of whole host (raw_at 0 100 85) (raw_at 0 100 85) 15 false 0 0 0 (disk_usage disk)

abbrev sleeping : Collector whole
sleeping = record {
  service = service_of whole db 0 15 false initial;
  previous = raw_at 0 100 85;
  samples = 239;
  interval = 15;
  stage = asleep;
}

abbrev configured : Collector whole → Collector whole
configured c = record c { service = (configure whole no_failure performance true c.service).1 }

-- The settings change while the collector sleeps: the next sample shows the new mode with the old interval.
abbrev woken : Collector whole
woken = show_sample whole round (take_counts whole round (configured sleeping))

stale_interval :
    (woken.service.latest.performance_mode ≡ true)
    × (woken.service.latest.telemetry_interval_seconds ≡ 15)
    × (woken.service.interval_seconds ≡ 60)
    × (woken.service.latest.cpu_percent ≡ 0)
    × ((end_round whole round (keep_sample whole round woken)).service.db_writes ≡ 4)
unfolding take_counts show_sample keep_sample end_round configure build_snapshot snapshot_of
    enforce_retention retention_days mem read_temperatures parse_unsigned parse_signed
stale_interval = (refl, refl, refl, refl, refl)

-- They change while the size of the database is queried: the next sample shows the old mode too.
abbrev overtaken : Collector whole
overtaken = show_sample whole round (configured (take_counts whole round sleeping))

stale_mode :
    (overtaken.service.latest.performance_mode ≡ false)
    × (overtaken.service.performance_mode ≡ true)
unfolding take_counts show_sample configure build_snapshot snapshot_of mem read_temperatures
    parse_unsigned parse_signed
stale_mode = (refl, refl)

abbrev sample_at : ℕ → Sample whole
sample_at seconds = record {
  sampled_at = seconds;
  resolution_seconds = 15;
  columns = initial;
  payload_json = codes "{}";
}

abbrev old_db : TelemetryDb whole
old_db = record db { telemetry_samples = sample_at 1699999999 ∷ sample_at 1690000000 ∷ [] }

enforce_retention-bounds_example :
    All
      (λ s. is_within whole 1700000000 365 s ≡ true)
      (enforce_retention whole 1700000000 old_db).telemetry_samples
    × (keep
          (is_within whole 1700000000 1)
          (enforce_retention whole 1700000000 old_db).telemetry_samples
        ≡ keep (is_within whole 1700000000 1) old_db.telemetry_samples)
    × ((enforce_retention whole 1700000000 old_db).settings ≡ old_db.settings)
enforce_retention-bounds_example = enforce_retention-bounds whole 1700000000 old_db

one_kept : length (enforce_retention whole 1700000000 old_db).telemetry_samples ≡ 1
unfolding enforce_retention retention_days parse_signed parse_unsigned
one_kept = refl

ticks : process_ticks (some (codes "7 (a) b) S 1 2 3 4 5 6 7 8 9 10 30 12 13")) ≡ some 42
unfolding process_ticks parse_unsigned
ticks = refl

resident_memory : self_memory (some (codes "Name: x\nVmRSS:\t 8 kB\n")) ≡ some 8192
unfolding self_memory parse_unsigned
resident_memory = refl
