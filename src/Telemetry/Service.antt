-- ===== src/Telemetry/Service.antt =====
-- src/telemetry.rs: the profiles, the settings that keep them (src/db.rs), and what TelemetryService does.
-- Which statements fail, and what the JSON printer and the host say, are arguments.
use caroba_guard.Prelude.{
  ℕ, ◌+◌, ◌*◌, ◌%◌, min, max, String, Bool, true, false, Option, none, some, List, [], ◌∷◌, ◌++◌,
  str_eq, ltb, leb, if◌then◌else◌, take, keep, Bytes, codes, bytes_eq, parse_signed, Signed,
}
use caroba_guard.Telemetry.Counters.{u64}
use caroba_guard.Telemetry.HostFiles.{Host}
use caroba_guard.Telemetry.Snapshot.{build_snapshot, Numbers, SystemSnapshot, RawSnapshot}

pub data TelemetryProfile : Type 0 where
  performance balanced low_overhead : TelemetryProfile

abbrev pub interval : TelemetryProfile → ℕ
interval performance = 5
interval balanced = 15
interval low_overhead = 30

abbrev pub profile_text : TelemetryProfile → Bytes
profile_text performance = codes "performance"
profile_text balanced = codes "balanced"
profile_text low_overhead = codes "low_overhead"

abbrev pub profile_of : Bytes → TelemetryProfile
profile_of value =
    if bytes_eq value (codes "performance")
    then performance
    else if bytes_eq value (codes "low_overhead")
    then low_overhead
    else balanced

pub record Setting : Type 0 where
  pub key : String
  pub value : Bytes

-- `db::setting`
abbrev pub setting : String → List Setting → Option Bytes
setting key [] = none
setting key (s ∷ settings) = if str_eq s.key key then some s.value else setting key settings

-- `db::set_setting`
abbrev pub set_setting : String → Bytes → List Setting → List Setting
set_setting key value [] = record { key = key; value = value } ∷ []
set_setting key value (s ∷ settings) =
    if str_eq s.key key
    then record s { value = value } ∷ settings
    else s ∷ set_setting key value settings

abbrev pub profile_setting : Option Bytes → TelemetryProfile
profile_setting none = balanced
profile_setting (some value) = profile_of value

abbrev pub mode_setting : Option Bytes → Bool
mode_setting none = false
mode_setting (some value) = bytes_eq value (codes "true")

abbrev pub mode_text : Bool → Bytes
mode_text true = codes "true"
mode_text false = codes "false"

abbrev pub effective_interval : TelemetryProfile → Bool → ℕ
effective_interval profile performance_mode = if performance_mode then 60 else interval profile

-- `clamp(1, 365)` of the setting, which is 7 if there is none or it is no number.
abbrev pub clamped_days : Option Signed → ℕ
clamped_days none = 7
clamped_days (some days) = if days.minus then 1 else min (max days.magnitude 1) 365

abbrev pub days_text : Option Bytes → Option Signed
days_text none = none
days_text (some value) = parse_signed 0x8000000000000000 value

unfoldable pub retention_days : List Setting → ℕ
unfolding parse_signed
retention_days settings = clamped_days (days_text (setting "telemetry_retention_days" settings))

module _ (n : Numbers) where
  -- A row of telemetry_samples: the columns that copy the sample, and its JSON text.
  pub record Sample : Type 0 where
    pub sampled_at : ℕ
    pub resolution_seconds : ℕ
    pub columns : SystemSnapshot n
    pub payload_json : Bytes

  pub record TelemetryDb : Type 0 where
    pub settings : List Setting
    pub telemetry_samples : List Sample

  -- `events` holds what was sent to the channel.
  pub record TelemetryService : Type 0 where
    pub latest : SystemSnapshot n
    pub events : List (SystemSnapshot n)
    pub interval_seconds : ℕ
    pub performance_mode : Bool
    pub db_writes : ℕ
    pub sse_bytes : ℕ
    pub started : ℕ
    pub db : TelemetryDb

  abbrev pub service_of : TelemetryDb → ℕ → ℕ → Bool → SystemSnapshot n → TelemetryService
  service_of db now interval_seconds performance_mode initial = record {
    latest = initial;
    events = [];
    interval_seconds = interval_seconds;
    performance_mode = performance_mode;
    db_writes = 0;
    sse_bytes = 0;
    started = now;
    db = db;
  }

  -- The reads succeed; that of the counters or of the disk can fail.
  unfoldable pub start : Host → Option (RawSnapshot n) → ℕ → TelemetryDb → Option TelemetryService
  unfolding build_snapshot
  start host none now db = none
  start host (some raw) now db =
      let profile = profile_setting (setting "telemetry_profile" db.settings) in
      let performance_mode = mode_setting (setting "performance_mode" db.settings) in
      let seconds = effective_interval profile performance_mode in
      elim (build_snapshot n host raw raw seconds performance_mode 0 (n.of_u64 0) (n.of_u64 0)) [
        | none ↦ none
        | some initial ↦ some (service_of db now seconds performance_mode initial)
      ]

  pub data WriteFailure : Type 0 where
    no_failure profile_fails mode_fails : WriteFailure

  abbrev with_setting : String → Bytes → TelemetryService → TelemetryService
  with_setting key value service = record service {
    db = record service.db { settings = set_setting key value service.db.settings };
  }

  abbrev pub relabelled : ℕ → Bool → SystemSnapshot n → SystemSnapshot n
  relabelled seconds performance_mode latest = record latest {
    telemetry_interval_seconds = seconds;
    performance_mode = performance_mode;
  }

  abbrev applied : ℕ → Bool → TelemetryService → TelemetryService
  applied seconds performance_mode service = record service {
    db_writes = (service.db_writes + 2) % u64;
    interval_seconds = seconds;
    performance_mode = performance_mode;
    latest = relabelled seconds performance_mode service.latest;
    events = service.events ++ relabelled seconds performance_mode service.latest ∷ [];
  }

  unfoldable pub configure :
      WriteFailure → TelemetryProfile → Bool → TelemetryService → Option ℕ × TelemetryService
  configure profile_fails profile performance_mode service = (none, service)
  configure mode_fails profile performance_mode service =
      (none, with_setting "telemetry_profile" (profile_text profile) service)
  configure no_failure profile performance_mode service =
      let seconds = effective_interval profile performance_mode in
      (
        some seconds,
        applied seconds performance_mode (
            with_setting "performance_mode" (mode_text performance_mode)
              (with_setting "telemetry_profile" (profile_text profile) service)),
      )

  abbrev pub record_sse_bytes : ℕ → TelemetryService → TelemetryService
  record_sse_bytes bytes service = record service { sse_bytes = (service.sse_bytes + bytes) % u64 }

  -- Whether a sample is kept for so many days.
  abbrev pub is_within : ℕ → ℕ → Sample → Bool
  is_within now days sample = leb now (sample.sampled_at + days * 86400)

  unfoldable pub enforce_retention : ℕ → TelemetryDb → TelemetryDb
  enforce_retention now db = record db {
    telemetry_samples = keep (is_within now (retention_days db.settings)) db.telemetry_samples;
  }

  abbrev insert_newest : Sample → List Sample → List Sample
  insert_newest s [] = s ∷ []
  insert_newest s (t ∷ ts) =
      if ltb s.sampled_at t.sampled_at then t ∷ insert_newest s ts else s ∷ t ∷ ts

  abbrev newest_first : List Sample → List Sample
  newest_first [] = []
  newest_first (s ∷ ss) = insert_newest s (newest_first ss)

  abbrev parsed : (Bytes → Option (SystemSnapshot n)) → List Sample → List (SystemSnapshot n)
  parsed from_str [] = []
  parsed from_str (s ∷ ss) = elim (from_str s.payload_json) [
    | none ↦ parsed from_str ss
    | some sample ↦ sample ∷ parsed from_str ss
  ]

  abbrev reverse_onto : List (SystemSnapshot n) → List (SystemSnapshot n) → List (SystemSnapshot n)
  reverse_onto [] acc = acc
  reverse_onto (s ∷ ss) acc = reverse_onto ss (s ∷ acc)

  -- `limit.clamp(1, 1000)` of an i64.
  abbrev clamped_limit : Signed → ℕ
  clamped_limit limit = if limit.minus then 1 else min (max limit.magnitude 1) 1000

  unfoldable pub history :
      (Bytes → Option (SystemSnapshot n)) → Signed → TelemetryDb → List (SystemSnapshot n)
  history from_str limit db =
      reverse_onto
        (parsed from_str (take (clamped_limit limit) (newest_first db.telemetry_samples))) []
