-- ===== src/Doctor.antt =====
-- src/doctor.rs: the findings on the host, and how severe they are together. Floating-point numbers are
-- a parameter; what the adapters, the sensors and the package manager report is the record Observed.
pub mod Updates
pub mod Report
pub mod Hottest
pub mod Healthy
mod Tests
use caroba_guard.Prelude.{
  ℕ, ◌%◌, ◌≤◌, String, ◌≡◌, Bool, true, false, not, Option, none, some, List, [], ◌∷◌, ◌++◌, ◌==◌,
  if◌then◌else◌, Bytes, codes, Chars,
}
use caroba_guard.Context.{number_value, string_value, object_value, no_fields, field, Value}

-- `f64`, with the order of `total_cmp`. What is above a threshold is above the lower ones, and what is
-- not less than it in the total order is above the threshold too, unless it is not a number.
pub record Floats : Type 1 where
  pub F : Type 0
  pub literal : ℕ → F
  pub ge : F → F → Bool
  pub is_nan : F → Bool
  pub total_gt : F → F → Bool
  pub one_decimal : F → Bytes
  pub to_json : F → Value
  pub ge_trans :
      (a b t : F) → total_gt a b ≡ false → is_nan b ≡ false → ge a t ≡ true → ge b t ≡ true
  pub total_asym : (a b : F) → total_gt a b ≡ true → total_gt b a ≡ false
  pub ge_lower : (a : F) (s t : ℕ) → s ≤ t → ge a (literal t) ≡ true → ge a (literal s) ≡ true

pub data Severity : Type 0 where
  ok info warning critical unavailable : Severity

-- `confidence` counts tenths.
pub record Finding : Type 0 where
  pub category : String
  pub severity : Severity
  pub title : Bytes
  pub details : Bytes
  pub confidence : ℕ
  pub evidence : Value

pub record DoctorReport : Type 0 where
  pub checked_at : ℕ
  pub overall : Severity
  pub issues : ℕ
  pub findings : List Finding

pub data UpdateCount : Type 0 where
  count : ℕ → UpdateCount
  skipped not_available : UpdateCount

abbrev pub finding : String → Severity → String → Bytes → ℕ → Value → Finding
finding category severity title details confidence evidence = record {
  category = category;
  severity = severity;
  title = codes title;
  details = details;
  confidence = confidence;
  evidence = evidence;
}

abbrev pub no_evidence : Value
no_evidence = object_value no_fields

abbrev pub one_field : String → Value → Value
one_field key value = object_value (field (codes key) value no_fields)

abbrev pub is_alarming : Severity → Bool
is_alarming warning = true
is_alarming critical = true
is_alarming _ = false

abbrev pub is_critical : Severity → Bool
is_critical critical = true
is_critical _ = false

-- Which package managers are installed, and what the one that is asked writes: none if it fails or
-- takes longer than 15 seconds. Its text is the list of its code points.
pub record Packages : Type 0 where
  pub pacman_exists : Bool
  pub apt_exists : Bool
  pub pacman : Option Chars
  pub apt : Option Chars

-- `systemctl list-units`, or why it failed.
pub data Units : Type 0 where
  listed : List (Bytes × Bytes) → Units
  unlisted : Bytes → Units

module _ (f : Floats) where
  pub record Sensor : Type 0 where
    pub label : Bytes
    pub celsius : f.F

  pub record Observed : Type 0 where
    pub cpu_percent : f.F
    pub memory_percent : f.F
    pub disk_percent : f.F
    pub swap_total_bytes : ℕ
    pub swap_percent : f.F
    pub temperatures : List Sensor
    pub docker_available : Bool
    pub docker_socket : Bytes
    pub docker_version : Option Bytes
    pub docker_error : Option Bytes
    pub socket_exists : Bool
    pub systemd_available : Bool
    pub systemd_error : Option Bytes
    pub units : Units
    pub performance_mode : Bool
    pub packages : Packages
    pub exposed : Bool
    pub cookie_secure : Bool
    pub bind : Bytes
    pub now : ℕ

  abbrev pub threshold_severity : f.F → ℕ → ℕ → Severity
  threshold_severity value warn crit =
      if f.ge value (f.literal crit)
      then critical
      else if f.ge value (f.literal warn)
      then warning
      else ok

  abbrev pub state_text : Severity → Bytes
  state_text critical = codes "critical"
  state_text warning = codes "elevated"
  state_text _ = codes "within threshold"

  pub threshold_finding : String → String → f.F → ℕ → ℕ → String → Finding
  threshold_finding category label value warn crit suffix =
      let severity = threshold_severity value warn crit in
      finding category severity label
        (f.one_decimal value
          ++ (codes suffix ++ (codes "; " ++ (state_text severity ++ codes "."))))
        10
        (object_value (
          field (codes "value") (f.to_json value) (
            field (codes "warning_threshold") (f.to_json (f.literal warn))
              (field (codes "critical_threshold") (f.to_json (f.literal crit)) no_fields))))

  pub swap_finding : Observed → Finding
  unfolding threshold_finding
  swap_finding o =
      if o.swap_total_bytes == 0
      then finding "swap" info "Swap not configured"
          (codes "This can be intentional; memory pressure has less safety margin.") 10
          (one_field "total_bytes" (number_value (codes "0")))
      else threshold_finding "swap" "Swap" o.swap_percent 40 80 "% used"

  -- `Iterator::max_by`: of several greatest ones the last.
  pub hottest : List Sensor → Option Sensor
  hottest [] = none
  hottest (s ∷ ss) = elim (hottest ss) [
    | none ↦ some s
    | some t ↦ if f.total_gt s.celsius t.celsius then some s else some t
  ]

  abbrev pub sensor_evidence : Sensor → Value
  sensor_evidence s = object_value (
      field (codes "sensor") (string_value s.label)
        (field (codes "celsius") (f.to_json s.celsius) no_fields))

  abbrev pub reports : Sensor → Bytes
  reports s = s.label ++ (codes " reports " ++ (f.one_decimal s.celsius ++ codes " °C."))

  pub sensor_finding : Option Sensor → Finding
  sensor_finding none =
      finding "temperature" unavailable "Temperature sensors unavailable"
        (codes "The kernel did not expose thermal zones to CarobaGuard.") 10 no_evidence
  sensor_finding (some s) =
      if f.ge s.celsius (f.literal 90)
      then finding "temperature" critical "Temperature is critical" (reports s) 9
          (sensor_evidence s)
      else if f.ge s.celsius (f.literal 80)
      then finding "temperature" warning "Temperature is elevated" (reports s) 9 (sensor_evidence s)
      else finding "temperature" ok "Temperatures"
          (codes "Highest sensor is "
            ++ (s.label ++ (codes " at " ++ (f.one_decimal s.celsius ++ codes " °C."))))
          9 (sensor_evidence s)
