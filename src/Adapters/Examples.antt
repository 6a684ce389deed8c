-- ===== src/Adapters/Examples.antt =====
-- Runs of what src/docker.rs and src/services.rs read from the two daemons.
use caroba_guard.Prelude.{
  ℕ, ◌*◌, ◌/◌, max, String, ◌≡◌, refl, none, some, [], ◌∷◌, ltb, leb, codes, to_string,
  parse_unsigned, Chars,
}
use caroba_guard.Adapters.Containers.{parse_health, parse_stats}
use caroba_guard.Adapters.{validate_unit, validate_since}
use caroba_guard.Adapters.Units.{parse_properties, details_in, journal_arguments}
use caroba_guard.Telemetry.Snapshot.{Numbers}
use caroba_guard.Context.{null_value, number_value, object_value, no_fields, field, Value, Fields}

-- Whole numbers.
abbrev rounded : Numbers
rounded = record {
  F = ℕ;
  of_u64 = λ a. a * 1000;
  thousandth = 1;
  minus = λ a. 0;
  abs = λ a. a;
  times = λ a b. (a * b) / 1000;
  over = λ a b. (a * 1000) / b;
  max_of = max;
  gt = λ a b. ltb b a;
  le = leb;
  parse = λ text. none;
  as_secs = λ a. 0;
}

abbrev number : String → Value
number text = number_value (codes text)

abbrev one : String → Value → Fields → Fields
one key value fields = field (codes key) value fields

abbrev stats : Value
stats = object_value (
    one "cpu_stats"
      (object_value (
        one "cpu_usage" (object_value (one "total_usage" (number "300") no_fields))
          (one "system_cpu_usage" (number "1000") (one "online_cpus" (number "2") no_fields))))
      (one "precpu_stats"
        (object_value (
          one "cpu_usage" (object_value (one "total_usage" (number "200") no_fields))
            (one "system_cpu_usage" (number "500") no_fields)))
        (one "memory_stats"
          (object_value (
            one "usage" (number "1000") (
              one "limit" (number "4000") (
                one "stats" (object_value (one "inactive_file" (number "100") no_fields))
                  no_fields))))
          no_fields)))

stats_read :
    ((parse_stats rounded stats).cpu_percent ≡ 40000)
    × ((parse_stats rounded stats).memory_used_bytes ≡ 900)
    × ((parse_stats rounded stats).network_rx_bytes ≡ 0)
unfolding parse_stats parse_unsigned
stats_read = (refl, refl, refl)

no_stats : (parse_stats rounded null_value).memory_limit_bytes ≡ 0
unfolding parse_stats parse_unsigned
no_stats = refl

starting : parse_health (codes "Up 2 minutes (health: starting)") ≡ some (codes "starting")
unfolding parse_health
starting = refl

-- The usual state is not found.
healthy : parse_health (codes "Up 2 minutes (healthy)") ≡ none
unfolding parse_health
healthy = refl

abbrev shown : Chars
shown =
    codes
      "Id=sshd.service\nMainPID=42\nMemoryCurrent=[not set]\nRequires=b.service a.service x.mount\nWants=a.service\n"

details_read : details_in (parse_properties shown) ≡ record {
  name = codes "sshd.service";
  description = [];
  load_state = [];
  active_state = [];
  sub_state = [];
  unit_file_state = [];
  main_pid = 42;
  memory_current_bytes = none;
  cpu_usage_nanoseconds = none;
  active_enter_timestamp = [];
  fragment_path = [];
  dependencies = codes "a.service" ∷ codes "b.service" ∷ [];
}
unfolding details_in parse_properties parse_unsigned
details_read = refl

bad_since : journal_arguments (codes "sshd.service") 10 (some (codes "now; rm")) ≡ none
unfolding journal_arguments validate_unit validate_since to_string
bad_since = refl
