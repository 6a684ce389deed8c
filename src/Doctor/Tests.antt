-- ===== src/Doctor/Tests.antt =====
-- Runs of src/doctor.rs at concrete values.
use caroba_guard.Prelude.{
  ℕ, ◌*◌, ◌/◌, ◌%◌, ◌≤◌, String, ◌≡◌, refl, ◌↔◌, Bool, true, false, none, some, List, [], ◌∷◌, ◌++◌,
  ltb, leb, tests, All, codes, to_string,
}
use caroba_guard.Doctor.{
  count, listed, threshold_finding, Floats, Severity, Packages, Sensor, Observed, ok, warning,
  critical,
}
use caroba_guard.Doctor.Updates.{available_updates}
use caroba_guard.Doctor.Report.{run}
use caroba_guard.Doctor.Hottest.{IsNumber}
use caroba_guard.Doctor.Healthy.{run-ok_iff, Healthy}
use caroba_guard.Context.{number_value}

leb_trans : (a b t : ℕ) → ltb b a ≡ false → leb t a ≡ true → leb t b ≡ true
leb_trans a b t h g = grind tests

ltb_asym : (a b : ℕ) → ltb b a ≡ true → ltb a b ≡ false
ltb_asym a b h = grind tests

leb_lower : (a s t : ℕ) → s ≤ t → leb (t * 10) a ≡ true → leb (s * 10) a ≡ true
leb_lower a s t h g = grind tests

-- Numbers in tenths, without a NaN.
abbrev tenths : Floats
tenths = record {
  F = ℕ;
  literal = λ n. n * 10;
  ge = λ a b. leb b a;
  is_nan = λ a. false;
  total_gt = λ a b. ltb b a;
  one_decimal = λ a. to_string (a / 10) ++ (codes "." ++ to_string (a % 10));
  to_json = λ a. number_value (to_string a);
  ge_trans = λ a b t h n g. leb_trans a b t h g;
  total_asym = ltb_asym;
  ge_lower = leb_lower;
}

severity_at : ℕ → Severity
unfolding threshold_finding
severity_at n = (threshold_finding tenths "disk" "Disk" n 80 95 "%").severity

thresholds : (severity_at 799 ≡ ok) × (severity_at 800 ≡ warning) × (severity_at 950 ≡ critical)
unfolding severity_at
thresholds = (refl, refl, refl)

abbrev listing : Packages
listing = record {
  pacman_exists = false;
  apt_exists = true;
  pacman = none;
  apt = some (codes "Listing... Done\nzlib 1.3\n\nbash 5.3\r\n");
}

apt_counts : available_updates false listing ≡ count 2
unfolding available_updates
apt_counts = refl

abbrev sensor : String → ℕ → Sensor tenths
sensor label celsius = record { label = codes label; celsius = celsius }

-- A host on which everything is below the limits, and which is reachable with Secure cookies.
abbrev host_with : List (Sensor tenths) → Bool → Observed tenths
host_with temperatures cookie_secure = record {
  cpu_percent = 799;
  memory_percent = 849;
  disk_percent = 120;
  swap_total_bytes = 0;
  swap_percent = 0;
  temperatures = temperatures;
  docker_available = false;
  docker_socket = codes "/var/run/docker.sock";
  docker_version = none;
  docker_error = none;
  socket_exists = false;
  systemd_available = true;
  systemd_error = none;
  units = listed ((codes "ssh.service", codes "active") ∷ []);
  performance_mode = false;
  packages = listing;
  exposed = true;
  cookie_secure = cookie_secure;
  bind = codes "10.0.0.4:8090";
  now = 1700000000;
}

abbrev sensors : List (Sensor tenths)
sensors = sensor "cpu" 612 ∷ sensor "nvme" 799 ∷ []

abbrev sensors-IsNumber : All (IsNumber tenths) sensors
sensors-IsNumber = (refl, (refl, tt))

insecure_critical :
    ((run tenths (host_with [] false)).overall ≡ critical)
    × ((run tenths (host_with [] false)).issues ≡ 1)
unfolding run available_updates
insecure_critical = (refl, refl)

hot_warning : (run tenths (host_with (sensor "cpu" 850 ∷ sensors) true)).overall ≡ warning
unfolding run available_updates
hot_warning = refl

run-ok_iff_example :
    ((run tenths (host_with sensors true)).overall ≡ ok) ↔ Healthy tenths (host_with sensors true)
run-ok_iff_example = run-ok_iff tenths (host_with sensors true) sensors-IsNumber

all_well : (run tenths (host_with sensors true)).overall ≡ ok
unfolding run available_updates
all_well = refl
