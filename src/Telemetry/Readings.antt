-- ===== src/Telemetry/Readings.antt =====
-- src/telemetry.rs: one reading of the counters (RawSnapshot::collect). A file that cannot be read is none.
use caroba_guard.Prelude.{
  ℕ, ◌+◌, ◌*◌, ◌%◌, Bool, true, false, ◌&&◌, Option, none, some, List, [], ◌∷◌, leb, ◌==◌,
  unwrap_or, get_elem?, take, first, count_if, codes, starts_with, parse_unsigned, Chars,
  text_lines, split_whitespace,
}
use caroba_guard.Telemetry.Counters.{
  u64, parse_u64, parse_cpu, parse_meminfo, parse_network, read_block_stats,
}
use caroba_guard.Telemetry.Snapshot.{Numbers, RawSnapshot}

infixl 5 ◌>>=◌
abbrev ◌>>=◌ {ℓ κ} : {A : Type ℓ} {B : Type κ} → Option A → (A → Option B) → Option B
none >>= next = none
some a >>= next = next a

pub record ProcFiles : Type 0 where
  pub stat : Option Chars
  pub meminfo : Option Chars
  pub net_dev : Option Chars
  pub block_devices : Option (List (Chars × Option Chars))
  pub uptime : Option Chars
  pub loadavg : Option Chars
  pub proc_entries : Option (List Chars)
  pub self_stat : Option Chars
  pub self_status : Option Chars

abbrev split_at : ℕ → Option Chars → Chars → Option Chars
split_at c found [] = found
split_at c found (d ∷ ds) = elim (d == c) [
  | true ↦ split_at c (some ds) ds
  | false ↦ split_at c found ds
]

-- What `rsplit_once` leaves on the right.
abbrev after_last : ℕ → Chars → Option Chars
after_last c text = split_at c none text

unfoldable pub process_ticks : Option Chars → Option ℕ
unfolding parse_unsigned
process_ticks self_stat = do
  stat ← self_stat
  after_name ← after_last b')' stat
  utime ← get_elem? (split_whitespace after_name) 11
  stime ← get_elem? (split_whitespace after_name) 12
  user ← parse_u64 utime
  system ← parse_u64 stime
  some ((user + system) % u64)

abbrev resident : Option Chars → Option ℕ
resident line = do text ← line; value ← get_elem? (split_whitespace text) 1; parse_u64 value

unfoldable pub self_memory : Option Chars → Option ℕ
unfolding parse_unsigned
self_memory self_status = do
  content ← self_status
  some (
      (unwrap_or (resident (first (starts_with (codes "VmRSS:")) (text_lines content))) 0 * 1024)
      % u64)

abbrev is_digit : ℕ → Bool
is_digit b = leb b'0' b && leb b b'9'

abbrev all_digits : Chars → Bool
all_digits [] = true
all_digits (c ∷ cs) = is_digit c && all_digits cs

module _ (n : Numbers) where
  abbrev parsed_numbers : List Chars → List n.F
  parsed_numbers [] = []
  parsed_numbers (w ∷ ws) = elim (n.parse w) [
    | none ↦ parsed_numbers ws
    | some x ↦ x ∷ parsed_numbers ws
  ]

  abbrev uptime_of : Chars → n.F
  uptime_of content =
      unwrap_or (n.parse (unwrap_or (get_elem? (split_whitespace content) 0) (codes "0")))
        (n.of_u64 0)

  abbrev load_of : Chars → n.F × n.F × n.F
  load_of content =
      let values = parsed_numbers (take 3 (split_whitespace content)) in
      let nth = λ (i : ℕ). unwrap_or (get_elem? values i) (n.of_u64 0) in (nth 0, nth 1, nth 2)

  -- `timestamp` is the time in seconds, `instant` that of the monotone clock in nanoseconds.
  pub collect_raw : ProcFiles → ℕ → ℕ → Option (RawSnapshot n)
  unfolding parse_cpu parse_meminfo parse_network read_block_stats process_ticks self_memory
  collect_raw files instant timestamp = do
    stat ← files.stat
    cpu ← parse_cpu stat
    meminfo ← files.meminfo
    net_dev ← files.net_dev
    devices ← files.block_devices
    uptime ← files.uptime
    loadavg ← files.loadavg
    entries ← files.proc_entries
    let network = parse_network net_dev
    let sectors = read_block_stats (0, 0) devices
    some (record {
      collected_at = instant;
      timestamp = timestamp;
      cpu = cpu;
      process_ticks = unwrap_or (process_ticks files.self_stat) 0;
      memory = parse_meminfo meminfo;
      network_rx = network.0;
      network_tx = network.1;
      disk_read_sectors = sectors.0;
      disk_write_sectors = sectors.1;
      uptime = uptime_of uptime;
      load = load_of loadavg;
      process_count = count_if all_digits entries;
      self_memory = unwrap_or (self_memory files.self_status) 0;
    })
