-- ===== src/Telemetry/Counters.antt =====
-- src/telemetry.rs: the counters that are read from the texts of /proc and /sys. A text is the list of its
-- code points; a sum of u64 wraps around as in a release build.
use caroba_guard.Prelude.{
  ℕ, ◌+◌, ◌-◌, ◌*◌, ◌%◌, min, String, true, false, ◌||◌, Option, none, some, List, [], ◌∷◌, leb,
  if◌then◌else◌, unwrap_or, length, get_elem?, drop, any, codes, bytes_eq, starts_with, split_once,
  parse_unsigned, Chars, trim_chars, text_lines, split_whitespace,
}

pub record CpuCounter : Type 0 where
  pub total : ℕ
  pub idle : ℕ

abbrev pub u64 : ℕ
u64 = 0x10000000000000000

abbrev pub parse_u64 : Chars → Option ℕ
parse_u64 text = parse_unsigned u64 text

abbrev saturating_u64 : ℕ → ℕ → ℕ
saturating_u64 a b = min (a + b) (u64 - 1)

-- `filter_map(|value| value.parse().ok())`
abbrev pub numbers : List Chars → List ℕ
numbers [] = []
numbers (w ∷ ws) = elim (parse_u64 w) [ none ↦ numbers ws | some n ↦ n ∷ numbers ws ]

abbrev sum : List ℕ → ℕ
sum [] = 0
sum (n ∷ ns) = (n + sum ns) % u64

abbrev tail_of : List Chars → List Chars
tail_of [] = []
tail_of (w ∷ ws) = ws

-- The first value is the total of the parts; the third and fourth are the idle time and the waits.
abbrev counter_of : List ℕ → Option CpuCounter
counter_of (a ∷ b ∷ c ∷ d ∷ parts) = some (record {
  total = sum (a ∷ b ∷ c ∷ d ∷ parts);
  idle = (d + unwrap_or (get_elem? parts 0) 0) % u64;
})
counter_of parts = none

abbrev cpu_line : Chars → Option CpuCounter
cpu_line line = counter_of (numbers (tail_of (split_whitespace line)))

-- The lines up to the first one that does not start with "cpu".
pub cpu_counters : List Chars → List CpuCounter
cpu_counters [] = []
cpu_counters (line ∷ lines) =
    let rest = cpu_counters lines in
    elim (starts_with (codes "cpu") line) [
      | false ↦ []
      | true ↦ elim (cpu_line line) [ none ↦ rest | some counter ↦ counter ∷ rest ]
    ]

abbrev not_empty : List CpuCounter → Option (List CpuCounter)
not_empty [] = none
not_empty (c ∷ cs) = some (c ∷ cs)

unfoldable pub parse_cpu : Chars → Option (List CpuCounter)
unfolding cpu_counters
parse_cpu content = not_empty (cpu_counters (text_lines content))

abbrev first_number : List Chars → Option ℕ
first_number [] = none
first_number (w ∷ ws) = parse_u64 w

abbrev entry_of : Chars → Option ℕ → Option (Chars × ℕ)
entry_of key none = none
entry_of key (some kib) = some (key, (kib * 1024) % u64)

abbrev meminfo_entry : Option (Chars × Chars) → Option (Chars × ℕ)
meminfo_entry none = none
meminfo_entry (some (key, rest)) = entry_of key (first_number (split_whitespace rest))

pub meminfo_entries : List Chars → List (Chars × ℕ)
meminfo_entries [] = []
meminfo_entries (line ∷ lines) = elim (meminfo_entry (split_once b':' line)) [
  | none ↦ meminfo_entries lines
  | some entry ↦ entry ∷ meminfo_entries lines
]

-- The entries of the map in the order of their lines.
unfoldable pub parse_meminfo : Chars → List (Chars × ℕ)
unfolding meminfo_entries
parse_meminfo content = meminfo_entries (text_lines content)

-- `HashMap::get`: of several entries of a key the last was kept.
unfoldable pub mem : List (Chars × ℕ) → String → ℕ
mem [] key = 0
mem ((k, n) ∷ entries) key =
    if any (λ entry. bytes_eq entry.0 (codes key)) entries
    then mem entries key
    else if bytes_eq k (codes key)
    then n
    else 0

abbrev nth : List ℕ → ℕ → ℕ
nth values i = unwrap_or (get_elem? values i) 0

abbrev add_both : ℕ × ℕ → ℕ → ℕ → ℕ × ℕ
add_both (a, b) c d = (saturating_u64 a c, saturating_u64 b d)

-- One line of /proc/net/dev.
pub add_interface : ℕ × ℕ → Chars → ℕ × ℕ
add_interface sums line = elim (split_once b':' line) [
  | none ↦ sums
  | some (interface, counters) ↦
      let values = numbers (split_whitespace counters) in
      if bytes_eq (trim_chars interface) (codes "lo")
      then sums
      else if leb 16 (length values)
      then add_both sums (nth values 0) (nth values 8)
      else sums
]

pub add_interfaces : ℕ × ℕ → List Chars → ℕ × ℕ
unfolding add_interface
add_interfaces sums [] = sums
add_interfaces sums (line ∷ lines) = add_interfaces (add_interface sums line) lines

unfoldable pub parse_network : Chars → ℕ × ℕ
unfolding add_interfaces
parse_network content = add_interfaces (0, 0) (drop 2 (text_lines content))

-- A block device: its name, and its file "stat", if it can be read.
pub add_device : ℕ × ℕ → Chars × Option Chars → ℕ × ℕ
add_device sums (name, none) = sums
add_device sums (name, some content) =
    let values = numbers (split_whitespace content) in
    if starts_with (codes "loop") name || starts_with (codes "ram") name
    then sums
    else if leb 7 (length values)
    then add_both sums (nth values 2) (nth values 6)
    else sums

unfoldable pub read_block_stats : ℕ × ℕ → List (Chars × Option Chars) → ℕ × ℕ
unfolding add_device
read_block_stats sums [] = sums
read_block_stats sums (device ∷ devices) = read_block_stats (add_device sums device) devices
