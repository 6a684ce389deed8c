-- ===== src/Telemetry/HostFiles.antt =====
-- src/telemetry.rs: what a sample reads from the host beside the counters.
use caroba_guard.Prelude.{
  ℕ, ◌-◌, ◌*◌, ◌/◌, ◌%◌, Option, none, some, List, [], ◌∷◌, ◌==◌, if◌then◌else◌, unwrap_or, codes,
  strip_prefix, Chars, trim_chars, text_lines,
}
use caroba_guard.Telemetry.Counters.{u64, parse_u64}

pub record ThermalZone : Type 0 where
  pub file_name : Chars
  pub temp : Option Chars
  pub kind : Option Chars

pub record DiskBlocks : Type 0 where
  pub f_frsize : ℕ
  pub f_blocks : ℕ
  pub f_bavail : ℕ

-- The files that can be read, and what statvfs says of "/".
pub record Host : Type 0 where
  pub hostname : Option Chars
  pub os_release : Option Chars
  pub kernel : Option Chars
  pub architecture : Chars
  pub cpu_frequency : Option Chars
  pub root_disk : Option DiskBlocks
  pub executable_bytes : Option ℕ
  pub thermal : Option (List ThermalZone)

abbrev not_blank : Chars → Option Chars
not_blank [] = none
not_blank (c ∷ cs) = some (c ∷ cs)

-- `read_trimmed` of a file.
abbrev pub read_trimmed : Option Chars → Option Chars
read_trimmed none = none
read_trimmed (some content) = not_blank (trim_chars content)

abbrev without_leading : ℕ → Chars → Chars
without_leading quote [] = []
without_leading quote (c ∷ cs) = if c == quote then without_leading quote cs else c ∷ cs

abbrev without_trailing : ℕ → Chars → Chars
without_trailing quote [] = []
without_trailing quote (c ∷ cs) =
    let rest = without_trailing quote cs in
    elim rest [ [] ↦ if c == quote then [] else c ∷ [] | d ∷ ds ↦ c ∷ d ∷ ds ]

-- `str::trim_matches`
abbrev trim_matches : ℕ → Chars → Chars
trim_matches quote text = without_trailing quote (without_leading quote text)

abbrev pretty_name : List Chars → Chars
pretty_name [] = codes "Linux"
pretty_name (line ∷ lines) = elim (strip_prefix (codes "PRETTY_NAME=") line) [
  | none ↦ pretty_name lines
  | some value ↦ trim_matches b'"' value
]

abbrev pub os_pretty_name : Option Chars → Chars
os_pretty_name content = pretty_name (text_lines (unwrap_or content []))

abbrev megahertz : Option ℕ → Option ℕ
megahertz none = none
megahertz (some khz) = some (khz / 1000)

abbrev frequency_of : Option Chars → Option ℕ
frequency_of none = none
frequency_of (some text) = megahertz (parse_u64 text)

abbrev pub read_cpu_frequency : Option Chars → Option ℕ
read_cpu_frequency content = frequency_of (read_trimmed content)

abbrev pub disk_usage : DiskBlocks → ℕ × ℕ
disk_usage stats =
    let total = (stats.f_blocks * stats.f_frsize) % u64 in
    let available = (stats.f_bavail * stats.f_frsize) % u64 in (total, total - available)

-- The total and what is used.
abbrev pub root_disk_usage : Option DiskBlocks → Option (ℕ × ℕ)
root_disk_usage none = none
root_disk_usage (some stats) = some (disk_usage stats)
