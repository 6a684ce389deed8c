-- ===== src/Adapters/Units.antt =====
-- src/services.rs: what systemctl says of the units, and the arguments of journalctl. A text is the list of
-- its code points, after its bytes have been decoded.
use caroba_guard.Prelude.{
  ℕ, min, max, String, Bool, true, false, ◌&&◌, ◌||◌, Option, none, some, List, [], ◌∷◌, ◌++◌, map,
  ltb, leb, ◌==◌, if◌then◌else◌, unwrap_or, length, keep, Bytes, codes, bytes_eq, split_once,
  to_string, parse_unsigned, Chars, trim_chars, text_lines, split_whitespace,
}
use caroba_guard.Adapters.{ends_with, validate_unit, validate_since}

pub record SystemdStatus : Type 0 where
  pub available : Bool
  pub state : Chars
  pub error : Option Chars

-- The two outputs of a command that ran, and whether it succeeded; or why it could not run.
pub data CommandResult : Type 0 where
  ran : Bool → Chars → Chars → CommandResult
  not_run : Chars → CommandResult

abbrev not_blank : Chars → Option Chars
not_blank [] = none
not_blank (c ∷ cs) = some (c ∷ cs)

unfoldable pub systemd_status : CommandResult → SystemdStatus
systemd_status (ran success stdout stderr) = record {
  available = true;
  state = trim_chars stdout;
  error = if success then none else not_blank (trim_chars stderr);
}
systemd_status (not_run error) = record {
  available = false;
  state = codes "unavailable";
  error = some error;
}

pub record RawUnit : Type 0 where
  pub unit : Chars
  pub load : Chars
  pub active : Chars
  pub sub : Chars
  pub description : Chars

pub record UnitSummary : Type 0 where
  pub name : Chars
  pub description : Chars
  pub load_state : Chars
  pub active_state : Chars
  pub sub_state : Chars

abbrev unit_summary : RawUnit → UnitSummary
unit_summary raw = record {
  name = raw.unit;
  description = raw.description;
  load_state = raw.load;
  active_state = raw.active;
  sub_state = raw.sub;
}

-- `units`, after the output has been parsed.
unfoldable pub unit_summaries : List RawUnit → List UnitSummary
unit_summaries raw = map unit_summary raw

pub record UnitDetails : Type 0 where
  pub name : Chars
  pub description : Chars
  pub load_state : Chars
  pub active_state : Chars
  pub sub_state : Chars
  pub unit_file_state : Chars
  pub main_pid : ℕ
  pub memory_current_bytes : Option ℕ
  pub cpu_usage_nanoseconds : Option ℕ
  pub active_enter_timestamp : Chars
  pub fragment_path : Chars
  pub dependencies : List Chars

abbrev pub Properties : Type 0
Properties = List (Chars × Chars)

abbrev with_pair : Option (Chars × Chars) → Properties → Properties
with_pair none rest = rest
with_pair (some pair) rest = pair ∷ rest

abbrev pairs_in : List Chars → Properties
pairs_in [] = []
pairs_in (line ∷ lines) = with_pair (split_once b'=' line) (pairs_in lines)

-- The pairs of the map in the order of their lines.
unfoldable pub parse_properties : Chars → Properties
parse_properties output = pairs_in (text_lines output)

abbrev or_else : Option Chars → Option Chars → Option Chars
or_else none found = found
or_else (some found) other = some found

-- `HashMap::get`: of several pairs of a key the last was kept.
abbrev lookup : String → Properties → Option Chars
lookup key [] = none
lookup key ((k, value) ∷ rest) =
    or_else (lookup key rest) (if bytes_eq k (codes key) then some value else none)

abbrev property : Properties → String → Chars
property properties key = unwrap_or (lookup key properties) []

abbrev number_in : Option Chars → Option ℕ
number_in none = none
number_in (some value) =
    if bytes_eq value (codes "[not set]") then none else parse_unsigned 0x10000000000000000 value

unfoldable pub parse_optional_number : Properties → String → Option ℕ
unfolding parse_unsigned
parse_optional_number properties key = number_in (lookup key properties)

-- The order of `str`; that of the code points is that of the bytes.
abbrev precedes : Chars → Chars → Bool
precedes [] s = true
precedes (c ∷ cs) [] = false
precedes (c ∷ cs) (d ∷ ds) = ltb c d || (c == d && precedes cs ds)

abbrev insert_sorted : Chars → List Chars → List Chars
insert_sorted s [] = s ∷ []
insert_sorted s (t ∷ ts) = if precedes s t then s ∷ t ∷ ts else t ∷ insert_sorted s ts

abbrev sorted : List Chars → List Chars
sorted [] = []
sorted (s ∷ ss) = insert_sorted s (sorted ss)

-- `Vec::dedup`
abbrev dedup : List Chars → List Chars
dedup [] = []
dedup (s ∷ []) = s ∷ []
dedup (s ∷ t ∷ ts) = let rest = dedup (t ∷ ts) in if bytes_eq s t then rest else s ∷ rest

unfoldable pub dependencies_in : Properties → List Chars
dependencies_in properties = dedup (
    sorted (
      keep (ends_with (codes ".service")) (
        split_whitespace (unwrap_or (lookup "Requires" properties) [])
        ++ split_whitespace (unwrap_or (lookup "Wants" properties) []))))

unfoldable pub details_in : Properties → UnitDetails
unfolding parse_optional_number dependencies_in
details_in properties = record {
  name = property properties "Id";
  description = property properties "Description";
  load_state = property properties "LoadState";
  active_state = property properties "ActiveState";
  sub_state = property properties "SubState";
  unit_file_state = property properties "UnitFileState";
  main_pid = unwrap_or (parse_optional_number properties "MainPID") 0;
  memory_current_bytes = parse_optional_number properties "MemoryCurrent";
  cpu_usage_nanoseconds = parse_optional_number properties "CPUUsageNSec";
  active_enter_timestamp = property properties "ActiveEnterTimestamp";
  fragment_path = property properties "FragmentPath";
  dependencies = dependencies_in properties;
}

-- The name is checked before the command runs; the output is none if that fails.
unfoldable pub unit_details : (List Bytes → Option Chars) → Bytes → Option UnitDetails
unfolding validate_unit parse_properties details_in
unit_details systemctl unit =
    if validate_unit unit
    then elim (systemctl (
        codes "show"
        ∷ unit
        ∷ codes "--no-pager"
        ∷ codes
            "--property=Id,Description,LoadState,ActiveState,SubState,UnitFileState,MainPID,MemoryCurrent,CPUUsageNSec,ActiveEnterTimestamp,FragmentPath,Requires,Wants"
        ∷ [])) [ none ↦ none | some output ↦ some (details_in (parse_properties output)) ]
    else none

abbrev since_arguments : Option Bytes → Option (List Bytes)
since_arguments none = some []
since_arguments (some since) =
    if validate_since since then some (codes "--since" ∷ since ∷ []) else none

abbrev with_since : List Bytes → Option (List Bytes) → Option (List Bytes)
with_since arguments none = none
with_since arguments (some more) = some (arguments ++ more)

-- The arguments of `logs`, if the names are accepted.
unfoldable pub journal_arguments : Bytes → ℕ → Option Bytes → Option (List Bytes)
unfolding validate_unit validate_since to_string
journal_arguments unit lines since =
    if validate_unit unit
    then with_since
        (codes "--unit"
          ∷ unit
          ∷ codes "--lines"
          ∷ to_string (min (max lines 1) 2000)
          ∷ codes "--no-pager"
          ∷ codes "--output=short-iso-precise"
          ∷ [])
        (since_arguments since)
    else none

-- The checks of `command_output`: the limit of both outputs, and the success.
unfoldable pub command_output : ℕ → Bool → Bytes → Bytes → Option Bytes
command_output maximum success stdout stderr =
    if leb (length stdout) maximum && leb (length stderr) maximum && success
    then some stdout
    else none
