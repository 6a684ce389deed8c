-- ===== src/Doctor/Updates.antt =====
-- src/doctor.rs, available_updates: how many updates the package manager lists.
use caroba_guard.Prelude.{
  Bool, true, false, not, ◌&&◌, Option, none, some, [], ◌∷◌, if◌then◌else◌, count_if, codes,
  starts_with, Chars, trim_chars, text_lines,
}
use caroba_guard.Doctor.{count, UpdateCount, Packages, skipped, not_available}

abbrev is_empty : Chars → Bool
is_empty [] = true
is_empty (c ∷ cs) = false

abbrev is_update : Chars → Bool
is_update line = not (is_empty (trim_chars line)) && not (starts_with (codes "Listing") line)

abbrev count_updates : Option Chars → UpdateCount
count_updates none = not_available
count_updates (some text) = count (count_if is_update (text_lines text))

unfoldable pub available_updates : Bool → Packages → UpdateCount
available_updates performance_mode packages =
    if performance_mode
    then skipped
    else if packages.pacman_exists
    then count_updates packages.pacman
    else if packages.apt_exists
    then count_updates packages.apt
    else not_available
