-- ===== src/Prelude/Text.antt =====
-- Text as its UTF-8 bytes, with the `str` methods that the program uses.
use Prim.Native.Char.{code}
use Prim.Native.Nat.{ℕ, ◌+◌, ◌-◌}
use Prim.Native.String.{String}
use mathlib.Core.Path.{◌≡◌, refl}
use mathlib.Core.Logic.{◌≢◌}
use mathlib.Core.Bool.{Bool, true, false, ◌&&◌, ◌||◌}
use mathlib.Core.List.{List, [], ◌∷◌, ◌++◌, map}
use mathlib.Core.Option.{Option, none, some}
use native.Mathlib.Omega.{arith}
use caroba_guard.Prelude.Tests.{leb, ◌==◌, if◌then◌else◌}
use caroba_guard.Prelude.Lists.{All}

abbrev pub Bytes : Type 0
Bytes = List ℕ

-- The bytes of an ASCII literal.
abbrev pub codes : String → Bytes
codes String.[] = []
codes (String.◌∷◌ c s) = code c ∷ codes s

abbrev pub bytes_eq : Bytes → Bytes → Bool
bytes_eq [] [] = true
bytes_eq (a ∷ s) (b ∷ t) = a == b && bytes_eq s t
bytes_eq _ _ = false

pub bytes_eq_refl : (a : Bytes) → bytes_eq a a ≡ true
bytes_eq_refl [] = refl
bytes_eq_refl (a ∷ s) = ground (arith, bytes_eq_refl s)

pub eq_of_bytes_eq : (a b : Bytes) → bytes_eq a b ≡ true → a ≡ b
eq_of_bytes_eq [] [] h = refl
eq_of_bytes_eq [] (b ∷ t) h = cc
eq_of_bytes_eq (a ∷ s) [] h = cc
eq_of_bytes_eq (a ∷ s) (b ∷ t) h = ground (arith, eq_of_bytes_eq s t)

-- `char::is_whitespace` on an ASCII byte.
abbrev pub is_space : ℕ → Bool
is_space b = (leb 9 b && leb b 13) || b == 32

abbrev pub is_alphanumeric : ℕ → Bool
is_alphanumeric b =
    (leb b'0' b && leb b b'9') || (leb b'A' b && leb b b'Z') || (leb b'a' b && leb b b'z')

abbrev pub trim_start : Bytes → Bytes
trim_start [] = []
trim_start (b ∷ bs) = if is_space b then trim_start bs else b ∷ bs

-- Drops the white space at the end; `trim_end` on ASCII text.
abbrev pub trim_end : Bytes → Bytes
trim_end [] = []
trim_end (b ∷ bs) =
    let rest = trim_end bs in
    elim rest [ [] ↦ if is_space b then [] else b ∷ [] | c ∷ cs ↦ b ∷ c ∷ cs ]

abbrev pub trim : Bytes → Bytes
trim s = trim_end (trim_start s)

abbrev pub strip_prefix : Bytes → Bytes → Option Bytes
strip_prefix [] s = some s
strip_prefix (p ∷ ps) [] = none
strip_prefix (p ∷ ps) (b ∷ bs) = if p == b then strip_prefix ps bs else none

abbrev pub starts_with : Bytes → Bytes → Bool
starts_with [] s = true
starts_with (p ∷ ps) [] = false
starts_with (p ∷ ps) (b ∷ bs) = p == b && starts_with ps bs

-- `str::contains` of a pattern.
abbrev pub contains : Bytes → Bytes → Bool
contains p [] = starts_with p []
contains p (b ∷ bs) = starts_with p (b ∷ bs) || contains p bs

abbrev pub cons_fst : ℕ → Option (Bytes × Bytes) → Option (Bytes × Bytes)
cons_fst b none = none
cons_fst b (some (k, v)) = some (b ∷ k, v)

-- `str::split_once` at a byte.
abbrev pub split_once : ℕ → Bytes → Option (Bytes × Bytes)
split_once c [] = none
split_once c (b ∷ bs) = if b == c then some ([], bs) else cons_fst b (split_once c bs)

abbrev pub cons_head : ℕ → List Bytes → List Bytes
cons_head b [] = (b ∷ []) ∷ []
cons_head b (x ∷ xs) = (b ∷ x) ∷ xs

-- `str::split` at a byte: always at least one part.
abbrev pub split : ℕ → Bytes → List Bytes
split c [] = [] ∷ []
split c (b ∷ bs) = if b == c then [] ∷ split c bs else cons_head b (split c bs)

-- `u8::to_ascii_uppercase`, `u8::to_ascii_lowercase`.
abbrev pub upper : ℕ → ℕ
upper b = if leb b'a' b && leb b b'z' then b - 32 else b

abbrev pub lower : ℕ → ℕ
lower b = if leb b'A' b && leb b b'Z' then b + 32 else b

abbrev pub to_ascii_uppercase : Bytes → Bytes
to_ascii_uppercase = map upper

abbrev pub to_ascii_lowercase : Bytes → Bytes
to_ascii_lowercase = map lower

-- A text without the byte `c`.
abbrev pub Avoids : ℕ → Bytes → Type 0
Avoids c = All (λ b. b ≢ c)

-- A part that avoids the separator is split off at the first one.
pub split_once-append : (c : ℕ) (k v : Bytes) → Avoids c k → split_once c (k ++ c ∷ v) ≡ some (k, v)
split_once-append c [] v h = ground arith
split_once-append c (b ∷ k) v h = ground (arith, split_once-append c k v h.1)

pub split-Avoids : (c : ℕ) (s : Bytes) → Avoids c s → split c s ≡ s ∷ []
split-Avoids c [] h = refl
split-Avoids c (b ∷ s) h = ground (arith, split-Avoids c s h.1)

pub split-append : (c : ℕ) (s t : Bytes) → Avoids c s → split c (s ++ c ∷ t) ≡ s ∷ split c t
split-append c [] t h = ground arith
split-append c (b ∷ s) t h = ground (arith, split-append c s t h.1)

abbrev pub NoSpace : Bytes → Type 0
NoSpace = All (λ b. is_space b ≡ false)

trim_end_id : (s : Bytes) → NoSpace s → trim_end s ≡ s
trim_end_id [] h = refl
trim_end_id (b ∷ s) h = ground (arith, trim_end_id s h.1)

trim_start_id : (s : Bytes) → NoSpace s → trim_start s ≡ s
trim_start_id [] h = refl
trim_start_id (b ∷ s) h = ground arith

-- Text without white space is trimmed already.
pub trim_id : (s : Bytes) → NoSpace s → trim s ≡ s
trim_id s h = rw (trim_start_id s h, trim_end_id s h)
