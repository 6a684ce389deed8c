-- ===== src/Prelude/Utf8.antt =====
-- `String::from_utf8_lossy`: each maximal broken sequence becomes U+FFFD.
use Prim.Native.Nat.{ℕ, zero, suc}
use mathlib.Core.Bool.{◌&&◌}
use mathlib.Core.List.{[], ◌∷◌, ◌++◌}
use caroba_guard.Prelude.Tests.{ltb, leb, ◌==◌, if◌then◌else◌}
use caroba_guard.Prelude.Text.{Bytes}

-- A started sequence: its bytes so far, the range of the next byte, how many more follow that one.
pub data Partial : Type 0 where
  idle : Partial
  open_seq : Bytes → ℕ → ℕ → ℕ → Partial

abbrev replacement : Bytes
replacement = 0xEF ∷ 0xBF ∷ 0xBD ∷ []

-- A byte that no started sequence takes.
abbrev start : ℕ → Bytes × Partial
start b =
    if ltb b 0x80
    then (b ∷ [], idle)
    else if leb 0xC2 b && leb b 0xDF
    then ([], open_seq (b ∷ []) 0x80 0xBF 0)
    else if b == 0xE0
    then ([], open_seq (b ∷ []) 0xA0 0xBF 1)
    else if b == 0xED
    then ([], open_seq (b ∷ []) 0x80 0x9F 1)
    else if leb 0xE1 b && leb b 0xEF
    then ([], open_seq (b ∷ []) 0x80 0xBF 1)
    else if b == 0xF0
    then ([], open_seq (b ∷ []) 0x90 0xBF 2)
    else if leb 0xF1 b && leb b 0xF3
    then ([], open_seq (b ∷ []) 0x80 0xBF 2)
    else if b == 0xF4
    then ([], open_seq (b ∷ []) 0x80 0x8F 2)
    else (replacement, idle)

-- The started sequence is broken by `b`: it is replaced, and `b` is read afresh.
abbrev broken : Bytes × Partial → Bytes × Partial
broken (out, p) = (replacement ++ out, p)

abbrev extend : Bytes → ℕ → ℕ → Bytes × Partial
extend seq b zero = (seq ++ b ∷ [], idle)
extend seq b (suc n) = ([], open_seq (seq ++ b ∷ []) 0x80 0xBF n)

abbrev feed : Partial → ℕ → Bytes × Partial
feed idle b = start b
feed (open_seq seq lo hi more) b =
    if leb lo b && leb b hi then extend seq b more else broken (start b)

abbrev prepend : Bytes → Bytes → Bytes
prepend out rest = out ++ rest

lossy_from : Partial → Bytes → Bytes
lossy_from idle [] = []
lossy_from (open_seq seq lo hi more) [] = replacement
lossy_from p (b ∷ bs) = let r = feed p b in r.0 ++ lossy_from r.1 bs

unfoldable pub from_utf8_lossy : Bytes → Bytes
unfolding lossy_from
from_utf8_lossy bs = lossy_from idle bs
