-- ===== src/Prelude/CodePoints.antt =====
-- Text as its code points, with the `char` and `str` methods that the program uses on any text.
use Prim.Native.Nat.{ℕ, ◌+◌}
use mathlib.Core.Bool.{Bool, true, false, ◌&&◌, ◌||◌}
use mathlib.Core.List.{List, [], ◌∷◌, ◌++◌}
use caroba_guard.Prelude.Text.{split}
use caroba_guard.Prelude.Tests.{ltb, leb, ◌==◌, if◌then◌else◌}

abbrev pub Chars : Type 0
Chars = List ℕ

-- `char::is_whitespace`, the property White_Space.
abbrev pub is_whitespace : ℕ → Bool
is_whitespace c =
    (leb 9 c && leb c 13)
    || c == 32
    || c == 0x85
    || c == 0xA0
    || c == 0x1680
    || (leb 0x2000 c && leb c 0x200A)
    || c == 0x2028
    || c == 0x2029
    || c == 0x202F
    || c == 0x205F
    || c == 0x3000

-- `char::is_control`, the category Cc.
abbrev pub is_control : ℕ → Bool
is_control c = ltb c 32 || (leb 127 c && leb c 159)

-- `str::len`, in bytes of UTF-8.
abbrev pub utf8_width : ℕ → ℕ
utf8_width c = if ltb c 0x80 then 1 else if ltb c 0x800 then 2 else if ltb c 0x10000 then 3 else 4

abbrev pub utf8_length : Chars → ℕ
utf8_length [] = 0
utf8_length (c ∷ cs) = utf8_width c + utf8_length cs

abbrev pub trim_front : Chars → Chars
trim_front [] = []
trim_front (c ∷ cs) = if is_whitespace c then trim_front cs else c ∷ cs

abbrev pub trim_back : Chars → Chars
trim_back [] = []
trim_back (c ∷ cs) =
    let rest = trim_back cs in
    elim rest [ [] ↦ if is_whitespace c then [] else c ∷ [] | d ∷ ds ↦ c ∷ d ∷ ds ]

-- `str::trim`
abbrev pub trim_chars : Chars → Chars
trim_chars s = trim_back (trim_front s)

abbrev strip_return : Chars → Chars
strip_return [] = []
strip_return (c ∷ []) = if c == 13 then [] else c ∷ []
strip_return (c ∷ d ∷ cs) = c ∷ strip_return (d ∷ cs)

abbrev drop_last_empty : List Chars → List Chars
drop_last_empty [] = []
drop_last_empty ([] ∷ []) = []
drop_last_empty ((c ∷ cs) ∷ []) = (c ∷ cs) ∷ []
drop_last_empty (l ∷ m ∷ ls) = strip_return l ∷ drop_last_empty (m ∷ ls)

-- `str::lines`
abbrev pub text_lines : Chars → List Chars
text_lines text = drop_last_empty (split 10 text)

abbrev with_word : Chars → List Chars → List Chars
with_word [] words = words
with_word (c ∷ cs) words = (c ∷ cs) ∷ words

abbrev words_after : Chars → Chars → List Chars
words_after word [] = with_word word []
words_after word (c ∷ cs) = elim (is_whitespace c) [
  | true ↦ with_word word (words_after [] cs)
  | false ↦ words_after (word ++ c ∷ []) cs
]

-- `str::split_whitespace`
abbrev pub split_whitespace : Chars → List Chars
split_whitespace text = words_after [] text
