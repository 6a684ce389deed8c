-- ===== src/Context/Truncation.antt =====
-- src/context.rs, `truncate_utf8`: which characters a truncated text keeps.
use caroba_guard.Prelude.{
  ℕ, zero, suc, ◌+◌, ◌-◌, ◌≤◌, ◌<◌, min, ◌≡◌, refl, sym, ap, subst, ◌∙◌, ◌⊎◌, inl, inr, true, false,
  List, [], ◌∷◌, ◌++◌, append-nil, append_assoc, arith, leb, ◌==◌, leb→le, ==_iff, Bool-cases,
  length, take, length-append, length-take-le, All, Bytes, split,
}
use caroba_guard.Context.{
  is_continuation, is_char_boundary, floor_boundary, truncated_suffix, truncate_utf8,
}

-- The bytes of a character: one that starts it, then those that continue it.
abbrev pub IsChar : Bytes → Type 0
IsChar [] = ⊥
IsChar (b ∷ bs) = (is_continuation b ≡ false) × All (λ c. is_continuation c ≡ true) bs

abbrev pub concat : List Bytes → Bytes
concat [] = []
concat (c ∷ cs) = c ++ concat cs

-- A boundary within a character is one of its ends.
boundary-tail :
    (b : ℕ) (bs rest : Bytes) (i : ℕ)
    → All (λ c. is_continuation c ≡ true) bs
    → is_char_boundary (b ∷ bs ++ rest) (suc i) ≡ true
    → length bs ≤ i
unfolding is_char_boundary
boundary-tail b [] rest i a h = omega arith
boundary-tail b (c ∷ bs) rest zero a h = cc (rw a.0 at h)
boundary-tail b (c ∷ bs) rest (suc i) a h = omega (arith, boundary-tail c bs rest i a.1 h)

boundary-drop :
    (b : ℕ) (bs rest : Bytes) (i j : ℕ)
    → i ≡ length bs + j
    → is_char_boundary (b ∷ bs ++ rest) (suc i) ≡ true
    → is_char_boundary rest j ≡ true
unfolding is_char_boundary
boundary-drop b bs [] i zero e h = refl
boundary-drop b bs (c ∷ rest) i zero e h = refl
boundary-drop b [] rest zero (suc j) e h = absurd (omega arith)
boundary-drop b [] rest (suc i) (suc j) e h =
    let same : i ≡ j = omega arith in subst (λ (n : ℕ). is_char_boundary rest (suc n) ≡ true) same h
boundary-drop b (c ∷ bs) rest zero (suc j) e h = absurd (omega arith)
boundary-drop b (c ∷ bs) rest (suc i) (suc j) e h =
    boundary-drop c bs rest i (suc j) (omega arith) h

take-append_more :
    (xs ys : Bytes) (i j : ℕ) → i ≡ length xs + j → take i (xs ++ ys) ≡ xs ++ take j ys
take-append_more [] ys i j e = let same : i ≡ j = omega arith in ap (λ (n : ℕ). take n ys) same
take-append_more (x ∷ xs) ys zero j e = absurd (omega arith)
take-append_more (x ∷ xs) ys (suc i) j e = ap (◌∷◌ x) (take-append_more xs ys i j (omega arith))

-- What stands before a boundary is whole characters.
abbrev pub Whole : List Bytes → Bytes → Type 0
Whole chars bytes =
    (kept : List Bytes) × (dropped : List Bytes) × (chars ≡ kept ++ dropped) × (bytes ≡ concat kept)

take-Whole :
    (chars : List Bytes) (i : ℕ)
    → All IsChar chars
    → is_char_boundary (concat chars) i ≡ true
    → Whole chars (take i (concat chars))
unfolding is_char_boundary
take-Whole chars zero a h = ([], chars, refl, refl)
take-Whole [] (suc i) a h = ([], [], refl, refl)
take-Whole ([] ∷ cs) (suc i) a h = absurd a.0
take-Whole ((b ∷ bs) ∷ cs) (suc i) a h =
    let le : length bs ≤ i = boundary-tail b bs (concat cs) i a.0.1 h in
    let split : i ≡ length bs + (i - length bs) = omega arith in
    let r : Whole cs (take (i - length bs) (concat cs)) =
      take-Whole cs (i - length bs) a.1
        (boundary-drop b bs (concat cs) i (i - length bs) split h) in
    (
      (b ∷ bs) ∷ r.0,
      r.1,
      ap (◌∷◌ (b ∷ bs)) r.2,
      ap (◌∷◌ b) (
          take-append_more bs (concat cs) i (i - length bs) split
          ∙ ap (λ (x : Bytes). bs ++ x) r.3),
    )

pub floor_boundary-le : (value : Bytes) (end : ℕ) → floor_boundary value end ≤ end
unfolding floor_boundary
floor_boundary-le value zero = omega arith
floor_boundary-le value (suc end) = ground (arith, floor_boundary-le value end)

floor_boundary_boundary :
    (value : Bytes) (end : ℕ) → is_char_boundary value (floor_boundary value end) ≡ true
unfolding floor_boundary is_char_boundary
floor_boundary_boundary [] zero = refl
floor_boundary_boundary (b ∷ bs) zero = refl
floor_boundary_boundary value (suc end) = elim (Bool-cases (is_char_boundary value (suc end))) [
  | inl e ↦ rw (e, floor_boundary) e
  | inr e ↦ rw (e, floor_boundary) (floor_boundary_boundary value end)
]

-- A text does not start within a character.
abbrev Starts : Bytes → Type 0
Starts [] = Unit {0}
Starts (b ∷ bs) = is_continuation b ≡ false

concat-Starts : (chars : List Bytes) → All IsChar chars → Starts (concat chars)
concat-Starts [] a = tt
concat-Starts ([] ∷ chars) a = absurd a.0
concat-Starts ((b ∷ bs) ∷ chars) a = a.0.0

boundary-add :
    (b : ℕ) (bs rest : Bytes) (i j : ℕ)
    → i ≡ length bs + j
    → Starts rest
    → is_char_boundary rest j ≡ true
    → is_char_boundary (b ∷ bs ++ rest) (suc i) ≡ true
unfolding is_char_boundary
boundary-add b [] [] zero j e s h = refl
boundary-add b [] (c ∷ rest) zero j e s h = rw s refl
boundary-add b [] rest (suc i) zero e s h = absurd (omega arith)
boundary-add b [] rest (suc i) (suc j) e s h =
    let same : j ≡ i = omega arith in subst (λ (n : ℕ). is_char_boundary rest (suc n) ≡ true) same h
boundary-add b (c ∷ bs) rest zero j e s h = absurd (omega arith)
boundary-add b (c ∷ bs) rest (suc i) j e s h = boundary-add c bs rest i j (omega arith) s h

-- The ends of the characters are boundaries.
concat-boundary :
    (kept rest : List Bytes)
    → All IsChar (kept ++ rest)
    → is_char_boundary (concat (kept ++ rest)) (length (concat kept)) ≡ true
unfolding is_char_boundary
concat-boundary [] rest a = refl
concat-boundary ([] ∷ kept) rest a = absurd a.0
concat-boundary ((b ∷ bs) ∷ kept) rest a =
    boundary-add b bs (concat (kept ++ rest)) (length (bs ++ concat kept)) (length (concat kept))
      (length-append bs (concat kept)) (concat-Starts (kept ++ rest) a.1)
      (concat-boundary kept rest a.1)

floor_boundary-greatest :
    (value : Bytes) (end i : ℕ)
    → i ≤ end
    → is_char_boundary value i ≡ true
    → i ≤ floor_boundary value end
unfolding floor_boundary
floor_boundary-greatest value zero i le h = omega arith
floor_boundary-greatest value (suc end) i le h =
    elim (Bool-cases (is_char_boundary value (suc end))) [
      | inl e ↦ rw e le
      | inr e ↦ elim (Bool-cases (i == suc end)) [
        | inl g ↦
            let there =
              subst (λ (n : ℕ). is_char_boundary value n ≡ true) ((==_iff i (suc end)).0 g) h in
            absurd (cc (e, there))
        | inr g ↦
            let before : i ≤ end = ground (arith, ==_iff i (suc end)) in
            rw e (floor_boundary-greatest value end i before h)
      ]
    ]

length-take_within : (n : ℕ) (xs : Bytes) → n ≤ length xs → length (take n xs) ≡ n
length-take_within zero xs h = refl
length-take_within (suc n) [] h = absurd (omega arith)
length-take_within (suc n) (x ∷ xs) h = omega (arith, length-take_within n xs (omega arith))

length-concat-snoc :
    (kept : List Bytes) (next : Bytes)
    → length (concat (kept ++ next ∷ [])) ≡ length (concat kept) + length next
length-concat-snoc [] next = omega (arith, length-append next [])
length-concat-snoc (c ∷ kept) next = omega (
  arith,
  length-append c (concat (kept ++ next ∷ [])),
  length-append c (concat kept),
  length-concat-snoc kept next,
)

IsChar-length :
    (kept : List Bytes) (next : Bytes) (rest : List Bytes)
    → All IsChar (kept ++ next ∷ rest)
    → 1 ≤ length next
IsChar-length [] [] rest a = absurd a.0
IsChar-length [] (b ∷ bs) rest a = omega arith
IsChar-length (c ∷ kept) next rest a = IsChar-length kept next rest a.1

-- The first character that is cut away would not have fitted.
next_too_long :
    (chars kept dropped : List Bytes) (limit : ℕ)
    → All IsChar chars
    → chars ≡ kept ++ dropped
    → limit < length (concat chars)
    → take (floor_boundary (concat chars) limit) (concat chars) ≡ concat kept
    → (next : Bytes) × (rest : List Bytes) × (dropped ≡ next ∷ rest)
      × (limit < length (concat kept) + length next)
next_too_long chars kept dropped limit a whole less same = of_dropped dropped whole
  where
    floor_le : floor_boundary (concat chars) limit ≤ limit
    floor_le = floor_boundary-le (concat chars) limit

    kept_length : floor_boundary (concat chars) limit ≡ length (concat kept)
    kept_length =
        sym (
          length-take_within (floor_boundary (concat chars) limit) (concat chars)
            (omega (arith, floor_le)))
        ∙ ap length same

    of_dropped :
        (dropped : List Bytes)
        → chars ≡ kept ++ dropped
        → (next : Bytes) × (rest : List Bytes) × (dropped ≡ next ∷ rest)
          × (limit < length (concat kept) + length next)
    of_dropped [] e =
        let all_kept : length (concat chars) ≡ length (concat kept) =
          ap (λ (c : List Bytes). length (concat c)) (e ∙ append-nil kept) in
        absurd (omega (arith, floor_le, kept_length))
    of_dropped (next ∷ rest) e =
        let again : (kept ++ next ∷ []) ++ rest ≡ chars =
          append_assoc kept (next ∷ []) rest ∙ sym e in
        let end : is_char_boundary (concat chars) (length (concat (kept ++ next ∷ []))) ≡ true =
          subst
            (λ (c : List Bytes).
              is_char_boundary (concat c) (length (concat (kept ++ next ∷ []))) ≡ true)
            again (concat-boundary (kept ++ next ∷ []) rest (subst (All IsChar) (sym again) a)) in
        let some_byte = IsChar-length kept next rest (subst (All IsChar) e a) in
        elim (Bool-cases (leb (length (concat (kept ++ next ∷ []))) limit)) [
          | inl f ↦
              let fits : length (concat (kept ++ next ∷ [])) ≤ limit = leb→le _ _ f in
              let top = floor_boundary-greatest (concat chars) limit _ fits end in
              absurd (omega (arith, kept_length, length-concat-snoc kept next))
          | inr f ↦ (next, rest, refl, ground (arith, f, length-concat-snoc kept next))
        ]

-- A text that fits is kept as it is. One that does not is cut before the first character that does not fit
-- into the maximum less 24 bytes, and marked.
pub truncate_utf8_whole :
    (chars : List Bytes) (maximum : ℕ)
    → All IsChar chars
    → ((length (concat chars) ≤ maximum) × (truncate_utf8 (concat chars) maximum ≡ concat chars))
      ⊎ ((maximum < length (concat chars))
          × ((kept : List Bytes) × (next : Bytes) × (dropped : List Bytes) × (chars
                ≡ kept ++ next ∷ dropped)
              × (length (concat kept) ≤ maximum - 24)
              × (maximum - 24 < length (concat kept) + length next)
              × (truncate_utf8 (concat chars) maximum ≡ concat kept ++ truncated_suffix)))
unfolding truncate_utf8
truncate_utf8_whole chars maximum a = elim (Bool-cases (leb (length (concat chars)) maximum)) [
  | inl e ↦ inl (ground arith, rw (e, truncate_utf8))
  | inr e ↦
      let more : maximum < length (concat chars) = ground arith in
      let least : min (maximum - 24) (length (concat chars)) ≡ maximum - 24 = omega arith in
      let (kept, dropped, whole, same) =
        take-Whole chars (floor_boundary (concat chars) (maximum - 24)) a
          (floor_boundary_boundary (concat chars) (maximum - 24)) in
      let (next, rest, split, long) =
        next_too_long chars kept dropped (maximum - 24) a whole (omega arith) same in
      let short : length (concat kept) ≤ maximum - 24 =
        subst (λ (x : Bytes). length x ≤ maximum - 24) same
          (omega (
            arith,
            floor_boundary-le (concat chars) (maximum - 24),
            length-take-le (floor_boundary (concat chars) (maximum - 24)) (concat chars),
          )) in
      inr (
        more,
        (
          kept,
          next,
          rest,
          whole ∙ ap (λ (d : List Bytes). kept ++ d) split,
          short,
          long,
          rw (e, least, truncate_utf8) (ap (λ (x : Bytes). x ++ truncated_suffix) same),
        ),
      )
]
