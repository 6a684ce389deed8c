-- ===== src/Doctor/Hottest.antt =====
-- src/doctor.rs, run: the sensor that max_by finds with the order of total_cmp.
use caroba_guard.Prelude.{
  ℕ, ◌≡◌, refl, sym, ap, subst, inl, inr, false, Option, none, some, List, [], ◌∷◌, arith,
  Bool-cases, Option-cases, unwrap_or, All,
}
use caroba_guard.Doctor.{hottest, Floats, Sensor}

module _ (f : Floats) where
  abbrev pub Below : ℕ → f.F → Type 0
  Below limit value = f.ge value (f.literal limit) ≡ false

  abbrev pub IsNumber : Sensor f → Type 0
  IsNumber s = f.is_nan s.celsius ≡ false

  abbrev pub IsCool : Sensor f → Type 0
  IsCool s = Below 80 s.celsius

  pub hottest-none : (ss : List (Sensor f)) → hottest f ss ≡ none → ss ≡ []
  unfolding hottest
  hottest-none [] h = refl
  hottest-none (s ∷ ss) h = elim (Option-cases (hottest f ss)) [
    | inl e ↦ absurd (ground (arith, e, h))
    | inr (t, e) ↦ absurd (ground (arith, e, h))
  ]

  pub hottest-All {κ} :
      (P : Sensor f → Type κ) (ss : List (Sensor f)) {t : Sensor f}
      → All P ss
      → hottest f ss ≡ some t
      → P t
  unfolding hottest
  hottest-All P [] n h = cc
  hottest-All P (s ∷ ss) n h = elim (Option-cases (hottest f ss)) [
    | inl e ↦ subst P (ground (arith, e, h)) n.0
    | inr (t, e) ↦ elim (Bool-cases (f.total_gt s.celsius t.celsius)) [
      | inl g ↦ subst P (ground (arith, e, g, h)) n.0
      | inr g ↦ subst P (ground (arith, e, g, h)) (hottest-All P ss n.1 e)
    ]
  ]

  -- A number that is not above another one in the order is below the limit with it.
  Below-le :
      (s t : Sensor f)
      → f.total_gt s.celsius t.celsius ≡ false
      → IsNumber t
      → Below 80 t.celsius
      → Below 80 s.celsius
  Below-le s t g n b =
      let above = f.ge_trans s.celsius t.celsius (f.literal 80) g n in ground (arith, above, b)

  some-IsCool : (s t : Sensor f) → Option.some s ≡ some t → IsCool t → IsCool s
  some-IsCool s t h b = rw (ap (λ o. unwrap_or o s) h) b

  pub hottest-Below :
      (ss : List (Sensor f)) {u : Sensor f}
      → All IsNumber ss
      → hottest f ss ≡ some u
      → Below 80 u.celsius
      → All IsCool ss
  unfolding hottest
  hottest-Below [] n h b = tt
  hottest-Below (s ∷ ss) {u} n h b = elim (Option-cases (hottest f ss)) [
    | inl e ↦
        (some-IsCool s u (ground (arith, e, h)) b, subst (All IsCool) (sym (hottest-none ss e)) tt)
    | inr (t, e) ↦ elim (Bool-cases (f.total_gt s.celsius t.celsius)) [
      | inl g ↦
          let b1 = some-IsCool s u (ground (arith, e, g, h)) b in
          (b1, hottest-Below ss n.1 e (Below-le t s (f.total_asym s.celsius t.celsius g) n.0 b1))
      | inr g ↦
          let b1 = some-IsCool t u (ground (arith, e, g, h)) b in
          (Below-le s t g (hottest-All IsNumber ss n.1 e) b1, hottest-Below ss n.1 e b1)
    ]
  ]
