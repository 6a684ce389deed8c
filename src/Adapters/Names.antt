-- ===== src/Adapters/Names.antt =====
-- src/docker.rs: an accepted identifier stays one segment of the path.
use caroba_guard.Prelude.{
  ℕ, ◌≡◌, refl, ap, subst, ◌≢◌, inl, inr, Bool, true, false, not, ◌&&◌, ◌||◌, List, [], ◌∷◌, leb,
  ◌==◌, Bool-cases, length, all, Bytes, codes, is_alphanumeric, split, Avoids, split-append,
}
use caroba_guard.Adapters.{is_one_of, validate_container_id, inspect_path}

all-Avoids : (c : ℕ) (p : ℕ → Bool) (text : Bytes) → p c ≡ false → all p text ≡ true → Avoids c text
all-Avoids c p [] f h = tt
all-Avoids c p (b ∷ text) f h = elim (Bool-cases (p b)) [
  | inl e ↦ (apart e, all-Avoids c p text f (rw e at h))
  | inr e ↦ cc (rw e at h)
]
  where
    apart : p b ≡ true → b ≢ c
    apart e = λ g. let t : p c ≡ true = subst (λ (n : ℕ). p n ≡ true) g e in cc

checked : (a b c : Bool) → (a && b && c) ≡ true → c ≡ true
checked true true c h = h
checked true false c h = cc h
checked false b c h = cc h

pub validate_container_id-Avoids : (id : Bytes) → validate_container_id id ≡ true → Avoids b'/' id
unfolding validate_container_id
validate_container_id-Avoids id h =
    all-Avoids b'/' (λ b. is_alphanumeric b || is_one_of (codes "_-.") b) id refl
      (checked (not (length id == 0)) (leb (length id) 128)
        (all (λ b. is_alphanumeric b || is_one_of (codes "_-.") b) id) h)

-- The path of an accepted identifier has three slashes: the identifier is the whole of one segment.
inspect_path-segments :
    (id : Bytes)
    → validate_container_id id ≡ true
    → split b'/' (inspect_path id) ≡ [] ∷ codes "containers" ∷ id ∷ codes "json" ∷ []
unfolding inspect_path
inspect_path-segments id h =
    ap (λ (s : List Bytes). [] ∷ codes "containers" ∷ s)
      (split-append b'/' id (codes "json") (validate_container_id-Avoids id h))
