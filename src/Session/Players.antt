-- ===== src/Session/Players.antt =====
-- SessionManager::FindPlayer over sessions whose numbers differ.
use cybermp.Base.{
  ℕ, ◌≡◌, List, [], ◌∷◌, Bool, true, false, none, some, ◌==◌, arith, if◌then◌else◌, All, find_if,
  none-find_if, any_of, update_if, erase_if, Bool-cases, inl, inr, All-find_if, refl,
}
use cybermp.Session.{Session}
use cybermp.Session.Invariant.{Distinct, Apart}

abbrev pub with_id : ℕ → Session → Bool
with_id id s = s.id == id

other_id : (a b : Session) → Apart a b → (b.id == a.id) ≡ false
other_id a b h = let ne = h.ids in ground arith

All-other_id_at :
    (a : Session) (xs : List Session) (id : ℕ)
    → (a.id == id) ≡ true
    → All (Apart a) xs
    → All (λ s. with_id id s ≡ false) xs
All-other_id_at a [] id e h = tt
All-other_id_at a (x ∷ xs) id e h =
    (ground (arith, e, other_id a x h.0), All-other_id_at a xs id e h.1)

module _ (p : Session → Bool) where
  pub found_by_id :
      (xs : List Session) (s : Session)
      → Distinct xs
      → find_if p xs ≡ some s
      → find_if (with_id s.id) xs ≡ some s
  unfolding find_if
  found_by_id [] s d e = cc
  found_by_id (x ∷ xs) s d e = elim (Bool-cases (p x)) [
    | inl t ↦ let same : x ≡ s = ground (arith, t) in rw same (ground arith)
    | inr t ↦
        let rest : find_if p xs ≡ some s = ground (arith, t) in
        let apart = other_id x s (All-find_if (Apart x) p xs s d.0 rest) in
        ground (arith, apart, found_by_id xs s d.1 rest)
  ]

  pub find_if-any_of :
      (xs : List Session) → any_of p xs ≡ true → (s : Session) × (find_if p xs ≡ some s)
  unfolding find_if any_of
  find_if-any_of [] e = cc
  find_if-any_of (x ∷ xs) e = elim (Bool-cases (p x)) [
    | inl t ↦ (x, rw t refl)
    | inr t ↦ let (s, found) = find_if-any_of xs (ground (arith, t)) in (s, rw t found)
  ]

  pub find_id-update_if :
      (f : Session → Session) (id : ℕ) (xs : List Session) (s : Session)
      → ((x : Session) → (f x).id ≡ x.id)
      → Distinct xs
      → find_if p xs ≡ some s
      → find_if (with_id id) (update_if p f xs)
        ≡ (if s.id == id then some (f s) else find_if (with_id id) xs)
  unfolding find_if update_if
  find_id-update_if f id [] s k d e = cc
  find_id-update_if f id (x ∷ xs) s k d e = elim (Bool-cases (p x)) [
    | inl t ↦ let same : x ≡ s = ground (arith, t) in rw (t, same) (ground (arith, k s))
    | inr t ↦
        let rest : find_if p xs ≡ some s = ground (arith, t) in
        let apart = other_id x s (All-find_if (Apart x) p xs s d.0 rest) in
        rw t (ground (arith, apart, find_id-update_if f id xs s k d.1 rest))
  ]

  pub find_id-erase_if :
      (id : ℕ) (xs : List Session) (s : Session)
      → Distinct xs
      → find_if p xs ≡ some s
      → find_if (with_id id) (erase_if p xs)
        ≡ (if s.id == id then none else find_if (with_id id) xs)
  unfolding find_if erase_if
  find_id-erase_if id [] s d e = cc
  find_id-erase_if id (x ∷ xs) s d e = elim (Bool-cases (p x)) [
    | inl t ↦
        let same : x ≡ s = ground (arith, t) in
        elim (Bool-cases (x.id == id)) [
          | inl at ↦
              rw t (
                ground (arith, same, none-find_if (with_id id) xs (All-other_id_at x xs id at d.0)))
          | inr other ↦ rw t (ground (arith, same))
        ]
    | inr t ↦
        let rest : find_if p xs ≡ some s = ground (arith, t) in
        let apart = other_id x s (All-find_if (Apart x) p xs s d.0 rest) in
        rw t (ground (arith, apart, find_id-erase_if id xs s d.1 rest))
  ]
