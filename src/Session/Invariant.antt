-- ===== src/Session/Invariant.antt =====
-- What is to hold of the sessions of a SessionManager between its methods.
use cybermp.Base.{
  ℕ, ◌+◌, ◌%◌, ◌^◌, ◌≤◌, ◌<◌, ◌≡◌, ◌≢◌, List, [], ◌∷◌, ◌++◌, Bool, false, none, length, leb, arith,
  All, eq_bytes, update_if, erase_if, find_if-none, any_of-false, length-update_if,
  length-erase_if-le, All-erase_if, All-update_if, All-snoc, length-append, Bool-cases, inl, inr,
}
use cybermp.Session.{
  Endpoint, Session, SessionManager, eq_endpoint, new_manager, find_endpoint, is_from, new_session,
  bad_name, name_in_use,
}

-- Two sessions share neither id nor endpoint nor name.
pub record Apart (a b : Session) : Type 0 where
  pub ids : a.id ≢ b.id
  pub endpoints : eq_endpoint a.endpoint b.endpoint ≡ false
  pub usernames : eq_bytes a.username b.username ≡ false

abbrev pub Distinct : List Session → Type 0
Distinct [] = Unit
Distinct (s ∷ ss) = All (Apart s) ss × Distinct ss

abbrev pub IsNumbered : ℕ → Session → Type 0
IsNumbered next_id s = (0 < s.id) × (s.id < next_id)

abbrev pub IsNamed : Session → Type 0
IsNamed s = bad_name s.username ≡ false

pub record IsValid (m : SessionManager) : Type 0 where
  pub started : 0 < m.next_id
  pub bounded : length m.sessions ≤ m.max_players
  pub numbered : All (IsNumbered m.next_id) m.sessions
  pub named : All IsNamed m.sessions
  pub distinct : Distinct m.sessions

pub new_manager-IsValid :
    (max_players timeout_ms : ℕ) → IsValid (new_manager max_players timeout_ms)
unfolding new_manager
new_manager-IsValid max_players timeout_ms = record {
  started = omega arith;
  bounded = omega arith;
  numbered = tt;
  named = tt;
  distinct = tt;
}

pub Distinct-erase_if :
    (p : Session → Bool) (xs : List Session) → Distinct xs → Distinct (erase_if p xs)
unfolding erase_if
Distinct-erase_if p [] d = tt
Distinct-erase_if p (x ∷ xs) d = elim (Bool-cases (p x)) [
  | inl t ↦ rw t d.1
  | inr t ↦ rw t (All-erase_if (Apart x) p xs d.0, Distinct-erase_if p xs d.1)
]

-- A write that leaves the three keys alone.
pub record KeepsKeys (f : Session → Session) : Type 0 where
  pub ids : (s : Session) → (f s).id ≡ s.id
  pub endpoints : (s : Session) → (f s).endpoint ≡ s.endpoint
  pub usernames : (s : Session) → (f s).username ≡ s.username

module _ (f : Session → Session) (k : KeepsKeys f) where
  Apart-left : (a b : Session) → Apart a b → Apart (f a) b
  Apart-left a b h = record {
    ids = rw (k.ids a) h.ids;
    endpoints = rw (k.endpoints a) h.endpoints;
    usernames = rw (k.usernames a) h.usernames;
  }

  Apart-right : (a b : Session) → Apart a b → Apart a (f b)
  Apart-right a b h = record {
    ids = rw (k.ids b) h.ids;
    endpoints = rw (k.endpoints b) h.endpoints;
    usernames = rw (k.usernames b) h.usernames;
  }

  All-left : (a : Session) (xs : List Session) → All (Apart a) xs → All (Apart (f a)) xs
  All-left a [] h = tt
  All-left a (x ∷ xs) h = (Apart-left a x h.0, All-left a xs h.1)

  Distinct-update_if :
      (p : Session → Bool) (xs : List Session) → Distinct xs → Distinct (update_if p f xs)
  unfolding update_if
  Distinct-update_if p [] d = tt
  Distinct-update_if p (x ∷ xs) d = elim (Bool-cases (p x)) [
    | inl t ↦ rw t (All-left x xs d.0, d.1)
    | inr t ↦ rw t (All-update_if (Apart x) p f xs (Apart-right x) d.0, Distinct-update_if p xs d.1)
  ]

  pub update-IsValid :
      (p : Session → Bool) (m : SessionManager)
      → IsValid m
      → IsValid (record m { sessions = update_if p f m.sessions })
  update-IsValid p m v = record {
    started = v.started;
    bounded = omega (arith, v.bounded, length-update_if p f m.sessions);
    numbered =
        All-update_if (IsNumbered m.next_id) p f m.sessions (λ s h. rw (k.ids s) h) v.numbered;
    named = All-update_if IsNamed p f m.sessions (λ s h. rw (k.usernames s) h) v.named;
    distinct = Distinct-update_if p m.sessions v.distinct;
  }

pub erase-IsValid :
    (p : Session → Bool) (m : SessionManager)
    → IsValid m
    → IsValid (record m { sessions = erase_if p m.sessions })
erase-IsValid p m v = record {
  started = v.started;
  bounded = omega (arith, v.bounded, length-erase_if-le p m.sessions);
  numbered = All-erase_if (IsNumbered m.next_id) p m.sessions v.numbered;
  named = All-erase_if IsNamed p m.sessions v.named;
  distinct = Distinct-erase_if p m.sessions v.distinct;
}

Distinct-snoc :
    (xs : List Session) (y : Session)
    → Distinct xs
    → All (λ x. Apart x y) xs
    → Distinct (xs ++ (y ∷ []))
Distinct-snoc [] y d h = (tt, tt)
Distinct-snoc (x ∷ xs) y d h = (All-snoc (Apart x) xs y d.0 h.0, Distinct-snoc xs y d.1 h.1)

-- The facts that Join has tested keep a new session apart from those that are there.
All-Apart :
    (xs : List Session) (next_id now : ℕ) (from : Endpoint) (username : List ℕ)
    → All (IsNumbered next_id) xs
    → All (λ s. is_from from s ≡ false) xs
    → All (λ s. eq_bytes s.username username ≡ false) xs
    → All (λ s. Apart s (new_session next_id username from now)) xs
All-Apart [] next_id now from username n e u = tt
All-Apart (x ∷ xs) next_id now from username n e u = (
  record { ids = omega (arith, n.0); endpoints = e.0; usernames = u.0 },
  All-Apart xs next_id now from username n.1 e.1 u.1,
)

All-later : (a b : ℕ) (xs : List Session) → a ≤ b → All (IsNumbered a) xs → All (IsNumbered b) xs
All-later a b [] h n = tt
All-later a b (x ∷ xs) h n = (omega (arith, n.0), All-later a b xs h n.1)

pub append-IsValid :
    (from : Endpoint) (username : List ℕ) (now : ℕ) (m : SessionManager)
    → IsValid m
    → m.next_id + 1 < 2 ^ 32
    → find_endpoint from m ≡ none
    → bad_name username ≡ false
    → name_in_use username m ≡ false
    → leb m.max_players (length m.sessions) ≡ false
    → IsValid (record m {
      next_id = (m.next_id + 1) % 2 ^ 32;
      sessions = m.sessions ++ (new_session m.next_id username from now ∷ []);
    })
unfolding find_endpoint
append-IsValid from username now m v fits unknown good unused room =
    let next : (m.next_id + 1) % 2 ^ 32 ≡ m.next_id + 1 = omega arith in
    rw next (record {
      started = omega arith;
      bounded =
          ground (arith, length-append m.sessions (new_session m.next_id username from now ∷ []));
      numbered =
          All-snoc (IsNumbered (m.next_id + 1)) m.sessions _
            (All-later m.next_id (m.next_id + 1) m.sessions (omega arith) v.numbered)
            (omega (arith, v.started));
      named = All-snoc IsNamed m.sessions _ v.named good;
      distinct = Distinct-snoc m.sessions _ v.distinct (
          All-Apart m.sessions m.next_id now from username v.numbered
            (find_if-none _ m.sessions unknown) (any_of-false _ m.sessions unused));
    })
