-- ===== src/Script/Kicks.antt =====
-- What a callback of the scripts may queue in ScriptHost.
use cybermp.Base.{
  ℕ, ◌+◌, ◌≡◌, refl, sym, ap, ◌∙◌, List, [], ◌∷◌, ◌++◌, Option, none, some, ◌==◌, length, All,
  arith, find_if, find_if-some, append_assoc, append-nil, length-append,
}
use cybermp.Session.{Session, SessionManager, find_player}
use cybermp.Script.{
  Request, info, warn, error, kick, PendingKick, ScriptHost, perform, perform_all, queue_kick,
  keep_backend, visit, each,
}

-- The kick is for a player that has a session.
abbrev pub IsPresent : SessionManager → PendingKick → Type 0
IsPresent m k = (s : Session) × (find_player k.player_id m ≡ some s)

found_by_id :
    (m : SessionManager) (id : ℕ) (s : Session)
    → find_player id m ≡ some s
    → find_player s.id m ≡ some s
unfolding find_player
found_by_id m id s e =
    let found : find_if (λ s. s.id == id) m.sessions ≡ some s = ground arith in
    let hit = find_if-some (λ s. s.id == id) m.sessions s found in
    let same : s.id ≡ id = ground arith in ap (λ i. find_player i m) same ∙ e

All-append :
    (m : SessionManager) (xs ys : List PendingKick)
    → All (IsPresent m) xs
    → All (IsPresent m) ys
    → All (IsPresent m) (xs ++ ys)
All-append m [] ys h k = k
All-append m (x ∷ xs) ys h k = (h.0, All-append m xs ys h.1 k)

-- How the host grows: kicks of players that are there join the queue.
pub record Grows {B : Type 0} (m : SessionManager) (g h : ScriptHost B) : Type 0 where
  pub added : List PendingKick
  pub queue : h.kicks ≡ g.kicks ++ added
  pub present : All (IsPresent m) added

module _ {B : Type 0} (m : SessionManager) where
  Grows-same : (g h : ScriptHost B) → h.kicks ≡ g.kicks → Grows m g h
  Grows-same g h e = record { added = []; queue = e ∙ sym (append-nil g.kicks); present = tt }

  Grows-then : {f g h : ScriptHost B} → Grows m f g → Grows m g h → Grows m f h
  Grows-then {f} {g} {h} p q = record {
    added = p.added ++ q.added;
    queue = q.queue ∙ ap (λ ks. ks ++ q.added) p.queue ∙ append_assoc f.kicks p.added q.added;
    present = All-append m p.added q.added p.present q.present;
  }

  queue_kick-Grows :
      (id : ℕ) (o : Option Session) (reason : List ℕ) (h : ScriptHost B)
      → find_player id m ≡ o
      → Grows m h (queue_kick o reason h)
  unfolding queue_kick
  queue_kick-Grows id none reason h e = Grows-same h h refl
  queue_kick-Grows id (some s) reason h e = record {
    added = record { player_id = s.id; reason = reason } ∷ [];
    queue = refl;
    present = ((s, found_by_id m id s e), tt);
  }

  perform-Grows : (r : Request) (h : ScriptHost B) → Grows m h (perform m r h)
  unfolding perform
  perform-Grows (info message) h = Grows-same h _ refl
  perform-Grows (warn message) h = Grows-same h _ refl
  perform-Grows (error message) h = Grows-same h _ refl
  perform-Grows (kick id reason) h = queue_kick-Grows id (find_player id m) reason h refl

  pub perform_all-Grows : (rs : List Request) (h : ScriptHost B) → Grows m h (perform_all m rs h)
  unfolding perform_all
  perform_all-Grows [] h = Grows-same h h refl
  perform_all-Grows (r ∷ rs) h =
      Grows-then (perform-Grows r h) (perform_all-Grows rs (perform m r h))

  backends-perform : (r : Request) (h : ScriptHost B) → (perform m r h).backends ≡ h.backends
  unfolding perform queue_kick
  backends-perform (info message) h = refl
  backends-perform (warn message) h = refl
  backends-perform (error message) h = refl
  backends-perform (kick id reason) h = by_view (find_player id m)
    where
      by_view : (o : Option Session) → (queue_kick o reason h).backends ≡ h.backends
      by_view none = refl
      by_view (some s) = refl

  pub backends-perform_all :
      (rs : List Request) (h : ScriptHost B) → (perform_all m rs h).backends ≡ h.backends
  unfolding perform_all
  backends-perform_all [] h = refl
  backends-perform_all (r ∷ rs) h = backends-perform_all rs (perform m r h) ∙ backends-perform r h

  module _ (method : B → B × List Request) where
    visit-Grows : (bs : List B) (h : ScriptHost B) → Grows m h (visit m method bs h)
    unfolding visit keep_backend
    visit-Grows [] h = Grows-same h h refl
    visit-Grows (b ∷ bs) h =
        let (b', requests) = method b in
        Grows-then (perform_all-Grows requests h) (
          Grows-then (Grows-same _ (keep_backend b' (perform_all m requests h)) refl)
            (visit-Grows bs _))

    count-visit :
        (bs : List B) (h : ScriptHost B)
        → length (visit m method bs h).backends ≡ length h.backends + length bs
    unfolding visit keep_backend
    count-visit [] h = omega arith
    count-visit (b ∷ bs) h =
        let (b', requests) = method b in
        omega (
          arith,
          count-visit bs (keep_backend b' (perform_all m requests h)),
          length-append (perform_all m requests h).backends (b' ∷ []),
          ap (λ xs. length xs) (backends-perform_all requests h),
        )

    -- A callback that goes to every backend keeps their number, and the queue of kicks is then the
    -- one before followed by kicks of players that have a session.
    pub each_kicks :
        (h : ScriptHost B)
        → Grows m h (each m method h) × (length (each m method h).backends ≡ length h.backends)
    unfolding each
    each_kicks h =
        let cleared : ScriptHost B = record h { backends = [] } in
        (
          Grows-then (Grows-same h cleared refl) (visit-Grows h.backends cleared),
          omega (arith, count-visit h.backends cleared),
        )
