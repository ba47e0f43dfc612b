-- ===== src/World/Samples.antt =====
-- The sample history of a remote body, and what interpolation makes of it.
use cybermp.Base.{
  ℕ, ◌≤◌, ◌<◌, ◌≡◌, ap, List, [], ◌∷◌, ◌++◌, Option, none, some, length, drop, ltb, leb, arith, All,
  length-append, Bool-cases, inl, inr, length-drop,
}
use cybermp.NetClient.{RemoteSnapshot}
use cybermp.World.{Sample, RemoteBody, World}
use cybermp.World.Aim.{Floats, add_sample, around, aim, max_samples, sample_of}

-- The stamps never go back.
abbrev pub Ordered : ℕ → List Sample → Type 0
Ordered low [] = Unit
Ordered low (s ∷ ss) = (low ≤ s.local_ms) × Ordered s.local_ms ss

abbrev pub Before : ℕ → List Sample → Type 0
Before now ss = All (λ s. s.local_ms ≤ now) ss

pub record IsHistory (now : ℕ) (body : RemoteBody) : Type 0 where
  pub short : length body.samples ≤ 8
  pub ordered : Ordered 0 body.samples
  pub past : Before now body.samples

Ordered-snoc :
    (low : ℕ) (ss : List Sample) (s : Sample)
    → low ≤ s.local_ms
    → Ordered low ss
    → Before s.local_ms ss
    → Ordered low (ss ++ (s ∷ []))
Ordered-snoc low [] s h o p = (h, tt)
Ordered-snoc low (x ∷ xs) s h o p = (o.0, Ordered-snoc x.local_ms xs s p.0 o.1 p.1)

Before-snoc :
    (now : ℕ) (ss : List Sample) (s : Sample)
    → Before now ss
    → s.local_ms ≤ now
    → Before now (ss ++ (s ∷ []))
Before-snoc now [] s p h = (h, tt)
Before-snoc now (x ∷ xs) s p h = (p.0, Before-snoc now xs s p.1 h)

Before-later : (a b : ℕ) (ss : List Sample) → a ≤ b → Before a ss → Before b ss
Before-later a b [] h p = tt
Before-later a b (x ∷ xs) h p = (omega (arith, p.0), Before-later a b xs h p.1)

Ordered-low : (a b : ℕ) (ss : List Sample) → b ≤ a → Ordered a ss → Ordered b ss
Ordered-low a b [] h o = tt
Ordered-low a b (x ∷ xs) h o = (omega (arith, o.0), o.1)

Ordered-drop : (ss : List Sample) → Ordered 0 ss → Ordered 0 (drop 1 ss)
Ordered-drop [] o = tt
Ordered-drop (x ∷ xs) o = Ordered-low x.local_ms 0 xs (omega arith) o.1

Before-drop : (now : ℕ) (ss : List Sample) → Before now ss → Before now (drop 1 ss)
Before-drop now [] p = tt
Before-drop now (x ∷ xs) p = p.1

-- If a body has at most 8 samples, in the order of their times and none later than some time, and
-- the tick is not before that time, the same holds after a snapshot, up to the time of the tick;
-- and the body's last tick is no less than before and no less than the snapshot's.
pub add_sample-IsHistory :
    (before now : ℕ) (snapshot : RemoteSnapshot) (body : RemoteBody)
    → before ≤ now
    → IsHistory before body
    → IsHistory now (add_sample now snapshot body)
      × (body.last_tick ≤ (add_sample now snapshot body).last_tick)
      × (snapshot.tick ≤ (add_sample now snapshot body).last_tick)
unfolding add_sample
add_sample-IsHistory before now snapshot body later h =
    let past = Before-later before now body.samples later h.past in
    let s = sample_of now snapshot in
    let ordered = Ordered-snoc 0 body.samples s (omega arith) h.ordered past in
    let longer = length-append body.samples (s ∷ []) in
    elim (Bool-cases (ltb body.last_tick snapshot.tick)) [
      | inr old ↦
          rw old (
            record { short = h.short; ordered = h.ordered; past = past },
            omega arith,
            ground arith,
          )
      | inl new ↦ elim (Bool-cases (ltb max_samples (length (body.samples ++ (s ∷ []))))) [
        | inl crowded ↦
            rw (new, crowded)
              (
                record {
                  short = omega (arith, length-drop 1 (body.samples ++ (s ∷ [])), longer, h.short);
                  ordered = Ordered-drop (body.samples ++ (s ∷ [])) ordered;
                  past =
                      Before-drop now (body.samples ++ (s ∷ []))
                        (Before-snoc now body.samples s past (omega arith));
                },
                ground arith,
                omega arith,
              )
        | inr room ↦
            rw (new, room)
              (
                record {
                  short = ground arith;
                  ordered = ordered;
                  past = Before-snoc now body.samples s past (omega arith);
                },
                ground arith,
                omega arith,
              )
      ]
    ]

-- What lies on the two sides of the time that is shown.
abbrev pub IsEarly : ℕ → Option Sample → Type 0
IsEarly render none = Unit
IsEarly render (some b) = b.local_ms ≤ render

abbrev pub IsLate : ℕ → Option Sample → Type 0
IsLate render none = Unit
IsLate render (some a) = render < a.local_ms

around_sides :
    (render : ℕ) (o : Option Sample) (ss : List Sample)
    → IsEarly render o
    → IsEarly render (around render o ss).0 × IsLate render (around render o ss).1
unfolding around
around_sides render o [] h = (h, tt)
around_sides render o (s ∷ ss) h = elim (Bool-cases (leb s.local_ms render)) [
  | inl e ↦ rw e (around_sides render (some s) ss (ground arith))
  | inr e ↦ rw e (h, ground arith)
]

module _ (F : Floats) (w : World) (render : ℕ) (last : Sample) where
  aim_sides :
      (o : Option Sample × Option Sample) (b a : Sample)
      → IsEarly render o.0 × IsLate render o.1
      → o ≡ (some b, some a)
      → (b.local_ms ≤ render) × (render < a.local_ms) × ((aim F render last o w).2 ≡ w)
  unfolding aim
  aim_sides (some x, some y) b a h e = ground arith
  aim_sides (some x, none) b a h e = ground (arith, ap (λ o. o.1) e)
  aim_sides (none, o) b a h e = ground (arith, ap (λ o. o.0) e)

  -- If the search for the samples around the time that is shown finds two, the first is not after
  -- this time and the second is after it, so that the span divided by is not zero; and no starved
  -- frame is counted.
  pub aim_between :
      (ss : List Sample) (b a : Sample)
      → around render none ss ≡ (some b, some a)
      → (b.local_ms ≤ render)
        × (render < a.local_ms)
        × ((aim F render last (around render none ss) w).2 ≡ w)
  aim_between ss b a e = aim_sides (around render none ss) b a (around_sides render none ss tt) e
