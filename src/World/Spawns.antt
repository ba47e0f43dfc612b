-- ===== src/World/Spawns.antt =====
-- What the console spawns, and DespawnAll of WorldSystem.cpp.
use cybermp.Base.{
  ℕ, ◌%◌, ◌^◌, ◌≡◌, refl, ◌∙◌, List, [], ◌∷◌, ◌++◌, Bool, true, false, not, ◌&&◌, ◌||◌, Option,
  none, some, length, any_of, All, All-snoc, ◌==◌, arith, codes, to_decimal, Bool-cases,
  Option-cases, inl, inr, ==→eq,
}
use cybermp.Proto.Messages.{Vec3}
use cybermp.World.{
  Spec, Engine, World, template, character, track_spawned, despawn_each, despawn_all,
}
use cybermp.World.Console.{
  get_spawned_count, spec_on_player, prop_template, record_or_default, submit_spec, tracked,
  spawn_with, spawn_prop, spawn_npc,
}

pub data Command : Type 0 where
  prop : Option Vec3 → Command
  npc : List ℕ → Option Vec3 → Command

abbrev pub among : ℕ → List ℕ → Bool
among x ys = any_of (λ y. x == y) ys

pub among-snoc : (x : ℕ) (ys : List ℕ) (e : ℕ) → among x (ys ++ (e ∷ [])) ≡ among x ys || (x == e)
unfolding any_of
among-snoc x [] e = ground arith
among-snoc x (y ∷ ys) e = ground (arith, among-snoc x ys e)

-- No entity twice.
abbrev Once : List ℕ → Type 0
Once [] = Unit
Once (y ∷ ys) = (among y ys ≡ false) × Once ys

Once-snoc : (ys : List ℕ) (e : ℕ) → Once ys → among e ys ≡ false → Once (ys ++ (e ∷ []))
unfolding any_of
Once-snoc [] e o n = (refl, tt)
Once-snoc (y ∷ ys) e o n =
    (ground (arith, among-snoc y ys e, o.0), Once-snoc ys e o.1 (ground arith))

module _ {G : Type 0} (E : Engine G) where
  unfoldable pub run_command : Command → World × G → World × G
  run_command (prop player) s = let r = spawn_prop E player s in (r.1, r.2)
  run_command (npc name player) s = let r = spawn_npc E name player s in (r.1, r.2)

  unfoldable pub run_commands : List Command → World × G → World × G
  run_commands [] s = s
  run_commands (c ∷ cs) s = run_commands cs (run_command c s)

  -- What Codeware says of the entities of its system, which is there all along: an entity that is
  -- made is new and then there; one that is there can be deleted, and is then gone; and nothing
  -- else comes or goes.
  pub record Keeps (alive : ℕ → G → Bool) : Type 0 where
    pub system : (g : G) → E.has_system g ≡ true
    pub fresh :
        (spec : Spec) (g : G) (e : ℕ) → (E.create_entity spec g).0 ≡ some e → alive e g ≡ false
    pub made :
        (spec : Spec) (g : G) (e x : ℕ)
        → (E.create_entity spec g).0 ≡ some e
        → alive x (E.create_entity spec g).1 ≡ alive x g || (x == e)
    pub not_made :
        (spec : Spec) (g : G) (x : ℕ)
        → (E.create_entity spec g).0 ≡ none
        → alive x (E.create_entity spec g).1 ≡ alive x g
    pub deleted : (e : ℕ) (g : G) → (E.delete_entity e g).0 ≡ alive e g
    pub gone : (e x : ℕ) (g : G) → alive x (E.delete_entity e g).1 ≡ alive x g && not (x == e)

module _ {G : Type 0} (E : Engine G) (alive : ℕ → G → Bool) (k : Keeps E alive)
    (base : ℕ → Bool) where
  abbrev Others : List ℕ → Type 0
  Others ys = All (λ y. base y ≡ false) ys

  -- The entities are those of the start and those in the list.
  abbrev Tracks : List ℕ → G → Type 0
  Tracks ys g = ((x : ℕ) → alive x g ≡ base x || among x ys) × Once ys × Others ys

  grown_alive :
      (ys : List ℕ) (spec : Spec) (g : G) (e x : ℕ)
      → Tracks ys g
      → (E.create_entity spec g).0 ≡ some e
      → alive x (E.create_entity spec g).1 ≡ base x || among x (ys ++ (e ∷ []))
  grown_alive ys spec g e x t made =
      ground (arith, k.made spec g e x made, t.0 x, among-snoc x ys e)

  -- What is new is neither of the start nor in the list.
  unused :
      (ys : List ℕ) (spec : Spec) (g : G) (e : ℕ)
      → Tracks ys g
      → (E.create_entity spec g).0 ≡ some e
      → (base e ≡ false) × (among e ys ≡ false)
  unused ys spec g e t made =
      let none_there = k.fresh spec g e made in
      (ground (arith, none_there, t.0 e), ground (arith, none_there, t.0 e))

  tracked-Tracks :
      (refused : List ℕ) (accepted : ℕ → List ℕ) (spec : Spec) (w : World) (g : G)
      → Tracks w.spawned g
      → let r = tracked E refused accepted (E.create_entity spec g) w in Tracks r.1.spawned r.2
  unfolding tracked track_spawned
  tracked-Tracks refused accepted spec w g t = elim (Option-cases (E.create_entity spec g).0) [
    | inl e ↦ rw (e, tracked) (λ x. k.not_made spec g x e ∙ t.0 x, t.1, t.2)
    | inr (entity, e) ↦
        let (off, missing) = unused w.spawned spec g entity t e in
        rw (e, tracked)
          (
            λ x. grown_alive w.spawned spec g entity x t e,
            Once-snoc w.spawned entity t.1 missing,
            All-snoc (λ y. base y ≡ false) w.spawned entity t.2 off,
          )
  ]

  spawn_with-Tracks :
      (has_property : Bool) (missing refused : List ℕ) (accepted : ℕ → List ℕ) (spec : Spec)
      (w : World) (g : G)
      → Tracks w.spawned g
      → let r = spawn_with E has_property missing refused accepted spec (w, g) in
        Tracks r.1.spawned r.2
  unfolding spawn_with submit_spec
  spawn_with-Tracks has_property missing refused accepted spec w g t =
      elim (Bool-cases (not (E.makes_spec g) || not (E.has_layout g))) [
        | inl n ↦ rw (n, spawn_with) t
        | inr y ↦ elim (Bool-cases has_property) [
          | inl p ↦ rw (y, spawn_with, p, k.system g) (tracked-Tracks refused accepted spec w g t)
          | inr n ↦ rw (y, spawn_with, n) t
        ]
      ]

  command-Tracks :
      (c : Command) (w : World) (g : G)
      → Tracks w.spawned g
      → let r = run_command E c (w, g) in Tracks r.0.spawned r.1
  unfolding run_command spawn_prop spawn_npc
  command-Tracks (prop player) w g t =
      spawn_with-Tracks (E.has_template g) (codes "no templatePath") (codes "CreateEntity failed")
        (λ x. codes "spawn requested, id " ++ to_decimal x)
        (spec_on_player player (template prop_template)) w g t
  command-Tracks (npc name player) w g t =
      spawn_with-Tracks (E.has_record g) (codes "no recordID")
        (codes "spawn refused, unknown record '" ++ (record_or_default name ++ codes "'?"))
        (λ x.
          codes "spawn requested, record "
          ++ (record_or_default name ++ (codes ", id " ++ to_decimal x)))
        (spec_on_player player (character (record_or_default name))) w g t

  commands-Tracks :
      (cs : List Command) (w : World) (g : G)
      → Tracks w.spawned g
      → let r = run_commands E cs (w, g) in Tracks r.0.spawned r.1
  unfolding run_commands
  commands-Tracks [] w g t = t
  commands-Tracks (c ∷ cs) w g t =
      let r = run_command E c (w, g) in commands-Tracks cs r.0 r.1 (command-Tracks c w g t)

  left_alive :
      (y x : ℕ) (ys : List ℕ) (g : G)
      → Tracks (y ∷ ys) g
      → alive x (E.delete_entity y g).1 ≡ base x || among x ys
  unfolding any_of
  left_alive y x ys g t = elim (Bool-cases (x == y)) [
    | inl same ↦
        let e : x ≡ y = ==→eq x y same in
        let none_twice : among x ys ≡ false = rw e t.1.0 in
        let off : base x ≡ false = rw e t.2.0 in ground (arith, k.gone y x g, none_twice, off, same)
    | inr other ↦ ground (arith, k.gone y x g, t.0 x, other)
  ]

  despawn_each-lem :
      (ys : List ℕ) (g : G)
      → Tracks ys g
      → let r = despawn_each E ys g in (r.0 ≡ length ys % 2 ^ 32) × ((x : ℕ) → alive x r.1 ≡ base x)
  unfolding despawn_each any_of
  despawn_each-lem [] g t = (refl, λ x. ground (arith, t.0 x))
  despawn_each-lem (y ∷ ys) g t =
      let here : (E.delete_entity y g).0 ≡ true = ground (arith, k.deleted y g, t.0 y) in
      let (number, left) =
        despawn_each-lem ys (E.delete_entity y g).1 (λ x. left_alive y x ys g t, t.1.1, t.2.1) in
      (rw here (omega (arith, number)), left)

-- If the engine keeps account of its entities as Keeps says, and the world tracks none: after any
-- of the console's commands that spawn, and then DespawnAll, the entities that are there are
-- exactly those that were there before the commands, none is tracked, and the answer of DespawnAll
-- is what GetSpawnedCount gave before it.
pub spawns_cleaned :
    {G : Type 0} (E : Engine G) (alive : ℕ → G → Bool) (cs : List Command) (w : World) (g : G)
    → Keeps E alive
    → w.spawned ≡ []
    → let r = run_commands E cs (w, g) in
      let (count, after, left) = despawn_all E r in
      ((x : ℕ) → alive x left ≡ alive x g) × (after.spawned ≡ []) × (count ≡ get_spawned_count r.0)
unfolding despawn_all get_spawned_count any_of
spawns_cleaned E alive cs w g k none_yet =
    let base : ℕ → Bool = λ x. alive x g in
    let r = run_commands E cs (w, g) in
    let start : Tracks E alive k base w.spawned g = rw none_yet (λ x. ground arith, tt, tt) in
    let (number, left) =
      despawn_each-lem E alive k base r.0.spawned r.1
        (commands-Tracks E alive k base cs w g start) in
    rw (k.system r.1) (left, refl, number)
