-- ===== src/Tests/Console.antt =====
-- Examples for what the console spawns and asks for (WorldSystem.cpp, DebugApi.cpp). The game's state
-- is the list of its entities, and a new entity is one more than all of them together.
use cybermp.Base.{
  ℕ, ◌+◌, ◌%◌, ◌^◌, ◌≤◌, ◌<◌, ◌≡◌, ◌≢◌, ◌↔◌, refl, List, [], ◌∷◌, ◌++◌, map, Bool, true, false, not,
  ◌&&◌, ◌||◌, none, some, ◌==◌, arith, length, take, codes, to_decimal, any_of, filter_by,
  Bool-cases, inl, inr, ==→eq, ==-refl,
}
use cybermp.World.{World, new_body, character, Engine, find_body, despawn_all}
use cybermp.World.Drive.{drive, npc_record, pump_remote_players}
use cybermp.World.Console.{get_spawned_count}
use cybermp.World.Spawns.{
  Command, prop, npc, among, among-snoc, run_commands, Keeps, spawns_cleaned,
}
use cybermp.World.Reload.{reloaded, embodied, body_stays_gone}
use cybermp.DebugApi.{
  matches, find_classes, dump_methods, lowered, text_of, Function, Class, signature,
}
use cybermp.DebugApi.Matching.{HasPart, matches_lem}
use cybermp.DebugApi.Listing.{
  found_in, type_line, find_classes_lem, hits, class_lines, dump_methods_lem,
}
use cybermp.NetClient.{NetClient}
use cybermp.Tests.{place, client}
use cybermp.Tests.Worlds.{floats, world, next_snapshot}

abbrev total : List ℕ → ℕ
total [] = 0
total (x ∷ xs) = x + total xs

abbrev without : ℕ → List ℕ → List ℕ
without x ys = filter_by (λ y. not (y == x)) ys

abbrev town : Engine (List ℕ)
town = record {
  has_system = λ g. true;
  makes_spec = λ g. true;
  has_layout = λ g. true;
  has_template = λ g. true;
  has_record = λ g. true;
  create_entity = λ spec g. (some (total g + 1), g ++ ((total g + 1) ∷ []));
  delete_entity = λ entity g. (among entity g, without entity g);
  get_entity = λ entity g. among entity g;
  write_transform = λ entity target g. (true, g);
  write_mover = λ entity target velocity g. (true, g);
  write_teleport = λ entity target g. (true, g);
}

too_large : (x : ℕ) (ys : List ℕ) → total ys < x → among x ys ≡ false
unfolding any_of
too_large x [] h = refl
too_large x (y ∷ ys) h = ground (arith, too_large x ys)

among-without : (e x : ℕ) (ys : List ℕ) → among x (without e ys) ≡ among x ys && not (x == e)
unfolding any_of filter_by
among-without e x [] = refl
among-without e x (y ∷ ys) = ground (arith, among-without e x ys)

town-Keeps : Keeps town among
town-Keeps = record {
  system = λ g. refl;
  fresh = λ spec g e h. let new : e ≡ total g + 1 = cc in too_large e g (omega (arith, new));
  made = λ spec g e x h. let new : e ≡ total g + 1 = cc in rw new (among-snoc x g (total g + 1));
  not_made = λ spec g x h. cc;
  deleted = λ e g. refl;
  gone = λ e x g. among-without e x g;
}

abbrev commands : List Command
commands = prop (some place) ∷ npc (codes "Character.Judy") none ∷ []

spawns_cleaned_example :
    let r = run_commands town commands (world, 3 ∷ 4 ∷ []) in
    let (count, after, left) = despawn_all town r in
    ((x : ℕ) → among x left ≡ among x (3 ∷ 4 ∷ []))
    × (after.spawned ≡ [])
    × (count ≡ get_spawned_count r.0)
spawns_cleaned_example = spawns_cleaned town among commands world (3 ∷ 4 ∷ []) town-Keeps refl

-- A world where player 1 has joined and its body is not yet asked for.
abbrev fresh_world : World
fresh_world = record world { bodies = (1, new_body) ∷ [] }

-- The news of player 1 again, in the next world.
abbrev reminded : NetClient
reminded = record client {
  events = record { joined = true; player_id = 1; username = codes "alice" } ∷ [];
  remote = (1, next_snapshot) ∷ [];
}

body_found : find_body 1 fresh_world ≡ some (1, new_body)
unfolding find_body cybermp.Base.find_if
body_found = refl

body_stays_gone_example :
    let left =
      reloaded (drive floats town true 1000 (1, next_snapshot) (fresh_world, 3 ∷ 4 ∷ [])).0 in
    (find_body 1 left ≡ some (1, embodied 8 new_body))
    × (pump_remote_players floats town 1100 (reminded, left, [])
        ≡ (record reminded { events = [] }, left, []))
unfolding any_of
body_stays_gone_example =
    body_stays_gone floats town 1 8 1000 1100 next_snapshot new_body (character (npc_record town))
      reminded fresh_world (3 ∷ 4 ∷ []) [] body_found refl refl refl refl refl refl (refl, refl, tt)
      (refl, tt)

abbrev type_names : List (List ℕ)
type_names = codes "Vehicle" ∷ codes "NPCPuppet" ∷ codes "gameNpcSpawner" ∷ []

find_classes_example :
    let shown = take 200 (found_in (lowered (codes "NPC")) type_names) in
    find_classes (codes "NPC") (some type_names)
    ≡ (to_decimal (length shown) ++ codes " type(s) logged", map type_line shown)
find_classes_example = find_classes_lem (codes "NPC") type_names (λ e. cc)

matches_example :
    (matches (some (codes "NPCPuppet")) (codes "pup") ≡ true)
    ↔ HasPart (codes "pup") (lowered (text_of (some (codes "NPCPuppet"))))
matches_example = matches_lem (some (codes "NPCPuppet")) (codes "pup")

abbrev opens : Function
opens = record {
  short_name = codes "OpenDoor";
  params =
      some (record { type_name = some (codes "Bool"); name = some (codes "force") }) ∷ none ∷ [];
  return_type = none;
}

abbrev door : Class
door = record { name = codes "Door"; funcs = none ∷ some opens ∷ []; static_funcs = [] }

abbrev device : Class
device = record { name = codes "Device"; funcs = []; static_funcs = some opens ∷ [] }

opens_text : signature opens ≡ codes "OpenDoor(Bool force, ?) -> Void"
unfolding signature cybermp.DebugApi.params_text cybermp.DebugApi.more_params
    cybermp.DebugApi.param_text cybermp.DebugApi.name_text cybermp.DebugApi.return_text
    cybermp.DebugApi.type_name_of cybermp.DebugApi.type_text
opens_text = refl

dump_methods_example : dump_methods (codes "Door") (codes "open") (some (door ∷ device ∷ [])) ≡ (
  to_decimal (hits (lowered (codes "open")) (door ∷ device ∷ []) % 2 ^ 32)
      ++ codes " method(s) logged",
  class_lines (lowered (codes "open")) (door ∷ device ∷ []),
)
dump_methods_example = dump_methods_lem (codes "Door") (codes "open") (door ∷ device ∷ []) (λ e. cc)
