-- ===== src/World/Console.antt =====
-- The console's calls of WorldSystem.cpp that spawn, connect and count. An answer is a text; log
-- lines are left out, and so is the world system's own absence.
use cybermp.Base.{
  ℕ, zero, suc, ◌+◌, ◌%◌, ◌^◌, List, [], ◌∷◌, ◌++◌, Bool, true, false, not, ◌||◌, Option, none,
  some, length, ltb, ◌==◌, if◌then◌else◌, codes, to_decimal, ℤ, pos, negsuc,
}
use cybermp.Proto.Messages.{Vec3}
use cybermp.TaskQueue.{TaskQueue, push}
use cybermp.NetClient.{NetClient, Task, other_task, to_string, connect, disconnect}
use cybermp.NetClient.Game.{get_stats}
use cybermp.World.{RemoteBody, Spec, SpecSource, template, character, Engine, World, track_spawned}

unfoldable pub get_spawned_count : World → ℕ
get_spawned_count w = length w.spawned % 2 ^ 32

-- What GetWorldPosition returns for the player, if there is one.
abbrev pub player_position : Option Vec3 → Vec3
player_position none = record { x = 0; y = 0; z = 0 }
player_position (some position) = position

abbrev pub prop_template : List ℕ
prop_template = codes "base\\gameplay\\devices\\ladder\\appearances\\10m_gen_default.ent"

abbrev pub default_record : List ℕ
default_record = codes "Character.spr_animals_bouncer1_ranged1_omaha_mb"

abbrev pub record_or_default : List ℕ → List ℕ
record_or_default name = if length name == 0 then default_record else name

-- A spec on the player, with what the caller fills in; the server owns what is spawned.
abbrev pub spec_on_player : Option Vec3 → SpecSource → Spec
spec_on_player player source = record {
  source = source;
  position = player_position player;
  persist_state = false;
  persist_spawn = false;
}

module _ {G : Type 0} (E : Engine G) where
  -- SubmitSpec: the id that CreateEntity gave, if it is defined.
  unfoldable pub submit_spec : Spec → G → Option ℕ × G
  submit_spec spec g = if E.has_system g then E.create_entity spec g else (none, g)

  unfoldable pub tracked : List ℕ → (ℕ → List ℕ) → Option ℕ × G → World → List ℕ × World × G
  tracked refused accepted (none, g) w = (refused, w, g)
  tracked refused accepted (some entity, g) w = (accepted entity, track_spawned entity w, g)

  -- MakeSpecAtPlayer, the property that the caller sets, and SubmitSpec.
  unfoldable pub spawn_with :
      Bool → List ℕ → List ℕ → (ℕ → List ℕ) → Spec → World × G → List ℕ × World × G
  unfolding tracked
  spawn_with has_property missing refused accepted spec (w, g) =
      if not (E.makes_spec g) || not (E.has_layout g)
      then (codes "spec failed", w, g)
      else if not has_property
      then (missing, w, g)
      else tracked refused accepted (submit_spec spec g) w

  unfoldable pub spawn_prop : Option Vec3 → World × G → List ℕ × World × G
  unfolding spawn_with
  spawn_prop player (w, g) =
      spawn_with (E.has_template g) (codes "no templatePath") (codes "CreateEntity failed")
        (λ entity. codes "spawn requested, id " ++ to_decimal entity)
        (spec_on_player player (template prop_template)) (w, g)

  unfoldable pub spawn_npc : List ℕ → Option Vec3 → World × G → List ℕ × World × G
  unfolding spawn_with
  spawn_npc name player (w, g) =
      let wanted = record_or_default name in
      spawn_with (E.has_record g) (codes "no recordID")
        (codes "spawn refused, unknown record '" ++ (wanted ++ codes "'?"))
        (λ entity.
          codes "spawn requested, record " ++ (wanted ++ (codes ", id " ++ to_decimal entity)))
        (spec_on_player player (character wanted)) (w, g)

-- PostTasksFromThread: the producer's pushes, one after the other.
abbrev pub push_times : ℕ → TaskQueue Task → TaskQueue Task
push_times zero q = q
push_times (suc n) q = push_times n (push (λ t. true) other_task q)

abbrev pub count_error : List ℕ
count_error = codes "count must be 1..10000"

unfoldable pub post_tasks : ℤ → TaskQueue Task → List ℕ × TaskQueue Task
post_tasks (negsuc n) q = (count_error, q)
post_tasks (pos n) q = if (n == 0) || ltb 10000 n then (count_error, q) else (
  codes "queued " ++ (to_decimal n ++ codes " task(s) from a worker thread"),
  push_times n q,
)

abbrev pub name_or_player : List ℕ → List ℕ
name_or_player username = if length username == 0 then codes "player" else username

connect_answer : ℕ → List ℕ → Bool × NetClient → List ℕ × NetClient
connect_answer port username (true, net) = (
  codes "connecting to 127.0.0.1:"
      ++ (to_decimal port ++ (codes " as '" ++ (username ++ codes "'"))),
  net,
)
connect_answer port username (false, net) = (codes "connect failed: " ++ net.last_error, net)

-- `port` is a uint32_t here. The results of winsock and the clock are those of NetClient::Connect.
unfoldable pub connect_command : Bool → Bool → ℕ → ℕ → List ℕ → ℕ → NetClient → List ℕ × NetClient
unfolding connect_answer
connect_command ready opened address port username now net =
    if (port == 0) || ltb 65535 port
    then (codes "port must be 1..65535", net)
    else connect_answer port (name_or_player username)
        (connect ready opened address port (name_or_player username) now net)

unfoldable pub disconnect_command : NetClient → List ℕ × NetClient
disconnect_command net = (codes "disconnected", disconnect net)

abbrev pub entry : List ℕ → ℕ → List ℕ
entry label n = label ++ to_decimal n

-- `milliseconds` is what std::format prints for the round trip time.
unfoldable pub get_net_stats : (ℕ → List ℕ) → NetClient → List ℕ
unfolding to_string get_stats
get_net_stats milliseconds net =
    let stats = get_stats net in
    codes "state="
    ++ (to_string stats.state
        ++ (entry (codes " sent=") stats.sent
            ++ (entry (codes " received=") stats.received
                ++ (entry (codes " malformed=") stats.malformed
                    ++ (entry (codes " helloAttempts=") stats.hello_attempts
                        ++ (codes " rtt="
                            ++ (milliseconds stats.last_rtt_micros
                                ++ (codes "ms"
                                    ++ (entry (codes " appliedOnGameThread=")
                                          stats.applied_on_game_thread
                                        ++ (codes " error='"
                                            ++ (stats.last_error ++ codes "'")))))))))))

abbrev pub is_defined : Option ℕ → Bool
is_defined none = false
is_defined (some entity) = true

-- The loops of GetRemoteStats.
unfoldable pub count_spawned : List (ℕ × RemoteBody) → ℕ
count_spawned [] = 0
count_spawned ((id, body) ∷ bodies) =
    let rest = count_spawned bodies in if is_defined body.entity then rest + 1 else rest

unfoldable pub count_samples : List (ℕ × RemoteBody) → ℕ
count_samples [] = 0
count_samples ((id, body) ∷ bodies) = length body.samples + count_samples bodies

unfoldable pub get_remote_stats : NetClient → World → List ℕ
get_remote_stats net w =
    entry (codes "bodies=") (length w.bodies)
    ++ (entry (codes " spawned=") (count_spawned w.bodies)
        ++ (entry (codes " snapshots=") net.states_received
            ++ (entry (codes " statesSent=") net.states_sent
                ++ (entry (codes " outOfOrder=") net.states_out_of_order
                    ++ (entry (codes " tracked=") (length net.remote)
                        ++ (entry (codes " moveMode=") w.move_mode
                            ++ (entry (codes " moverWrites=") w.mover_writes
                                ++ (entry (codes " transformWrites=") w.transform_writes
                                    ++ (entry (codes " moverMissing=") w.mover_missing
                                        ++ (codes " interp="
                                            ++ ((if w.interpolate then codes "on" else codes "off")
                                                ++ (entry (codes " samples=")
                                                      (count_samples w.bodies)
                                                    ++ entry (codes " starved=")
                                                        w.starved_frames))))))))))))

-- The first body that has an entity.
unfoldable pub dump_target : List (ℕ × RemoteBody) → Option ℕ
dump_target [] = none
dump_target ((id, body) ∷ bodies) =
    let rest = dump_target bodies in if is_defined body.entity then body.entity else rest

module _ {G : Type 0} (E : Engine G) where
  component_text : Option ℕ → List ℕ
  component_text none = codes "GetComponents failed"
  component_text (some n) = to_decimal n ++ codes " component(s), see the log"

  dump_entity : Option ℕ → (ℕ → Option ℕ) → G → List ℕ
  unfolding component_text
  dump_entity none components g = codes "no remote body spawned"
  dump_entity (some entity) components g =
      if not (E.has_system g)
      then codes "no DynamicEntitySystem"
      else if not (E.get_entity entity g)
      then codes "body not resolved yet"
      else component_text (components entity)

  -- `components` is how many GetComponents gives, if it succeeds.
  unfoldable pub dump_remote_components : (ℕ → Option ℕ) → World × G → List ℕ
  unfolding dump_entity
  dump_remote_components components (w, g) = dump_entity (dump_target w.bodies) components g
