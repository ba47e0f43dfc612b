-- ===== src/Proto/Lawful/States.antt =====
-- The snapshots: PlayerState and NotifyPlayerState.
use cybermp.Base.{
  ℕ, ◌^◌, ◌≤◌, ◌<◌, ◌≡◌, refl, List, ◌++◌, length, arith, append_assoc, list_laws, length-append,
}
use cybermp.Wire.Writer
use cybermp.Wire.Writer.{Buffer}
use cybermp.Wire.Parse
use cybermp.Wire.Parse.{◌>>=◌, Parse, Bytes, uint}
use cybermp.Wire.Layout.{le, u32-le, u64-le, le-Bytes, length-le}
use cybermp.Wire.Refines.{
  Refines, Refines-bind, Refines-pure, u32-Refines, u64-Refines, f32-Refines,
}
use cybermp.Proto.Messages.{
  Vec3, write_vec3, read_vec3, PlayerState, NotifyPlayerState, player_state_format,
  notify_player_state_format, write_player_state, read_player_state, write_notify_player_state,
  read_notify_player_state,
}
use cybermp.Proto.Yields.{Yields-bind, Yields-pure, uint-Yields}
use cybermp.Proto.Spec.{
  Yields, Lawful, TakesBack, TakesBack-bind, TakesBack-last, uint-TakesBack, Bytes-append,
}

pub f32-le : (buffer : Buffer) (bits : ℕ) → Writer.f32 bits buffer ≡ buffer ++ le 4 bits
unfolding Writer.f32
f32-le buffer bits = u32-le buffer bits

pub record Vec3Fits (v : Vec3) : Type 0 where
  pub x : v.x < 2 ^ 32
  pub y : v.y < 2 ^ 32
  pub z : v.z < 2 ^ 32

abbrev pub vec3_layout : Vec3 → List ℕ
vec3_layout v = le 4 v.x ++ (le 4 v.y ++ le 4 v.z)

abbrev pub vec3_parse : Parse Vec3
vec3_parse = do x ← uint 4; y ← uint 4; z ← uint 4; Parse.pure (record { x = x; y = y; z = z })

read_vec3-Refines : Refines read_vec3 vec3_parse
unfolding read_vec3
read_vec3-Refines =
    Refines-bind _ _ f32-Refines
      λ x. Refines-bind _ _ f32-Refines λ y. Refines-bind _ _ f32-Refines λ z. Refines-pure _

write_vec3_lem : (v : Vec3) (buffer : Buffer) → write_vec3 v buffer ≡ buffer ++ vec3_layout v
unfolding write_vec3
write_vec3_lem v buffer = rw (f32-le _ v.z, f32-le _ v.y, f32-le buffer v.x) (simp list_laws)

vec3-TakesBack : (v : Vec3) → Vec3Fits v → TakesBack vec3_parse v (vec3_layout v)
vec3-TakesBack v h = TakesBack-bind _ (uint-TakesBack 4 v.x h.x) (
    TakesBack-bind _ (uint-TakesBack 4 v.y h.y)
      (TakesBack-last (λ z. record { x = v.x; y = v.y; z = z }) (uint-TakesBack 4 v.z h.z)))

vec3-Yields : Yields vec3_parse Vec3Fits
vec3-Yields =
    Yields-bind (λ v. v < 256 ^ 4) _ Vec3Fits (uint-Yields 4)
      λ x hx.
        Yields-bind (λ v. v < 256 ^ 4) _ Vec3Fits (uint-Yields 4)
          λ y hy.
            Yields-bind (λ v. v < 256 ^ 4) _ Vec3Fits (uint-Yields 4)
              λ z hz.
                Yields-pure (record { x = x; y = y; z = z }) (record { x = hx; y = hy; z = hz })

vec3_layout-Bytes : (v : Vec3) → Bytes (vec3_layout v)
vec3_layout-Bytes v =
    Bytes-append (le 4 v.x) _ (le-Bytes 4 v.x)
      (Bytes-append (le 4 v.y) _ (le-Bytes 4 v.y) (le-Bytes 4 v.z))

length-vec3_layout : (v : Vec3) → length (vec3_layout v) ≡ 12
length-vec3_layout v = rw (
  length-append (le 4 v.x) (le 4 v.y ++ le 4 v.z),
  length-append (le 4 v.y) (le 4 v.z),
  length-le 4 v.x,
  length-le 4 v.y,
  length-le 4 v.z,
)

-- A tick, a position and a rotation.
abbrev pub state_layout : ℕ → Vec3 → ℕ → List ℕ
state_layout tick v rotation = le 8 tick ++ (vec3_layout v ++ le 4 rotation)

module _ {T : Type 0} (build : ℕ → Vec3 → ℕ → T) where
  abbrev pub state_parse : Parse T
  state_parse = do
    tick ← uint 8
    position ← vec3_parse
    rotation ← uint 4
    Parse.pure (build tick position rotation)

  pub state-TakesBack :
      (tick : ℕ) (v : Vec3) (rotation : ℕ)
      → tick < 2 ^ 64
      → Vec3Fits v
      → rotation < 2 ^ 32
      → TakesBack state_parse (build tick v rotation) (state_layout tick v rotation)
  state-TakesBack tick v rotation ht hv hr = TakesBack-bind _ (uint-TakesBack 8 tick ht) (
      TakesBack-bind _ (vec3-TakesBack v hv)
        (TakesBack-last (build tick v) (uint-TakesBack 4 rotation hr)))

pub state-Yields :
    {T : Type 0} (build : ℕ → Vec3 → ℕ → T) (P : T → Type 0)
    → ((t : ℕ) (v : Vec3) (r : ℕ) → t < 2 ^ 64 → Vec3Fits v → r < 2 ^ 32 → P (build t v r))
    → Yields (state_parse build) P
state-Yields build P fits =
    Yields-bind (λ v. v < 256 ^ 8) _ P (uint-Yields 8)
      λ t ht. Yields-bind Vec3Fits _ P vec3-Yields λ v hv.
        Yields-bind (λ v. v < 256 ^ 4) _ P (uint-Yields 4)
          λ r hr. Yields-pure (build t v r) (fits t v r ht hv hr)

pub state_writes :
    (tick : ℕ) (v : Vec3) (rotation : ℕ) (buffer : Buffer)
    → Writer.f32 rotation (write_vec3 v (Writer.u64 tick buffer))
      ≡ buffer ++ state_layout tick v rotation
state_writes tick v rotation buffer =
    rw (f32-le _ rotation, write_vec3_lem v _, u64-le buffer tick) (simp list_laws)

pub state_layout-Bytes : (tick : ℕ) (v : Vec3) (rotation : ℕ) → Bytes (state_layout tick v rotation)
state_layout-Bytes tick v rotation =
    Bytes-append (le 8 tick) _ (le-Bytes 8 tick)
      (Bytes-append (vec3_layout v) _ (vec3_layout-Bytes v) (le-Bytes 4 rotation))

pub length-state_layout :
    (tick : ℕ) (v : Vec3) (rotation : ℕ) → length (state_layout tick v rotation) ≡ 24
length-state_layout tick v rotation = rw (
  length-append (le 8 tick) (vec3_layout v ++ le 4 rotation),
  length-append (vec3_layout v) (le 4 rotation),
  length-vec3_layout v,
  length-le 8 tick,
  length-le 4 rotation,
)

pub record PlayerStateFits (m : PlayerState) : Type 0 where
  pub tick : m.tick < 2 ^ 64
  pub position : Vec3Fits m.position
  pub rotation : m.rotation < 2 ^ 32

abbrev pub build_state : ℕ → Vec3 → ℕ → PlayerState
build_state t v r = record { tick = t; position = v; rotation = r }

pub read_state-Refines : Refines read_player_state (state_parse build_state)
unfolding read_player_state
read_state-Refines =
    Refines-bind _ _ u64-Refines
      λ t. Refines-bind _ _ read_vec3-Refines λ v. Refines-bind _ _ f32-Refines λ r. Refines-pure _

pub write_state_lem :
    (m : PlayerState) (buffer : Buffer)
    → write_player_state m buffer ≡ buffer ++ state_layout m.tick m.position m.rotation
unfolding write_player_state
write_state_lem m buffer = state_writes m.tick m.position m.rotation buffer

pub state_small : (m : PlayerState) → length (state_layout m.tick m.position m.rotation) ≤ 1196
state_small m = rw (length-state_layout m.tick m.position m.rotation) (omega arith)

abbrev pub player_state_lawful : Lawful player_state_format
player_state_lawful = record {
  flags_byte = omega arith;
  kind_named = refl;
  layout = λ m. state_layout m.tick m.position m.rotation;
  parse = state_parse build_state;
  Fits = PlayerStateFits;
  writes = write_state_lem;
  reads = read_state-Refines;
  yields =
      state-Yields build_state PlayerStateFits
        (λ t v r ht hv hr. record { tick = ht; position = hv; rotation = hr });
  takes_back =
      λ m h. state-TakesBack build_state m.tick m.position m.rotation h.tick h.position h.rotation;
  layout_bytes = λ m h. state_layout-Bytes m.tick m.position m.rotation;
  layout_small = λ m h. state_small m;
}

pub record NotifyPlayerStateFits (m : NotifyPlayerState) : Type 0 where
  pub player_id : m.player_id < 2 ^ 32
  pub tick : m.tick < 2 ^ 64
  pub position : Vec3Fits m.position
  pub rotation : m.rotation < 2 ^ 32

abbrev pub build_notify : ℕ → ℕ → Vec3 → ℕ → NotifyPlayerState
build_notify id t v r = record { player_id = id; tick = t; position = v; rotation = r }

abbrev pub notify_layout : NotifyPlayerState → List ℕ
notify_layout m = le 4 m.player_id ++ state_layout m.tick m.position m.rotation

abbrev pub notify_parse : Parse NotifyPlayerState
notify_parse = do player_id ← uint 4; state_parse (build_notify player_id)

pub read_notify-Refines : Refines read_notify_player_state notify_parse
unfolding read_notify_player_state
read_notify-Refines = Refines-bind _ _ u32-Refines λ i.
    Refines-bind _ _ u64-Refines
      λ t. Refines-bind _ _ read_vec3-Refines λ v. Refines-bind _ _ f32-Refines λ r. Refines-pure _

pub write_notify_lem :
    (m : NotifyPlayerState) (buffer : Buffer)
    → write_notify_player_state m buffer ≡ buffer ++ notify_layout m
unfolding write_notify_player_state
write_notify_lem m buffer =
    rw
      (
        state_writes m.tick m.position m.rotation (Writer.u32 m.player_id buffer),
        u32-le buffer m.player_id,
      )
      (append_assoc buffer _ _)

pub notify-TakesBack :
    (m : NotifyPlayerState) → NotifyPlayerStateFits m → TakesBack notify_parse m (notify_layout m)
notify-TakesBack m h =
    TakesBack-bind (λ i. state_parse (build_notify i)) (uint-TakesBack 4 m.player_id h.player_id)
      (state-TakesBack (build_notify m.player_id) m.tick m.position m.rotation h.tick h.position
        h.rotation)

pub notify_layout-Bytes : (m : NotifyPlayerState) → Bytes (notify_layout m)
notify_layout-Bytes m =
    Bytes-append (le 4 m.player_id) _ (le-Bytes 4 m.player_id)
      (state_layout-Bytes m.tick m.position m.rotation)

pub notify_small : (m : NotifyPlayerState) → length (notify_layout m) ≤ 1196
notify_small m =
    rw
      (
        length-append (le 4 m.player_id) (state_layout m.tick m.position m.rotation),
        length-le 4 m.player_id,
        length-state_layout m.tick m.position m.rotation,
      )
      (omega arith)

pub notify-Yields : Yields notify_parse NotifyPlayerStateFits
notify-Yields =
    Yields-bind (λ v. v < 256 ^ 4) _ NotifyPlayerStateFits (uint-Yields 4)
      λ i hi.
        state-Yields (build_notify i) NotifyPlayerStateFits
          (λ t v r ht hv hr. record { player_id = hi; tick = ht; position = hv; rotation = hr })

abbrev pub notify_player_state_lawful : Lawful notify_player_state_format
notify_player_state_lawful = record {
  flags_byte = omega arith;
  kind_named = refl;
  layout = notify_layout;
  parse = notify_parse;
  Fits = NotifyPlayerStateFits;
  writes = write_notify_lem;
  reads = read_notify-Refines;
  yields = notify-Yields;
  takes_back = notify-TakesBack;
  layout_bytes = λ m h. notify_layout-Bytes m;
  layout_small = λ m h. notify_small m;
}
