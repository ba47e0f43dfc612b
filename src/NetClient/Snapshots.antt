-- ===== src/NetClient/Snapshots.antt =====
-- m_remote in NetClient.cpp: the newest snapshot of each remote player.
use cybermp.Base.{
  ℕ, ◌≤◌, ◌<◌, ◌≡◌, ◌≢◌, refl, sym, ap, ◌∙◌, List, true, false, not, ◌&&◌, Option, none, some, leb,
  ◌==◌, Option-cases, inl, inr, arith, find_if, find_if-snoc, find_if-snoc_some, ◌⊎◌, find_if-some,
  find_if-update_if, find_if-update_ne,
}
use cybermp.Wire.Parse.{Bytes}
use cybermp.Proto.Format.{decode}
use cybermp.Proto.Messages.{NotifyPlayerState, notify_player_state_format}
use cybermp.Proto.Lawful.States.{notify_player_state_lawful}
use cybermp.Proto.Rejects.{decode-peek}
use cybermp.NetClient.{NetClient, RemoteSnapshot, bump}
use cybermp.NetClient.Handle.{
  handle_kind, handle_datagram, take_state, write_snapshot, lookup, is_player, snapshot_of,
}

-- The entry of a player holds a snapshot that is at least as new.
abbrev pub IsBehind : ℕ → NotifyPlayerState → NetClient → Type 0
IsBehind id n c =
    (s : RemoteSnapshot) → lookup id c ≡ some (id, s) → (s.tick ≡ 0) ⊎ (s.tick < n.tick)

entry_id : (id : ℕ) (c : NetClient) (e : ℕ × RemoteSnapshot) → lookup id c ≡ some e → e.0 ≡ id
unfolding lookup
entry_id id c e h = let hit = find_if-some (is_player id) c.remote e h in ground arith

dispatched :
    (bytes : List ℕ) (later : ℕ) (c : NetClient) (n : NotifyPlayerState)
    → Bytes bytes
    → decode notify_player_state_format bytes ≡ some n
    → handle_datagram bytes later c ≡ take_state n c
unfolding handle_datagram handle_kind
dispatched bytes later c n b d =
    let (h, peeked, kind) = decode-peek notify_player_state_lawful bytes n b d in
    rw (peeked, handle_datagram, kind, d) refl

module _ (n : NotifyPlayerState) (c : NetClient) where
  abbrev counted : NetClient
  counted = record c { states_received = bump c.states_received }

  found_new :
      lookup n.player_id c ≡ none
      → lookup n.player_id (write_snapshot n none counted) ≡ some (n.player_id, snapshot_of n)
  unfolding lookup write_snapshot
  found_new e =
      ground (arith, find_if-snoc (is_player n.player_id) c.remote (n.player_id, snapshot_of n))

  found_updated :
      (s : RemoteSnapshot)
      → lookup n.player_id c ≡ some (n.player_id, s)
      → (s.tick ≡ 0) ⊎ (s.tick < n.tick)
      → lookup n.player_id (write_snapshot n (some (n.player_id, s)) counted)
        ≡ some (n.player_id, snapshot_of n)
  unfolding lookup write_snapshot
  found_updated s e fresh =
      let test : (not (s.tick == 0) && leb n.tick s.tick) ≡ false = ground arith in
      rw test (
        find_if-update_if (is_player n.player_id) (λ e. (e.0, snapshot_of n)) c.remote (λ e. refl)
        ∙ rw e refl)

  kept_old :
      (s : RemoteSnapshot)
      → lookup n.player_id c ≡ some (n.player_id, s)
      → s.tick ≢ 0
      → n.tick ≤ s.tick
      → write_snapshot n (some (n.player_id, s)) counted
        ≡ record counted { states_out_of_order = bump c.states_out_of_order }
  unfolding write_snapshot
  kept_old s e old late =
      let test : (not (s.tick == 0) && leb n.tick s.tick) ≡ true = ground arith in rw test refl

  others_kept :
      (o : Option (ℕ × RemoteSnapshot)) (id : ℕ)
      → id ≢ n.player_id
      → lookup n.player_id c ≡ o
      → lookup id (write_snapshot n o counted) ≡ lookup id c
  unfolding lookup write_snapshot
  others_kept none id apart e = elim (Option-cases (find_if (is_player id) c.remote)) [
    | inl miss ↦
        ground (arith, find_if-snoc (is_player id) c.remote (n.player_id, snapshot_of n) miss)
    | inr (x, hit) ↦
        find_if-snoc_some (is_player id) c.remote (n.player_id, snapshot_of n) x hit ∙ sym hit
  ]
  others_kept (some (i, s)) id apart e = ground (
    arith,
    find_if-update_ne (is_player n.player_id) (is_player id) (λ e. (e.0, snapshot_of n)) c.remote
        (λ e hit. (ground arith, ground arith)),
  )

  taken_fresh :
      IsBehind n.player_id n c
      → lookup n.player_id (take_state n c) ≡ some (n.player_id, snapshot_of n)
  unfolding take_state
  taken_fresh behind = elim (Option-cases (lookup n.player_id c)) [
    | inl e ↦ rw (e, write_snapshot) (found_new e)
    | inr ((i, s), e) ↦
        let same = entry_id n.player_id c (i, s) e in
        let known : lookup n.player_id c ≡ some (n.player_id, s) = e ∙ ap (λ x. some (x, s)) same in
        rw known (found_updated s known (behind s known))
  ]

  taken_stale :
      (s : RemoteSnapshot)
      → lookup n.player_id c ≡ some (n.player_id, s)
      → s.tick ≢ 0
      → n.tick ≤ s.tick
      → take_state n c ≡ record counted { states_out_of_order = bump c.states_out_of_order }
  unfolding take_state
  taken_stale s e old late = rw e (kept_old s e old late)

  taken_others : (id : ℕ) → id ≢ n.player_id → lookup id (take_state n c) ≡ lookup id c
  unfolding take_state
  taken_others id apart = others_kept (lookup n.player_id c) id apart refl

module _ (bytes : List ℕ) (later : ℕ) (c : NetClient) (n : NotifyPlayerState) where
  -- If a datagram of bytes decodes to a player's state, and the client holds no snapshot of that
  -- player, one with tick 0 or an older one, it then holds exactly this one for that player, and
  -- for every other player what it held.
  pub snapshot_kept :
      Bytes bytes
      → decode notify_player_state_format bytes ≡ some n
      → IsBehind n.player_id n c
      → (lookup n.player_id (handle_datagram bytes later c) ≡ some (n.player_id, snapshot_of n))
        × ((id : ℕ) → id ≢ n.player_id → lookup id (handle_datagram bytes later c) ≡ lookup id c)
  snapshot_kept b d behind =
      rw (dispatched bytes later c n b d) (taken_fresh n c behind, taken_others n c)

  -- If a datagram of bytes decodes to a player's state, and the client holds a snapshot of that
  -- player with a tick that is not 0 and no older, only the two counters of states move.
  pub snapshot_out_of_order :
      Bytes bytes
      → decode notify_player_state_format bytes ≡ some n
      → (s : RemoteSnapshot) → lookup n.player_id c ≡ some (n.player_id, s)
      → s.tick ≢ 0
      → n.tick ≤ s.tick
      → handle_datagram bytes later c ≡ record c {
        states_received = bump c.states_received;
        states_out_of_order = bump c.states_out_of_order;
      }
  snapshot_out_of_order b d s e old late =
      dispatched bytes later c n b d ∙ taken_stale n c s e old late
