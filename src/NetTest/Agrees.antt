-- ===== src/NetTest/Agrees.antt =====
-- The walker's counts beside those of NetClient, for the same datagrams.
use cybermp.Base.{
  ℕ, ◌≡◌, refl, sym, ap, ◌∙◌, List, [], ◌∷◌, ◌++◌, map, not, ◌&&◌, Option, none, some, leb, ◌==◌,
  find_if, update_if, arith, Bool-cases, Option-cases, inl, inr, All,
}
use mathlib.Core.Option
use cybermp.Proto.Header.{Kind, peek_header}
use cybermp.Proto.Header
use cybermp.Proto.Format.{decode}
use cybermp.Proto.Messages.{
  NotifyPlayerState, hello_ack_format, pong_format, notify_player_state_format,
  notify_player_joined_format, notify_player_left_format,
}
use cybermp.NetClient.{NetClient, RemoteSnapshot, bump}
use cybermp.NetClient.Handle.{
  handle_kind, handle_datagram, take_ack, take_joined, take_pong, take_state, write_snapshot,
  lookup, is_player, snapshot_of,
}
use cybermp.NetClient.Attempts.{taken-keeps}
use cybermp.NetTest.Walk.{Walk, count_state, walk_kind, walk_datagram, drain_all, is_entry}

abbrev pub entry_of : ℕ × RemoteSnapshot → ℕ × ℕ
entry_of (id, s) = (id, s.tick)

-- The same counts, and the same newest tick of each player.
abbrev pub Agree : Walk → NetClient → Type 0
Agree w c =
    (w.states_in ≡ c.states_received)
    × (w.out_of_order ≡ c.states_out_of_order)
    × (w.last_ticks ≡ map entry_of c.remote)

find-entry :
    (id : ℕ) (xs : List (ℕ × RemoteSnapshot))
    → find_if (is_entry id) (map entry_of xs) ≡ Option.map entry_of (find_if (is_player id) xs)
unfolding find_if
find-entry id [] = refl
find-entry id ((i, s) ∷ xs) = ground (arith, find-entry id xs)

update-entry :
    (n : NotifyPlayerState) (xs : List (ℕ × RemoteSnapshot))
    → update_if (is_entry n.player_id) (λ x. (x.0, n.tick)) (map entry_of xs)
      ≡ map entry_of (update_if (is_player n.player_id) (λ e. (e.0, snapshot_of n)) xs)
unfolding update_if
update-entry n [] = refl
update-entry n ((i, s) ∷ xs) = ground (arith, update-entry n xs)

snoc-entry :
    (xs : List (ℕ × RemoteSnapshot)) (e : ℕ × RemoteSnapshot)
    → map entry_of xs ++ (entry_of e ∷ []) ≡ map entry_of (xs ++ (e ∷ []))
snoc-entry [] e = refl
snoc-entry (x ∷ xs) e = ap (◌∷◌ (entry_of x)) (snoc-entry xs e)

module _ (n : NotifyPlayerState) (w : Walk) (c : NetClient) (a : Agree w c) where
  found_entry :
      (o : Option (ℕ × RemoteSnapshot))
      → lookup n.player_id c ≡ o
      → find_if (is_entry n.player_id) w.last_ticks ≡ Option.map entry_of o
  unfolding lookup
  found_entry o e = rw (a.2, sym e) (find-entry n.player_id c.remote)

  written :
      (o : Option (ℕ × RemoteSnapshot))
      → lookup n.player_id c ≡ o
      → Agree
          (count_state n w)
          (write_snapshot n o (record c { states_received = bump c.states_received }))
  unfolding count_state write_snapshot
  written none e = rw (found_entry none e) (
      (
        ap bump a.0,
        a.1,
        ap (λ (t : List (ℕ × ℕ)). t ++ ((n.player_id, n.tick) ∷ [])) a.2
            ∙ snoc-entry c.remote (n.player_id, snapshot_of n),
      ))
  written (some (id, s)) e =
      rw (found_entry (some (id, s)) e)
        (elim (Bool-cases (not (s.tick == 0) && leb n.tick s.tick)) [
          | inl old ↦ rw old ((ap bump a.0, ap bump a.1, a.2))
          | inr new ↦ rw new (
              (
                ap bump a.0,
                a.1,
                ap (update_if (is_entry n.player_id) (λ x. (x.0, n.tick))) a.2
                    ∙ update-entry n c.remote,
              ))
        ])

module _ (bytes : List ℕ) (later : ℕ) (w : Walk) (c : NetClient) (a : Agree w c) where
  kind_agrees :
      (k : Kind)
      → decode notify_player_left_format bytes ≡ none
      → Agree (walk_kind k bytes w) (handle_kind k bytes later c)
  unfolding walk_kind handle_kind take_ack take_joined take_pong take_state
  kind_agrees Header.hello_ack l =
      taken-keeps (Agree w) (decode hello_ack_format bytes) take_ack c a (λ m e. ground arith)
  kind_agrees Header.notify_player_joined l =
      taken-keeps (Agree w) (decode notify_player_joined_format bytes) take_joined c a (λ m e. a)
  kind_agrees Header.notify_player_left l = rw l a
  kind_agrees Header.notify_player_state l =
      elim (Option-cases (decode notify_player_state_format bytes)) [
        | inl e ↦ rw (e, walk_kind) a
        | inr (n, e) ↦ rw (e, walk_kind) (written n w c a (lookup n.player_id c) refl)
      ]
  kind_agrees Header.pong l =
      taken-keeps (Agree w) (decode pong_format bytes) (take_pong later) c a (λ m e. a)
  kind_agrees Header.invalid l = a
  kind_agrees Header.hello l = a
  kind_agrees Header.ping l = a
  kind_agrees Header.player_state l = a

  datagram_agrees :
      decode notify_player_left_format bytes ≡ none
      → Agree (walk_datagram bytes w) (handle_datagram bytes later c)
  unfolding walk_datagram handle_datagram
  datagram_agrees l = elim (Option-cases (peek_header bytes)) [
    | inl e ↦ rw (e, walk_datagram, handle_datagram) a
    | inr (h, e) ↦ rw (e, walk_datagram, handle_datagram) (kind_agrees h.kind l)
  ]

abbrev pub NoLeave : List ℕ → Type 0
NoLeave bytes = decode notify_player_left_format bytes ≡ none

-- NetClient::HandleDatagram of one datagram after the other.
abbrev pub handle_all : List (List ℕ) → ℕ → NetClient → NetClient
handle_all [] later c = c
handle_all (d ∷ ds) later c = handle_all ds later (handle_datagram d later c)

-- If a walker and a client have counted the same states and late states, and hold the same newest
-- ticks, then after the same datagrams, none of which decodes to a leave, they still do.
pub drain_agrees :
    (ds : List (List ℕ)) (later : ℕ) (w : Walk) (c : NetClient)
    → All NoLeave ds
    → Agree w c
    → Agree (drain_all ds w) (handle_all ds later c)
unfolding drain_all
drain_agrees [] later w c h a = a
drain_agrees (d ∷ ds) later w c h a =
    drain_agrees ds later (walk_datagram d w) (handle_datagram d later c) h.1
      (datagram_agrees d later w c a h.0)
