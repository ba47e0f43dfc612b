-- ===== src/World/Rates.antt =====
-- How often SendLocalState sends, and what a tick costs at most.
use cybermp.Base.{
  ℕ, ◌+◌, ◌*◌, ◌^◌, ◌≤◌, ◌<◌, List, [], ◌∷◌, Bool, true, Option, none, some, ltb, length,
  Bool-cases, inl, inr, arith, length-append,
}
use cybermp.Wire.Writer.{Buffer}
use cybermp.Proto.Format.{encode}
use cybermp.Proto.Messages.{Vec3, player_state_format}
use cybermp.NetClient.{NetClient, elapsed, bump}
use cybermp.NetClient.Game.{send_state, post_state, next_state, is_connected, run_task}
use cybermp.TaskQueue.Fifo.{drain_lem, take_slice_lem}
use cybermp.World.{World}
use cybermp.World.Ticks.{
  send_local_state, no_player, state_send_interval_ms, drain_tasks, run_tick, TickGroup,
}

posted_one :
    (delivered : Bool) (o : Option Buffer) (c : NetClient)
    → length (post_state delivered o c).1.outbox ≤ length c.outbox + 1
unfolding post_state
posted_one delivered none c = omega arith
posted_one delivered (some out) c = omega (arith, length-append c.outbox ((c.server, out) ∷ []))

sent_one :
    (delivered : Bool) (p : Vec3) (rotation : ℕ) (c : NetClient)
    → length (send_state delivered p rotation c).1.outbox ≤ length c.outbox + 1
unfolding send_state
sent_one delivered p rotation c = elim (Bool-cases (is_connected c.state)) [
  | inl e ↦ rw e (
      posted_one delivered (encode player_state_format (next_state p rotation c))
        (record c { state_tick = bump c.state_tick }))
  | inr e ↦ rw e (omega arith)
]

-- One frame: its time, the player's position, and what SendTo returns.
pub record Frame : Type 0 where
  pub now : ℕ
  pub position : Vec3
  pub delivered : Bool

module _ (is_zero : ℕ → Bool) where
  unfoldable pub frames : List Frame → NetClient × World → NetClient × World
  frames [] s = s
  frames (f ∷ fs) s = frames fs (send_local_state is_zero f.now f.position f.delivered s)

  -- The clock does not go back.
  abbrev pub Forward : ℕ → List Frame → Type 0
  Forward low [] = Unit
  Forward low (f ∷ fs) = (low ≤ f.now) × (f.now < 2 ^ 64) × Forward f.now fs

  -- What a frame has sent is paid for by the time that went by.
  record Paid (a b : NetClient × World) : Type 0 where
    paid :
        length b.0.outbox * 66 + a.1.last_state_sent_ms
        ≤ length a.0.outbox * 66 + b.1.last_state_sent_ms

  one_frame :
      (f : Frame) (net : NetClient) (w : World)
      → w.last_state_sent_ms ≤ f.now
      → f.now < 2 ^ 64
      → Paid (net, w) (send_local_state is_zero f.now f.position f.delivered (net, w))
        × ((send_local_state is_zero f.now f.position f.delivered (net, w)).1.last_state_sent_ms
            ≤ f.now)
  unfolding send_local_state
  one_frame f net w h k =
      elim (Bool-cases (ltb (elapsed f.now w.last_state_sent_ms) state_send_interval_ms)) [
        | inl early ↦ rw early (record { paid = omega arith }, h)
        | inr due ↦ elim (Bool-cases (no_player is_zero f.position)) [
          | inl gone ↦ rw (due, gone) (record { paid = omega arith }, h)
          | inr there ↦
              let apart : w.last_state_sent_ms + 66 ≤ f.now = ground arith in
              rw (due, there)
                (
                  record { paid = omega (arith, sent_one f.delivered f.position 0 net) },
                  omega arith,
                )
        ]
      ]

  -- Over any frames with a clock that does not go back and stays below 2^64, from a stamp of the
  -- last state that is not after the first: 66 times the number of datagrams posted is at most
  -- what that stamp moves on.
  pub state_rate :
      (fs : List Frame) (net : NetClient) (w : World)
      → Forward w.last_state_sent_ms fs
      → length (frames fs (net, w)).0.outbox * 66 + w.last_state_sent_ms
        ≤ length net.outbox * 66 + (frames fs (net, w)).1.last_state_sent_ms
  unfolding frames
  state_rate [] net w h = omega arith
  state_rate (f ∷ fs) net w h =
      let (net', w') = send_local_state is_zero f.now f.position f.delivered (net, w) in
      let (one, stamped) = one_frame f net w h.0 h.1 in
      omega (
        arith,
        one.paid,
        state_rate fs net' w' (Forward_from w'.last_state_sent_ms f.now fs stamped h.2),
      )
    where
      Forward_from : (a b : ℕ) (gs : List Frame) → a ≤ b → Forward b gs → Forward a gs
      Forward_from a b [] k h = tt
      Forward_from a b (g ∷ gs) k h = (omega (arith, h.0), h.1, h.2)

-- A tick runs at most 64 tasks, and the longest time of a tick is then no less than this tick's
-- and no less than before.
pub tick_bounds :
    (group : TickGroup) (delta_time thread micros : ℕ) (net : NetClient) (w : World)
    → ((drain_tasks net).0 ≤ 64)
      × (micros ≤ (run_tick group delta_time thread micros (net, w)).1.max_tick_micros)
      × (w.max_tick_micros ≤ (run_tick group delta_time thread micros (net, w)).1.max_tick_micros)
unfolding drain_tasks run_tick
tick_bounds group delta_time thread micros net w = (
  ground
      (arith, (drain_lem (λ t. true) run_task 64 net net.tasks).0, (take_slice_lem 64 net.tasks).1),
  ground arith,
  ground arith,
)
