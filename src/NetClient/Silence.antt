-- ===== src/NetClient/Silence.antt =====
-- NetClient::Run, when nothing arrives.
use cybermp.Base.{
  ℕ, zero, suc, ◌+◌, ◌^◌, ◌≤◌, ◌<◌, ◌≡◌, refl, sym, ap, ◌∙◌, List, [], ◌∷◌, ◌++◌, true, false, none,
  some, length, leb, if◌then◌else◌, codes, arith, append_assoc, append-nil,
}
use cybermp.Wire.Writer.{Buffer}
use cybermp.Proto.Format.{encode}
use cybermp.Proto.Messages.{hello_format}
use cybermp.Session.{Endpoint}
use cybermp.NetClient.{
  NetClient, disconnected, connecting, Timers, bump, post, send_hello, post_hello, hello_of,
  elapsed, set_error, max_hello_attempts, hello_retry_ms,
}
use cybermp.NetClient.Run.{
  go, Input, before_receive, try_hello, after_receive, finish, turn_with, turn, turns, give_up,
}

-- Turns at least half a second apart in which nothing arrives.
abbrev pub Silent : ℕ → List Input → Type 0
Silent last [] = Unit
Silent last (i ∷ is) =
    (last + 500 ≤ i.now) × (i.now < 2 ^ 64) × (i.datagram ≡ none) × Silent i.now is

-- A client that waits for the answer to its hello.
pub record Waiting (t : Timers) (c : NetClient) : Type 0 where
  pub looping : c.thread ≡ some t
  pub state : c.state ≡ connecting

due :
    (now last : ℕ) → last + 500 ≤ now → now < 2 ^ 64 → leb hello_retry_ms (elapsed now last) ≡ true
due now last h k = ground arith

abbrev hello_again : Input → Timers → NetClient → NetClient
hello_again i t c = record (send_hello c) { thread = some (record t { last_hello_at = i.now }) }

module _ (i : Input) (t : Timers) (c : NetClient) where
  shape :
      Waiting t c
      → t.last_hello_at + 500 ≤ i.now
      → i.now < 2 ^ 64
      → turn i c
        ≡ finish i (
            if leb max_hello_attempts c.hello_attempts
            then give_up (codes "no answer from server") c
            else go (record t { last_hello_at = i.now }) (send_hello c))
  unfolding turn turn_with before_receive try_hello
  shape w h k = rw (w.looping, w.state, due i.now t.last_hello_at h k) refl

  hello_turn :
      Waiting t c
      → t.last_hello_at + 500 ≤ i.now
      → i.now < 2 ^ 64
      → i.datagram ≡ none
      → c.hello_attempts < 10
      → turn i c ≡ hello_again i t c
  unfolding finish after_receive
  hello_turn w h k quiet few =
      let more : leb max_hello_attempts c.hello_attempts ≡ false = ground arith in
      shape w h k ∙ rw (more, quiet) refl

  last_turn :
      Waiting t c
      → t.last_hello_at + 500 ≤ i.now
      → i.now < 2 ^ 64
      → c.hello_attempts ≡ 10
      → turn i c ≡ record c {
        thread = none;
        state = disconnected;
        last_error = codes "no answer from server";
      }
  unfolding finish
  last_turn w h k all = shape w h k ∙ rw all refl

send_some :
    (c : NetClient) (out : Buffer)
    → encode hello_format (hello_of c) ≡ some out
    → send_hello c ≡ post out (record c { hello_attempts = bump c.hello_attempts })
unfolding send_hello post_hello
send_some c out e = rw (e, post_hello) refl

send_none :
    (c : NetClient)
    → encode hello_format (hello_of c) ≡ none
    → send_hello c ≡ set_error (codes "could not encode hello") c
unfolding send_hello post_hello
send_none c e = rw (e, post_hello) refl

abbrev pub repeated : ℕ → Endpoint × Buffer → List (Endpoint × Buffer)
repeated zero d = []
repeated (suc n) d = d ∷ repeated n d

-- How the wait ends.
pub record GivenUp (hellos : List (Endpoint × Buffer)) (c d : NetClient) : Type 0 where
  pub state : d.state ≡ disconnected
  pub thread : d.thread ≡ none
  pub last_error : d.last_error ≡ codes "no answer from server"
  pub outbox : d.outbox ≡ c.outbox ++ hellos

module _ (out : Buffer) where
  countdown :
      (left : ℕ) (is : List Input) (t : Timers) (c : NetClient)
      → Waiting t c
      → encode hello_format (hello_of c) ≡ some out
      → left + c.hello_attempts ≡ 10
      → length is ≡ suc left
      → Silent t.last_hello_at is
      → GivenUp (repeated left (c.server, out)) c (turns is c)
  unfolding turns
  countdown left [] t c w e n l s = absurd (omega arith)
  countdown zero (i ∷ j ∷ is) t c w e n l s = absurd (omega arith)
  countdown zero (i ∷ []) t c w e n l s = rw (last_turn i t c w s.0 s.1 (omega arith)) (record {
    state = refl;
    thread = refl;
    last_error = refl;
    outbox = sym (append-nil c.outbox);
  })
  countdown (suc left) (i ∷ is) t c w e n l s =
      let next = hello_turn i t c w s.0 s.1 s.2 (omega arith) in
      let sent =
        ap {A = NetClient} (λ d. record d { thread = some (record t { last_hello_at = i.now }) })
          (send_some c out e) in
      let there : NetClient =
        record (post out (record c { hello_attempts = bump c.hello_attempts })) {
          thread = some (record t { last_hello_at = i.now });
        } in
      let end =
        countdown left is (record t { last_hello_at = i.now }) there
          (record { looping = refl; state = w.state }) e (omega arith) (omega arith) s.3 in
      rw (next ∙ sent, turns)
        (record {
          state = end.state;
          thread = end.thread;
          last_error = end.last_error;
          outbox = end.outbox ∙ append_assoc c.outbox ((c.server, out) ∷ []) _;
        })

  -- A client that is connecting, has said no hello yet and can encode it, in eleven turns at least
  -- 500 ms apart in which nothing arrives: it posts exactly ten hellos to the server, and ends
  -- disconnected, its loop over, with the error that there was no answer.
  pub no_answer :
      (is : List Input) (t : Timers) (c : NetClient)
      → Waiting t c
      → encode hello_format (hello_of c) ≡ some out
      → c.hello_attempts ≡ 0
      → length is ≡ 11
      → Silent t.last_hello_at is
      → GivenUp (repeated 10 (c.server, out)) c (turns is c)
  no_answer is t c w e n l s = countdown 10 is t c w e (omega arith) l s

-- A client that is connecting, with fewer than ten attempts counted and a hello that cannot be
-- encoded: through any number of turns at least 500 ms apart in which nothing arrives, it goes on
-- connecting, its loop goes on, and it posts nothing.
pub never_gives_up :
    (is : List Input) (t : Timers) (c : NetClient)
    → Waiting t c
    → encode hello_format (hello_of c) ≡ none
    → c.hello_attempts < 10
    → Silent t.last_hello_at is
    → ((turns is c).state ≡ connecting)
      × ((turns is c).outbox ≡ c.outbox)
      × ((t' : Timers) × ((turns is c).thread ≡ some t'))
unfolding turns
never_gives_up [] t c w e n s = (w.state, refl, (t, w.looping))
never_gives_up (i ∷ is) t c w e n s =
    let next = hello_turn i t c w s.0 s.1 s.2 n in
    let failed =
      ap {A = NetClient} (λ d. record d { thread = some (record t { last_hello_at = i.now }) })
        (send_none c e) in
    let there : NetClient = record c {
      last_error = codes "could not encode hello";
      thread = some (record t { last_hello_at = i.now });
    } in
    rw (next ∙ failed, turns)
      (never_gives_up is (record t { last_hello_at = i.now }) there
        (record { looping = refl; state = w.state }) e n s.3)
