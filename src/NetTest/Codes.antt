-- ===== src/NetTest/Codes.antt =====
-- The exit code of nettest.
use cybermp.Base.{
  ◌⊎◌, ℕ, zero, suc, ◌+◌, ◌≤◌, ◌≡◌, ◌↔◌, refl, ap, ◌∙◌, sym, List, Bool, true, false, Option, none,
  some, if◌then◌else◌, take, ℤ, pos, negsuc, arith, Bool-cases, Option-cases, inl, inr,
}
use cybermp.Proto.Format.{encode, decode}
use cybermp.Proto.Messages.{HelloAck, hello_format, hello_ack_format}
use cybermp.Session.{Endpoint}
use cybermp.Socket.{Winsock, UdpSocket}
use cybermp.NetTest.{
  Options, Io, exchange, go_on, leave, judge_ack, ping_round, ping_rounds, ping_all, talk,
  hello_for, after_ack, answered_hello, greeted, do_handshake, handshaken, say_hello,
}

module _ {S : Type 0} (W : Winsock S) (now_micros : S → ℕ × S) (server : Endpoint)
    (u : UdpSocket) where
  abbrev pub AllAnswered : ℕ → Io S → Type 0
  AllAnswered zero io = Unit
  AllAnswered (suc n) io =
      let r = ping_round W now_micros server u io in (r.0 ≡ true) × AllAnswered n r.1

  -- The hello was sent and answered, and this is what the server said.
  pub record Acked (o : Options) (io : Io S) (accepted : Bool) : Type 0 where
    pub request : List ℕ
    pub size : ℕ
    pub after : Io S
    pub ack : HelloAck
    pub encoded : encode hello_format (hello_for o) ≡ some request
    pub exchanged : exchange W server u request io ≡ (some size, after)
    pub decoded : decode hello_ack_format (take size after.buffer) ≡ some ack
    pub verdict : ack.accepted ≡ accepted

  rounds-le :
      (n answered : ℕ) (io : Io S)
      → (ping_rounds W now_micros server u n answered io).0 ≤ answered + n
  unfolding ping_rounds
  rounds-le zero answered io = omega arith
  rounds-le (suc n) answered io =
      let r = ping_round W now_micros server u io in
      elim (Bool-cases r.0) [
        | inl e ↦ rw (e, ping_rounds) (omega (arith, rounds-le n (answered + 1) r.1))
        | inr e ↦ rw (e, ping_rounds) (omega (arith, rounds-le n answered r.1))
      ]

  all_answered :
      (n answered : ℕ) (io : Io S)
      → AllAnswered n io
      → (ping_rounds W now_micros server u n answered io).0 ≡ answered + n
  unfolding ping_rounds
  all_answered zero answered io h = omega arith
  all_answered (suc n) answered io h =
      let r = ping_round W now_micros server u io in
      rw (h.0, ping_rounds) (omega (arith, all_answered n (answered + 1) r.1 h.1))

  answered_all :
      (n answered : ℕ) (io : Io S)
      → (ping_rounds W now_micros server u n answered io).0 ≡ answered + n
      → AllAnswered n io
  unfolding ping_rounds
  answered_all zero answered io e = tt
  answered_all (suc n) answered io e =
      let r = ping_round W now_micros server u io in
      elim (Bool-cases r.0) [
        | inl g ↦ (g, answered_all n (answered + 1) r.1 (omega (arith, rw (g, ping_rounds) at e)))
        | inr g ↦ absurd (omega (arith, rw (g, ping_rounds) at e, rounds-le n answered r.1))
      ]

  abbrev Passed : ℤ → Io S → Type 0
  Passed rounds io = (n : ℕ) × (rounds ≡ pos n) × AllAnswered n io

  ping_all-zero :
      (rounds : ℤ) (io : Io S) → (ping_all W now_micros server u rounds io).0 ≡ 0 → Passed rounds io
  unfolding ping_all
  ping_all-zero (pos n) io e = (n, refl, answered_all n 0 io (ground arith))
  ping_all-zero (negsuc n) io e = absurd (omega arith)

  zero-ping_all :
      (n : ℕ) (io : Io S) → AllAnswered n io → (ping_all W now_micros server u (pos n) io).0 ≡ 0
  unfolding ping_all
  zero-ping_all n io h = ground (arith, all_answered n 0 io h)

  ping_all-le : (rounds : ℤ) (io : Io S) → (ping_all W now_micros server u rounds io).0 ≤ 1
  unfolding ping_all
  ping_all-le (pos n) io = ground arith
  ping_all-le (negsuc n) io = omega arith

  module _ (o : Options) (io : Io S) where
    -- No answer, or none that is one; a refusal; or a welcome, and then the rounds.
    abbrev Ends : ℕ → Type 0
    Ends code =
        ((code ≡ 1) × ((b : Bool) → Acked o io b → ⊥))
        ⊎ (((k : Acked o io false) × (code ≡ 2))
            ⊎ ((k : Acked o io true) × (code
                  ≡ (ping_all W now_micros server u o.rounds k.after).0)))

    module _ (request : List ℕ) (encoded : encode hello_format (hello_for o) ≡ some request) where
      acked-Ends :
          (size : ℕ) (after : Io S) (m : Option HelloAck)
          → exchange W server u request io ≡ (some size, after)
          → decode hello_ack_format (take size after.buffer) ≡ m
          → Ends (after_ack W now_micros server u (judge_ack m) o.rounds after).0
      unfolding after_ack judge_ack
      acked-Ends size after none x d =
          inl (refl, λ b k. ground (arith, encoded, x, d, k.encoded, k.exchanged, k.decoded))
      acked-Ends size after (some ack) x d = elim (Bool-cases ack.accepted) [
        | inl e ↦ inr (
            inr (
              record {
                request = request;
                size = size;
                after = after;
                ack = ack;
                encoded = encoded;
                exchanged = x;
                decoded = d;
                verdict = e;
              },
              rw (e, judge_ack) refl,
            ))
        | inr e ↦ inr (
            inl (
              record {
                request = request;
                size = size;
                after = after;
                ack = ack;
                encoded = encoded;
                exchanged = x;
                decoded = d;
                verdict = e;
              },
              rw (e, judge_ack) refl,
            ))
      ]

      exchanged-Ends :
          (x : Option ℕ × Io S)
          → exchange W server u request io ≡ x
          → Ends (answered_hello W now_micros server u o.rounds x).0
      unfolding answered_hello
      exchanged-Ends (none, after) e =
          inl (refl, λ b k. ground (arith, encoded, e, k.encoded, k.exchanged))
      exchanged-Ends (some size, after) e =
          acked-Ends size after (decode hello_ack_format (take size after.buffer)) e refl

    encoded-Ends :
        (r : Option (List ℕ))
        → encode hello_format (hello_for o) ≡ r
        → Ends (greeted W now_micros server u o.rounds r io).0
    unfolding greeted
    encoded-Ends none e = inl (refl, λ b k. ground (arith, e, k.encoded))
    encoded-Ends (some request) e = exchanged-Ends request e (exchange W server u request io) refl

    talk-Ends : Ends (talk W now_micros server u o io).0
    unfolding talk
    talk-Ends = encoded-Ends (encode hello_format (hello_for o)) refl

    Acked-code :
        (b : Bool) (k : Acked o io b)
        → (talk W now_micros server u o io).0
          ≡ (after_ack W now_micros server u (if b then go_on else leave 2) o.rounds k.after).0
    unfolding talk greeted answered_hello judge_ack
    Acked-code b k = rw (k.encoded, talk, k.exchanged, k.decoded, judge_ack, k.verdict) refl

    passed_code :
        (k : Acked o io true) (n : ℕ)
        → o.rounds ≡ pos n
        → AllAnswered n k.after
        → (talk W now_micros server u o io).0 ≡ 0
    unfolding after_ack
    passed_code k n e h =
        Acked-code true k
        ∙ ap (λ r. (ping_all W now_micros server u r k.after).0) e
        ∙ zero-ping_all n k.after h

    -- The walk's handshake and a run of the rounds agree on who is let in.
    module _ (request : List ℕ) (encoded : encode hello_format (hello_for o) ≡ some request) where
      handshaken_lem :
          (x : Option ℕ × Io S)
          → exchange W server u request io ≡ x
          → (handshaken W server u x).0 ≡ true
          → Acked o io true
      unfolding handshaken
      handshaken_lem (none, after) e h = cc
      handshaken_lem (some size, after) e h =
          elim (Option-cases (decode hello_ack_format (take size after.buffer))) [
            | inl d ↦ absurd (ground (arith, d, h))
            | inr (ack, d) ↦ record {
              request = request;
              size = size;
              after = after;
              ack = ack;
              encoded = encoded;
              exchanged = e;
              decoded = d;
              verdict = ground (arith, d, h);
            }
          ]

    greeting_lem :
        (r : Option (List ℕ))
        → encode hello_format (hello_for o) ≡ r
        → (say_hello W server u r io).0 ≡ true
        → Acked o io true
    unfolding say_hello
    greeting_lem none e h = cc
    greeting_lem (some request) e h =
        handshaken_lem request e (exchange W server u request io) refl h

    do_handshake_lem :
        ((do_handshake W server u o.username o.protocol io).0 ≡ true) ↔ Acked o io true
    unfolding do_handshake say_hello handshaken
    do_handshake_lem = (
      λ h. greeting_lem (encode hello_format (hello_for o)) refl h,
      λ k. rw (k.encoded, do_handshake, k.exchanged, k.decoded) k.verdict,
    )

    -- nettest leaves with 2 exactly if its hello was encoded, sent and answered by an ack that
    -- does not accept it; with 0 exactly if it was answered by an ack that accepts it, the number
    -- of rounds is not negative, and each round was answered; and its code is at most 2. The
    -- walk's handshake, with the same name and protocol, succeeds exactly if it was answered by an
    -- ack that accepts it.
    pub exit_codes :
        let code = (talk W now_micros server u o io).0 in
        (code ≡ 2 ↔ Acked o io false)
        × (code ≡ 0
            ↔ ((k : Acked o io true) × (n : ℕ) × (o.rounds ≡ pos n) × AllAnswered n k.after))
        × (code ≤ 2)
        × ((do_handshake W server u o.username o.protocol io).0 ≡ true ↔ Acked o io true)
    unfolding after_ack
    exit_codes = elim talk-Ends [
      | inl (one, nobody) ↦ (
        (λ e. absurd (omega (arith, e, one)), λ k. absurd (nobody false k)),
        (λ e. absurd (omega (arith, e, one)), λ j. absurd (nobody true j.0)),
        omega (arith, one),
        do_handshake_lem,
      )
      | inr (inl (k, two)) ↦ (
        (λ e. k, λ j. two),
        (λ e. absurd (omega (arith, e, two)), λ j. passed_code j.0 j.1 j.2 j.3),
        omega (arith, two),
        do_handshake_lem,
      )
      | inr (inr (k, same)) ↦ (
        (
          λ e. absurd (omega (arith, e, same, ping_all-le o.rounds k.after)),
          λ j. Acked-code false j,
        ),
        (
          λ e.
              let (n, count, all) = ping_all-zero o.rounds k.after (sym same ∙ e) in
              (k, n, count, all),
          λ j. passed_code j.0 j.1 j.2 j.3,
        ),
        omega (arith, same, ping_all-le o.rounds k.after),
        do_handshake_lem,
      )
    ]
