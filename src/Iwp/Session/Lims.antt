-- ===== src/Iwp/Session/Lims.antt =====
-- Sending a message, and the link intro messages of llarp/iwp/session.cpp, leave the messages under
-- way and the replay filter as they are.
use lokinet.Base.{
  ℕ, ◌+◌, ◌≡◌, refl, Bool, true, false, not, Option, none, some, Bool-cases, Option-cases, inl, inr,
  length, ltb, leb, if◌then◌else◌, nat_eq, bytes_eq,
}
use lokinet.Base.Map.{find?, try_emplace}
use lokinet.Base.Bytes.{Bytes}
use lokinet.Iwp.Acks.{Outcome, done, out_of_range, unfinished, and_then-eq-done, done-injective}
use lokinet.Iwp.Outbound.{OutboundMessage, Handler, lim_sent, init, xmit}
use lokinet.Iwp.Packet.{fragment_size, max_send_queue_size}
use lokinet.Iwp.Session.State.{Session, Env, LimHandler, inbound_lim, outbound_lim, reneg_lim, u64}
use lokinet.Iwp.Session.Crypt.{encrypt_and_send}
use lokinet.Iwp.Session.Frame.{encrypt_and_send-Kept}
use lokinet.Iwp.Session.Send.{flush_message, transmit, send_message_buffer, dropped}
use lokinet.Iwp.Session.Handshake.{send_our_lim, got_lim_from, got_lim, renegotiate_session}
use lokinet.Iwp.Session.Untouched.{
  SameRx, Kept-SameRx, SameRx-refl, SameRx-trans, run_handler-SameRx, flush_message-SameRx,
}

transmit-SameRx :
    (env : Env) (id bufsz : ℕ) (o : Option OutboundMessage) (s : Session) {r : Session × Bool}
    → transmit env id bufsz o s ≡ done r
    → SameRx s r.0
unfolding transmit
transmit-SameRx env id bufsz none s h = absurd cc
transmit-SameRx env id bufsz (some m) s {r} h = flushed (ltb fragment_size bufsz) h
  where
    s1 : Session
    s1 = encrypt_and_send env (xmit env.random m) s

    kept : SameRx s s1
    kept = Kept-SameRx (encrypt_and_send-Kept env (xmit env.random m) s)

    sent :
        (o : Outcome Session)
        → ((s2 : Session) → o ≡ done s2 → SameRx s s2)
        → (elim o [
          | done s2 ↦ done (
            record s2 {
              stats = record s2.stats {
                total_in_flight_tx = u64 (s2.stats.total_in_flight_tx + 1);
              };
            },
            true,
          )
          | out_of_range ↦ out_of_range
          | unfinished ↦ unfinished
        ])
          ≡ done r
        → SameRx s r.0
    sent (done s2) k e =
        let r2 = k s2 refl in rw (← done-injective e) (record { rx = r2.rx; filter = r2.filter })
    sent out_of_range k e = absurd cc
    sent unfinished k e = absurd cc

    flushed :
        (big : Bool)
        → (elim (if big then flush_message env id m s1 else done s1) [
          | done s2 ↦ done (
            record s2 {
              stats = record s2.stats {
                total_in_flight_tx = u64 (s2.stats.total_in_flight_tx + 1);
              };
            },
            true,
          )
          | out_of_range ↦ out_of_range
          | unfinished ↦ unfinished
        ])
          ≡ done r
        → SameRx s r.0
    flushed true e =
        sent (flush_message env id m s1)
          (λ s2 q. SameRx-trans kept (flush_message-SameRx env id m s1 s2 q)) e
    flushed false e = sent (done s1) (λ s2 q. rw (← done-injective q) kept) e

pub send_message_buffer-SameRx :
    (env : Env) (buf : Bytes) (handler : Option Handler) (s : Session) {r : Session × Bool}
    → send_message_buffer env buf handler s ≡ done r
    → SameRx s r.0
unfolding send_message_buffer
send_message_buffer-SameRx env buf handler s {r} h =
    elim (Bool-cases (leb max_send_queue_size (length s.tx_msgs))) [
      | inl e ↦
          rw (← done-injective (rw (e, send_message_buffer) at h))
            (run_handler-SameRx (dropped handler) s)
      | inr e ↦
          let entries =
            (try_emplace s.tx_id (init env.shorthash s.tx_id buf env.now handler) s.tx_msgs).0 in
          let k =
            transmit-SameRx env s.tx_id (length buf) (find? s.tx_id entries)
              (record s { tx_id = u64 (s.tx_id + 1); tx_msgs = entries })
              (rw (e, send_message_buffer) at h) in
          record { rx = k.rx; filter = k.filter }
    ]

pub send_our_lim-SameRx :
    (env : Env) (h : Option Handler) (s t : Session) → send_our_lim env h s ≡ done t → SameRx s t
unfolding send_our_lim
send_our_lim-SameRx env h s t e = elim (Option-cases env.our_lim) [
  | inl f ↦ rw (← done-injective (rw (f, send_our_lim) at e)) (SameRx-refl s)
  | inr (lim, f) ↦
      let (r, sent, q) =
        and_then-eq-done (send_message_buffer env lim h s) _ (rw (f, send_our_lim) at e) in
      rw (← done-injective q) (send_message_buffer-SameRx env lim h s sent)
]

pub renegotiate_session-SameRx :
    (env : Env) (s : Session) {r : Session × Bool}
    → renegotiate_session env s ≡ done r
    → SameRx s r.0
unfolding renegotiate_session
renegotiate_session-SameRx env s e =
    let (t, sent, q) = and_then-eq-done (send_our_lim env none s) _ e in
    rw (← done-injective q) (send_our_lim-SameRx env none s t sent)

got_lim_from-SameRx :
    (lim : LimHandler) (env : Env) (pk : Bytes) (public : Bool) (s : Session) {r : Session × Bool}
    → got_lim_from lim env pk public s ≡ done r
    → SameRx s r.0
unfolding got_lim_from
got_lim_from-SameRx inbound_lim env pk public s q =
    elim (Bool-cases (not (bytes_eq.beq pk s.expected_ident))) [
      | inl f ↦ rw (← done-injective (rw (f, got_lim_from) at q)) (SameRx-refl s)
      | inr f ↦
          rw (← done-injective (rw (f, got_lim_from) at q)) (record { rx = refl; filter = refl })
    ]
got_lim_from-SameRx outbound_lim env pk public s q =
    elim (Bool-cases (not (bytes_eq.beq pk s.remote_pubkey))) [
      | inl f ↦ rw (← done-injective (rw (f, got_lim_from) at q)) (SameRx-refl s)
      | inr f ↦
          let (t, sent, d) =
            and_then-eq-done (send_our_lim env (some lim_sent) _) _ (rw (f, got_lim_from) at q) in
          let k = send_our_lim-SameRx env (some lim_sent) _ t sent in
          rw (← done-injective d) (record { rx = k.rx; filter = k.filter })
    ]
got_lim_from-SameRx reneg_lim env pk public s q =
    rw (← done-injective q) (record { rx = refl; filter = refl })

pub got_lim-SameRx :
    (env : Env) (pk : Bytes) (public : Bool) (s : Session) {r : Session × Bool}
    → got_lim env pk public s ≡ done r
    → SameRx s r.0
unfolding got_lim
got_lim-SameRx env pk public s e = got_lim_from-SameRx s.got_lim env pk public s e
