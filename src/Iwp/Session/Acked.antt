-- ===== src/Iwp/Session/Acked.antt =====
-- What acknowledgements do to the messages in flight and to the counters of llarp/iwp/session.cpp.
use lokinet.Base.{
  ℕ, ◌+◌, ◌≤◌, ◌≡◌, ap, true, Option, none, some, arith, Option-cases, inl, inr, nat_eq, le→ltb,
  length, take, drop,
}
use lokinet.Base.Map.{find?, erase, find?-erase}
use lokinet.Base.Bytes.{Bytes, word_at, of_be}
use lokinet.Iwp.Acks.{done}
use lokinet.Iwp.Outbound.{OutboundMessage, Handler, DeliveryStatus, ack, is_transmitted, completed}
use lokinet.Iwp.Packet.{packet_overhead}
use lokinet.Iwp.Session.State.{Session, Env, run_handler, u64, u64_pred, SessionStats}
use lokinet.Iwp.Session.Receive.{finish_tx, ack_one, handle_acks}

run_handler-tx :
    (h : Option (Handler × DeliveryStatus)) (s : Session) → (run_handler h s).tx_msgs ≡ s.tx_msgs
unfolding run_handler
run_handler-tx h s = ground arith

run_handler-stats :
    (h : Option (Handler × DeliveryStatus)) (s : Session) → (run_handler h s).stats ≡ s.stats
unfolding run_handler
run_handler-stats h s = ground arith

finish_tx-tx :
    (id : ℕ) (m : OutboundMessage) (s : Session) → (finish_tx id m s).tx_msgs ≡ erase id s.tx_msgs
unfolding finish_tx
finish_tx-tx id m s = ap (erase id) (run_handler-tx (completed m).1 s)

finish_tx-stats : (id : ℕ) (m : OutboundMessage) (s : Session) → (finish_tx id m s).stats ≡ s.stats
unfolding finish_tx
finish_tx-stats id m s = run_handler-stats (completed m).1 s

counted : Session → Session
counted s = record s {
  stats = record s.stats {
    total_acked_tx = u64 (s.stats.total_acked_tx + 1);
    total_in_flight_tx = u64_pred s.stats.total_in_flight_tx;
  };
}

ack_one-none : (id : ℕ) (s : Session) → find? id s.tx_msgs ≡ none → ack_one id s ≡ s
unfolding ack_one
ack_one-none id s e = rw (e, ack_one)

ack_one-some :
    (id : ℕ) (s : Session) (m : OutboundMessage)
    → find? id s.tx_msgs ≡ some m
    → ack_one id s ≡ finish_tx id m (counted s)
unfolding ack_one counted
ack_one-some id s m e = rw (e, ack_one)

erased : (id : ℕ) (m : OutboundMessage) (s : Session) → find? id (finish_tx id m s).tx_msgs ≡ none
erased id m s = rw (finish_tx-tx id m s) (ground (arith, find?-erase id id s.tx_msgs))

-- The two ways that one id of a multi-ack can take `s` to `t`.
pub data Acked (id : ℕ) (s t : Session) : Type 0 where
  ignored : find? id s.tx_msgs ≡ none → t ≡ s → Acked id s t
  finished :
      (m : OutboundMessage)
      → find? id s.tx_msgs ≡ some m
      → t.tx_msgs ≡ erase id s.tx_msgs
      → find? id t.tx_msgs ≡ none
      → t.stats.total_in_flight_tx ≡ u64_pred s.stats.total_in_flight_tx
      → t.stats.total_acked_tx ≡ u64 (s.stats.total_acked_tx + 1)
      → t.events ≡ (run_handler (completed m).1 s).events
      → Acked id s t

handled :
    (id : ℕ) (m : OutboundMessage) (s : Session)
    → (finish_tx id m (counted s)).events ≡ (run_handler (completed m).1 s).events
unfolding finish_tx counted run_handler
handled id m s = ground arith

-- One id of a multi-ack: if it is not in flight, nothing changes; if it is, it is taken out, its
-- handler is told of success, and the counters of acknowledged messages and of messages in flight
-- move by one.
pub ack_one-Acked : (id : ℕ) (s : Session) → Acked id s (ack_one id s)
unfolding counted
ack_one-Acked id s = elim (Option-cases (find? id s.tx_msgs)) [
  | inl e ↦ ignored e (ack_one-none id s e)
  | inr (m, e) ↦
      let st = finish_tx-stats id m (counted s) in
      rw (ack_one-some id s m e) (
        finished m e (finish_tx-tx id m (counted s)) (erased id m (counted s))
          (ap (λ (x : SessionStats). x.total_in_flight_tx) st)
          (ap (λ (x : SessionStats). x.total_acked_tx) st) (handled id m s))
]

-- An id that was acknowledged is ignored the next time, so a repeated multi-ack counts once.
pub ack_one-twice : (id : ℕ) (s : Session) → ack_one id (ack_one id s) ≡ ack_one id s
ack_one-twice id s = ack_one-none id (ack_one id s) (gone (ack_one-Acked id s))
  where
    gone : {t : Session} → Acked id s t → find? id t.tx_msgs ≡ none
    gone (ignored e q) = rw q e
    gone (finished m e a b c d f) = b

-- A single ACKS packet that is long enough and completes a message in flight takes it out of
-- flight, but changes no counter.
pub handle_acks-counts :
    (env : Env) (pkt : Bytes) (s : Session) (m : OutboundMessage)
    → 11 + packet_overhead ≤ length pkt
    → find? (word_at 8 (2 + packet_overhead) pkt) s.tx_msgs ≡ some m
    → is_transmitted (ack m (of_be (take 1 (drop (10 + packet_overhead) pkt)))) ≡ done true
    → (t : Session) × (handle_acks env pkt s ≡ done t)
      × (find? (word_at 8 (2 + packet_overhead) pkt) t.tx_msgs ≡ none)
      × (t.stats ≡ s.stats)
unfolding handle_acks
handle_acks-counts env pkt s m long e tr =
    let id = word_at 8 (2 + packet_overhead) pkt in
    let m' = ack m (of_be (take 1 (drop (10 + packet_overhead) pkt))) in
    let s1 = record s { last_rx = env.now } in
    (
      finish_tx id m' s1,
      rw (le→ltb (length pkt) (11 + packet_overhead) long, handle_acks, e, tr),
      erased id m' s1,
      finish_tx-stats id m' s1,
    )
