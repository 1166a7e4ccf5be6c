-- ===== src/Iwp/Session/Untouched.antt =====
-- The operations of llarp/iwp/session.cpp that leave the messages under way and the replay filter as
-- they are.
use lokinet.Base.{
  ℕ, zero, suc, ◌+◌, ◌*◌, ◌≡◌, refl, ◌∙◌, Bool, true, false, Option, List, [], ◌∷◌, arith,
  Bool-cases, Option-cases, inl, inr, length, drop, take, ltb, if◌then◌else◌, nat_eq,
}
use lokinet.Base.Map.{find?, insert}
use lokinet.Base.Bytes.{Bytes, of_be, word_at}
use lokinet.Iwp.Acks.{Outcome, done, out_of_range, unfinished, done-injective}
use lokinet.Iwp.Outbound.{
  OutboundMessage, Handler, DeliveryStatus, ack, is_transmitted, flush_un_acked, should_flush, xmit,
  completed,
}
use lokinet.Iwp.Packet.{Command, create_packet, packet_overhead, command_overhead}
use lokinet.Iwp.Session.State.{
  Session, State, closed, Env, run_handler, emit, is_established, unmap_addr,
}
use lokinet.Iwp.Session.Crypt.{encrypt_and_send_all}
use lokinet.Iwp.Session.Frame.{Kept, encrypt_and_send-Kept, encrypt_and_send_all-Kept}
use lokinet.Iwp.Session.Send.{flush_message, send_mack, mack_packets, close, pump_tx, is_closed}
use lokinet.Iwp.Session.Receive.{
  finish_tx, ack_one, ack_many, handle_mack, handle_nack, handle_acks,
}

-- The messages under way and the replay filter of `t` are those of `s`.
pub record SameRx (s t : Session) : Type 0 where
  pub rx : t.rx_msgs ≡ s.rx_msgs
  pub filter : t.replay_filter ≡ s.replay_filter

pub SameRx-refl : (s : Session) → SameRx s s
SameRx-refl s = record { rx = refl; filter = refl }

pub SameRx-trans : {s t u : Session} → SameRx s t → SameRx t u → SameRx s u
SameRx-trans a b = record { rx = b.rx ∙ a.rx; filter = b.filter ∙ a.filter }

pub Kept-SameRx : {s t : Session} → Kept s t → SameRx s t
Kept-SameRx k = record { rx = k.rx; filter = k.filter }

pub run_handler-SameRx :
    (h : Option (Handler × DeliveryStatus)) (s : Session) → SameRx s (run_handler h s)
unfolding run_handler
run_handler-SameRx h s = record { rx = ground arith; filter = ground arith }

finish_tx-SameRx : (id : ℕ) (m : OutboundMessage) (s : Session) → SameRx s (finish_tx id m s)
unfolding finish_tx
finish_tx-SameRx id m s =
    let r = run_handler-SameRx (completed m).1 s in record { rx = r.rx; filter = r.filter }

ack_one-SameRx : (id : ℕ) (s : Session) → SameRx s (ack_one id s)
unfolding ack_one
ack_one-SameRx id s = elim (Option-cases (find? id s.tx_msgs)) [
  | inl e ↦ rw (e, ack_one) (SameRx-refl s)
  | inr (m, e) ↦
      rw (e, ack_one) (let r = finish_tx-SameRx id m _ in record { rx = r.rx; filter = r.filter })
]

ack_many-SameRx : (n : ℕ) (bytes : Bytes) (s : Session) → SameRx s (ack_many n bytes s)
unfolding ack_many
ack_many-SameRx zero bytes s = SameRx-refl s
ack_many-SameRx (suc n) bytes s =
    SameRx-trans (ack_one-SameRx (of_be (take 8 bytes)) s) (ack_many-SameRx n (drop 8 bytes) _)

pub handle_mack-SameRx : (env : Env) (pkt : Bytes) (s : Session) → SameRx s (handle_mack env pkt s)
unfolding handle_mack
handle_mack-SameRx env pkt s =
    let n = of_be (take 1 (drop (command_overhead + packet_overhead) pkt)) in
    elim (Bool-cases (ltb (length pkt) (3 + packet_overhead))) [
      | inl e ↦ rw (e, handle_mack) (SameRx-refl s)
      | inr e ↦
          elim (Bool-cases (ltb (length pkt) (1 + command_overhead + packet_overhead + n * 8))) [
            | inl f ↦ rw (e, handle_mack, f) (SameRx-refl s)
            | inr f ↦ rw (e, handle_mack, f) (ack_many-SameRx n (drop (3 + packet_overhead) pkt) s)
          ]
    ]

pub handle_nack-SameRx : (env : Env) (pkt : Bytes) (s : Session) → SameRx s (handle_nack env pkt s)
unfolding handle_nack
handle_nack-SameRx env pkt s =
    elim (Bool-cases (ltb (length pkt) (command_overhead + 8 + packet_overhead))) [
      | inl e ↦ rw (e, handle_nack) (SameRx-refl s)
      | inr e ↦
          elim (Option-cases
            (find? (word_at 8 (command_overhead + packet_overhead) pkt) s.tx_msgs)) [
              | inl f ↦ rw (e, handle_nack, f) (record { rx = refl; filter = refl })
              | inr (m, f) ↦
                  let k = encrypt_and_send-Kept env (xmit env.random m) s in
                  rw (e, handle_nack, f) (record { rx = k.rx; filter = k.filter })
            ]
    ]

pub flush_message-SameRx :
    (env : Env) (id : ℕ) (m : OutboundMessage) (s t : Session)
    → flush_message env id m s ≡ done t
    → SameRx s t
unfolding flush_message
flush_message-SameRx env id m s t h = flushed (flush_un_acked env.random m env.now).1 h
  where
    flushed :
        (o : Outcome (List Bytes))
        → (elim o [
          | done ps ↦ done (record (encrypt_and_send_all env ps s) {
            tx_msgs = insert id (flush_un_acked env.random m env.now).0 s.tx_msgs;
          })
          | out_of_range ↦ out_of_range
          | unfinished ↦ unfinished
        ])
          ≡ done t
        → SameRx s t
    flushed (done ps) e =
        let k = encrypt_and_send_all-Kept env ps s in
        rw (← done-injective e) (record { rx = k.rx; filter = k.filter })
    flushed out_of_range e = absurd cc
    flushed unfinished e = absurd cc

pub close-SameRx : (env : Env) (s : Session) → SameRx s (close env s)
unfolding close
close-SameRx env s =
    let unmapped = if is_established s.state then emit unmap_addr s else s in
    let k =
      encrypt_and_send-Kept env (create_packet env.random Command.clos 0 16 16)
        (record unmapped { state = closed }) in
    elim (Bool-cases (is_closed s.state)) [
      | inl e ↦ rw (e, close) (SameRx-refl s)
      | inr e ↦
          rw (e, close)
            (record { rx = k.rx ∙ rx_of s.state; filter = k.filter ∙ filter_of s.state })
    ]
  where
    rx_of : (st : State) → (if is_established st then emit unmap_addr s else s).rx_msgs ≡ s.rx_msgs
    rx_of st = ground arith

    filter_of :
        (st : State)
        → (if is_established st then emit unmap_addr s else s).replay_filter ≡ s.replay_filter
    filter_of st = ground arith

pub send_mack-SameRx : (env : Env) (s : Session) → SameRx s (send_mack env s)
unfolding send_mack
send_mack-SameRx env s =
    let r = mack_packets env.random (length s.send_macks) s.send_macks in
    let k = encrypt_and_send_all-Kept env r.0 (record s { send_macks = r.1 }) in
    record { rx = k.rx; filter = k.filter }

sequel :
    (r : Outcome Session) (f : Session → Outcome Session) {t : Session}
    → (elim r [ done s' ↦ f s' | out_of_range ↦ out_of_range | unfinished ↦ unfinished ]) ≡ done t
    → (s' : Session) × (r ≡ done s') × (f s' ≡ done t)
sequel (done s') f h = (s', refl, h)
sequel out_of_range f h = absurd cc
sequel unfinished f h = absurd cc

pub pump_tx-SameRx :
    (env : Env) (ms : List (ℕ × OutboundMessage)) (s t : Session)
    → pump_tx env ms s ≡ done t
    → SameRx s t
unfolding pump_tx
pump_tx-SameRx env [] s t h = rw (← done-injective h) (SameRx-refl s)
pump_tx-SameRx env ((id, m) ∷ ms) s t h =
    let (s', e, rest) =
      sequel (if should_flush m env.now then flush_message env id m s else done s) (pump_tx env ms)
        h in
    SameRx-trans (first (should_flush m env.now) e) (pump_tx-SameRx env ms s' t rest)
  where
    first :
        {s' : Session} (due : Bool)
        → (if due then flush_message env id m s else done s) ≡ done s'
        → SameRx s s'
    first {s'} true e = flush_message-SameRx env id m s s' e
    first false e = rw (← done-injective e) (SameRx-refl s)

pub handle_acks-SameRx :
    (env : Env) (pkt : Bytes) (s t : Session) → handle_acks env pkt s ≡ done t → SameRx s t
unfolding handle_acks
handle_acks-SameRx env pkt s t h =
    let txid = word_at 8 (2 + packet_overhead) pkt in
    elim (Bool-cases (ltb (length pkt) (11 + packet_overhead))) [
      | inl e ↦ rw (← done-injective (rw (e, handle_acks) at h)) (SameRx-refl s)
      | inr e ↦ elim (Option-cases (find? txid s.tx_msgs)) [
        | inl f ↦
            rw (← done-injective (rw (e, handle_acks, f) at h))
              (record { rx = refl; filter = refl })
        | inr (m, f) ↦
            let m' = ack m (of_be (take 1 (drop (10 + packet_overhead) pkt))) in
            acked m' (is_transmitted m') (rw (e, handle_acks, f) at h)
      ]
    ]
  where
    txid : ℕ
    txid = word_at 8 (2 + packet_overhead) pkt

    acked :
        (m' : OutboundMessage) (r : Outcome Bool)
        → (elim r [
          | done b ↦ elim b [
            | true ↦ done (finish_tx txid m' (record s { last_rx = env.now }))
            | false ↦ flush_message env txid m' (record s { last_rx = env.now })
          ]
          | out_of_range ↦ out_of_range
          | unfinished ↦ unfinished
        ])
          ≡ done t
        → SameRx s t
    acked m' (done true) q =
        let k = finish_tx-SameRx txid m' (record s { last_rx = env.now }) in
        rw (← done-injective q) (record { rx = k.rx; filter = k.filter })
    acked m' (done false) q =
        let k = flush_message-SameRx env txid m' (record s { last_rx = env.now }) t q in
        record { rx = k.rx; filter = k.filter }
    acked m' out_of_range q = absurd cc
    acked m' unfinished q = absurd cc
