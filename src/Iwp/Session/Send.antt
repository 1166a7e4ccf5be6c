-- ===== src/Iwp/Session/Send.antt =====
-- The sending half of llarp/iwp/session.cpp: `Close`, `SendMessageBuffer`, `SendMACK`,
-- `SendKeepAlive`, `ShouldPing` and `Pump`.
use lokinet.Base.{
  ℕ, zero, suc, ◌+◌, ◌-◌, ◌*◌, ◌%◌, Bool, true, false, Option, none, some, List, [], ◌∷◌, ◌++◌, ltb,
  leb, if◌then◌else◌, length, take, drop, set, min, nat_eq, ◌/◌,
}
use lokinet.Base.Map.{find?, insert, try_emplace}
use lokinet.Base.Bytes.{Bytes, copy_at, to_be}
use lokinet.Iwp.Acks.{Outcome, done, out_of_range, unfinished, map_done}
use lokinet.Iwp.Inbound.{InboundMessage, should_send_acks, send_acks}
use lokinet.Iwp.Outbound.{
  OutboundMessage, Handler, delivery_dropped, init, xmit, should_flush, flush_un_acked,
  DeliveryStatus,
}
use lokinet.Iwp.Packet.{
  Random, Command, create_packet, packet_overhead, command_overhead, fragment_size, ping_interval,
  max_send_queue_size,
}
use lokinet.Iwp.Session.State.{
  Session, Env, State, closed, ready, link_intro, initial, introduction, emit, unmap_addr,
  add_wakeup, encrypt_job, decrypt_job, is_established, run_handler, u64,
}
use lokinet.Iwp.Session.Crypt.{encrypt_and_send, encrypt_and_send_all}

abbrev pub is_closed : State → Bool
is_closed closed = true
is_closed initial = false
is_closed introduction = false
is_closed link_intro = false
is_closed ready = false

-- `Close()`
unfoldable pub close : Env → Session → Session
unfolding is_established
close env s =
    if is_closed s.state
    then s
    else let unmapped = if is_established s.state then emit unmap_addr s else s in
      encrypt_and_send env (create_packet env.random Command.clos 0 16 16)
        (record unmapped { state = closed })

-- `SendKeepAlive()`
unfoldable pub send_keep_alive : Env → Session → Session × Bool
unfolding is_established
send_keep_alive env s =
    if is_established s.state
    then (encrypt_and_send env (create_packet env.random Command.ping 0 16 16) s, true)
    else (s, false)

-- `ShouldPing()`
unfoldable pub should_ping : Env → Session → Bool
unfolding is_established
should_ping env s =
    if is_established s.state then ltb ping_interval (env.now - s.last_tx) else false

-- `FlushUnAcked(EncryptAndSend, now)` on the message `id`, whose buffer is written back.
unfoldable pub flush_message : Env → ℕ → OutboundMessage → Session → Outcome Session
flush_message env id m s =
    let (m', packets) = flush_un_acked env.random m env.now in
    elim packets [
      | done ps ↦ done (record (encrypt_and_send_all env ps s) { tx_msgs = insert id m' s.tx_msgs })
      | out_of_range ↦ out_of_range
      | unfinished ↦ unfinished
    ]

-- `SendMessageBuffer` from the new entry of `m_TXMsgs` on
unfoldable pub transmit : Env → ℕ → ℕ → Option OutboundMessage → Session → Outcome (Session × Bool)
transmit env id bufsz none s = out_of_range
transmit env id bufsz (some m) s =
    let s1 = encrypt_and_send env (xmit env.random m) s in
    let flushed = if ltb fragment_size bufsz then flush_message env id m s1 else done s1 in
    elim flushed [
      | done s2 ↦ done (
        record s2 {
          stats = record s2.stats { total_in_flight_tx = u64 (s2.stats.total_in_flight_tx + 1) };
        },
        true,
      )
      | out_of_range ↦ out_of_range
      | unfinished ↦ unfinished
    ]

abbrev pub dropped : Option Handler → Option (Handler × DeliveryStatus)
dropped none = none
dropped (some h) = some (h, delivery_dropped)

-- `SendMessageBuffer(buf, completed)`
unfoldable pub send_message_buffer :
    Env → Bytes → Option Handler → Session → Outcome (Session × Bool)
send_message_buffer env buf handler s =
    if leb max_send_queue_size (length s.tx_msgs)
    then done (run_handler (dropped handler) s, false)
    else let id = s.tx_id in
      let entries = (try_emplace id (init env.shorthash id buf env.now handler) s.tx_msgs).0 in
      transmit env id (length buf) (find? id entries)
        (record s { tx_id = u64 (id + 1); tx_msgs = entries })

abbrev pub max_acks_in_mack : ℕ
max_acks_in_mack = 1024 / 8

-- `m_SendMACKs.emplace(rxid)`: the queue gives its least id first.
unfoldable pub push_mack : ℕ → List ℕ → List ℕ
push_mack x [] = x ∷ []
push_mack x (y ∷ ys) = if ltb y x then y ∷ push_mack x ys else x ∷ y ∷ ys

unfoldable pub write_ids : List ℕ → Bytes
write_ids [] = []
write_ids (x ∷ xs) = to_be 8 x ++ write_ids xs

-- The MACK packet of these ids.
unfoldable pub mack_packet : Random → List ℕ → Bytes
unfolding write_ids
mack_packet r ids =
    let p0 = create_packet r Command.mack (1 + length ids * 8) 16 16 in
    copy_at (3 + packet_overhead) (write_ids ids)
      (set p0 (packet_overhead + command_overhead) (length ids % 256))

-- The loop of `SendMACK`: the packets, and the ids that no packet carries.
unfoldable pub mack_packets : Random → ℕ → List ℕ → List Bytes × List ℕ
mack_packets r zero ids = ([], ids)
mack_packets r (suc fuel) [] = ([], [])
mack_packets r (suc fuel) (x ∷ xs) =
    let n = min (length (x ∷ xs)) max_acks_in_mack in
    let (ps, rest) = mack_packets r fuel (drop n (x ∷ xs)) in
    (mack_packet r (take n (x ∷ xs)) ∷ ps, rest)

-- `SendMACK()`
unfoldable pub send_mack : Env → Session → Session
unfolding mack_packets
send_mack env s =
    let (ps, rest) = mack_packets env.random (length s.send_macks) s.send_macks in
    encrypt_and_send_all env ps (record s { send_macks = rest })

-- The loops of `Pump`, over the entries of `m_RXMsgs` and of `m_TXMsgs`.
unfoldable pub pump_rx :
    Env → List (ℕ × InboundMessage) → Session → List (ℕ × InboundMessage) × Session
pump_rx env [] s = ([], s)
pump_rx env ((id, m) ∷ ms) s =
    let due = should_send_acks m env.now in
    let (m', packet) = send_acks env.random m env.now in
    let (rest, s') = pump_rx env ms (if due then encrypt_and_send env packet s else s) in
    ((id, if due then m' else m) ∷ rest, s')

unfoldable pub pump_tx : Env → List (ℕ × OutboundMessage) → Session → Outcome Session
pump_tx env [] s = done s
pump_tx env ((id, m) ∷ ms) s =
    let flushed = if should_flush m env.now then flush_message env id m s else done s in
    elim flushed [
      | done s' ↦ pump_tx env ms s'
      | out_of_range ↦ out_of_range
      | unfinished ↦ unfinished
    ]

abbrev pub is_live : State → Bool
is_live ready = true
is_live link_intro = true
is_live initial = false
is_live introduction = false
is_live closed = false

abbrev pub is_nil {ℓ} : {A : Type ℓ} → List A → Bool
is_nil [] = true
is_nil (x ∷ xs) = false

-- The end of `Pump`: what is queued goes to the worker.
unfoldable pub queue_work : Session → Session
queue_work s =
    let s1 =
      if is_nil s.encrypt_next
      then s
      else record s { jobs = s.jobs ++ encrypt_job s.encrypt_next ∷ []; encrypt_next = [] } in
    if is_nil s1.decrypt_next
    then s1
    else emit add_wakeup
        (record s1 { jobs = s1.jobs ++ decrypt_job s1.decrypt_next ∷ []; decrypt_next = [] })

-- The part of `Pump` that a live session runs.
unfoldable pub pump_live : Env → Session → Outcome Session
pump_live env s =
    let s1 = if should_ping env s then (send_keep_alive env s).0 else s in
    let (rx, s2) = pump_rx env s1.rx_msgs s1 in pump_tx env s2.tx_msgs (record s2 { rx_msgs = rx })

-- `Pump()`
unfoldable pub pump : Env → Session → Outcome Session
unfolding queue_work pump_live
pump env s = map_done queue_work (if is_live s.state then pump_live env s else done s)
