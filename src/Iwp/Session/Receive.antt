-- ===== src/Iwp/Session/Receive.antt =====
-- The receiving half of llarp/iwp/session.cpp: the handlers of plaintext commands, and
-- `HandlePlaintext`, which dispatches to them.
use lokinet.Base.{
  ℕ, zero, suc, ◌+◌, ◌-◌, ◌*◌, Bool, true, false, Option, none, some, List, [], ◌∷◌, ltb, ◌==◌,
  if◌then◌else◌, length, take, drop, min, nat_eq, bytes_eq, get_elem?,
}
use lokinet.Base.Map.{find?, insert, try_emplace, erase}
use lokinet.Base.Bytes.{Bytes, copy_at, to_be, of_be, word_at}
use lokinet.Iwp.Acks.{map_done, and_then, Outcome, done, out_of_range, unfinished}
use lokinet.Iwp.Inbound
use lokinet.Iwp.Inbound.{InboundMessage, acks_packet, is_completed, verify}
use lokinet.Iwp.Outbound.{OutboundMessage, xmit, ack, is_transmitted, completed}
use lokinet.Iwp.Packet.{
  Random, Command, command_byte, create_packet, packet_overhead, command_overhead, fragment_size,
}
use lokinet.Iwp.Session.State.{Session, Env, emit, handle_message, run_handler, u64, u64_pred}
use lokinet.Iwp.Session.Crypt.{encrypt_and_send}
use lokinet.Iwp.Session.Send.{push_mack, flush_message, close, send_mack, pump}

abbrev put_rx : ℕ → InboundMessage → Session → Session
put_rx id m s = record s { rx_msgs = insert id m s.rx_msgs }

-- `HandleRecvMsgCompleted(msg)`
unfoldable pub handle_recv_msg_completed : Env → InboundMessage → Session → Session
handle_recv_msg_completed env m s =
    let (filter, fresh) = try_emplace m.msg_id env.now s.replay_filter in
    let s1 =
      if fresh
      then encrypt_and_send env (acks_packet env.random m)
          (emit (handle_message m.contents) (record s { replay_filter = filter }))
      else s in
    record s1 { rx_msgs = erase m.msg_id s1.rx_msgs }

-- A complete message is handed over if its hash is right.
unfoldable pub on_completed : Bool → Env → InboundMessage → Session → Session
on_completed true env m s = if verify env.shorthash m then handle_recv_msg_completed env m s else s
on_completed false env m s = s

-- A message that took a fragment: it is written back, and then `IsCompleted` is asked.
unfoldable pub check_completed : Env → InboundMessage → Session → Outcome Session
unfolding on_completed
check_completed env m s =
    map_done (λ c. on_completed c env m (put_rx m.msg_id m s)) (is_completed m)

unfoldable pub take_fragment : Env → InboundMessage → ℕ → Bytes → Session → Outcome Session
unfolding check_completed
take_fragment env m idx buf s =
    and_then (Inbound.handle_data m idx buf env.now) (λ m'. check_completed env m' s)

abbrev pub xmit_overhead : ℕ
xmit_overhead = command_overhead + packet_overhead + 2 + 8 + 32

-- The branch of `HandleXMIT` for a message that is not known yet. A `sz` that fits 16 bits and a
-- tail of the packet that is just the first fragment are taken as data.
unfoldable pub begin_rx : Env → ℕ → ℕ → Bytes → Session → Outcome Session
begin_rx env rxid sz pkt s =
    let m =
      Inbound.init rxid sz (take 32 (drop (command_overhead + packet_overhead + 10) pkt)) env.now in
    let first = min sz fragment_size in
    if length pkt - xmit_overhead == first
    then take_fragment env m 0 (drop (length pkt - first) pkt) s
    else done (put_rx rxid m s)

-- `HandleXMIT` on what the replay filter and the messages under way say of the id
unfoldable pub receive_xmit :
    Option ℕ → Option InboundMessage → Env → ℕ → ℕ → Bytes → Session → Outcome Session
receive_xmit (some _) known env rxid sz pkt s =
    done (record s { send_macks = push_mack rxid s.send_macks })
receive_xmit none (some _) env rxid sz pkt s = done s
receive_xmit none none env rxid sz pkt s = begin_rx env rxid sz pkt s

-- `HandleXMIT(data)`
unfoldable pub handle_xmit : Env → Bytes → Session → Outcome Session
unfolding begin_rx receive_xmit
handle_xmit env pkt s =
    if ltb (length pkt) xmit_overhead
    then done s
    else let sz = word_at 2 (command_overhead + packet_overhead) pkt in
      let rxid = word_at 8 (command_overhead + packet_overhead + 2) pkt in
      receive_xmit (find? rxid s.replay_filter) (find? rxid s.rx_msgs) env rxid sz pkt
        (record s { last_rx = env.now })

unfoldable pub nack_packet : Random → ℕ → Bytes
nack_packet r rxid =
    copy_at (packet_overhead + command_overhead) (to_be 8 rxid)
      (create_packet r Command.nack 8 16 16)

-- `HandleDATA` on what the messages under way and the replay filter say of the id
unfoldable pub receive_data :
    Option InboundMessage → Option ℕ → Env → ℕ → ℕ → Bytes → Session → Outcome Session
unfolding nack_packet
receive_data (some m) seen env rxid idx buf s = take_fragment env m idx buf s
receive_data none (some _) env rxid idx buf s =
    done (record s { send_macks = push_mack rxid s.send_macks })
receive_data none none env rxid idx buf s =
    done (encrypt_and_send env (nack_packet env.random rxid) s)

-- `HandleDATA(data)`
unfoldable pub handle_data : Env → Bytes → Session → Outcome Session
unfolding take_fragment receive_data
handle_data env pkt s =
    if ltb (length pkt) (command_overhead + 2 + 8 + packet_overhead)
    then done s
    else let idx = word_at 2 (command_overhead + packet_overhead) pkt in
      let rxid = word_at 8 (command_overhead + 2 + packet_overhead) pkt in
      receive_data (find? rxid s.rx_msgs) (find? rxid s.replay_filter) env rxid idx
        (drop (packet_overhead + 12) pkt) (record s { last_rx = env.now })

-- An outbound message is done: its handler runs and its entry goes.
unfoldable pub finish_tx : ℕ → OutboundMessage → Session → Session
finish_tx id m s =
    let s1 = run_handler (completed m).1 s in record s1 { tx_msgs = erase id s1.tx_msgs }

-- `HandleACKS(data)`, where byte 10 of the plaintext is the bitmask
unfoldable pub handle_acks : Env → Bytes → Session → Outcome Session
unfolding finish_tx
handle_acks env pkt s =
    if ltb (length pkt) (11 + packet_overhead)
    then done s
    else let s1 = record s { last_rx = env.now } in
      let txid = word_at 8 (2 + packet_overhead) pkt in
      elim (find? txid s1.tx_msgs) [
        | none ↦ done s1
        | some m ↦
            let m' = ack m (of_be (take 1 (drop (10 + packet_overhead) pkt))) in
            elim (is_transmitted m') [
              | done true ↦ done (finish_tx txid m' s1)
              | done false ↦ flush_message env txid m' s1
              | out_of_range ↦ out_of_range
              | unfinished ↦ unfinished
            ]
      ]

-- One id of a multi-ack.
unfoldable pub ack_one : ℕ → Session → Session
unfolding finish_tx
ack_one id s = elim (find? id s.tx_msgs) [
  | none ↦ s
  | some m ↦ finish_tx id m (record s {
    stats = record s.stats {
      total_acked_tx = u64 (s.stats.total_acked_tx + 1);
      total_in_flight_tx = u64_pred s.stats.total_in_flight_tx;
    };
  })
]

-- The loop of `HandleMACK`, over the bytes behind the count.
unfoldable pub ack_many : ℕ → Bytes → Session → Session
unfolding ack_one
ack_many zero bytes s = s
ack_many (suc n) bytes s = ack_many n (drop 8 bytes) (ack_one (of_be (take 8 bytes)) s)

-- `HandleMACK(data)`
unfoldable pub handle_mack : Env → Bytes → Session → Session
unfolding ack_many
handle_mack env pkt s =
    let n = of_be (take 1 (drop (command_overhead + packet_overhead) pkt)) in
    if ltb (length pkt) (3 + packet_overhead)
    then s
    else if ltb (length pkt) (1 + command_overhead + packet_overhead + n * 8)
    then s
    else ack_many n (drop (command_overhead + packet_overhead + 1) pkt) s

-- `HandleNACK(data)`
unfoldable pub handle_nack : Env → Bytes → Session → Session
handle_nack env pkt s =
    if ltb (length pkt) (command_overhead + 8 + packet_overhead)
    then s
    else let resent : Session =
        elim (find? (word_at 8 (command_overhead + packet_overhead) pkt) s.tx_msgs) [
          | none ↦ s
          | some m ↦ encrypt_and_send env (xmit env.random m) s
        ] in
      record resent { last_rx = env.now }

-- `HandlePING`
unfoldable pub handle_ping : Env → Session → Session
handle_ping env s = record s { last_rx = env.now }

-- The switch of `HandlePlaintext`, on the byte behind the protocol version.
unfoldable pub handle_command : Env → ℕ → Bytes → Session → Outcome Session
unfolding command_byte handle_ping
handle_command env cmd pkt s =
    if cmd == command_byte Command.xmit
    then handle_xmit env pkt s
    else if cmd == command_byte Command.data_
    then handle_data env pkt s
    else if cmd == command_byte Command.acks
    then handle_acks env pkt s
    else if cmd == command_byte Command.ping
    then done (handle_ping env s)
    else if cmd == command_byte Command.nack
    then done (handle_nack env pkt s)
    else if cmd == command_byte Command.clos
    then done (close env s)
    else if cmd == command_byte Command.mack
    then done (handle_mack env pkt s)
    else done s

-- the byte of the command; a packet that ends before it is read out of range
abbrev pub with_command : Option ℕ → (ℕ → Outcome Session) → Outcome Session
with_command none f = out_of_range
with_command (some cmd) f = f cmd

unfoldable pub handle_batch : Env → List Bytes → Session → Outcome Session
handle_batch env [] s = done s
handle_batch env (pkt ∷ pkts) s =
    and_then
      (with_command (get_elem? pkt (packet_overhead + 1)) (λ cmd. handle_command env cmd pkt s))
      (λ s'. handle_batch env pkts s')

unfoldable pub handle_batches : Env → List (List Bytes) → Session → Outcome Session
unfolding handle_batch
handle_batches env [] s = done s
handle_batches env (b ∷ bs) s = and_then (handle_batch env b s) (λ s'. handle_batches env bs s')

-- `HandlePlaintext()`
unfoldable pub handle_plaintext : Env → Session → Outcome Session
unfolding handle_batches
handle_plaintext env s =
    and_then (handle_batches env s.plaintext_recv (record s { plaintext_recv = [] }))
      (λ s'. pump env (send_mack env s'))
