-- ===== src/Iwp/Outbound.antt =====
-- `OutboundMessage` of llarp/iwp/message_buffer.hpp and .cpp. The completion handler is none once it
-- was called; a call of it is an event that the method returns.
use lokinet.Base.{
  ℕ, zero, suc, ◌+◌, ◌-◌, ◌/◌, ◌%◌, ◌^◌, Bool, true, false, ◌&&◌, Option, none, some, List, [], ◌∷◌,
  ltb, leb, if◌then◌else◌, length, get_elem?, take, drop, set, min,
}
use lokinet.Base.Bytes.{Bytes, copy_at, to_be}
use lokinet.Iwp.Acks.{Acks, no_acks, Outcome, done, out_of_range, unfinished, bits_of, all_acked}
use lokinet.Iwp.Packet.{
  Random, Command, create_packet, packet_overhead, command_overhead, fragment_size,
  delivery_timeout, tx_flush_interval,
}

pub data DeliveryStatus : Type 0 where
  delivery_success delivery_dropped : DeliveryStatus

-- The completion handlers that the program passes: a caller's, by its number, and the closure of
-- `Session::GotOutboundLIM`.
pub data Handler : Type 0 where
  user : ℕ → Handler
  lim_sent : Handler

pub record OutboundMessage : Type 0 where
  pub contents : Bytes
  pub msg_id : ℕ
  pub acks : Acks
  pub completed : Option Handler
  pub last_flush : ℕ
  pub digest : Bytes
  pub started_at : ℕ

-- the constructor; the first fragment travels in the XMIT packet
unfoldable pub init : (Bytes → Bytes) → ℕ → Bytes → ℕ → Option Handler → OutboundMessage
init shorthash msgid msg now handler = record {
  contents = msg;
  msg_id = msgid;
  acks = set no_acks 0 true;
  completed = handler;
  last_flush = now;
  digest = shorthash msg;
  started_at = now;
}

-- `XMIT()`
unfoldable pub xmit : Random → OutboundMessage → Bytes
xmit r m =
    let extra = min (length m.contents) fragment_size in
    let p0 = create_packet r Command.xmit (10 + 32 + extra) 0 0 in
    let p1 = copy_at (command_overhead + packet_overhead) (to_be 2 (length m.contents)) p0 in
    let p2 = copy_at (2 + command_overhead + packet_overhead) (to_be 8 m.msg_id) p1 in
    let p3 = copy_at (10 + command_overhead + packet_overhead) m.digest p2 in
    copy_at (10 + command_overhead + packet_overhead + 32) (take extra m.contents) p3

abbrev call_handler :
    DeliveryStatus
    → OutboundMessage
    → Option Handler
    → OutboundMessage × Option (Handler × DeliveryStatus)
call_handler st m none = (record m { completed = none }, none)
call_handler st m (some h) = (record m { completed = none }, some (h, st))

-- `Completed()`
unfoldable pub completed : OutboundMessage → OutboundMessage × Option (Handler × DeliveryStatus)
completed m = call_handler delivery_success m m.completed

-- `InformTimeout()`
unfoldable pub inform_timeout :
    OutboundMessage → OutboundMessage × Option (Handler × DeliveryStatus)
inform_timeout m = call_handler delivery_dropped m m.completed

-- `ShouldFlush(now)`
unfoldable pub should_flush : OutboundMessage → ℕ → Bool
should_flush m now = leb tx_flush_interval (now - m.last_flush)

-- `Ack(bitmask)`
unfoldable pub ack : OutboundMessage → ℕ → OutboundMessage
ack m bitmask = record m { acks = bits_of 8 bitmask }

-- The DATA packet of the fragment at `idx`.
unfoldable pub data_packet : Random → OutboundMessage → ℕ → Bytes
data_packet r m idx =
    let datasz = length m.contents in
    let fragsz = if ltb (idx + fragment_size) datasz then fragment_size else datasz - idx in
    let p0 = create_packet r Command.data_ (fragsz + 10) 0 0 in
    let p1 = copy_at (2 + packet_overhead) (to_be 2 idx) p0 in
    let p2 = copy_at (4 + packet_overhead) (to_be 8 m.msg_id) p1 in
    copy_at (packet_overhead + 10 + 2) (take fragsz (drop idx m.contents)) p2

abbrev pub send_before : Bytes → Outcome (List Bytes) → Outcome (List Bytes)
send_before p (done ps) = done (p ∷ ps)
send_before p out_of_range = out_of_range
send_before p unfinished = unfinished

abbrev pub unless_acked : Option Bool → Bytes → Outcome (List Bytes) → Outcome (List Bytes)
unless_acked none p rest = out_of_range
unless_acked (some true) p rest = rest
unless_acked (some false) p rest = send_before p rest

-- The loop of `FlushUnAcked`, over a 16-bit index.
unfoldable pub flush_from : Random → ℕ → OutboundMessage → ℕ → Outcome (List Bytes)
flush_from r zero m idx = unfinished
flush_from r (suc fuel) m idx =
    let rest = flush_from r fuel m ((idx + fragment_size) % 2 ^ 16) in
    if ltb idx (length m.contents)
    then unless_acked (get_elem? m.acks (idx / fragment_size)) (data_packet r m idx) rest
    else done []

-- `FlushUnAcked(sendpkt, now)`: the packets in the order sent, and the message after it
unfoldable pub flush_un_acked :
    Random → OutboundMessage → ℕ → OutboundMessage × Outcome (List Bytes)
flush_un_acked r m now = (record m { last_flush = now }, flush_from r 9 m 0)

-- `IsTransmitted()`
unfoldable pub is_transmitted : OutboundMessage → Outcome Bool
is_transmitted m = all_acked (2 ^ 16) (length m.contents) m.acks

-- `IsTimedOut(now)`
unfoldable pub is_timed_out : OutboundMessage → ℕ → Bool
is_timed_out m now = ltb m.started_at now && ltb delivery_timeout (now - m.started_at)
