-- ===== src/Iwp/Inbound.antt =====
-- `InboundMessage` of llarp/iwp/message_buffer.hpp and .cpp. Times are milliseconds since the
-- epoch; a fragment that the bitset cannot hold is the exception of `std::bitset::set`.
use lokinet.Base.{
  ℕ, ◌+◌, ◌-◌, ◌/◌, ◌%◌, ◌^◌, Bool, ◌&&◌, ltb, if◌then◌else◌, length, replicate, set, Eq,
}
use lokinet.Base.Bytes.{Bytes, copy_at, to_be}
use lokinet.Iwp.Acks.{Acks, no_acks, Outcome, done, out_of_range, set_bit, to_ulong, all_acked}
use lokinet.Iwp.Packet.{
  Random, Command, create_packet, packet_overhead, command_overhead, fragment_size,
  delivery_timeout, ack_resend_interval,
}

pub record InboundMessage : Type 0 where
  pub contents : Bytes
  pub digest : Bytes
  pub msg_id : ℕ
  pub last_ack_sent : ℕ
  pub last_active_at : ℕ
  pub acks : Acks

-- the constructor
unfoldable pub init : ℕ → ℕ → Bytes → ℕ → InboundMessage
init msgid sz h now = record {
  contents = replicate sz 0;
  digest = h;
  msg_id = msgid;
  last_ack_sent = 0;
  last_active_at = now;
  acks = no_acks;
}

abbrev store : InboundMessage → Bytes → ℕ → Outcome Acks → Outcome InboundMessage
store m contents now (done acks) =
    done (record m { contents = contents; acks = acks; last_active_at = now })
store m contents now out_of_range = out_of_range
store m contents now Outcome.unfinished = Outcome.unfinished

-- `HandleData(idx, buf, now)`: a fragment that would end behind the message is dropped.
unfoldable pub handle_data : InboundMessage → ℕ → Bytes → ℕ → Outcome InboundMessage
unfolding set_bit
handle_data m idx buf now =
    if ltb (length m.contents) (idx + length buf)
    then done m
    else store m (copy_at idx buf m.contents) now (set_bit m.acks (idx / fragment_size))

-- `AcksBitmask()`
unfoldable pub acks_bitmask : InboundMessage → ℕ
acks_bitmask m = to_ulong m.acks % 256

-- `ACKS()`
unfoldable pub acks_packet : Random → InboundMessage → Bytes
acks_packet r m =
    set
      (copy_at (command_overhead + packet_overhead) (to_be 8 m.msg_id)
        (create_packet r Command.acks 9 16 16))
      (packet_overhead + 10) (acks_bitmask m)

-- `IsCompleted()`
unfoldable pub is_completed : InboundMessage → Outcome Bool
is_completed m = all_acked (2 ^ 64) (length m.contents) m.acks

-- `ShouldSendACKS(now)`
unfoldable pub should_send_acks : InboundMessage → ℕ → Bool
should_send_acks m now = ltb (m.last_ack_sent + ack_resend_interval) now

-- `IsTimedOut(now)`
unfoldable pub is_timed_out : InboundMessage → ℕ → Bool
is_timed_out m now = ltb m.last_active_at now && ltb delivery_timeout (now - m.last_active_at)

-- `SendACKS(sendpkt, now)`: the packet that is sent, and the message after it
unfoldable pub send_acks : Random → InboundMessage → ℕ → InboundMessage × Bytes
send_acks r m now = (record m { last_ack_sent = now }, acks_packet r m)

-- `Verify()`, over the hash of the crypto library
unfoldable pub verify : ⦃e : Eq Bytes⦄ → (Bytes → Bytes) → InboundMessage → Bool
verify ⦃e⦄ shorthash m = e.beq (shorthash m.contents) m.digest
