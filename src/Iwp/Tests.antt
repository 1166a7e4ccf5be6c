-- ===== src/Iwp/Tests.antt =====
-- The theorems on llarp/iwp at concrete inputs: a message of two fragments, and a session that is
-- established.
use lokinet.Base.{
  ℕ, ◌*◌, ◌<◌, ◌≡◌, ◌↔◌, refl, true, some, [], ◌∷◌, arith, length, replicate, length-replicate,
  take, map, bytes_eq, nat_eq,
}
use lokinet.Base.Bytes.{Bytes}
use lokinet.Iwp.Acks.{done, fragments, bits_of}
use lokinet.Iwp.Inbound
use lokinet.Iwp.Inbound.{InboundMessage, is_completed, acks_bitmask}
use lokinet.Iwp.Outbound
use lokinet.Iwp.Outbound.{OutboundMessage, user, is_transmitted, ack, flush_un_acked, data_packet}
use lokinet.Iwp.Packet.{Random, fragment_size}
use lokinet.Iwp.Reassembly.{receive, receive-Reassembles, IsDelivered}
use lokinet.Iwp.Delivery.{is_transmitted-ack, flush_un_acked-missing, missing}

abbrev random : Random
random = record { randint = 7; randbytes = λ n. replicate n 9 }

-- A message of two fragments.
abbrev message : Bytes
message = replicate 1500 42

length-message : length message ≡ 1500
length-message = length-replicate {A = ℕ} 1500 42

receive-Reassembles_example :
    (m : InboundMessage) × (receive
        (Inbound.init 5 (length message) [] 10)
        message
        ((1, 11) ∷ (0, 12) ∷ (1, 13) ∷ [])
      ≡ done m)
    × ((is_completed m ≡ done true) ↔ (
        (k : ℕ)
        → k < fragments (length message)
        → IsDelivered k ((1, 11) ∷ (0, 12) ∷ (1, 13) ∷ [])))
    × (is_completed m ≡ done true → m.contents ≡ message)
receive-Reassembles_example =
    receive-Reassembles message [] 5 10 ((1, 11) ∷ (0, 12) ∷ (1, 13) ∷ [])
      (omega (arith, length-message))
      (
        omega (arith, length-message),
        (omega (arith, length-message), (omega (arith, length-message), tt)),
      )

-- Its buffer at the sender, and one at the receiver that has the first fragment.
abbrev outgoing : OutboundMessage
outgoing = Outbound.init (λ b. take 32 b) 5 message 10 (some (user 1))

abbrev incoming : InboundMessage
incoming = record {
  contents = message;
  digest = [];
  msg_id = 5;
  last_ack_sent = 0;
  last_active_at = 10;
  acks = bits_of 8 1;
}

is_transmitted-ack_example :
    is_transmitted (ack outgoing (acks_bitmask incoming)) ≡ is_completed incoming
unfolding Outbound.init bits_of
is_transmitted-ack_example =
    is_transmitted-ack outgoing incoming refl (omega (arith, length-message)) refl

flush_un_acked-missing_example : flush_un_acked random outgoing 20 ≡ (
  record outgoing { last_flush = 20 },
  done (
      map
        (λ k. data_packet random outgoing (fragment_size * k))
        (missing (fragments (length message)) 0 outgoing.acks)),
)
unfolding Outbound.init
flush_un_acked-missing_example =
    flush_un_acked-missing random outgoing (omega (arith, length-message)) refl 20
