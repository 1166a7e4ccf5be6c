-- ===== src/Iwp/Packet.antt =====
-- llarp/iwp/session.cpp `CreatePacket`, and the constants of llarp/iwp/message_buffer.hpp,
-- llarp/iwp/session.hpp and llarp/constants/link_layer.hpp. Times are milliseconds.
use lokinet.Base.{
  refl, ℕ, ◌+◌, ◌*◌, ◌/◌, ◌%◌, ltb, if◌then◌else◌, replicate, set, length, ◌≡◌, arith, length-set,
  ◌∙◌, length-replicate,
}
use lokinet.Base.Bytes.{Bytes, copy_at, length-copy_at}

pub data Command : Type 0 where
  ping xmit data_ acks nack mack clos : Command

unfoldable pub command_byte : Command → ℕ
command_byte Command.ping = 0
command_byte Command.xmit = 1
command_byte Command.data_ = 2
command_byte Command.acks = 3
command_byte Command.nack = 4
command_byte Command.mack = 5
command_byte Command.clos = 0xff

abbrev pub fragment_size : ℕ
fragment_size = 1024

abbrev pub command_overhead : ℕ
command_overhead = 2

abbrev pub hmac_size : ℕ
hmac_size = 32

abbrev pub tun_nonce_size : ℕ
tun_nonce_size = 32

abbrev pub packet_overhead : ℕ
packet_overhead = hmac_size + tun_nonce_size

abbrev pub max_link_msg_size : ℕ
max_link_msg_size = 8192

abbrev pub proto_version : ℕ
proto_version = 0

abbrev pub delivery_timeout : ℕ
delivery_timeout = 500

abbrev pub receival_timeout : ℕ
receival_timeout = delivery_timeout * 8 / 5

abbrev pub replay_window : ℕ
replay_window = receival_timeout * 3 / 2

abbrev pub ack_resend_interval : ℕ
ack_resend_interval = delivery_timeout / 2

abbrev pub tx_flush_interval : ℕ
tx_flush_interval = delivery_timeout / 5 * 4

abbrev pub ping_interval : ℕ
ping_interval = 5000

abbrev pub session_alive_timeout : ℕ
session_alive_timeout = ping_interval * 5

abbrev pub default_link_session_lifetime : ℕ
default_link_session_lifetime = 300000

abbrev pub link_layer_connect_timeout : ℕ
link_layer_connect_timeout = 5000

abbrev pub max_send_queue_size : ℕ
max_send_queue_size = 1024 * 16

-- The random source: `randint`, and `randbytes` as the bytes it yields for a length.
pub record Random : Type 0 where
  pub randint : ℕ
  pub randbytes : ℕ → Bytes

unfoldable pub pad_size : Random → ℕ → ℕ → ℕ
pad_size r minpad variance =
    if ltb 0 minpad then minpad + (if ltb 0 variance then r.randint % variance else 0) else 0

-- `if (pad) randbytes(pkt.data() + off, pad)`
randomize_pad : Random → ℕ → ℕ → Bytes → Bytes
randomize_pad r off pad pkt = if ltb 0 pad then copy_at off (r.randbytes pad) pkt else pkt

-- The bytes of a packet, the header included.
unfoldable pub create_packet : Random → Command → ℕ → ℕ → ℕ → Bytes
unfolding pad_size command_byte randomize_pad
create_packet r cmd plainsize minpad variance =
    let pad = pad_size r minpad variance in
    let blank : Bytes = replicate (packet_overhead + plainsize + pad + command_overhead) 0 in
    let padded = randomize_pad r (packet_overhead + command_overhead + plainsize) pad blank in
    let nonced = copy_at hmac_size (r.randbytes tun_nonce_size) padded in
    set (set nonced packet_overhead proto_version) (packet_overhead + 1) (command_byte cmd)

length-randomize_pad :
    (r : Random) (off pad : ℕ) (pkt : Bytes) → length (randomize_pad r off pad pkt) ≡ length pkt
unfolding randomize_pad
length-randomize_pad r off pad pkt = ground (arith, length-copy_at off (r.randbytes pad) pkt)

pub pad_size-zero : (r : Random) (variance : ℕ) → pad_size r 0 variance ≡ 0
unfolding pad_size
pad_size-zero r variance = refl

pub length-create_packet :
    (r : Random) (c : Command) (n minpad variance : ℕ)
    → length (create_packet r c n minpad variance)
      ≡ packet_overhead + n + pad_size r minpad variance + command_overhead
unfolding create_packet
length-create_packet r c n minpad variance =
    length-set _ (packet_overhead + 1) (command_byte c)
    ∙ length-set _ packet_overhead proto_version
    ∙ length-copy_at hmac_size _ _
    ∙ length-randomize_pad r _ _ _
    ∙ length-replicate _ 0
