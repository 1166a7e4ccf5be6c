-- ===== src/Iwp/Session/State.antt =====
-- The members of `Session` (llarp/iwp/session.hpp), `SessionStats` (llarp/link/session.hpp), and what
-- a session reads of its link layer, the clock and the crypto library. Maps are association lists in
-- the order of insertion, which for `m_TXMsgs` is the order of the ids.
use lokinet.Base.{
  ℕ, ◌+◌, ◌-◌, ◌%◌, ◌^◌, Bool, true, false, Option, none, some, List, [], ◌∷◌, ◌++◌, bytes_eq,
}
use lokinet.Base.Bytes.{Bytes}
use lokinet.Iwp.Inbound.{InboundMessage}
use lokinet.Iwp.Outbound.{
  OutboundMessage, Handler, user, lim_sent, DeliveryStatus, delivery_success, delivery_dropped,
}
use lokinet.Iwp.Packet.{Random}

pub data State : Type 0 where
  initial introduction link_intro ready closed : State

pub record SessionStats : Type 0 where
  pub current_rate_rx : ℕ
  pub current_rate_tx : ℕ
  pub total_packets_rx : ℕ
  pub total_acked_tx : ℕ
  pub total_dropped_tx : ℕ
  pub total_in_flight_tx : ℕ

-- Which handler `GotLIM` holds.
pub data LimHandler : Type 0 where
  inbound_lim outbound_lim reneg_lim : LimHandler

-- What a session tells the outside: datagrams, and calls of its link layer and of completion
-- handlers, in order.
pub data Event : Type 0 where
  sent : Bytes → Event
  handle_message : Bytes → Event
  handler_called : ℕ → DeliveryStatus → Event
  map_addr : Bytes → Event
  unmap_addr : Event
  session_established : Bool → Event
  session_renegotiate : Bytes → Event
  add_wakeup : Event
  wakeup_plaintext : Event

-- What `QueueWork` was given.
pub data Job : Type 0 where
  encrypt_job : List Bytes → Job
  decrypt_job : List Bytes → Job

pub record Session : Type 0 where
  pub state : State
  pub stats : SessionStats
  pub is_inbound : Bool
  pub created_at : ℕ
  pub chosen_pubkey : Bytes
  pub remote_pubkey : Bytes
  pub remote_is_public_router : Bool
  pub session_key : Bytes
  pub token : Bytes
  pub expected_ident : Bytes
  pub remote_onion_key : Bytes
  pub got_lim : LimHandler
  pub last_tx : ℕ
  pub last_rx : ℕ
  pub tx_rate : ℕ
  pub rx_rate : ℕ
  pub reset_rates_at : ℕ
  pub tx_id : ℕ
  pub rx_msgs : List (ℕ × InboundMessage)
  pub tx_msgs : List (ℕ × OutboundMessage)
  pub replay_filter : List (ℕ × ℕ)
  pub send_macks : List ℕ
  pub encrypt_next : List Bytes
  pub decrypt_next : List Bytes
  pub plaintext_recv : List (List Bytes)
  pub jobs : List Job
  pub events : List Event

-- What one call reads: `m_Parent->Now()`, `time_now_ms()`, the random source, the crypto library, the
-- router's own keys and its link intro message (none where signing it fails).
pub record Env : Type 0 where
  pub now : ℕ
  pub clock : ℕ
  pub random : Random
  pub shorthash : Bytes → Bytes
  pub hmac : Bytes → Bytes → Bytes
  pub xchacha20 : Bytes → Bytes → Bytes → Bytes
  pub sign : Bytes → Bytes
  pub verify : Bytes → Bytes → Bytes → Bool
  pub transport_dh_client : Bytes → Bytes → Option Bytes
  pub transport_dh_server : Bytes → Bytes → Option Bytes
  pub our_pubkey : Bytes
  pub our_encryption_pubkey : Bytes
  pub our_lim : Option Bytes
  pub established_result : Bool
  pub renegotiate_result : Bool

abbrev pub u64 : ℕ → ℕ
u64 x = x % 2 ^ 64

-- `x--` on a 64-bit counter
abbrev pub u64_pred : ℕ → ℕ
u64_pred x = (x + 2 ^ 64 - 1) % 2 ^ 64

abbrev pub emit : Event → Session → Session
emit e s = record s { events = s.events ++ e ∷ [] }

-- `IsEstablished()`
unfoldable pub is_established : State → Bool
is_established ready = true
is_established initial = false
is_established introduction = false
is_established link_intro = false
is_established closed = false

-- A completion handler runs. That of `GotOutboundLIM` makes the session ready.
unfoldable pub run_handler : Option (Handler × DeliveryStatus) → Session → Session
run_handler none s = s
run_handler (some (user h, st)) s = emit (handler_called h st) s
run_handler (some (lim_sent, delivery_success)) s =
    emit (session_established false) (emit (map_addr s.remote_pubkey) (record s { state = ready }))
run_handler (some (lim_sent, delivery_dropped)) s = s
