-- ===== src/Iwp/Session/Tests.antt =====
-- The theorems on llarp/iwp/session.cpp at a session that is established, with a message of three
-- bytes on the way in and one on the way out.
use lokinet.Base.{
  ◌+◌, ◌≡◌, refl, true, false, none, some, [], ◌∷◌, ◌++◌, arith, length, replicate, take, drop,
  bytes_eq, nat_eq, not, ◌&&◌, inl, ℕ,
}
use lokinet.Base.Map.{find?}
use lokinet.Base.Bytes.{Bytes, word_at, to_be, of_be_from, copy_at}
use lokinet.Iwp.Acks.{Outcome, done, out_of_range, unfinished, all_acked_from, bits_of}
use lokinet.Iwp.Inbound
use lokinet.Iwp.Inbound.{InboundMessage}
use lokinet.Iwp.Outbound
use lokinet.Iwp.Outbound.{OutboundMessage, user, xmit}
use lokinet.Iwp.Packet.{Random, packet_overhead, command_overhead}
use lokinet.Iwp.Session.State.{initial, ready, Session, reneg_lim, inbound_lim, Env}
use lokinet.Iwp.Session.Receive.{handle_data, handle_xmit, handle_acks, ack_one, take_fragment}
use lokinet.Iwp.Session.Fresh.{IsFresh}
use lokinet.Iwp.Session.Expiry.{still, remembered, tick-replay_filter}
use lokinet.Iwp.Session.Once.{Continued, Begun, Once, handle_data-Once, handle_xmit-Once}
use lokinet.Base.{length-replicate}
use lokinet.Iwp.Session.Total.{
  AreSized, Returns, handle_data-Returns, handle_xmit-Returns, handle_data-out_of_range,
}
use lokinet.Iwp.Session.Acked.{Acked, ack_one-Acked, handle_acks-counts}
use lokinet.Iwp.Session.Macks.{handle_macks, ack_each, mack_packets-handle}
use lokinet.Iwp.Session.Send.{mack_packets}
use lokinet.Iwp.Session.Tick.{tick}
use lokinet.Iwp.Session.Crypt.{encrypt_packet, decrypt_message_in_place}
use lokinet.Iwp.Session.Sealed.{CipherLaws, decrypt-encrypt}
use lokinet.Iwp.Session.Reachable.{outbound, after, started, ticked, reachable-IsFresh}
use lokinet.Iwp.Session.Whole.{handle_xmit-xmit}
use lokinet.Iwp.Session.Frame.{deliveries}
use lokinet.Iwp.Session.Auth.{count_rx, is_initial, recv_ll-unauthentic}
use lokinet.Iwp.Session.Handshake.{recv_ll, new_outbound, start}

abbrev random : Random
random = record { randint = 7; randbytes = λ n. replicate n 9 }

-- A cipher that leaves the text as it is, and a keyed hash that only sees the length.
abbrev env : Env
env = record {
  now = 100;
  clock = 100;
  random = random;
  shorthash = λ b. take 32 (b ++ replicate 32 0);
  hmac = λ key b. replicate 32 (length b);
  xchacha20 = λ key nonce b. b;
  sign = λ b. replicate 64 0;
  verify = λ ident b sig. true;
  transport_dh_client = λ pk nonce. some (replicate 32 1);
  transport_dh_server = λ pk nonce. some (replicate 32 1);
  our_pubkey = replicate 32 2;
  our_encryption_pubkey = replicate 32 3;
  our_lim = some (1 ∷ 2 ∷ []);
  established_result = true;
  renegotiate_result = true;
}

abbrev incoming : InboundMessage
incoming = record {
  contents = 0 ∷ 0 ∷ 0 ∷ [];
  digest = 1 ∷ 2 ∷ 3 ∷ replicate 29 0;
  msg_id = 5;
  last_ack_sent = 0;
  last_active_at = 90;
  acks = replicate 8 false;
}

abbrev outgoing : OutboundMessage
outgoing = record {
  contents = 4 ∷ 5 ∷ [];
  msg_id = 6;
  acks = true ∷ replicate 7 false;
  completed = some (user 1);
  last_flush = 80;
  digest = replicate 32 0;
  started_at = 80;
}

abbrev session : Session
session = record {
  state = ready;
  stats = record {
    current_rate_rx = 0;
    current_rate_tx = 0;
    total_packets_rx = 3;
    total_acked_tx = 2;
    total_dropped_tx = 0;
    total_in_flight_tx = 1;
  };
  is_inbound = true;
  created_at = 10;
  chosen_pubkey = replicate 32 0;
  remote_pubkey = replicate 32 8;
  remote_is_public_router = true;
  session_key = replicate 32 1;
  token = replicate 24 9;
  expected_ident = replicate 32 8;
  remote_onion_key = replicate 32 7;
  got_lim = reneg_lim;
  last_tx = 80;
  last_rx = 90;
  tx_rate = 0;
  rx_rate = 0;
  reset_rates_at = 1000;
  tx_id = 7;
  rx_msgs = (5, incoming) ∷ [];
  tx_msgs = (6, outgoing) ∷ [];
  replay_filter = (3, 50) ∷ [];
  send_macks = [];
  encrypt_next = [];
  decrypt_next = [];
  plaintext_recv = [];
  jobs = [];
  events = [];
}

session-IsFresh : IsFresh session
unfolding find?
session-IsFresh = record {
  keyed = λ j n h. ground arith;
  apart = λ j n h. ground arith;
  distinct = (refl, tt);
}

abbrev or_same : Outcome Session → Session
or_same (done t) = t
or_same out_of_range = session
or_same unfinished = session

abbrev head : Bytes
head = replicate 66 0

-- The fragment that completes the incoming message.
abbrev data_pkt : Bytes
data_pkt = head ++ to_be 2 0 ++ to_be 8 5 ++ 1 ∷ 2 ∷ 3 ∷ []

handle_data-Once_example :
    Once env session
      (word_at 8 (command_overhead + 2 + packet_overhead) data_pkt)
      (Continued env session data_pkt)
      (or_same (handle_data env data_pkt session))
unfolding handle_data to_be find? of_be_from Inbound.handle_data Inbound.is_completed all_acked_from
    copy_at
handle_data-Once_example =
    handle_data-Once env data_pkt session (or_same (handle_data env data_pkt session))
      session-IsFresh refl

-- A new message of two bytes, whole.
abbrev xmit_pkt : Bytes
xmit_pkt = head ++ to_be 2 2 ++ to_be 8 9 ++ (1 ∷ 2 ∷ replicate 30 0) ++ 1 ∷ 2 ∷ []

handle_xmit-Once_example :
    Once env session
      (word_at 8 (command_overhead + packet_overhead + 2) xmit_pkt)
      (Begun env xmit_pkt)
      (or_same (handle_xmit env xmit_pkt session))
unfolding handle_xmit to_be find? of_be_from take_fragment Inbound.handle_data Inbound.init
    Inbound.is_completed all_acked_from copy_at
handle_xmit-Once_example =
    handle_xmit-Once env xmit_pkt session (or_same (handle_xmit env xmit_pkt session))
      session-IsFresh refl

ack_one-Acked_example : Acked 6 session (ack_one 6 session)
ack_one-Acked_example = ack_one-Acked 6 session

abbrev acks_pkt : Bytes
acks_pkt = head ++ to_be 8 6 ++ 1 ∷ []

handle_acks-counts_example :
    (t : Session) × (handle_acks env acks_pkt session ≡ done t)
    × (find? (word_at 8 (2 + packet_overhead) acks_pkt) t.tx_msgs ≡ none)
    × (t.stats ≡ session.stats)
unfolding to_be find? of_be_from Outbound.is_transmitted all_acked_from Outbound.ack bits_of
handle_acks-counts_example =
    handle_acks-counts env acks_pkt session outgoing (omega arith) refl refl

mack_packets-handle_example :
    ((mack_packets random 2 (6 ∷ 8 ∷ [])).1 ≡ [])
    × (handle_macks env (mack_packets random 2 (6 ∷ 8 ∷ [])).0 session
        ≡ ack_each (6 ∷ 8 ∷ []) session)
mack_packets-handle_example =
    mack_packets-handle env random 2 (6 ∷ 8 ∷ []) session (omega arith)
      (omega arith, (omega arith, tt))

tick-replay_filter_example :
    (find? 5 (tick 700 session).rx_msgs ≡ still 700 (some incoming))
    × (find? 5 (tick 700 session).replay_filter ≡ remembered 700 (some incoming) none)
unfolding find?
tick-replay_filter_example = tick-replay_filter 700 5 session session-IsFresh (refl, tt)

env-CipherLaws : CipherLaws env
env-CipherLaws = record {
  xchacha20-xchacha20 = λ key nonce x. refl;
  length-xchacha20 = λ key nonce x. refl;
  length-hmac = λ key x. refl;
}

decrypt-encrypt_example :
    (plain : Bytes) × (decrypt_message_in_place env
        (replicate 32 1)
        (encrypt_packet env (replicate 32 1) data_pkt)
      ≡ some plain)
    × (drop packet_overhead plain ≡ drop packet_overhead data_pkt)
decrypt-encrypt_example = decrypt-encrypt env env-CipherLaws (replicate 32 1) data_pkt (omega arith)

-- A session that waits for the first packet, and a packet whose hash is wrong.
abbrev waiting : Session
waiting = record session { state = initial; got_lim = inbound_lim }

recv_ll-unauthentic_example :
    recv_ll env data_pkt waiting
    ≡ done (count_rx data_pkt waiting, not (is_initial initial && true))
unfolding decrypt_message_in_place to_be
recv_ll-unauthentic_example = recv_ll-unauthentic env data_pkt waiting (inl refl) refl

session-AreSized : AreSized session.rx_msgs
unfolding find?
session-AreSized = λ j n h. ground arith

handle_data-Returns_example : Returns (handle_data env data_pkt session)
unfolding to_be of_be_from
handle_data-Returns_example =
    handle_data-Returns env data_pkt session session-AreSized (omega arith)

handle_xmit-Returns_example : Returns (handle_xmit env xmit_pkt session)
unfolding to_be of_be_from
handle_xmit-Returns_example =
    handle_xmit-Returns env xmit_pkt session session-AreSized (omega arith)

-- A message of the greatest size, and an empty fragment at its end.
abbrev large : InboundMessage
large = record incoming { contents = replicate 8192 0 }

abbrev end_pkt : Bytes
end_pkt = head ++ to_be 2 8192 ++ to_be 8 5

handle_data-out_of_range_example :
    handle_data env end_pkt (record session { rx_msgs = (5, large) ∷ [] }) ≡ out_of_range
unfolding to_be of_be_from find?
handle_data-out_of_range_example =
    handle_data-out_of_range env end_pkt (record session { rx_msgs = (5, large) ∷ [] }) large
      (omega arith) refl refl (omega arith) (omega (arith, length-replicate {A = ℕ} 8192 0))

-- A session to a router: it sends its intro, and a timer runs.
abbrev dialed : Session
dialed = new_outbound env (replicate 32 4) true (replicate 32 5)

reachable-IsFresh_example : IsFresh (tick 700 (start env dialed))
reachable-IsFresh_example = reachable-IsFresh (
    after (after (outbound env (replicate 32 4) true (replicate 32 5)) (started env dialed))
      (ticked 700 (start env dialed)))

-- A message with the hash of its two bytes.
abbrev letter : OutboundMessage
letter = record outgoing { msg_id = 9; digest = 4 ∷ 5 ∷ replicate 30 0 }

handle_xmit-xmit_example :
    (t : Session) × (handle_xmit env (xmit random letter) session ≡ done t)
    × (deliveries t.events ≡ deliveries session.events ++ (4 ∷ 5 ∷ []) ∷ [])
unfolding find?
handle_xmit-xmit_example =
    handle_xmit-xmit random letter (omega arith) (omega arith) refl env session (omega arith) refl
      refl refl
