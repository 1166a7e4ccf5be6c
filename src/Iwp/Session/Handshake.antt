-- ===== src/Iwp/Session/Handshake.antt =====
-- The handshake of llarp/iwp/session.cpp: the constructors, the LIM handlers, the intro messages,
-- `Start` and `Recv_LL`.
use lokinet.Base.{
  ℕ, ◌+◌, ◌-◌, Bool, true, false, not, Option, none, some, [], ◌∷◌, ◌++◌, ltb, if◌then◌else◌,
  length, take, drop, replicate, bytes_eq,
}
use lokinet.Base.Bytes.{Bytes, copy_at}
use lokinet.Iwp.Acks.{and_then, Outcome, done}
use lokinet.Iwp.Outbound.{Handler, lim_sent}
use lokinet.Iwp.Packet.{packet_overhead, hmac_size, tun_nonce_size}
use lokinet.Iwp.Session.State.{
  Session, SessionStats, Env, State, initial, introduction, link_intro, ready, closed, LimHandler,
  inbound_lim, outbound_lim, reneg_lim, emit, map_addr, session_established, session_renegotiate,
  u64,
}
use lokinet.Iwp.Session.Crypt.{encrypt_and_send, decrypt_message_in_place}
use lokinet.Iwp.Session.Send.{send_message_buffer}

abbrev pub token_size : ℕ
token_size = 24

abbrev pub pubkey_size : ℕ
pubkey_size = 32

abbrev pub signature_size : ℕ
signature_size = 64

abbrev pub introduction_size : ℕ
introduction_size = pubkey_size + pubkey_size + tun_nonce_size + signature_size

abbrev no_stats : SessionStats
no_stats = record {
  current_rate_rx = 0;
  current_rate_tx = 0;
  total_packets_rx = 0;
  total_acked_tx = 0;
  total_dropped_tx = 0;
  total_in_flight_tx = 0;
}

abbrev blank : Env → Bool → Bytes → LimHandler → Bytes → Bytes → Bytes → Bool → Session
blank env inbound token lim key chosen pubkey public = record {
  state = initial;
  stats = no_stats;
  is_inbound = inbound;
  created_at = env.now;
  chosen_pubkey = chosen;
  remote_pubkey = pubkey;
  remote_is_public_router = public;
  session_key = key;
  token = token;
  expected_ident = replicate 32 0;
  remote_onion_key = replicate 32 0;
  got_lim = lim;
  last_tx = 0;
  last_rx = 0;
  tx_rate = 0;
  rx_rate = 0;
  reset_rates_at = 0;
  tx_id = 0;
  rx_msgs = [];
  tx_msgs = [];
  replay_filter = [];
  send_macks = [];
  encrypt_next = [];
  decrypt_next = [];
  plaintext_recv = [];
  jobs = [];
  events = [];
}

-- `Session(p, rc, ai)`: the key begins as the hash of the remote router's identity.
unfoldable pub new_outbound : Env → Bytes → Bool → Bytes → Session
new_outbound env rc_pubkey rc_public ai_pubkey =
    blank env false (replicate token_size 0) outbound_lim (env.shorthash rc_pubkey) ai_pubkey
      rc_pubkey rc_public

-- `Session(p, from)`
unfoldable pub new_inbound : Env → Session
new_inbound env =
    blank env true (env.random.randbytes token_size) inbound_lim (env.shorthash env.our_pubkey)
      (replicate 32 0) (replicate 32 0) false

-- `SendOurLIM(h)`; a message that the queue refuses is only logged.
unfoldable pub send_our_lim : Env → Option Handler → Session → Outcome Session
send_our_lim env h s = elim env.our_lim [
  | none ↦ done s
  | some lim ↦ and_then (send_message_buffer env lim h s) (λ r. done r.0)
]

-- `GotInboundLIM`, `GotOutboundLIM` and `GotRenegLIM`, on the router key that the message carries
unfoldable pub got_lim_from : LimHandler → Env → Bytes → Bool → Session → Outcome (Session × Bool)
got_lim_from inbound_lim env pk public s =
    if not (bytes_eq.beq pk s.expected_ident)
    then done (s, false)
    else done (
      emit (session_established true) (
          emit (map_addr pk) (record s {
            state = ready;
            got_lim = reneg_lim;
            remote_pubkey = pk;
            remote_is_public_router = public;
          })),
      env.established_result,
    )
got_lim_from outbound_lim env pk public s =
    if not (bytes_eq.beq pk s.remote_pubkey)
    then done (s, false)
    else and_then
        (send_our_lim env (some lim_sent)
          (record s { remote_pubkey = pk; remote_is_public_router = public; got_lim = reneg_lim }))
        (λ s'. done (s', true))
got_lim_from reneg_lim env pk public s =
    done (emit (session_renegotiate pk) s, env.renegotiate_result)

unfoldable pub got_lim : Env → Bytes → Bool → Session → Outcome (Session × Bool)
unfolding got_lim_from
got_lim env pk public s = got_lim_from s.got_lim env pk public s

-- `RenegotiateSession()`
unfoldable pub renegotiate_session : Env → Session → Outcome (Session × Bool)
renegotiate_session env s = and_then (send_our_lim env none s) (λ s'. done (s', true))

-- The intro packet of `GenerateAndSendIntro`, before it is encrypted.
unfoldable pub intro_packet : Env → Bytes → Bytes
intro_packet env nonce =
    let p0 : Bytes = replicate (introduction_size + packet_overhead) 0 in
    let p1 = copy_at packet_overhead env.our_pubkey p0 in
    let p2 = copy_at (packet_overhead + pubkey_size) env.our_encryption_pubkey p1 in
    let p3 = copy_at (packet_overhead + pubkey_size + pubkey_size) nonce p2 in
    let signed = take (introduction_size - signature_size) (drop packet_overhead p3) in
    let p4 =
      copy_at (packet_overhead + (introduction_size - signature_size)) (env.sign signed) p3 in
    copy_at hmac_size (env.random.randbytes tun_nonce_size) p4

-- `GenerateAndSendIntro()`: the key changes after the packet is sent.
unfoldable pub generate_and_send_intro : Env → Session → Session
unfolding intro_packet
generate_and_send_intro env s =
    let nonce = env.random.randbytes tun_nonce_size in
    let s1 = record (encrypt_and_send env (intro_packet env nonce) s) { state = introduction } in
    elim (env.transport_dh_client s1.chosen_pubkey nonce) [
      | none ↦ s1
      | some key ↦ record s1 { session_key = key }
    ]

-- `Start()`
unfoldable pub start : Env → Session → Session
unfolding generate_and_send_intro
start env s = if s.is_inbound then s else generate_and_send_intro env s

abbrev pub token_packet : Env → Bytes → Bytes
token_packet env token = copy_at packet_overhead token (
    copy_at hmac_size (env.random.randbytes tun_nonce_size)
      (replicate (token_size + packet_overhead) 0))

-- `HandleGotIntro(pkt)`, on a decrypted packet
unfoldable pub handle_got_intro : Env → Bytes → Session → Session
handle_got_intro env pkt s =
    let body = drop packet_overhead pkt in
    let ident = take pubkey_size body in
    let onion = take pubkey_size (drop pubkey_size body) in
    let nonce = take tun_nonce_size (drop (pubkey_size + pubkey_size) body) in
    let sig = take signature_size (drop (pubkey_size + pubkey_size + tun_nonce_size) body) in
    let s1 = record s { expected_ident = ident; remote_onion_key = onion } in
    if ltb (length pkt) (introduction_size + packet_overhead)
    then s
    else if not (env.verify ident (take (introduction_size - signature_size) body) sig)
    then s1
    else elim (env.transport_dh_server onion nonce) [
      | none ↦ s1
      | some key ↦
          record (encrypt_and_send env (token_packet env s1.token)
            (record s1 { session_key = key; last_rx = env.now })) { state = introduction }
    ]

-- `HandleGotIntroAck(pkt)`
unfoldable pub handle_got_intro_ack : Env → Bytes → Session → Session
handle_got_intro_ack env pkt s =
    if ltb (length pkt) (token_size + packet_overhead)
    then s
    else elim (decrypt_message_in_place env s.session_key pkt) [
      | none ↦ s
      | some plain ↦
          let token = take token_size (drop packet_overhead plain) in
          record (encrypt_and_send env (token_packet env token)
            (record s { last_rx = env.now; token = token })) { state = link_intro }
    ]

-- `HandleCreateSessionRequest(pkt)`
unfoldable pub handle_create_session_request : Env → Bytes → Session → Outcome Session
handle_create_session_request env pkt s = elim (decrypt_message_in_place env s.session_key pkt) [
  | none ↦ done s
  | some plain ↦
      if ltb (length plain) (token_size + packet_overhead)
      then done s
      else if not (bytes_eq.beq (take token_size (drop packet_overhead plain)) s.token)
      then done s
      else send_our_lim env none (record s { last_rx = env.now; state = link_intro })
]

-- `HandleSessionData(pkt)`
unfoldable pub handle_session_data : Bytes → Session → Session
handle_session_data pkt s = record s { decrypt_next = s.decrypt_next ++ pkt ∷ [] }

-- The switch of `Recv_LL`, on the state
unfoldable pub recv_in : State → Env → Bytes → Session → Outcome (Session × Bool)
recv_in initial env pkt s =
    if not s.is_inbound
    then done (s, true)
    else elim (decrypt_message_in_place env s.session_key pkt) [
      | none ↦ done (s, false)
      | some plain ↦ done (handle_got_intro env plain s, true)
    ]
recv_in introduction env pkt s =
    if s.is_inbound
    then and_then (handle_create_session_request env pkt s) (λ s'. done (s', true))
    else done (handle_got_intro_ack env pkt s, true)
recv_in link_intro env pkt s = done (handle_session_data pkt s, true)
recv_in ready env pkt s = done (handle_session_data pkt s, true)
recv_in closed env pkt s = done (handle_session_data pkt s, true)

-- `Recv_LL(data)`
unfoldable pub recv_ll : Env → Bytes → Session → Outcome (Session × Bool)
unfolding recv_in handle_session_data
recv_ll env pkt s = recv_in s.state env pkt (record s {
  rx_rate = u64 (s.rx_rate + length pkt);
  stats = record s.stats { total_packets_rx = u64 (s.stats.total_packets_rx + 1) };
})
