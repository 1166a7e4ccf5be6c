-- ===== src/Iwp/Session/Opening.antt =====
-- The intro packets of llarp/iwp/session.cpp leave the messages under way and the replay filter as they
-- are.
use lokinet.Base.{
  ◌+◌, ◌≡◌, refl, Bool, true, false, not, Option, none, some, Bool-cases, Option-cases, inl, inr,
  length, drop, take, ltb, if◌then◌else◌, nat_eq, bytes_eq, ◌-◌,
}
use lokinet.Base.Bytes.{Bytes}
use lokinet.Iwp.Acks.{done, and_then, and_then-eq-done, done-injective}
use lokinet.Iwp.Packet.{packet_overhead, tun_nonce_size}
use lokinet.Iwp.Session.State.{
  Session, State, initial, introduction, link_intro, ready, closed, Env, u64,
}
use lokinet.Iwp.Session.Crypt.{encrypt_and_send, decrypt_message_in_place}
use lokinet.Iwp.Session.Frame.{Kept, encrypt_and_send-Kept}
use lokinet.Iwp.Session.Handshake.{
  send_our_lim, generate_and_send_intro, intro_packet, start, token_packet, handle_got_intro,
  handle_got_intro_ack, handle_create_session_request, handle_session_data, recv_in, recv_ll,
  introduction_size, token_size, signature_size, pubkey_size,
}
use lokinet.Iwp.Session.Untouched.{SameRx, SameRx-refl}
use lokinet.Iwp.Session.Lims.{send_our_lim-SameRx}

if_SameRx : {s x y : Session} (b : Bool) → SameRx s x → SameRx s y → SameRx s (if b then x else y)
if_SameRx true p q = p
if_SameRx false p q = q

generate_and_send_intro-SameRx :
    (env : Env) (s : Session) → SameRx s (generate_and_send_intro env s)
unfolding generate_and_send_intro
generate_and_send_intro-SameRx env s = agreed (env.transport_dh_client s1.chosen_pubkey nonce)
  where
    nonce : Bytes
    nonce = env.random.randbytes tun_nonce_size

    s1 : Session
    s1 = record (encrypt_and_send env (intro_packet env nonce) s) { state = introduction }

    k : Kept s (encrypt_and_send env (intro_packet env nonce) s)
    k = encrypt_and_send-Kept env (intro_packet env nonce) s

    agreed :
        (o : Option Bytes)
        → SameRx s (elim o [ none ↦ s1 | some key ↦ record s1 { session_key = key } ])
    agreed none = record { rx = k.rx; filter = k.filter }
    agreed (some key) = record { rx = k.rx; filter = k.filter }

pub start-SameRx : (env : Env) (s : Session) → SameRx s (start env s)
unfolding start
start-SameRx env s = if_SameRx s.is_inbound (SameRx-refl s) (generate_and_send_intro-SameRx env s)

handle_got_intro-SameRx :
    (env : Env) (pkt : Bytes) (s : Session) → SameRx s (handle_got_intro env pkt s)
unfolding handle_got_intro
handle_got_intro-SameRx env pkt s =
    if_SameRx (ltb (length pkt) (introduction_size + packet_overhead)) (SameRx-refl s) (
      if_SameRx (not (env.verify ident (take (introduction_size - signature_size) body) sig)) same
        (agreed (env.transport_dh_server onion nonce)))
  where
    body : Bytes
    body = drop packet_overhead pkt

    ident : Bytes
    ident = take pubkey_size body

    onion : Bytes
    onion = take pubkey_size (drop pubkey_size body)

    nonce : Bytes
    nonce = take tun_nonce_size (drop (pubkey_size + pubkey_size) body)

    sig : Bytes
    sig = take signature_size (drop (pubkey_size + pubkey_size + tun_nonce_size) body)

    s1 : Session
    s1 = record s { expected_ident = ident; remote_onion_key = onion }

    same : SameRx s s1
    same = record { rx = refl; filter = refl }

    agreed :
        (o : Option Bytes)
        → SameRx s (elim o [
          | none ↦ s1
          | some key ↦
              record (encrypt_and_send env
                (token_packet env s1.token)
                (record s1 { session_key = key; last_rx = env.now })) { state = introduction }
        ])
    agreed none = same
    agreed (some key) =
        let k =
          encrypt_and_send-Kept env (token_packet env s1.token)
            (record s1 { session_key = key; last_rx = env.now }) in
        record { rx = k.rx; filter = k.filter }

handle_got_intro_ack-SameRx :
    (env : Env) (pkt : Bytes) (s : Session) → SameRx s (handle_got_intro_ack env pkt s)
unfolding handle_got_intro_ack
handle_got_intro_ack-SameRx env pkt s =
    if_SameRx (ltb (length pkt) (token_size + packet_overhead)) (SameRx-refl s)
      (opened (decrypt_message_in_place env s.session_key pkt))
  where
    opened :
        (o : Option Bytes)
        → SameRx s (elim o [
          | none ↦ s
          | some plain ↦
              record (encrypt_and_send env
                (token_packet env (take token_size (drop packet_overhead plain)))
                (record s {
                  last_rx = env.now;
                  token = take token_size (drop packet_overhead plain);
                })) { state = link_intro }
        ])
    opened none = SameRx-refl s
    opened (some plain) =
        let token = take token_size (drop packet_overhead plain) in
        let k =
          encrypt_and_send-Kept env (token_packet env token)
            (record s { last_rx = env.now; token = token }) in
        record { rx = k.rx; filter = k.filter }

handle_create_session_request-SameRx :
    (env : Env) (pkt : Bytes) (s t : Session)
    → handle_create_session_request env pkt s ≡ done t
    → SameRx s t
unfolding handle_create_session_request
handle_create_session_request-SameRx env pkt s t e =
    elim (Option-cases (decrypt_message_in_place env s.session_key pkt)) [
      | inl f ↦ rw (← done-injective (rw (f, handle_create_session_request) at e)) (SameRx-refl s)
      | inr (plain, f) ↦ opened plain (rw (f, handle_create_session_request) at e)
    ]
  where
    asked : Session
    asked = record s { last_rx = env.now; state = link_intro }

    opened :
        (plain : Bytes)
        → (if ltb (length plain) (token_size + packet_overhead)
            then done s
            else if not (bytes_eq.beq (take token_size (drop packet_overhead plain)) s.token)
            then done s
            else send_our_lim env none asked)
          ≡ done t
        → SameRx s t
    opened plain q = elim (Bool-cases (ltb (length plain) (token_size + packet_overhead))) [
      | inl f ↦ let same : s ≡ t = done-injective (rw f at q) in rw (← same) (SameRx-refl s)
      | inr f ↦
          elim (Bool-cases
            (not (bytes_eq.beq (take token_size (drop packet_overhead plain)) s.token))) [
              | inl g ↦
                  let same : s ≡ t = done-injective (rw (f, g) at q) in rw (← same) (SameRx-refl s)
              | inr g ↦
                  let k = send_our_lim-SameRx env none asked t (rw (f, g) at q) in
                  record { rx = k.rx; filter = k.filter }
            ]
    ]

recv_in-SameRx :
    (st : State) (env : Env) (pkt : Bytes) (s : Session) {r : Session × Bool}
    → recv_in st env pkt s ≡ done r
    → SameRx s r.0
unfolding recv_in handle_session_data
recv_in-SameRx initial env pkt s e = elim (Bool-cases (not s.is_inbound)) [
  | inl f ↦ let same = done-injective (rw (f, recv_in) at e) in rw (← same) (SameRx-refl s)
  | inr f ↦ elim (Option-cases (decrypt_message_in_place env s.session_key pkt)) [
    | inl g ↦ let same = done-injective (rw (f, recv_in, g) at e) in rw (← same) (SameRx-refl s)
    | inr (plain, g) ↦
        let same = done-injective (rw (f, recv_in, g) at e) in
        rw (← same) (handle_got_intro-SameRx env plain s)
  ]
]
recv_in-SameRx introduction env pkt s {r} e = side s.is_inbound e
  where
    side :
        (inbound : Bool)
        → (if inbound
            then and_then (handle_create_session_request env pkt s) (λ s'. done (s', true))
            else done (handle_got_intro_ack env pkt s, true))
          ≡ done r
        → SameRx s r.0
    side true q =
        let (t, asked, d) = and_then-eq-done (handle_create_session_request env pkt s) _ q in
        rw (← done-injective d) (handle_create_session_request-SameRx env pkt s t asked)
    side false q = rw (← done-injective q) (handle_got_intro_ack-SameRx env pkt s)
recv_in-SameRx link_intro env pkt s e =
    rw (← done-injective e) (record { rx = refl; filter = refl })
recv_in-SameRx ready env pkt s e = rw (← done-injective e) (record { rx = refl; filter = refl })
recv_in-SameRx closed env pkt s e = rw (← done-injective e) (record { rx = refl; filter = refl })

pub recv_ll-SameRx :
    (env : Env) (pkt : Bytes) (s : Session) {r : Session × Bool}
    → recv_ll env pkt s ≡ done r
    → SameRx s r.0
unfolding recv_ll
recv_ll-SameRx env pkt s e =
    let k =
      recv_in-SameRx s.state env pkt
        (record s {
          rx_rate = u64 (s.rx_rate + length pkt);
          stats = record s.stats { total_packets_rx = u64 (s.stats.total_packets_rx + 1) };
        })
        e in
    record { rx = k.rx; filter = k.filter }
