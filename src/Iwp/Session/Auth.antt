-- ===== src/Iwp/Session/Auth.antt =====
-- What a datagram can do to the handshake of llarp/iwp/session.cpp.
use lokinet.Base.{◌+◌, ◌≡◌, Bool, true, false, not, ◌&&◌, none, inl, inr, ◌⊎◌, arith, length}
use lokinet.Base.Bytes.{Bytes}
use lokinet.Iwp.Acks.{done}
use lokinet.Iwp.Session.State.{
  Session, Env, State, initial, introduction, link_intro, ready, closed, u64,
}
use lokinet.Iwp.Session.Crypt.{decrypt_message_in_place}
use lokinet.Iwp.Session.Handshake.{
  recv_ll, recv_in, handle_got_intro_ack, handle_create_session_request,
}

-- The counters that every datagram moves.
abbrev pub count_rx : Bytes → Session → Session
count_rx pkt s = record s {
  rx_rate = u64 (s.rx_rate + length pkt);
  stats = record s.stats { total_packets_rx = u64 (s.stats.total_packets_rx + 1) };
}

abbrev pub is_initial : State → Bool
is_initial initial = true
is_initial introduction = false
is_initial link_intro = false
is_initial ready = false
is_initial closed = false

abbrev pub InHandshake : State → Type 0
InHandshake st = (st ≡ initial) ⊎ (st ≡ introduction)

recv_in-unauthentic :
    (st : State) (env : Env) (pkt : Bytes) (s : Session)
    → InHandshake st
    → decrypt_message_in_place env s.session_key pkt ≡ none
    → recv_in st env pkt s ≡ done (s, not (is_initial st && s.is_inbound))
unfolding recv_in handle_create_session_request handle_got_intro_ack
recv_in-unauthentic initial env pkt s h e = ground arith
recv_in-unauthentic introduction env pkt s h e = ground arith
recv_in-unauthentic link_intro env pkt s h e = absurd (elim h [ inl q ↦ cc | inr q ↦ cc ])
recv_in-unauthentic ready env pkt s h e = absurd (elim h [ inl q ↦ cc | inr q ↦ cc ])
recv_in-unauthentic closed env pkt s h e = absurd (elim h [ inl q ↦ cc | inr q ↦ cc ])

-- In the handshake, a datagram that does not authenticate under the session key changes the two
-- counters of received traffic and nothing else; it is reported only where it would open a session.
pub recv_ll-unauthentic :
    (env : Env) (pkt : Bytes) (s : Session)
    → InHandshake s.state
    → decrypt_message_in_place env s.session_key pkt ≡ none
    → recv_ll env pkt s ≡ done (count_rx pkt s, not (is_initial s.state && s.is_inbound))
unfolding recv_ll
recv_ll-unauthentic env pkt s h e = recv_in-unauthentic s.state env pkt (count_rx pkt s) h e
