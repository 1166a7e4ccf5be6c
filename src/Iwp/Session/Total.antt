-- ===== src/Iwp/Session/Total.antt =====
-- When `HandleDATA` and `HandleXMIT` of llarp/iwp/session.cpp throw, and when they do not.
use lokinet.Base.{
  ℕ, ◌+◌, ◌-◌, ◌/◌, ◌^◌, ◌≤◌, ◌<◌, ◌≡◌, refl, ap, ◌∙◌, Bool, true, false, Option, none, some, List,
  arith, Bool-cases, inl, inr, ltb, ◌==◌, length, set, length-set, length-replicate, nat_eq,
  bytes_eq, le→ltb, min, drop, take,
}
use lokinet.Base.Map.{find?, insert, erase, try_emplace, find?-insert, find?-erase}
use lokinet.Base.Bytes.{Bytes, word_at, copy_at, length-copy_at}
use lokinet.Iwp.Acks.{Outcome, done, out_of_range, acks_size, all_acked_done, set_bit, and_then}
use lokinet.Iwp.Inbound
use lokinet.Iwp.Inbound.{InboundMessage, is_completed, verify, acks_packet}
use lokinet.Iwp.Packet.{packet_overhead, command_overhead, fragment_size, max_link_msg_size}
use lokinet.Iwp.Session.State.{Session, Env, emit, handle_message}
use lokinet.Iwp.Session.Frame.{encrypt_and_send-Kept}
use lokinet.Iwp.Session.Receive.{
  handle_data, handle_xmit, receive_data, receive_xmit, begin_rx, take_fragment, check_completed,
  on_completed, handle_recv_msg_completed, nack_packet, xmit_overhead,
}

-- A message that the 8 bits of its bitset cover.
pub record IsSized (m : InboundMessage) : Type 0 where
  pub small : length m.contents ≤ max_link_msg_size
  pub bits : length m.acks ≡ acks_size

abbrev pub AreSized : List (ℕ × InboundMessage) → Type 0
AreSized rx = (id : ℕ) (m : InboundMessage) → find? id rx ≡ some m → IsSized m

throws :
    (m : InboundMessage) (idx : ℕ) (buf : Bytes) (now : ℕ)
    → length m.acks ≡ acks_size
    → max_link_msg_size ≤ idx
    → idx + length buf ≤ length m.contents
    → Inbound.handle_data m idx buf now ≡ out_of_range
unfolding Inbound.handle_data set_bit
throws m idx buf now bits far fits =
    let behind : length m.acks ≤ idx / fragment_size = omega (arith, bits) in
    rw
      (
        le→ltb (length m.contents) (idx + length buf) fits,
        Inbound.handle_data,
        le→ltb (idx / fragment_size) (length m.acks) behind,
      )
      refl

-- A fragment of a message under way that fits it, but begins at 8192 or above, ends in the
-- exception of the bitset: an empty one at the end of a message of 8192 bytes, or any such one of
-- a message whose announced size is greater.
pub handle_data-out_of_range :
    (env : Env) (pkt : Bytes) (s : Session) (m : InboundMessage)
    → command_overhead + 2 + 8 + packet_overhead ≤ length pkt
    → find? (word_at 8 (command_overhead + 2 + packet_overhead) pkt) s.rx_msgs ≡ some m
    → length m.acks ≡ acks_size
    → max_link_msg_size ≤ word_at 2 (command_overhead + packet_overhead) pkt
    → word_at 2 (command_overhead + packet_overhead) pkt + length (drop (packet_overhead + 12) pkt)
      ≤ length m.contents
    → handle_data env pkt s ≡ out_of_range
unfolding handle_data receive_data take_fragment
handle_data-out_of_range env pkt s m long e bits far fits =
    let idx = word_at 2 (command_overhead + packet_overhead) pkt in
    rw (le→ltb (length pkt) (command_overhead + 2 + 8 + packet_overhead) long, handle_data, e)
      (ap
        (λ (r : Outcome InboundMessage).
          and_then r (λ m'. check_completed env m' (record s { last_rx = env.now })))
        (throws m idx (drop (packet_overhead + 12) pkt) env.now bits far fits))

insert-AreSized :
    (id : ℕ) (m : InboundMessage) (rx : List (ℕ × InboundMessage))
    → IsSized m
    → AreSized rx
    → AreSized (insert id m rx)
insert-AreSized id m rx a h j n e = ground (arith, find?-insert id j m rx, h j n)

erase-AreSized : (id : ℕ) (rx : List (ℕ × InboundMessage)) → AreSized rx → AreSized (erase id rx)
erase-AreSized id rx h j n e = ground (arith, find?-erase id j rx, h j n)

-- what a handler that throws nothing comes to
abbrev pub Returns : Outcome Session → Type 0
Returns r = (t : Session) × (r ≡ done t) × AreSized t.rx_msgs

-- A fragment that is not empty, or begins inside the bitset, is stored or dropped.
stores :
    (m : InboundMessage) (idx : ℕ) (buf : Bytes) (now : ℕ)
    → IsSized m
    → idx < max_link_msg_size
    → (m' : InboundMessage) × (Inbound.handle_data m idx buf now ≡ done m') × IsSized m'
unfolding Inbound.handle_data set_bit
stores m idx buf now a lt =
    let k = idx / fragment_size in
    let inside : k < length m.acks = omega (arith, a.bits) in
    elim (Bool-cases (ltb (length m.contents) (idx + length buf))) [
      | inl e ↦ (m, rw (e, Inbound.handle_data) refl, a)
      | inr e ↦ (
        record m {
          contents = copy_at idx buf m.contents;
          acks = set m.acks k true;
          last_active_at = now;
        },
        ground arith,
        record {
          small = rw (length-copy_at idx buf m.contents) a.small;
          bits = length-set m.acks k true ∙ a.bits;
        },
      )
    ]

handle_recv_msg_completed-rx :
    (env : Env) (m : InboundMessage) (s : Session)
    → (handle_recv_msg_completed env m s).rx_msgs ≡ erase m.msg_id s.rx_msgs
unfolding handle_recv_msg_completed
handle_recv_msg_completed-rx env m s =
    let handed = encrypt_and_send-Kept env (acks_packet env.random m) (
      emit (handle_message m.contents)
        (record s { replay_filter = (try_emplace m.msg_id env.now s.replay_filter).0 })) in
    elim (Bool-cases (try_emplace m.msg_id env.now s.replay_filter).1) [
      | inl e ↦ rw (e, handle_recv_msg_completed) (ap (erase m.msg_id) handed.rx)
      | inr e ↦ rw (e, handle_recv_msg_completed) refl
    ]

on_completed-AreSized :
    (c : Bool) (env : Env) (m : InboundMessage) (s : Session)
    → AreSized s.rx_msgs
    → AreSized (on_completed c env m s).rx_msgs
unfolding on_completed
on_completed-AreSized false env m s h = h
on_completed-AreSized true env m s h = elim (Bool-cases (verify env.shorthash m)) [
  | inl v ↦
      rw (v, on_completed)
        (rw (handle_recv_msg_completed-rx env m s) (erase-AreSized m.msg_id s.rx_msgs h))
  | inr v ↦ rw (v, on_completed) h
]

take_fragment-Returns :
    (env : Env) (m : InboundMessage) (idx : ℕ) (buf : Bytes) (s : Session)
    → IsSized m
    → AreSized s.rx_msgs
    → idx < max_link_msg_size
    → Returns (take_fragment env m idx buf s)
unfolding take_fragment check_completed is_completed
take_fragment-Returns env m idx buf s a h lt =
    let (m', e, a') = stores m idx buf env.now a lt in
    let (c, d) =
      all_acked_done (2 ^ 64) (length m'.contents) m'.acks (omega (arith, a'.small)) (omega arith)
        a'.bits in
    (
      on_completed c env m' (record s { rx_msgs = insert m'.msg_id m' s.rx_msgs }),
      rw (e, d) refl,
      on_completed-AreSized c env m' (record s { rx_msgs = insert m'.msg_id m' s.rx_msgs })
          (insert-AreSized m'.msg_id m' s.rx_msgs a' h),
    )

receive_data-Returns :
    (env : Env) (rxid idx : ℕ) (buf : Bytes) (s : Session)
    → AreSized s.rx_msgs
    → idx < max_link_msg_size
    → (known : Option InboundMessage) (seen : Option ℕ) → find? rxid s.rx_msgs ≡ known
    → Returns (receive_data known seen env rxid idx buf (record s { last_rx = env.now }))
unfolding receive_data
receive_data-Returns env rxid idx buf s h lt (some m) seen e =
    take_fragment-Returns env m idx buf (record s { last_rx = env.now }) (h rxid m e) h lt
receive_data-Returns env rxid idx buf s h lt none (some _) e = (_, refl, h)
receive_data-Returns env rxid idx buf s h lt none none e =
    let k =
      encrypt_and_send-Kept env (nack_packet env.random rxid) (record s { last_rx = env.now }) in
    (_, refl, rw k.rx h)

begin_rx-Returns :
    (env : Env) (rxid sz : ℕ) (pkt : Bytes) (s : Session)
    → AreSized s.rx_msgs
    → sz ≤ max_link_msg_size
    → Returns (begin_rx env rxid sz pkt s)
unfolding begin_rx Inbound.init
begin_rx-Returns env rxid sz pkt s h lt =
    let first = min sz fragment_size in
    let m =
      Inbound.init rxid sz (take 32 (drop (command_overhead + packet_overhead + 10) pkt)) env.now in
    let sized : IsSized m = record { small = rw (length-replicate {A = ℕ} sz 0) lt; bits = refl } in
    elim (Bool-cases (length pkt - xmit_overhead == first)) [
      | inl e ↦
          rw (e, begin_rx)
            (take_fragment-Returns env m 0 (drop (length pkt - first) pkt) s sized h (omega arith))
      | inr e ↦ rw (e, begin_rx) (_, refl, insert-AreSized rxid m s.rx_msgs sized h)
    ]

receive_xmit-Returns :
    (env : Env) (rxid sz : ℕ) (pkt : Bytes) (s : Session)
    → AreSized s.rx_msgs
    → sz ≤ max_link_msg_size
    → (seen : Option ℕ) (known : Option InboundMessage)
    → Returns (receive_xmit seen known env rxid sz pkt (record s { last_rx = env.now }))
unfolding receive_xmit
receive_xmit-Returns env rxid sz pkt s h lt (some _) known = (_, refl, h)
receive_xmit-Returns env rxid sz pkt s h lt none (some _) = (_, refl, h)
receive_xmit-Returns env rxid sz pkt s h lt none none =
    begin_rx-Returns env rxid sz pkt (record s { last_rx = env.now }) h lt

-- Where the messages under way have at most 8192 bytes, a DATA packet for an offset below 8192
-- throws nothing, and they stay so.
pub handle_data-Returns :
    (env : Env) (pkt : Bytes) (s : Session)
    → AreSized s.rx_msgs
    → word_at 2 (command_overhead + packet_overhead) pkt < max_link_msg_size
    → Returns (handle_data env pkt s)
unfolding handle_data
handle_data-Returns env pkt s h lt =
    elim (Bool-cases (ltb (length pkt) (command_overhead + 2 + 8 + packet_overhead))) [
      | inl e ↦ rw (e, handle_data) (s, refl, h)
      | inr e ↦ rw (e, handle_data) (receive_data-Returns env _ _ _ s h lt _ _ refl)
    ]

-- Where the messages under way have at most 8192 bytes, a XMIT packet that announces at most 8192
-- bytes throws nothing, and they stay so.
pub handle_xmit-Returns :
    (env : Env) (pkt : Bytes) (s : Session)
    → AreSized s.rx_msgs
    → word_at 2 (command_overhead + packet_overhead) pkt ≤ max_link_msg_size
    → Returns (handle_xmit env pkt s)
unfolding handle_xmit
handle_xmit-Returns env pkt s h lt = elim (Bool-cases (ltb (length pkt) xmit_overhead)) [
  | inl e ↦ rw (e, handle_xmit) (s, refl, h)
  | inr e ↦ rw (e, handle_xmit) (receive_xmit-Returns env _ _ pkt s h lt _ _)
]
