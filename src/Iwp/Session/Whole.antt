-- ===== src/Iwp/Session/Whole.antt =====
-- A message of one fragment: what `XMIT` of llarp/iwp/message_buffer.cpp writes is what `HandleXMIT` of
-- llarp/iwp/session.cpp hands over.
use lokinet.Base.{
  ℕ, ◌+◌, ◌-◌, ◌*◌, ◌^◌, ◌<◌, ◌≤◌, ◌≡◌, refl, sym, ap, ◌∙◌, true, none, [], ◌∷◌, ◌++◌, arith, inl,
  length, take, drop, min, take_all, nat_eq, bytes_eq, le→ltb, ==_iff,
}
use lokinet.Base.Map.{find?, insert}
use lokinet.Base.Bytes.{
  Bytes, copy_at, to_be, of_be, word_at, length-copy_at, length-to_be, of_be-to_be, slice-copy_at,
  slice-copy_at_before, drop-copy_at,
}
use lokinet.Iwp.Acks.{done, and_then-eq-done}
use lokinet.Iwp.Inbound
use lokinet.Iwp.Inbound.{InboundMessage, is_completed, verify}
use lokinet.Iwp.Outbound.{OutboundMessage, xmit}
use lokinet.Iwp.Packet.{
  Random, Command, create_packet, pad_size-zero, length-create_packet, fragment_size,
}
use lokinet.Iwp.Agreement.{fragment}
use lokinet.Iwp.Reassembly.{receive, receive-Reassembles}
use lokinet.Iwp.Session.State.{Session, Env}
use lokinet.Iwp.Session.Frame.{deliveries}
use lokinet.Iwp.Session.Once.{handle_data-msg_id, handle_recv_msg_completed-deliveries}
use lokinet.Iwp.Session.Receive.{
  handle_xmit, begin_rx, take_fragment, check_completed, on_completed, handle_recv_msg_completed,
  xmit_overhead,
}

handle_data-digest :
    (m : InboundMessage) (idx : ℕ) (buf : Bytes) (now : ℕ) {m' : InboundMessage}
    → Inbound.handle_data m idx buf now ≡ done m'
    → m'.digest ≡ m.digest
unfolding Inbound.handle_data
handle_data-digest m idx buf now h = ground arith

module _ (r : Random) (m : OutboundMessage) (small : length m.contents ≤ fragment_size)
    (id : m.msg_id < 2 ^ 64) (hashed : length m.digest ≡ 32) where
  n : ℕ
  n = length m.contents

  p0 : Bytes
  unfolding n
  p0 = create_packet r Command.xmit (10 + 32 + n) 0 0

  p1 : Bytes
  unfolding p0
  p1 = copy_at 66 (to_be 2 n) p0

  p2 : Bytes
  unfolding p1
  p2 = copy_at 68 (to_be 8 m.msg_id) p1

  p3 : Bytes
  unfolding p2
  p3 = copy_at 76 m.digest p2

  whole : Bytes
  unfolding p3
  whole = copy_at 108 m.contents p3

  xmit_lem : xmit r m ≡ whole
  unfolding xmit whole
  xmit_lem =
      let e : min (length m.contents) fragment_size ≡ length m.contents = omega arith in
      rw (xmit, e, take_all (length m.contents) m.contents (omega arith))

  length-p0 : length p0 ≡ 108 + n
  unfolding p0
  length-p0 =
      omega (arith, length-create_packet r Command.xmit (10 + 32 + n) 0 0, pad_size-zero r 0)

  length-p1 : length p1 ≡ 108 + n
  unfolding p1
  length-p1 = length-copy_at 66 (to_be 2 n) p0 ∙ length-p0

  length-p2 : length p2 ≡ 108 + n
  unfolding p2
  length-p2 = length-copy_at 68 (to_be 8 m.msg_id) p1 ∙ length-p1

  length-p3 : length p3 ≡ 108 + n
  unfolding p3
  length-p3 = length-copy_at 76 m.digest p2 ∙ length-p2

  length-whole : length whole ≡ 108 + n
  unfolding whole
  length-whole = length-copy_at 108 m.contents p3 ∙ length-p3

  whole_size : word_at 2 66 whole ≡ n
  unfolding whole
  whole_size =
      ap of_be (
        slice-copy_at_before 2 66 108 m.contents p3 (omega arith)
        ∙ slice-copy_at_before 2 66 76 m.digest p2 (omega arith)
        ∙ slice-copy_at_before 2 66 68 (to_be 8 m.msg_id) p1 (omega arith)
        ∙ slice-copy_at 2 66 (to_be 2 n) p0 (length-to_be 2 n) (omega (arith, length-p0)))
      ∙ of_be-to_be 2 n (omega arith)

  whole_id : word_at 8 68 whole ≡ m.msg_id
  unfolding whole
  whole_id =
      ap of_be (
        slice-copy_at_before 8 68 108 m.contents p3 (omega arith)
        ∙ slice-copy_at_before 8 68 76 m.digest p2 (omega arith)
        ∙ slice-copy_at 8 68 (to_be 8 m.msg_id) p1 (length-to_be 8 m.msg_id)
            (omega (arith, length-p1)))
      ∙ of_be-to_be 8 m.msg_id (omega arith)

  whole_digest : take 32 (drop 76 whole) ≡ m.digest
  unfolding whole
  whole_digest =
      slice-copy_at_before 32 76 108 m.contents p3 (omega arith)
      ∙ slice-copy_at 32 76 m.digest p2 hashed (omega (arith, length-p2))

  whole_contents : drop 108 whole ≡ m.contents
  unfolding whole n
  whole_contents = drop-copy_at 108 m.contents p3 (sym length-p3)

  module _ (env : Env) (s : Session) (pos : 0 < length m.contents)
      (unseen : find? m.msg_id s.replay_filter ≡ none) (new : find? m.msg_id s.rx_msgs ≡ none)
      (digest : env.shorthash m.contents ≡ m.digest) where
    s1 : Session
    s1 = record s { last_rx = env.now }

    begun : InboundMessage
    begun = Inbound.init m.msg_id (length m.contents) m.digest env.now

    begins : handle_xmit env whole s ≡ begin_rx env m.msg_id n whole s1
    unfolding handle_xmit s1
    begins =
        rw
          (
            handle_xmit,
            le→ltb (length whole) xmit_overhead (omega (arith, length-whole)),
            whole_id,
            whole_size,
            unseen,
            new,
          )
          refl

    takes : begin_rx env m.msg_id n whole s1 ≡ take_fragment env begun 0 m.contents s1
    unfolding begin_rx begun n
    takes =
        let first : min (length m.contents) fragment_size ≡ length m.contents = omega arith in
        let tail : length whole - xmit_overhead ≡ length m.contents = omega (arith, length-whole) in
        let start : length whole - length m.contents ≡ xmit_overhead =
          omega (arith, length-whole) in
        rw
          (
            begin_rx,
            first,
            tail,
            (==_iff (length m.contents) (length m.contents)).1 refl,
            start,
            whole_digest,
            whole_contents,
          )
          refl

    -- the message when its fragment is stored
    Stored : InboundMessage → Type 0
    Stored m' =
        (Inbound.handle_data begun 0 m.contents env.now ≡ done m')
        × (is_completed m' ≡ done true)
        × (m'.contents ≡ m.contents)

    stores : (m' : InboundMessage) × Stored m'
    unfolding begun Stored
    stores =
        let (m', e, complete, same) =
          receive-Reassembles m.contents m.digest m.msg_id env.now ((0, env.now) ∷ []) (omega arith)
            (omega arith, tt) in
        let (m1, h, q) =
          and_then-eq-done
            (Inbound.handle_data begun (fragment_size * 0) (fragment m.contents 0) env.now)
            (λ x. receive x m.contents []) e in
        let all : is_completed m' ≡ done true = complete.1 (λ k lt. inl (omega arith)) in
        (
          m',
          (
            ap (λ (b : Bytes). Inbound.handle_data begun 0 b env.now)
                  (sym (take_all fragment_size m.contents small))
                ∙ h
                ∙ q,
            all,
            same all,
          ),
        )

    delivered :
        (m' : InboundMessage)
        → Stored m'
        → (t : Session) × (take_fragment env begun 0 m.contents s1 ≡ done t)
          × (deliveries t.events ≡ deliveries s.events ++ m.contents ∷ [])
    unfolding take_fragment check_completed on_completed Stored s1 begun Inbound.init
    delivered m' (h, c, same) =
        let s2 = record s1 { rx_msgs = insert m'.msg_id m' s1.rx_msgs } in
        let id' : m'.msg_id ≡ m.msg_id = handle_data-msg_id begun 0 m.contents env.now h in
        let kept : m'.digest ≡ m.digest = handle_data-digest begun 0 m.contents env.now h in
        let v : verify env.shorthash m' ≡ true =
          unfold verify in
          (bytes_eq.beq_iff (env.shorthash m'.contents) m'.digest).1
            (ap env.shorthash same ∙ digest ∙ sym kept) in
        (
          handle_recv_msg_completed env m' s2,
          rw (h, take_fragment, c, v) refl,
          handle_recv_msg_completed-deliveries env s2 m' (rw id' unseen)
              ∙ ap (λ (b : Bytes). deliveries s.events ++ b ∷ []) same,
        )

    -- A message of one fragment that is not empty, with an id and a hash of the right sizes: the XMIT
    -- packet that the sender makes of it, received where its id is new and not remembered, hands just
    -- its bytes to the link layer.
    pub handle_xmit-xmit :
        (t : Session) × (handle_xmit env (xmit r m) s ≡ done t)
        × (deliveries t.events ≡ deliveries s.events ++ m.contents ∷ [])
    handle_xmit-xmit =
        let (m', st) = stores in
        let (t, e, d) = delivered m' st in
        (t, ap (λ (b : Bytes). handle_xmit env b s) xmit_lem ∙ begins ∙ takes ∙ e, d)
