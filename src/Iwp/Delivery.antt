-- ===== src/Iwp/Delivery.antt =====
-- What the sender's buffer of llarp/iwp/message_buffer.cpp puts on the wire, and what an
-- acknowledgement of the receiver's buffer does to it.
use lokinet.Base.{
  ℕ, zero, suc, ◌+◌, ◌-◌, ◌*◌, ◌^◌, ◌≤◌, ◌<◌, ◌≡◌, ◌↔◌, sym, ap, ◌∙◌, arith, Bool, true, false,
  List, [], ◌∷◌, Option, none, some, map, ltb, if◌then◌else◌, length, get_elem?, get_elem?-lt, take,
  drop, min, length-take, length-drop, take-min, le→ltb, lt→ltb,
}
use lokinet.Base.Bytes.{
  Bytes, copy_at, to_be, word_at, length-copy_at, length-to_be, of_be-to_be, slice-copy_at,
  slice-copy_at_before, drop-copy_at, of_be,
}
use lokinet.Iwp.Acks.{
  Acks, Outcome, done, acks_size, fragments, AllSet, all_acked_iff, all_acked_done, bits_of,
  to_ulong, bits_of-to_ulong, to_ulong-lt, next_index, index_of,
}
use lokinet.Iwp.Inbound.{InboundMessage, acks_bitmask, is_completed}
use lokinet.Iwp.Outbound.{
  unless_acked, OutboundMessage, ack, is_transmitted, data_packet, flush_from, flush_un_acked,
}
use lokinet.Iwp.Packet.{
  Random, Command, create_packet, pad_size-zero, length-create_packet, packet_overhead,
  command_overhead, fragment_size, max_link_msg_size,
}

Outcome_eq :
    (P : Type 0) (r s : Outcome Bool)
    → (b : Bool) × (r ≡ done b)
    → (c : Bool) × (s ≡ done c)
    → (r ≡ done true) ↔ P
    → (s ≡ done true) ↔ P
    → r ≡ s
Outcome_eq P r s (true, e) (c, f) p q = e ∙ sym (q.1 (p.0 e))
Outcome_eq P r s (false, e) (true, f) p q = p.1 (q.0 f) ∙ sym f
Outcome_eq P r s (false, e) (false, f) p q = e ∙ sym f

acks-ack :
    (o : OutboundMessage) (m : InboundMessage)
    → length m.acks ≡ acks_size
    → (ack o (acks_bitmask m)).acks ≡ m.acks
unfolding ack acks_bitmask
acks-ack o m b =
    let n = to_ulong m.acks in
    let small : n < 2 ^ 8 = rw b at (to_ulong-lt m.acks) in
    ap (bits_of 8) (omega arith) ∙ rw b at (bits_of-to_ulong m.acks)

-- For a message of at most 8192 bytes, the sender finishes on an acknowledgement exactly when the
-- receiver that sent it, whose copy has the same length, is complete.
pub is_transmitted-ack :
    (o : OutboundMessage) (m : InboundMessage)
    → length o.contents ≡ length m.contents
    → length o.contents ≤ max_link_msg_size
    → length m.acks ≡ acks_size
    → is_transmitted (ack o (acks_bitmask m)) ≡ is_completed m
unfolding is_transmitted is_completed ack
is_transmitted-ack o m e small b =
    let bits = acks-ack o m b in
    rw (bits, e)
      (Outcome_eq (AllSet (fragments (length m.contents)) m.acks) _ _
        (all_acked_done (2 ^ 16) _ m.acks (omega arith) (omega arith) b)
        (all_acked_done (2 ^ 64) _ m.acks (omega arith) (omega arith) b)
        (all_acked_iff (2 ^ 16) _ m.acks (omega arith) (omega arith) b)
        (all_acked_iff (2 ^ 64) _ m.acks (omega arith) (omega arith) b))

-- `fragsz`
fragment_length :
    (idx d : ℕ)
    → idx < d
    → (if ltb (idx + fragment_size) d then fragment_size else d - idx) ≡ min fragment_size (d - idx)
fragment_length idx d lt = ground arith

length-fragment :
    (m : OutboundMessage) (idx : ℕ)
    → length (take (min fragment_size (length m.contents - idx)) (drop idx m.contents))
      ≡ min fragment_size (length m.contents - idx)
length-fragment m idx =
    length-take _ (drop idx m.contents) (omega (arith, length-drop idx m.contents))

-- The DATA packet of a fragment at a 16-bit offset inside the message carries that offset, the
-- message's 64-bit number and the fragment's bytes.
pub data_packet_fields :
    (r : Random) (m : OutboundMessage) (idx : ℕ)
    → m.msg_id < 2 ^ 64
    → idx < length m.contents
    → idx < 2 ^ 16
    → (word_at 2 (command_overhead + packet_overhead) (data_packet r m idx) ≡ idx)
      × (word_at 8 (command_overhead + 2 + packet_overhead) (data_packet r m idx) ≡ m.msg_id)
      × (drop (packet_overhead + 12) (data_packet r m idx)
          ≡ take fragment_size (drop idx m.contents))
unfolding data_packet
data_packet_fields r m idx id lt small =
    let size = fragment_length idx (length m.contents) lt in
    let n = min fragment_size (length m.contents - idx) in
    let p0 = create_packet r Command.data_ (n + 10) 0 0 in
    let bytes = take n (drop idx m.contents) in
    let p1 = copy_at (2 + packet_overhead) (to_be 2 idx) p0 in
    let p2 = copy_at (4 + packet_overhead) (to_be 8 m.msg_id) p1 in
    let l0 = length-create_packet r Command.data_ (n + 10) 0 0 in
    let l1 = length-copy_at (2 + packet_overhead) (to_be 2 idx) p0 in
    let l2 = length-copy_at (4 + packet_overhead) (to_be 8 m.msg_id) p1 in
    rw size (
      ap of_be (
            slice-copy_at_before 2 (2 + packet_overhead) (packet_overhead + 12) bytes p2
              (omega arith)
            ∙ slice-copy_at_before 2 (2 + packet_overhead) (4 + packet_overhead) (to_be 8 m.msg_id)
                p1 (omega arith)
            ∙ slice-copy_at 2 (2 + packet_overhead) (to_be 2 idx) p0 (length-to_be 2 idx)
                (omega (arith, pad_size-zero r 0)))
          ∙ of_be-to_be 2 idx (omega arith),
      ap of_be (
            slice-copy_at_before 8 (4 + packet_overhead) (packet_overhead + 12) bytes p2
              (omega arith)
            ∙ slice-copy_at 8 (4 + packet_overhead) (to_be 8 m.msg_id) p1 (length-to_be 8 m.msg_id)
                (omega (arith, pad_size-zero r 0)))
          ∙ of_be-to_be 8 m.msg_id (omega arith),
      drop-copy_at (packet_overhead + 12) bytes p2
            (omega (arith, pad_size-zero r 0, length-fragment m idx))
          ∙ ap (λ (k : ℕ). take (min fragment_size k) (drop idx m.contents))
              (sym (length-drop idx m.contents))
          ∙ take-min fragment_size (drop idx m.contents),
    )

abbrev unless_set : Option Bool → ℕ → List ℕ → List ℕ
unless_set none k rest = rest
unless_set (some true) k rest = rest
unless_set (some false) k rest = k ∷ rest

-- The fragments from `k` on, `n` of them, whose bit is not set.
abbrev pub missing : ℕ → ℕ → Acks → List ℕ
missing zero k acks = []
missing (suc n) k acks = unless_set (get_elem? acks k) k (missing n (suc k) acks)

module _ (r : Random) (m : OutboundMessage) (small : length m.contents ≤ max_link_msg_size)
    (bits : length m.acks ≡ acks_size) where
  packets : List ℕ → List Bytes
  packets = map λ k. data_packet r m (fragment_size * k)

  flush_step :
      (k : ℕ) (b : Bool) (n : ℕ)
      → get_elem? m.acks k ≡ some b
      → (rest : Outcome (List Bytes)) → rest ≡ done (packets (missing n (suc k) m.acks))
      → unless_acked (get_elem? m.acks k) (data_packet r m (fragment_size * k)) rest
        ≡ done (packets (missing (suc n) k m.acks))
  unfolding packets
  flush_step k true n e rest h = rw (e, missing) h
  flush_step k false n e rest h = rw (e, missing, h)

  flush_from-missing :
      (fuel k n : ℕ)
      → acks_size < fuel + k
      → k ≤ acks_size
      → k + n ≡ fragments (length m.contents)
      → flush_from r fuel m (fragment_size * k) ≡ done (packets (missing n k m.acks))
  unfolding flush_from packets
  flush_from-missing zero k n f h e = absurd (omega arith)
  flush_from-missing (suc fuel) k zero f h e =
      rw (le→ltb (fragment_size * k) (length m.contents) (omega arith))
  flush_from-missing (suc fuel) k (suc n) f h e =
      let below : fragment_size * k < length m.contents = omega arith in
      let (b, at) = get_elem?-lt m.acks k (omega arith) in
      rw
        (
          lt→ltb (fragment_size * k) (length m.contents) below,
          next_index (2 ^ 16) k (omega arith) h,
          index_of k,
        )
        (flush_step k b n at _
          (flush_from-missing fuel (suc k) n (omega arith) (omega arith) (omega arith)))

  -- A flush of a message of at most 8192 bytes sends exactly the fragments that are not
  -- acknowledged, each once, in ascending order, and records its time.
  pub flush_un_acked-missing :
      (now : ℕ)
      → flush_un_acked r m now ≡ (
        record m { last_flush = now },
        done (
            map
              (λ k. data_packet r m (fragment_size * k))
              (missing (fragments (length m.contents)) 0 m.acks)),
      )
  unfolding flush_un_acked packets
  flush_un_acked-missing now =
      ap (λ (x : Outcome (List Bytes)). (record m { last_flush = now }, x))
        (flush_from-missing 9 0 (fragments (length m.contents)) (omega arith) (omega arith)
          (omega arith))
