-- ===== src/Iwp/Session/Macks.antt =====
-- Multi-acks of llarp/iwp/session.cpp: what `SendMACK` writes is what `HandleMACK` reads.
use mathlib.Core.List.{append_assoc}
use lokinet.Base.{
  ℕ, zero, suc, ◌+◌, ◌*◌, ◌%◌, ◌^◌, ◌≤◌, ◌<◌, ◌≡◌, refl, sym, ap, ◌∙◌, List, [], ◌∷◌, ◌++◌, arith,
  le→ltb, length, take, drop, set, All, min, take-append, drop-append, take-drop, length-take,
  length-drop, length-append, length-set, slice-set, All-take, All-drop,
}
use lokinet.Base.Bytes.{
  Bytes, to_be, of_be, copy_at, length-to_be, of_be-to_be, length-copy_at, slice-copy_at_before,
  drop-copy_at_rest, of_be_from,
}
use lokinet.Iwp.Packet.{
  Random, Command, create_packet, packet_overhead, command_overhead, length-create_packet,
}
use lokinet.Iwp.Session.State.{Session, Env}
use lokinet.Iwp.Session.Send.{write_ids, mack_packet, mack_packets, max_acks_in_mack}
use lokinet.Iwp.Session.Receive.{ack_one, ack_many, handle_mack}

abbrev pub IsId : ℕ → Type 0
IsId x = x < 2 ^ 64

-- Each id is acknowledged in turn.
abbrev pub ack_each : List ℕ → Session → Session
ack_each [] s = s
ack_each (x ∷ xs) s = ack_each xs (ack_one x s)

ack_each-append :
    (xs ys : List ℕ) (s : Session) → ack_each (xs ++ ys) s ≡ ack_each ys (ack_each xs s)
ack_each-append [] ys s = refl
ack_each-append (x ∷ xs) ys s = ack_each-append xs ys (ack_one x s)

length-write_ids : (ids : List ℕ) → length (write_ids ids) ≡ length ids * 8
unfolding write_ids
length-write_ids [] = omega arith
length-write_ids (x ∷ xs) =
    omega (arith, length-append (to_be 8 x) (write_ids xs), length-to_be 8 x, length-write_ids xs)

take_id : (x : ℕ) (rest : Bytes) → take 8 (to_be 8 x ++ rest) ≡ to_be 8 x
take_id x rest = rw (length-to_be 8 x) at (take-append (to_be 8 x) rest)

drop_id : (x : ℕ) (rest : Bytes) → drop 8 (to_be 8 x ++ rest) ≡ rest
drop_id x rest = rw (length-to_be 8 x) at (drop-append (to_be 8 x) rest)

ack_many-to_be :
    (n x : ℕ) (rest : Bytes) (s : Session)
    → IsId x
    → ack_many (suc n) (to_be 8 x ++ rest) s ≡ ack_many n rest (ack_one x s)
unfolding ack_many
ack_many-to_be n x rest s h =
    ap (λ (b : Bytes). ack_many n b (ack_one (of_be (take 8 (to_be 8 x ++ rest))) s))
      (drop_id x rest)
    ∙ ap (λ (i : ℕ). ack_many n rest (ack_one i s)) (ap of_be (take_id x rest) ∙ of_be-to_be 8 x h)

ack_many-write_ids :
    (ids : List ℕ) (rest : Bytes) (s : Session)
    → All IsId ids
    → ack_many (length ids) (write_ids ids ++ rest) s ≡ ack_each ids s
unfolding write_ids
ack_many-write_ids [] rest s h = unfold ack_many in refl
ack_many-write_ids (x ∷ xs) rest s h =
    ap (λ (b : Bytes). ack_many (suc (length xs)) b s)
      (append_assoc (to_be 8 x) (write_ids xs) rest)
    ∙ ack_many-to_be (length xs) x (write_ids xs ++ rest) s h.0
    ∙ ack_many-write_ids xs rest (ack_one x s) h.1

handle_mack-count :
    (env : Env) (pkt : Bytes) (n : ℕ) (s : Session)
    → 3 + packet_overhead + n * 8 ≤ length pkt
    → of_be (take 1 (drop (command_overhead + packet_overhead) pkt)) ≡ n
    → handle_mack env pkt s ≡ ack_many n (drop (3 + packet_overhead) pkt) s
unfolding handle_mack
handle_mack-count env pkt n s long e = rw (
  e,
  le→ltb (length pkt) (3 + packet_overhead) (omega arith),
  le→ltb (length pkt) (1 + command_overhead + packet_overhead + n * 8) (omega arith),
)

-- A MACK packet of up to 128 ids of 64 bits acknowledges just these, in order.
pub handle_mack-mack_packet :
    (env : Env) (r : Random) (ids : List ℕ) (s : Session)
    → length ids ≤ max_acks_in_mack
    → All IsId ids
    → handle_mack env (mack_packet r ids) s ≡ ack_each ids s
unfolding mack_packet
handle_mack-mack_packet env r ids s small h =
    let n = length ids in
    let p0 = create_packet r Command.mack (1 + n * 8) 16 16 in
    let p1 = set p0 (packet_overhead + command_overhead) (n % 256) in
    let l0 = length-create_packet r Command.mack (1 + n * 8) 16 16 in
    let l1 = length-set p0 (packet_overhead + command_overhead) (n % 256) in
    let l2 = length-copy_at (3 + packet_overhead) (write_ids ids) p1 in
    let w = length-write_ids ids in
    handle_mack-count env _ n s (omega arith) (count n p0 (omega arith) (omega arith))
    ∙ ap (λ (b : Bytes). ack_many n b s)
        (drop-copy_at_rest (3 + packet_overhead) (write_ids ids) p1 (omega arith))
    ∙ ack_many-write_ids ids _ s h
  where
    count :
        (n : ℕ) (p0 : Bytes)
        → 66 < length p0
        → n < 256
        → of_be (take 1 (drop 66 (copy_at 67 (write_ids ids) (set p0 66 (n % 256))))) ≡ n
    count n p0 b lt =
        ap of_be (
          slice-copy_at_before 1 66 67 (write_ids ids) (set p0 66 (n % 256)) (omega arith)
          ∙ slice-set 66 p0 (n % 256) b)
        ∙ unfold of_be_from in omega arith

-- The receiver of the packets, one after another.
abbrev pub handle_macks : Env → List Bytes → Session → Session
handle_macks env [] s = s
handle_macks env (p ∷ ps) s = handle_macks env ps (handle_mack env p s)

-- For queued ids of 64 bits, and fuel for as many packets as there are ids, `SendMACK` leaves no
-- id behind, and its packets acknowledge at the peer just these ids, in order.
pub mack_packets-handle :
    (env : Env) (r : Random) (fuel : ℕ) (ids : List ℕ) (s : Session)
    → length ids ≤ fuel
    → All IsId ids
    → ((mack_packets r fuel ids).1 ≡ [])
      × (handle_macks env (mack_packets r fuel ids).0 s ≡ ack_each ids s)
unfolding mack_packets
mack_packets-handle env r zero [] s b h = (refl, refl)
mack_packets-handle env r zero (x ∷ xs) s b h = absurd (omega arith)
mack_packets-handle env r (suc fuel) [] s b h = (refl, refl)
mack_packets-handle env r (suc fuel) (x ∷ xs) s b h =
    let ids : List ℕ = x ∷ xs in
    let n = min (length ids) max_acks_in_mack in
    let fits = length-take n ids (omega arith) in
    let rest =
      mack_packets-handle env r fuel (drop n ids) (ack_each (take n ids) s)
        (omega (arith, length-drop n ids)) (All-drop IsId n ids h) in
    (
      rest.0,
      ap (handle_macks env (mack_packets r fuel (drop n ids)).0)
            (handle_mack-mack_packet env r (take n ids) s (omega arith) (All-take IsId n ids h))
          ∙ rest.1
          ∙ sym (ack_each-append (take n ids) (drop n ids) s)
          ∙ ap (λ (l : List ℕ). ack_each l s) (take-drop n ids),
    )
