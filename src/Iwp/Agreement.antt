-- ===== src/Iwp/Agreement.antt =====
-- What the receiver of a message holds of it, and how one fragment of llarp/iwp/message_buffer.cpp adds
-- to it.
use lokinet.Base.{
  ◌↔◌, ℕ, ◌+◌, ◌-◌, ◌*◌, ◌/◌, ◌^◌, ◌≤◌, ◌<◌, ◌≡◌, ◌≢◌, refl, sym, ◌∙◌, arith, true, false, some,
  length, get_elem?, take, drop, set, length-set, min, length-take-min, length-drop,
  length-replicate, dec_lt, get_elem?_ext, get_elem?-take, get_elem?-drop, get_elem?-set,
  get_elem?-ge, get_elem?-replicate, ℕ_discrete, ◌↔◌,
}
use lokinet.Base.Bytes.{
  Bytes, copy_at, length-copy_at, get_elem?-copy_at, get_elem?-copy_at_before,
  get_elem?-copy_at_outside,
}
use lokinet.Iwp.Acks.{done, set_bit, all_acked_iff, acks_size, fragments, AllSet}
use lokinet.Iwp.Inbound.{InboundMessage, init, handle_data, is_completed}
use lokinet.Iwp.Packet.{fragment_size, max_link_msg_size}

-- the bytes of fragment `k`
abbrev pub fragment : Bytes → ℕ → Bytes
fragment msg k = take fragment_size (drop (fragment_size * k) msg)

-- What the receiver holds of `msg`: the bytes of each fragment whose bit is set.
pub record Agrees (msg : Bytes) (m : InboundMessage) : Type 0 where
  pub sized : length m.contents ≡ length msg
  pub bits : length m.acks ≡ acks_size
  pub same :
      (p : ℕ)
      → get_elem? m.acks (p / fragment_size) ≡ some true
      → get_elem? m.contents p ≡ get_elem? msg p

pub init-Agrees : (msg h : Bytes) (id now : ℕ) → Agrees msg (init id (length msg) h now)
unfolding init
init-Agrees msg h id now = record {
  sized = length-replicate (length msg) 0;
  bits = refl;
  same = λ p e. cc (get_elem?-replicate 8 false (p / fragment_size) e);
}

length-fragment :
    (msg : Bytes) (k : ℕ)
    → length (fragment msg k) ≡ min fragment_size (length msg - fragment_size * k)
length-fragment msg k = rw (length-take-min, length-drop)

pub fits :
    (msg : Bytes) (k : ℕ)
    → fragment_size * k < length msg
    → fragment_size * k + length (fragment msg k) ≤ length msg
fits msg k lt = omega (arith, length-fragment msg k)

pub handle_data_stores :
    (m : InboundMessage) (idx : ℕ) (buf : Bytes) (now k : ℕ)
    → idx + length buf ≤ length m.contents
    → idx / fragment_size ≡ k
    → k < length m.acks
    → handle_data m idx buf now
      ≡ done (record m {
        contents = copy_at idx buf m.contents;
        acks = set m.acks k true;
        last_active_at = now;
      })
unfolding handle_data set_bit
handle_data_stores m idx buf now k f e b = ground arith

-- the message after fragment `k` was stored
abbrev pub stored : Bytes → InboundMessage → ℕ → ℕ → InboundMessage
stored msg m k now = record m {
  contents = copy_at (fragment_size * k) (fragment msg k) m.contents;
  acks = set m.acks k true;
  last_active_at = now;
}

-- A delivered fragment is stored, whatever came before it.
pub handle_data-fragment :
    (msg : Bytes) (m : InboundMessage) (k now : ℕ)
    → Agrees msg m
    → length msg ≤ max_link_msg_size
    → fragment_size * k < length msg
    → handle_data m (fragment_size * k) (fragment msg k) now ≡ done (stored msg m k now)
handle_data-fragment msg m k now a small lt =
    handle_data_stores m _ (fragment msg k) now k (omega (arith, fits msg k lt, a.sized))
      (omega arith) (omega (arith, a.bits))

module _ (msg : Bytes) (m : InboundMessage) (k : ℕ) (a : Agrees msg m)
    (lt : fragment_size * k < length msg) where
  open m use {contents}

  -- a byte of the fragment that was stored
  stored_inside :
      (p : ℕ)
      → p / fragment_size ≡ k
      → get_elem? (copy_at (fragment_size * k) (fragment msg k) contents) p ≡ get_elem? msg p
  stored_inside p e = elim (dec_lt p (length msg)) [
    | yes b ↦
        let i = p - fragment_size * k in
        let at : p ≡ fragment_size * k + i = omega arith in
        rw at (
          get_elem?-copy_at (fragment_size * k) (fragment msg k) contents i
            (omega (arith, length-fragment msg k)) (omega (arith, a.sized))
          ∙ get_elem?-take fragment_size _ i (omega arith)
          ∙ get_elem?-drop (fragment_size * k) msg i)
    | no n ↦
        get_elem?-ge _ p
          (omega (arith, length-copy_at (fragment_size * k) (fragment msg k) contents, a.sized))
        ∙ sym (get_elem?-ge msg p (omega arith))
  ]

  -- a byte of another fragment
  stored_outside :
      (p : ℕ)
      → p / fragment_size ≢ k
      → get_elem? (copy_at (fragment_size * k) (fragment msg k) contents) p ≡ get_elem? contents p
  stored_outside p n = elim (dec_lt p (fragment_size * k)) [
    | yes b ↦ get_elem?-copy_at_before _ _ contents p b
    | no b ↦ get_elem?-copy_at_outside _ _ contents p b (omega (arith, length-fragment msg k))
  ]

  pub stored-Agrees : (now : ℕ) → Agrees msg (stored msg m k now)
  stored-Agrees now = record {
    sized = length-copy_at _ _ contents ∙ a.sized;
    bits = length-set m.acks k true ∙ a.bits;
    same = λ p e. elim (ℕ_discrete (p / fragment_size) k) [
      | yes here ↦ stored_inside p here
      | no other ↦
          stored_outside p other
          ∙ a.same p
              (sym (get_elem?-set m.acks k (p / fragment_size) true (λ q. other (sym q))) ∙ e)
    ];
  }

pub is_completed_iff :
    (msg : Bytes) (m : InboundMessage)
    → Agrees msg m
    → length msg ≤ max_link_msg_size
    → (is_completed m ≡ done true) ↔ AllSet (fragments (length msg)) m.acks
unfolding is_completed
is_completed_iff msg m a small = rw (← a.sized) (
    all_acked_iff (2 ^ 64) (length m.contents) m.acks (omega arith) (omega (arith, a.sized)) a.bits)

-- A complete message is the one that was sent.
pub is_completed-eq :
    (msg : Bytes) (m : InboundMessage)
    → Agrees msg m
    → length msg ≤ max_link_msg_size
    → is_completed m ≡ done true
    → m.contents ≡ msg
is_completed-eq msg m a small e = get_elem?_ext m.contents msg λ p. elim (dec_lt p (length msg)) [
  | yes b ↦ a.same p ((is_completed_iff msg m a small).0 e (p / fragment_size) (omega arith))
  | no n ↦
      get_elem?-ge m.contents p (omega (arith, a.sized)) ∙ sym (get_elem?-ge msg p (omega arith))
]
