-- ===== src/Iwp/Session/Once.antt =====
-- Each message is handed to the link layer once: what `HandleXMIT`, `HandleDATA` and the timers do to
-- the messages under way and to the replay filter of llarp/iwp/session.cpp.
use lokinet.Base.{
  bytes_eq, ℕ, ◌+◌, ◌≡◌, refl, sym, ap, ◌∙◌, Bool, true, false, Option, none, some, [], ◌∷◌, ◌++◌,
  arith, Bool-cases, Option-cases, inl, inr, nat_eq, ltb, ◌==◌, length, take, drop, min, ◌-◌, subst,
}
use lokinet.Base.Map.{find?, insert, try_emplace, erase, find?-erase, find?-insert_self}
use lokinet.Base.Bytes.{Bytes, word_at, length-copy_at}
use lokinet.Iwp.Acks.{done, and_then-eq-done, map_done-eq-done, done-injective}
use lokinet.Iwp.Inbound
use lokinet.Iwp.Inbound.{InboundMessage, acks_packet, is_completed, verify}
use lokinet.Iwp.Packet.{packet_overhead, command_overhead, fragment_size}
use lokinet.Iwp.Session.State.{Session, Env, handle_message, emit}
use lokinet.Iwp.Session.Crypt.{encrypt_and_send}
use lokinet.Iwp.Session.Frame.{deliveries, deliveries-append, Kept, encrypt_and_send-Kept}
use lokinet.Iwp.Session.Fresh.{IsFresh, insert-Fresh, erase-Fresh, erase-insert-Fresh}
use lokinet.Iwp.Session.Receive.{
  handle_recv_msg_completed, check_completed, take_fragment, begin_rx, handle_xmit, handle_data,
  xmit_overhead, on_completed, receive_data, receive_xmit, nack_packet,
}

-- What a packet for the message `id` can hand to the link layer: nothing, or one message that arrived
-- with it, which is complete and has the announced hash, which was not seen before, and is remembered
-- from now on.
pub data Effect (env : Env) (s t : Session) (id : ℕ) (Arrived : InboundMessage → Type 0)
    : Type 0 where
  quiet : deliveries t.events ≡ deliveries s.events → Effect env s t id Arrived
  delivers :
      (m : InboundMessage)
      → Arrived m
      → is_completed m ≡ done true
      → env.shorthash m.contents ≡ m.digest
      → find? id s.replay_filter ≡ none
      → deliveries t.events ≡ deliveries s.events ++ m.contents ∷ []
      → find? id t.replay_filter ≡ some env.now
      → find? id t.rx_msgs ≡ none
      → Effect env s t id Arrived

-- `n` is what the message `m` becomes by this fragment, with the size and the hash of `m`.
abbrev pub Took : Env → InboundMessage → ℕ → Bytes → InboundMessage → Type 0
Took env m idx buf n =
    (Inbound.handle_data m idx buf env.now ≡ done n)
    × (length n.contents ≡ length m.contents)
    × (n.digest ≡ m.digest)

-- The message under way that a DATA packet is for, with the packet's fragment.
abbrev pub Continued : Env → Session → Bytes → InboundMessage → Type 0
Continued env s pkt n =
    (m : InboundMessage) × (find? (word_at 8 (command_overhead + 2 + packet_overhead) pkt) s.rx_msgs
      ≡ some m)
    × Took env m (word_at 2 (command_overhead + packet_overhead) pkt)
        (drop (packet_overhead + 12) pkt) n

-- The message that a XMIT packet announces, by its size and its hash, with the data behind them.
abbrev pub Begun : Env → Bytes → InboundMessage → Type 0
Begun env pkt n =
    let sz = word_at 2 (command_overhead + packet_overhead) pkt in
    Took env
      (Inbound.init (word_at 8 (command_overhead + packet_overhead + 2) pkt) sz
        (take 32 (drop (command_overhead + packet_overhead + 10) pkt)) env.now)
      0 (drop (length pkt - min sz fragment_size) pkt) n

-- what `HandleRecvMsgCompleted` sends on, for a message that was not seen
module _ (env : Env) (s : Session) (m : InboundMessage) where
  handed_over : Session
  handed_over = encrypt_and_send env (acks_packet env.random m) (
      emit (handle_message m.contents)
        (record s { replay_filter = insert m.msg_id env.now s.replay_filter }))

  handed_over-Kept :
      Kept
        (emit
          (handle_message m.contents)
          (record s { replay_filter = insert m.msg_id env.now s.replay_filter }))
        handed_over
  unfolding handed_over
  handed_over-Kept = encrypt_and_send-Kept env _ _

  unseen_lem :
      find? m.msg_id s.replay_filter ≡ none
      → handle_recv_msg_completed env m s
        ≡ record handed_over { rx_msgs = erase m.msg_id handed_over.rx_msgs }
  unfolding handle_recv_msg_completed try_emplace handed_over
  unseen_lem e = ground arith

  seen_lem :
      (at : ℕ)
      → find? m.msg_id s.replay_filter ≡ some at
      → handle_recv_msg_completed env m s ≡ record s { rx_msgs = erase m.msg_id s.rx_msgs }
  unfolding handle_recv_msg_completed try_emplace
  seen_lem at e = ground arith

  module _ (fresh : IsFresh s) where
    handle_recv_msg_completed-Fresh : IsFresh (handle_recv_msg_completed env m s)
    handle_recv_msg_completed-Fresh = elim (Option-cases (find? m.msg_id s.replay_filter)) [
      | inl e ↦
          let k = handed_over-Kept in
          rw (unseen_lem e, k.rx, k.filter)
            (erase-insert-Fresh s.rx_msgs s.replay_filter fresh m.msg_id env.now)
      | inr (at, e) ↦ rw (seen_lem at e) (erase-Fresh s.rx_msgs s.replay_filter fresh m.msg_id)
    ]

  pub handle_recv_msg_completed-deliveries :
      find? m.msg_id s.replay_filter ≡ none
      → deliveries (handle_recv_msg_completed env m s).events
        ≡ deliveries s.events ++ m.contents ∷ []
  handle_recv_msg_completed-deliveries unseen =
      rw (unseen_lem unseen) (handed_over-Kept.handed ∙ deliveries-append s.events _)

  handle_recv_msg_completed-Effect :
      is_completed m ≡ done true
      → verify env.shorthash m ≡ true
      → find? m.msg_id s.replay_filter ≡ none
      → Effect env s (handle_recv_msg_completed env m s) m.msg_id (λ n. n ≡ m)
  unfolding verify
  handle_recv_msg_completed-Effect c v unseen =
      let k = handed_over-Kept in
      rw (unseen_lem unseen) (
        delivers m refl c (ground (arith, bytes_eq.beq_iff (env.shorthash m.contents) m.digest))
          unseen (k.handed ∙ deliveries-append s.events _)
          (rw k.filter (find?-insert_self m.msg_id env.now s.replay_filter))
          (ground (arith, find?-erase m.msg_id m.msg_id handed_over.rx_msgs)))

pub handle_data-msg_id :
    (m : InboundMessage) (idx : ℕ) (buf : Bytes) (now : ℕ) {m' : InboundMessage}
    → Inbound.handle_data m idx buf now ≡ done m'
    → m'.msg_id ≡ m.msg_id
unfolding Inbound.handle_data
handle_data-msg_id m idx buf now h = ground arith

handle_data-Took :
    (env : Env) (m : InboundMessage) (idx : ℕ) (buf : Bytes) (n : InboundMessage)
    → Inbound.handle_data m idx buf env.now ≡ done n
    → Took env m idx buf n
unfolding Inbound.handle_data
handle_data-Took env m idx buf n h =
    (h, ground (arith, length-copy_at idx buf m.contents), ground arith)

Effect-of :
    {env : Env} {s s' t : Session} {id : ℕ} {A B : InboundMessage → Type 0}
    → deliveries s'.events ≡ deliveries s.events
    → s'.replay_filter ≡ s.replay_filter
    → ((m : InboundMessage) → A m → B m)
    → Effect env s' t id A
    → Effect env s t id B
Effect-of d f g (quiet h) = quiet (h ∙ d)
Effect-of d f g (delivers m i c v u h r gone) =
    delivers m (g m i) c v (ap (find? _) (sym f) ∙ u) (h ∙ ap (λ ds. ds ++ m.contents ∷ []) d) r
      gone

-- A handler's result: the invariant holds again, and at most one message was handed over.
abbrev pub Once : Env → Session → ℕ → (InboundMessage → Type 0) → Session → Type 0
Once env s id Arrived t = IsFresh t × Effect env s t id Arrived

module _ (env : Env) (s : Session) (fresh : IsFresh s) where
  on_completed-Once :
      (c : Bool) (m : InboundMessage)
      → find? m.msg_id s.replay_filter ≡ none
      → is_completed m ≡ done c
      → Once env s m.msg_id
          (λ n. n ≡ m)
          (on_completed c env m (record s { rx_msgs = insert m.msg_id m s.rx_msgs }))
  unfolding on_completed
  on_completed-Once false m unseen e =
      (insert-Fresh s.rx_msgs s.replay_filter fresh m.msg_id m refl unseen, quiet refl)
  on_completed-Once true m unseen e =
      let kept = insert-Fresh s.rx_msgs s.replay_filter fresh m.msg_id m refl unseen in
      elim (Bool-cases (verify env.shorthash m)) [
        | inl v ↦
            rw (v, on_completed)
              (
                handle_recv_msg_completed-Fresh env
                    (record s { rx_msgs = insert m.msg_id m s.rx_msgs }) m kept,
                Effect-of refl refl (λ n e'. e')
                    (handle_recv_msg_completed-Effect env _ m e v unseen),
              )
        | inr v ↦ rw (v, on_completed) (kept, quiet refl)
      ]

  check_completed-Once :
      (m : InboundMessage) {t : Session}
      → find? m.msg_id s.replay_filter ≡ none
      → check_completed env m s ≡ done t
      → Once env s m.msg_id (λ n. n ≡ m) t
  unfolding check_completed
  check_completed-Once m unseen h =
      let (c, e, q) = map_done-eq-done _ (is_completed m) h in
      rw q at (on_completed-Once c m unseen e)

  take_fragment-Once :
      (m : InboundMessage) (idx : ℕ) (buf : Bytes) {t : Session}
      → find? m.msg_id s.replay_filter ≡ none
      → take_fragment env m idx buf s ≡ done t
      → Once env s m.msg_id (Took env m idx buf) t
  unfolding take_fragment
  take_fragment-Once m idx buf {t} unseen h =
      let (m', stored, checked) = and_then-eq-done (Inbound.handle_data m idx buf env.now) _ h in
      let same = handle_data-msg_id m idx buf env.now stored in
      let (f, eff) = check_completed-Once m' (rw same unseen) checked in
      let arrived : Effect env s t m'.msg_id (Took env m idx buf) =
        Effect-of refl refl
          (λ n e. subst (Took env m idx buf) (sym e) (handle_data-Took env m idx buf m' stored))
          eff in
      (f, rw same at arrived)

module _ (env : Env) (s : Session) (fresh : IsFresh s) (rxid : ℕ) where
  receive_data-Once :
      (known : Option InboundMessage) (seen : Option ℕ) (idx : ℕ) (buf : Bytes) {t : Session}
      → find? rxid s.rx_msgs ≡ known
      → receive_data known seen env rxid idx buf (record s { last_rx = env.now }) ≡ done t
      → Once env s rxid (λ n. (m : InboundMessage) × (known ≡ some m) × Took env m idx buf n) t
  unfolding receive_data
  receive_data-Once (some m) seen idx buf {t} e h =
      let id = fresh.keyed rxid m e in
      let unseen = rw (← id) at (fresh.apart rxid m e) in
      let (f, eff) =
        take_fragment-Once env (record s { last_rx = env.now }) fresh m idx buf unseen h in
      let back : Effect env s t m.msg_id
          (λ n. (m' : InboundMessage) × (some m ≡ some m') × Took env m' idx buf n) =
        Effect-of refl refl (λ n took. (m, refl, took)) eff in
      (
        f,
        subst
            (λ i.
              Effect env s t i
                (λ n. (m' : InboundMessage) × (some m ≡ some m') × Took env m' idx buf n))
            id back,
      )
  receive_data-Once none (some _) idx buf e h = rw (← done-injective h) (fresh, quiet refl)
  receive_data-Once none none idx buf e h =
      let k =
        encrypt_and_send-Kept env (nack_packet env.random rxid) (record s { last_rx = env.now }) in
      rw (← done-injective h) (rw (k.rx, k.filter) fresh, quiet k.handed)

  -- the message that a XMIT packet with this id and size begins, with its data
  abbrev Opened : ℕ → Bytes → InboundMessage → Type 0
  Opened sz pkt =
      Took env
        (Inbound.init rxid sz (take 32 (drop (command_overhead + packet_overhead + 10) pkt))
          env.now)
        0 (drop (length pkt - min sz fragment_size) pkt)

  begin_rx-Once :
      (sz : ℕ) (pkt : Bytes) {t : Session}
      → find? rxid s.replay_filter ≡ none
      → begin_rx env rxid sz pkt (record s { last_rx = env.now }) ≡ done t
      → Once env s rxid (Opened sz pkt) t
  unfolding begin_rx Inbound.init
  begin_rx-Once sz pkt {t} unseen h =
      let first = min sz fragment_size in
      let m =
        Inbound.init rxid sz (take 32 (drop (command_overhead + packet_overhead + 10) pkt))
          env.now in
      elim (Bool-cases (length pkt - xmit_overhead == first)) [
        | inl e ↦
            let (f, eff) =
              take_fragment-Once env (record s { last_rx = env.now }) fresh m 0
                (drop (length pkt - first) pkt) unseen (rw (e, begin_rx) at h) in
            (f, Effect-of refl refl (λ n took. took) eff)
        | inr e ↦
            rw (← done-injective (rw (e, begin_rx) at h))
              (insert-Fresh s.rx_msgs s.replay_filter fresh rxid m refl unseen, quiet refl)
      ]

  receive_xmit-Once :
      (seen : Option ℕ) (known : Option InboundMessage) (sz : ℕ) (pkt : Bytes) {t : Session}
      → find? rxid s.replay_filter ≡ seen
      → receive_xmit seen known env rxid sz pkt (record s { last_rx = env.now }) ≡ done t
      → Once env s rxid (Opened sz pkt) t
  unfolding receive_xmit
  receive_xmit-Once (some _) known sz pkt e h = rw (← done-injective h) (fresh, quiet refl)
  receive_xmit-Once none (some _) sz pkt e h = rw (← done-injective h) (fresh, quiet refl)
  receive_xmit-Once none none sz pkt e h = begin_rx-Once sz pkt e h

-- Where messages under way and remembered ids are apart, a DATA packet that throws nothing keeps them
-- so, and hands at most one message to the link layer: the message under way for the packet's id with
-- the packet's fragment stored, of unchanged size and announced hash. That message is complete, its
-- bytes have that hash, and its id was not remembered before, is remembered from then on
-- and is not under way any more.
pub handle_data-Once :
    (env : Env) (pkt : Bytes) (s t : Session)
    → IsFresh s
    → handle_data env pkt s ≡ done t
    → Once env s (word_at 8 (command_overhead + 2 + packet_overhead) pkt) (Continued env s pkt) t
unfolding handle_data
handle_data-Once env pkt s t fresh h =
    elim (Bool-cases (ltb (length pkt) (command_overhead + 2 + 8 + packet_overhead))) [
      | inl e ↦ rw (← done-injective (rw (e, handle_data) at h)) (fresh, quiet refl)
      | inr e ↦ receive_data-Once env s fresh _ _ _ _ _ refl (rw (e, handle_data) at h)
    ]

-- Where messages under way and remembered ids are apart, a XMIT packet that throws nothing keeps them
-- so, and hands at most one message to the link layer: the one that the packet begins with the size and
-- the hash that it announces, with the data behind them stored. That message is complete, its bytes
-- have the announced hash, and its id was not remembered before, is remembered from then on and is not
-- under way any more.
pub handle_xmit-Once :
    (env : Env) (pkt : Bytes) (s t : Session)
    → IsFresh s
    → handle_xmit env pkt s ≡ done t
    → Once env s (word_at 8 (command_overhead + packet_overhead + 2) pkt) (Begun env pkt) t
unfolding handle_xmit
handle_xmit-Once env pkt s t fresh h = elim (Bool-cases (ltb (length pkt) xmit_overhead)) [
  | inl e ↦ rw (← done-injective (rw (e, handle_xmit) at h)) (fresh, quiet refl)
  | inr e ↦ receive_xmit-Once env s fresh _ _ _ _ _ refl (rw (e, handle_xmit) at h)
]
