-- ===== src/Iwp/Session/Plaintext.antt =====
-- `HandlePlaintext` and `Pump` of llarp/iwp/session.cpp keep the messages under way apart from the ids
-- that the replay filter remembers.
use lokinet.Base.{
  ℕ, ◌+◌, ◌≡◌, refl, ◌∙◌, Bool, true, false, none, some, List, [], ◌∷◌, arith, Bool-cases, inl, inr,
  ◌==◌, if◌then◌else◌, nat_eq, Option, get_elem?,
}
use lokinet.Base.Map.{find?, Distinct}
use lokinet.Base.Bytes.{Bytes}
use lokinet.Iwp.Acks.{Outcome, done, and_then-eq-done, map_done-eq-done, done-injective}
use lokinet.Iwp.Inbound.{InboundMessage, acks_packet, should_send_acks, send_acks}
use lokinet.Iwp.Packet.{Command, command_byte, create_packet, packet_overhead}
use lokinet.Iwp.Session.State.{Session, Env, is_established}
use lokinet.Iwp.Session.Crypt.{encrypt_and_send, decrypt_worker}
use lokinet.Iwp.Session.Frame.{encrypt_and_send-Kept}
use lokinet.Iwp.Session.Send.{
  close, send_mack, pump, pump_live, pump_rx, queue_work, send_keep_alive, should_ping, is_live,
}
use lokinet.Iwp.Session.Receive.{
  handle_ping, with_command, handle_nack, handle_mack, handle_command, handle_batch, handle_batches,
  handle_plaintext,
}
use lokinet.Iwp.Session.Fresh.{Fresh, IsFresh}
use lokinet.Iwp.Session.Once.{handle_data-Once, handle_xmit-Once}
use lokinet.Iwp.Session.Untouched.{
  SameRx, SameRx-refl, SameRx-trans, Kept-SameRx, handle_mack-SameRx, handle_nack-SameRx,
  handle_acks-SameRx, close-SameRx, send_mack-SameRx, pump_tx-SameRx,
}

pub SameRx-Fresh : {s t : Session} → SameRx s t → IsFresh s → IsFresh t
SameRx-Fresh k f = rw (k.rx, k.filter) f

choose :
    {P : Type 0} {t : Session} {x y : Outcome Session} (b : Bool)
    → (x ≡ done t → P)
    → (y ≡ done t → P)
    → (if b then x else y) ≡ done t
    → P
choose true p q e = p e
choose false p q e = q e

handle_command-Fresh :
    (env : Env) (cmd : ℕ) (pkt : Bytes) (s t : Session)
    → IsFresh s
    → handle_command env cmd pkt s ≡ done t
    → IsFresh t
unfolding handle_command handle_ping
handle_command-Fresh env cmd pkt s t f h =
    choose (cmd == command_byte Command.xmit) (λ e. (handle_xmit-Once env pkt s t f e).0)
      (choose (cmd == command_byte Command.data_) (λ e. (handle_data-Once env pkt s t f e).0)
        (choose (cmd == command_byte Command.acks)
          (λ e. SameRx-Fresh (handle_acks-SameRx env pkt s t e) f)
          (choose (cmd == command_byte Command.ping)
            (same (handle_ping env s) (record { rx = refl; filter = refl }))
            (choose (cmd == command_byte Command.nack)
              (same (handle_nack env pkt s) (handle_nack-SameRx env pkt s))
              (choose (cmd == command_byte Command.clos) (same (close env s) (close-SameRx env s)) (
                choose (cmd == command_byte Command.mack)
                  (same (handle_mack env pkt s) (handle_mack-SameRx env pkt s))
                  (same s (SameRx-refl s))))))))
      h
  where
    same : (u : Session) → SameRx s u → ◌≡◌ {A = Outcome Session} (done u) (done t) → IsFresh t
    same u k e = SameRx-Fresh (rw (done-injective e) at k) f

handle_batch-Fresh :
    (env : Env) (pkts : List Bytes) (s t : Session)
    → IsFresh s
    → handle_batch env pkts s ≡ done t
    → IsFresh t
unfolding handle_batch
handle_batch-Fresh env [] s t f h = rw (← done-injective h) f
handle_batch-Fresh env (pkt ∷ pkts) s t f h =
    let cmd = get_elem? pkt (packet_overhead + 1) in
    let (s', e, rest) =
      and_then-eq-done (with_command cmd (λ c. handle_command env c pkt s)) (handle_batch env pkts)
        h in
    handle_batch-Fresh env pkts s' t (command cmd s' e) rest
  where
    command :
        (cmd : Option ℕ) (u : Session)
        → with_command cmd (λ c. handle_command env c pkt s) ≡ done u
        → IsFresh u
    command none u e = absurd (ground arith)
    command (some c) u e = handle_command-Fresh env c pkt s u f e

handle_batches-Fresh :
    (env : Env) (bs : List (List Bytes)) (s t : Session)
    → IsFresh s
    → handle_batches env bs s ≡ done t
    → IsFresh t
unfolding handle_batches
handle_batches-Fresh env [] s t f h = rw (← done-injective h) f
handle_batches-Fresh env (b ∷ bs) s t f h =
    let (s', e, rest) = and_then-eq-done (handle_batch env b s) (handle_batches env bs) h in
    handle_batches-Fresh env bs s' t (handle_batch-Fresh env b s s' f e) rest

-- The entries have the ids and the keys of those before, in the same order.
abbrev SameIds : List (ℕ × InboundMessage) → List (ℕ × InboundMessage) → Type 0
SameIds [] [] = Unit
SameIds [] (n ∷ ns) = ⊥
SameIds (m ∷ ms) [] = ⊥
SameIds (m ∷ ms) (n ∷ ns) = (n.0 ≡ m.0) × (n.1.msg_id ≡ m.1.msg_id) × SameIds ms ns

find_same :
    (id : ℕ) (ms ns : List (ℕ × InboundMessage)) (n : InboundMessage)
    → SameIds ms ns
    → find? id ns ≡ some n
    → (m : InboundMessage) × (find? id ms ≡ some m) × (n.msg_id ≡ m.msg_id)
unfolding find?
find_same id [] [] n same e = absurd cc
find_same id [] (_ ∷ ns) n same e = elim same [ ]
find_same id ((i, m) ∷ ms) [] n same e = elim same [ ]
find_same id ((i, m) ∷ ms) ((j, k) ∷ ns) n same e = elim (Bool-cases (j == id)) [
  | inl q ↦ (m, ground arith, ground arith)
  | inr q ↦ let (m', e', r) = find_same id ms ns n same.2 (ground arith) in (m', ground arith, r)
]

find_same_none :
    (id : ℕ) (ms ns : List (ℕ × InboundMessage))
    → SameIds ms ns
    → find? id ms ≡ none
    → find? id ns ≡ none
unfolding find?
find_same_none id [] [] same e = refl
find_same_none id [] (_ ∷ ns) same e = elim same [ ]
find_same_none id ((i, m) ∷ ms) [] same e = elim same [ ]
find_same_none id ((i, m) ∷ ms) ((j, k) ∷ ns) same e =
    ground (arith, find_same_none id ms ns same.2)

SameIds-Distinct : (ms ns : List (ℕ × InboundMessage)) → SameIds ms ns → Distinct ms → Distinct ns
SameIds-Distinct [] [] same d = tt
SameIds-Distinct [] (_ ∷ ns) same d = elim same [ ]
SameIds-Distinct ((i, m) ∷ ms) [] same d = elim same [ ]
SameIds-Distinct ((i, m) ∷ ms) ((j, k) ∷ ns) same d =
    (find_same_none j ms ns same.2 (rw same.0 d.0), SameIds-Distinct ms ns same.2 d.1)

SameIds-Fresh :
    (ms ns : List (ℕ × InboundMessage)) (filter : List (ℕ × ℕ))
    → SameIds ms ns
    → Fresh ms filter
    → Fresh ns filter
SameIds-Fresh ms ns filter same f = record {
  keyed = λ id n e. let (m, e', q) = find_same id ms ns n same e in q ∙ f.keyed id m e';
  apart = λ id n e. let (m, e', q) = find_same id ms ns n same e in f.apart id m e';
  distinct = SameIds-Distinct ms ns same f.distinct;
}

pub send_keep_alive-SameRx : (env : Env) (s : Session) → SameRx s (send_keep_alive env s).0
unfolding send_keep_alive
send_keep_alive-SameRx env s = alive (is_established s.state)
  where
    k : SameRx s (encrypt_and_send env (create_packet env.random Command.ping 0 16 16) s)
    k = Kept-SameRx (encrypt_and_send-Kept env (create_packet env.random Command.ping 0 16 16) s)

    answer : Bool → Session × Bool
    answer b =
        if b
        then (encrypt_and_send env (create_packet env.random Command.ping 0 16 16) s, true)
        else (s, false)

    alive : (b : Bool) → SameRx s (answer b).0
    alive true = k
    alive false = SameRx-refl s

pump_rx-Same :
    (env : Env) (ms : List (ℕ × InboundMessage)) (s : Session)
    → SameIds ms (pump_rx env ms s).0 × SameRx s (pump_rx env ms s).1
unfolding pump_rx send_acks
pump_rx-Same env [] s = (tt, SameRx-refl s)
pump_rx-Same env ((id, m) ∷ ms) s =
    let due = should_send_acks m env.now in
    let s' = if due then encrypt_and_send env (acks_packet env.random m) s else s in
    let rest = pump_rx-Same env ms s' in
    ((refl, kept_id due, rest.0), SameRx-trans (first due) rest.1)
  where
    first :
        (due : Bool)
        → SameRx s (if due then encrypt_and_send env (acks_packet env.random m) s else s)
    first true = Kept-SameRx (encrypt_and_send-Kept env (acks_packet env.random m) s)
    first false = SameRx-refl s

    kept_id :
        (due : Bool) → (if due then record m { last_ack_sent = env.now } else m).msg_id ≡ m.msg_id
    kept_id true = refl
    kept_id false = refl

queue_work-SameRx : (s : Session) → SameRx s (queue_work s)
unfolding queue_work
queue_work-SameRx s = record { rx = ground arith; filter = ground arith }

pub pump-Fresh : (env : Env) (s t : Session) → IsFresh s → pump env s ≡ done t → IsFresh t
unfolding pump pump_live
pump-Fresh env s t f h =
    let (u, e, q) =
      map_done-eq-done queue_work (if is_live s.state then pump_live env s else done s) h in
    let k : SameRx u t = rw q at (queue_work-SameRx u) in
    SameRx-Fresh k
      (choose (is_live s.state) (live u) (λ (d : done s ≡ done u). rw (← done-injective d) f) e)
  where
    pinging : (b : Bool) → SameRx s (if b then (send_keep_alive env s).0 else s)
    pinging true = send_keep_alive-SameRx env s
    pinging false = SameRx-refl s

    live : (u : Session) → pump_live env s ≡ done u → IsFresh u
    live u e =
        let s1 = if should_ping env s then (send_keep_alive env s).0 else s in
        let k1 : SameRx s s1 = pinging (should_ping env s) in
        let r = pump_rx-Same env s1.rx_msgs s1 in
        let (rx, s2) = pump_rx env s1.rx_msgs s1 in
        let marked : Fresh rx s2.replay_filter =
          rw r.1.filter (SameIds-Fresh s1.rx_msgs rx s1.replay_filter r.0 (SameRx-Fresh k1 f)) in
        let k2 = pump_tx-SameRx env s2.tx_msgs (record s2 { rx_msgs = rx }) u e in
        rw (k2.rx, k2.filter) marked

pub handle_plaintext-Fresh :
    (env : Env) (s t : Session) → IsFresh s → handle_plaintext env s ≡ done t → IsFresh t
unfolding handle_plaintext
handle_plaintext-Fresh env s t f h =
    let s1 = record s { plaintext_recv = [] } in
    let (u, e, q) = and_then-eq-done (handle_batches env s.plaintext_recv s1) _ h in
    pump-Fresh env (send_mack env u) t
      (SameRx-Fresh (send_mack-SameRx env u) (handle_batches-Fresh env s.plaintext_recv s1 u f e)) q

pub decrypt_worker-SameRx :
    (env : Env) (msgs : List Bytes) (s : Session) → SameRx s (decrypt_worker env msgs s)
unfolding decrypt_worker
decrypt_worker-SameRx env msgs s = record { rx = refl; filter = refl }
