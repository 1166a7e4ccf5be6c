-- ===== src/Iwp/Session/Timers.antt =====
-- What `Tick` of llarp/iwp/session.cpp does to the messages under way and to the replay filter.
use lokinet.Base.{
  ℕ, ◌≡◌, refl, ap, ◌∙◌, Bool, true, false, none, some, List, [], ◌∷◌, arith, nat_eq, if◌then◌else◌,
}
use lokinet.Base.Map.{find?, try_emplace, erase_if, find?-erase_if-none, find?-try_emplace}
use lokinet.Iwp.Inbound
use lokinet.Iwp.Inbound.{InboundMessage}
use lokinet.Iwp.Outbound
use lokinet.Iwp.Outbound.{OutboundMessage}
use lokinet.Iwp.Session.State.{Session, run_handler}
use lokinet.Iwp.Session.Fresh.{Fresh, IsFresh}
use lokinet.Iwp.Session.Tick.{rates, tick, tick_rx, tick_tx, drop_tx}

-- the filter after one entry was looked at
abbrev pub remember : Bool → ℕ → ℕ → List (ℕ × ℕ) → List (ℕ × ℕ)
remember late id now filter = if late then (try_emplace id now filter).0 else filter

-- An id that is not under way is not remembered anew.
pub tick_rx-filter :
    (now id : ℕ) (ms : List (ℕ × InboundMessage)) (filter : List (ℕ × ℕ))
    → find? id ms ≡ none
    → (find? id (tick_rx now ms filter).1 ≡ find? id filter)
      × (find? id (tick_rx now ms filter).0 ≡ none)
unfolding tick_rx find?
tick_rx-filter now id [] filter h = (refl, refl)
tick_rx-filter now id ((j, m) ∷ ms) filter h =
    let late = Inbound.is_timed_out m now in
    let rest = tick_rx-filter now id ms (remember late j now filter) (ground arith) in
    (rest.0 ∙ ground (arith, find?-try_emplace j id now filter), ground (arith, rest.1))

tail-Fresh :
    (id : ℕ) (m : InboundMessage) (ms : List (ℕ × InboundMessage)) (filter : List (ℕ × ℕ))
    → Fresh ((id, m) ∷ ms) filter
    → Fresh ms filter
unfolding find?
tail-Fresh id m ms filter f = record {
  keyed = λ j n h. ground (arith, f.keyed j n, f.distinct.0);
  apart = λ j n h. ground (arith, f.apart j n, f.distinct.0);
  distinct = f.distinct.1;
}

remember-Fresh :
    (late : Bool) (id now : ℕ) (ms : List (ℕ × InboundMessage)) (filter : List (ℕ × ℕ))
    → find? id ms ≡ none
    → Fresh ms filter
    → Fresh ms (remember late id now filter)
remember-Fresh late id now ms filter gone f = record {
  keyed = f.keyed;
  apart = λ j n h. ground (arith, f.apart j n, find?-try_emplace id j now filter);
  distinct = f.distinct;
}

-- one entry that stays before those that stay
keep-Fresh :
    (id : ℕ) (m : InboundMessage) (ms : List (ℕ × InboundMessage)) (filter : List (ℕ × ℕ))
    → m.msg_id ≡ id
    → find? id ms ≡ none
    → find? id filter ≡ none
    → Fresh ms filter
    → Fresh ((id, m) ∷ ms) filter
unfolding find?
keep-Fresh id m ms filter e gone unseen f = record {
  keyed = λ j n h. ground (arith, f.keyed j n);
  apart = λ j n h. ground (arith, f.apart j n);
  distinct = (gone, f.distinct);
}

tick_rx_case :
    (late : Bool) (id : ℕ) (m : InboundMessage) (rest : List (ℕ × InboundMessage))
    (filter : List (ℕ × ℕ))
    → Fresh rest filter
    → (late ≡ false → Fresh ((id, m) ∷ rest) filter)
    → Fresh (if late then rest else (id, m) ∷ rest) filter
tick_rx_case true id m rest filter f g = f
tick_rx_case false id m rest filter f g = g refl

entry :
    (id : ℕ) (m : InboundMessage) (ms : List (ℕ × InboundMessage))
    → find? id ((id, m) ∷ ms) ≡ some m
unfolding find?
entry id m ms = ground arith

tick_rx-Fresh :
    (now : ℕ) (ms : List (ℕ × InboundMessage)) (filter : List (ℕ × ℕ))
    → Fresh ms filter
    → Fresh (tick_rx now ms filter).0 (tick_rx now ms filter).1
unfolding tick_rx
tick_rx-Fresh now [] filter f = f
tick_rx-Fresh now ((id, m) ∷ ms) filter f =
    let late = Inbound.is_timed_out m now in
    let gone = f.distinct.0 in
    let rest =
      tick_rx-Fresh now ms (remember late id now filter)
        (remember-Fresh late id now ms filter gone (tail-Fresh id m ms filter f)) in
    let out = tick_rx-filter now id ms (remember late id now filter) gone in
    let held = entry id m ms in
    tick_rx_case late id m _ _ rest λ e.
      keep-Fresh id m _ _ (f.keyed id m held) out.1
        (out.0 ∙ ap (λ (b : Bool). find? id (remember b id now filter)) e ∙ f.apart id m held) rest

-- The handlers of messages that time out leave the inbound side alone.
drop_tx-rx :
    (m : OutboundMessage) (s : Session)
    → ((drop_tx m s).rx_msgs ≡ s.rx_msgs) × ((drop_tx m s).replay_filter ≡ s.replay_filter)
unfolding drop_tx run_handler
drop_tx-rx m s = ground arith

pub tick_tx-rx :
    (now : ℕ) (ms : List (ℕ × OutboundMessage)) (s : Session)
    → ((tick_tx now ms s).1.rx_msgs ≡ s.rx_msgs)
      × ((tick_tx now ms s).1.replay_filter ≡ s.replay_filter)
unfolding tick_tx
tick_tx-rx now [] s = (refl, refl)
tick_tx-rx now ((id, m) ∷ ms) s =
    let late = Outbound.is_timed_out m now in
    let ih = tick_tx-rx now ms (if late then drop_tx m s else s) in
    let d = drop_tx-rx m s in (ih.0 ∙ ground arith, ih.1 ∙ ground arith)

decay-Fresh :
    (p : ℕ → ℕ → Bool) (ms : List (ℕ × InboundMessage)) (filter : List (ℕ × ℕ))
    → Fresh ms filter
    → Fresh ms (erase_if p filter)
decay-Fresh p ms filter f = record {
  keyed = f.keyed;
  apart = λ j n h. find?-erase_if-none p j filter (f.apart j n h);
  distinct = f.distinct;
}

pub rates-rx :
    (now : ℕ) (s : Session)
    → ((rates now s).rx_msgs ≡ s.rx_msgs) × ((rates now s).replay_filter ≡ s.replay_filter)
unfolding rates
rates-rx now s = ground arith

-- A timer tick keeps the messages under way apart from those that the replay filter remembers.
pub tick-Fresh : (now : ℕ) (s : Session) → IsFresh s → IsFresh (tick now s)
unfolding tick
tick-Fresh now s f =
    let s1 = rates now s in
    let a = rates-rx now s in
    let b = tick_tx-rx now s1.tx_msgs s1 in
    let start : IsFresh (tick_tx now s1.tx_msgs s1).1 = rw (b.0, b.1, a.0, a.1) f in
    decay-Fresh _ _ _ (tick_rx-Fresh now _ _ start)
