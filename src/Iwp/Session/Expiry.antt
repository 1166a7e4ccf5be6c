-- ===== src/Iwp/Session/Expiry.antt =====
-- What `Tick` of llarp/iwp/session.cpp makes of each message under way and of each remembered id.
use lokinet.Base.{
  ℕ, ◌≡◌, refl, ap, ◌∙◌, Bool, true, false, Option, none, some, List, [], ◌∷◌, arith, nat_eq,
  if◌then◌else◌, leb, ◌+◌, ◌==◌, Bool-cases, inl, inr,
}
use mathlib.Core.Option
use lokinet.Base.Map.{
  find?, kept, Distinct, find?-erase_if, find?-try_emplace, try_emplace-Distinct,
}
use lokinet.Iwp.Inbound
use lokinet.Iwp.Inbound.{InboundMessage}
use lokinet.Iwp.Packet.{replay_window}
use lokinet.Iwp.Session.State.{Session}
use lokinet.Iwp.Session.Fresh.{IsFresh}
use lokinet.Iwp.Session.Tick.{rates, tick, tick_rx}
use lokinet.Iwp.Session.Timers.{tick_rx-filter, remember, tick_tx-rx, rates-rx}

-- what stays under way
abbrev pub still : ℕ → Option InboundMessage → Option InboundMessage
still now none = none
still now (some m) = if Inbound.is_timed_out m now then none else some m

-- the time that an id is remembered with after the loop over the messages
abbrev noted : ℕ → Option InboundMessage → Option ℕ → Option ℕ
noted now none old = old
noted now (some m) old = if Inbound.is_timed_out m now then some (Option.get_or old now) else old

-- The time that an id is remembered with: a message that times out is remembered from now on, and an id
-- is forgotten when the replay window is over.
abbrev pub remembered : ℕ → Option InboundMessage → Option ℕ → Option ℕ
remembered now (some m) old = if Inbound.is_timed_out m now then some now else none
remembered now none none = none
remembered now none (some at) = if leb (at + replay_window) now then none else some at

tick_rx-find? :
    (now id : ℕ) (ms : List (ℕ × InboundMessage)) (filter : List (ℕ × ℕ))
    → Distinct ms
    → (find? id (tick_rx now ms filter).0 ≡ still now (find? id ms))
      × (find? id (tick_rx now ms filter).1 ≡ noted now (find? id ms) (find? id filter))
unfolding tick_rx find?
tick_rx-find? now id [] filter d = (refl, refl)
tick_rx-find? now id ((j, m) ∷ ms) filter d =
    let f = remember (Inbound.is_timed_out m now) j now filter in
    let ih = tick_rx-find? now id ms f d.1 in
    elim (Bool-cases (j == id)) [
      | inl e ↦
          let gone = tick_rx-filter now id ms f (ground arith) in
          (ground (arith, gone.1), gone.0 ∙ ground (arith, find?-try_emplace j id now filter))
      | inr e ↦ (
        ground (arith, ih.0),
        ih.1
            ∙ ap (noted now (find? id ms)) {y = find? id filter}
                (ground (arith, find?-try_emplace j id now filter))
            ∙ rw e refl,
      )
    ]

tick_rx-Distinct :
    (now : ℕ) (ms : List (ℕ × InboundMessage)) (filter : List (ℕ × ℕ))
    → Distinct filter
    → Distinct (tick_rx now ms filter).1
unfolding tick_rx
tick_rx-Distinct now [] filter d = d
tick_rx-Distinct now ((j, m) ∷ ms) filter d =
    tick_rx-Distinct now ms _ (step (Inbound.is_timed_out m now))
  where
    step : (late : Bool) → Distinct (remember late j now filter)
    step true = try_emplace-Distinct j now filter d
    step false = d

kept-noted :
    (now id : ℕ) (m : Option InboundMessage) (old : Option ℕ)
    → ((n : InboundMessage) → m ≡ some n → old ≡ none)
    → kept (λ _ at. leb (at + replay_window) now) id (noted now m old) ≡ remembered now m old
unfolding kept
kept-noted now id none none f = refl
kept-noted now id none (some at) f = refl
kept-noted now id (some m) old f = rw (f m refl) (ground arith)

-- A tick of a session whose messages under way are apart from the remembered ids, and whose replay filter
-- holds no id twice: a message stays under way unless it times out; one that times out is remembered
-- from now on; any other id that is remembered is forgotten just when the replay window is over.
pub tick-replay_filter :
    (now id : ℕ) (s : Session)
    → IsFresh s
    → Distinct s.replay_filter
    → (find? id (tick now s).rx_msgs ≡ still now (find? id s.rx_msgs))
      × (find? id (tick now s).replay_filter
          ≡ remembered now (find? id s.rx_msgs) (find? id s.replay_filter))
unfolding tick
tick-replay_filter now id s f d =
    let s1 = rates now s in
    let a = rates-rx now s in
    let b = tick_tx-rx now s1.tx_msgs s1 in
    let rx = tick_rx-find? now id s.rx_msgs s.replay_filter f.distinct in
    rw (b.0, b.1, a.0, a.1)
      (
        rx.0,
        find?-erase_if (λ _ at. leb (at + replay_window) now) id
              (tick_rx now s.rx_msgs s.replay_filter).1
              (tick_rx-Distinct now s.rx_msgs s.replay_filter d)
            ∙ rw rx.1
                (kept-noted now id (find? id s.rx_msgs) (find? id s.replay_filter) (f.apart id)),
      )
