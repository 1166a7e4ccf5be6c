-- ===== src/Iwp/Session/Tick.antt =====
-- The timers of llarp/iwp/session.cpp: `TimedOut`, `ShouldResetRates`, `ResetRates` and `Tick`.
use lokinet.Base.{ℕ, ◌+◌, ◌-◌, Bool, not, ◌&&◌, List, [], ◌∷◌, ltb, leb, if◌then◌else◌, nat_eq}
use lokinet.Base.Map.{erase_if, try_emplace}
use lokinet.Iwp.Inbound
use lokinet.Iwp.Inbound.{InboundMessage}
use lokinet.Iwp.Outbound
use lokinet.Iwp.Outbound.{OutboundMessage, inform_timeout}
use lokinet.Iwp.Packet.{
  default_link_session_lifetime, session_alive_timeout, link_layer_connect_timeout, replay_window,
}
use lokinet.Iwp.Session.State.{Session, run_handler, u64, u64_pred}
use lokinet.Iwp.Session.Send.{is_live}

-- `TimedOut(now)`
unfoldable pub timed_out : ℕ → Session → Bool
timed_out now s =
    if is_live s.state
    then ltb s.last_rx now
      && ltb
          (if s.is_inbound && not s.remote_is_public_router
            then default_link_session_lifetime
            else session_alive_timeout)
          (now - s.last_rx)
    else leb link_layer_connect_timeout (now - s.created_at)

-- `ShouldResetRates(now)`
unfoldable pub should_reset_rates : ℕ → Session → Bool
should_reset_rates now s = leb s.reset_rates_at now

-- `ResetRates()`
unfoldable pub reset_rates : Session → Session
reset_rates s = record s {
  stats = record s.stats { current_rate_tx = s.tx_rate; current_rate_rx = s.rx_rate };
  rx_rate = 0;
  tx_rate = 0;
}

-- One outbound message that has timed out.
unfoldable pub drop_tx : OutboundMessage → Session → Session
drop_tx m s = run_handler (inform_timeout m).1 (record s {
  stats = record s.stats {
    total_dropped_tx = u64 (s.stats.total_dropped_tx + 1);
    total_in_flight_tx = u64_pred s.stats.total_in_flight_tx;
  };
})

-- The first loop of `Tick`, over the entries of `m_TXMsgs`: those that stay, and the session.
unfoldable pub tick_tx :
    ℕ → List (ℕ × OutboundMessage) → Session → List (ℕ × OutboundMessage) × Session
unfolding drop_tx
tick_tx now [] s = ([], s)
tick_tx now ((id, m) ∷ ms) s =
    let late = Outbound.is_timed_out m now in
    let (rest, s') = tick_tx now ms (if late then drop_tx m s else s) in
    (if late then rest else (id, m) ∷ rest, s')

-- The second loop: an inbound message that times out is remembered as seen.
unfoldable pub tick_rx :
    ℕ → List (ℕ × InboundMessage) → List (ℕ × ℕ) → List (ℕ × InboundMessage) × List (ℕ × ℕ)
tick_rx now [] filter = ([], filter)
tick_rx now ((id, m) ∷ ms) filter =
    let late = Inbound.is_timed_out m now in
    let (rest, filter') = tick_rx now ms (if late then (try_emplace id now filter).0 else filter) in
    (if late then rest else (id, m) ∷ rest, filter')

-- The beginning of `Tick`: the rates, if they are due.
unfoldable pub rates : ℕ → Session → Session
unfolding reset_rates should_reset_rates
rates now s =
    if should_reset_rates now s then record (reset_rates s) { reset_rates_at = now + 1000 } else s

-- `Tick(now)`
unfoldable pub tick : ℕ → Session → Session
unfolding tick_tx tick_rx rates
tick now s =
    let s1 = rates now s in
    let (tx, s2) = tick_tx now s1.tx_msgs s1 in
    let (rx, filter) = tick_rx now s2.rx_msgs s2.replay_filter in
    record s2 {
      tx_msgs = tx;
      rx_msgs = rx;
      replay_filter = erase_if (λ _ at. leb (at + replay_window) now) filter;
    }
