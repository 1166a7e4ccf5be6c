-- ===== src/Iwp/Session/Fresh.antt =====
-- The messages under way of llarp/iwp/session.cpp, and the ids that the replay filter remembers.
use lokinet.Base.{bytes_eq, ℕ, ◌≡◌, none, some, List, arith, nat_eq}
use lokinet.Base.Map.{
  Distinct, insert-Distinct, erase-Distinct, find?, insert, erase, find?-insert, find?-erase,
}
use lokinet.Iwp.Inbound.{InboundMessage}
use lokinet.Iwp.Session.State.{Session}

-- No message under way is remembered as seen, and each stands under its own id.
pub record Fresh (rx : List (ℕ × InboundMessage)) (filter : List (ℕ × ℕ)) : Type 0 where
  pub keyed : (id : ℕ) (m : InboundMessage) → find? id rx ≡ some m → m.msg_id ≡ id
  pub apart : (id : ℕ) (m : InboundMessage) → find? id rx ≡ some m → find? id filter ≡ none
  pub distinct : Distinct rx

abbrev pub IsFresh : Session → Type 0
IsFresh s = Fresh s.rx_msgs s.replay_filter

module _ (rx : List (ℕ × InboundMessage)) (filter : List (ℕ × ℕ)) (fresh : Fresh rx filter) where
  pub insert-Fresh :
      (id : ℕ) (m : InboundMessage)
      → m.msg_id ≡ id
      → find? id filter ≡ none
      → Fresh (insert id m rx) filter
  insert-Fresh id m e unseen = record {
    keyed = λ j n h. ground (arith, find?-insert id j m rx, fresh.keyed j n);
    apart = λ j n h. ground (arith, find?-insert id j m rx, fresh.apart j n);
    distinct = insert-Distinct id m rx fresh.distinct;
  }

  pub erase-Fresh : (id : ℕ) → Fresh (erase id rx) filter
  erase-Fresh id = record {
    keyed = λ j n h. ground (arith, find?-erase id j rx, fresh.keyed j n);
    apart = λ j n h. ground (arith, find?-erase id j rx, fresh.apart j n);
    distinct = erase-Distinct id rx fresh.distinct;
  }

  -- An id that is remembered goes from the messages under way.
  pub erase-insert-Fresh : (id now : ℕ) → Fresh (erase id rx) (insert id now filter)
  erase-insert-Fresh id now = record {
    keyed = λ j n h. ground (arith, find?-erase id j rx, fresh.keyed j n);
    apart =
        λ j n h. ground (arith, find?-erase id j rx, find?-insert id j now filter, fresh.apart j n);
    distinct = erase-Distinct id rx fresh.distinct;
  }
