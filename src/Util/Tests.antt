-- ===== src/Util/Tests.antt =====
-- The theorems on llarp/util at concrete inputs.
use lokinet.Base.{
  ℕ, ◌+◌, ◌≡◌, refl, true, false, not, none, some, List, [], ◌∷◌, ◌++◌, arith, nat_eq, leb, map,
  get_elem?-append_left, if◌then◌else◌,
}
use lokinet.Base.Map.{find?}
use lokinet.Util.DecayingHashSet
use lokinet.Util.DecayingHashSet.{DecayingHashSet, contains, insert_at, upsert, or_clock}
use lokinet.Util.DecayingHashSet.Laws.{insert-twice-decay}
use lokinet.Util.DecayingHashTable
use lokinet.Util.DecayingHashTable.{put, DecayingHashTable, put, get, has, remove}
use lokinet.Util.DecayingHashTable.Laws.{put-twice-decay}
use lokinet.Util.Codel.{Item, CodelQueue, process_all}
use lokinet.Util.Codel.Process.{Holds, payloads, process_all-visits}

-- A set that holds 4 since the time 10.
abbrev seen : DecayingHashSet ℕ
seen = record { cache_interval = 5; values = (4, 10) ∷ [] }

insert-twice-decay_example :
    let s1 = (insert_at 11 8 11 seen).0 in
    ((insert_at 11 8 11 seen).1 ≡ true)
    × (insert_at 11 8 13 s1 ≡ (s1, false))
    × (contains 8 (DecayingHashSet.decay 11 16 s1)
        ≡ not (leb (5 + or_clock 11 11) (or_clock 11 16)))
unfolding contains find?
insert-twice-decay_example = insert-twice-decay 11 11 13 16 8 seen (refl, tt) refl

abbrev table : DecayingHashTable ℕ ℕ
table = record { cache_interval = 5; values = (4, (40, 10)) ∷ [] }

put-twice-decay_example :
    ((put 11 7 20 11 table).1 ≡ true)
    × (put 12 7 30 12 (put 11 7 20 11 table).0 ≡ ((put 11 7 20 11 table).0, false))
    × (get 7 (DecayingHashTable.decay 15 (put 11 7 20 11 table).0)
        ≡ (if leb (11 + 5) 15 then none else some 20))
unfolding find? has
put-twice-decay_example = put-twice-decay 11 11 12 12 15 7 7 20 30 table (refl, tt) refl

-- A queue of two items.
abbrev items : List (Item ℕ)
items = record { payload = 7; put_at = 20 } ∷ record { payload = 8; put_at = 25 } ∷ []

abbrev queue : CodelQueue ℕ
queue = record {
  first_put = 20;
  drop_num = 0;
  next_tick_interval = 5;
  next_tick_at = 0;
  queue_idx = 2;
  cells = map some items ++ none ∷ none ∷ [];
}

queue-Holds : Holds queue items
queue-Holds = record {
  counted = refl;
  stored = λ i lt. get_elem?-append_left (map some items) (none ∷ none ∷ []) i lt;
  fresh = λ h. absurd (omega arith);
  since = (omega arith, (omega arith, tt));
}

process_all-visits_example :
    (q' : CodelQueue ℕ) × (process_all 30 queue ≡ some (q', payloads items))
    × (q'.queue_idx ≡ 0)
    × (q'.first_put ≡ 0)
process_all-visits_example = process_all-visits 30 items queue queue-Holds (omega arith)
