-- ===== src/Util/Codel.antt =====
-- `CoDelQueue` of llarp/util/codel.hpp, over cells: a cell is empty once its item was destroyed. The
-- clock is an argument; `m_QueueIdx` counts the items, and a difference of times is an integer.
pub mod Process
use lokinet.Base.Int.{ℤ, sub_ℕ, min_ℤ, above}
use lokinet.Base.{
  ◌&&◌, ℕ, zero, suc, ◌+◌, ◌-◌, ◌*◌, ◌/◌, ◌^◌, Bool, true, false, not, Option, none, some, List, [],
  ◌∷◌, ◌++◌, ltb, leb, ◌==◌, if◌then◌else◌, length, get_elem?, set,
}

-- Items, and the times that `GetTime` and `PutTime` read and write.
pub record Item (A : Type 0) : Type 0 where
  pub payload : A
  pub put_at : ℕ

pub record CodelQueue (A : Type 0) : Type 0 where
  pub first_put : ℕ
  pub drop_num : ℕ
  pub next_tick_interval : ℕ
  pub next_tick_at : ℕ
  pub queue_idx : ℕ
  pub cells : List (Option (Item A))

abbrev pub initial_interval : ℕ
initial_interval = 5

abbrev pub drop_ms : ℕ
drop_ms = 100

module _ {A : Type 0} where
  -- `Size()`
  unfoldable pub size : CodelQueue A → ℕ
  size q = q.queue_idx

  -- The end of `Emplace` and `EmplaceIf`: the item is stamped and counted.
  unfoldable pub store : ℕ → A → CodelQueue A → CodelQueue A
  store clock a q = record q {
    cells = set q.cells q.queue_idx (some (record { payload = a; put_at = clock }));
    first_put = if q.first_put == 0 then clock else q.first_put;
    queue_idx = q.queue_idx + 1;
  }

  -- `EmplaceIf(pred, args)`, where the array has as many cells as `MaxSize`
  unfoldable pub emplace_if : ℕ → (A → Bool) → A → CodelQueue A → CodelQueue A × Bool
  unfolding store
  emplace_if clock pred a q =
      if q.queue_idx == length q.cells
      then (q, false)
      else if not (pred a)
      then (record q { cells = set q.cells q.queue_idx none }, false)
      else (store clock a q, true)

  -- `Emplace(args)`
  unfoldable pub emplace : ℕ → A → CodelQueue A → CodelQueue A
  unfolding store
  emplace clock a q = if q.queue_idx == length q.cells then q else store clock a q

-- `uint64_t(std::sqrt(n))`
unfoldable pub isqrt : ℕ → ℕ
isqrt zero = 0
isqrt (suc n) = let r = isqrt n in if leb ((r + 1) * (r + 1)) (suc n) then r + 1 else r

-- The least difference so far; none is `numeric_limits::max()`.
abbrev pub lower : ℤ → Option ℤ → ℤ
lower d none = d
lower d (some l) = min_ℤ d l

module _ {A : Type 0} where
  -- The item is destroyed.
  abbrev pub destroy : ℕ → CodelQueue A → CodelQueue A
  destroy idx q = record q { cells = set q.cells idx none }

  -- The end of `Process`, behind the loop.
  unfoldable pub finish : ℕ → CodelQueue A → CodelQueue A
  finish start q = record q { first_put = 0; next_tick_at = start + q.next_tick_interval }

  -- The last item, when the queue counts as late: it is dropped without a visit.
  unfoldable pub drop_last : ℕ → ℕ → CodelQueue A → CodelQueue A
  unfolding isqrt finish
  drop_last start idx q = finish start (record (destroy idx q) {
    drop_num = q.drop_num + 1;
    next_tick_interval = q.next_tick_interval + initial_interval / isqrt (q.drop_num + 1);
  })

  -- What is handed to the visitor before the rest.
  abbrev pub visit : A → Option (CodelQueue A × List A) → Option (CodelQueue A × List A)
  visit a none = none
  visit a (some (q, as')) = some (q, a ∷ as')

  unfoldable pub calm : CodelQueue A → CodelQueue A
  calm q = record q { next_tick_interval = initial_interval; drop_num = 0 }

  -- The loop of `Process`, on the items left: the visited items, in order, and the queue; none is an
  -- access to an item that was destroyed.
  unfoldable pub process_loop :
      (A → Bool) → ℕ → ℕ → ℕ → Option ℤ → CodelQueue A → Option (CodelQueue A × List A)
  unfolding drop_last finish calm
  process_loop f start zero idx lowest q = some (finish start q, [])
  process_loop f start (suc n) idx lowest q = elim (get_elem? q.cells idx) [
    | none ↦ none
    | some none ↦ none
    | some (some item) ↦
        let low = lower (sub_ℕ start item.put_at) lowest in
        let q1 = record q { queue_idx = n } in
        let next =
          process_loop f start n (idx + 1) (some low)
            (destroy idx (if n == 0 then calm q1 else q1)) in
        if f item.payload
        then some (finish start q, [])
        else if n == 0 && above low drop_ms
        then some (drop_last start idx q1, [])
        else visit item.payload next
  ]

  -- A queue of one item: it is visited whatever the filter says.
  unfoldable pub process_one : CodelQueue A → Option (CodelQueue A × List A)
  process_one q = elim (get_elem? q.cells 0) [
    | none ↦ none
    | some none ↦ none
    | some (some item) ↦
        some (record (destroy 0 q) { queue_idx = 0; first_put = 0 }, item.payload ∷ [])
  ]

  -- `Process(visitor, f)` at the time `now`
  unfoldable pub process : ℕ → (A → Bool) → CodelQueue A → Option (CodelQueue A × List A)
  unfolding process_loop process_one
  process now f q =
      if ltb now q.next_tick_at
      then some (q, [])
      else if q.queue_idx == 1
      then process_one q
      else process_loop f q.first_put q.queue_idx 0 none q

  -- `Process(v)`
  abbrev pub process_all : ℕ → CodelQueue A → Option (CodelQueue A × List A)
  process_all now q = process now (λ _. false) q
