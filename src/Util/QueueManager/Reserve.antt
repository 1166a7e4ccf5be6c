-- ===== src/Util/QueueManager/Reserve.antt =====
-- `reservePushIndex` and `reservePopIndex` of llarp/util/thread/queue_manager.cpp on a quiet queue.
use native.Mathlib.Nat.{mul-le-mul_right}
use lokinet.Base.{
  ℕ, ◌+◌, ◌*◌, ◌/◌, ◌%◌, ◌^◌, ◌<◌, ◌≤◌, ◌≡◌, refl, Bool, true, false, not, ◌==◌, if◌then◌else◌,
  arith, ap, ◌∙◌,
}
use lokinet.Util.QueueManager.{
  empty, writing, full, reading, queue_empty, queue_full, queue_disabled, QueueManager,
  encode_element, cell, store_cell, next_generation, is_disabled_flag_set,
}
use lokinet.Util.QueueManager.Steps.{
  returned, push_load, push_bump, pop_load, pop_bump, pushing, popping, bump_push, bump_pop,
  push_attempt, push_refused, pop_attempt, pop_refused, never, step, run,
}
use lokinet.Util.QueueManager.Layout.{
  combined_split, Layout, tail_gen, tail_idx, word_of, next_generation-le, unequal,
}
use lokinet.Util.QueueManager.Codes.{
  decode-encode, decode-encode_empty, equal_self, full_not_empty, empty_not_full, has_state-full,
  has_state-empty, is_behind-next, is_behind_self, self_difference,
}

module _ {m : QueueManager} {off : Bool} {g r k : ℕ} (l : Layout m off g r k) where
  open l use {shape}

  cell-word : (i : ℕ) → i < m.capacity → cell m i ≡ word_of m g r k i
  unfolding cell
  cell-word i h = rw (l.cells i h) refl

  pub tail-lt : tail_idx m r k < m.capacity
  tail-lt = ground (arith, l.idx_range, l.room)

  pub tail_gen-le : tail_gen m g r k ≤ m.max_generation
  tail_gen-le = ground (arith, l.gen_range, next_generation-le g shape l.gen_range)

  -- the element behind the last one
  tail-vacant : k < m.capacity → cell m (tail_idx m r k) ≡ encode_element (tail_gen m g r k) empty
  tail-vacant h = ground (arith, cell-word (tail_idx m r k) tail-lt, l.idx_range)

  tail-occupied : k ≡ m.capacity → cell m (tail_idx m r k) ≡ encode_element g full
  tail-occupied h = ground (arith, cell-word (tail_idx m r k) tail-lt, l.idx_range)

  head-full : 0 < k → cell m r ≡ encode_element g full
  head-full h = ground (arith, cell-word r l.idx_range)

  head-vacant : k ≡ 0 → cell m r ≡ encode_element g empty
  head-vacant h = ground (arith, cell-word r l.idx_range)

  tail_split :
      ((tail_gen m g r k * m.capacity + tail_idx m r k) / m.capacity ≡ tail_gen m g r k)
      × ((tail_gen m g r k * m.capacity + tail_idx m r k) % m.capacity ≡ tail_idx m r k)
  tail_split = combined_split (tail_gen m g r k) (tail_idx m r k) m.capacity tail-lt

  head_split : (m.pop_index / m.capacity ≡ g) × (m.pop_index % m.capacity ≡ r)
  head_split =
      let (q, e) = combined_split g r m.capacity l.idx_range in
      (ap (λ (x : ℕ). x / m.capacity) l.front ∙ q, ap (λ (x : ℕ). x % m.capacity) l.front ∙ e)

  push_attempt-room :
      (saved : ℕ)
      → off ≡ false
      → k < m.capacity
      → push_attempt m m.push_index saved ≡ (
        store_cell (tail_idx m r k) (encode_element (tail_gen m g r k) writing) m,
        push_bump
            (tail_gen m g r k * m.capacity + tail_idx m r k)
            (tail_gen m g r k)
            (tail_idx m r k),
      )
  unfolding push_attempt
  push_attempt-room saved e h =
      rw (l.flag, e, l.back, tail_split.0, tail_split.1, tail-vacant h, equal_self) refl

  push_refused-full :
      (saved : ℕ)
      → k ≡ m.capacity
      → push_refused m m.push_index saved (encode_element g full)
        ≡ (if not (saved == m.push_index) then push_load m.push_index else returned queue_full)
  unfolding push_refused
  push_refused-full saved h =
      rw
        (
          l.back,
          tail_split.0,
          decode-encode g (omega (arith, l.gen_range, shape.narrow)),
          around,
          is_behind-next g shape l.gen_range,
          has_state-full g,
        )
        refl
    where
      around : tail_gen m g r k ≡ next_generation m g
      around = ground (arith, l.idx_range)

  push_attempt-full :
      (saved : ℕ)
      → off ≡ false
      → k ≡ m.capacity
      → push_attempt m m.push_index saved
        ≡ (m, if not (saved == m.push_index) then push_load m.push_index else returned queue_full)
  unfolding push_attempt
  push_attempt-full saved e h =
      rw
        (
          l.flag,
          e,
          l.back,
          tail_split.0,
          tail_split.1,
          tail-occupied h,
          full_not_empty,
          push_refused-full saved h,
        )
        refl

  push_attempt-off :
      (saved : ℕ) → off ≡ true → push_attempt m m.push_index saved ≡ (m, returned queue_disabled)
  unfolding push_attempt
  push_attempt-off saved e = rw (l.flag, e) refl

  pop_attempt-item :
      (saved : ℕ)
      → 0 < k
      → pop_attempt m m.pop_index saved
        ≡ (store_cell r (encode_element g reading) m, pop_bump m.pop_index g r)
  unfolding pop_attempt
  pop_attempt-item saved h = rw (head_split.0, head_split.1, head-full h, equal_self) refl

  pop_refused-empty :
      (saved : ℕ)
      → pop_refused m m.pop_index saved (encode_element g empty)
        ≡ (if not (saved == m.pop_index) then pop_load m.pop_index else returned queue_empty)
  unfolding pop_refused
  pop_refused-empty saved =
      rw
        (
          head_split.0,
          decode-encode_empty g (omega (arith, l.gen_range, shape.narrow)),
          is_behind_self g shape,
          self_difference g,
          has_state-empty g,
        )
        refl

  pop_attempt-none :
      (saved : ℕ)
      → k ≡ 0
      → pop_attempt m m.pop_index saved
        ≡ (m, if not (saved == m.pop_index) then pop_load m.pop_index else returned queue_empty)
  unfolding pop_attempt
  pop_attempt-none saved h =
      rw (head_split.0, head_split.1, head-vacant h, empty_not_full, pop_refused-empty saved) refl

  not_never : off ≡ false → (never == m.push_index) ≡ false
  unfolding is_disabled_flag_set
  not_never e = let f : is_disabled_flag_set m.push_index ≡ false = l.flag ∙ e in ground arith

  pub pop_index-lt : m.pop_index < 2 ^ 31
  pop_index-lt = omega (
    arith,
    shape.combined,
    shape.fits,
    l.front,
    l.idx_range,
    mul-le-mul_right {m = g + 1} {n = m.max_generation + 1} m.capacity (omega (arith, l.gen_range)),
  )

  -- What the two methods return when no other thread interrupts them.
  pub reserve_push-room :
      off ≡ false
      → k < m.capacity
      → run 4 m (push_load never) ≡ (
        bump_push
            (tail_gen m g r k * m.capacity + tail_idx m r k)
            (store_cell (tail_idx m r k) (encode_element (tail_gen m g r k) writing) m),
        pushing (tail_gen m g r k) (tail_idx m r k),
      )
  unfolding run step
  reserve_push-room e h = rw (push_attempt-room never e h) refl

  pub reserve_push-full :
      off ≡ false → k ≡ m.capacity → run 4 m (push_load never) ≡ (m, returned queue_full)
  unfolding run step
  reserve_push-full e h =
      rw (push_attempt-full never e h, not_never e, push_attempt-full m.push_index e h, equal_self)
        refl

  pub reserve_push-off : off ≡ true → run 4 m (push_load never) ≡ (m, returned queue_disabled)
  unfolding run step
  reserve_push-off e = rw (push_attempt-off never e) refl

  pub reserve_pop-item :
      0 < k
      → run 4 m (pop_load never)
        ≡ (bump_pop m.pop_index (store_cell r (encode_element g reading) m), popping g r)
  unfolding run step
  reserve_pop-item h = rw (pop_attempt-item never h) refl

  pub reserve_pop-none : k ≡ 0 → run 4 m (pop_load never) ≡ (m, returned queue_empty)
  unfolding run step
  reserve_pop-none h =
      rw
        (
          pop_attempt-none never h,
          unequal never m.pop_index (omega (arith, pop_index-lt)),
          pop_attempt-none m.pop_index h,
          equal_self,
        )
        refl
