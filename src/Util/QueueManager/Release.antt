-- ===== src/Util/QueueManager/Release.antt =====
-- The ring of llarp/util/thread/queue_manager.cpp after an element was pushed or popped.
use lokinet.Base.{
  ℕ, zero, suc, ◌+◌, ◌-◌, ◌*◌, ◌^◌, ◌<◌, ◌≤◌, ◌≡◌, refl, some, Bool, false, ltb, ◌==◌,
  if◌then◌else◌, length, get_elem?, set, length-set, List, [], ◌∷◌, arith, List, length-set, set,
  ◌∷◌, ◌∙◌, ap, sym,
}
use lokinet.Util.QueueManager.{
  writing, reading, QueueManager, encode_element, store_cell, next_generation, next_combined_index,
  is_disabled_flag_set, discard_disabled_flag, exchanged,
}
use lokinet.Util.QueueManager.Steps.{bump_push, bump_pop, commit_push_index, commit_pop_index}
use lokinet.Util.QueueManager.Reserve.{tail-lt, tail_gen-le}
use native.Mathlib.Nat.{mul-le-mul_right}
use lokinet.Util.QueueManager.Layout.{
  Shape, Layout, tail_gen, tail_idx, word_of, next_combined_index_lem, next_generation-le,
}

-- the ring after the push of an element
unfoldable pub pushed : QueueManager → ℕ → ℕ → ℕ → QueueManager
pushed m g r k = commit_push_index (tail_gen m g r k) (tail_idx m r k) (
    bump_push (tail_gen m g r k * m.capacity + tail_idx m r k)
      (store_cell (tail_idx m r k) (encode_element (tail_gen m g r k) writing) m))

-- the position of the element behind the first one
abbrev pub head_gen : QueueManager → ℕ → ℕ → ℕ
head_gen m g r = if ltb (r + 1) m.capacity then g else next_generation m g

abbrev pub head_idx : QueueManager → ℕ → ℕ
head_idx m r = if ltb (r + 1) m.capacity then r + 1 else 0

-- the ring after the pop of an element
unfoldable pub popped : QueueManager → ℕ → ℕ → QueueManager
popped m g r =
    commit_pop_index g r (bump_pop m.pop_index (store_cell r (encode_element g reading) m))

get_elem?-set-set :
    (xs : List ℕ) (i j v w : ℕ)
    → i < length xs
    → get_elem? (set (set xs i v) i w) j ≡ (if i == j then some w else get_elem? xs j)
get_elem?-set-set [] i j v w h = absurd (omega arith)
get_elem?-set-set (x ∷ xs) zero zero v w h = refl
get_elem?-set-set (x ∷ xs) zero (suc j) v w h = ground arith
get_elem?-set-set (x ∷ xs) (suc i) zero v w h = ground arith
get_elem?-set-set (x ∷ xs) (suc i) (suc j) v w h =
    ground (arith, get_elem?-set-set xs i j v w (omega arith))

unflagged : (x : ℕ) → x < 2 ^ 32 → is_disabled_flag_set x ≡ false → x ≡ discard_disabled_flag x
unfolding is_disabled_flag_set discard_disabled_flag
unflagged x h e = ground arith

plain_index :
    (x : ℕ) → x < 2 ^ 31 → (is_disabled_flag_set x ≡ false) × (discard_disabled_flag x ≡ x)
unfolding is_disabled_flag_set discard_disabled_flag
plain_index x h = ground arith

exchanged-found : (a b c : ℕ) → a ≡ b → exchanged a b c ≡ c
unfolding exchanged
exchanged-found a b c e = ground arith

module _ {m : QueueManager} {off : Bool} {g r k : ℕ} (l : Layout m off g r k) where
  open l use {shape}

  pushed-Shape : Shape (pushed m g r k)
  unfolding pushed commit_push_index bump_push store_cell
  pushed-Shape = record {
    inhabited = shape.inhabited;
    small = shape.small;
    generations = shape.generations;
    narrow = shape.narrow;
    combined = shape.combined;
    fits = shape.fits;
    sized =
        length-set (set m.states (tail_idx m r k) _) _ _ ∙ length-set m.states _ _ ∙ shape.sized;
  }

  popped-Shape : Shape (popped m g r)
  unfolding popped commit_pop_index bump_pop store_cell
  popped-Shape = record {
    inhabited = shape.inhabited;
    small = shape.small;
    generations = shape.generations;
    narrow = shape.narrow;
    combined = shape.combined;
    fits = shape.fits;
    sized = length-set (set m.states r _) _ _ ∙ length-set m.states _ _ ∙ shape.sized;
  }

  found : off ≡ false → m.push_index ≡ tail_gen m g r k * m.capacity + tail_idx m r k
  found e = unflagged m.push_index l.word (l.flag ∙ e) ∙ l.back

  tail-next :
      k < m.capacity
      → next_combined_index m (tail_gen m g r k * m.capacity + tail_idx m r k)
        ≡ tail_gen m g r (k + 1) * m.capacity + tail_idx m r (k + 1)
  tail-next h =
      next_combined_index_lem (tail_gen m g r k) (tail_idx m r k) shape (tail_gen-le l) (tail-lt l)
      ∙ ground (arith, l.idx_range, l.room)

  next_tail-lt : k < m.capacity → tail_idx m r (k + 1) < m.capacity
  next_tail-lt h = ground (arith, l.idx_range)

  next_tail-le : k < m.capacity → tail_gen m g r (k + 1) ≤ m.max_generation
  next_tail-le h = ground (arith, l.gen_range, next_generation-le g shape l.gen_range)

  tail-bound : k < m.capacity → tail_gen m g r (k + 1) * m.capacity + tail_idx m r (k + 1) < 2 ^ 31
  tail-bound h = omega (
    arith,
    shape.combined,
    shape.fits,
    next_tail-lt h,
    mul-le-mul_right {m = tail_gen m g r (k + 1) + 1} {n = m.max_generation + 1} m.capacity
        (omega (arith, next_tail-le h)),
  )

  head-next : next_combined_index m m.pop_index ≡ (
      if ltb (r + 1) m.capacity
      then g * m.capacity + (r + 1)
      else next_generation m g * m.capacity + 0)
  head-next =
      ap (next_combined_index m) l.front ∙ next_combined_index_lem g r shape l.gen_range l.idx_range

  pushed-index :
      off ≡ false
      → k < m.capacity
      → (pushed m g r k).push_index ≡ tail_gen m g r (k + 1) * m.capacity + tail_idx m r (k + 1)
  unfolding pushed commit_push_index bump_push store_cell next_combined_index
  pushed-index e h = exchanged-found _ _ _ (found e) ∙ tail-next h

  pushed-cell :
      (i : ℕ)
      → i < m.capacity
      → k < m.capacity
      → get_elem? (pushed m g r k).states i ≡ some (word_of m g r (k + 1) i)
  unfolding pushed commit_push_index bump_push store_cell
  pushed-cell i lt h =
      get_elem?-set-set m.states (tail_idx m r k) i _ _ (omega (arith, shape.sized, tail-lt l))
      ∙ ground (arith, l.cells i lt, l.idx_range)

  pub pushed-Layout : off ≡ false → k < m.capacity → Layout (pushed m g r k) off g r (k + 1)
  unfolding pushed commit_push_index bump_push store_cell next_generation
  pushed-Layout e h = record {
    shape = pushed-Shape;
    gen_range = l.gen_range;
    idx_range = l.idx_range;
    room = omega arith;
    front = l.front;
    back = ap discard_disabled_flag (pushed-index e h) ∙ (plain_index _ (tail-bound h)).1;
    flag = ap is_disabled_flag_set (pushed-index e h) ∙ (plain_index _ (tail-bound h)).0 ∙ sym e;
    word = omega (arith, pushed-index e h, tail-bound h);
    cells = λ i lt. pushed-cell i lt h;
  }

  head_idx-lt : head_idx m r < m.capacity
  head_idx-lt = ground (arith, l.idx_range)

  head_gen-le : head_gen m g r ≤ m.max_generation
  head_gen-le = ground (arith, l.gen_range, next_generation-le g shape l.gen_range)

  popped-index : (popped m g r).pop_index ≡ head_gen m g r * m.capacity + head_idx m r
  unfolding popped commit_pop_index bump_pop store_cell next_combined_index
  popped-index = exchanged-found m.pop_index m.pop_index _ refl ∙ head-next ∙ ground arith

  popped-tail :
      0 < k
      → tail_gen m g r k * m.capacity + tail_idx m r k
        ≡ tail_gen m (head_gen m g r) (head_idx m r) (k - 1) * m.capacity
          + tail_idx m (head_idx m r) (k - 1)
  popped-tail h = ground (arith, l.idx_range, l.room)

  popped-cell :
      (i : ℕ)
      → i < m.capacity
      → 0 < k
      → get_elem? (popped m g r).states i
        ≡ some (word_of m (head_gen m g r) (head_idx m r) (k - 1) i)
  unfolding popped commit_pop_index bump_pop store_cell next_generation
  popped-cell i lt h =
      get_elem?-set-set m.states r i _ _ (omega (arith, shape.sized, l.idx_range))
      ∙ ground (arith, l.cells i lt, l.idx_range, l.room)

  pub popped-Layout : 0 < k → Layout (popped m g r) off (head_gen m g r) (head_idx m r) (k - 1)
  unfolding popped commit_pop_index bump_pop store_cell next_generation
  popped-Layout h = record {
    shape = popped-Shape;
    gen_range = head_gen-le;
    idx_range = head_idx-lt;
    room = omega (arith, l.room);
    front = popped-index;
    back = l.back ∙ popped-tail h;
    flag = l.flag;
    word = l.word;
    cells = λ i lt. popped-cell i lt h;
  }
