-- ===== src/Util/Queue/Contents.antt =====
-- What the slots of a quiet queue hold, and what its methods do to it (llarp/util/thread/queue.hpp).

use lokinet.Base.{
  ℕ, zero, suc, ◌+◌, ◌-◌, ◌<◌, ◌≡◌, refl, Option, some, none, Bool, true, false, leb, ◌==◌,
  if◌then◌else◌, length, get_elem?, arith, List, ◌++◌, set, ◌∷◌, [], ◌∙◌, Bool-cases, length-append,
  inl, length-set, ap, sym, get_elem?-ge, inr, subst,
}
use lokinet.Util.QueueManager.{QueueManager, success, queue_full, queue_disabled, store_cell}
use lokinet.Util.QueueManager.Steps.{
  run, pop_load, never, commit_push_index, commit_pop_index, bump_push, bump_pop,
}
use lokinet.Util.QueueManager.Layout.{Layout, tail_idx}
use lokinet.Util.QueueManager.Reserve.{
  tail-lt, reserve_push-room, reserve_push-full, reserve_push-off, reserve_pop-item,
}
use lokinet.Util.QueueManager.Release.{
  pushed, popped, head_gen, head_idx, pushed-Layout, popped-Layout,
}
use lokinet.Util.Queue.{
  Queue, push_with, try_push_back, take_out, pop_with, pop_value, try_pop_front, notify_popper,
  notify_pusher, remove_with, alone, commit_push_index, commit_pop_index,
}

-- how far an index of the ring is behind the first element
abbrev pub offset : QueueManager → ℕ → ℕ → ℕ
offset m r i = if leb r i then i - r else i + m.capacity - r

-- The queue holds these elements, the first one to be popped first.
pub record Holds {A : Type 0} (q : Queue A) (off : Bool) (items : List A) : Type 0 where
  pub gen : ℕ
  pub idx : ℕ
  pub layout : Layout q.manager off gen idx (length items)
  pub sized : length q.slots ≡ q.manager.capacity
  pub contents :
      (i : ℕ)
      → i < q.manager.capacity
      → get_elem? q.slots i ≡ some (get_elem? items (offset q.manager idx i))

one_less : (n : ℕ) → suc n - 1 ≡ n
one_less n = omega arith

module _ {A : Type 0} where
  get_elem?-snoc :
      (xs : List A) (a : A) (d : ℕ)
      → get_elem? (xs ++ a ∷ []) d ≡ (if d == length xs then some a else get_elem? xs d)
  get_elem?-snoc [] a zero = refl
  get_elem?-snoc [] a (suc d) = ground arith
  get_elem?-snoc (x ∷ xs) a zero = ground arith
  get_elem?-snoc (x ∷ xs) a (suc d) = ground (arith, get_elem?-snoc xs a d)

  get_elem?-set-if :
      (xs : List (Option A)) (i j : ℕ) (v : Option A)
      → i < length xs
      → get_elem? (set xs i v) j ≡ (if i == j then some v else get_elem? xs j)
  get_elem?-set-if [] i j v h = absurd (omega arith)
  get_elem?-set-if (x ∷ xs) zero zero v h = refl
  get_elem?-set-if (x ∷ xs) zero (suc j) v h = ground arith
  get_elem?-set-if (x ∷ xs) (suc i) zero v h = ground arith
  get_elem?-set-if (x ∷ xs) (suc i) (suc j) v h =
      ground (arith, get_elem?-set-if xs i j v (omega arith))

  module _ {q : Queue A} {off : Bool} {items : List A} (h : Holds q off items) where
    open h use {layout, gen, idx}

    -- the queue after a push and after a pop
    unfoldable pub after_push : A → Queue A
    after_push a = notify_popper (record q {
      manager = pushed q.manager gen idx (length items);
      slots = set q.slots (tail_idx q.manager idx (length items)) (some a);
    })

    pub try_push_back-room :
        (a : A)
        → off ≡ false
        → length items < q.manager.capacity
        → try_push_back a q ≡ some (after_push a, success)
    unfolding try_push_back push_with pushed after_push
    try_push_back-room a e lt = rw (reserve_push-room layout e lt) refl

    pub try_push_back-full :
        (a : A)
        → off ≡ false
        → length items ≡ q.manager.capacity
        → try_push_back a q ≡ some (q, queue_full)
    unfolding try_push_back push_with
    try_push_back-full a e f = rw (reserve_push-full layout e f) refl

    pub try_push_back-off : (a : A) → off ≡ true → try_push_back a q ≡ some (q, queue_disabled)
    unfolding try_push_back push_with
    try_push_back-off a e = rw (reserve_push-off layout e) refl

    pushed-slot :
        (a : A) (i : ℕ)
        → i < q.manager.capacity
        → length items < q.manager.capacity
        → get_elem? (set q.slots (tail_idx q.manager idx (length items)) (some a)) i
          ≡ some (get_elem? (items ++ a ∷ []) (offset q.manager idx i))
    pushed-slot a i b lt =
        get_elem?-set-if q.slots (tail_idx q.manager idx (length items)) i (some a)
          (omega (arith, h.sized, tail-lt layout))
        ∙ ground (
          arith,
          h.contents i b,
          layout.idx_range,
          get_elem?-snoc items a (offset q.manager idx i),
        )

    pub after_push-Holds :
        (a : A)
        → off ≡ false
        → length items < q.manager.capacity
        → Holds (after_push a) off (items ++ a ∷ [])
    unfolding after_push notify_popper pushed commit_push_index bump_push store_cell
    after_push-Holds a e lt = record {
      gen = gen;
      idx = idx;
      layout = rw (length-append items (a ∷ [])) (pushed-Layout layout e lt);
      sized = length-set q.slots _ _ ∙ h.sized;
      contents = λ i b. pushed-slot a i b lt;
    }

  -- the queue after a pop
  unfoldable pub after_pop : (q : Queue A) → ℕ → ℕ → Queue A
  after_pop q g r = record q { manager = popped q.manager g r; slots = set q.slots r none }

  module _ {q : Queue A} {off : Bool} {a : A} {items : List A} (h : Holds q off (a ∷ items)) where
    open h use {layout, gen, idx}

    pub try_pop_front-item : try_pop_front q ≡ some (notify_pusher (after_pop q gen idx), some a)
    unfolding try_pop_front pop_with pop_value take_out after_pop popped
    try_pop_front-item = rw (reserve_pop-item layout (omega arith), first) refl
      where
        first : get_elem? q.slots idx ≡ some (some a)
        first = h.contents idx layout.idx_range ∙ ground arith

    pub remove_with-item :
        (n : ℕ) (more : Queue A → ℕ → Option (Queue A × ℕ))
        → remove_with q n more (run alone q.manager (pop_load never))
          ≡ more (after_pop q gen idx) (n + 1)
    unfolding remove_with take_out after_pop popped
    remove_with-item n more = rw (reserve_pop-item layout (omega arith)) refl

    popped-slot :
        (i : ℕ)
        → i < q.manager.capacity
        → get_elem? (set q.slots idx none) i
          ≡ some (get_elem? items (offset q.manager (head_idx q.manager idx) i))
    popped-slot i b =
        get_elem?-set-if q.slots idx i none (omega (arith, h.sized, layout.idx_range))
        ∙ elim (Bool-cases (idx == i)) [
          | inl e ↦ rw e (
              ap some (
                sym (
                  get_elem?-ge items (offset q.manager (head_idx q.manager idx) i)
                    (ground (arith, layout.idx_range, layout.room)))))
          | inr e ↦
              let behind : offset q.manager idx i
                  ≡ suc (offset q.manager (head_idx q.manager idx) i) =
                ground (arith, layout.idx_range) in
              rw e (h.contents i b ∙ ap (λ (d : ℕ). some (get_elem? (a ∷ items) d)) behind)
        ]

    pub after_pop-Holds : Holds (after_pop q gen idx) off items
    unfolding after_pop popped commit_pop_index bump_pop store_cell
    after_pop-Holds = record {
      gen = head_gen q.manager gen idx;
      idx = head_idx q.manager idx;
      layout =
          subst
            (λ (n : ℕ).
              Layout (popped q.manager gen idx) off (head_gen q.manager gen idx)
                (head_idx q.manager idx) n)
            (one_less (length items)) (popped-Layout layout (omega arith));
      sized = length-set q.slots _ _ ∙ h.sized;
      contents = popped-slot;
    }
