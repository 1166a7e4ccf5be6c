-- ===== src/Util/Queue/Kept.antt =====
-- What the other methods of the queue do to what it holds, and that none changes the capacity
-- (llarp/util/thread/queue.hpp).
use lokinet.Base.{
  ℕ, ◌^◌, ◌<◌, ◌≤◌, ◌≡◌, refl, some, none, Bool, true, false, length, arith, List, [], ◌∙◌, ap, sym,
  length-replicate,
}
use lokinet.Util.QueueManager.{new_manager, store_cell}
use lokinet.Util.QueueManager.Steps.{commit_push_index, commit_pop_index, bump_push, bump_pop}
use lokinet.Util.QueueManager.Reserve.{reserve_pop-none}
use lokinet.Util.QueueManager.Release.{pushed, popped}
use lokinet.Util.QueueManager.Flags.{
  new_manager-Layout, get_elem?-replicate, disabled-capacity, enabled-capacity, disabled-Layout,
  enabled-Layout, size-Layout,
}
use lokinet.Util.Queue.{
  Queue, new_queue, pop_with, try_pop_front, notify_popper, notify_pusher, wake, disable, enable,
  size, commit_push_index, commit_pop_index, new_manager,
}
use lokinet.Util.Queue.Contents.{Holds, after_push, after_pop}

module _ {A : Type 0} where
  module _ {q : Queue A} {off : Bool} {items : List A} (h : Holds q off items) where
    open h use {layout, gen, idx}

    pub try_pop_front-none : items ≡ [] → try_pop_front q ≡ some (q, none)
    unfolding try_pop_front pop_with
    try_pop_front-none e = rw (reserve_pop-none layout (ap length e)) refl

    -- the counts of the semaphores and the sleepers have no part in what the queue holds
    pub notify_pusher-Holds : Holds (notify_pusher q) off items
    unfolding notify_pusher
    notify_pusher-Holds = record {
      gen = gen;
      idx = idx;
      layout = layout;
      sized = h.sized;
      contents = h.contents;
    }

    pub disable-Holds : Holds (disable q) true items
    unfolding disable
    disable-Holds = record {
      gen = gen;
      idx = idx;
      layout = disabled-Layout layout;
      sized = h.sized ∙ sym (disabled-capacity layout);
      contents = λ i b.
          rw (disabled-capacity layout) (h.contents i (omega (arith, b, disabled-capacity layout)));
    }

    pub enable-Holds : Holds (enable q) false items
    unfolding enable
    enable-Holds = record {
      gen = gen;
      idx = idx;
      layout = enabled-Layout layout;
      sized = h.sized ∙ sym (enabled-capacity layout);
      contents = λ i b.
          rw (enabled-capacity layout) (h.contents i (omega (arith, b, enabled-capacity layout)));
    }

    pub size-Holds : size q ≡ length items
    unfolding size
    size-Holds = size-Layout layout

  pub new_queue-Holds :
      (capacity : ℕ)
      → 0 < capacity
      → capacity ≤ 2 ^ 30
      → Holds {A = A} (new_queue capacity) false []
  unfolding new_queue new_manager
  new_queue-Holds capacity h h' = record {
    gen = 0;
    idx = 0;
    layout = new_manager-Layout capacity h h';
    sized = length-replicate capacity none;
    contents = λ i b. get_elem?-replicate capacity i none b;
  }

  -- No method changes the capacity.
  pub after_push-capacity :
      {q : Queue A} {off : Bool} {items : List A} (h : Holds q off items) (a : A)
      → (after_push h a).manager.capacity ≡ q.manager.capacity
  unfolding after_push pushed notify_popper commit_push_index bump_push store_cell
  after_push-capacity h a = refl

  pub after_pop-capacity :
      (q : Queue A) (g r : ℕ) → (after_pop q g r).manager.capacity ≡ q.manager.capacity
  unfolding after_pop popped commit_pop_index bump_pop store_cell
  after_pop-capacity q g r = refl

  pub notify_pusher-capacity :
      (q : Queue A) → (notify_pusher q).manager.capacity ≡ q.manager.capacity
  unfolding notify_pusher
  notify_pusher-capacity q = refl

  pub wake-capacity : (q : Queue A) (n : ℕ) → (wake (q, n)).manager.capacity ≡ q.manager.capacity
  unfolding wake
  wake-capacity q n = refl

  pub wake-Holds :
      {q : Queue A} {off : Bool} {items : List A}
      → Holds q off items
      → (n : ℕ) → Holds (wake (q, n)) off items
  unfolding wake
  wake-Holds h n = record {
    gen = h.gen;
    idx = h.idx;
    layout = h.layout;
    sized = h.sized;
    contents = h.contents;
  }

  pub disable-capacity :
      {q : Queue A} {off : Bool} {items : List A}
      → Holds q off items
      → (disable q).manager.capacity ≡ q.manager.capacity
  unfolding disable
  disable-capacity h = disabled-capacity h.layout

  pub enable-capacity :
      {q : Queue A} {off : Bool} {items : List A}
      → Holds q off items
      → (enable q).manager.capacity ≡ q.manager.capacity
  unfolding enable
  enable-capacity h = enabled-capacity h.layout

pub new_queue-capacity :
    (A : Type 0) (capacity : ℕ) → (new_queue {A = A} capacity).manager.capacity ≡ capacity
unfolding new_queue new_manager
new_queue-capacity A capacity = refl
