-- ===== src/Util/Queue/Fifo.antt =====
-- The queue of llarp/util/thread/queue.hpp against what it promises: a bounded sequence, first in first
-- out, that can be closed for pushes.
use mathlib.Core.Option
use lokinet.Base.{
  ℕ, ◌+◌, ◌<◌, ◌≤◌, ◌≡◌, refl, Option, some, none, Bool, true, false, ltb, leb, if◌then◌else◌,
  length, arith, List, [], ◌∷◌, ◌++◌, Bool-cases, inl, inr, ap, ◌∙◌,
}
use lokinet.Util.QueueManager.{max_capacity, QueueReturn, success, queue_full, queue_disabled}
use lokinet.Util.Queue.{
  Queue, new_queue, try_push_back, try_pop_front, remove_all, remove_loop, notify_pusher, wake,
  disable, enable, size, is_full, is_empty, capacity,
}
use lokinet.Util.Queue.Kept.{
  try_pop_front-none, notify_pusher-Holds, disable-Holds, enable-Holds, notify_pusher-capacity,
  wake-Holds, wake-capacity, disable-capacity, enable-capacity, new_queue-capacity,
  after_push-capacity, after_pop-capacity, size-Holds, new_queue-Holds,
}
use lokinet.Util.Queue.Contents.{
  Holds, after_push, after_pop, try_push_back-room, try_push_back-full, try_push_back-off,
  after_push-Holds, try_pop_front-item, after_pop-Holds, remove_with-item,
}

-- A call of a method, and what it gives back.
pub data Call (A : Type 0) : Type 0 where
  push : A → Call A
  pop : Call A
  clear : Call A
  close : Call A
  reopen : Call A
  measure : Call A

pub data Reply (A : Type 0) : Type 0 where
  pushed : QueueReturn → Reply A
  popped : Option A → Reply A
  finished : Reply A
  measured : (size : ℕ) (is_full is_empty : Bool) → Reply A

module _ {A : Type 0} where
  -- one call of the code
  abbrev pub call : Call A → Queue A → Option (Queue A × Reply A)
  call (push a) q = Option.map (λ x. (x.0, pushed x.1)) (try_push_back a q)
  call pop q = Option.map (λ x. (x.0, popped x.1)) (try_pop_front q)
  call clear q = Option.map (λ q'. (q', finished)) (remove_all q)
  call close q = some (disable q, finished)
  call reopen q = some (enable q, finished)
  call measure q = some (q, measured (size q) (is_full q) (is_empty q))

  abbrev pub reply_then :
      Option (Queue A × Reply A) → (Queue A → Option (List (Reply A))) → Option (List (Reply A))
  reply_then none more = none
  reply_then (some (q, r)) more = Option.map (λ rs. r ∷ rs) (more q)

  -- the replies to a sequence of calls; `none` where a call does not return
  unfoldable pub replies : List (Call A) → Queue A → Option (List (Reply A))
  replies [] q = some []
  replies (c ∷ cs) q = reply_then (call c q) (replies cs)

-- The promise: a sequence of at most `capacity` elements, and whether it is closed.
pub record Fifo (A : Type 0) : Type 0 where
  pub closed : Bool
  pub items : List A

module _ {A : Type 0} where
  abbrev pub answer_push : A → ℕ → Fifo A → Fifo A × Reply A
  answer_push a n f =
      if f.closed
      then (f, pushed queue_disabled)
      else if ltb (length f.items) n
      then (record f { items = f.items ++ a ∷ [] }, pushed success)
      else (f, pushed queue_full)

  abbrev pub answer_pop : Fifo A → List A → Fifo A × Reply A
  answer_pop f [] = (f, popped none)
  answer_pop f (a ∷ rest) = (record f { items = rest }, popped (some a))

  abbrev pub answer : ℕ → Call A → Fifo A → Fifo A × Reply A
  answer n (push a) f = answer_push a n f
  answer n pop f = answer_pop f f.items
  answer n clear f = (record f { items = [] }, finished)
  answer n close f = (record f { closed = true }, finished)
  answer n reopen f = (record f { closed = false }, finished)
  answer n measure f =
      (f, measured (length f.items) (leb n (length f.items)) (leb (length f.items) 0))

  unfoldable pub answers : ℕ → List (Call A) → Fifo A → List (Reply A)
  answers n [] f = []
  answers n (c ∷ cs) f = (answer n c f).1 ∷ answers n cs (answer n c f).0

  -- A quiet queue that stands for such a sequence.
  record Stands (n : ℕ) (q : Queue A) (f : Fifo A) : Type 0 where
    holds : Holds q f.closed f.items
    bounded : q.manager.capacity ≡ n

  abbrev Answered : ℕ → Call A → Queue A → Fifo A → Type 0
  Answered n c q f =
      (q' : Queue A) × (call c q ≡ some (q', (answer n c f).1)) × Stands n q' (answer n c f).0

  abbrev reply_pushed : Queue A × QueueReturn → Queue A × Reply A
  reply_pushed x = (x.0, pushed x.1)

  abbrev reply_popped : Queue A × Option A → Queue A × Reply A
  reply_popped x = (x.0, popped x.1)

  module _ {n : ℕ} {q : Queue A} where
    push-Answered :
        (a : A) (c : Bool) (xs : List A)
        → Stands n q (record { closed = c; items = xs })
        → Answered n (push a) q (record { closed = c; items = xs })
    push-Answered a true xs s =
        (q, ap (Option.map reply_pushed) (try_push_back-off s.holds a refl), s)
    push-Answered a false xs s = elim (Bool-cases (ltb (length xs) n)) [
      | inl room ↦
          let fits : length xs < q.manager.capacity = ground (arith, s.bounded) in
          rw room (
            after_push s.holds a,
            ap (Option.map reply_pushed) (try_push_back-room s.holds a refl fits),
            record {
              holds = after_push-Holds s.holds a refl fits;
              bounded = after_push-capacity s.holds a ∙ s.bounded;
            },
          )
      | inr full ↦ rw full (
        q,
        ap (Option.map reply_pushed)
            (try_push_back-full s.holds a refl (ground (arith, s.bounded, s.holds.layout.room))),
        s,
      )
    ]

    pop-Answered :
        (c : Bool) (xs : List A)
        → Stands n q (record { closed = c; items = xs })
        → Answered n pop q (record { closed = c; items = xs })
    pop-Answered c [] s = (q, ap (Option.map reply_popped) (try_pop_front-none s.holds refl), s)
    pop-Answered c (x ∷ xs) s = (
      notify_pusher (after_pop q s.holds.gen s.holds.idx),
      ap (Option.map reply_popped) (try_pop_front-item s.holds),
      record {
        holds = notify_pusher-Holds (after_pop-Holds s.holds);
        bounded =
            notify_pusher-capacity _ ∙ after_pop-capacity q s.holds.gen s.holds.idx ∙ s.bounded;
      },
    )

  -- the loop of `removeAll` takes every element out
  remove_loop-clears :
      {n : ℕ} (xs : List A) (q : Queue A) (c : Bool) (k : ℕ)
      → Stands n q (record { closed = c; items = xs })
      → (q' : Queue A) × (k' : ℕ) × (remove_loop (length xs) q k ≡ some (q', k'))
        × Stands n q' (record { closed = c; items = [] })
  unfolding remove_loop
  remove_loop-clears [] q c k s = (q, k + 1, refl, s)
  remove_loop-clears (x ∷ xs) q c k s =
      let (q', k', e, s') =
        remove_loop-clears xs (after_pop q s.holds.gen s.holds.idx) c (k + 1) (record {
          holds = after_pop-Holds s.holds;
          bounded = after_pop-capacity q s.holds.gen s.holds.idx ∙ s.bounded;
        }) in
      (q', k', remove_with-item s.holds k (remove_loop (length xs)) ∙ e, s')

  clear-Answered :
      {n : ℕ} {q : Queue A} (c : Bool) (xs : List A)
      → Stands n q (record { closed = c; items = xs })
      → Answered n clear q (record { closed = c; items = xs })
  unfolding remove_all
  clear-Answered {q} c xs s =
      let (q', k', e, s') = remove_loop-clears xs q c 0 s in
      (
        wake (q', k'),
        rw (size-Holds s.holds, e) refl,
        record { holds = wake-Holds s'.holds k'; bounded = wake-capacity q' k' ∙ s'.bounded },
      )

  call-Answered : {n : ℕ} {q : Queue A} {f : Fifo A} (c : Call A) → Stands n q f → Answered n c q f
  unfolding is_full is_empty capacity
  call-Answered {f} (push a) s = push-Answered a f.closed f.items s
  call-Answered {f} pop s = pop-Answered f.closed f.items s
  call-Answered {f} clear s = clear-Answered f.closed f.items s
  call-Answered {q} close s = (
    disable q,
    refl,
    record { holds = disable-Holds s.holds; bounded = disable-capacity s.holds ∙ s.bounded },
  )
  call-Answered {q} reopen s = (
    enable q,
    refl,
    record { holds = enable-Holds s.holds; bounded = enable-capacity s.holds ∙ s.bounded },
  )
  call-Answered {q} measure s = (q, rw (size-Holds s.holds, s.bounded) refl, s)

  replies-answers :
      {n : ℕ} (cs : List (Call A)) {q : Queue A} {f : Fifo A}
      → Stands n q f
      → replies cs q ≡ some (answers n cs f)
  unfolding replies answers
  replies-answers [] s = refl
  replies-answers (c ∷ cs) s =
      let (q', e, s') = call-Answered c s in rw (e, replies-answers cs s') refl

  -- A queue of one up to 2 ^ 30 elements that one thread uses answers every sequence of calls the way a
  -- bounded sequence does that is first in first out: each call returns; a push fails with
  -- `queue_disabled` on a disabled queue and with `queue_full` on one with `capacity` elements, and
  -- appends the element otherwise; a pop gives the first element, or none; `removeAll` leaves none;
  -- `size`, `full` and `empty` tell the number of elements.
  pub queue-fifo :
      (capacity : ℕ) (cs : List (Call A))
      → 0 < capacity
      → capacity ≤ max_capacity
      → replies cs (new_queue capacity)
        ≡ some (answers capacity cs (record { closed = false; items = [] }))
  queue-fifo capacity cs h h' =
      replies-answers cs
        (record { holds = new_queue-Holds capacity h h'; bounded = new_queue-capacity A capacity })
