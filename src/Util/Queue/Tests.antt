-- ===== src/Util/Queue/Tests.antt =====
-- The theorems on llarp/util/thread at concrete inputs.
use lokinet.Base.{ℕ, ◌≡◌, refl, true, false, none, some, List, [], ◌∷◌, arith, get_elem?}
use lokinet.Util.QueueManager.{
  success, queue_full, queue_disabled, encode_element, writing, cell, is_disabled_flag_set,
  new_manager, discard_disabled_flag, exchanged, store_cell, next_combined_index, num_generations,
}
use lokinet.Util.QueueManager.Steps.{step, push_attempt, bump_push}
use lokinet.Util.QueueManager.Threads.{System, Reach, start, later, pick, go, call_push}
use lokinet.Util.QueueManager.Exclusive.{reachable-exclusive}
use lokinet.Util.Queue.{new_queue}
use lokinet.Util.Queue.Fifo.{
  Call, push, pop, clear, close, reopen, measure, pushed, popped, finished, measured, replies,
  answers, queue-fifo,
}

-- The ring goes round, the queue is full, empty, closed and cleared.
abbrev calls : List (Call ℕ)
calls =
    push 7
    ∷ push 8
    ∷ push 9
    ∷ pop
    ∷ push 10
    ∷ measure
    ∷ close
    ∷ push 11
    ∷ pop
    ∷ reopen
    ∷ push 12
    ∷ clear
    ∷ pop
    ∷ []

queue-fifo_example :
    replies calls (new_queue 2) ≡ some (answers 2 calls (record { closed = false; items = [] }))
queue-fifo_example = queue-fifo 2 calls (omega arith) (omega arith)

answers_run :
    answers 2 calls (record { closed = false; items = [] })
    ≡ pushed success
      ∷ pushed success
      ∷ pushed queue_full
      ∷ popped (some 7)
      ∷ pushed success
      ∷ measured 2 true false
      ∷ finished
      ∷ pushed queue_disabled
      ∷ popped (some 8)
      ∷ finished
      ∷ pushed success
      ∷ finished
      ∷ popped none
      ∷ []
unfolding answers
answers_run = refl

-- Thread 3 has reserved the first element of a ring of two, and thread 5 the second one.
abbrev contended : (s : System) × Reach 2 s
contended = (
  _,
  later
      (later
        (later
          (later (later (later (later start (pick 3 call_push)) (pick 3 go)) (pick 3 go))
            (pick 3 go))
          (pick 5 call_push))
        (pick 5 go))
      (pick 5 go),
)

reachable-exclusive_example :
    (◌≡◌ {A = ℕ} 5 5) × (get_elem? contended.0.manager.states 1 ≡ some (encode_element 0 writing))
unfolding step push_attempt is_disabled_flag_set new_manager cell discard_disabled_flag
    encode_element bump_push exchanged store_cell next_combined_index num_generations
reachable-exclusive_example =
    reachable-exclusive {s = contended.0} 5 5 1 (omega arith) contended.1 refl refl
