-- ===== src/Util/QueueManager/Effects.antt =====
-- What one move of a thread does to the ring of llarp/util/thread/queue_manager.cpp and to the elements
-- that the thread owns.
use mathlib.Core.Option
use mathlib.Core.Option.{Option, none, some}
use lokinet.Base.{
  ℕ, zero, suc, ◌%◌, ◌<◌, ◌≡◌, refl, ◌≢◌, List, [], ◌∷◌, ◌⊎◌, inl, inr, get_elem?, length, arith,
  get_elem?-set, get_elem?-set_self, length-set, ◌∷◌, sym, ◌∙◌, ap,
}
use lokinet.Util.QueueManager.{
  empty, writing, full, reading, QueueManager, encode_element, store_cell,
}
use lokinet.Util.QueueManager.Steps.{Pc, clear_bump, clearing}
use lokinet.Util.QueueManager.Threads.{holds}

-- A word whose state is `writing` or `reading`.
abbrev pub IsOwned : ℕ → Type 0
IsOwned word = word % 2 ≡ 1

pub encode-writing : (g : ℕ) → encode_element g writing % 2 ≡ 1
unfolding encode_element
encode-writing g = omega arith

pub encode-reading : (g : ℕ) → encode_element g reading % 2 ≡ 1
unfolding encode_element
encode-reading g = omega arith

pub encode-empty : (g : ℕ) → encode_element g empty % 2 ≡ 0
unfolding encode_element
encode-empty g = omega arith

pub encode-full : (g : ℕ) → encode_element g full % 2 ≡ 0
unfolding encode_element
encode-full g = omega arith

-- what the elements that a thread owns hold
abbrev pub Owns : QueueManager → Pc → Type 0
Owns m p = (k w : ℕ) → holds p k ≡ some w → (get_elem? m.states k ≡ some w) × IsOwned w

-- the two elements of a thread that clears the ring are different
abbrev pub Apart : Pc → Type 0
Apart (clear_bump g i loaded gen idx) = i ≢ idx
Apart (clearing g i gen idx) = i ≢ idx
Apart _ = Unit

-- What a move does to the ring, for the threads that stand still.
pub record Effect (m : QueueManager) (p : Pc) (m' : QueueManager) (p' : Pc) : Type 0 where
  pub owns : Owns m' p'
  pub same_length : length m'.states ≡ length m.states
  pub same_capacity : m'.capacity ≡ m.capacity
  pub apart : Apart p'
  -- an element that the thread owns now it owned before, or nobody did
  pub taken :
      (k w : ℕ)
      → holds p' k ≡ some w
      → ((v : ℕ) × (holds p k ≡ some v)) ⊎ ((v : ℕ) × (get_elem? m.states k ≡ some v) × (v % 2 ≡ 0))
  -- an element of another thread is left alone
  pub kept :
      (k w : ℕ)
      → holds p k ≡ none
      → get_elem? m.states k ≡ some w
      → IsOwned w
      → get_elem? m'.states k ≡ some w

-- A move that leaves the ring alone.
pub quiet :
    {m m' : QueueManager} {p p' : Pc}
    → m'.states ≡ m.states
    → m'.capacity ≡ m.capacity
    → Apart p'
    → ((k : ℕ) → holds p' k ≡ holds p k)
    → Owns m p
    → Effect m p m' p'
quiet e c a same owns = record {
  owns = λ k w h. ground (arith, same k, owns k w);
  same_length = ap length e;
  same_capacity = c;
  apart = a;
  taken = λ k w h. inl (w, ground (arith, same k));
  kept = λ k w h g o. ground arith;
}

get_elem?-bound : (xs : List ℕ) (k : ℕ) {v : ℕ} → get_elem? xs k ≡ some v → k < length xs
get_elem?-bound [] k h = cc
get_elem?-bound (x ∷ xs) zero h = omega arith
get_elem?-bound (x ∷ xs) (suc k) h = omega (arith, get_elem?-bound xs k h)

pub get_elem?-or :
    (xs : List ℕ) (k : ℕ) → k < length xs → get_elem? xs k ≡ some (Option.get_or (get_elem? xs k) 0)
get_elem?-or [] k h = absurd (omega arith)
get_elem?-or (x ∷ xs) zero h = refl
get_elem?-or (x ∷ xs) (suc k) h = get_elem?-or xs k (omega arith)

-- A move that stores a word into an element which the thread owned, or which nobody could own.
pub stored :
    {m : QueueManager} {p p' : Pc} (idx word : ℕ)
    → Apart p'
    → ((k v : ℕ)
        → holds p' k ≡ some v
        → ((k ≡ idx) × (v ≡ word) × IsOwned word) ⊎ ((k ≢ idx) × (holds p k ≡ some v)))
    → ((v : ℕ) × (holds p idx ≡ some v))
      ⊎ ((v : ℕ) × (get_elem? m.states idx ≡ some v) × (v % 2 ≡ 0))
    → Owns m p
    → Effect m p (store_cell idx word m) p'
unfolding store_cell
stored {m} {p} {p'} idx word a split source owns = record {
  owns = λ k w h. elim (split k w h) [
    | inl (e, e', o) ↦ (rw (e, e') (get_elem?-set_self m.states idx word bound), rw e' o)
    | inr (n, h') ↦
        (get_elem?-set m.states idx k word (λ e. n (sym e)) ∙ (owns k w h').0, (owns k w h').1)
  ];
  same_length = length-set m.states idx word;
  same_capacity = refl;
  apart = a;
  taken = λ k w h. elim (split k w h) [ inl (e, _, _) ↦ rw e source | inr (_, h') ↦ inl (w, h') ];
  kept = λ k w h g o. get_elem?-set m.states idx k word (λ e. foreign (rw e h) (rw e g) o) ∙ g;
}
  where
    bound : idx < length m.states
    bound = elim source [
      | inl (v, h) ↦ get_elem?-bound m.states idx (owns idx v h).0
      | inr (v, h, _) ↦ get_elem?-bound m.states idx h
    ]

    foreign : {w : ℕ} → holds p idx ≡ none → get_elem? m.states idx ≡ some w → IsOwned w → ⊥
    foreign h g o = elim source [ inl (v, h') ↦ cc | inr (v, h', ev) ↦ ground arith ]
