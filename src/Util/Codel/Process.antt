-- ===== src/Util/Codel/Process.antt =====
-- `CoDelQueue` of llarp/util/codel.hpp as a queue: what is put comes out in order, each item once.
use lokinet.Base.Int.{ℤ, sub_ℕ, above, above-sub_ℕ, above-min_ℤ}
use lokinet.Base.{
  ℕ, suc, ◌+◌, ◌≤◌, ◌<◌, ◌≡◌, refl, sym, ap, ◌∙◌, Bool, true, false, ◌&&◌, Option, none, some, List,
  [], ◌∷◌, ◌++◌, map, arith, All, le→ltb, ◌==◌, if◌then◌else◌, length, get_elem?, set,
  get_elem?-set, Bool-cases, inl, inr, length-append, get_elem?-set_self, get_elem?-append_self,
  get_elem?-append_left, All-append, subst,
}
use lokinet.Util.Codel.{
  Item, CodelQueue, store, emplace, process, process_loop, process_one, process_all, finish, calm,
  destroy, lower, drop_ms, visit,
}
use native.Mathlib.Nat.{add-zero, zero-add}
use mathlib.Core.List.{map-append}

not_late :
    (start t : ℕ) (lowest : Option ℤ)
    → start ≤ t
    → above (lower (sub_ℕ start t) lowest) drop_ms ≡ false
not_late start t none h = above-sub_ℕ start t drop_ms h
not_late start t (some l) h = above-min_ℤ (sub_ℕ start t) l drop_ms (above-sub_ℕ start t drop_ms h)

module _ {A : Type 0} where
  abbrev pub payloads : List (Item A) → List A
  payloads = map λ it. it.payload

  length-stored :
      (items : List (Item A)) → length (map (λ (it : Item A). some it) items) ≡ length items
  length-stored [] = refl
  length-stored (it ∷ items) = ap suc (length-stored items)

  -- The queue holds these items, oldest first, and none was put before `first_put`,
  -- which is zero only in an empty queue.
  pub record Holds (q : CodelQueue A) (items : List (Item A)) : Type 0 where
    pub counted : q.queue_idx ≡ length items
    pub stored : (i : ℕ) → i < length items → get_elem? q.cells i ≡ get_elem? (map some items) i
    pub fresh : q.first_put ≡ 0 → items ≡ []
    pub since : All (λ it. q.first_put ≤ it.put_at) items

  -- the queue after its item at `idx` was taken, with `n` more to come
  after : ℕ → ℕ → CodelQueue A → CodelQueue A
  after n idx q =
      let q1 = record q { queue_idx = n } in destroy idx (if n == 0 then calm q1 else q1)

  loop_step :
      (start n idx : ℕ) (lowest : Option ℤ) (q : CodelQueue A) (it : Item A)
      → get_elem? q.cells idx ≡ some (some it)
      → start ≤ it.put_at
      → process_loop (λ _. false) start (suc n) idx lowest q
        ≡ visit it.payload (
            process_loop
              (λ _. false)
              start
              n
              (idx + 1)
              (some (lower (sub_ℕ start it.put_at) lowest))
              (after n idx q))
  unfolding process_loop after
  loop_step start n idx lowest q it e since =
      rw (e, process_loop) (pass (n == 0) _ _ _ (not_late start it.put_at lowest since))
    where
      pass : {B : Type 0} (b c : Bool) (x y : B) → c ≡ false → (if b && c then x else y) ≡ y
      pass b c x y h = ground arith

  after-cells :
      (n idx : ℕ) (q : CodelQueue A)
      → ((after n idx q).cells ≡ set q.cells idx none) × ((after n idx q).queue_idx ≡ n)
  unfolding after calm
  after-cells n idx q = ground arith

  loop_visits :
      (start idx : ℕ) (items : List (Item A)) (lowest : Option ℤ) (q : CodelQueue A)
      → q.queue_idx ≡ length items
      → ((i : ℕ) → i < length items → get_elem? q.cells (idx + i) ≡ get_elem? (map some items) i)
      → All (λ it. start ≤ it.put_at) items
      → (q' : CodelQueue A) × (process_loop (λ _. false) start (length items) idx lowest q
          ≡ some (q', payloads items))
        × (q'.queue_idx ≡ 0)
        × (q'.first_put ≡ 0)
  loop_visits start idx [] lowest q c st since =
      (finish start q, unfold process_loop in refl, unfold finish in c, unfold finish in refl)
  loop_visits start idx (it ∷ items) lowest q c st since =
      let n = length items in
      let head : get_elem? q.cells idx ≡ some (some it) =
        ap (get_elem? q.cells) (sym (add-zero idx)) ∙ st 0 (omega arith) in
      let taken = after-cells n idx q in
      let (q', e, z, f) =
        loop_visits start (idx + 1) items (some (lower (sub_ℕ start it.put_at) lowest))
          (after n idx q) taken.1
          (λ i lt.
            ap (λ (cs : List (Option (Item A))). get_elem? cs (idx + 1 + i)) taken.0
            ∙ get_elem?-set q.cells idx (idx + 1 + i) none (λ same. absurd (omega arith))
            ∙ ap (get_elem? q.cells) (omega arith)
            ∙ st (suc i) (omega arith))
          since.1 in
      (q', loop_step start n idx lowest q it head since.0 ∙ rw e, z, f)

  one_item :
      (now : ℕ) (q : CodelQueue A)
      → (q.queue_idx == 1) ≡ true
      → (items : List (Item A)) → q.queue_idx ≡ length items
      → ((i : ℕ) → i < length items → get_elem? q.cells i ≡ get_elem? (map some items) i)
      → (q' : CodelQueue A) × (process_one q ≡ some (q', payloads items))
        × (q'.queue_idx ≡ 0)
        × (q'.first_put ≡ 0)
  unfolding process_one
  one_item now q e [] c st = absurd (ground arith)
  one_item now q e (it ∷ []) c st = (
    record (destroy 0 q) { queue_idx = 0; first_put = 0 },
    rw (st 0 (omega arith), process_one) refl,
    refl,
    refl,
  )
  one_item now q e (it ∷ it' ∷ items) c st = absurd (ground arith)

  -- A process that is due, of a queue in which no item was put before `first_put`, hands over
  -- every item, in the order of the puts, and leaves the queue empty: none is dropped.
  pub process_all-visits :
      (now : ℕ) (items : List (Item A)) (q : CodelQueue A)
      → Holds q items
      → q.next_tick_at ≤ now
      → (q' : CodelQueue A) × (process_all now q ≡ some (q', payloads items))
        × (q'.queue_idx ≡ 0)
        × (q'.first_put ≡ 0)
  unfolding process
  process_all-visits now items q h due =
      rw (le→ltb now q.next_tick_at due) (elim (Bool-cases (q.queue_idx == 1)) [
        | inl e ↦ rw e (one_item now q e items h.counted h.stored)
        | inr e ↦ rw e (
            subst
              (λ n.
                (q' : CodelQueue A) × (process_loop (λ _. false) q.first_put n 0 none q
                  ≡ some (q', payloads items))
                × (q'.queue_idx ≡ 0)
                × (q'.first_put ≡ 0))
              (sym h.counted)
              (loop_visits q.first_put 0 items none q h.counted
                (λ i lt. rw (zero-add i) (h.stored i lt)) h.since))
      ])

  -- A put adds its item at the end, if there is room for it and the clock is positive and has not
  -- gone back behind `first_put`.
  pub emplace-Holds :
      (clock : ℕ) (a : A) (items : List (Item A)) (q : CodelQueue A)
      → Holds q items
      → q.queue_idx < length q.cells
      → 0 < clock
      → q.first_put ≤ clock
      → Holds (emplace clock a q) (items ++ record { payload = a; put_at = clock } ∷ [])
  unfolding emplace store
  emplace-Holds clock a items q h room pos later = rw full (record {
    counted = rw (length-append items (it ∷ []), h.counted) refl;
    stored = stored;
    fresh = λ z. absurd (ground arith);
    since = All-append _ items it (old h.since) (ground arith);
  })
    where
      it : Item A
      it = record { payload = a; put_at = clock }

      stored :
          (i : ℕ)
          → i < length (items ++ it ∷ [])
          → get_elem? (set q.cells q.queue_idx (some it)) i
            ≡ get_elem? (map some (items ++ it ∷ [])) i
      stored i lt =
          let bound : i < length items + 1 = rw⁻¹ (length-append items (it ∷ [])) lt in
          rw (map-append some items (it ∷ [])) (elim (Bool-cases (i == length items)) [
            | inl e ↦
                let same : i ≡ length items = ground arith in
                rw (same, h.counted)
                  (get_elem?-set_self q.cells (length items) (some it) (ground arith)
                    ∙ sym (
                        rw⁻¹ (length-stored items)
                          (get_elem?-append_self (map some items) (some it))))
            | inr e ↦
                get_elem?-set q.cells q.queue_idx i (some it) (ground arith)
                ∙ h.stored i (ground arith)
                ∙ sym (
                    get_elem?-append_left (map some items) (some it ∷ []) i
                      (rw (length-stored items) (ground arith)))
          ])

      old :
          All (λ x. q.first_put ≤ x.put_at) items
          → All (λ x. (if q.first_put == 0 then clock else q.first_put) ≤ x.put_at) items
      old ps = elim (Bool-cases (q.first_put == 0)) [
        | inl e ↦ rw (h.fresh (ground arith)) tt
        | inr e ↦ rw e ps
      ]

      full : (q.queue_idx == length q.cells) ≡ false
      full = ground arith
