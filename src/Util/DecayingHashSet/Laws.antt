-- ===== src/Util/DecayingHashSet/Laws.antt =====
-- What llarp/util/decaying_hashset.hpp holds after each call.
use lokinet.Base.{
  ℕ, ◌+◌, ◌≡◌, refl, Bool, true, false, not, Option, none, some, arith, Eq, Bool-cases, inl, inr,
  leb, if◌then◌else◌, is_some, ap, ◌∙◌, is_some-none, sym,
}
use lokinet.Base.Map.{
  find?, insert, kept, Distinct, find?-insert, find?-erase_if, insert-Distinct, try_emplace-none,
  try_emplace-some, find?-insert_self,
}
use lokinet.Util.DecayingHashSet.{
  DecayingHashSet, contains, insert_at, upsert, decay, or_clock, expired,
}

-- Whether an entry of this time outlives a decay at `now`.
abbrev pub survives : ℕ → ℕ → Option ℕ → Bool
survives interval now none = false
survives interval now (some at) = not (leb (interval + at) now)

module _ {ℓ} {A : Type ℓ} ⦃e : Eq A⦄ where
  -- the time of a value, if it is held
  abbrev pub time_of : A → DecayingHashSet A → Option ℕ
  time_of v s = find? v s.values

  abbrev pub IsMap : DecayingHashSet A → Type 0
  IsMap s = Distinct s.values

  survives-kept :
      (interval now : ℕ) (v : A) (o : Option ℕ)
      → is_some (kept (expired interval now) v o) ≡ survives interval now o
  unfolding kept
  survives-kept interval now v o = ground arith

  -- After a decay just the values whose interval is not over are held.
  pub contains-decay :
      (clock now : ℕ) (v : A) (s : DecayingHashSet A)
      → IsMap s
      → contains v (decay clock now s)
        ≡ survives s.cache_interval (or_clock clock now) (time_of v s)
  unfolding contains decay
  contains-decay clock now v s d =
      ap is_some (find?-erase_if (expired s.cache_interval (or_clock clock now)) v s.values d)
      ∙ survives-kept s.cache_interval (or_clock clock now) v (time_of v s)

  insert_at-absent :
      (clock now : ℕ) (v : A) (s : DecayingHashSet A)
      → contains v s ≡ false
      → insert_at clock v now s
        ≡ (record s { values = insert v (or_clock clock now) s.values }, true)
  unfolding insert_at contains
  insert_at-absent clock now v s h =
      rw (try_emplace-none v (or_clock clock now) s.values (is_some-none _ h))

  insert_at-present :
      (clock now at : ℕ) (v : A) (s : DecayingHashSet A)
      → time_of v s ≡ some at
      → insert_at clock v now s ≡ (s, false)
  unfolding insert_at
  insert_at-present clock now at v s h = rw (try_emplace-some v (or_clock clock now) s.values h)

  -- A value that is inserted where it was absent, and inserted again before the decay, is held
  -- after the decay exactly if one interval from the first insertion is not over: the second
  -- insertion is refused and changes nothing.
  pub insert-twice-decay :
      (clock first later now : ℕ) (v : A) (s : DecayingHashSet A)
      → IsMap s
      → contains v s ≡ false
      → let s1 = (insert_at clock v first s).0 in
        ((insert_at clock v first s).1 ≡ true)
        × (insert_at clock v later s1 ≡ (s1, false))
        × (contains v (decay clock now s1)
            ≡ not (leb (s.cache_interval + or_clock clock first) (or_clock clock now)))
  insert-twice-decay clock first later now v s d absent =
      let held = find?-insert_self v (or_clock clock first) s.values in
      rw (insert_at-absent clock first v s absent) (
        refl,
        insert_at-present clock later (or_clock clock first) v _ held,
        contains-decay clock now v _ (insert-Distinct v (or_clock clock first) s.values d)
            ∙ ap (survives s.cache_interval (or_clock clock now)) held,
      )

  -- After an upsert and a decay, the value is held exactly if one interval from the upsert is not
  -- over, and any other value exactly if it is held after the decay alone.
  pub upsert-decay :
      (clock now : ℕ) (v w : A) (s : DecayingHashSet A)
      → IsMap s
      → contains w (decay clock now (upsert clock v s)) ≡ (
          if e.beq v w
          then not (leb (s.cache_interval + clock) (or_clock clock now))
          else contains w (decay clock now s))
  unfolding upsert
  upsert-decay clock now v w s d =
      let held = find?-insert v w clock s.values in
      let after =
        contains-decay clock now w (upsert clock v s) (insert-Distinct v clock s.values d) in
      elim (Bool-cases (e.beq v w)) [
        | inl h ↦
            let found : find? w (insert v clock s.values) ≡ some clock = held ∙ rw h in
            rw h (after ∙ ap (survives s.cache_interval (or_clock clock now)) found)
        | inr h ↦
            let found : find? w (insert v clock s.values) ≡ find? w s.values = held ∙ rw h in
            rw h (
              after
              ∙ ap (survives s.cache_interval (or_clock clock now)) found
              ∙ sym (contains-decay clock now w s d))
      ]
