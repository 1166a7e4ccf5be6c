-- ===== src/Util/DecayingHashTable/Laws.antt =====
-- What llarp/util/decaying_hashtable.hpp answers after each call.
use lokinet.Base.{
  ℕ, ◌+◌, ◌≡◌, refl, sym, Bool-cases, ap, ◌∙◌, Bool, true, false, is_some, is_some-none, Option,
  none, some, List, arith, Eq, Option-cases, inl, inr, leb, ◌==◌, if◌then◌else◌,
}
use lokinet.Base.Map.{
  find?, kept, Distinct, find?-insert, find?-insert_self, insert-Distinct, insert, find?-erase,
  find?-erase_if, try_emplace-none, try_emplace-some,
}
use lokinet.Util.DecayingHashTable.{
  DecayingHashTable, decay, has, put, get, remove, expired, value_of,
}

-- what is left at `now` of an entry
abbrev pub unless_expired {κ} : {V : Type κ} → ℕ → ℕ → Option (V × ℕ) → Option V
unless_expired interval now none = none
unless_expired interval now (some (v, at)) = if leb (at + interval) now then none else some v

module _ {ℓ κ} {K : Type ℓ} {V : Type κ} ⦃e : Eq K⦄ where
  abbrev pub IsMap : DecayingHashTable K V → Type κ
  IsMap t = Distinct t.values

  -- `Has` and `Get` agree.
  pub has-get : (k : K) (t : DecayingHashTable K V) → has k t ≡ is_some (get k t)
  unfolding has get
  has-get k t = ground arith

  -- A put of a key that is not held can be read back, and leaves the other keys alone.
  pub get-put :
      (clock now : ℕ) (k j : K) (v : V) (t : DecayingHashTable K V)
      → has k t ≡ false
      → ((put clock k v now t).1 ≡ true)
        × (get j (put clock k v now t).0 ≡ (if e.beq k j then some v else get j t))
  unfolding put get has
  get-put clock now k j v t h =
      let entry : V × ℕ = (v, if now == 0 then clock else now) in
      let added = try_emplace-none k entry t.values (is_some-none _ h) in
      (
        ap (λ (r : List (K × (V × ℕ)) × Bool). r.1) added,
        ap (λ (r : List (K × (V × ℕ)) × Bool). value_of (find? j r.0)) added
            ∙ ap value_of (find?-insert k j entry t.values)
            ∙ ground arith,
      )

  -- A put of a key that is held is refused.
  pub put-held :
      (clock now : ℕ) (k : K) (v w : V) (t : DecayingHashTable K V)
      → get k t ≡ some w
      → put clock k v now t ≡ (t, false)
  unfolding put get
  put-held clock now k v w t h = elim (Option-cases (find? k t.values)) [
    | inl e1 ↦ absurd (ground arith)
    | inr (x, e1) ↦ rw (try_emplace-some k (v, if now == 0 then clock else now) t.values e1)
  ]

  pub get-remove :
      (k j : K) (t : DecayingHashTable K V)
      → get j (remove k t) ≡ (if e.beq k j then none else get j t)
  unfolding get remove
  get-remove k j t = ground (arith, find?-erase k j t.values)

  kept_value :
      (interval now : ℕ) (k : K) (o : Option (V × ℕ))
      → value_of (kept (expired interval now) k o) ≡ unless_expired interval now o
  unfolding kept
  kept_value interval now k o = ground arith

  -- In a table without repeated keys, a decay forgets just the entries whose interval is over.
  pub get-decay :
      (now : ℕ) (k : K) (t : DecayingHashTable K V)
      → IsMap t
      → get k (decay now t) ≡ unless_expired t.cache_interval now (find? k t.values)
  unfolding get decay
  get-decay now k t d =
      ap value_of (find?-erase_if (expired t.cache_interval now) k t.values d)
      ∙ kept_value t.cache_interval now k (find? k t.values)

  -- A value is put under a key that a table without repeated keys does not hold, and another under the
  -- same key later on: the second put is refused and changes nothing. After a decay the key has the
  -- first value, unless one interval from the first put is over; any other key has what it has after
  -- the decay alone.
  pub put-twice-decay :
      (clock first clock' later now : ℕ) (k j : K) (v w : V) (t : DecayingHashTable K V)
      → IsMap t
      → has k t ≡ false
      → let t1 = (put clock k v first t).0 in
        ((put clock k v first t).1 ≡ true)
        × (put clock' k w later t1 ≡ (t1, false))
        × (get j (decay now t1) ≡ (
            if e.beq k j
            then (if leb ((if first == 0 then clock else first) + t.cache_interval) now
                then none
                else some v)
            else get j (decay now t)))
  unfolding put has
  put-twice-decay clock first clock' later now k j v w t d h =
      let entry : V × ℕ = (v, if first == 0 then clock else first) in
      let again : V × ℕ = (w, if later == 0 then clock' else later) in
      let put_in = insert k entry t.values in
      let decayed = find?-insert k j entry t.values in
      rw (try_emplace-none k entry t.values (is_some-none _ h)) (
        refl,
        ap (λ (r : List (K × (V × ℕ)) × Bool). (record t { values = r.0 }, r.1))
            (try_emplace-some k again put_in (find?-insert_self k entry t.values)),
        get-decay now j (record t { values = put_in }) (insert-Distinct k entry t.values d)
            ∙ rw decayed (elim (Bool-cases (e.beq k j)) [
              | inl q ↦ rw q refl
              | inr q ↦ rw q (sym (get-decay now j t d))
            ]),
      )
