-- ===== src/Base/Map.antt =====
-- std::map and std::unordered_map as association lists, with the calls that the program makes.
use mathlib.Core.Path.{◌≡◌, refl, ◌∙◌}
use mathlib.Core.Bool.{Bool, true, false}
use mathlib.Core.Option.{Option, none, some}
use mathlib.Core.Option
use mathlib.Core.List.{List, [], ◌∷◌}
use native.Mathlib.Omega.{arith}
use lokinet.Base.Tests.{if◌then◌else◌}
use lokinet.Base.Keys.{Eq}

module _ {ℓ κ} {K : Type ℓ} {V : Type κ} ⦃e : Eq K⦄ where
  -- `find`, as the value found
  unfoldable pub find? : K → List (K × V) → Option V
  find? k [] = none
  find? k ((j, v) ∷ m) = if e.beq j k then some v else find? k m

  -- `m[k] = v`
  unfoldable pub insert : K → V → List (K × V) → List (K × V)
  insert k v [] = (k, v) ∷ []
  insert k v ((j, w) ∷ m) = if e.beq j k then (j, v) ∷ m else (j, w) ∷ insert k v m

  -- `try_emplace` and `emplace`: an entry that is there stays, and the flag tells.
  unfoldable pub try_emplace : K → V → List (K × V) → List (K × V) × Bool
  unfolding find? insert
  try_emplace k v m = elim (find? k m) [ none ↦ (insert k v m, true) | some w ↦ (m, false) ]

  -- `erase(key)`
  unfoldable pub erase : K → List (K × V) → List (K × V)
  erase k [] = []
  erase k ((j, w) ∷ m) = if e.beq j k then erase k m else (j, w) ∷ erase k m

  -- the loop that erases each entry for which `p` holds
  unfoldable pub erase_if : (K → V → Bool) → List (K × V) → List (K × V)
  erase_if p [] = []
  erase_if p ((j, w) ∷ m) = if p j w then erase_if p m else (j, w) ∷ erase_if p m

  -- No key stands twice.
  abbrev pub Distinct : List (K × V) → Type κ
  Distinct [] = Unit
  Distinct ((j, w) ∷ m) = (find? j m ≡ none) × Distinct m

  -- what `erase_if p` leaves of one entry
  unfoldable pub kept : (K → V → Bool) → K → Option V → Option V
  kept p k none = none
  kept p k (some v) = if p k v then none else some v

  pub find?-insert_self : (k : K) (v : V) (m : List (K × V)) → find? k (insert k v m) ≡ some v
  unfolding find? insert
  find?-insert_self k v [] = ground (arith, e.beq_iff k k)
  find?-insert_self k v ((j, w) ∷ m) = ground (arith, e.beq_iff j k, find?-insert_self k v m)

  pub find?-insert :
      (k j : K) (v : V) (m : List (K × V))
      → find? j (insert k v m) ≡ (if e.beq k j then some v else find? j m)
  unfolding find? insert
  find?-insert k j v [] = refl
  find?-insert k j v ((i, w) ∷ m) =
      ground (arith, e.beq_iff k j, e.beq_iff i k, e.beq_iff i j, find?-insert k j v m)

  pub find?-erase :
      (k j : K) (m : List (K × V)) → find? j (erase k m) ≡ (if e.beq k j then none else find? j m)
  unfolding find? erase
  find?-erase k j [] = ground arith
  find?-erase k j ((i, w) ∷ m) =
      ground (arith, e.beq_iff k j, e.beq_iff i k, e.beq_iff i j, find?-erase k j m)

  pub find?-erase_if-none :
      (p : K → V → Bool) (k : K) (m : List (K × V))
      → find? k m ≡ none
      → find? k (erase_if p m) ≡ none
  unfolding find? erase_if
  find?-erase_if-none p k [] h = refl
  find?-erase_if-none p k ((i, w) ∷ m) h = ground (arith, find?-erase_if-none p k m)

  pub find?-erase_if :
      (p : K → V → Bool) (k : K) (m : List (K × V))
      → Distinct m
      → find? k (erase_if p m) ≡ kept p k (find? k m)
  unfolding find? erase_if kept
  find?-erase_if p k [] d = refl
  find?-erase_if p k ((i, w) ∷ m) d =
      ground (arith, e.beq_iff i k, find?-erase_if p k m d.1, find?-erase_if-none p k m)

  pub insert-Distinct : (k : K) (v : V) (m : List (K × V)) → Distinct m → Distinct (insert k v m)
  unfolding find? insert
  insert-Distinct k v [] d = (refl, tt)
  insert-Distinct k v ((i, w) ∷ m) d =
      ground (arith, e.beq_iff i k, e.beq_iff k i, insert-Distinct k v m d.1, find?-insert k i v m)

  pub try_emplace-Distinct :
      (k : K) (v : V) (m : List (K × V)) → Distinct m → Distinct (try_emplace k v m).0
  unfolding try_emplace
  try_emplace-Distinct k v m d = ground (arith, insert-Distinct k v m d)

  pub erase-Distinct : (k : K) (m : List (K × V)) → Distinct m → Distinct (erase k m)
  unfolding erase
  erase-Distinct k [] d = tt
  erase-Distinct k ((i, w) ∷ m) d =
      ground (arith, e.beq_iff i k, e.beq_iff k i, erase-Distinct k m d.1, find?-erase k i m)

  pub erase_if-Distinct :
      (p : K → V → Bool) (m : List (K × V)) → Distinct m → Distinct (erase_if p m)
  unfolding erase_if
  erase_if-Distinct p [] d = tt
  erase_if-Distinct p ((i, w) ∷ m) d =
      ground (arith, erase_if-Distinct p m d.1, find?-erase_if-none p i m)

  pub find?-try_emplace :
      (k j : K) (v : V) (m : List (K × V))
      → find? j (try_emplace k v m).0
        ≡ (if e.beq k j then some (Option.get_or (find? k m) v) else find? j m)
  unfolding try_emplace
  find?-try_emplace k j v m = ground (arith, e.beq_iff k j, find?-insert k j v m)

  pub find?-insert_other :
      (k j : K) (v : V) (m : List (K × V)) → e.beq k j ≡ false → find? j (insert k v m) ≡ find? j m
  find?-insert_other k j v m h = find?-insert k j v m ∙ rw h

  pub try_emplace-none :
      (k : K) (v : V) (m : List (K × V))
      → find? k m ≡ none
      → try_emplace k v m ≡ (insert k v m, true)
  unfolding try_emplace
  try_emplace-none k v m h = rw (h, try_emplace)

  pub try_emplace-some :
      (k : K) (v : V) (m : List (K × V)) {w : V}
      → find? k m ≡ some w
      → try_emplace k v m ≡ (m, false)
  unfolding try_emplace
  try_emplace-some k v m h = rw (h, try_emplace)
