-- ===== src/Util/DecayingHashTable.antt =====
-- llarp/util/decaying_hashtable.hpp: a map whose entries are dropped one interval after they were put.
-- The clock is an argument; times are milliseconds that do not overflow.
pub mod Laws
use lokinet.Base.{
  ℕ, ◌+◌, Bool, true, false, is_some, Option, none, some, List, [], ◌∷◌, Eq, leb, ◌==◌,
  if◌then◌else◌,
}
use lokinet.Base.Map.{find?, insert, try_emplace, erase, erase_if}

pub record DecayingHashTable {ℓ κ} (K : Type ℓ) (V : Type κ) : Type (ℓ ⊔ κ) where
  pub cache_interval : ℕ
  pub values : List (K × (V × ℕ))

-- the test of `Decay`
abbrev pub expired {ℓ κ} : {K : Type ℓ} {V : Type κ} → ℕ → ℕ → K → V × ℕ → Bool
expired interval now _ (_, at) = leb (at + interval) now

-- the value of an entry
abbrev pub value_of {κ} : {V : Type κ} → Option (V × ℕ) → Option V
value_of none = none
value_of (some (v, _)) = some v

module _ {ℓ κ} {K : Type ℓ} {V : Type κ} ⦃e : Eq K⦄ where
  -- `Decay(now)`
  unfoldable pub decay : ℕ → DecayingHashTable K V → DecayingHashTable K V
  decay now t = record t { values = erase_if (expired t.cache_interval now) t.values }

  -- `Has(k)`
  unfoldable pub has : K → DecayingHashTable K V → Bool
  has k t = is_some (find? k t.values)

  -- `Put(key, value, now)`
  unfoldable pub put : ℕ → K → V → ℕ → DecayingHashTable K V → DecayingHashTable K V × Bool
  put clock k v now t =
      let (m, fresh) = try_emplace k (v, if now == 0 then clock else now) t.values in
      (record t { values = m }, fresh)

  -- `Get(k)`
  unfoldable pub get : K → DecayingHashTable K V → Option V
  get k t = value_of (find? k t.values)

  -- `Remove(key)`
  unfoldable pub remove : K → DecayingHashTable K V → DecayingHashTable K V
  remove k t = record t { values = erase k t.values }
