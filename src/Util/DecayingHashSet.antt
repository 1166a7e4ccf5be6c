-- ===== src/Util/DecayingHashSet.antt =====
-- llarp/util/decaying_hashset.hpp. The clock, `time_now_ms()`, is an argument; times are milliseconds
-- that do not overflow, and a time of 0 stands for the clock's, as in the source.
pub mod Laws
use lokinet.Base.{
  is_some, ℕ, ◌+◌, Bool, true, false, Option, none, some, List, [], ◌∷◌, Eq, leb, ◌==◌,
  if◌then◌else◌, length,
}
use lokinet.Base.Map.{find?, insert, try_emplace, erase_if}

pub record DecayingHashSet {ℓ} (A : Type ℓ) : Type ℓ where
  pub cache_interval : ℕ
  pub values : List (A × ℕ)

-- `if (now == 0s) now = time_now_ms()`
abbrev pub or_clock : ℕ → ℕ → ℕ
or_clock clock now = if now == 0 then clock else now

-- the test of `Decay`
abbrev pub expired {ℓ} : {A : Type ℓ} → ℕ → ℕ → A → ℕ → Bool
expired interval now _ at = leb (interval + at) now

module _ {ℓ} {A : Type ℓ} ⦃e : Eq A⦄ where
  unfoldable pub empty_set : ℕ → DecayingHashSet A
  empty_set interval = record { cache_interval = interval; values = [] }

  -- `Size()`
  unfoldable pub size : DecayingHashSet A → ℕ
  size s = length s.values

  -- `Contains(v)`
  unfoldable pub contains : A → DecayingHashSet A → Bool
  contains v s = is_some (find? v s.values)

  -- `Insert(v, now)`: the time of a value that is there stays.
  unfoldable pub insert_at : ℕ → A → ℕ → DecayingHashSet A → DecayingHashSet A × Bool
  insert_at clock v now s =
      let (m, fresh) = try_emplace v (or_clock clock now) s.values in
      (record s { values = m }, fresh)

  -- `Upsert(v)`
  unfoldable pub upsert : ℕ → A → DecayingHashSet A → DecayingHashSet A
  upsert clock v s = record s { values = insert v clock s.values }

  -- `Decay(now)`
  unfoldable pub decay : ℕ → ℕ → DecayingHashSet A → DecayingHashSet A
  decay clock now s = record s {
    values = erase_if (expired s.cache_interval (or_clock clock now)) s.values;
  }

  -- `DecayInterval()`, `DecayInterval(interval)`, `Empty()`
  unfoldable pub decay_interval : DecayingHashSet A → ℕ
  decay_interval s = s.cache_interval

  unfoldable pub set_decay_interval : ℕ → DecayingHashSet A → DecayingHashSet A
  set_decay_interval interval s = record s { cache_interval = interval }

  unfoldable pub is_empty : DecayingHashSet A → Bool
  is_empty s = length s.values == 0
