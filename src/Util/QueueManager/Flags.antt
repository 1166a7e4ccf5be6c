-- ===== src/Util/QueueManager/Flags.antt =====
-- The disabled flag, the size and the start of the ring of llarp/util/thread/queue_manager.cpp.
use native.Mathlib.Nat.{le_antisymm, mul-le-mul_right}
use lokinet.Base.{
  ℕ, zero, suc, ◌+◌, ◌-◌, ◌*◌, ◌^◌, ◌<◌, ◌≤◌, ◌≡◌, refl, some, Bool, true, false, get_elem?, arith,
  replicate, ◌∙◌, Bool-cases, dec_lt, inl, inr, ◌⊎◌, ap,
}
use lokinet.Util.QueueManager.{
  QueueManager, encode_element, next_generation, is_disabled_flag_set, discard_disabled_flag,
  set_disabled_flag, exchanged, size, new_manager,
}
use lokinet.Util.QueueManager.Steps.{disable_load, enable_load, step, run}
use lokinet.Util.QueueManager.Layout.{Layout, tail_gen, tail_idx, new_manager-Shape, equal}

pub get_elem?-replicate {ℓ} :
    {A : Type ℓ} (n i : ℕ) (v : A) → i < n → get_elem? (replicate n v) i ≡ some v
get_elem?-replicate zero i v h = absurd (omega arith)
get_elem?-replicate (suc n) zero v h = refl
get_elem?-replicate (suc n) (suc i) v h = get_elem?-replicate n i v (omega arith)

pub new_manager-Layout :
    (capacity : ℕ) → 0 < capacity → capacity ≤ 2 ^ 30 → Layout (new_manager capacity) false 0 0 0
unfolding new_manager is_disabled_flag_set discard_disabled_flag encode_element
new_manager-Layout capacity h h' = record {
  shape = new_manager-Shape capacity h h';
  gen_range = omega arith;
  idx_range = h;
  room = omega arith;
  front = omega arith;
  back = ground arith;
  flag = refl;
  word = omega arith;
  cells = λ i lt. get_elem?-replicate capacity i 0 lt ∙ ground arith;
}

flagged :
    (x : ℕ)
    → x < 2 ^ 32
    → (is_disabled_flag_set (set_disabled_flag x) ≡ true)
      × (discard_disabled_flag (set_disabled_flag x) ≡ discard_disabled_flag x)
      × (set_disabled_flag x < 2 ^ 32)
unfolding is_disabled_flag_set set_disabled_flag discard_disabled_flag
flagged x h = ground arith

cleared :
    (x : ℕ)
    → x < 2 ^ 32
    → (is_disabled_flag_set (discard_disabled_flag x) ≡ false)
      × (discard_disabled_flag (discard_disabled_flag x) ≡ discard_disabled_flag x)
      × (discard_disabled_flag x < 2 ^ 32)
unfolding is_disabled_flag_set discard_disabled_flag
cleared x h = ground arith

module _ {m : QueueManager} {off : Bool} {g r k : ℕ} (l : Layout m off g r k) where
  -- another push index at the same place
  pub reflagged :
      (x : ℕ) (off' : Bool)
      → is_disabled_flag_set x ≡ off'
      → discard_disabled_flag x ≡ discard_disabled_flag m.push_index
      → x < 2 ^ 32
      → Layout (record m { push_index = x }) off' g r k
  unfolding next_generation
  reflagged x off' f d w = record {
    shape = record {
      inhabited = l.shape.inhabited;
      small = l.shape.small;
      generations = l.shape.generations;
      narrow = l.shape.narrow;
      combined = l.shape.combined;
      fits = l.shape.fits;
      sized = l.shape.sized;
    };
    gen_range = l.gen_range;
    idx_range = l.idx_range;
    room = l.room;
    front = l.front;
    back = d ∙ l.back;
    flag = f;
    word = w;
    cells = l.cells;
  }

  pub disabled-Layout : Layout (run 4 m disable_load).0 true g r k
  unfolding run step exchanged
  disabled-Layout = elim (Bool-cases (is_disabled_flag_set m.push_index)) [
    | inl e ↦ rw e (reflagged m.push_index true e refl l.word)
    | inr e ↦
        let (f, d, w) = flagged m.push_index l.word in
        rw (e, equal m.push_index m.push_index refl)
          (reflagged (set_disabled_flag m.push_index) true f d w)
  ]

  pub disabled-capacity : (run 4 m disable_load).0.capacity ≡ m.capacity
  unfolding run step
  disabled-capacity = ground arith

  pub enabled-capacity : (run 4 m enable_load).0.capacity ≡ m.capacity
  unfolding run step
  enabled-capacity = ground arith

  pub enabled-Layout : Layout (run 4 m enable_load).0 false g r k
  unfolding run step exchanged
  enabled-Layout = elim (Bool-cases (is_disabled_flag_set m.push_index)) [
    | inl e ↦
        let (f, d, w) = cleared m.push_index l.word in
        rw (e, equal m.push_index m.push_index refl)
          (reflagged (discard_disabled_flag m.push_index) false f d w)
    | inr e ↦ rw e (reflagged m.push_index false e refl l.word)
  ]

  twice : 2 * m.capacity ≤ m.max_combined_index + 1
  twice = omega (
    arith,
    l.shape.combined,
    mul-le-mul_right {m = 2} {n = m.max_generation + 1} m.capacity
        (omega (arith, l.shape.generations)),
  )

  -- How far the push index is ahead of the pop index.
  distance :
      (discard_disabled_flag m.push_index ≡ m.pop_index + k)
      ⊎ (discard_disabled_flag m.push_index + (m.max_combined_index + 1) ≡ m.pop_index + k)
  unfolding next_generation
  distance = elim (dec_lt (r + k) m.capacity) [
    | yes inside ↦
        let e : tail_gen m g r k * m.capacity + tail_idx m r k ≡ g * m.capacity + (r + k) =
          ground arith in
        inl (omega (arith, l.back, l.front, e))
    | no around ↦ elim (dec_lt g m.max_generation) [
      | yes more ↦
          let e : tail_gen m g r k * m.capacity + tail_idx m r k
              ≡ (g + 1) * m.capacity + (r + k - m.capacity) =
            ground (arith, l.shape.narrow) in
          inl (omega (arith, l.back, l.front, e))
      | no last ↦
          let e : tail_gen m g r k * m.capacity + tail_idx m r k ≡ r + k - m.capacity =
            ground (arith, l.gen_range) in
          inr (
            omega (
              arith,
              l.back,
              l.front,
              e,
              l.shape.combined,
              ap (λ (x : ℕ). x * m.capacity) (le_antisymm l.gen_range (omega arith)),
            ))
    ]
  ]

  pub size-Layout : size m ≡ k
  unfolding size
  size-Layout = elim distance [
    | inl e ↦ ground (arith, l.room)
    | inr e ↦ ground (arith, l.room, twice, l.shape.fits)
  ]
