-- ===== src/Dht/Bucket.antt =====
-- `Bucket` of llarp/dht/bucket.hpp: nodes in the order of their distance from our key. The values
-- are a parameter: their key, and which of two is the older one (`RCNode` and `ISNode`).
pub mod Nearest
pub mod Order
use lokinet.Base.{
  ℕ, zero, suc, ◌+◌, ◌%◌, Bool, true, false, not, ◌&&◌, Option, none, some, List, [], ◌∷◌, ◌++◌,
  ltb, ◌==◌, if◌then◌else◌, length, get_elem?, map, ◌||◌, is_some, replicate,
}
use lokinet.Dht.Key.{Key, key_lt, key_xor, closer, max_key, holds, set_insert}

-- `BucketStorage_t`, in its order, and our key, by which it is ordered
pub record Bucket (V : Type 0) : Type 0 where
  pub us : Key
  pub nodes : List (Key × V)

module _ {V : Type 0} where
  -- `nodes.find`: the key that the order does not tell from `k`
  unfoldable pub find_node : Key → Key → List (Key × V) → Option V
  unfolding closer
  find_node us k [] = none
  find_node us k ((j, v) ∷ ns) =
      if closer us j k || closer us k j then find_node us k ns else some v

  -- `nodes[k] = v`
  unfoldable pub store_node : Key → Key → V → List (Key × V) → List (Key × V)
  unfolding closer
  store_node us k v [] = (k, v) ∷ []
  store_node us k v ((j, w) ∷ ns) =
      if closer us j k
      then (j, w) ∷ store_node us k v ns
      else if closer us k j
      then (k, v) ∷ (j, w) ∷ ns
      else (j, v) ∷ ns

  -- `nodes.erase`
  unfoldable pub erase_node : Key → Key → List (Key × V) → List (Key × V)
  unfolding closer
  erase_node us k [] = []
  erase_node us k ((j, w) ∷ ns) =
      if closer us j k || closer us k j then (j, w) ∷ erase_node us k ns else ns

  -- `size()`
  unfoldable pub size : Bucket V → ℕ
  size b = length b.nodes

  -- `PutNode(val)`: a value replaces an older one only.
  unfoldable pub put_node : (V → Key) → (V → V → Bool) → V → Bucket V → Bucket V
  unfolding find_node store_node
  put_node id older v b =
      let stored = record b { nodes = store_node b.us (id v) v b.nodes } in
      elim (find_node b.us (id v) b.nodes) [
        | none ↦ stored
        | some w ↦ if older w v then stored else b
      ]

  -- `DelNode(key)`
  unfoldable pub del_node : Key → Bucket V → Bucket V
  unfolding erase_node
  del_node k b = record b { nodes = erase_node b.us k b.nodes }

  -- `HasNode(key)`
  unfoldable pub has_node : Key → Bucket V → Bool
  unfolding find_node
  has_node k b = is_some (find_node b.us k b.nodes)

  -- `RemoveIf(pred)`
  abbrev pub remove_from : (Key → Bool) → List (Key × V) → List (Key × V)
  remove_from pred [] = []
  remove_from pred ((k, v) ∷ ns) =
      if pred k then remove_from pred ns else (k, v) ∷ remove_from pred ns

  unfoldable pub remove_if : (Key → Bool) → Bucket V → Bucket V
  remove_if pred b = record b { nodes = remove_from pred b.nodes }

  -- `Clear()`
  unfoldable pub clear : Bucket V → Bucket V
  clear b = record b { nodes = [] }

  -- The loop that `FindClosest` and `FindCloseExcluding` share: the least distance so far, and the key
  -- that has it. `FindClosest` excludes nothing.
  unfoldable pub scan : Key → List Key → List (Key × V) → Key → Key → Key × Key
  unfolding key_lt key_xor
  scan target exclude [] mindist result = (mindist, result)
  scan target exclude ((k, v) ∷ ns) mindist result =
      let dist = key_xor k target in
      if holds k exclude
      then scan target exclude ns mindist result
      else if key_lt dist mindist
      then scan target exclude ns dist k
      else scan target exclude ns mindist result

  -- `FindClosest(target, result)`
  unfoldable pub find_closest : Key → Key → Bucket V → Bool × Key
  unfolding scan
  find_closest target result b = (ltb 0 (length b.nodes), (scan target [] b.nodes max_key result).1)

  -- `FindCloseExcluding(target, result, exclude)`
  unfoldable pub find_close_excluding : Key → Key → List Key → Bucket V → Bool × Key
  unfolding scan key_lt
  find_close_excluding target result exclude b =
      let (mindist, found) = scan target exclude b.nodes max_key result in
      (key_lt mindist max_key, found)

  -- The loop of `GetManyNearExcluding`
  unfoldable pub get_near : Key → ℕ → List Key → List Key → Bucket V → Bool × List Key
  unfolding find_close_excluding
  get_near target zero s result b = (true, result)
  get_near target (suc n) s result b =
      let (found, peer) = find_close_excluding target (replicate 32 0) s b in
      let next = get_near target n (peer ∷ s) (set_insert peer result) b in
      if found then next else (false, result)

  -- `GetManyNearExcluding(target, result, N, exclude)`
  unfoldable pub get_many_near_excluding :
      Key → List Key → ℕ → List Key → Bucket V → Bool × List Key
  unfolding get_near
  get_many_near_excluding target result n exclude b = get_near target n exclude result b

  -- The loop of `GetManyRandom`, on the random numbers drawn; none is a loop that draws more.
  unfoldable pub draw : ℕ → List ℕ → List Key → Bucket V → Option (List Key)
  draw zero draws result b = some result
  draw (suc n) [] result b = none
  draw (suc n) (d ∷ draws) result b = elim (get_elem? b.nodes (d % length b.nodes)) [
    | none ↦ none
    | some (k, v) ↦
        if holds k result then draw (suc n) draws result b else draw n draws (k ∷ result) b
  ]

  abbrev insert_keys : List (Key × V) → List Key → List Key
  insert_keys [] result = result
  insert_keys ((k, v) ∷ ns) result = insert_keys ns (set_insert k result)

  -- `GetManyRandom(result, N)`
  unfoldable pub get_many_random : List ℕ → List Key → ℕ → Bucket V → Option (Bool × List Key)
  unfolding draw
  get_many_random draws result n b =
      let sz = length b.nodes in
      let drawn = draw n draws result b in
      if ltb sz n || sz == 0
      then some (false, result)
      else if sz == n
      then some (true, insert_keys b.nodes result)
      else elim drawn [ none ↦ none | some r ↦ some (length r == n, r) ]
