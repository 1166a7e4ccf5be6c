-- ===== src/Dht/Bucket/Nearest.antt =====
-- The searches of llarp/dht/bucket.hpp find the nearest nodes.
use lokinet.Base.{
  ℕ, zero, suc, ◌<◌, ◌≡◌, refl, sym, ap, ◌∙◌, ◌⊎◌, inl, inr, Bool, true, false, List, [], ◌∷◌,
  arith, All, Bool-cases, if◌then◌else◌, length, bytes_eq, replicate,
}
use lokinet.Dht.Key.{
  Key, key_lt, key_xor, max_key, holds, set_insert, key_lt-irreflexive, key_lt_trans,
}
use lokinet.Dht.Bucket.{Bucket, scan, find_close_excluding, get_near, get_many_near_excluding}

abbrev pub excluding : List Key → List Key → List Key
excluding exclude [] = exclude
excluding exclude (p ∷ ps) = excluding (p ∷ exclude) ps

abbrev pub insert_all : List Key → List Key → List Key
insert_all [] result = result
insert_all (p ∷ ps) result = insert_all ps (set_insert p result)

not_nearer : (d x m : Key) → key_lt d m ≡ false → key_lt x m ≡ true → key_lt d x ≡ false
not_nearer d x m h c = elim (Bool-cases (key_lt d x)) [
  | inl e ↦ absurd (ground (arith, key_lt_trans d x m e c))
  | inr e ↦ e
]

module _ {V : Type 0} (target : Key) where
  -- No node outside `exclude` is nearer than `mindist`.
  abbrev pub NoneNearer : List Key → List (Key × V) → Key → Type 0
  NoneNearer exclude ns mindist =
      All (λ n. (holds n.0 exclude ≡ true) ⊎ (key_lt (key_xor n.0 target) mindist ≡ false)) ns

  abbrev pub IsNode : Key → List (Key × V) → Type 0
  IsNode k [] = ⊥
  IsNode k ((j, v) ∷ ns) = (j ≡ k) ⊎ IsNode k ns

  -- The scan's result: unchanged, or the distance of a node that is not excluded.
  abbrev Found : List Key → List (Key × V) → Key × Key → Key × Key → Type 0
  Found exclude ns start out =
      (out ≡ start)
      ⊎ (IsNode out.1 ns
          × (holds out.1 exclude ≡ false)
          × (out.0 ≡ key_xor out.1 target)
          × (key_lt out.0 start.0 ≡ true))

  Found-later :
      (exclude : List Key) (n : Key × V) (ns : List (Key × V)) (start out : Key × Key)
      → Found exclude ns start out
      → Found exclude (n ∷ ns) start out
  Found-later exclude n ns start out (inl e) = inl e
  Found-later exclude n ns start out (inr (i, h, d, l)) = inr (inr i, h, d, l)

  Found-nearer :
      (exclude : List Key) (k : Key) (v : V) (ns : List (Key × V)) (start out : Key × Key)
      → holds k exclude ≡ false
      → key_lt (key_xor k target) start.0 ≡ true
      → Found exclude ns (key_xor k target, k) out
      → Found exclude ((k, v) ∷ ns) start out
  Found-nearer exclude k v ns start out free lt (inl e) =
      let here : k ≡ out.1 = sym (ap (λ (o : Key × Key). o.1) e) in
      let dist : out.0 ≡ key_xor k target = ap (λ (o : Key × Key). o.0) e in
      inr (inl here, rw (← here) free, dist ∙ ap (λ x. key_xor x target) here, rw dist lt)
  Found-nearer exclude k v ns start out free lt (inr (i, h, d, l)) =
      inr (inr i, h, d, key_lt_trans out.0 (key_xor k target) start.0 l lt)

  record Scanned (exclude : List Key) (ns : List (Key × V)) (start out : Key × Key) : Type 0 where
    found : Found exclude ns start out
    least : NoneNearer exclude ns out.0
    below : (d : Key) → key_lt d start.0 ≡ false → key_lt d out.0 ≡ false

  scan-Scanned :
      (exclude : List Key) (ns : List (Key × V)) (mindist result : Key)
      → Scanned exclude ns (mindist, result) (scan target exclude ns mindist result)
  unfolding scan
  scan-Scanned exclude [] mindist result = record { found = inl refl; least = tt; below = λ d h. h }
  scan-Scanned exclude ((k, v) ∷ ns) mindist result = elim (Bool-cases (holds k exclude)) [
    | inl e ↦
        let r = scan-Scanned exclude ns mindist result in
        rw (e, scan)
          (record {
            found = Found-later exclude (k, v) ns _ _ r.found;
            least = (inl e, r.least);
            below = r.below;
          })
    | inr e ↦ elim (Bool-cases (key_lt (key_xor k target) mindist)) [
      | inl c ↦
          let r = scan-Scanned exclude ns (key_xor k target) k in
          rw (e, c, scan)
            (record {
              found = Found-nearer exclude k v ns _ _ e c r.found;
              least = (inr (r.below _ (key_lt-irreflexive (key_xor k target))), r.least);
              below = λ d h. r.below d (not_nearer d (key_xor k target) mindist h c);
            })
      | inr c ↦
          let r = scan-Scanned exclude ns mindist result in
          rw (e, c, scan)
            (record {
              found = Found-later exclude (k, v) ns _ _ r.found;
              least = (inr (r.below _ c), r.least);
              below = r.below;
            })
    ]
  ]

  -- `k` is a node outside `exclude`, and no node outside `exclude` is nearer to the target.
  pub record IsNearest (exclude : List Key) (b : Bucket V) (k : Key) : Type 0 where
    pub node : IsNode k b.nodes
    pub free : holds k exclude ≡ false
    pub nearest : NoneNearer exclude b.nodes (key_xor k target)

  -- The nodes `ps` in this order: each the nearest one outside `exclude` and those before it.
  abbrev pub AreNearest : List Key → Bucket V → List Key → Type 0
  AreNearest exclude b [] = Unit
  AreNearest exclude b (p ∷ ps) = IsNearest exclude b p × AreNearest (p ∷ exclude) b ps

  -- A search that finds nothing leaves no node nearer than the greatest distance.
  abbrev pub Searched : List Key → Bucket V → Bool × Key → Type 0
  Searched exclude b (true, k) = IsNearest exclude b k
  Searched exclude b (false, k) = NoneNearer exclude b.nodes max_key

  find_close_excluding-Searched :
      (result : Key) (exclude : List Key) (b : Bucket V)
      → Searched exclude b (find_close_excluding target result exclude b)
  unfolding find_close_excluding
  find_close_excluding-Searched result exclude b =
      case (scan target exclude b.nodes max_key result)
        (scan-Scanned exclude b.nodes max_key result)
    where
      case :
          (out : Key × Key)
          → Scanned exclude b.nodes (max_key, result) out
          → Searched exclude b (key_lt out.0 max_key, out.1)
      case out s = elim s.found [
        | inl e ↦
            let far : out.0 ≡ max_key = ap (λ (o : Key × Key). o.0) e in
            rw (far, key_lt-irreflexive max_key) (rw far at s.least)
        | inr (i, h, d, l) ↦ rw l (record { node = i; free = h; nearest = rw d at s.least })
      ]

  -- The peers that `GetManyNearExcluding` adds to `result` when it comes to `out`.
  pub record Gathered (exclude : List Key) (n : ℕ) (b : Bucket V) (result : List Key)
      (out : Bool × List Key) : Type 0 where
    pub peers : List Key
    pub ordered : AreNearest exclude b peers
    pub added : out.1 ≡ insert_all peers result
    pub enough :
        ((out.0 ≡ true) × (length peers ≡ n))
        ⊎ ((out.0 ≡ false)
            × (length peers < n)
            × NoneNearer (excluding exclude peers) b.nodes max_key)

  get_near-Gathered :
      (n : ℕ) (exclude result : List Key) (b : Bucket V)
      → Gathered exclude n b result (get_near target n exclude result b)
  unfolding get_near
  get_near-Gathered zero exclude result b = record {
    peers = [];
    ordered = tt;
    added = refl;
    enough = inl (refl, refl);
  }
  get_near-Gathered (suc n) exclude result b =
      next (λ k. get_near-Gathered n (k ∷ exclude) (set_insert k result) b)
        (find_close_excluding target (replicate 32 0) exclude b)
        (find_close_excluding-Searched (replicate 32 0) exclude b)
    where
      next :
          (more : (k : Key)
            → Gathered
                (k ∷ exclude)
                n
                b
                (set_insert k result)
                (get_near target n (k ∷ exclude) (set_insert k result) b))
          (f : Bool × Key)
          → Searched exclude b f
          → Gathered exclude (suc n) b result (
              if f.0
              then get_near target n (f.1 ∷ exclude) (set_insert f.1 result) b
              else (false, result))
      next more (true, k) s =
          let r = more k in
          record {
            peers = k ∷ r.peers;
            ordered = (s, r.ordered);
            added = r.added;
            enough = elim r.enough [
              | inl (ok, e) ↦ inl (ok, ap suc e)
              | inr (failed, few, left) ↦ inr (failed, omega arith, left)
            ];
          }
      next more (false, k) s = record {
        peers = [];
        ordered = tt;
        added = refl;
        enough = inr (refl, omega arith, s);
      }

  -- `GetManyNearExcluding` adds the nearest nodes outside `exclude` to the result, nearest first. It adds
  -- `n` of them and succeeds, or it fails, having added fewer, and no node is left that it could add.
  pub get_many_near_excluding-Gathered :
      (result : List Key) (n : ℕ) (exclude : List Key) (b : Bucket V)
      → Gathered exclude n b result (get_many_near_excluding target result n exclude b)
  unfolding get_many_near_excluding
  get_many_near_excluding-Gathered result n exclude b = get_near-Gathered n exclude result b
