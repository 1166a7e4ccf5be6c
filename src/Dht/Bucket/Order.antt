-- ===== src/Dht/Bucket/Order.antt =====
-- The order of the nodes of llarp/dht/bucket.hpp, and what a put and a deletion change.
use lokinet.Base.{
  ◌≡◌, refl, subst, inl, inr, Bool, true, false, ◌||◌, Option, none, some, List, [], ◌∷◌, arith,
  All, Bool-cases, Option-cases, if◌then◌else◌,
}
use lokinet.Dht.Key.{Key, key_lt, key_xor, closer, key_lt-irreflexive, key_lt_trans, key_lt-connex}
use lokinet.Dht.Bucket.{
  Bucket, find_node, store_node, erase_node, put_node, del_node, has_node, remove_if, remove_from,
}

closer-irreflexive : (us a : Key) → closer us a a ≡ false
unfolding closer
closer-irreflexive us a = key_lt-irreflexive (key_xor us a)

closer_trans : (us a b c : Key) → closer us a b ≡ true → closer us b c ≡ true → closer us a c ≡ true
unfolding closer
closer_trans us a b c h k = key_lt_trans (key_xor us a) (key_xor us b) (key_xor us c) h k

module _ {V : Type 0} (us : Key) where
  -- All nodes are further away than `k`.
  abbrev pub Behind : Key → List (Key × V) → Type 0
  Behind k = All (λ n. closer us k n.0 ≡ true)

  -- Nearest to our key first, and no key twice.
  abbrev pub Sorted : List (Key × V) → Type 0
  Sorted [] = Unit
  Sorted ((k, v) ∷ ns) = Behind k ns × Sorted ns

  Behind-trans :
      (j k : Key) (ns : List (Key × V)) → closer us j k ≡ true → Behind k ns → Behind j ns
  Behind-trans j k [] c h = tt
  Behind-trans j k (n ∷ ns) c h = (closer_trans us j k n.0 c h.0, Behind-trans j k ns c h.1)

  store_node-Behind :
      (j k : Key) (v : V) (ns : List (Key × V))
      → closer us j k ≡ true
      → Behind j ns
      → Behind j (store_node us k v ns)
  unfolding store_node
  store_node-Behind j k v [] c h = (c, tt)
  store_node-Behind j k v ((i, w) ∷ ns) c h = ground (arith, store_node-Behind j k v ns c h.1)

  store_node-Sorted :
      (k : Key) (v : V) (ns : List (Key × V)) → Sorted ns → Sorted (store_node us k v ns)
  unfolding store_node
  store_node-Sorted k v [] h = (tt, tt)
  store_node-Sorted k v ((i, w) ∷ ns) h =
      ground (arith, store_node-Behind i k v ns, store_node-Sorted k v ns h.1, Behind-trans k i ns)

  find_node-store_node :
      (k : Key) (v : V) (ns : List (Key × V)) → find_node us k (store_node us k v ns) ≡ some v
  unfolding find_node store_node
  find_node-store_node k v [] = ground (arith, closer-irreflexive us k)
  find_node-store_node k v ((i, w) ∷ ns) =
      ground (arith, closer-irreflexive us k, find_node-store_node k v ns)

  remove_from-Behind :
      (pred : Key → Bool) (j : Key) (ns : List (Key × V))
      → Behind j ns
      → Behind j (remove_from pred ns)
  remove_from-Behind pred j [] h = tt
  remove_from-Behind pred j ((i, w) ∷ ns) h = ground (arith, remove_from-Behind pred j ns h.1)

  remove_from-Sorted :
      (pred : Key → Bool) (ns : List (Key × V)) → Sorted ns → Sorted (remove_from pred ns)
  remove_from-Sorted pred [] h = tt
  remove_from-Sorted pred ((i, w) ∷ ns) h =
      ground (arith, remove_from-Behind pred i ns h.0, remove_from-Sorted pred ns h.1)

  erase_node-Behind :
      (k j : Key) (ns : List (Key × V)) → Behind j ns → Behind j (erase_node us k ns)
  unfolding erase_node
  erase_node-Behind k j [] h = tt
  erase_node-Behind k j ((i, w) ∷ ns) h = ground (arith, erase_node-Behind k j ns h.1)

  erase_node-Sorted : (k : Key) (ns : List (Key × V)) → Sorted ns → Sorted (erase_node us k ns)
  unfolding erase_node
  erase_node-Sorted k [] h = tt
  erase_node-Sorted k ((i, w) ∷ ns) h =
      ground (arith, erase_node-Behind k i ns h.0, erase_node-Sorted k ns h.1)

  find_node-Behind : (k : Key) (ns : List (Key × V)) → Behind k ns → find_node us k ns ≡ none
  unfolding find_node
  find_node-Behind k [] h = refl
  find_node-Behind k ((i, w) ∷ ns) h = ground (arith, find_node-Behind k ns h.1)

  -- A key that the order does not tell from `i` is before the same nodes.
  same-Behind :
      (i k : Key) (ns : List (Key × V))
      → (closer us i k || closer us k i) ≡ false
      → Behind i ns
      → Behind k ns
  unfolding closer
  same-Behind i k ns e h =
      let same = key_lt-connex (key_xor us i) (key_xor us k) (ground arith) (ground arith) in
      subst (λ x. All (λ n. key_lt x (key_xor us n.0) ≡ true) ns) same h

  find_node-erase_node :
      (k : Key) (ns : List (Key × V)) → Sorted ns → find_node us k (erase_node us k ns) ≡ none
  unfolding find_node erase_node
  find_node-erase_node k [] h = refl
  find_node-erase_node k ((i, w) ∷ ns) h = elim (Bool-cases (closer us i k || closer us k i)) [
    | inl e ↦ rw (e, erase_node, e) (find_node-erase_node k ns h.1)
    | inr e ↦ rw (e, erase_node) (find_node-Behind k ns (same-Behind i k ns e h.0))
  ]

abbrev pub IsSorted : {V : Type 0} → Bucket V → Type 0
IsSorted b = Sorted b.us b.nodes

module _ {V : Type 0} where
  -- A deletion from a bucket that is in order keeps the order, and the node that was deleted is no
  -- longer found.
  pub del_node-absent :
      (k : Key) (b : Bucket V)
      → IsSorted b
      → IsSorted (del_node k b) × (has_node k (del_node k b) ≡ false)
  unfolding del_node has_node
  del_node-absent k b s =
      (erase_node-Sorted b.us k b.nodes s, rw (find_node-erase_node b.us k b.nodes s) refl)

  -- The removal of all nodes that match a predicate keeps the order.
  pub remove_if-IsSorted :
      (pred : Key → Bool) (b : Bucket V) → IsSorted b → IsSorted (remove_if pred b)
  unfolding remove_if
  remove_if-IsSorted pred b s = remove_from-Sorted b.us pred b.nodes s

module _ {V : Type 0} (id : V → Key) (older : V → V → Bool) where
  -- the newer of a value that is held and `v`
  abbrev pub newest : Option V → V → V
  newest none v = v
  newest (some w) v = if older w v then v else w

  -- A put into a bucket that is in order keeps the order, and afterwards the newer one of the
  -- value that was held and the one that is put stands under the key.
  pub put_node-newest :
      (v : V) (b : Bucket V)
      → IsSorted b
      → IsSorted (put_node id older v b)
        × (find_node b.us (id v) (put_node id older v b).nodes
            ≡ some (newest (find_node b.us (id v) b.nodes) v))
  unfolding put_node
  put_node-newest v b s =
      let sorted = store_node-Sorted b.us (id v) v b.nodes s in
      let held = find_node-store_node b.us (id v) v b.nodes in
      elim (Option-cases (find_node b.us (id v) b.nodes)) [
        | inl e ↦ rw (e, put_node) (sorted, held)
        | inr (w, e) ↦ elim (Bool-cases (older w v)) [
          | inl o ↦ rw (e, o, put_node) (sorted, held)
          | inr o ↦ rw (e, o, put_node, e) (s, refl)
        ]
      ]
