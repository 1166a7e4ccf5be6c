-- ===== src/Dht/Tests.antt =====
-- The theorems on llarp/dht/bucket.hpp at a bucket of three nodes, whose values are their key and a
-- time.
use lokinet.Base.{ℕ, ◌≡◌, refl, Bool, some, [], ◌∷◌, ltb, bytes_eq, replicate, ◌++◌}
use lokinet.Dht.Key.{Key, key_xor, key_lt, closer}
use lokinet.Dht.Bucket.{Bucket, put_node, find_node, get_many_near_excluding}
use lokinet.Dht.Bucket.Nearest.{Gathered, get_many_near_excluding-Gathered}
use lokinet.Dht.Bucket.Order.{IsSorted, newest, put_node-newest}

abbrev key : ℕ → Key
key n = replicate 31 0 ++ n ∷ []

abbrev bucket : Bucket (Key × ℕ)
bucket = record {
  us = key 0;
  nodes = (key 1, (key 1, 10)) ∷ (key 2, (key 2, 20)) ∷ (key 6, (key 6, 30)) ∷ [];
}

bucket-IsSorted : IsSorted bucket
unfolding closer key_xor key_lt
bucket-IsSorted = ((refl, (refl, tt)), ((refl, tt), (tt, tt)))

get_many_near_excluding-Gathered_example :
    Gathered
      (key 7)
      (key 6 ∷ [])
      1
      bucket
      []
      (get_many_near_excluding (key 7) [] 1 (key 6 ∷ []) bucket)
get_many_near_excluding-Gathered_example =
    get_many_near_excluding-Gathered (key 7) [] 1 (key 6 ∷ []) bucket

abbrev id : Key × ℕ → Key
id v = v.0

abbrev older : Key × ℕ → Key × ℕ → Bool
older v w = ltb v.1 w.1

put_node-newest_example :
    IsSorted (put_node id older (key 2, 25) bucket)
    × (find_node (key 0) (key 2) (put_node id older (key 2, 25) bucket).nodes
        ≡ some (newest id older (find_node (key 0) (key 2) bucket.nodes) (key 2, 25)))
put_node-newest_example = put_node-newest id older (key 2, 25) bucket bucket-IsSorted
