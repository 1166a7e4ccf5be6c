-- ===== src/Profiling/Codec/File.antt =====
-- The file of profiles, saved and loaded (llarp/profiling.cpp).
use mathlib.Core.List.{append_assoc, append-nil}
use lokinet.Base.Bytes.{Bytes}
use lokinet.Base.Map.{find?, insert, Distinct, find?-insert, try_emplace-none}
use lokinet.Base.{
  ℕ, zero, suc, ◌+◌, ◌*◌, ◌<◌, ◌≤◌, ◌≡◌, refl, none, [], ◌∷◌, ◌++◌, length, arith, length-append,
  drop, bytes_eq, replicate, length-replicate, ◌≢◌, subst,
}
use lokinet.Util.Buffer.{Buffer, got}
use lokinet.Util.Bencode.{decimal, dict_loop, read_dict}
use lokinet.Util.Bencode.Scan.{at}
use lokinet.Util.Bencode.Strings.{string_text, read_string_lem}
use lokinet.Util.Bencode.First.{some_left, string_first, other_letter, dict_loop-end, read_dict_lem}
use lokinet.Profiling.{RouterId, RouterProfile}
use lokinet.Profiling.Codec.{Profiles, decode_profile, bdecode, save_buffer, save, load}
use lokinet.Profiling.Codec.Fields.{profile_text, Small, kept, read_profile}
use lokinet.Profiling.Codec.Written.{
  profiles_text, file_text, AllIds, file-Writes, length-file_text,
}

-- A map that can be saved: ids of 32 bytes, each once, and counters of 64 bits.
abbrev pub AllSmall : Profiles → Type 0
AllSmall [] = Unit
AllSmall ((r, p) ∷ m) = Small p × AllSmall m

-- what is loaded of a map
abbrev pub all_kept : Profiles → Profiles
all_kept [] = []
all_kept ((r, p) ∷ m) = (r, kept p) ∷ all_kept m

insert-absent :
    (r : RouterId) (p : RouterProfile) (m : Profiles)
    → find? r m ≡ none
    → insert r p m ≡ m ++ (r, p) ∷ []
unfolding find? insert
insert-absent r p [] h = refl
insert-absent r p ((s, x) ∷ m) h = ground (arith, insert-absent r p m)

-- The entry of one router.
decode_profile_lem :
    (k : ℕ) (acc : Profiles) (r : RouterId) (x : RouterProfile) (p q : Bytes) (n : ℕ)
    → length r ≡ 32
    → Small x
    → 7 < k
    → find? r acc ≡ none
    → length p + length (profile_text x) ≤ n
    → decode_profile k acc r (at p (profile_text x ++ q) n)
      ≡ got (insert r (kept x) acc) (at (p ++ profile_text x) q n)
unfolding decode_profile
decode_profile_lem k acc r x p q n e s l a h =
    rw (e, read_profile k x p q n s l h, try_emplace-none r (kept x) acc a) refl

-- No router of the one map is in the other.
abbrev Apart : Profiles → Profiles → Type 0
Apart acc m = (r : RouterId) → find? r m ≢ none → find? r acc ≡ none

Apart-first :
    (acc : Profiles) (r : RouterId) (x : RouterProfile) (m : Profiles)
    → Apart acc ((r, x) ∷ m)
    → find? r acc ≡ none
unfolding find?
Apart-first acc r x m a = a r (ground (arith, bytes_eq.beq_iff r r))

Apart-rest :
    (acc : Profiles) (r : RouterId) (x y : RouterProfile) (m : Profiles)
    → Apart acc ((r, x) ∷ m)
    → find? r m ≡ none
    → Apart (insert r y acc) m
unfolding find?
Apart-rest acc r x y m a d s h = ground (arith, bytes_eq.beq_iff r s, find?-insert r s y acc, a s)

profiles_loop :
    (m acc : Profiles) (k j : ℕ) (p q : Bytes) (n : ℕ)
    → AllIds m
    → AllSmall m
    → Distinct m
    → Apart acc m
    → 7 < k
    → length m < j
    → length p + (length (profiles_text m) + 1) ≤ n
    → dict_loop j (decode_profile k) acc (at p (profiles_text m ++ b'e' ∷ q) n)
      ≡ got (acc ++ all_kept m) (at (p ++ (profiles_text m ++ b'e' ∷ [])) q n)
unfolding dict_loop
profiles_loop m acc k zero p q n i s d a l f h = absurd (omega arith)
profiles_loop [] acc k (suc j) p q n i s d a l f h =
    rw (append-nil acc) (dict_loop-end j (decode_profile k) acc p q n (omega arith))
profiles_loop ((r, x) ∷ m) acc k (suc j) p q n (e, i) (sx, s) (fresh, d) a l f h =
    let (c, first, digit) = string_first r (profile_text x ++ (profiles_text m ++ b'e' ∷ q)) in
    rw
      (
        append_assoc (string_text r) (profile_text x ++ profiles_text m) (b'e' ∷ q),
        append_assoc (profile_text x) (profiles_text m) (b'e' ∷ q),
        some_left p (string_text r ++ (profile_text x ++ (profiles_text m ++ b'e' ∷ q))) n
            (omega (arith, room)),
        first,
        other_letter c b'e' digit refl,
        append_assoc (decimal (length r)) (b':' ∷ r)
            (profile_text x ++ (profiles_text m ++ b'e' ∷ q)),
        read_string_lem r p (profile_text x ++ (profiles_text m ++ b'e' ∷ q)) n (omega arith)
            (omega (arith, room)),
        decode_profile_lem k acc r x (p ++ string_text r) (profiles_text m ++ b'e' ∷ q) n e sx l
            (Apart-first acc r x m a) (omega (arith, room, length-append p (string_text r))),
        profiles_loop m (insert r (kept x) acc) k j ((p ++ string_text r) ++ profile_text x) q n i s
            d (Apart-rest acc r x (kept x) m a fresh) l (omega arith)
            (omega (
              arith,
              room,
              length-append p (string_text r),
              length-append (p ++ string_text r) (profile_text x),
            )),
        insert-absent r (kept x) acc (Apart-first acc r x m a),
        append_assoc acc ((r, kept x) ∷ []) (all_kept m),
        append_assoc (p ++ string_text r) (profile_text x) (profiles_text m ++ b'e' ∷ []),
        append_assoc p (string_text r) (profile_text x ++ (profiles_text m ++ b'e' ∷ [])),
        append_assoc (string_text r) (profile_text x ++ profiles_text m) (b'e' ∷ []),
        append_assoc (profile_text x) (profiles_text m) (b'e' ∷ []),
      )
      refl
  where
    room :
        length p
          + (length (string_text r) + (length (profile_text x) + length (profiles_text m)) + 1)
        ≤ n
    room = omega (
      arith,
      h,
      length-append (string_text r) (profile_text x ++ profiles_text m),
      length-append (profile_text x) (profiles_text m),
    )

-- With the buffer that `Save` makes every map is encoded.
save_lem : (m : Profiles) → AllIds m → (b : Buffer) × (save m ≡ got (file_text m) b)
unfolding save save_buffer
save_lem m i =
    let zeros : Bytes = replicate (length m * 296 + 8) 0 in
    (
      at (file_text m) (drop (length (file_text m)) zeros) (length zeros),
      rw
          (file-Writes m i [] zeros (length zeros)
            (omega (arith, length-file_text m i, length-replicate {A = ℕ} (length m * 296 + 8) 0))
            (omega arith))
          refl,
    )

load_lem :
    (m : Profiles) (k : ℕ)
    → AllIds m
    → AllSmall m
    → Distinct m
    → 7 < k
    → length m < k
    → (b : Buffer) × (load k (file_text m) ≡ got (all_kept m) b)
unfolding load bdecode find?
load_lem m k i s d l f = (
  at ([] ++ file_text m) [] (length (file_text m)),
  subst
      (λ (z : Bytes).
        read_dict k (decode_profile k) [] (at [] (b'd' ∷ z) (length (file_text m)))
        ≡ got (all_kept m) (at ([] ++ file_text m) [] (length (file_text m))))
      (append-nil (profiles_text m ++ b'e' ∷ []))
      (read_dict_lem k (decode_profile k) [] (all_kept m) (profiles_text m) [] []
        (length (file_text m)) (omega (arith, room))
        (profiles_loop m [] k k (b'd' ∷ []) [] (length (file_text m)) i s d (λ r h. refl) l f
          (omega (arith, room)))),
)
  where
    room : length (file_text m) ≡ length (profiles_text m) + 2
    room = omega (arith, length-append (profiles_text m) (b'e' ∷ []))

-- For each map whose ids have 32 bytes, stand in it once each, and whose counters have 64 bits, the
-- buffer that `Save` makes has room, and `Load`, with fuel for the routers and for the entries of a
-- profile, gives back the map, but with the times of the last decay reset.
pub load-save :
    (m : Profiles) (k : ℕ)
    → AllIds m
    → AllSmall m
    → Distinct m
    → 7 < k
    → length m < k
    → (bytes : Bytes) × (b b' : Buffer) × (save m ≡ got bytes b)
      × (load k bytes ≡ got (all_kept m) b')
load-save m k i s d l f =
    let (b, saved) = save_lem m i in
    let (b', loaded) = load_lem m k i s d l f in (file_text m, b, b', saved, loaded)
