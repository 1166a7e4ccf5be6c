-- ===== src/Profiling/Codec/Fields.antt =====
-- One router's profile, encoded and decoded (llarp/profiling.cpp).
use mathlib.Core.List.{append_assoc}
use lokinet.Base.Bytes.{Bytes}
use lokinet.Base.{
  ℕ, zero, suc, ◌+◌, ◌^◌, ◌<◌, ◌≤◌, ◌≡◌, refl, ◌==◌, List, [], ◌∷◌, ◌++◌, if◌then◌else◌, length,
  arith, length-append,
}
use lokinet.Util.Buffer.{got, starts_with}
use lokinet.Util.Bencode.{decimal, dict_loop, read_dict}
use lokinet.Util.Bencode.Scan.{at}
use lokinet.Util.Bencode.Strings.{string_text, integer_text, read_string_lem, read_integer_lem}
use lokinet.Util.Bencode.First.{some_left, string_first, other_letter, dict_loop-end, read_dict_lem}
use lokinet.Profiling.{RouterProfile, new_profile}
use lokinet.Profiling.Codec.{fields, maybe_read_int, decode_key}

-- the entry with this key, changed
abbrev pub set_field : ℕ → ℕ → RouterProfile → RouterProfile
set_field c i s =
    if c == b'g'
    then record s { connect_good_count = i }
    else if c == b'p'
    then record s { path_success_count = i }
    else if c == b'q'
    then record s { path_timeout_count = i }
    else if c == b's'
    then record s { path_fail_count = i }
    else if c == b't'
    then record s { connect_timeout_count = i }
    else if c == b'u'
    then record s { last_updated = i }
    else record s { version = i }

abbrev Reads : ℕ → Type 0
Reads c =
    (i : ℕ) (s : RouterProfile) (p q : Bytes) (n : ℕ)
    → i < 2 ^ 64
    → length p + length (integer_text i) ≤ n
    → decode_key s (c ∷ []) (at p (integer_text i ++ q) n)
      ≡ got (set_field c i s) (at (p ++ integer_text i) q n)

field_g-Reads : Reads b'g'
unfolding decode_key maybe_read_int starts_with
field_g-Reads i s p q n w h =
    rw (append_assoc (decimal i) (b'e' ∷ []) q, read_integer_lem i p q n w h) refl

field_p-Reads : Reads b'p'
unfolding decode_key maybe_read_int starts_with
field_p-Reads i s p q n w h =
    rw (append_assoc (decimal i) (b'e' ∷ []) q, read_integer_lem i p q n w h) refl

field_q-Reads : Reads b'q'
unfolding decode_key maybe_read_int starts_with
field_q-Reads i s p q n w h =
    rw (append_assoc (decimal i) (b'e' ∷ []) q, read_integer_lem i p q n w h) refl

field_s-Reads : Reads b's'
unfolding decode_key maybe_read_int starts_with
field_s-Reads i s p q n w h =
    rw (append_assoc (decimal i) (b'e' ∷ []) q, read_integer_lem i p q n w h) refl

field_t-Reads : Reads b't'
unfolding decode_key maybe_read_int starts_with
field_t-Reads i s p q n w h =
    rw (append_assoc (decimal i) (b'e' ∷ []) q, read_integer_lem i p q n w h) refl

field_u-Reads : Reads b'u'
unfolding decode_key maybe_read_int starts_with
field_u-Reads i s p q n w h =
    rw (append_assoc (decimal i) (b'e' ∷ []) q, read_integer_lem i p q n w h) refl

field_v-Reads : Reads b'v'
unfolding decode_key maybe_read_int starts_with
field_v-Reads i s p q n w h =
    rw (append_assoc (decimal i) (b'e' ∷ []) q, read_integer_lem i p q n w h) refl

-- An entry as it is written, and a list of them.
abbrev pub entry_text : ℕ → ℕ → Bytes
entry_text c i = string_text (c ∷ []) ++ integer_text i

abbrev pub fields_text : List (ℕ × ℕ) → Bytes
fields_text [] = []
fields_text ((c, i) ∷ fs) = entry_text c i ++ fields_text fs

abbrev pub set_fields : List (ℕ × ℕ) → RouterProfile → RouterProfile
set_fields [] s = s
set_fields ((c, i) ∷ fs) s = set_fields fs (set_field c i s)

abbrev pub AllRead : List (ℕ × ℕ) → Type 0
AllRead [] = Unit
AllRead ((c, i) ∷ fs) = Reads c × (i < 2 ^ 64) × AllRead fs

-- one turn of the loop
entry_step :
    (k c i : ℕ) (s : RouterProfile) (p q : Bytes) (n : ℕ)
    → Reads c
    → i < 2 ^ 64
    → length p + length (entry_text c i) ≤ n
    → dict_loop (suc k) decode_key s (at p (entry_text c i ++ q) n)
      ≡ dict_loop k decode_key (set_field c i s) (at (p ++ entry_text c i) q n)
unfolding dict_loop
entry_step k c i s p q n reads w h =
    let (l, first, d) = string_first (c ∷ []) (integer_text i ++ q) in
    rw
      (
        append_assoc (string_text (c ∷ [])) (integer_text i) q,
        some_left p (string_text (c ∷ []) ++ (integer_text i ++ q)) n (omega (arith, room)),
        first,
        other_letter l b'e' d refl,
        append_assoc (decimal 1) (b':' ∷ c ∷ []) (integer_text i ++ q),
        read_string_lem (c ∷ []) p (integer_text i ++ q) n (omega arith) (omega (arith, room)),
        reads i s (p ++ string_text (c ∷ [])) q n w
            (omega (arith, room, length-append p (string_text (c ∷ [])))),
        append_assoc p (string_text (c ∷ [])) (integer_text i),
      )
      refl
  where
    room : length p + (length (string_text (c ∷ [])) + length (integer_text i)) ≤ n
    room = omega (arith, h, length-append (string_text (c ∷ [])) (integer_text i))

fields_loop :
    (fs : List (ℕ × ℕ)) (k : ℕ) (s : RouterProfile) (p q : Bytes) (n : ℕ)
    → AllRead fs
    → length fs < k
    → length p + (length (fields_text fs) + 1) ≤ n
    → dict_loop k decode_key s (at p (fields_text fs ++ b'e' ∷ q) n)
      ≡ got (set_fields fs s) (at (p ++ (fields_text fs ++ b'e' ∷ [])) q n)
fields_loop fs zero s p q n a l h = absurd (omega arith)
fields_loop [] (suc k) s p q n a l h = dict_loop-end k decode_key s p q n (omega arith)
fields_loop ((c, i) ∷ fs) (suc k) s p q n (reads, w, a) l h =
    rw
      (
        append_assoc (entry_text c i) (fields_text fs) (b'e' ∷ q),
        entry_step k c i s p (fields_text fs ++ b'e' ∷ q) n reads w (omega (arith, room)),
        fields_loop fs k (set_field c i s) (p ++ entry_text c i) q n a (omega arith)
            (omega (arith, room, length-append p (entry_text c i))),
        append_assoc p (entry_text c i) (fields_text fs ++ b'e' ∷ []),
        append_assoc (entry_text c i) (fields_text fs) (b'e' ∷ []),
      )
      refl
  where
    room : length p + (length (entry_text c i) + length (fields_text fs) + 1) ≤ n
    room = omega (arith, h, length-append (entry_text c i) (fields_text fs))

-- a profile as it is written
abbrev pub profile_text : RouterProfile → Bytes
profile_text r = b'd' ∷ (fields_text (fields r) ++ b'e' ∷ [])

-- Counters of 64 bits.
pub record Small (r : RouterProfile) : Type 0 where
  pub good : r.connect_good_count < 2 ^ 64
  pub succeeded : r.path_success_count < 2 ^ 64
  pub late : r.path_timeout_count < 2 ^ 64
  pub failed : r.path_fail_count < 2 ^ 64
  pub unreached : r.connect_timeout_count < 2 ^ 64
  pub updated : r.last_updated < 2 ^ 64
  pub numbered : r.version < 2 ^ 64

-- The time of the last decay is not part of the file.
abbrev pub kept : RouterProfile → RouterProfile
kept r = record r { last_decay = 0 }

all_read : (r : RouterProfile) → Small r → AllRead (fields r)
all_read r s = (
  field_g-Reads,
  s.good,
  (
    field_p-Reads,
    s.succeeded,
    (
      field_q-Reads,
      s.late,
      (
        field_s-Reads,
        s.failed,
        (field_t-Reads, s.unreached, (field_u-Reads, s.updated, (field_v-Reads, s.numbered, tt))),
      ),
    ),
  ),
)

pub read_profile :
    (k : ℕ) (r : RouterProfile) (p q : Bytes) (n : ℕ)
    → Small r
    → 7 < k
    → length p + length (profile_text r) ≤ n
    → read_dict k decode_key new_profile (at p (profile_text r ++ q) n)
      ≡ got (kept r) (at (p ++ profile_text r) q n)
read_profile k r p q n s l h =
    read_dict_lem k decode_key new_profile (kept r) (fields_text (fields r)) p q n
      (omega (arith, room))
      (fields_loop (fields r) k new_profile (p ++ b'd' ∷ []) q n (all_read r s) l
        (omega (arith, room, length-append p (b'd' ∷ []))))
  where
    room : length p + (length (fields_text (fields r)) + 2) ≤ n
    room = omega (arith, h, length-append (fields_text (fields r)) (b'e' ∷ []))
