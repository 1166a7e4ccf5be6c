-- ===== src/Util/Bencode/Skip.antt =====
-- `bencode_discard` of llarp/util/bencode.cpp on each kind of value, given what it does to the parts.
use mathlib.Core.List.{append_assoc}
use lokinet.Base.Bytes.{Bytes}
use lokinet.Base.{
  ℕ, suc, ◌+◌, ◌^◌, ◌<◌, ◌≤◌, ◌≡◌, refl, [], ◌∷◌, ◌++◌, length, arith, length-append,
}
use lokinet.Util.Buffer.{got}
use lokinet.Util.Bencode.{decimal, read_list, read_dict, list_loop, dict_loop, discard, discard_by}
use lokinet.Util.Bencode.Scan.{at, advance_one}
use lokinet.Util.Bencode.First.{string_first, some_left, two_left, other_letter}
use lokinet.Util.Bencode.Strings.{string_text, integer_text, read_string_lem, read_integer_lem}
use lokinet.Util.Bencode.Values.{
  Value, list, dict, Items, no_items, item, Entries, no_entries, entry, encode, encode_items,
  encode_entries, value_first,
}

pub discard-int :
    (i f : ℕ) (p q : Bytes) (n : ℕ)
    → i < 2 ^ 64
    → length p + length (integer_text i) ≤ n
    → discard (suc f) (at p (integer_text i ++ q) n) ≡ got tt (at (p ++ integer_text i) q n)
unfolding discard discard_by
discard-int i f p q n s h =
    rw
      (
        some_left p (integer_text i ++ q) n (omega arith),
        append_assoc (decimal i) (b'e' ∷ []) q,
        read_integer_lem i p q n s h,
      )
      refl

pub discard-bytes :
    (t : Bytes) (f : ℕ) (p q : Bytes) (n : ℕ)
    → length t < 10 ^ 9
    → length p + length (string_text t) ≤ n
    → discard (suc f) (at p (string_text t ++ q) n) ≡ got tt (at (p ++ string_text t) q n)
unfolding discard discard_by
discard-bytes t f p q n s h =
    let (c, first, d) = string_first t q in
    rw
      (
        some_left p (string_text t ++ q) n
            (omega (arith, length-append (decimal (length t)) (b':' ∷ t))),
        first,
        other_letter c b'l' d refl,
        other_letter c b'i' d refl,
        other_letter c b'd' d refl,
        d,
        append_assoc (decimal (length t)) (b':' ∷ t) q,
        read_string_lem t p q n s h,
      )
      refl

-- Skipping a value, for one amount of fuel.
abbrev pub Skips : ℕ → Value → Type 0
Skips f v =
    (p q : Bytes) (n : ℕ)
    → length p + length (encode v) ≤ n
    → discard f (at p (encode v ++ q) n) ≡ got tt (at (p ++ encode v) q n)

abbrev pub SkipsItems : ℕ → ℕ → Items → Type 0
SkipsItems k f xs =
    (p q : Bytes) (n : ℕ)
    → length p + (length (encode_items xs) + 1) ≤ n
    → list_loop k (λ _. discard f) tt (at p (encode_items xs ++ b'e' ∷ q) n)
      ≡ got tt (at (p ++ (encode_items xs ++ b'e' ∷ [])) q n)

abbrev pub SkipsEntries : ℕ → ℕ → Entries → Type 0
SkipsEntries k f es =
    (p q : Bytes) (n : ℕ)
    → length p + (length (encode_entries es) + 1) ≤ n
    → dict_loop k (λ _ _. discard f) tt (at p (encode_entries es ++ b'e' ∷ q) n)
      ≡ got tt (at (p ++ (encode_entries es ++ b'e' ∷ [])) q n)

pub skip_list : (f : ℕ) (xs : Items) → SkipsItems f f xs → Skips (suc f) (list xs)
unfolding encode discard discard_by read_list
skip_list f xs loop p q n h =
    rw
      (
        some_left p (b'l' ∷ ((encode_items xs ++ b'e' ∷ []) ++ q)) n (omega arith),
        two_left p (b'l' ∷ ((encode_items xs ++ b'e' ∷ []) ++ q)) n
            (omega (arith, length-append (encode_items xs) (b'e' ∷ []))),
        advance_one b'l' p ((encode_items xs ++ b'e' ∷ []) ++ q) n,
        append_assoc (encode_items xs) (b'e' ∷ []) q,
        loop (p ++ b'l' ∷ []) q n (
            omega
              (arith, length-append p (b'l' ∷ []), length-append (encode_items xs) (b'e' ∷ []))),
        append_assoc p (b'l' ∷ []) (encode_items xs ++ b'e' ∷ []),
      )
      refl

pub skip_dict : (f : ℕ) (es : Entries) → SkipsEntries f f es → Skips (suc f) (dict es)
unfolding encode discard discard_by read_dict
skip_dict f es loop p q n h =
    rw
      (
        some_left p (b'd' ∷ ((encode_entries es ++ b'e' ∷ []) ++ q)) n (omega arith),
        two_left p (b'd' ∷ ((encode_entries es ++ b'e' ∷ []) ++ q)) n
            (omega (arith, length-append (encode_entries es) (b'e' ∷ []))),
        advance_one b'd' p ((encode_entries es ++ b'e' ∷ []) ++ q) n,
        append_assoc (encode_entries es) (b'e' ∷ []) q,
        loop (p ++ b'd' ∷ []) q n (
            omega
              (arith, length-append p (b'd' ∷ []), length-append (encode_entries es) (b'e' ∷ []))),
        append_assoc p (b'd' ∷ []) (encode_entries es ++ b'e' ∷ []),
      )
      refl

pub skip_item :
    (k f : ℕ) (v : Value) (xs : Items)
    → Skips f v
    → SkipsItems k f xs
    → SkipsItems (suc k) f (item v xs)
unfolding encode_items list_loop
skip_item k f v xs one rest p q n h =
    let (c, first, other) = value_first v (encode_items xs ++ b'e' ∷ q) in
    rw
      (
        append_assoc (encode v) (encode_items xs) (b'e' ∷ q),
        some_left p (encode v ++ (encode_items xs ++ b'e' ∷ q)) n (omega arith),
        first,
        other,
        one p (encode_items xs ++ b'e' ∷ q) n
            (omega (arith, length-append (encode v) (encode_items xs))),
        rest (p ++ encode v) q n
            (omega (arith, length-append p (encode v), length-append (encode v) (encode_items xs))),
        append_assoc p (encode v) (encode_items xs ++ b'e' ∷ []),
        append_assoc (encode v) (encode_items xs) (b'e' ∷ []),
      )
      refl

pub skip_entry :
    (k f : ℕ) (t : Bytes) (v : Value) (es : Entries)
    → length t < 10 ^ 9
    → Skips f v
    → SkipsEntries k f es
    → SkipsEntries (suc k) f (entry t v es)
unfolding encode_entries dict_loop
skip_entry k f t v es s one rest p q n h =
    let (c, first, d) = string_first t (encode v ++ (encode_entries es ++ b'e' ∷ q)) in
    rw
      (
        append_assoc (string_text t) (encode v ++ encode_entries es) (b'e' ∷ q),
        append_assoc (encode v) (encode_entries es) (b'e' ∷ q),
        some_left p (string_text t ++ (encode v ++ (encode_entries es ++ b'e' ∷ q))) n
            (omega (arith, room)),
        first,
        other_letter c b'e' d refl,
        append_assoc (decimal (length t)) (b':' ∷ t) (encode v ++ (encode_entries es ++ b'e' ∷ q)),
        read_string_lem t p (encode v ++ (encode_entries es ++ b'e' ∷ q)) n s (omega (arith, room)),
        one (p ++ string_text t) (encode_entries es ++ b'e' ∷ q) n
            (omega (arith, room, length-append p (string_text t))),
        rest ((p ++ string_text t) ++ encode v) q n (
            omega (
              arith,
              room,
              length-append p (string_text t),
              length-append (p ++ string_text t) (encode v),
            )),
        append_assoc (p ++ string_text t) (encode v) (encode_entries es ++ b'e' ∷ []),
        append_assoc p (string_text t) (encode v ++ (encode_entries es ++ b'e' ∷ [])),
        append_assoc (string_text t) (encode v ++ encode_entries es) (b'e' ∷ []),
        append_assoc (encode v) (encode_entries es) (b'e' ∷ []),
      )
      refl
  where
    room :
        length p + (length (string_text t) + (length (encode v) + length (encode_entries es)) + 1)
        ≤ n
    room = omega (
      arith,
      h,
      length-append (string_text t) (encode v ++ encode_entries es),
      length-append (encode v) (encode_entries es),
    )

pub skip_no_items : (k f : ℕ) → SkipsItems (suc k) f no_items
unfolding encode_items list_loop
skip_no_items k f p q n h = rw (some_left p (b'e' ∷ q) n (omega arith), advance_one b'e' p q n) refl

pub skip_no_entries : (k f : ℕ) → SkipsEntries (suc k) f no_entries
unfolding encode_entries dict_loop
skip_no_entries k f p q n h =
    rw (some_left p (b'e' ∷ q) n (omega arith), advance_one b'e' p q n) refl
