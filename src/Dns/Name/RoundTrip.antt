-- ===== src/Dns/Name/RoundTrip.antt =====
-- Names of llarp/dns/name.cpp, written and read back.
use mathlib.Core.List.{append_assoc}
use lokinet.Base.Bytes.{Bytes}
use lokinet.Base.{
  ℕ, zero, suc, ◌+◌, ◌-◌, ◌<◌, ◌≤◌, ◌≡◌, refl, ap, sym, ◌∙◌, false, List, [], ◌∷◌, ◌++◌, ltb, ◌==◌,
  length, arith, All, drop, take-append, length-append, drop-drop, Bool, if◌then◌else◌, some,
  length-drop,
}
use lokinet.Util.Buffer.{Buffer, Io, got, size_left, place}
use lokinet.Util.Buffer.Access.{Puts, Gets}
use lokinet.Util.Bencode.Scan.{at, seek, seek_lem, advance_lem, advance_one}
use lokinet.Dns.Name.{
  parts, strip_dot, encode_labels, encode_name, decode_labels, decode_name, last_dot, take_label,
  behind, put_byte,
}

-- labels with a dot between two of them
abbrev pub join : Bytes → List Bytes → Bytes
join l [] = l
join l (m ∷ ls) = l ++ b'.' ∷ join m ls

-- labels behind their lengths, and the byte that ends them
abbrev pub wire : List Bytes → Bytes
wire [] = 0 ∷ []
wire (l ∷ ls) = length l ∷ (l ++ wire ls)

-- labels with a dot behind each
abbrev pub dotted : List Bytes → Bytes
dotted [] = []
dotted (l ∷ ls) = l ++ b'.' ∷ dotted ls

abbrev pub IsLabel : Bytes → Type 0
IsLabel l = (0 < length l) × (length l ≤ 63) × All (λ c. (c == b'.') ≡ false) l

abbrev pub AllLabels : List Bytes → Type 0
AllLabels [] = Unit
AllLabels (l ∷ ls) = IsLabel l × AllLabels ls

parts-dot :
    (l rest : Bytes) → All (λ c. (c == b'.') ≡ false) l → parts (l ++ b'.' ∷ rest) ≡ l ∷ parts rest
unfolding parts
parts-dot [] rest a = refl
parts-dot (c ∷ l) rest a = rw (a.0, parts-dot l rest a.1) refl

parts-end :
    (c : ℕ) (l : Bytes) → All (λ c. (c == b'.') ≡ false) (c ∷ l) → parts (c ∷ l) ≡ (c ∷ l) ∷ []
unfolding parts
parts-end c [] a = rw a.0 refl
parts-end c (d ∷ l) a = rw (a.0, parts-end d l a.1) refl

parts-join : (l : Bytes) (ls : List Bytes) → IsLabel l → AllLabels ls → parts (join l ls) ≡ l ∷ ls
parts-join [] [] (s, _, _) a = absurd (omega arith)
parts-join (c ∷ l) [] (_, _, plain) a = parts-end c l plain
parts-join l (m ∷ ls) (_, _, plain) a =
    rw (parts-dot l (join m ls) plain, parts-join m ls a.0 a.1) refl

strip_dot_lem : (text : Bytes) → strip_dot (text ++ b'.' ∷ []) ≡ text
unfolding strip_dot
strip_dot_lem [] = refl
strip_dot_lem (c ∷ []) = refl
strip_dot_lem (c ∷ d ∷ text) = ap (λ (x : Bytes). c ∷ x) (strip_dot_lem (d ∷ text))

last_dot_lem : (text : Bytes) → last_dot (text ++ b'.' ∷ []) ≡ some text
unfolding last_dot
last_dot_lem [] = refl
last_dot_lem (c ∷ text) = rw (last_dot_lem text) refl

pub not_below : (a b : ℕ) → b ≤ a → ltb a b ≡ false
not_below a b h = ground arith

not_zero : (a : ℕ) → 0 < a → (a == 0) ≡ false
not_zero a h = ground arith

place_lem :
    (t p q : Bytes) (n : ℕ)
    → length t ≤ length q
    → place t (at p q n) ≡ got tt (at p (t ++ drop (length t) q) n)
unfolding place
place_lem t p q n h = ground arith

put_byte_lem :
    (x : ℕ) (p q : Bytes) (n : ℕ)
    → 0 < length q
    → put_byte x (at p q n) ≡ got tt (at (p ++ x ∷ []) (drop 1 q) n)
put_byte_lem x p q n h =
    rw (place_lem (x ∷ []) p q n (omega arith), advance_one x p (drop 1 q) n) refl

encode_labels_lem :
    (ls : List Bytes) (p q : Bytes) (n : ℕ)
    → AllLabels ls
    → length p + length (wire ls) ≤ n
    → length (wire ls) ≤ length q
    → encode_labels ls (at p q n) ≡ got tt (at (p ++ wire ls) (drop (length (wire ls)) q) n)
unfolding encode_labels
encode_labels_lem [] p q n a h m = put_byte_lem 0 p q n (omega arith)
encode_labels_lem (l ∷ ls) p q n ((s, short, _), a) h m =
    rw
      (
        not_below 63 (length l) short,
        put_byte_lem (length l) p q n (omega arith),
        not_below (size_left (at here (drop 1 q) n)) (length l) fits,
        not_zero (length l) s,
        place_lem l here (drop 1 q) n (omega (arith, less, length-append l (wire ls))),
        advance_lem here l (drop (length l) (drop 1 q)) n,
        encode_labels_lem ls (here ++ l) (drop (length l) (drop 1 q)) n a
            (omega (
              arith,
              length-append p (length l ∷ []),
              length-append here l,
              length-append l (wire ls),
            ))
            (omega (arith, less, length-drop (length l) (drop 1 q), length-append l (wire ls))),
      )
      (ap (λ (b : Buffer). got tt b)
        (ap (λ (x : Bytes). at x (drop (length (wire ls)) (drop (length l) (drop 1 q))) n)
            (ap (λ (x : Bytes). x ++ wire ls) (append_assoc p (length l ∷ []) l)
              ∙ append_assoc p (length l ∷ l) (wire ls))
          ∙ ap (λ (x : Bytes). at (p ++ wire (l ∷ ls)) x n)
              (drop-drop (length (wire ls)) (length l) (drop 1 q)
                ∙ drop-drop (length l + length (wire ls)) 1 q
                ∙ ap (λ (k : ℕ). drop k q) {y = length (wire (l ∷ ls))}
                    (omega (arith, length-append l (wire ls))))))
  where
    here : Bytes
    here = p ++ length l ∷ []

    less : length (drop 1 q) ≡ length q - 1
    less = length-drop 1 q

    fits : length l ≤ size_left (at here (drop 1 q) n)
    fits =
        unfold size_left in
        omega (arith, length-append p (length l ∷ []), length-append l (wire ls))

pub take_label_lem :
    (c : ℕ) (l p q : Bytes) (n : ℕ) (more : Buffer → Io Bytes)
    → length p + suc (length l) ≤ n
    → take_label (suc (length l)) (at p ((c ∷ l) ++ q) n) more
      ≡ behind (c ∷ l) (more (at (p ++ c ∷ l) q n))
take_label_lem c l p q n more h =
    rw
      (
        not_below (size_left (at p ((c ∷ l) ++ q) n)) (suc (length l))
            (unfold size_left in omega arith),
        not_below (length ((c ∷ l) ++ q)) (suc (length l)) (omega (arith, length-append (c ∷ l) q)),
        advance_lem p (c ∷ l) q n,
      )
      (ap (λ (x : Bytes). behind x (more (at (p ++ c ∷ l) q n))) (take-append (c ∷ l) q))

decode_labels_lem :
    (ls : List Bytes) (fuel : ℕ) (p q : Bytes) (n : ℕ)
    → AllLabels ls
    → length (wire ls) ≤ fuel
    → length p + length (wire ls) ≤ n
    → decode_labels fuel (at p (wire ls ++ q) n) ≡ got (dotted ls) (at (p ++ wire ls) q n)
unfolding decode_labels
decode_labels_lem [] zero p q n a f h = absurd (omega arith)
decode_labels_lem (l ∷ ls) zero p q n a f h = absurd (omega arith)
decode_labels_lem [] (suc fuel) p q n a f h = rw (advance_one 0 p q n) refl
decode_labels_lem ([] ∷ ls) (suc fuel) p q n ((s, _, _), a) f h = absurd (omega arith)
decode_labels_lem ((c ∷ l) ∷ ls) (suc fuel) p q n ((s, short, _), a) f h =
    rw
      (
        append_assoc (c ∷ l) (wire ls) q,
        advance_one (suc (length l)) p ((c ∷ l) ++ (wire ls ++ q)) n,
        take_label_lem c l here (wire ls ++ q) n (decode_labels fuel)
            (omega (arith, length-append p (suc (length l) ∷ []), length-append (c ∷ l) (wire ls))),
        decode_labels_lem ls fuel (here ++ c ∷ l) q n a
            (omega (arith, length-append (c ∷ l) (wire ls)))
            (omega (
              arith,
              length-append p (suc (length l) ∷ []),
              length-append here (c ∷ l),
              length-append (c ∷ l) (wire ls),
            )),
      )
      (ap (λ (x : Bytes). got (dotted ((c ∷ l) ∷ ls)) (at x q n))
        (ap (λ (x : Bytes). x ++ wire ls) (append_assoc p (suc (length l) ∷ []) (c ∷ l))
          ∙ append_assoc p (suc (length l) ∷ c ∷ l) (wire ls)))
  where
    here : Bytes
    here = p ++ suc (length l) ∷ []

dotted-join : (l : Bytes) (ls : List Bytes) → dotted (l ∷ ls) ≡ join l ls ++ b'.' ∷ []
dotted-join l [] = refl
dotted-join l (m ∷ ls) =
    ap (λ (x : Bytes). l ++ b'.' ∷ x) (dotted-join m ls)
    ∙ sym (append_assoc l (b'.' ∷ join m ls) (b'.' ∷ []))

-- what `DecodeName` makes of labels, with the dot at the end trimmed off or not
abbrev pub trimmed : Bool → Bytes → Bytes
trimmed trim text = if trim then text else text ++ b'.' ∷ []

decode_name_lem :
    (trim : Bool) (l : Bytes) (ls : List Bytes) (p q : Bytes) (n : ℕ)
    → AllLabels (l ∷ ls)
    → length p + length (wire (l ∷ ls)) ≤ n
    → decode_name trim (at p (wire (l ∷ ls) ++ q) n)
      ≡ got (trimmed trim (join l ls)) (at (p ++ wire (l ∷ ls)) q n)
unfolding decode_name
decode_name_lem trim l ls p q n a h =
    rw
      (
        not_below (size_left (at p (wire (l ∷ ls) ++ q) n)) 1 (unfold size_left in omega arith),
        decode_labels_lem (l ∷ ls) (suc (length (wire (l ∷ ls) ++ q))) p q n a
            (omega (arith, length-append (wire (l ∷ ls)) q)) h,
        dotted-join l ls,
        last_dot_lem (join l ls),
      )
      refl

-- A name of labels, with a dot behind the last, that `EncodeName` writes is read back by `DecodeName`
-- from where it was written: with its dot, or without it where it is trimmed off. Each label has 1 to
-- 63 bytes and no dot, and the buffer has room for the labels, a byte in front of each and one behind.
pub decode_name-encode_name :
    (trim : Bool) (l : Bytes) (ls : List Bytes) (b : Buffer)
    → AllLabels (l ∷ ls)
    → length b.before + length (wire (l ∷ ls)) ≤ b.sz
    → length (wire (l ∷ ls)) ≤ length b.after
    → (b' : Buffer) × (encode_name (join l ls ++ b'.' ∷ []) b ≡ got tt b')
      × (decode_name trim (seek (length b.before) b') ≡ got (trimmed trim (join l ls)) b')
unfolding encode_name
decode_name-encode_name trim l ls b a h m =
    let p = b.before in
    let q = drop (length (wire (l ∷ ls))) b.after in
    (
      at (p ++ wire (l ∷ ls)) q b.sz,
      rw (strip_dot_lem (join l ls), parts-join l ls a.0 a.1)
          (encode_labels_lem (l ∷ ls) p b.after b.sz a h m),
      rw (seek_lem p (wire (l ∷ ls)) q b.sz) (decode_name_lem trim l ls p q b.sz a h),
    )

pub encode_name-Puts :
    (name : Bytes)
    → AllLabels (parts (strip_dot name))
    → Puts (encode_name name) (wire (parts (strip_dot name)))
unfolding encode_name
encode_name-Puts name a = record {
  writes = λ p q n h m. encode_labels_lem (parts (strip_dot name)) p q n a h (omega (arith, h, m));
}

wire_pos : (ls : List Bytes) → 0 < length (wire ls)
wire_pos [] = omega arith
wire_pos (l ∷ ls) = omega arith

pub decode_name-Gets :
    (ls : List Bytes) (name : Bytes)
    → dotted ls ≡ name
    → AllLabels ls
    → Gets (decode_name false) (wire ls) name
unfolding decode_name
decode_name-Gets ls name e a = record {
  reads = λ p q n h.
      rw
        (
          not_below (size_left (at p (wire ls ++ q) n)) 1
              (unfold size_left in omega (arith, h, wire_pos ls)),
          decode_labels_lem ls (suc (length (wire ls ++ q))) p q n a
              (omega (arith, length-append (wire ls) q)) h,
          e,
        )
        refl;
}
