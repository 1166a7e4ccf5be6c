-- ===== src/Dns/Name/Overrun.antt =====
-- Names without an end in llarp/dns/name.cpp.

use lokinet.Base.Bytes.{Bytes}
use lokinet.Base.{
  ℕ, zero, suc, ◌+◌, ◌<◌, ◌≤◌, ◌≡◌, refl, Bool, List, [], ◌∷◌, ◌++◌, length, arith, length-append,
}
use lokinet.Util.Buffer.{fault, size_left}
use lokinet.Util.Bencode.Scan.{at, advance_one}
use lokinet.Dns.Name.{decode_labels, decode_name}
use lokinet.Dns.Name.RoundTrip.{not_below, take_label_lem}

-- labels behind their lengths, without the byte that ends a name
abbrev pub open_wire : List Bytes → Bytes
open_wire [] = []
open_wire (l ∷ ls) = length l ∷ (l ++ open_wire ls)

abbrev pub AllFilled : List Bytes → Type 0
AllFilled [] = Unit
AllFilled (l ∷ ls) = (0 < length l) × AllFilled ls

decode_labels-overrun :
    (ls : List Bytes) (fuel : ℕ) (p : Bytes) (n : ℕ)
    → AllFilled ls
    → length (open_wire ls) < fuel
    → length p + length (open_wire ls) ≤ n
    → decode_labels fuel (at p (open_wire ls) n) ≡ fault
unfolding decode_labels
decode_labels-overrun ls zero p n a f h = absurd (omega arith)
decode_labels-overrun [] (suc fuel) p n a f h = refl
decode_labels-overrun ([] ∷ ls) (suc fuel) p n (s, a) f h = absurd (omega arith)
decode_labels-overrun ((c ∷ l) ∷ ls) (suc fuel) p n (s, a) f h =
    rw
      (
        advance_one (suc (length l)) p ((c ∷ l) ++ open_wire ls) n,
        take_label_lem c l here (open_wire ls) n (decode_labels fuel) (
            omega
              (arith, length-append p (suc (length l) ∷ []), length-append (c ∷ l) (open_wire ls))),
        decode_labels-overrun ls fuel (here ++ c ∷ l) n a
            (omega (arith, length-append (c ∷ l) (open_wire ls)))
            (omega (
              arith,
              length-append p (suc (length l) ∷ []),
              length-append here (c ∷ l),
              length-append (c ∷ l) (open_wire ls),
            )),
      )
      refl
  where
    here : Bytes
    here = p ++ suc (length l) ∷ []

-- `DecodeName` reads behind the memory where one or more labels, none of them empty, stand from the
-- cursor on without the byte that ends a name, and the memory and the buffer end with the last of them:
-- the length of a further label is read without a look at the buffer's size.
pub decode_name-overrun :
    (trim : Bool) (l : Bytes) (ls : List Bytes) (p : Bytes)
    → AllFilled (l ∷ ls)
    → decode_name trim (at p (open_wire (l ∷ ls)) (length p + length (open_wire (l ∷ ls)))) ≡ fault
unfolding decode_name
decode_name-overrun trim l ls p a =
    let t = open_wire (l ∷ ls) in
    let n = length p + length t in
    rw
      (
        not_below (size_left (at p t n)) 1 (unfold size_left in omega arith),
        decode_labels-overrun (l ∷ ls) (suc (length t)) p n a (omega arith) (omega arith),
      )
      refl
