-- ===== src/Util/Bencode/Discard.antt =====
-- `bencode_discard` of llarp/util/bencode.cpp skips one value of any depth.

use lokinet.Base.Bytes.{Bytes}
use lokinet.Base.{ℕ, zero, suc, ◌+◌, ◌<◌, ◌≤◌, ◌≡◌, [], ◌∷◌, ◌++◌, length, arith, length-append}
use lokinet.Util.Buffer.{got}
use lokinet.Util.Bencode.{discard}
use lokinet.Util.Bencode.Scan.{at}
use lokinet.Util.Bencode.Strings.{string_text}
use lokinet.Util.Bencode.Values.{
  Value, int, bytes, list, dict, Items, no_items, item, Entries, no_entries, entry, Fits, FitItems,
  FitEntries, encode, encode_items, encode_entries, value_length,
}
use lokinet.Util.Bencode.Skip.{
  Skips, SkipsItems, SkipsEntries, discard-int, discard-bytes, skip_list, skip_dict, skip_item,
  skip_entry, skip_no_items, skip_no_entries,
}

-- With fuel for its length a value is skipped.
mutual
  unfolding encode encode_items encode_entries Fits FitItems FitEntries

  Skips-value : (v : Value) (f : ℕ) → Fits v → length (encode v) ≤ f → Skips f v
  Skips-value (int i) zero s h = absurd (omega arith)
  Skips-value (int i) (suc f) s h = λ p q n r. discard-int i f p q n s r
  Skips-value (bytes t) zero s h = absurd (omega (arith, value_length (bytes t)))
  Skips-value (bytes t) (suc f) s h = λ p q n r. discard-bytes t f p q n s r
  Skips-value (list xs) zero s h = absurd (omega arith)
  Skips-value (list xs) (suc f) s h = skip_list f xs (
      SkipsItems-items xs f f s (omega (arith, length-append (encode_items xs) (b'e' ∷ [])))
        (omega (arith, length-append (encode_items xs) (b'e' ∷ []))))
  Skips-value (dict es) zero s h = absurd (omega arith)
  Skips-value (dict es) (suc f) s h = skip_dict f es (
      SkipsEntries-entries es f f s (omega (arith, length-append (encode_entries es) (b'e' ∷ [])))
        (omega (arith, length-append (encode_entries es) (b'e' ∷ []))))

  SkipsItems-items :
      (xs : Items) (k f : ℕ)
      → FitItems xs
      → length (encode_items xs) < k
      → length (encode_items xs) ≤ f
      → SkipsItems k f xs
  SkipsItems-items xs zero f s h h' = absurd (omega arith)
  SkipsItems-items no_items (suc k) f s h h' = skip_no_items k f
  SkipsItems-items (item v xs) (suc k) f s h h' =
      skip_item k f v xs
        (Skips-value v f s.0 (omega (arith, length-append (encode v) (encode_items xs))))
        (SkipsItems-items xs k f s.1
          (omega (arith, length-append (encode v) (encode_items xs), value_length v))
          (omega (arith, length-append (encode v) (encode_items xs))))

  SkipsEntries-entries :
      (es : Entries) (k f : ℕ)
      → FitEntries es
      → length (encode_entries es) < k
      → length (encode_entries es) ≤ f
      → SkipsEntries k f es
  SkipsEntries-entries es zero f s h h' = absurd (omega arith)
  SkipsEntries-entries no_entries (suc k) f s h h' = skip_no_entries k f
  SkipsEntries-entries (entry t v es) (suc k) f s h h' =
      skip_entry k f t v es s.0
        (Skips-value v f s.1 (
          omega (
            arith,
            length-append (string_text t) (encode v ++ encode_entries es),
            length-append (encode v) (encode_entries es),
          )))
        (SkipsEntries-entries es k f s.2
          (omega (
            arith,
            length-append (string_text t) (encode v ++ encode_entries es),
            length-append (encode v) (encode_entries es),
            value_length v,
          ))
          (omega (
            arith,
            length-append (string_text t) (encode v ++ encode_entries es),
            length-append (encode v) (encode_entries es),
          )))

-- Where the bytes at `cur` are the encoding of a value of any depth, of 64-bit integers and strings
-- shorter than 10 ^ 9, and all of it lies within the buffer, `bencode_discard` with as much fuel as the
-- encoding has bytes skips exactly that value.
pub discard-encode :
    (v : Value) (fuel : ℕ) (p q : Bytes) (n : ℕ)
    → Fits v
    → length (encode v) ≤ fuel
    → length p + length (encode v) ≤ n
    → discard fuel (at p (encode v ++ q) n) ≡ got tt (at (p ++ encode v) q n)
discard-encode v fuel p q n s h r = Skips-value v fuel s h p q n r
