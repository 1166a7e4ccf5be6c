-- ===== src/Util/Bencode/Tests.antt =====
-- The theorems on llarp/util/bencode.cpp at concrete inputs.
use lokinet.Base.{◌≡◌, refl, [], ◌∷◌, ◌++◌, arith, replicate}
use lokinet.Util.Buffer.{Buffer, got, over_memory, writef, place, size_left, advance}
use lokinet.Util.Bencode.{
  discard, read_string, write_bytestring, decimal, digits, size_left, advance,
}
use lokinet.Util.Bencode.Scan.{at, seek, writef-full}
use lokinet.Util.Bencode.Strings.{read_string-write_bytestring}
use lokinet.Util.Bencode.Discard.{discard-encode}
use lokinet.Util.Bencode.Values.{
  Value, int, bytes, list, dict, no_items, item, no_entries, entry, Fits, encode,
}

abbrev memory : Buffer
memory = over_memory (replicate 30 7)

read_string-write_bytestring_example :
    (b' : Buffer) × (write_bytestring (4 ∷ 5 ∷ []) memory ≡ got tt b')
    × (read_string (seek 0 b') ≡ got (4 ∷ 5 ∷ []) b')
unfolding decimal digits
read_string-write_bytestring_example =
    read_string-write_bytestring (4 ∷ 5 ∷ []) memory (omega arith) (omega arith) (omega arith)
      (omega arith)

-- d1:ali12e3:xyzee
abbrev sample : Value
sample = dict (
    entry (b'a' ∷ []) (list (item (int 12) (item (bytes (b'x' ∷ b'y' ∷ b'z' ∷ [])) no_items)))
      no_entries)

discard-encode_example :
    discard 20 (at [] (encode sample ++ 9 ∷ []) 20) ≡ got tt (at ([] ++ encode sample) (9 ∷ []) 20)
unfolding encode Fits decimal digits
discard-encode_example =
    discard-encode sample 20 [] (9 ∷ []) 20 (omega arith) (omega arith) (omega arith)

-- A text that fills the buffer is cut by the NUL of `vsnprintf`, and `writef` succeeds.
writef_full : writef (4 ∷ 5 ∷ []) (over_memory (7 ∷ 7 ∷ [])) ≡ got tt (at (4 ∷ 0 ∷ []) [] 2)
unfolding writef place size_left advance
writef_full = refl

writef-full_example :
    writef (4 ∷ 5 ∷ []) (at [] (7 ∷ 7 ∷ []) 2) ≡ got tt (at ([] ++ (4 ∷ []) ++ 0 ∷ []) [] 2)
writef-full_example = writef-full (4 ∷ 5 ∷ []) [] (7 ∷ 7 ∷ []) 2 (omega arith) refl (omega arith)
