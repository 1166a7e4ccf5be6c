-- ===== src/Dns/Message/Record.antt =====
-- Resource records (llarp/dns/rr.cpp) and their data (llarp/dns/serialize.cpp), written and read back.
use mathlib.Core.List.{append-nil}
use lokinet.Base.Bytes.{Bytes, to_be}
use lokinet.Base.{
  ℕ, ◌+◌, ◌≤◌, ◌<◌, ◌^◌, ◌%◌, ◌≡◌, refl, [], ◌++◌, length, arith, false, length-append, drop, take,
  ltb, if◌then◌else◌, take_all, take-append,
}
use lokinet.Util.Buffer.{Buffer, Io, refused, got, ◌>>◌, put_uint, size_left, place, advance}
use lokinet.Util.Buffer.Access.{
  Puts, Puts-both, put_uint-Puts, Gets, Gets-both, Gets-nothing, read_uint-Gets,
}
use lokinet.Util.Bencode.Scan.{at, seek, seek_lem, place_lem, advance_lem}
use lokinet.Dns.Message.{ResourceRecord, encode_rdata, decode_rdata, encode_fields, decode_record}

not_below : (a b : ℕ) → b ≤ a → ltb a b ≡ false
not_below a b h = ground arith

abbrev copy : Bytes → Buffer → Io (Unit {0})
copy v b =
    if ltb (size_left b) (length v)
    then refused b
    else (place (take (length v) v) b >> λ b'. got tt (advance (length v) b'))

copy-Puts : (v : Bytes) → Puts (copy v) v
copy-Puts v = record {
  writes = λ p q n h m.
      rw
        (
          not_below (size_left (at p q n)) (length v) (unfold size_left in omega (arith, h)),
          take_all (length v) v (omega arith),
          place_lem v p q n (omega (arith, h, m)),
          advance_lem p v (drop (length v) q) n,
        )
        refl;
}

abbrev data_text : Bytes → Bytes
data_text v = to_be 2 (length v) ++ v

rdata-Puts : (v : Bytes) → length v < 2 ^ 16 → Puts (encode_rdata v) (data_text v)
unfolding encode_rdata
rdata-Puts v w = record {
  writes = λ p q n h m.
      rw (not_below 65536 (length v) (omega (arith, w)), few (length v) w)
        ((Puts-both (put_uint-Puts 2 (length v)) (copy-Puts v)).writes p q n h m);
}
  where
    few : (n : ℕ) → n < 2 ^ 16 → n % 2 ^ 16 ≡ n
    few n h = omega arith

rdata-Gets : (v : Bytes) → length v < 2 ^ 16 → Gets decode_rdata (data_text v) v
unfolding decode_rdata
rdata-Gets v w = Gets-both _ (read_uint-Gets 2 (length v) w) (record {
  reads = λ p q n h.
      rw
        (
          not_below (size_left (at p (v ++ q) n)) (length v) (unfold size_left in omega (arith, h)),
          not_below (length (v ++ q)) (length v) (omega (arith, length-append v q)),
          take-append v q,
          advance_lem p v q n,
        )
        refl;
})

abbrev IsRecord : ResourceRecord → Type 0
IsRecord r =
    (r.rr_type < 2 ^ 16) × (r.rr_class < 2 ^ 16) × (r.ttl < 2 ^ 32) × (length r.r_data < 2 ^ 16)

abbrev fields_text : ResourceRecord → Bytes
fields_text r =
    to_be 2 r.rr_type ++ (to_be 2 r.rr_class ++ (to_be 4 r.ttl ++ (data_text r.r_data ++ [])))

fields-Puts : (r : ResourceRecord) → IsRecord r → Puts (encode_fields r) (fields_text r)
unfolding encode_fields
fields-Puts r (_, _, _, w) = rw (append-nil (data_text r.r_data)) (
    Puts-both (put_uint-Puts 2 r.rr_type) (
      Puts-both (put_uint-Puts 2 r.rr_class)
        (Puts-both (put_uint-Puts 4 r.ttl) (rdata-Puts r.r_data w))))

record-Gets :
    (pointer : ℕ) (r old : ResourceRecord)
    → pointer < 2 ^ 16
    → IsRecord r
    → Gets
        (decode_record old)
        (to_be 2 pointer ++ fields_text r)
        (record r { rr_name = old.rr_name })
unfolding decode_record
record-Gets pointer r old p (t, c, l, w) = Gets-both _ (read_uint-Gets 2 pointer p) (
    Gets-both _ (read_uint-Gets 2 r.rr_type t) (
      Gets-both _ (read_uint-Gets 2 r.rr_class c) (
        Gets-both _ (read_uint-Gets 4 r.ttl l) (
          Gets-both _ (rdata-Gets r.r_data w)
            (Gets-nothing (record r { rr_name = old.rr_name }))))))

-- What is encoded of a record behind its name, put behind a pointer of two bytes in place of the name,
-- is decoded from where it was written: type, class, time to live and data; the name stays what it was
-- in the record that is decoded into. The type and the class fit into 16 bits, the time to live into 32
-- bits, the data has less than 65536 bytes, and the buffer has room.
pub decode_record-encode_fields :
    (pointer : ℕ) (r old : ResourceRecord) (b : Buffer)
    → pointer < 2 ^ 16
    → IsRecord r
    → length b.before + (12 + length r.r_data) ≤ b.sz
    → b.sz ≤ length b.before + length b.after
    → (b' : Buffer) × ((put_uint 2 pointer b >> encode_fields r) ≡ got tt b')
      × (decode_record old (seek (length b.before) b')
          ≡ got (record r { rr_name = old.rr_name }) b')
decode_record-encode_fields pointer r old b p w room memory =
    let t = to_be 2 pointer ++ fields_text r in
    let q = drop (length t) b.after in
    let fits : length b.before + length t ≤ b.sz = omega (arith, room, length_text) in
    (
      at (b.before ++ t) q b.sz,
      (Puts-both (put_uint-Puts 2 pointer) (fields-Puts r w)).writes b.before b.after b.sz fits
          memory,
      rw (seek_lem b.before t q b.sz) ((record-Gets pointer r old p w).reads b.before q b.sz fits),
    )
  where
    length_text : length (to_be 2 pointer ++ fields_text r) ≡ 12 + length r.r_data
    length_text = unfold to_be in rw (append-nil r.r_data) (omega arith)

-- Data of 65536 bytes is not refused, and is encoded as if it were empty.
pub encode_rdata-wraps :
    (v : Bytes) (b : Buffer) → length v ≡ 65536 → encode_rdata v b ≡ encode_rdata [] b
unfolding encode_rdata
encode_rdata-wraps v b e = rw e refl
