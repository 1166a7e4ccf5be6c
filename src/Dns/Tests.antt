-- ===== src/Dns/Tests.antt =====
-- The theorems on llarp/dns at concrete inputs.
use lokinet.Base.{◌≡◌, refl, [], ◌∷◌, ◌++◌, arith, replicate, true, false, length-replicate, ℕ}
use lokinet.Base.Bytes.{to_be}
use lokinet.Util.Buffer.{Buffer, got, fault, ◌>>◌, over_memory, put_uint}
use lokinet.Util.Bencode.Scan.{at, seek}
use lokinet.Dns.Name.{encode_name, decode_name, parts, strip_dot}
use lokinet.Dns.Name.RoundTrip.{join, trimmed, decode_name-encode_name}
use lokinet.Dns.Name.Overrun.{decode_name-overrun}
use lokinet.Dns.Message.{
  Question, ResourceRecord, encode_message, read_message, encode_fields, decode_record,
  encode_rdata, no_record,
}
use lokinet.Dns.Message.Query.{query, read_message-encode_message}
use lokinet.Dns.Message.Record.{decode_record-encode_fields, encode_rdata-wraps}

abbrev memory : Buffer
memory = over_memory (replicate 40 7)

-- ab.c
decode_name-encode_name_example :
    (b' : Buffer) × (encode_name (join (b'a' ∷ b'b' ∷ []) ((b'c' ∷ []) ∷ []) ++ b'.' ∷ []) memory
      ≡ got tt b')
    × (decode_name true (seek 0 b')
        ≡ got (trimmed true (join (b'a' ∷ b'b' ∷ []) ((b'c' ∷ []) ∷ []))) b')
decode_name-encode_name_example =
    decode_name-encode_name true (b'a' ∷ b'b' ∷ []) ((b'c' ∷ []) ∷ []) memory
      ((omega arith, omega arith, (refl, (refl, tt))), ((omega arith, omega arith, (refl, tt)), tt))
      (omega arith) (omega arith)

decode_name-overrun_example :
    decode_name false (at (1 ∷ []) (2 ∷ b'a' ∷ b'b' ∷ 1 ∷ b'c' ∷ []) 6) ≡ fault
decode_name-overrun_example =
    decode_name-overrun false (b'a' ∷ b'b' ∷ []) ((b'c' ∷ []) ∷ []) (1 ∷ [])
      (omega arith, (omega arith, tt))

-- ab. of type A and class IN
abbrev question : Question
question = record { qname = b'a' ∷ b'b' ∷ b'.' ∷ []; qtype = 1; qclass = 1 }

read_message-encode_message_example :
    (b' : Buffer) × (encode_message (query 77 256 (question ∷ [])) memory ≡ got tt b')
    × (read_message (seek 0 b') ≡ got (query 77 256 (question ∷ [])) b')
unfolding parts strip_dot to_be
read_message-encode_message_example =
    read_message-encode_message 77 256 (question ∷ []) memory (omega arith) (omega arith)
      (omega arith)
      (((((omega arith, omega arith, (refl, (refl, tt))), tt), refl, omega arith, omega arith)), tt)
      (omega arith) (omega arith)

abbrev answer : ResourceRecord
answer = record { rr_name = []; rr_type = 5; rr_class = 1; ttl = 3; r_data = 1 ∷ b'x' ∷ 0 ∷ [] }

decode_record-encode_fields_example :
    (b' : Buffer) × ((put_uint 2 49164 memory >> encode_fields answer) ≡ got tt b')
    × (decode_record no_record (seek 0 b') ≡ got answer b')
decode_record-encode_fields_example =
    decode_record-encode_fields 49164 answer no_record memory (omega arith)
      (omega arith, omega arith, omega arith, omega arith) (omega arith) (omega arith)

encode_rdata-wraps_example : encode_rdata (replicate 65536 7) memory ≡ encode_rdata [] memory
encode_rdata-wraps_example =
    encode_rdata-wraps (replicate 65536 7) memory (length-replicate {A = ℕ} 65536 7)
