-- ===== src/Dns/Message.antt =====
-- DNS messages: `Message` and `MessageHeader` of llarp/dns/message.cpp, `Question` of
-- llarp/dns/question.cpp, `ResourceRecord` of llarp/dns/rr.cpp, and llarp/dns/serialize.cpp, on the
-- buffers of Util.Buffer. What a call that is refused has read is not kept.
pub mod Record
pub mod Query
use lokinet.Base.Bytes.{Bytes}
use lokinet.Base.{ℕ, ◌%◌, ◌^◌, false, List, [], ◌∷◌, ltb, if◌then◌else◌, length, take, replicate}
use lokinet.Util.Buffer.{
  Buffer, Io, fault, refused, got, ◌>>=◌, ◌>>◌, size_left, advance, place, put_uint, read_uint,
}
use lokinet.Dns.Name.{encode_name, decode_name}

pub record MessageHeader : Type 0 where
  pub id : ℕ
  pub fields : ℕ
  pub qd_count : ℕ
  pub an_count : ℕ
  pub ns_count : ℕ
  pub ar_count : ℕ

pub record Question : Type 0 where
  pub qname : Bytes
  pub qtype : ℕ
  pub qclass : ℕ

pub record ResourceRecord : Type 0 where
  pub rr_name : Bytes
  pub rr_type : ℕ
  pub rr_class : ℕ
  pub ttl : ℕ
  pub r_data : Bytes

pub record Message : Type 0 where
  pub hdr_id : ℕ
  pub hdr_fields : ℕ
  pub questions : List Question
  pub answers : List ResourceRecord
  pub authorities : List ResourceRecord
  pub additional : List ResourceRecord

unfoldable pub encode_header : MessageHeader → Buffer → Io (Unit {0})
encode_header h b = put_uint 2 h.id b >> λ b1. put_uint 2 h.fields b1 >> λ b2.
    put_uint 2 h.qd_count b2 >> λ b3.
    put_uint 2 h.an_count b3 >> λ b4. put_uint 2 h.ns_count b4 >> λ b5. put_uint 2 h.ar_count b5

unfoldable pub decode_header : Buffer → Io MessageHeader
decode_header b = read_uint 2 b >>= λ id b1. read_uint 2 b1 >>= λ fields b2.
    read_uint 2 b2 >>= λ qd b3. read_uint 2 b3 >>= λ an b4. read_uint 2 b4 >>= λ ns b5.
    read_uint 2 b5 >>= λ ar b6.
    got
      (record {
        id = id;
        fields = fields;
        qd_count = qd;
        an_count = an;
        ns_count = ns;
        ar_count = ar;
      })
      b6

unfoldable pub encode_question : Question → Buffer → Io (Unit {0})
encode_question q b =
    encode_name q.qname b >> λ b1. put_uint 2 q.qtype b1 >> λ b2. put_uint 2 q.qclass b2

unfoldable pub decode_question : Buffer → Io Question
decode_question b = decode_name false b >>= λ name b1. read_uint 2 b1 >>= λ type b2.
    read_uint 2 b2 >>= λ class b3. got (record { qname = name; qtype = type; qclass = class }) b3

-- the length is a 16-bit integer
unfoldable pub encode_rdata : Bytes → Buffer → Io (Unit {0})
encode_rdata v b =
    let len = length v % 2 ^ 16 in
    if ltb 65536 (length v)
    then refused b
    else (put_uint 2 len b >> λ b'.
        if ltb (size_left b') len
        then refused b'
        else (place (take len v) b' >> λ b''. got tt (advance len b'')))

unfoldable pub decode_rdata : Buffer → Io Bytes
decode_rdata b = read_uint 2 b >>= λ len b'.
    if ltb (size_left b') len
    then refused b'
    else if ltb (length b'.after) len
    then fault
    else got (take len b'.after) (advance len b')

-- what `Encode` writes behind the name
unfoldable pub encode_fields : ResourceRecord → Buffer → Io (Unit {0})
encode_fields r b = put_uint 2 r.rr_type b >> λ b1.
    put_uint 2 r.rr_class b1 >> λ b2. put_uint 4 r.ttl b2 >> λ b3. encode_rdata r.r_data b3

unfoldable pub encode_record : ResourceRecord → Buffer → Io (Unit {0})
encode_record r b = encode_name r.rr_name b >> encode_fields r

-- In place of a name, `Decode` skips two bytes.
unfoldable pub decode_record : ResourceRecord → Buffer → Io ResourceRecord
decode_record r b = read_uint 2 b >>= λ discard b1. read_uint 2 b1 >>= λ type b2.
    read_uint 2 b2 >>= λ class b3. read_uint 4 b3 >>= λ ttl b4. decode_rdata b4 >>= λ data_read b5.
    got (record r { rr_type = type; rr_class = class; ttl = ttl; r_data = data_read }) b5

-- `Message(hdr)`
abbrev pub no_question : Question
no_question = record { qname = []; qtype = 0; qclass = 0 }

abbrev pub no_record : ResourceRecord
no_record = record { rr_name = []; rr_type = 0; rr_class = 0; ttl = 0; r_data = [] }

abbrev pub new_message : MessageHeader → Message
new_message h = record {
  hdr_id = h.id;
  hdr_fields = h.fields;
  questions = replicate h.qd_count no_question;
  answers = replicate h.an_count no_record;
  authorities = replicate h.ns_count no_record;
  additional = replicate h.ar_count no_record;
}

unfoldable pub encode_questions : List Question → Buffer → Io (Unit {0})
encode_questions [] b = got tt b
encode_questions (q ∷ qs) b = encode_question q b >> λ b'. encode_questions qs b'

unfoldable pub encode_answers : List ResourceRecord → Buffer → Io (Unit {0})
encode_answers [] b = got tt b
encode_answers (r ∷ rs) b = encode_record r b >> λ b'. encode_answers rs b'

unfoldable pub encode_message : Message → Buffer → Io (Unit {0})
encode_message m b =
    encode_header
      (record {
        id = m.hdr_id;
        fields = m.hdr_fields;
        qd_count = length m.questions % 2 ^ 16;
        an_count = length m.answers % 2 ^ 16;
        ns_count = 0;
        ar_count = 0;
      })
      b
    >> λ b1. encode_questions m.questions b1 >> λ b2. encode_answers m.answers b2

unfoldable pub decode_questions : List Question → Buffer → Io (List Question)
decode_questions [] b = got [] b
decode_questions (q ∷ qs) b =
    decode_question b >>= λ q' b1. decode_questions qs b1 >>= λ qs' b2. got (q' ∷ qs') b2

unfoldable pub decode_answers : List ResourceRecord → Buffer → Io (List ResourceRecord)
decode_answers [] b = got [] b
decode_answers (r ∷ rs) b =
    decode_record r b >>= λ r' b1. decode_answers rs b1 >>= λ rs' b2. got (r' ∷ rs') b2

-- Authorities and additional records are not read.
unfoldable pub decode_message : Message → Buffer → Io Message
decode_message m b = decode_questions m.questions b >>= λ qs b1.
    decode_answers m.answers b1 >>= λ rs b2. got (record m { questions = qs; answers = rs }) b2

-- a message behind its header, as the server reads it
abbrev pub read_message : Buffer → Io Message
read_message b = decode_header b >>= λ h b'. decode_message (new_message h) b'
