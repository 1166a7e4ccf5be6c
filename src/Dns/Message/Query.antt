-- ===== src/Dns/Message/Query.antt =====
-- Queries, messages without records (llarp/dns/message.cpp and llarp/dns/question.cpp), written and
-- read back.
use mathlib.Core.List.{append-nil}
use lokinet.Base.Bytes.{Bytes, to_be}
use lokinet.Base.{
  ℕ, ◌+◌, ◌≤◌, ◌<◌, ◌^◌, ◌%◌, ◌≡◌, List, [], ◌∷◌, ◌++◌, length, arith, replicate, drop, subst,
}
use lokinet.Util.Buffer.{Buffer, got}
use lokinet.Util.Buffer.Access.{
  Puts, Puts-both, Puts-nothing, put_uint-Puts, Gets, Gets-both, Gets-nothing, read_uint-Gets,
}
use lokinet.Util.Bencode.Scan.{at, seek, seek_lem}
use lokinet.Dns.Name.{parts, strip_dot}
use lokinet.Dns.Name.RoundTrip.{wire, dotted, AllLabels, encode_name-Puts, decode_name-Gets}
use lokinet.Dns.Message.{
  MessageHeader, Question, ResourceRecord, Message, encode_header, decode_header, encode_question,
  decode_question, encode_questions, decode_questions, encode_answers, decode_answers, new_message,
  no_question, encode_message, decode_message, read_message,
}

abbrev header_text : MessageHeader → Bytes
header_text h =
    to_be 2 h.id
    ++ (to_be 2 h.fields
        ++ (to_be 2 h.qd_count
            ++ (to_be 2 h.an_count ++ (to_be 2 h.ns_count ++ (to_be 2 h.ar_count ++ [])))))

-- each word fits into 16 bits
abbrev IsHeader : MessageHeader → Type 0
IsHeader h =
    (h.id < 2 ^ 16)
    × (h.fields < 2 ^ 16)
    × (h.qd_count < 2 ^ 16)
    × (h.an_count < 2 ^ 16)
    × (h.ns_count < 2 ^ 16)
    × (h.ar_count < 2 ^ 16)

header-Puts : (h : MessageHeader) → Puts (encode_header h) (header_text h)
unfolding encode_header
header-Puts h = rw (append-nil (to_be 2 h.ar_count)) (
    Puts-both (put_uint-Puts 2 h.id) (
      Puts-both (put_uint-Puts 2 h.fields) (
        Puts-both (put_uint-Puts 2 h.qd_count) (
          Puts-both (put_uint-Puts 2 h.an_count)
            (Puts-both (put_uint-Puts 2 h.ns_count) (put_uint-Puts 2 h.ar_count))))))

header-Gets : (h : MessageHeader) → IsHeader h → Gets decode_header (header_text h) h
unfolding decode_header
header-Gets h (i, f, qd, an, ns, ar) = Gets-both _ (read_uint-Gets 2 h.id i) (
    Gets-both _ (read_uint-Gets 2 h.fields f) (
      Gets-both _ (read_uint-Gets 2 h.qd_count qd) (
        Gets-both _ (read_uint-Gets 2 h.an_count an) (
          Gets-both _ (read_uint-Gets 2 h.ns_count ns)
            (Gets-both _ (read_uint-Gets 2 h.ar_count ar) (Gets-nothing h))))))

-- Labels with dots behind them, and a type and a class of 16 bits.
abbrev pub IsQuestion : Question → Type 0
IsQuestion q =
    AllLabels (parts (strip_dot q.qname))
    × (dotted (parts (strip_dot q.qname)) ≡ q.qname)
    × (q.qtype < 2 ^ 16)
    × (q.qclass < 2 ^ 16)

abbrev question_text : Question → Bytes
question_text q = wire (parts (strip_dot q.qname)) ++ (to_be 2 q.qtype ++ (to_be 2 q.qclass ++ []))

question-Puts : (q : Question) → IsQuestion q → Puts (encode_question q) (question_text q)
unfolding encode_question
question-Puts q (a, e, t, c) = rw (append-nil (to_be 2 q.qclass)) (
    Puts-both (encode_name-Puts q.qname a)
      (Puts-both (put_uint-Puts 2 q.qtype) (put_uint-Puts 2 q.qclass)))

question-Gets : (q : Question) → IsQuestion q → Gets decode_question (question_text q) q
unfolding decode_question
question-Gets q (a, e, t, c) =
    Gets-both _ (decode_name-Gets (parts (strip_dot q.qname)) q.qname e a) (
      Gets-both _ (read_uint-Gets 2 q.qtype t)
        (Gets-both _ (read_uint-Gets 2 q.qclass c) (Gets-nothing q)))

abbrev pub AllQuestions : List Question → Type 0
AllQuestions [] = Unit
AllQuestions (q ∷ qs) = IsQuestion q × AllQuestions qs

abbrev questions_text : List Question → Bytes
questions_text [] = []
questions_text (q ∷ qs) = question_text q ++ questions_text qs

questions-Puts :
    (qs : List Question) → AllQuestions qs → Puts (encode_questions qs) (questions_text qs)
unfolding encode_questions
questions-Puts [] a = Puts-nothing
questions-Puts (q ∷ qs) a = Puts-both (question-Puts q a.0) (questions-Puts qs a.1)

questions-Gets :
    (qs : List Question)
    → AllQuestions qs
    → Gets (decode_questions (replicate (length qs) no_question)) (questions_text qs) qs
unfolding decode_questions
questions-Gets [] a = Gets-nothing []
questions-Gets (q ∷ qs) a =
    subst
      (λ t.
        Gets (decode_questions (replicate (length (q ∷ qs)) no_question)) (question_text q ++ t)
          (q ∷ qs))
      (append-nil (questions_text qs))
      (Gets-both _ (question-Gets q a.0)
        (Gets-both _ (questions-Gets qs a.1) (Gets-nothing (q ∷ qs))))

-- a message that asks these questions
abbrev pub query : ℕ → ℕ → List Question → Message
query id fields qs = record {
  hdr_id = id;
  hdr_fields = fields;
  questions = qs;
  answers = [];
  authorities = [];
  additional = [];
}

abbrev query_header : ℕ → ℕ → ℕ → MessageHeader
query_header id fields n = record {
  id = id;
  fields = fields;
  qd_count = n;
  an_count = 0;
  ns_count = 0;
  ar_count = 0;
}

abbrev pub query_text : ℕ → ℕ → List Question → Bytes
query_text id fields qs =
    header_text (query_header id fields (length qs)) ++ (questions_text qs ++ [])

few : (n : ℕ) → n < 2 ^ 16 → n % 2 ^ 16 ≡ n
few n h = omega arith

query-Puts :
    (id fields : ℕ) (qs : List Question)
    → length qs < 2 ^ 16
    → AllQuestions qs
    → Puts (encode_message (query id fields qs)) (query_text id fields qs)
unfolding encode_message encode_answers
query-Puts id fields qs h a =
    subst
      (λ n.
        Puts (encode_message (query id fields qs))
          (header_text (query_header id fields n) ++ (questions_text qs ++ [])))
      (few (length qs) h)
      (Puts-both (header-Puts (query_header id fields (length qs % 2 ^ 16)))
        (Puts-both (questions-Puts qs a) Puts-nothing))

decode_query-Gets :
    (id fields : ℕ) (qs : List Question)
    → AllQuestions qs
    → Gets
        (decode_message (new_message (query_header id fields (length qs))))
        (questions_text qs ++ [])
        (query id fields qs)
unfolding decode_message decode_answers
decode_query-Gets id fields qs a = Gets-both _ (questions-Gets qs a) (
    Gets-both (λ rs b. got (record (query id fields qs) { answers = rs }) b)
      (Gets-nothing {A = List ResourceRecord} []) (Gets-nothing (query id fields qs)))

query-Gets :
    (id fields : ℕ) (qs : List Question)
    → id < 2 ^ 16
    → fields < 2 ^ 16
    → length qs < 2 ^ 16
    → AllQuestions qs
    → Gets read_message (query_text id fields qs) (query id fields qs)
query-Gets id fields qs i f h a =
    Gets-both _
      (header-Gets (query_header id fields (length qs))
        (i, f, h, omega arith, omega arith, omega arith))
      (decode_query-Gets id fields qs a)

-- A query that is encoded is read back from where it was written, with its id, its flags and its
-- questions in order. Id, flags and the number of questions fit into 16 bits, as do the questions'
-- types and classes; names are labels of 1 to 63 bytes with a dot behind each; the buffer has room.
pub read_message-encode_message :
    (id fields : ℕ) (qs : List Question) (b : Buffer)
    → id < 2 ^ 16
    → fields < 2 ^ 16
    → length qs < 2 ^ 16
    → AllQuestions qs
    → length b.before + length (query_text id fields qs) ≤ b.sz
    → b.sz ≤ length b.before + length b.after
    → (b' : Buffer) × (encode_message (query id fields qs) b ≡ got tt b')
      × (read_message (seek (length b.before) b') ≡ got (query id fields qs) b')
read_message-encode_message id fields qs b i f h a room memory =
    let t = query_text id fields qs in
    let q = drop (length t) b.after in
    (
      at (b.before ++ t) q b.sz,
      (query-Puts id fields qs h a).writes b.before b.after b.sz room memory,
      rw (seek_lem b.before t q b.sz)
          ((query-Gets id fields qs i f h a).reads b.before q b.sz room),
    )
