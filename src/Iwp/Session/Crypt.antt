-- ===== src/Iwp/Session/Crypt.antt =====
-- Datagrams: `Send_LL`, `EncryptWorker`, `EncryptAndSend`, `DecryptMessageInPlace` and
-- `DecryptWorker` of llarp/iwp/session.cpp.
use lokinet.Base.{
  ℕ, ◌+◌, not, Option, none, some, List, [], ◌∷◌, ◌++◌, bytes_eq, ltb, leb, ◌==◌, if◌then◌else◌,
  length, take, drop, get_elem?,
}
use lokinet.Base.Bytes.{Bytes, copy_at}
use lokinet.Iwp.Packet.{packet_overhead, hmac_size, tun_nonce_size, proto_version}
use lokinet.Iwp.Session.State.{Session, Env, emit, sent, wakeup_plaintext, is_established, u64}

-- `Send_LL(buf, sz)`
unfoldable pub send_ll : Env → Bytes → Session → Session
send_ll env pkt s =
    emit (sent pkt) (record s { last_tx = env.clock; tx_rate = u64 (s.tx_rate + length pkt) })

-- The loop body of `EncryptWorker`: the part behind the header is encrypted under the nonce, then
-- all behind the hash is authenticated.
unfoldable pub encrypt_packet : Env → Bytes → Bytes → Bytes
encrypt_packet env key pkt =
    let nonce = take tun_nonce_size (drop hmac_size pkt) in
    let cipher = copy_at packet_overhead (env.xchacha20 key nonce (drop packet_overhead pkt)) pkt in
    copy_at 0 (env.hmac key (drop hmac_size cipher)) cipher

-- `EncryptWorker(msgs)`
unfoldable pub encrypt_worker : Env → List Bytes → Session → Session
unfolding send_ll encrypt_packet
encrypt_worker env [] s = s
encrypt_worker env (pkt ∷ pkts) s =
    encrypt_worker env pkts (send_ll env (encrypt_packet env s.session_key pkt) s)

-- `EncryptAndSend(data)`: an established session leaves the work to `Pump`.
unfoldable pub encrypt_and_send : Env → Bytes → Session → Session
unfolding encrypt_worker is_established
encrypt_and_send env pkt s =
    let queued = record s { encrypt_next = s.encrypt_next ++ pkt ∷ [] } in
    if is_established s.state
    then queued
    else record (encrypt_worker env queued.encrypt_next queued) { encrypt_next = [] }

-- The packets of a loop, one after another.
unfoldable pub encrypt_and_send_all : Env → List Bytes → Session → Session
unfolding encrypt_and_send
encrypt_and_send_all env [] s = s
encrypt_and_send_all env (p ∷ ps) s = encrypt_and_send_all env ps (encrypt_and_send env p s)

-- `DecryptMessageInPlace(pkt)`, with `none` for its failure
unfoldable pub decrypt_message_in_place : Env → Bytes → Bytes → Option Bytes
decrypt_message_in_place env key pkt =
    if leb (length pkt) packet_overhead
    then none
    else if not (bytes_eq.beq (env.hmac key (drop hmac_size pkt)) (take hmac_size pkt))
    then none
    else some (
        copy_at packet_overhead
          (env.xchacha20 key (take tun_nonce_size (drop hmac_size pkt)) (drop packet_overhead pkt))
          pkt)

-- The packets that `DecryptWorker` keeps.
unfoldable pub keep_decrypted : Option Bytes → List Bytes → List Bytes
keep_decrypted none rest = rest
keep_decrypted (some pkt) rest = elim (get_elem? pkt packet_overhead) [
  | none ↦ rest
  | some v ↦ if v == proto_version then pkt ∷ rest else rest
]

unfoldable pub decrypt_all : Env → Bytes → List Bytes → List Bytes
unfolding decrypt_message_in_place keep_decrypted
decrypt_all env key [] = []
decrypt_all env key (pkt ∷ pkts) =
    keep_decrypted (decrypt_message_in_place env key pkt) (decrypt_all env key pkts)

abbrev pub plaintext_queue_size : ℕ
plaintext_queue_size = 32

-- `DecryptWorker(msgs)`: a batch that finds the queue full is lost.
unfoldable pub decrypt_worker : Env → List Bytes → Session → Session
unfolding decrypt_all
decrypt_worker env msgs s =
    let batch = decrypt_all env s.session_key msgs in
    let pushed =
      if ltb (length s.plaintext_recv) plaintext_queue_size
      then s.plaintext_recv ++ batch ∷ []
      else s.plaintext_recv in
    emit wakeup_plaintext (record s { plaintext_recv = pushed })
