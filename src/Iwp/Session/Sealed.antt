-- ===== src/Iwp/Session/Sealed.antt =====
-- A packet that `EncryptWorker` of llarp/iwp/session.cpp sealed is opened by `DecryptMessageInPlace`.
use lokinet.Base.{
  ◌-◌, ◌<◌, ◌≡◌, refl, sym, ap, ap₂, ◌∙◌, some, arith, bytes_eq, length, take, drop, length-drop,
  lt→leb,
}
use lokinet.Base.Bytes.{
  Bytes, copy_at, length-copy_at, slice-copy_at, slice-copy_at_before, drop-copy_at,
  drop-copy_at_after,
}
use lokinet.Iwp.Packet.{packet_overhead, hmac_size, tun_nonce_size}
use lokinet.Iwp.Session.State.{Env}
use lokinet.Iwp.Session.Crypt.{encrypt_packet, decrypt_message_in_place}

-- What the crypto library is documented to do: the stream cipher is its own inverse and keeps the
-- length, and a keyed hash has 32 bytes.
pub record CipherLaws (env : Env) : Type 0 where
  pub xchacha20-xchacha20 :
      (key nonce x : Bytes) → env.xchacha20 key nonce (env.xchacha20 key nonce x) ≡ x
  pub length-xchacha20 : (key nonce x : Bytes) → length (env.xchacha20 key nonce x) ≡ length x
  pub length-hmac : (key x : Bytes) → length (env.hmac key x) ≡ hmac_size

accepted :
    (env : Env) (key pkt : Bytes)
    → packet_overhead < length pkt
    → env.hmac key (drop hmac_size pkt) ≡ take hmac_size pkt
    → decrypt_message_in_place env key pkt
      ≡ some (
          copy_at packet_overhead
            (env.xchacha20 key
              (take tun_nonce_size (drop hmac_size pkt))
              (drop packet_overhead pkt))
            pkt)
unfolding decrypt_message_in_place
accepted env key pkt long e =
    rw (lt→leb packet_overhead (length pkt) long, (bytes_eq.beq_iff _ _).1 e)

module _ (env : Env) (laws : CipherLaws env) (key pkt : Bytes)
    (long : packet_overhead < length pkt) where
  open laws use {xchacha20-xchacha20, length-xchacha20, length-hmac}

  nonce : Bytes
  nonce = take tun_nonce_size (drop hmac_size pkt)

  body : Bytes
  body = env.xchacha20 key nonce (drop packet_overhead pkt)

  cipher : Bytes
  unfolding body nonce
  cipher = copy_at packet_overhead body pkt

  hash : Bytes
  unfolding cipher
  hash = env.hmac key (drop hmac_size cipher)

  wire : Bytes
  unfolding hash
  wire = copy_at 0 hash cipher

  encrypt_packet_lem : encrypt_packet env key pkt ≡ wire
  unfolding encrypt_packet wire
  encrypt_packet_lem = refl

  length-hash : length hash ≡ hmac_size
  unfolding hash
  length-hash = length-hmac key (drop hmac_size cipher)

  length-body : length body ≡ length pkt - packet_overhead
  unfolding body
  length-body = length-xchacha20 key nonce _ ∙ length-drop packet_overhead pkt

  length-wire : length wire ≡ length pkt
  unfolding wire cipher
  length-wire = length-copy_at 0 hash _ ∙ length-copy_at packet_overhead body pkt

  wire_tail : drop hmac_size wire ≡ drop hmac_size cipher
  unfolding wire
  wire_tail = drop-copy_at_after hmac_size 0 hash cipher (omega (arith, length-hash))

  wire-hash : take hmac_size wire ≡ hash
  unfolding wire cipher
  wire-hash =
      slice-copy_at hmac_size 0 hash cipher length-hash
        (omega (arith, length-copy_at packet_overhead body pkt))

  wire-nonce : take tun_nonce_size (drop hmac_size wire) ≡ nonce
  unfolding cipher nonce
  wire-nonce =
      ap (take tun_nonce_size) wire_tail
      ∙ slice-copy_at_before tun_nonce_size hmac_size packet_overhead body pkt (omega arith)

  wire-body : drop packet_overhead wire ≡ body
  unfolding wire cipher
  wire-body =
      drop-copy_at_after packet_overhead 0 hash cipher (omega (arith, length-hash))
      ∙ drop-copy_at packet_overhead body pkt (omega (arith, length-body))

  -- With a cipher that is its own inverse, a sealed packet that has a body is accepted under the
  -- same key, and opens to the plaintext that was sealed.
  pub decrypt-encrypt :
      (plain : Bytes) × (decrypt_message_in_place env key (encrypt_packet env key pkt) ≡ some plain)
      × (drop packet_overhead plain ≡ drop packet_overhead pkt)
  unfolding hash
  decrypt-encrypt =
      let opened =
        env.xchacha20 key (take tun_nonce_size (drop hmac_size wire)) (drop packet_overhead wire) in
      let e : opened ≡ drop packet_overhead pkt =
        ap₂ (env.xchacha20 key) wire-nonce wire-body
        ∙ unfold body in xchacha20-xchacha20 key nonce _ in
      (
        copy_at packet_overhead opened wire,
        rw encrypt_packet_lem (
            accepted env key wire (omega (arith, length-wire))
              (ap (env.hmac key) wire_tail ∙ sym wire-hash)),
        drop-copy_at packet_overhead opened wire
              (omega (arith, ap length e, length-drop packet_overhead pkt, length-wire))
            ∙ e,
      )
