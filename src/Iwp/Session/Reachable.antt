-- ===== src/Iwp/Session/Reachable.antt =====
-- What holds in every session of llarp/iwp/session.cpp that the program can reach.
use lokinet.Base.{ℕ, ◌≡◌, Bool, Option, List, nat_eq}
use lokinet.Base.Map.{find?}
use lokinet.Base.Bytes.{Bytes}
use lokinet.Iwp.Acks.{done}
use lokinet.Iwp.Outbound.{Handler}
use lokinet.Iwp.Session.State.{Session, Env}
use lokinet.Iwp.Session.Crypt.{decrypt_worker, encrypt_worker}
use lokinet.Iwp.Session.Frame.{encrypt_worker-Kept}
use lokinet.Iwp.Session.Send.{close, pump, send_keep_alive, send_message_buffer}
use lokinet.Iwp.Session.Tick.{tick}
use lokinet.Iwp.Session.Receive.{handle_plaintext}
use lokinet.Iwp.Session.Handshake.{
  new_outbound, new_inbound, start, recv_ll, got_lim, renegotiate_session,
}
use lokinet.Iwp.Session.Fresh.{IsFresh}
use lokinet.Iwp.Session.Timers.{tick-Fresh}
use lokinet.Iwp.Session.Untouched.{Kept-SameRx, close-SameRx}
use lokinet.Iwp.Session.Lims.{
  send_message_buffer-SameRx, renegotiate_session-SameRx, got_lim-SameRx,
}
use lokinet.Iwp.Session.Opening.{start-SameRx, recv_ll-SameRx}
use lokinet.Iwp.Session.Plaintext.{
  SameRx-Fresh, pump-Fresh, handle_plaintext-Fresh, send_keep_alive-SameRx, decrypt_worker-SameRx,
}

-- The calls that the link layer and its workers make of a session, where they throw nothing.
pub data Step : Session → Session → Type 0 where
  started : (env : Env) (s : Session) → Step s (start env s)
  received :
      (env : Env) (pkt : Bytes) (s : Session) (r : Session × Bool)
      → recv_ll env pkt s ≡ done r
      → Step s r.0
  decrypted : (env : Env) (msgs : List Bytes) (s : Session) → Step s (decrypt_worker env msgs s)
  encrypted : (env : Env) (msgs : List Bytes) (s : Session) → Step s (encrypt_worker env msgs s)
  handled : (env : Env) (s t : Session) → handle_plaintext env s ≡ done t → Step s t
  greeted :
      (env : Env) (pk : Bytes) (public : Bool) (s : Session) (r : Session × Bool)
      → got_lim env pk public s ≡ done r
      → Step s r.0
  renegotiated :
      (env : Env) (s : Session) (r : Session × Bool)
      → renegotiate_session env s ≡ done r
      → Step s r.0
  sent :
      (env : Env) (buf : Bytes) (handler : Option Handler) (s : Session) (r : Session × Bool)
      → send_message_buffer env buf handler s ≡ done r
      → Step s r.0
  pumped : (env : Env) (s t : Session) → pump env s ≡ done t → Step s t
  pinged : (env : Env) (s : Session) → Step s (send_keep_alive env s).0
  ticked : (now : ℕ) (s : Session) → Step s (tick now s)
  closed_by_us : (env : Env) (s : Session) → Step s (close env s)

pub data Reachable : Session → Type 0 where
  inbound : (env : Env) → Reachable (new_inbound env)
  outbound :
      (env : Env) (rc_pubkey : Bytes) (rc_public : Bool) (ai_pubkey : Bytes)
      → Reachable (new_outbound env rc_pubkey rc_public ai_pubkey)
  after : {s t : Session} → Reachable s → Step s t → Reachable t

-- Each call of a session keeps the messages under way apart from the ids that the replay filter
-- remembers.
Step-Fresh : {s t : Session} → IsFresh s → Step s t → IsFresh t
Step-Fresh f (started env s) = SameRx-Fresh (start-SameRx env s) f
Step-Fresh f (received env pkt s r e) = SameRx-Fresh (recv_ll-SameRx env pkt s e) f
Step-Fresh f (decrypted env msgs s) = SameRx-Fresh (decrypt_worker-SameRx env msgs s) f
Step-Fresh f (encrypted env msgs s) = SameRx-Fresh (Kept-SameRx (encrypt_worker-Kept env msgs s)) f
Step-Fresh f (handled env s t e) = handle_plaintext-Fresh env s t f e
Step-Fresh f (greeted env pk public s r e) = SameRx-Fresh (got_lim-SameRx env pk public s e) f
Step-Fresh f (renegotiated env s r e) = SameRx-Fresh (renegotiate_session-SameRx env s e) f
Step-Fresh f (sent env buf handler s r e) =
    SameRx-Fresh (send_message_buffer-SameRx env buf handler s e) f
Step-Fresh f (pumped env s t e) = pump-Fresh env s t f e
Step-Fresh f (pinged env s) = SameRx-Fresh (send_keep_alive-SameRx env s) f
Step-Fresh f (ticked now s) = tick-Fresh now s f
Step-Fresh f (closed_by_us env s) = SameRx-Fresh (close-SameRx env s) f

-- In every session that can be reached from its construction, by calls that throw nothing, no message
-- under way is remembered by the replay filter, and each stands once, under its own id.
pub reachable-IsFresh : {s : Session} → Reachable s → IsFresh s
unfolding new_inbound new_outbound find?
reachable-IsFresh (inbound env) = record {
  keyed = λ id m e. absurd cc;
  apart = λ id m e. absurd cc;
  distinct = tt;
}
reachable-IsFresh (outbound env rc_pubkey rc_public ai_pubkey) = record {
  keyed = λ id m e. absurd cc;
  apart = λ id m e. absurd cc;
  distinct = tt;
}
reachable-IsFresh (after r step) = Step-Fresh (reachable-IsFresh r) step
