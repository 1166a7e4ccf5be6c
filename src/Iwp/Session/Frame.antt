-- ===== src/Iwp/Session/Frame.antt =====
-- What sending a datagram leaves alone.
use mathlib.Core.List.{append-nil}
use lokinet.Base.{◌≡◌, refl, ◌∙◌, List, [], ◌∷◌, ◌++◌, arith, Bool-cases, inl, inr}
use lokinet.Base.Bytes.{Bytes}
use lokinet.Iwp.Session.State.{Session, Env, Event, handle_message, is_established}
use lokinet.Iwp.Session.Crypt.{encrypt_worker, encrypt_and_send, encrypt_and_send_all, send_ll}

-- The messages that the link layer was given, oldest first.
abbrev pub deliveries : List Event → List Bytes
deliveries [] = []
deliveries (handle_message m ∷ es) = m ∷ deliveries es
deliveries (_ ∷ es) = deliveries es

pub deliveries-append :
    (es fs : List Event) → deliveries (es ++ fs) ≡ deliveries es ++ deliveries fs
deliveries-append [] fs = refl
deliveries-append (handle_message m ∷ es) fs = ground (arith, deliveries-append es fs)
deliveries-append (_ ∷ es) fs = deliveries-append es fs

-- `t` differs from `s` only in what is sent, and in the rates and times of sending.
pub record Kept (s t : Session) : Type 0 where
  pub rx : t.rx_msgs ≡ s.rx_msgs
  pub tx : t.tx_msgs ≡ s.tx_msgs
  pub filter : t.replay_filter ≡ s.replay_filter
  pub macks : t.send_macks ≡ s.send_macks
  pub same_state : t.state ≡ s.state
  pub same_stats : t.stats ≡ s.stats
  pub same_key : t.session_key ≡ s.session_key
  pub same_token : t.token ≡ s.token
  pub same_rx_time : t.last_rx ≡ s.last_rx
  pub handed : deliveries t.events ≡ deliveries s.events

pub Kept-refl : (s : Session) → Kept s s
Kept-refl s = record {
  rx = refl;
  tx = refl;
  filter = refl;
  macks = refl;
  same_state = refl;
  same_stats = refl;
  same_key = refl;
  same_token = refl;
  same_rx_time = refl;
  handed = refl;
}

pub Kept-trans : {s t u : Session} → Kept s t → Kept t u → Kept s u
Kept-trans a b = record {
  rx = b.rx ∙ a.rx;
  tx = b.tx ∙ a.tx;
  filter = b.filter ∙ a.filter;
  macks = b.macks ∙ a.macks;
  same_state = b.same_state ∙ a.same_state;
  same_stats = b.same_stats ∙ a.same_stats;
  same_key = b.same_key ∙ a.same_key;
  same_token = b.same_token ∙ a.same_token;
  same_rx_time = b.same_rx_time ∙ a.same_rx_time;
  handed = b.handed ∙ a.handed;
}

send_ll-Kept : (env : Env) (p : Bytes) (s : Session) → Kept s (send_ll env p s)
unfolding send_ll
send_ll-Kept env p s = record {
  rx = refl;
  tx = refl;
  filter = refl;
  macks = refl;
  same_state = refl;
  same_stats = refl;
  same_key = refl;
  same_token = refl;
  same_rx_time = refl;
  handed = deliveries-append s.events _ ∙ append-nil _;
}

pub encrypt_worker-Kept :
    (env : Env) (ps : List Bytes) (s : Session) → Kept s (encrypt_worker env ps s)
unfolding encrypt_worker
encrypt_worker-Kept env [] s = Kept-refl s
encrypt_worker-Kept env (p ∷ ps) s =
    Kept-trans (send_ll-Kept env _ s) (encrypt_worker-Kept env ps _)

encrypt_and_send-worker :
    (env : Env) (p : Bytes) (s : Session)
    → Kept s
        (record (encrypt_worker env
          (s.encrypt_next ++ p ∷ [])
          (record s { encrypt_next = s.encrypt_next ++ p ∷ [] })) { encrypt_next = [] })
encrypt_and_send-worker env p s =
    let k =
      encrypt_worker-Kept env (s.encrypt_next ++ p ∷ [])
        (record s { encrypt_next = s.encrypt_next ++ p ∷ [] }) in
    record {
      rx = k.rx;
      tx = k.tx;
      filter = k.filter;
      macks = k.macks;
      same_state = k.same_state;
      same_stats = k.same_stats;
      same_key = k.same_key;
      same_token = k.same_token;
      same_rx_time = k.same_rx_time;
      handed = k.handed;
    }

pub encrypt_and_send-Kept :
    (env : Env) (p : Bytes) (s : Session) → Kept s (encrypt_and_send env p s)
unfolding encrypt_and_send
encrypt_and_send-Kept env p s = elim (Bool-cases (is_established s.state)) [
  | inl e ↦
      rw (e, encrypt_and_send)
        (record {
          rx = refl;
          tx = refl;
          filter = refl;
          macks = refl;
          same_state = refl;
          same_stats = refl;
          same_key = refl;
          same_token = refl;
          same_rx_time = refl;
          handed = refl;
        })
  | inr e ↦ rw (e, encrypt_and_send) (encrypt_and_send-worker env p s)
]

pub encrypt_and_send_all-Kept :
    (env : Env) (ps : List Bytes) (s : Session) → Kept s (encrypt_and_send_all env ps s)
unfolding encrypt_and_send_all
encrypt_and_send_all-Kept env [] s = Kept-refl s
encrypt_and_send_all-Kept env (p ∷ ps) s =
    Kept-trans (encrypt_and_send-Kept env p s) (encrypt_and_send_all-Kept env ps _)
