-- ===== src/Iwp/Reassembly.antt =====
-- How the fragments of a message come together again at the receiver, in any order.
use lokinet.Base.{
  [], ◌∷◌, inl, inr, ◌⊎◌, ◌↔◌, ℕ, ◌*◌, ◌≤◌, ◌<◌, ◌≡◌, refl, sym, ◌∙◌, arith, true, false, some,
  length, get_elem?, set, get_elem?-set, get_elem?-replicate, ℕ_discrete, List, ◌↔◌, Bool, inl, ◌⊎◌,
  inr, get_elem?-set_self,
}
use lokinet.Base.Bytes.{Bytes}
use lokinet.Iwp.Acks.{done, Outcome, fragments, AllSet, no_acks, and_then}
use lokinet.Iwp.Inbound.{InboundMessage, init, handle_data, is_completed}
use lokinet.Iwp.Packet.{fragment_size, max_link_msg_size}
use lokinet.Iwp.Agreement.{
  fragment, Agrees, init-Agrees, stored, stored-Agrees, handle_data-fragment, is_completed_iff,
  is_completed-eq,
}

-- Fragments that arrive one after another, each with its time.
abbrev pub receive : InboundMessage → Bytes → List (ℕ × ℕ) → Outcome InboundMessage
receive m msg [] = done m
receive m msg ((k, now) ∷ ks) =
    and_then (handle_data m (fragment_size * k) (fragment msg k) now) (λ m'. receive m' msg ks)

abbrev pub IsDelivered : ℕ → List (ℕ × ℕ) → Type 0
IsDelivered k [] = ⊥
IsDelivered k ((j, now) ∷ ks) = (j ≡ k) ⊎ IsDelivered k ks

abbrev pub InRange : Bytes → List (ℕ × ℕ) → Type 0
InRange msg [] = Unit {0}
InRange msg ((k, now) ∷ ks) = (fragment_size * k < length msg) × InRange msg ks

-- What has arrived after `ks`.
record Arrived (msg : Bytes) (m : InboundMessage) (ks : List (ℕ × ℕ)) : Type 0 where
  last : InboundMessage
  result : receive m msg ks ≡ done last
  agrees : Agrees msg last
  marked :
      (k : ℕ)
      → (get_elem? last.acks k ≡ some true) ↔ ((get_elem? m.acks k ≡ some true) ⊎ IsDelivered k ks)

set_iff :
    (acks : List Bool) (k j : ℕ)
    → k < length acks
    → (get_elem? (set acks k true) j ≡ some true) ↔ ((get_elem? acks j ≡ some true) ⊎ (k ≡ j))
set_iff acks k j b = elim (ℕ_discrete k j) [
  | yes e ↦ ((λ _. inr e), (λ _. rw (← e) (get_elem?-set_self acks k true b)))
  | no n ↦ (
    (λ h. inl (sym (get_elem?-set acks k j true n) ∙ h)),
    elim [ inl h ↦ get_elem?-set acks k j true n ∙ h | inr e ↦ absurd (n e) ],
  )
]

marked_step : {A B C D E : Type 0} → (A ↔ (B ⊎ C)) → (D ↔ (A ⊎ E)) → D ↔ (B ⊎ (C ⊎ E))
marked_step p q = (
  (λ d. elim (q.0 d) [
    | inl a ↦ elim (p.0 a) [ inl b ↦ inl b | inr c ↦ inr (inl c) ]
    | inr e ↦ inr (inr e)
  ]),
  elim [
    | inl b ↦ q.1 (inl (p.1 (inl b)))
    | inr x ↦ elim x [ inl c ↦ q.1 (inl (p.1 (inr c))) | inr e ↦ q.1 (inr e) ]
  ],
)

receive-Arrived :
    (msg : Bytes) (ks : List (ℕ × ℕ)) (m : InboundMessage)
    → Agrees msg m
    → length msg ≤ max_link_msg_size
    → InRange msg ks
    → Arrived msg m ks
receive-Arrived msg [] m a small r = record {
  last = m;
  result = refl;
  agrees = a;
  marked = λ k. ((λ h. inl h), elim [ inl h ↦ h | inr h ↦ absurd h ]);
}
receive-Arrived msg ((k, now) ∷ ks) m a small r =
    let b : k < length m.acks = omega (arith, r.0, small, a.bits) in
    let rest =
      receive-Arrived msg ks (stored msg m k now) (stored-Agrees msg m k a r.0 now) small r.1 in
    record {
      last = rest.last;
      result = rw (handle_data-fragment msg m k now a small r.0) rest.result;
      agrees = rest.agrees;
      marked = λ j. marked_step (set_iff m.acks k j b) (rest.marked j);
    }

iff_trans : {A B C : Type 0} → A ↔ B → B ↔ C → A ↔ C
iff_trans p q = ((λ a. q.0 (p.0 a)), (λ c. p.1 (q.1 c)))

fresh_acks :
    (acks : List Bool) (D : ℕ → Type 0)
    → ((k : ℕ) → (get_elem? acks k ≡ some true) ↔ ((get_elem? no_acks k ≡ some true) ⊎ D k))
    → (k : ℕ) → (get_elem? acks k ≡ some true) ↔ D k
fresh_acks acks D h k = (
  (λ e. elim ((h k).0 e) [ inl b ↦ cc (get_elem?-replicate 8 false k b) | inr d ↦ d ]),
  (λ d. (h k).1 (inr d)),
)

all_marked_iff :
    (n : ℕ) (acks : List Bool) (D : ℕ → Type 0)
    → ((k : ℕ) → (get_elem? acks k ≡ some true) ↔ D k)
    → AllSet n acks ↔ ((k : ℕ) → k < n → D k)
all_marked_iff n acks D h = ((λ a k lt. (h k).0 (a k lt)), (λ d k lt. (h k).1 (d k lt)))

-- For a message of at most 8192 bytes and fragments of it in any order, repeated or not: the
-- receiver throws nothing, it is complete exactly when each fragment has arrived, and a complete
-- message is the one that was sent.
pub receive-Reassembles :
    (msg h : Bytes) (id now : ℕ) (ks : List (ℕ × ℕ))
    → length msg ≤ max_link_msg_size
    → InRange msg ks
    → (m : InboundMessage) × (receive (init id (length msg) h now) msg ks ≡ done m)
      × ((is_completed m ≡ done true) ↔ ((k : ℕ) → k < fragments (length msg) → IsDelivered k ks))
      × (is_completed m ≡ done true → m.contents ≡ msg)
unfolding init
receive-Reassembles msg h id now ks small r =
    let a =
      receive-Arrived msg ks (init id (length msg) h now) (init-Agrees msg h id now) small r in
    let all = is_completed_iff msg a.last a.agrees small in
    (
      a.last,
      a.result,
      iff_trans all (
          all_marked_iff _ a.last.acks (λ k. IsDelivered k ks)
            (fresh_acks a.last.acks (λ k. IsDelivered k ks) a.marked)),
      is_completed-eq msg a.last a.agrees small,
    )
