-- ===== src/Session/Conversation.antt =====
-- session.py: what one session sends the other receives.
use yakr.Prelude.{
  ℕ, ◌+◌, ◌≤◌, ◌<◌, ◌≡◌, refl, subst, true, Bool-cases, inl, inr, List, [], ◌∷◌, Result, ok, err,
  Result-cases, length, Bytes, Text, All, eqb, arith,
}
use yakr.Contact.{Contact}
use yakr.Crypto.{Crypto, IsAead}
use yakr.Ephemeral.{message_valid_until}
use yakr.HybridPq.{needs_pq_rekey}
use yakr.Message.{Json, InnerMessage, inner_to_bytes, text_message}
use yakr.Message.RoundTrip.{IsJson}
use yakr.Privacy.{pad_plaintext}
use yakr.Ratchet.Chains.{kdf_ck}
use yakr.Ratchet.Delivery.{InSync, sent, received, encrypt-ready, InSync-next}
use yakr.Ratchet.{encrypt, fits_header}
use yakr.Session.{SessionError, decrypt_inbound, is_text}
use yakr.Session.Delivery.{IsDue, sealed_text_is_received}
use yakr.Session.Sending.{
  Sender, EncryptedMessage, SendError, send_sealed, encrypt_inner, encrypt_text,
}

-- The contact of the sender and that of the receiver, for one conversation.
pub record InStep (chain_key : Bytes) (alice bob : Contact) : Type 0 where
  pub ratchets : InSync chain_key alice.ratchet bob.ratchet
  pub conversation : alice.conversation_id ≡ bob.conversation_id
  pub mode : alice.privacy_mode ≡ bob.privacy_mode
  pub numbers : alice.next_send_seq ≡ bob.last_recv_seq + 1
  pub prev_room : alice.ratchet.prev_send_n < 4294967296

-- One text: the clocks of both sides, the random bytes of both sides, and its body.
pub record Turn : Type 0 where
  pub sent_at : ℕ
  pub received_at : ℕ
  pub sender_fresh : Bytes
  pub receiver_fresh : Bytes
  pub nonce : Bytes
  pub body : Text

-- The nonce has its size, and the text is received within a day.
pub record IsTimely (t : Turn) : Type 0 where
  pub size : length t.nonce ≡ 24
  pub alive : t.received_at ≤ message_valid_until t.sent_at

-- The receiver has the sender's message, which is a text with that body.
abbrev pub IsAsWritten : Text × InnerMessage × Result SessionError InnerMessage → Type 0
IsAsWritten (body, inner, got) =
    (got ≡ ok inner) × (inner.body ≡ body) × (is_text inner.type ≡ true)

module _ (j : Json) (k : Crypto) where
  abbrev Seen : Type 0
  Seen = List (Text × InnerMessage × Result SessionError InnerMessage)

  -- After the sender's call: the body, the message and what the receiver makes of it, before the rest.
  collect :
      (Contact → Contact → Seen)
      → Turn
      → Contact
      → Result SendError EncryptedMessage × Contact
      → Seen
  collect rest t bob (err e, alice) = rest alice bob
  collect rest t bob (ok m, alice) =
      let got = decrypt_inbound j k t.received_at t.receiver_fresh m.outer_blob bob in
      (t.body, m.inner_message, got.0) ∷ rest alice got.1

  -- What each side saw, for each text that the sender could seal.
  unfoldable pub exchange :
      List Turn
      → Sender
      → Contact
      → Contact
      → List (Text × InnerMessage × Result SessionError InnerMessage)
  unfolding collect
  exchange [] own alice bob = []
  exchange (t ∷ ts) own alice bob =
      collect (exchange ts own) t bob
        (encrypt_text j k t.sent_at t.sender_fresh t.nonce own t.body alice)

  module _ (l : IsJson j) (a : IsAead k) where
    -- A call that succeeded.
    record IsSent (chain_key fresh nonce : Bytes) (inner : InnerMessage) (alice : Contact)
        (m : EncryptedMessage) (alice' : Contact) : Type 0 where
      padded : Bytes
      added : ℕ
      written : m.inner_message ≡ inner
      made : pad_plaintext (inner_to_bytes j inner) alice.privacy_mode ≡ ok (padded, added)
      sealed :
          encrypt k fresh nonce padded alice.ratchet
          ≡ (ok m.outer_blob.ciphertext, sent k a chain_key alice.ratchet)
      after : alice' ≡ record alice {
        ratchet = sent k a chain_key alice.ratchet;
        next_send_seq = alice.next_send_seq + 1;
      }

    abbrev SendOutcome :
        Bytes
        → Bytes
        → Bytes
        → InnerMessage
        → Contact
        → Result SendError EncryptedMessage × Contact
        → Type 0
    SendOutcome chain_key fresh nonce inner alice (err e, alice') = alice' ≡ alice
    SendOutcome chain_key fresh nonce inner alice (ok m, alice') =
        IsSent chain_key fresh nonce inner alice m alice'

    encrypt_inner-SendOutcome :
        (now : ℕ) (chain_key fresh nonce : Bytes) (own : Sender) (inner : InnerMessage)
        (alice bob : Contact)
        → InStep chain_key alice bob
        → alice.ratchet.send_n < 4294967296
        → SendOutcome chain_key fresh nonce inner alice
            (encrypt_inner j k now fresh nonce own inner alice)
    unfolding encrypt_inner send_sealed
    encrypt_inner-SendOutcome now chain_key fresh nonce own inner alice bob h room =
        elim (Bool-cases
          (needs_pq_rekey now alice.hybrid_pq alice.session_started_at alice.next_send_seq)) [
            | inl old ↦ rw old refl
            | inr young ↦
                elim (Result-cases (pad_plaintext (inner_to_bytes j inner) alice.privacy_mode)) [
                  | inr (e, bad) ↦ rw (young, bad) refl
                  | inl ((padded, added), made) ↦
                      let fits : fits_header k alice.ratchet.prev_send_n alice.ratchet.send_n
                          ≡ true =
                        unfold fits_header in ground (arith, h.prev_room, room) in
                      let ready =
                        encrypt-ready k a fresh nonce padded chain_key alice.ratchet
                          h.ratchets.ready h.ratchets.sends fits in
                      rw (young, made, ready)
                        (record {
                          padded = padded;
                          added = added;
                          written = refl;
                          made = made;
                          sealed = ready;
                          after = refl;
                        })
                ]
          ]

    -- One turn, before a rest that is right from any sides in step.
    collect-received :
        (rest : Contact → Contact → Seen) (t : Turn) (chain_key : Bytes) (own : Sender)
        (alice bob : Contact) (r : Result SendError EncryptedMessage × Contact)
        → InStep chain_key alice bob
        → IsTimely t
        → alice.ratchet.send_n < 4294967296
        → SendOutcome chain_key t.sender_fresh t.nonce
            (text_message t.sent_at alice.conversation_id own.device_id alice.next_send_seq t.body)
            alice
            r
        → ((key : Bytes) (alice' bob' : Contact)
            → InStep key alice' bob'
            → alice'.ratchet.send_n ≤ alice.ratchet.send_n + 1
            → All IsAsWritten (rest alice' bob'))
        → All IsAsWritten (collect rest t bob r)
    unfolding collect text_message is_text eqb
    collect-received rest t chain_key own alice bob (err e, alice') h timely room same ih =
        rw same (ih chain_key alice bob h (omega arith))
    collect-received rest t chain_key own alice bob (ok m, alice') h timely room s ih =
        let inner =
          text_message t.sent_at alice.conversation_id own.device_id alice.next_send_seq t.body in
        let due : IsDue t.received_at inner bob = record {
          own_conversation = h.conversation;
          next_seq = h.numbers;
          alive = timely.alive;
        } in
        let bob' : Contact = record bob {
          ratchet = received k a chain_key bob.ratchet;
          last_recv_seq = inner.seq;
        } in
        let alice₁ : Contact = record alice {
          ratchet = sent k a chain_key alice.ratchet;
          next_send_seq = alice.next_send_seq + 1;
        } in
        let step : InStep (kdf_ck k chain_key).1 alice₁ bob' = record {
          ratchets = InSync-next k a chain_key alice.ratchet bob.ratchet h.ratchets;
          conversation = h.conversation;
          mode = h.mode;
          numbers = refl;
          prev_room = h.prev_room;
        } in
        rw
          (
            sealed_text_is_received j k l a t.received_at s.added inner t.sender_fresh
                t.receiver_fresh t.nonce s.padded chain_key m.outer_blob alice.ratchet
                (sent k a chain_key alice.ratchet) bob refl h.ratchets due timely.size h.prev_room
                room
                (subst
                  (λ mode. pad_plaintext (inner_to_bytes j inner) mode ≡ ok (s.padded, s.added))
                  h.mode s.made)
                s.sealed,
            s.after,
            s.written,
          )
          ((refl, refl, refl), ih (kdf_ck k chain_key).1 alice₁ bob' step (omega arith))

    -- The texts of a conversation that the sender could seal are received in order and as they were written, if
    -- each arrives within a day and before the next is sent: no refusal of one breaks those after it. The
    -- ratchet's counter must fit its 32 bits.
    pub texts_are_received :
        (ts : List Turn) (chain_key : Bytes) (own : Sender) (alice bob : Contact)
        → InStep chain_key alice bob
        → All IsTimely ts
        → alice.ratchet.send_n + length ts ≤ 4294967296
        → All IsAsWritten (exchange ts own alice bob)
    unfolding exchange encrypt_text
    texts_are_received [] chain_key own alice bob h timely room = tt
    texts_are_received (t ∷ ts) chain_key own alice bob h timely room =
        collect-received (exchange ts own) t chain_key own alice bob
          (encrypt_text j k t.sent_at t.sender_fresh t.nonce own t.body alice) h timely.0
          (omega (arith, room))
          (encrypt_inner-SendOutcome t.sent_at chain_key t.sender_fresh t.nonce own
            (text_message t.sent_at alice.conversation_id own.device_id alice.next_send_seq t.body)
            alice bob h (omega (arith, room)))
          (λ key alice' bob' step grown.
            texts_are_received ts key own alice' bob' step timely.1 (omega (arith, grown, room)))
