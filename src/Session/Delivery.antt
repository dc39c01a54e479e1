-- ===== src/Session/Delivery.antt =====
-- session.py: a message that the other side sealed in its turn is accepted.
use yakr.Prelude.{
  ℕ, ◌+◌, ◌<◌, ◌≤◌, ◌≡◌, refl, ap, sym, ◌∙◌, true, false, Bool-cases, inl, inr, ok, ok-injective,
  length, if◌then◌else◌, Bytes, eqb_refl, eqb, leb, ltb, ◌==◌, arith,
}
use yakr.Crypto.{Crypto, IsAead}
use yakr.Message.{Json, InnerMessage, OuterBlob, inner_to_bytes}
use yakr.Message.RoundTrip.{IsJson, inner_from_bytes-to_bytes}
use yakr.Privacy.{pad_plaintext}
use yakr.Privacy.Padding.{decode-pad_plaintext}
use yakr.Ratchet.State.{RatchetState}
use yakr.Ratchet.Delivery.{InSync, received, encrypt-ready, decrypt-next}
use yakr.Ratchet.Forgery.{IsWellFormed, from_dict-to_dict}
use yakr.Ratchet.{encrypt, fits_header}
use yakr.Contact.{Contact}
use yakr.Session.{
  rolled_back, accept_inner, accept_padded, accept_decrypted, decrypt_outer, is_text,
  restore_auxiliary, decrypt_inbound,
}

-- The message is of the contact's conversation, has the number after the last one, and has not expired.
pub record IsDue (now : ℕ) (m : InnerMessage) (c : Contact) : Type 0 where
  pub own_conversation : m.conversation_id ≡ c.conversation_id
  pub next_seq : m.seq ≡ c.last_recv_seq + 1
  pub alive : now ≤ m.valid_until

accept_inner-due :
    (now : ℕ) (m : InnerMessage) (before : RatchetState) (c : Contact)
    → IsDue now m c
    → accept_inner now before m c ≡ (ok m, record c { last_recv_seq = m.seq })
unfolding accept_inner
accept_inner-due now m before c due =
    let own : eqb m.conversation_id c.conversation_id ≡ true =
      rw due.own_conversation (eqb_refl c.conversation_id) in
    let later : leb m.seq c.last_recv_seq ≡ false = ground (arith, due.next_seq) in
    let following : (m.seq == c.last_recv_seq + 1) ≡ true = ground (arith, due.next_seq) in
    let living : ltb m.valid_until now ≡ false = ground (arith, due.alive) in
    rw (own, later, following, living) refl

-- What receiving leaves: a text moves the ratchet on, other messages do not.
abbrev pub contact_after : (k : Crypto) → IsAead k → Bytes → InnerMessage → Contact → Contact
contact_after k a chain_key m c =
    let counted : Contact = record c { last_recv_seq = m.seq } in
    if is_text m.type
    then record counted { ratchet = received k a chain_key c.ratchet }
    else counted

module _ (j : Json) (k : Crypto) (l : IsJson j) (a : IsAead k) where
  accept_padded-due :
      (now added : ℕ) (m : InnerMessage) (padded : Bytes) (before : RatchetState) (c : Contact)
      → IsDue now m c
      → pad_plaintext (inner_to_bytes j m) c.privacy_mode ≡ ok (padded, added)
      → accept_padded j k now before padded c ≡ (ok m, record c { last_recv_seq = m.seq })
  unfolding accept_padded
  accept_padded-due now added m padded before c due made =
      rw
        (
          accept_padded,
          decode-pad_plaintext (inner_to_bytes j m) padded added c.privacy_mode made,
          inner_from_bytes-to_bytes j l m,
        )
        (accept_inner-due now m before c due)

  restore_auxiliary-received :
      (m : InnerMessage) (chain_key : Bytes) (c : Contact)
      → IsWellFormed c.ratchet
      → restore_auxiliary c.ratchet
          (ok m, record c { ratchet = received k a chain_key c.ratchet; last_recv_seq = m.seq })
        ≡ (ok m, contact_after k a chain_key m c)
  unfolding restore_auxiliary rolled_back
  restore_auxiliary-received m chain_key c w = elim (Bool-cases (is_text m.type)) [
    | inl text ↦ rw text refl
    | inr auxiliary ↦
        rw (auxiliary, rolled_back, from_dict-to_dict c.ratchet c.ratchet.skipped_keys w) refl
  ]

  -- Whatever its type, the message is decrypted, the ratchet moves on and the number is the last one.
  decrypt_outer-sealed :
      (now added : ℕ) (m : InnerMessage) (fresh fresh' nonce padded chain_key : Bytes)
      (outer : OuterBlob) (s s' : RatchetState) (c : Contact)
      → InSync chain_key s c.ratchet
      → IsDue now m c
      → length nonce ≡ 24
      → s.prev_send_n < 4294967296
      → s.send_n < 4294967296
      → pad_plaintext (inner_to_bytes j m) c.privacy_mode ≡ ok (padded, added)
      → encrypt k fresh nonce padded s ≡ (ok outer.ciphertext, s')
      → decrypt_outer j k now fresh' outer c
        ≡ (ok m, record c { ratchet = received k a chain_key c.ratchet; last_recv_seq = m.seq })
  unfolding decrypt_outer accept_decrypted
  decrypt_outer-sealed now added m fresh fresh' nonce padded chain_key outer s s' c h due size low
        room made sealed =
      let fits : fits_header k s.prev_send_n s.send_n ≡ true =
        unfold fits_header in ground (arith, low, room) in
      let e = sym sealed ∙ encrypt-ready k a fresh nonce padded chain_key s h.ready h.sends fits in
      let c₁ : Contact = record c { ratchet = received k a chain_key c.ratchet } in
      let due₁ : IsDue now m c₁ = record {
        own_conversation = due.own_conversation;
        next_seq = due.next_seq;
        alive = due.alive;
      } in
      rw
        (
          ok-injective (ap (λ p. p.0) e),
          decrypt-next k a fresh' nonce padded chain_key s c.ratchet size fits h,
          accept_padded-due now added m padded c.ratchet c₁ due₁ made,
        )
        refl

  -- Between two sides in step, a message that is due, padded for the contact's privacy mode and sealed by the
  -- sender's ratchet, is accepted as it was written. The last number moves on to it, the receiver's ratchet
  -- moves on if it is a text and stays as it was if not, and nothing else of the contact changes.
  pub sealed_message_is_received :
      (now added : ℕ) (m : InnerMessage) (fresh fresh' nonce padded chain_key : Bytes)
      (outer : OuterBlob) (s s' : RatchetState) (c : Contact)
      → InSync chain_key s c.ratchet
      → IsWellFormed c.ratchet
      → IsDue now m c
      → length nonce ≡ 24
      → s.prev_send_n < 4294967296
      → s.send_n < 4294967296
      → pad_plaintext (inner_to_bytes j m) c.privacy_mode ≡ ok (padded, added)
      → encrypt k fresh nonce padded s ≡ (ok outer.ciphertext, s')
      → decrypt_inbound j k now fresh' outer c ≡ (ok m, contact_after k a chain_key m c)
  unfolding decrypt_inbound
  sealed_message_is_received now added m fresh fresh' nonce padded chain_key outer s s' c h w due
        size low room made sealed =
      rw
        (decrypt_outer-sealed now added m fresh fresh' nonce padded chain_key outer s s' c h due
          size low room made sealed)
        (restore_auxiliary-received m chain_key c w)

  -- A text, with no condition on the receiver's keys.
  pub sealed_text_is_received :
      (now added : ℕ) (m : InnerMessage) (fresh fresh' nonce padded chain_key : Bytes)
      (outer : OuterBlob) (s s' : RatchetState) (c : Contact)
      → is_text m.type ≡ true
      → InSync chain_key s c.ratchet
      → IsDue now m c
      → length nonce ≡ 24
      → s.prev_send_n < 4294967296
      → s.send_n < 4294967296
      → pad_plaintext (inner_to_bytes j m) c.privacy_mode ≡ ok (padded, added)
      → encrypt k fresh nonce padded s ≡ (ok outer.ciphertext, s')
      → decrypt_inbound j k now fresh' outer c
        ≡ (ok m, record c { ratchet = received k a chain_key c.ratchet; last_recv_seq = m.seq })
  unfolding decrypt_inbound restore_auxiliary
  sealed_text_is_received now added m fresh fresh' nonce padded chain_key outer s s' c text h due
        size low room made sealed =
      rw
        (
          decrypt_outer-sealed now added m fresh fresh' nonce padded chain_key outer s s' c h due
              size low room made sealed,
          text,
        )
        refl
