-- ===== src/Session/Receiving.antt =====
-- session.py: which messages are accepted, and what a refused one leaves.
use yakr.Prelude.{
  ℕ, zero, suc, ◌+◌, ◌≤◌, ◌≡◌, refl, ap, ◌∙◌, subst, Bool-cases, inl, inr, List, [], ◌∷◌, length,
  Result, ok, err, Result-cases, leb, ◌==◌, Bytes, eqb, eqb_iff, arith,
}
use yakr.Crypto.{Crypto}
use yakr.Ephemeral.{is_message_expired}
use yakr.Message.{Json, InnerMessage, OuterBlob, inner_from_bytes}
use yakr.Privacy.{decode_padded_plaintext}
use yakr.Ratchet.State.{RatchetState, to_dict, from_dict}
use yakr.Ratchet.Chains.{RatchetError}
use yakr.Ratchet.{decrypt}
use yakr.Contact.{Contact}
use yakr.Session.{
  SessionError, rolled_back, accept_inner, accept_padded, accept_decrypted, decrypt_outer, is_text,
  restore_auxiliary, decrypt_inbound,
}

-- What rolling back leaves of a contact but for its ratchet.
rolled_back-kept :
    (before : RatchetState) (c : Contact)
    → ((rolled_back before c).last_recv_seq ≡ c.last_recv_seq)
      × ((rolled_back before c).conversation_id ≡ c.conversation_id)
      × ((rolled_back before c).privacy_mode ≡ c.privacy_mode)
unfolding rolled_back
rolled_back-kept before c =
    elim (Result-cases
      (from_dict (record (to_dict before) { skipped_keys = c.ratchet.skipped_keys }))) [
        | inl (s, read) ↦ rw (rolled_back, read) (refl, refl, refl)
        | inr (e, unread) ↦ rw (rolled_back, unread) (refl, refl, refl)
      ]

-- An accepted message, and the contact before and after.
pub record IsAccepted (now : ℕ) (inner : InnerMessage) (c c' : Contact) : Type 0 where
  pub own_conversation : inner.conversation_id ≡ c.conversation_id
  pub next_seq : inner.seq ≡ c.last_recv_seq + 1
  pub alive : now ≤ inner.valid_until
  pub advanced : c'.last_recv_seq ≡ inner.seq
  pub same_conversation : c'.conversation_id ≡ c.conversation_id

-- What a refused message leaves of the contact but for its ratchet.
pub record IsKept (c c' : Contact) : Type 0 where
  pub seq : c'.last_recv_seq ≡ c.last_recv_seq
  conversation : c'.conversation_id ≡ c.conversation_id

rolled_back-IsKept : (before : RatchetState) (c : Contact) → IsKept c (rolled_back before c)
rolled_back-IsKept before c =
    let (seq, conversation, mode) = rolled_back-kept before c in
    record { seq = seq; conversation = conversation }

-- Either way.
abbrev pub Outcome : ℕ → Contact → Result SessionError InnerMessage × Contact → Type 0
Outcome now c (ok inner, c') = IsAccepted now inner c c'
Outcome now c (err x, c') = IsKept c c'

accept_inner-Outcome :
    (now : ℕ) (before : RatchetState) (m : InnerMessage) (c : Contact)
    → Outcome now c (accept_inner now before m c)
unfolding accept_inner
accept_inner-Outcome now before m c =
    let back = rolled_back-IsKept before c in
    elim (Bool-cases (eqb m.conversation_id c.conversation_id)) [
      | inr other ↦ rw other back
      | inl own ↦ elim (Bool-cases (leb m.seq c.last_recv_seq)) [
        | inl old ↦ rw (own, old) back
        | inr later ↦ elim (Bool-cases (m.seq == c.last_recv_seq + 1)) [
          | inr odd ↦ rw (own, later, odd) back
          | inl following ↦ elim (Bool-cases (is_message_expired m.valid_until now)) [
            | inl dead ↦ rw (own, later, following, dead) back
            | inr alive ↦
                let accepted : IsAccepted now m c (record c { last_recv_seq = m.seq }) = record {
                  own_conversation = (eqb_iff m.conversation_id c.conversation_id).0 own;
                  next_seq = ground arith;
                  alive = ground arith;
                  advanced = refl;
                  same_conversation = refl;
                } in
                rw (own, later, following, alive) accepted
          ]
        ]
      ]
    ]

-- The outcome does not depend on the ratchet.
Outcome-ratchet :
    (now : ℕ) (r : RatchetState) (c : Contact) (p : Result SessionError InnerMessage × Contact)
    → Outcome now (record c { ratchet = r }) p
    → Outcome now c p
Outcome-ratchet now r c (ok inner, c') h = record {
  own_conversation = h.own_conversation;
  next_seq = h.next_seq;
  alive = h.alive;
  advanced = h.advanced;
  same_conversation = h.same_conversation;
}
Outcome-ratchet now r c (err x, c') h = record { seq = h.seq; conversation = h.conversation }

module _ (j : Json) (k : Crypto) where
  accept_padded-Outcome :
      (now : ℕ) (before : RatchetState) (padded : Bytes) (c : Contact)
      → Outcome now c (accept_padded j k now before padded c)
  unfolding accept_padded
  accept_padded-Outcome now before padded c =
      elim (Result-cases (decode_padded_plaintext padded c.privacy_mode)) [
        | inr (x, bad) ↦ rw (accept_padded, bad) (rolled_back-IsKept before c)
        | inl (plaintext, good) ↦ elim (Result-cases (inner_from_bytes j plaintext)) [
          | inr (x, bad) ↦
              rw (accept_padded, good, bad) (record { seq = refl; conversation = refl })
          | inl (inner, read) ↦
              rw (accept_padded, good, read) (accept_inner-Outcome now before inner c)
        ]
      ]

  accept_decrypted-Outcome :
      (now : ℕ) (c : Contact) (r : Result RatchetError Bytes × RatchetState)
      → Outcome now c (accept_decrypted j k now c r)
  unfolding accept_decrypted
  accept_decrypted-Outcome now c (err e, s) = record { seq = refl; conversation = refl }
  accept_decrypted-Outcome now c (ok padded, s) =
      Outcome-ratchet now s c _
        (accept_padded-Outcome now c.ratchet padded (record c { ratchet = s }))

  restore_auxiliary-Outcome :
      (now : ℕ) (before : RatchetState) (c : Contact)
      (p : Result SessionError InnerMessage × Contact)
      → Outcome now c p
      → Outcome now c (restore_auxiliary before p)
  unfolding restore_auxiliary
  restore_auxiliary-Outcome now before c (err x, c') h = h
  restore_auxiliary-Outcome now before c (ok inner, c') h =
      let (seq, conversation, mode) = rolled_back-kept before c' in
      let back : IsAccepted now inner c (rolled_back before c') = record {
        own_conversation = h.own_conversation;
        next_seq = h.next_seq;
        alive = h.alive;
        advanced = seq ∙ h.advanced;
        same_conversation = conversation ∙ h.same_conversation;
      } in
      elim (Bool-cases (is_text inner.type)) [
        | inl text ↦ rw text h
        | inr auxiliary ↦ rw auxiliary back
      ]

  pub decrypt_inbound-Outcome :
      (now : ℕ) (fresh : Bytes) (outer : OuterBlob) (c : Contact)
      → Outcome now c (decrypt_inbound j k now fresh outer c)
  unfolding decrypt_inbound decrypt_outer
  decrypt_inbound-Outcome now fresh outer c =
      restore_auxiliary-Outcome now c.ratchet c _
        (accept_decrypted-Outcome now c (decrypt k fresh outer.ciphertext c.ratchet))

  -- A message that is accepted is of the contact's conversation, has the number after the last one, has not expired,
  -- and moves the last number on; one that is refused leaves it.
  pub decrypt_inbound-IsAccepted :
      (now : ℕ) (fresh : Bytes) (outer : OuterBlob) (c c' : Contact) (inner : InnerMessage)
      → decrypt_inbound j k now fresh outer c ≡ (ok inner, c')
      → IsAccepted now inner c c'
  decrypt_inbound-IsAccepted now fresh outer c c' inner e =
      subst (Outcome now c) e (decrypt_inbound-Outcome now fresh outer c)

  -- A blob that arrives: the clock, the bytes for a ratchet step, and the blob.
  pub record Arrival : Type 0 where
    pub now : ℕ
    pub fresh : Bytes
    pub outer : OuterBlob

  -- The number of the message, if it was accepted, before the others.
  abbrev pub note_seq : Result SessionError InnerMessage → List ℕ → List ℕ
  note_seq (ok inner) seqs = inner.seq ∷ seqs
  note_seq (err x) seqs = seqs

  -- The numbers of the accepted messages of a run.
  unfoldable pub accepted_seqs : List Arrival → Contact → List ℕ
  accepted_seqs [] c = []
  accepted_seqs (a ∷ rest) c =
      let received = decrypt_inbound j k a.now a.fresh a.outer c in
      note_seq received.0 (accepted_seqs rest received.1)

  unfoldable pub count_up : ℕ → ℕ → List ℕ
  count_up start zero = []
  count_up start (suc n) = start ∷ count_up (start + 1) n

  note_seq-count_up :
      (now : ℕ) (c : Contact) (p : Result SessionError InnerMessage × Contact) (seqs : List ℕ)
      → Outcome now c p
      → seqs ≡ count_up (p.1.last_recv_seq + 1) (length seqs)
      → note_seq p.0 seqs ≡ count_up (c.last_recv_seq + 1) (length (note_seq p.0 seqs))
  unfolding count_up
  note_seq-count_up now c (ok inner, c') seqs h e = rw h.next_seq (
      ap (◌∷◌ (c.last_recv_seq + 1))
        (e ∙ ap (λ n. count_up (n + 1) (length seqs)) (h.advanced ∙ h.next_seq)))
  note_seq-count_up now c (err x, c') seqs h e = e ∙ ap (λ n. count_up (n + 1) (length seqs)) h.seq

  -- Whatever blobs arrive in whatever order, and however often, the messages that are accepted have the numbers
  -- after the last one in order and without a gap: none is accepted twice and none before its turn.
  pub accepted_seqs_in_order :
      (rest : List Arrival) (c : Contact)
      → accepted_seqs rest c ≡ count_up (c.last_recv_seq + 1) (length (accepted_seqs rest c))
  unfolding accepted_seqs count_up
  accepted_seqs_in_order [] c = refl
  accepted_seqs_in_order (a ∷ rest) c =
      let p = decrypt_inbound j k a.now a.fresh a.outer c in
      note_seq-count_up a.now c p (accepted_seqs rest p.1)
        (decrypt_inbound-Outcome a.now a.fresh a.outer c) (accepted_seqs_in_order rest p.1)
