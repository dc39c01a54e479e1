-- ===== src/Session/Rollback.antt =====
-- session.py: a refused message leaves the contact's keys and counters as they were.
use yakr.Prelude.{
  ℕ, ◌+◌, ◌≡◌, ◌≢◌, refl, ap, subst, Bool-cases, inl, inr, Result, ok, err, Result-cases, leb, ◌==◌,
  Bytes, Text, eqb, Dict,
}
use yakr.Crypto.{Crypto}
use yakr.Ephemeral.{is_message_expired}
use yakr.Message.{Json, InnerMessage, OuterBlob, inner_from_bytes}
use yakr.Privacy.{decode_padded_plaintext}
use yakr.Ratchet.State.{RatchetState}
use yakr.Ratchet.Chains.{RatchetError}
use yakr.Ratchet.Forgery.{IsWellFormed, from_dict-to_dict, failed_decrypt_restores}
use yakr.Ratchet.{decrypt}
use yakr.Contact.{Contact}
use yakr.Session.{
  SessionError, malformed_message, rolled_back, accept_inner, accept_padded, accept_decrypted,
  decrypt_outer, is_text, restore_auxiliary, decrypt_inbound,
}

-- The contact is as it was, but for the skipped keys.
pub record IsRestored (c c' : Contact) : Type 0 where
  pub keys : Dict Text
  pub restored : c' ≡ record c { ratchet = record c.ratchet { skipped_keys = keys } }

-- A refused message restores the contact, unless its JSON could not be read.
abbrev Refusal : Contact → Result SessionError InnerMessage × Contact → Type 0
Refusal c (ok inner, c') = Unit
Refusal c (err x, c') = x ≢ malformed_message → IsRestored c c'

rolled_back-IsRestored :
    (c : Contact) (r : RatchetState)
    → IsWellFormed c.ratchet
    → IsRestored c (rolled_back c.ratchet (record c { ratchet = r }))
unfolding rolled_back
rolled_back-IsRestored c r w = record {
  keys = r.skipped_keys;
  restored = rw (rolled_back, from_dict-to_dict c.ratchet r.skipped_keys w) refl;
}

accept_inner-Refusal :
    (now : ℕ) (m : InnerMessage) (c : Contact) (r : RatchetState)
    → IsWellFormed c.ratchet
    → Refusal c (accept_inner now c.ratchet m (record c { ratchet = r }))
unfolding accept_inner
accept_inner-Refusal now m c r w =
    let back = rolled_back-IsRestored c r w in
    elim (Bool-cases (eqb m.conversation_id c.conversation_id)) [
      | inr other ↦ rw other (λ x. back)
      | inl own ↦ elim (Bool-cases (leb m.seq c.last_recv_seq)) [
        | inl old ↦ rw (own, old) (λ x. back)
        | inr later ↦ elim (Bool-cases (m.seq == c.last_recv_seq + 1)) [
          | inr odd ↦ rw (own, later, odd) (λ x. back)
          | inl following ↦ elim (Bool-cases (is_message_expired m.valid_until now)) [
            | inl dead ↦ rw (own, later, following, dead) (λ x. back)
            | inr alive ↦ rw (own, later, following, alive) tt
          ]
        ]
      ]
    ]

module _ (j : Json) (k : Crypto) where
  accept_padded-Refusal :
      (now : ℕ) (padded : Bytes) (c : Contact) (r : RatchetState)
      → IsWellFormed c.ratchet
      → Refusal c (accept_padded j k now c.ratchet padded (record c { ratchet = r }))
  unfolding accept_padded
  accept_padded-Refusal now padded c r w =
      elim (Result-cases (decode_padded_plaintext padded c.privacy_mode)) [
        | inr (x, bad) ↦ rw (accept_padded, bad) (λ y. rolled_back-IsRestored c r w)
        | inl (plaintext, good) ↦ elim (Result-cases (inner_from_bytes j plaintext)) [
          | inr (x, bad) ↦ rw (accept_padded, good, bad) (λ ne. absurd (ne refl))
          | inl (inner, read) ↦
              rw (accept_padded, good, read) (accept_inner-Refusal now inner c r w)
        ]
      ]

  accept_decrypted-Refusal :
      (now : ℕ) (c : Contact) (r : Result RatchetError Bytes × RatchetState)
      → IsWellFormed c.ratchet
      → ((e : RatchetError) (s : RatchetState)
          → r ≡ (err e, s)
          → s ≡ record c.ratchet { skipped_keys = s.skipped_keys })
      → Refusal c (accept_decrypted j k now c r)
  unfolding accept_decrypted
  accept_decrypted-Refusal now c (err e, s) w failed = λ ne. record {
    keys = s.skipped_keys;
    restored = ap (λ (x : RatchetState). record c { ratchet = x }) (failed e s refl);
  }
  accept_decrypted-Refusal now c (ok padded, s) w failed = accept_padded-Refusal now padded c s w

  restore_auxiliary-Refusal :
      (before : RatchetState) (c : Contact) (p : Result SessionError InnerMessage × Contact)
      → Refusal c p
      → Refusal c (restore_auxiliary before p)
  unfolding restore_auxiliary
  restore_auxiliary-Refusal before c (err x, c') h = h
  restore_auxiliary-Refusal before c (ok inner, c') h = elim (Bool-cases (is_text inner.type)) [
    | inl text ↦ rw text tt
    | inr auxiliary ↦ rw auxiliary tt
  ]

  -- A message that is refused, be it that it does not decrypt, is of another conversation, comes out of its turn or
  -- has expired, leaves the contact as it was: the ratchet's keys and counters, the last number, everything
  -- but the skipped keys. Only one whose JSON cannot be read is left out.
  pub refused_message_rolls_back :
      (now : ℕ) (fresh : Bytes) (outer : OuterBlob) (c c' : Contact) (x : SessionError)
      → IsWellFormed c.ratchet
      → decrypt_inbound j k now fresh outer c ≡ (err x, c')
      → x ≢ malformed_message
      → IsRestored c c'
  unfolding decrypt_inbound decrypt_outer
  refused_message_rolls_back now fresh outer c c' x w e = subst (Refusal c) e (
      restore_auxiliary-Refusal c.ratchet c _ (
        accept_decrypted-Refusal now c (decrypt k fresh outer.ciphertext c.ratchet) w
          (λ y s failed. failed_decrypt_restores k fresh outer.ciphertext c.ratchet s y w failed)))
