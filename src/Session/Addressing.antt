-- ===== src/Session/Addressing.antt =====
-- session.py and packages/yakr-cli/src/yakr_cli/fetch_cmds.py: the receiver asks for the tag under which the
-- sender's blob is stored.
use yakr.Prelude.{
  ℕ, ◌+◌, ◌≤◌, ◌≡◌, refl, subst, true, Bool-cases, inl, inr, Result, ok, err, Result-cases, List,
  Bytes,
}
use yakr.Contact.{Contact}
use yakr.Crypto.{Crypto}
use yakr.Crypto.Derivation.{derive_mailbox_secret}
use yakr.HybridPq.{needs_pq_rekey}
use yakr.Mailbox.{MailboxTag, current_epoch, derive, fetch_tags_for_mode}
use yakr.Mailbox.Lookback.{is_asked, stored_tag_is_asked}
use yakr.Message.{Json, InnerMessage, inner_to_bytes}
use yakr.Privacy.{pad_plaintext}
use yakr.Ratchet.State.{RatchetState}
use yakr.Ratchet.Chains.{RatchetError}
use yakr.Ratchet.{encrypt}
use yakr.Session.Sending.{
  Sender, EncryptedMessage, SendError, direction, epoch_secs_of, mailbox_deriver, send_sealed,
  encrypt_inner,
}

-- The tags that a fetch asks for: of the last three epochs.
unfoldable pub asked_tags : Crypto → ℕ → Sender → Contact → List MailboxTag
asked_tags k now own contact =
    let from_peer = direction contact.name own.name in
    fetch_tags_for_mode k now (mailbox_deriver k from_peer contact) from_peer contact.privacy_mode
      (derive_mailbox_secret k contact.master_secret from_peer) 2

module _ (j : Json) (k : Crypto) where
  -- The tag of a blob that was made.
  abbrev Tagged : ℕ → Sender → Contact → Result SendError EncryptedMessage × Contact → Type 0
  Tagged now own contact (err e, c) = Unit
  Tagged now own contact (ok m, c) =
      let towards = direction own.name contact.name in
      m.outer_blob.mailbox_tag ≡ (derive k now (mailbox_deriver k towards contact) towards).tag

  send_sealed-Tagged :
      (now : ℕ) (own : Sender) (inner : InnerMessage) (added : ℕ) (contact : Contact)
      (r : Result RatchetError Bytes × RatchetState)
      → Tagged now own contact (send_sealed k now own inner added contact r)
  unfolding send_sealed
  send_sealed-Tagged now own inner added contact (err e, ratchet) = tt
  send_sealed-Tagged now own inner added contact (ok ciphertext, ratchet) = refl

  encrypt_inner-Tagged :
      (now : ℕ) (fresh nonce : Bytes) (own : Sender) (inner : InnerMessage) (contact : Contact)
      → Tagged now own contact (encrypt_inner j k now fresh nonce own inner contact)
  unfolding encrypt_inner
  encrypt_inner-Tagged now fresh nonce own inner contact =
      elim (Bool-cases
        (needs_pq_rekey now contact.hybrid_pq contact.session_started_at contact.next_send_seq)) [
          | inl old ↦ rw old tt
          | inr young ↦
              elim (Result-cases (pad_plaintext (inner_to_bytes j inner) contact.privacy_mode)) [
                | inr (e, bad) ↦ rw (young, bad) tt
                | inl ((padded, added), made) ↦
                    rw (young, made)
                      (send_sealed-Tagged now own inner added contact
                        (encrypt k fresh nonce padded contact.ratchet))
              ]
        ]

  -- The blob of a message is stored under a tag that the other side asks for, in every privacy mode, until two epochs
  -- have passed, if the sides know one another by their own names and share the master secret, and if the
  -- profiles that they hold of one another have epochs of one length.
  pub sent_blob_is_asked :
      (sent_at now : ℕ) (fresh nonce : Bytes) (own peer : Sender) (inner : InnerMessage)
      (alice alice' bob : Contact) (m : EncryptedMessage)
      → encrypt_inner j k sent_at fresh nonce own inner alice ≡ (ok m, alice')
      → alice.name ≡ peer.name
      → bob.name ≡ own.name
      → alice.master_secret ≡ bob.master_secret
      → epoch_secs_of alice.delivery_profile ≡ epoch_secs_of bob.delivery_profile
      → current_epoch sent_at (epoch_secs_of bob.delivery_profile)
        ≤ current_epoch now (epoch_secs_of bob.delivery_profile)
      → current_epoch now (epoch_secs_of bob.delivery_profile)
        ≤ current_epoch sent_at (epoch_secs_of bob.delivery_profile) + 2
      → is_asked m.outer_blob.mailbox_tag (asked_tags k now peer bob) ≡ true
  unfolding asked_tags mailbox_deriver
  sent_blob_is_asked sent_at now fresh nonce own peer inner alice alice' bob m e names own_name
        secrets epochs before near =
      let towards = direction bob.name peer.name in
      let tagged : Tagged sent_at own alice (ok m, alice') =
        subst (Tagged sent_at own alice) e
          (encrypt_inner-Tagged sent_at fresh nonce own inner alice) in
      let asked =
        stored_tag_is_asked k sent_at now 2 (mailbox_deriver k towards bob) towards bob.privacy_mode
          before near in
      rw (tagged, names, ← own_name, secrets, epochs) asked
