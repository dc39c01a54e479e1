-- ===== src/Session/Sending.antt =====
-- session.py: the sending side. A call reads the clock once, in milliseconds.
use yakr.Prelude.{
  ℕ, ◌+◌, Option, none, some, [], ◌++◌, Result, ok, err, if◌then◌else◌, Bytes, Text, codes,
}
use yakr.Contact.{Contact}
use yakr.Crypto.{Crypto, xchacha_encrypt, xchacha_decrypt, CryptoError}
use yakr.Crypto.Derivation.{derive_mailbox_secret, hkdf_derive}
use yakr.DeliveryProfile.Payload.{DeliveryProfile}
use yakr.Ephemeral.{default_blob_ttl_ms}
use yakr.HybridPq.{needs_pq_rekey}
use yakr.Mailbox.{MailboxTag, MailboxTagDeriver, derive}
use yakr.Message.{
  Json, InnerMessage, OuterBlob, inner_to_bytes, text_message, receipt_message, profile_message,
  presence_message,
}
use yakr.Message.RelayJson.{message_id}
use yakr.Privacy.{PaddingError, pad_plaintext}
use yakr.Ratchet.State.{RatchetState}
use yakr.Ratchet.Chains.{RatchetError}
use yakr.Ratchet.{encrypt}

-- What a session reads of the `Identity`.
pub record Sender : Type 0 where
  pub name : Text
  pub device_id : Text
  pub signing_private : Bytes

pub record EncryptedMessage : Type 0 where
  pub outer_blob : OuterBlob
  pub inner_message : InnerMessage
  pub msg_id : Text
  pub mailbox_tag : MailboxTag
  pub padding_bytes : ℕ

pub data SendError : Type 0 where
  rekey_required : SendError
  too_long : PaddingError → SendError
  not_sealed : RatchetError → SendError

-- `_direction`
unfoldable pub direction : Text → Text → Text
direction sender recipient = sender ++ codes "->" ++ recipient

abbrev pub epoch_secs_of : Option DeliveryProfile → ℕ
epoch_secs_of none = 3600
epoch_secs_of (some p) = p.mailbox_epoch_secs

module _ (k : Crypto) where
  unfoldable pub mailbox_deriver : Text → Contact → MailboxTagDeriver
  mailbox_deriver towards contact = record {
    secret = derive_mailbox_secret k contact.master_secret towards;
    epoch_secs = epoch_secs_of contact.delivery_profile;
  }

  unfoldable pub device_storage_key : Sender → Bytes
  device_storage_key own =
      hkdf_derive k own.signing_private (codes "yakr/v1.0/local-message-store") []

  -- `nonce` is random.
  unfoldable pub wrap_local_ciphertext : Bytes → Sender → Bytes → Bytes
  wrap_local_ciphertext nonce own payload =
      xchacha_encrypt k nonce (device_storage_key own) payload []

  unfoldable pub unwrap_local_ciphertext : Sender → Bytes → Result CryptoError Bytes
  unwrap_local_ciphertext own payload = xchacha_decrypt k (device_storage_key own) payload []

  outer_blob_of : ℕ → Bytes → MailboxTag → OuterBlob
  outer_blob_of now ciphertext tag = record {
    version = 1;
    mailbox_tag = tag.tag;
    expires_at = now + default_blob_ttl_ms;
    ciphertext = ciphertext;
  }

  -- The rest of a call, with what the ratchet returned.
  unfoldable pub send_sealed :
      ℕ
      → Sender
      → InnerMessage
      → ℕ
      → Contact
      → Result RatchetError Bytes × RatchetState
      → Result SendError EncryptedMessage × Contact
  unfolding outer_blob_of
  send_sealed now own inner added contact (err e, ratchet) =
      (err (not_sealed e), record contact { ratchet = ratchet })
  send_sealed now own inner added contact (ok ciphertext, ratchet) =
      let towards = direction own.name contact.name in
      let tag = derive k now (mailbox_deriver towards contact) towards in
      let outer = outer_blob_of now ciphertext tag in
      (
        ok (record {
          outer_blob = outer;
          inner_message = inner;
          msg_id = message_id k outer.ciphertext;
          mailbox_tag = tag;
          padding_bytes = added;
        }),
        record contact { ratchet = ratchet; next_send_seq = contact.next_send_seq + 1 },
      )

module _ (j : Json) (k : Crypto) where
  -- What the four calls have in common; `fresh` is the key pair of a ratchet step.
  unfoldable pub encrypt_inner :
      ℕ
      → Bytes
      → Bytes
      → Sender
      → InnerMessage
      → Contact
      → Result SendError EncryptedMessage × Contact
  encrypt_inner now fresh nonce own inner contact =
      if needs_pq_rekey now contact.hybrid_pq contact.session_started_at contact.next_send_seq
      then (err rekey_required, contact)
      else elim (pad_plaintext (inner_to_bytes j inner) contact.privacy_mode) [
        | err e ↦ (err (too_long e), contact)
        | ok (padded, added) ↦
            send_sealed k now own inner added contact (encrypt k fresh nonce padded contact.ratchet)
      ]

  unfoldable pub encrypt_text :
      ℕ → Bytes → Bytes → Sender → Text → Contact → Result SendError EncryptedMessage × Contact
  encrypt_text now fresh nonce own body contact =
      encrypt_inner now fresh nonce own
        (text_message now contact.conversation_id own.device_id contact.next_send_seq body) contact

  unfoldable pub encrypt_receipt :
      ℕ → Bytes → Bytes → Sender → Text → Contact → Result SendError EncryptedMessage × Contact
  encrypt_receipt now fresh nonce own delivered_message_id contact =
      encrypt_inner now fresh nonce own
        (receipt_message now contact.conversation_id own.device_id contact.next_send_seq
          delivered_message_id)
        contact

  -- `profile_b64` is `profile.to_b64()`.
  unfoldable pub encrypt_profile :
      ℕ → Bytes → Bytes → Sender → Text → Contact → Result SendError EncryptedMessage × Contact
  encrypt_profile now fresh nonce own profile_b64 contact =
      encrypt_inner now fresh nonce own
        (profile_message now contact.conversation_id own.device_id contact.next_send_seq
          profile_b64)
        contact

  -- `presence_b64` is `payload.to_b64()`.
  unfoldable pub encrypt_presence :
      ℕ → Bytes → Bytes → Sender → Text → ℕ → Contact → Result SendError EncryptedMessage × Contact
  encrypt_presence now fresh nonce own presence_b64 valid_until contact =
      encrypt_inner now fresh nonce own
        (presence_message now contact.conversation_id own.device_id contact.next_send_seq
          presence_b64 valid_until)
        contact
