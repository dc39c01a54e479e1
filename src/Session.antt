-- ===== src/Session.antt =====
-- packages/yakr-core/src/yakr_core/session.py: the receiving side of a session. A call returns its
-- result with the contact that it leaves.
pub mod Delivery
pub mod Receiving
pub mod Rollback
pub mod Sending
pub mod Addressing
pub mod Conversation
mod Tests
use yakr.Prelude.{
  ℕ, ◌+◌, Bool, true, false, not, Option, none, some, List, [], ◌∷◌, Result, ok, err, ltb, leb,
  ◌==◌, if◌then◌else◌, Bytes, Text, codes, eqb,
}
use yakr.Contact.{Contact}
use yakr.Codec.{Value, text}
use yakr.Crypto.{Crypto}
use yakr.Ephemeral.{is_message_expired}
use yakr.Message.{Json, InnerMessage, OuterBlob, inner_from_bytes}
use yakr.Privacy.{PrivacyMode, decode_padded_plaintext}
use yakr.Ratchet.State.{RatchetState, to_dict, from_dict}
use yakr.Ratchet.Chains.{RatchetError, already_received}
use yakr.Ratchet.{decrypt}

-- `DuplicateSeqError`, `DecryptError`, `MessageExpiredError`, and what `InnerMessage.from_bytes` raises.
pub data SessionError : Type 0 where
  duplicate_message duplicate_seq out_of_order_seq : SessionError
  unable_to_decrypt invalid_padding conversation_mismatch message_expired malformed_message :
      SessionError

-- "already received" is in the text of one error only.
unfoldable pub ratchet_failure : RatchetError → SessionError
ratchet_failure already_received = duplicate_message
ratchet_failure _ = unable_to_decrypt

-- `RatchetState.from_dict(ratchet_before)`: the dict `skipped_keys` of the snapshot is that of the ratchet, with
-- what was done to it since.
unfoldable pub rolled_back : RatchetState → Contact → Contact
rolled_back before contact =
    elim (from_dict (record (to_dict before) { skipped_keys = contact.ratchet.skipped_keys })) [
      | ok restored ↦ record contact { ratchet = restored }
      | err _ ↦ contact
    ]

-- The checks of the message, from the conversation on.
unfoldable pub accept_inner :
    ℕ → RatchetState → InnerMessage → Contact → Result SessionError InnerMessage × Contact
accept_inner now before inner contact =
    if not (eqb inner.conversation_id contact.conversation_id)
    then (err conversation_mismatch, rolled_back before contact)
    else if leb inner.seq contact.last_recv_seq
    then (err duplicate_seq, rolled_back before contact)
    else if not (inner.seq == contact.last_recv_seq + 1)
    then (err out_of_order_seq, rolled_back before contact)
    else if is_message_expired inner.valid_until now
    then (err message_expired, rolled_back before contact)
    else (ok inner, record contact { last_recv_seq = inner.seq })

unfoldable pub is_text : Value → Bool
is_text (text t) = eqb t (codes "text")
is_text _ = false

-- A message that is no text does not advance the ratchet.
restore_auxiliary :
    RatchetState
    → Result SessionError InnerMessage × Contact
    → Result SessionError InnerMessage × Contact
unfolding is_text
restore_auxiliary before (err e, contact) = (err e, contact)
restore_auxiliary before (ok inner, contact) =
    if is_text inner.type then (ok inner, contact) else (ok inner, rolled_back before contact)

module _ (j : Json) (k : Crypto) where
  -- The padding and the JSON; an exception of the JSON is not caught, so nothing is rolled back.
  unfoldable pub accept_padded :
      ℕ → RatchetState → Bytes → Contact → Result SessionError InnerMessage × Contact
  accept_padded now before padded contact =
      elim (decode_padded_plaintext padded contact.privacy_mode) [
        | err _ ↦ (err invalid_padding, rolled_back before contact)
        | ok plaintext ↦ elim (inner_from_bytes j plaintext) [
          | err _ ↦ (err malformed_message, contact)
          | ok inner ↦ accept_inner now before inner contact
        ]
      ]

  accept_decrypted :
      ℕ
      → Contact
      → Result RatchetError Bytes × RatchetState
      → Result SessionError InnerMessage × Contact
  unfolding accept_padded
  accept_decrypted now contact (err e, ratchet) =
      (err (ratchet_failure e), record contact { ratchet = ratchet })
  accept_decrypted now contact (ok padded, ratchet) =
      accept_padded now contact.ratchet padded (record contact { ratchet = ratchet })

  -- `fresh` is the key pair of a ratchet step.
  unfoldable pub decrypt_outer :
      ℕ → Bytes → OuterBlob → Contact → Result SessionError InnerMessage × Contact
  unfolding accept_decrypted
  decrypt_outer now fresh outer contact =
      accept_decrypted now contact (decrypt k fresh outer.ciphertext contact.ratchet)

  unfoldable pub decrypt_inbound :
      ℕ → Bytes → OuterBlob → Contact → Result SessionError InnerMessage × Contact
  unfolding restore_auxiliary
  decrypt_inbound now fresh outer contact =
      restore_auxiliary contact.ratchet (decrypt_outer now fresh outer contact)
