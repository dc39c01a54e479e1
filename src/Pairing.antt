-- ===== src/Pairing.antt =====
-- packages/yakr-core/src/yakr_core/pairing.py: the two messages of a pairing.
pub mod RoundTrip
use yakr.Prelude.{
  ℕ, Bool, true, false, Option, some, none, List, [], ◌∷◌, Result, ok, err, ◌>>=◌, or_raise, Bytes,
  Text, codes, eqb, if◌then◌else◌, null,
}
use yakr.Codec.{Codec, Value, bytes, text, map, end, field, Fields, get, str_field, bytes_field}

pub record PairingRequest : Type 0 where
  pub invite_secret : Bytes
  pub joiner_name : Text
  pub joiner_signing_public : Bytes
  pub joiner_agreement_public : Bytes
  pub joiner_ephemeral_public : Bytes
  pub joiner_ratchet_public : Bytes
  pub joiner_profile : Bytes
  pub kem_ciphertext : Bytes

pub record PairingResponse : Type 0 where
  pub inviter_ephemeral_public : Bytes
  pub inviter_ratchet_public : Bytes
  pub transcript_hash : Bytes
  pub inviter_profile : Bytes

-- A `ValueError` of the parser, and any other exception.
pub data MessageError : Type 0 where
  invalid_message malformed : MessageError

-- `if self.kem_ciphertext: payload["kem_ciphertext"] = …`
unfoldable pub kem_fields : Bytes → Fields
kem_fields [] = end
kem_fields (b ∷ bs) = field (codes "kem_ciphertext") (bytes (b ∷ bs)) end

unfoldable pub request_value : PairingRequest → Value
unfolding kem_fields
request_value r = map (
    field (codes "invite_secret") (bytes r.invite_secret) (
      field (codes "joiner_name") (text r.joiner_name) (
        field (codes "joiner_signing_public") (bytes r.joiner_signing_public) (
          field (codes "joiner_agreement_public") (bytes r.joiner_agreement_public) (
            field (codes "joiner_ephemeral_public") (bytes r.joiner_ephemeral_public) (
              field (codes "joiner_ratchet_public") (bytes r.joiner_ratchet_public) (
                field (codes "joiner_profile") (bytes r.joiner_profile)
                  (kem_fields r.kem_ciphertext))))))))

unfoldable pub response_value : PairingResponse → Value
response_value r = map (
    field (codes "inviter_ephemeral_public") (bytes r.inviter_ephemeral_public) (
      field (codes "inviter_ratchet_public") (bytes r.inviter_ratchet_public) (
        field (codes "transcript_hash") (bytes r.transcript_hash)
          (field (codes "inviter_profile") (bytes r.inviter_profile) end))))

-- A dict, or the `ValueError`.
dict_of : Value → Result MessageError Fields
dict_of (map fs) = ok fs
dict_of _ = err invalid_message

module _ (c : Codec) where
  bytes_of_option : Option Value → Option Bytes
  bytes_of_option none = some []
  bytes_of_option (some v) = c.bytes_of v

  -- `bytes(payload.get(key, b""))`
  bytes_field_or_empty : Text → Fields → Option Bytes
  unfolding bytes_of_option
  bytes_field_or_empty key fs = bytes_of_option (get key fs)

  unfoldable pub request_to_bytes : PairingRequest → Bytes
  request_to_bytes r = c.dumps (request_value r)

  unfoldable pub request_from_bytes : Bytes → Result MessageError PairingRequest
  unfolding dict_of bytes_field_or_empty
  request_from_bytes payload = do
    value ← or_raise (c.loads payload) malformed
    fs ← dict_of value
    invite_secret ← or_raise (bytes_field c (codes "invite_secret") fs) malformed
    joiner_name ← or_raise (str_field c (codes "joiner_name") fs) malformed
    signing ← or_raise (bytes_field c (codes "joiner_signing_public") fs) malformed
    agreement ← or_raise (bytes_field c (codes "joiner_agreement_public") fs) malformed
    ephemeral ← or_raise (bytes_field c (codes "joiner_ephemeral_public") fs) malformed
    ratchet ← or_raise (bytes_field_or_empty (codes "joiner_ratchet_public") fs) malformed
    profile ← or_raise (bytes_field_or_empty (codes "joiner_profile") fs) malformed
    kem_ciphertext ← or_raise (bytes_field_or_empty (codes "kem_ciphertext") fs) malformed
    ok (record {
      invite_secret = invite_secret;
      joiner_name = joiner_name;
      joiner_signing_public = signing;
      joiner_agreement_public = agreement;
      joiner_ephemeral_public = ephemeral;
      joiner_ratchet_public = ratchet;
      joiner_profile = profile;
      kem_ciphertext = kem_ciphertext;
    })

  unfoldable pub response_to_bytes : PairingResponse → Bytes
  response_to_bytes r = c.dumps (response_value r)

  unfoldable pub response_from_bytes : Bytes → Result MessageError PairingResponse
  unfolding dict_of bytes_field_or_empty
  response_from_bytes payload = do
    value ← or_raise (c.loads payload) malformed
    fs ← dict_of value
    ephemeral ← or_raise (bytes_field c (codes "inviter_ephemeral_public") fs) malformed
    ratchet ← or_raise (bytes_field_or_empty (codes "inviter_ratchet_public") fs) malformed
    transcript_hash ← or_raise (bytes_field c (codes "transcript_hash") fs) malformed
    profile ← or_raise (bytes_field_or_empty (codes "inviter_profile") fs) malformed
    ok (record {
      inviter_ephemeral_public = ephemeral;
      inviter_ratchet_public = ratchet;
      transcript_hash = transcript_hash;
      inviter_profile = profile;
    })
