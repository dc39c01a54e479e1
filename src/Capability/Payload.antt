-- ===== src/Capability/Payload.antt =====
-- capability_grant.py: the dataclass `CapabilityGrant` and its CBOR payloads.
use yakr.Prelude.{
  ℕ, Bool, false, not, Option, none, some, List, Result, ok, err, ◌>>=◌, ◌>>◌, raise_if, or_raise,
  Bytes, Text, codes, eqb,
}
use yakr.Base64.{b64encode, b64decode}
use yakr.Codec.{
  Codec, Value, int, bytes, text, list, map, end, field, Fields, texts, int_field, str_field,
  bytes_field, strs_field,
}

pub record CapabilityGrant : Type 0 where
  pub capability_id : Bytes
  pub capability_generation : ℕ
  pub relay_name : Text
  pub relay_tls_spki_sha256 : Bytes
  pub permissions : List Text
  pub expires_at : ℕ
  pub auth_public : Bytes
  pub relay_signature : Bytes

-- The `ValueError`s and other exceptions of grants and of the grant registry.
pub data GrantError : Type 0 where
  invalid_grant unsupported_protocol malformed : GrantError
  grant_expired name_mismatch pin_mismatch bad_signature : GrantError
  auth_mismatch timestamp_out_of_range nonce_length : GrantError
  id_length pin_length salt_length : GrantError
  generation_rollback not_registered missing_permission nonce_replay : GrantError

abbrev pub grant_protocol : Text
grant_protocol = codes "yakr-relay-capability-grant-v1"

-- The dict that `to_bytes` writes, but for the signature.
abbrev pub grant_fields : CapabilityGrant → Fields → Fields
grant_fields g rest = field (codes "protocol") (text grant_protocol) (
    field (codes "capability_id") (bytes g.capability_id) (
      field (codes "capability_generation") (int g.capability_generation) (
        field (codes "relay_name") (text g.relay_name) (
          field (codes "relay_tls_spki_sha256") (bytes g.relay_tls_spki_sha256) (
            field (codes "permissions") (list (texts g.permissions)) (
              field (codes "expires_at") (int g.expires_at)
                (field (codes "auth_public") (bytes g.auth_public) rest)))))))

unfoldable pub unsigned_value : CapabilityGrant → Value
unsigned_value g = map (grant_fields g end)

unfoldable pub grant_value : CapabilityGrant → Value
grant_value g = map (grant_fields g (field (codes "relay_signature") (bytes g.relay_signature) end))

module _ (c : Codec) where
  unfoldable pub unsigned_payload : CapabilityGrant → Bytes
  unsigned_payload g = c.dumps (unsigned_value g)

  unfoldable pub to_bytes : CapabilityGrant → Bytes
  to_bytes g = c.dumps (grant_value g)

  -- `str(payload.get("protocol")) != GRANT_PROTOCOL`; `str(None)` is another text.
  is_grant_protocol : Option Text → Bool
  is_grant_protocol none = false
  is_grant_protocol (some t) = eqb t grant_protocol

  of_fields : Fields → Result GrantError CapabilityGrant
  unfolding is_grant_protocol
  of_fields fs = do
    raise_if (not (is_grant_protocol (str_field c (codes "protocol") fs))) unsupported_protocol
    capability_id ← or_raise (bytes_field c (codes "capability_id") fs) malformed
    generation ← or_raise (int_field c (codes "capability_generation") fs) malformed
    relay_name ← or_raise (str_field c (codes "relay_name") fs) malformed
    pin ← or_raise (bytes_field c (codes "relay_tls_spki_sha256") fs) malformed
    permissions ← or_raise (strs_field c (codes "permissions") fs) malformed
    expires_at ← or_raise (int_field c (codes "expires_at") fs) malformed
    auth_public ← or_raise (bytes_field c (codes "auth_public") fs) malformed
    signature ← or_raise (bytes_field c (codes "relay_signature") fs) malformed
    ok (record {
      capability_id = capability_id;
      capability_generation = generation;
      relay_name = relay_name;
      relay_tls_spki_sha256 = pin;
      permissions = permissions;
      expires_at = expires_at;
      auth_public = auth_public;
      relay_signature = signature;
    })

  of_value : Value → Result GrantError CapabilityGrant
  unfolding of_fields
  of_value (map fs) = of_fields fs
  of_value _ = err invalid_grant

  unfoldable pub from_bytes : Bytes → Result GrantError CapabilityGrant
  unfolding of_value
  from_bytes payload = do value ← or_raise (c.loads payload) malformed; of_value value

  unfoldable pub to_b64 : CapabilityGrant → Text
  to_b64 g = b64encode (to_bytes g)

  unfoldable pub from_b64 : Text → Result GrantError CapabilityGrant
  from_b64 value = do payload ← or_raise (b64decode value) malformed; from_bytes payload
