-- ===== src/Ticket.antt =====
-- packages/yakr-core/src/yakr_core/relay_ticket.py: tickets that an operator signs for a contact.
pub mod RoundTrip
use yakr.Prelude.{
  ℕ, ◌+◌, ◌*◌, Bool, not, Option, none, some, List, [], ◌∷◌, Result, ok, err, ◌>>=◌, ◌>>◌, raise_if,
  or_raise, leb, Bytes, Text, codes, eqb, contains,
}
use yakr.Base64.{b64encode, b64decode}
use yakr.Codec.{
  Codec, Value, int, bytes, text, list, map, end, field, Fields, get, texts, int_field, str_field,
  bytes_field, strs_field,
}
use yakr.Crypto.{Crypto}

pub record RelayTicket : Type 0 where
  pub issuer_signing_public : Bytes
  pub relay_name : Text
  pub permissions : List Text
  pub contact_id : Bytes
  pub expires_at : ℕ
  pub signature : Bytes

pub data TicketError : Type 0 where
  invalid_ticket malformed ticket_expired name_mismatch missing_permission bad_signature :
      TicketError

-- Is the exception a `ValueError`? A bad signature and a missing key are not.
abbrev pub is_value_error : TicketError → Bool
is_value_error invalid_ticket = Bool.true
is_value_error malformed = Bool.false
is_value_error ticket_expired = Bool.true
is_value_error name_mismatch = Bool.true
is_value_error missing_permission = Bool.true
is_value_error bad_signature = Bool.false

abbrev pub ticket_fields : RelayTicket → Fields → Fields
ticket_fields t rest = field (codes "issuer_signing_public") (bytes t.issuer_signing_public) (
    field (codes "relay_name") (text t.relay_name) (
      field (codes "permissions") (list (texts t.permissions)) (
        field (codes "contact_id") (bytes t.contact_id)
          (field (codes "expires_at") (int t.expires_at) rest))))

unfoldable pub unsigned_value : RelayTicket → Value
unsigned_value t = map (ticket_fields t end)

unfoldable pub ticket_value : RelayTicket → Value
ticket_value t = map (ticket_fields t (field (codes "signature") (bytes t.signature) end))

module _ (c : Codec) where
  unfoldable pub unsigned_payload : RelayTicket → Bytes
  unsigned_payload t = c.dumps (unsigned_value t)

  unfoldable pub to_bytes : RelayTicket → Bytes
  to_bytes t = c.dumps (ticket_value t)

  of_fields : Fields → Result TicketError RelayTicket
  of_fields fs = do
    issuer ← or_raise (bytes_field c (codes "issuer_signing_public") fs) malformed
    relay_name ← or_raise (str_field c (codes "relay_name") fs) malformed
    permissions ← or_raise (strs_field c (codes "permissions") fs) malformed
    contact_id ← or_raise (bytes_field c (codes "contact_id") fs) malformed
    expires_at ← or_raise (int_field c (codes "expires_at") fs) malformed
    signature ← or_raise (bytes_field c (codes "signature") fs) malformed
    ok (record {
      issuer_signing_public = issuer;
      relay_name = relay_name;
      permissions = permissions;
      contact_id = contact_id;
      expires_at = expires_at;
      signature = signature;
    })

  of_value : Value → Result TicketError RelayTicket
  unfolding of_fields
  of_value (map fs) = of_fields fs
  of_value _ = err invalid_ticket

  unfoldable pub from_bytes : Bytes → Result TicketError RelayTicket
  unfolding of_value
  from_bytes payload = do value ← or_raise (c.loads payload) malformed; of_value value

  unfoldable pub to_b64 : RelayTicket → Text
  to_b64 t = b64encode (to_bytes t)

  unfoldable pub from_b64 : Text → Result TicketError RelayTicket
  from_b64 value = do payload ← or_raise (b64decode value) malformed; from_bytes payload

module _ (c : Codec) (k : Crypto) where
  -- The identity is the pair of its keys.
  unfoldable pub issue_relay_ticket : ℕ → Bytes → Bytes → Text → List Text → Bytes → ℕ → RelayTicket
  issue_relay_ticket now signing_private signing_public relay_name permissions contact_id ttl_ms =
      let unsigned : RelayTicket = record {
        issuer_signing_public = signing_public;
        relay_name = relay_name;
        permissions = permissions;
        contact_id = contact_id;
        expires_at = now + ttl_ms;
        signature = [];
      } in
      record unsigned { signature = k.ed25519_sign signing_private (unsigned_payload c unsigned) }

  unfoldable pub verify_relay_ticket : ℕ → Text → Text → RelayTicket → Result TicketError (Unit {0})
  unfolding contains
  verify_relay_ticket now relay_name permission t = do
    raise_if (leb t.expires_at now) ticket_expired
    raise_if (not (eqb t.relay_name relay_name)) name_mismatch
    raise_if (not (contains permission t.permissions)) missing_permission
    raise_if (not (k.ed25519_verify t.issuer_signing_public t.signature (unsigned_payload c t)))
        bad_signature
