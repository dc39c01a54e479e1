-- ===== src/DeliveryProfile/Payload.antt =====
-- packages/yakr-core/src/yakr_core/delivery_profile.py: `RelayDescriptor`, `DeliveryProfile` and their
-- CBOR payloads.
use yakr.Prelude.{ℕ, List, [], ◌∷◌, Result, ok, err, ◌>>=◌, or_raise, Bytes, Text, codes, rstrip}
use yakr.Base64.{b64encode, b64decode}
use yakr.Codec.{
  Codec, Value, int, bytes, text, list, map, Items, nil, cons, Fields, end, field, texts, numbers,
  fields_of, int_field, str_field, bytes_field, strs_field, ints_field, items_field, int_field_or,
  bytes_field_or_empty, get,
}

pub record RelayDescriptor : Type 0 where
  pub name : Text
  pub role : Text
  pub url : Text
  pub wrap_secret : Bytes
  pub tls_spki_sha256 : Bytes
  pub capability_generation : ℕ
  pub capability_issuance_salt : Bytes

pub record DeliveryProfile : Type 0 where
  pub protocol : Text
  pub version : ℕ
  pub valid_from : ℕ
  pub valid_until : ℕ
  pub direct_hints : List Text
  pub relay_descriptors : List RelayDescriptor
  pub mailbox_epoch_secs : ℕ
  pub mailbox_direction_salt : Bytes
  pub blob_classes : List ℕ
  pub receipt_policy : Text
  pub signature : Bytes
  pub endpoint_tls_spki_sha256 : Bytes

-- The `ValueError`s, the other exceptions of reading, and `InvalidSignature`.
pub data ProfileError : Type 0 where
  invalid_profile malformed unsupported_protocol bad_signature : ProfileError
  profile_expired rollback_rejected version_conflict : ProfileError

-- `if self.capability_issuance_salt:`
salt_fields : ℕ → Bytes → Fields
salt_fields generation [] = end
salt_fields generation (b ∷ bs) =
    field (codes "capability_generation") (int generation)
      (field (codes "capability_issuance_salt") (bytes (b ∷ bs)) end)

-- `if self.tls_spki_sha256:`
tls_fields : Bytes → Fields → Fields
tls_fields [] rest = rest
tls_fields (b ∷ bs) rest = field (codes "tls_spki_sha256") (bytes (b ∷ bs)) rest

-- `RelayDescriptor.to_dict`
unfoldable pub descriptor_fields : RelayDescriptor → Fields
unfolding salt_fields tls_fields
descriptor_fields d = field (codes "name") (text d.name) (
    field (codes "role") (text d.role) (
      field (codes "url") (text d.url) (
        field (codes "wrap_secret") (bytes d.wrap_secret) (
          tls_fields d.tls_spki_sha256
            (salt_fields d.capability_generation d.capability_issuance_salt)))))

unfoldable pub descriptor_items : List RelayDescriptor → Items
descriptor_items [] = nil
descriptor_items (d ∷ ds) = cons (map (descriptor_fields d)) (descriptor_items ds)

-- The dict of `unsigned_payload` and `to_bytes`, before its last entries.
unfoldable pub profile_fields : DeliveryProfile → Fields → Fields
profile_fields p rest = field (codes "protocol") (text p.protocol) (
    field (codes "version") (int p.version) (
      field (codes "valid_from") (int p.valid_from) (
        field (codes "valid_until") (int p.valid_until) (
          field (codes "direct_hints") (list (texts p.direct_hints)) (
            field (codes "relay_descriptors") (list (descriptor_items p.relay_descriptors)) (
              field (codes "mailbox_params")
                (map (
                  field (codes "epoch_secs") (int p.mailbox_epoch_secs)
                    (field (codes "direction_salt") (bytes p.mailbox_direction_salt) end)))
                (field (codes "blob_classes") (list (numbers p.blob_classes)) (
                  field (codes "receipt_policy") (text p.receipt_policy) (
                    field (codes "endpoint_tls_spki_sha256") (bytes p.endpoint_tls_spki_sha256)
                      rest)))))))))

module _ (c : Codec) where
  -- `RelayDescriptor.from_dict`
  unfoldable pub descriptor_of_fields : Fields → Result ProfileError RelayDescriptor
  descriptor_of_fields fs = do
    name ← or_raise (str_field c (codes "name") fs) malformed
    role ← or_raise (str_field c (codes "role") fs) malformed
    url ← or_raise (str_field c (codes "url") fs) malformed
    wrap_secret ← or_raise (bytes_field c (codes "wrap_secret") fs) malformed
    pin ← or_raise (bytes_field_or_empty c (codes "tls_spki_sha256") fs) malformed
    generation ← or_raise (int_field_or c (codes "capability_generation") 0 fs) malformed
    salt ← or_raise (bytes_field_or_empty c (codes "capability_issuance_salt") fs) malformed
    ok (record {
      name = name;
      role = role;
      url = rstrip b'/' url;
      wrap_secret = wrap_secret;
      tls_spki_sha256 = pin;
      capability_generation = generation;
      capability_issuance_salt = salt;
    })

  unfoldable pub descriptors_of : Items → Result ProfileError (List RelayDescriptor)
  descriptors_of nil = ok []
  descriptors_of (cons v vs) = do
    fs ← or_raise (fields_of v) malformed
    d ← descriptor_of_fields fs
    ds ← descriptors_of vs
    ok (d ∷ ds)

  unfoldable pub of_fields : Fields → Result ProfileError DeliveryProfile
  unfolding descriptors_of
  of_fields fs = do
    params ← or_raise (get (codes "mailbox_params") fs) malformed
    protocol ← or_raise (str_field c (codes "protocol") fs) malformed
    version ← or_raise (int_field c (codes "version") fs) malformed
    valid_from ← or_raise (int_field c (codes "valid_from") fs) malformed
    valid_until ← or_raise (int_field c (codes "valid_until") fs) malformed
    hints ← or_raise (strs_field c (codes "direct_hints") fs) malformed
    items ← or_raise (items_field c (codes "relay_descriptors") fs) malformed
    descriptors ← descriptors_of items
    param_fields ← or_raise (fields_of params) malformed
    epoch_secs ← or_raise (int_field c (codes "epoch_secs") param_fields) malformed
    direction_salt ← or_raise (bytes_field c (codes "direction_salt") param_fields) malformed
    classes ← or_raise (ints_field c (codes "blob_classes") fs) malformed
    policy ← or_raise (str_field c (codes "receipt_policy") fs) malformed
    signature ← or_raise (bytes_field c (codes "signature") fs) malformed
    pin ← or_raise (bytes_field_or_empty c (codes "endpoint_tls_spki_sha256") fs) malformed
    ok (record {
      protocol = protocol;
      version = version;
      valid_from = valid_from;
      valid_until = valid_until;
      direct_hints = hints;
      relay_descriptors = descriptors;
      mailbox_epoch_secs = epoch_secs;
      mailbox_direction_salt = direction_salt;
      blob_classes = classes;
      receipt_policy = policy;
      signature = signature;
      endpoint_tls_spki_sha256 = pin;
    })

  of_value : Value → Result ProfileError DeliveryProfile
  of_value (map fs) = of_fields fs
  of_value _ = err invalid_profile

  unfoldable pub unsigned_payload : DeliveryProfile → Bytes
  unsigned_payload p = c.dumps (map (profile_fields p end))

  unfoldable pub to_bytes : DeliveryProfile → Bytes
  to_bytes p = c.dumps (map (profile_fields p (field (codes "signature") (bytes p.signature) end)))

  unfoldable pub from_bytes : Bytes → Result ProfileError DeliveryProfile
  unfolding of_value
  from_bytes payload = do value ← or_raise (c.loads payload) malformed; of_value value

  unfoldable pub to_b64 : DeliveryProfile → Text
  to_b64 p = b64encode (to_bytes p)

  unfoldable pub from_b64 : Text → Result ProfileError DeliveryProfile
  from_b64 value = do payload ← or_raise (b64decode value) malformed; from_bytes payload
