-- ===== src/DeliveryProfile.antt =====
-- packages/yakr-core/src/yakr_core/delivery_profile.py: signing and verifying profiles, and when a peer's profile
-- replaces the one that is stored.
pub mod Payload
pub mod RoundTrip
pub mod Updates
use yakr.Prelude.{
  ℕ, ◌+◌, ◌*◌, ◌&&◌, ◌||◌, Bool, not, Option, none, some, List, [], ◌∷◌, map, Result, ok, err,
  ◌>>=◌, ◌>>◌, raise_if, ltb, ◌==◌, if◌then◌else◌, select, null, Bytes, Text, codes, eqb, rstrip,
}
use yakr.Codec.{Codec}
use yakr.Crypto.{Crypto}
use yakr.DeliveryProfile.Payload.{
  RelayDescriptor, DeliveryProfile, ProfileError, unsigned_payload, to_bytes, unsupported_protocol,
  bad_signature, profile_expired, rollback_rejected, version_conflict,
}

abbrev pub protocol_v5 : Text
protocol_v5 = codes "yakr-v0.5"

abbrev pub default_profile_ttl_ms : ℕ
default_profile_ttl_ms = 7 * 24 * 60 * 60 * 1000

-- `blob_classes or [4096]`
abbrev classes_or_default : List ℕ → List ℕ
classes_or_default [] = 4096 ∷ []
classes_or_default (n ∷ ns) = n ∷ ns

-- `role in ("mailbox", "both")`
unfoldable pub is_mailbox_descriptor : RelayDescriptor → Bool
is_mailbox_descriptor d = eqb d.role (codes "mailbox") || eqb d.role (codes "both")

unfoldable pub is_entry_descriptor : RelayDescriptor → Bool
is_entry_descriptor d = eqb d.role (codes "entry") || eqb d.role (codes "both")

unfoldable pub mailbox_descriptors : DeliveryProfile → List RelayDescriptor
unfolding is_mailbox_descriptor
mailbox_descriptors p = select is_mailbox_descriptor p.relay_descriptors

unfoldable pub entry_descriptors : DeliveryProfile → List RelayDescriptor
unfolding is_entry_descriptor
entry_descriptors p = select is_entry_descriptor p.relay_descriptors

-- `name or identity.name`
abbrev name_or : Text → Text → Text
name_or [] own = own
name_or (c ∷ cs) own = c ∷ cs

-- `pin` is `endpoint_tls_spki_sha256(identity)`.
unfoldable pub relay_descriptor_for_operator :
    Text → Bytes → Text → Text → Bytes → Text → RelayDescriptor
relay_descriptor_for_operator own_name pin role url wrap_secret name = record {
  name = name_or name own_name;
  role = role;
  url = rstrip b'/' url;
  wrap_secret = wrap_secret;
  tls_spki_sha256 = pin;
  capability_generation = 0;
  capability_issuance_salt = [];
}

unfoldable pub profile_is_expired : ℕ → DeliveryProfile → Bool
profile_is_expired now p = ltb p.valid_until now

module _ (c : Codec) (k : Crypto) where
  -- `signing_private` and `pin` are the identity's; the version is 1 unless it is given and not 0.
  unfoldable pub create_delivery_profile :
      ℕ
      → Bytes
      → Bytes
      → List RelayDescriptor
      → List Text
      → ℕ
      → Bytes
      → List ℕ
      → Text
      → ℕ
      → ℕ
      → DeliveryProfile
  create_delivery_profile now signing_private pin descriptors hints epoch_secs salt classes policy
        ttl_ms version =
      let unsigned : DeliveryProfile = record {
        protocol = protocol_v5;
        version = if version == 0 then 1 else version;
        valid_from = now;
        valid_until = now + ttl_ms;
        direct_hints = hints;
        relay_descriptors = descriptors;
        mailbox_epoch_secs = epoch_secs;
        mailbox_direction_salt = salt;
        blob_classes = classes_or_default classes;
        receipt_policy = policy;
        signature = [];
        endpoint_tls_spki_sha256 = pin;
      } in
      record unsigned { signature = k.ed25519_sign signing_private (unsigned_payload c unsigned) }

  unfoldable pub verify_delivery_profile : DeliveryProfile → Bytes → Result ProfileError (Unit {0})
  verify_delivery_profile p signing_public = do
    raise_if (not (eqb p.protocol protocol_v5)) unsupported_protocol
    raise_if (not (k.ed25519_verify signing_public p.signature (unsigned_payload c p)))
        bad_signature

  accept_over : Option DeliveryProfile → DeliveryProfile → Result ProfileError (Unit {0})
  accept_over none incoming = ok tt
  accept_over (some current) incoming = do
    raise_if (ltb incoming.version current.version) rollback_rejected
    raise_if
        (incoming.version == current.version
          && not (eqb (to_bytes c incoming) (to_bytes c current)))
        version_conflict

  unfoldable pub accept_delivery_profile_update :
      ℕ → Option DeliveryProfile → DeliveryProfile → Result ProfileError (Unit {0})
  unfolding accept_over
  accept_delivery_profile_update now current incoming = do
    raise_if (profile_is_expired now incoming) profile_expired
    accept_over current incoming
