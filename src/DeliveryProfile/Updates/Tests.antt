-- ===== src/DeliveryProfile/Updates/Tests.antt =====
-- delivery_profile.py: examples.
use yakr.Prelude.{◌≡◌, refl, [], ◌∷◌, List, codes, eqb}
use yakr.Codec.Sample.Laws.{sample}
use yakr.Crypto.{trusting_crypto}
use yakr.DeliveryProfile.Payload.{RelayDescriptor, DeliveryProfile}
use yakr.DeliveryProfile.Updates.{
  Offer, after_offers, version_of, newest_version, is_genuine, IsTrusted, after_offers_newest,
}
use yakr.DeliveryProfile.{protocol_v5, verify_delivery_profile, profile_is_expired}
use yakr.Sample.{contact}

abbrev relay : RelayDescriptor
relay = record {
  name = codes "home";
  role = codes "mailbox";
  url = codes "https://relay";
  wrap_secret = 1 ∷ [];
  tls_spki_sha256 = [];
  capability_generation = 0;
  capability_issuance_salt = [];
}

abbrev profile : DeliveryProfile
profile = record {
  protocol = protocol_v5;
  version = 1;
  valid_from = 0;
  valid_until = 1000;
  direct_hints = [];
  relay_descriptors = relay ∷ [];
  mailbox_epoch_secs = 3600;
  mailbox_direction_salt = 2 ∷ [];
  blob_classes = 4096 ∷ [];
  receipt_policy = codes "full";
  signature = 3 ∷ [];
  endpoint_tls_spki_sha256 = [];
}

-- The newer profile, an expired one that is newer still, and the first one again.
abbrev offers : List Offer
offers =
    record { now = 10; profile = record profile { version = 2 } }
    ∷ record { now = 2000; profile = record profile { version = 3 } }
    ∷ record { now = 20; profile = profile }
    ∷ []

after_offers_newest_example :
    (version_of (after_offers sample trusting_crypto [] offers contact).delivery_profile
      ≡ newest_version sample trusting_crypto [] offers 0)
    × IsTrusted sample trusting_crypto []
        (after_offers sample trusting_crypto [] offers contact).delivery_profile
after_offers_newest_example = after_offers_newest sample trusting_crypto [] offers contact tt

-- The expired one does not count.
second_is_newest : newest_version sample trusting_crypto [] offers 0 ≡ 2
unfolding newest_version is_genuine verify_delivery_profile eqb profile_is_expired
second_is_newest = refl
