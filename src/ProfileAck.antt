-- ===== src/ProfileAck.antt =====
-- packages/yakr-core/src/yakr_core/profile_ack.py: which version of our profile a peer has acknowledged.
use yakr.Prelude.{
  ℕ, ◌≤◌, List, [], ◌∷◌, map, Result, ok, ◌>>=◌, ◌>>◌, ltb, if◌then◌else◌, Bytes, Text, arith,
}
use yakr.Codec.{Codec}
use yakr.Contact.{Contact}
use yakr.Crypto.{Crypto}
use yakr.DeliveryProfile.Payload.{RelayDescriptor, DeliveryProfile, ProfileError, from_bytes}
use yakr.DeliveryProfile.{mailbox_descriptors, verify_delivery_profile}

abbrev descriptor_name : RelayDescriptor → Text
descriptor_name d = d.name

unfoldable pub relay_names_from_profile : DeliveryProfile → List Text
relay_names_from_profile p = map descriptor_name (mailbox_descriptors p)

unfoldable pub apply_peer_profile_ack : DeliveryProfile → Contact → Contact
apply_peer_profile_ack p x = record x {
  peer_acked_my_profile_version = p.version;
  peer_acked_my_relay_names = relay_names_from_profile p;
}

unfoldable pub apply_peer_profile_ack_pending : ℕ → List Text → Contact → Contact
apply_peer_profile_ack_pending version names x =
    if ltb x.peer_acked_my_profile_version version
    then record x { peer_acked_my_profile_version = version; peer_acked_my_relay_names = names }
    else x

module _ (c : Codec) (k : Crypto) where
  unfoldable pub apply_peer_profile_ack_from_bytes :
      Bytes → Bytes → Contact → Result ProfileError Contact
  apply_peer_profile_ack_from_bytes [] signing_public x = ok x
  apply_peer_profile_ack_from_bytes (b ∷ bs) signing_public x = do
    p ← from_bytes c (b ∷ bs)
    verify_delivery_profile c k p signing_public
    ok (apply_peer_profile_ack p x)

-- Receipts in any order leave the greatest version that was acknowledged.
pub apply_peer_profile_ack_pending_mono :
    (version : ℕ) (names : List Text) (x : Contact)
    → (x.peer_acked_my_profile_version
        ≤ (apply_peer_profile_ack_pending version names x).peer_acked_my_profile_version)
      × (version ≤ (apply_peer_profile_ack_pending version names x).peer_acked_my_profile_version)
unfolding apply_peer_profile_ack_pending
apply_peer_profile_ack_pending_mono version names x = ground arith
