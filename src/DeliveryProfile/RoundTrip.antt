-- ===== src/DeliveryProfile/RoundTrip.antt =====
-- delivery_profile.py: a profile is read as it was written.
use yakr.Prelude.{ℕ, ◌≡◌, refl, List, [], ◌∷◌, ok, eqb, Bytes, Text, rstrip, All}
use yakr.Base64.RoundTrip.{b64decode-b64encode}
use yakr.Codec.{Codec, strs_of-texts, ints_of-numbers}
use yakr.DeliveryProfile.Payload.{
  RelayDescriptor, DeliveryProfile, descriptor_fields, descriptor_items, profile_fields,
  descriptor_of_fields, descriptors_of, of_fields, to_bytes, from_bytes, to_b64, from_b64,
}

-- The generation of a descriptor with no salt, which is not written.
abbrev pub KeepsGeneration : ℕ → Bytes → Type 0
KeepsGeneration generation [] = generation ≡ 0
KeepsGeneration generation (b ∷ bs) = Unit

-- A descriptor that `from_dict` could have made, and that carries a generation only with a salt.
pub record IsNormal (d : RelayDescriptor) : Type 0 where
  pub url : rstrip b'/' d.url ≡ d.url
  pub generation : KeepsGeneration d.capability_generation d.capability_issuance_salt

module _ (c : Codec) where
  descriptor-parts :
      (name role url : Text) (wrap pin : Bytes) (generation : ℕ) (salt : Bytes)
      → rstrip b'/' url ≡ url
      → KeepsGeneration generation salt
      → (let d : RelayDescriptor = record {
        name = name;
        role = role;
        url = url;
        wrap_secret = wrap;
        tls_spki_sha256 = pin;
        capability_generation = generation;
        capability_issuance_salt = salt;
      } in
          descriptor_of_fields c (descriptor_fields d) ≡ ok d)
  unfolding descriptor_of_fields descriptor_fields eqb
  descriptor-parts name role url wrap [] generation [] e g =
      simp (c.bytes_of_bytes, c.str_of_text, e, g) refl
  descriptor-parts name role url wrap [] generation (s ∷ ss) e g =
      simp (c.bytes_of_bytes, c.str_of_text, c.int_of_int, e) refl
  descriptor-parts name role url wrap (p ∷ ps) generation [] e g =
      simp (c.bytes_of_bytes, c.str_of_text, e, g) refl
  descriptor-parts name role url wrap (p ∷ ps) generation (s ∷ ss) e g =
      simp (c.bytes_of_bytes, c.str_of_text, c.int_of_int, e) refl

  descriptors_of-items :
      (ds : List RelayDescriptor) → All IsNormal ds → descriptors_of c (descriptor_items ds) ≡ ok ds
  unfolding descriptors_of descriptor_items
  descriptors_of-items [] h = refl
  descriptors_of-items (d ∷ ds) h =
      rw
        (
          descriptor-parts d.name d.role d.url d.wrap_secret d.tls_spki_sha256
              d.capability_generation d.capability_issuance_salt h.0.url h.0.generation,
          descriptors_of-items ds h.1,
        )
        refl

  from_bytes-to_bytes :
      (p : DeliveryProfile) → All IsNormal p.relay_descriptors → from_bytes c (to_bytes c p) ≡ ok p
  unfolding from_bytes to_bytes of_fields profile_fields eqb
  from_bytes-to_bytes p h = rw c.loads-dumps (
      simp
        (
          c.bytes_of_bytes,
          c.str_of_text,
          c.int_of_int,
          c.items_of_list,
          strs_of-texts,
          ints_of-numbers,
          descriptors_of-items p.relay_descriptors h,
        )
        refl)

  -- A profile is read back as it was written, if each of its relay URLs has no slash at its end and each
  -- generation comes with a salt.
  pub profile_from_b64-to_b64 :
      (p : DeliveryProfile) → All IsNormal p.relay_descriptors → from_b64 c (to_b64 c p) ≡ ok p
  unfolding from_b64 to_b64
  profile_from_b64-to_b64 p h =
      rw (b64decode-b64encode (to_bytes c p) (unfold to_bytes in c.dumps-IsBytes _))
        (from_bytes-to_bytes p h)
