-- ===== src/Pairing/RoundTrip.antt =====
-- pairing.py: a message is read as it was written.
use yakr.Prelude.{◌≡◌, refl, ok, eqb, Bytes, [], ◌∷◌}
use yakr.Codec.{Codec}
use yakr.Pairing.{
  PairingRequest, PairingResponse, request_value, response_value, request_to_bytes,
  request_from_bytes, response_to_bytes, response_from_bytes,
}

module _ (c : Codec) where
  -- What the reader makes of the optional field.
  request_from_bytes-fields :
      (invite_secret name signing agreement ephemeral ratchet profile kem : Bytes)
      → (let r : PairingRequest = record {
        invite_secret = invite_secret;
        joiner_name = name;
        joiner_signing_public = signing;
        joiner_agreement_public = agreement;
        joiner_ephemeral_public = ephemeral;
        joiner_ratchet_public = ratchet;
        joiner_profile = profile;
        kem_ciphertext = kem;
      } in
          request_from_bytes c (request_to_bytes c r) ≡ ok r)
  unfolding request_from_bytes request_to_bytes request_value eqb
  request_from_bytes-fields invite_secret name signing agreement ephemeral ratchet profile [] =
      rw c.loads-dumps (simp (c.bytes_of_bytes, c.str_of_text) refl)
  request_from_bytes-fields invite_secret name signing agreement ephemeral ratchet profile
        (b ∷ bs) =
      rw c.loads-dumps (simp (c.bytes_of_bytes, c.str_of_text) refl)

  -- A pairing request is read as it was written, with a KEM ciphertext and without.
  pub request_from_bytes-to_bytes :
      (r : PairingRequest) → request_from_bytes c (request_to_bytes c r) ≡ ok r
  request_from_bytes-to_bytes r =
      request_from_bytes-fields r.invite_secret r.joiner_name r.joiner_signing_public
        r.joiner_agreement_public r.joiner_ephemeral_public r.joiner_ratchet_public r.joiner_profile
        r.kem_ciphertext

  -- A pairing response is read as it was written.
  pub response_from_bytes-to_bytes :
      (r : PairingResponse) → response_from_bytes c (response_to_bytes c r) ≡ ok r
  unfolding response_from_bytes response_to_bytes response_value eqb
  response_from_bytes-to_bytes r = rw c.loads-dumps (simp (c.bytes_of_bytes) refl)
