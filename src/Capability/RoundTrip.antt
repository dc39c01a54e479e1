-- ===== src/Capability/RoundTrip.antt =====
-- capability_grant.py: `from_bytes` reads what `to_bytes` wrote, and `from_b64` what `to_b64` wrote.
use yakr.Prelude.{◌≡◌, refl, ok, eqb}
use yakr.Base64.RoundTrip.{b64decode-b64encode}
use yakr.Codec.{Codec, strs_of-texts}
use yakr.Capability.Payload.{CapabilityGrant, grant_value, to_bytes, from_bytes, to_b64, from_b64}

module _ (c : Codec) (g : CapabilityGrant) where
  from_bytes-to_bytes : from_bytes c (to_bytes c g) ≡ ok g
  unfolding from_bytes to_bytes grant_value eqb
  from_bytes-to_bytes =
      rw c.loads-dumps
        (simp (c.bytes_of_bytes, c.int_of_int, c.str_of_text, c.items_of_list, strs_of-texts) refl)

  -- A grant that was written as base64 is read back as it was.
  pub from_b64-to_b64 : from_b64 c (to_b64 c g) ≡ ok g
  unfolding from_b64 to_b64
  from_b64-to_b64 =
      rw (b64decode-b64encode (to_bytes c g) (unfold to_bytes in c.dumps-IsBytes _))
        from_bytes-to_bytes
