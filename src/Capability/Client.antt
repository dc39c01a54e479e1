-- ===== src/Capability/Client.antt =====
-- capability_grant.py: what a client does, the keys that it derives for a relay and the headers of its requests.
use yakr.Prelude.{
  ℕ, not, [], ◌++◌, ◌==◌, Result, ok, ◌>>=◌, ◌>>◌, raise_if, if◌then◌else◌, length, null, Bytes,
  Text, codes, decimal, Option, none, some,
}
use yakr.Base64.{b64encode}
use yakr.Codec.{Codec}
use yakr.Crypto.{Crypto}
use yakr.Crypto.Derivation.{hkdf_derive, pack64}
use yakr.Capability.Payload.{CapabilityGrant, GrantError, nonce_length, salt_length, to_b64}
use yakr.Capability.{capability_request_signing_input}

-- The dict of headers.
pub record CapabilityHeaders : Type 0 where
  pub grant : Text
  pub timestamp : Text
  pub nonce : Text
  pub signature : Text

-- `nonce or secrets.token_bytes(16)`
abbrev nonce_or : Bytes → Option Bytes → Bytes
nonce_or random none = random
nonce_or random (some nonce) = if null nonce then random else nonce

module _ (k : Crypto) where
  -- The id and the raw private key; the generation is below 2 ^ 64.
  unfoldable pub derive_capability_material :
      Bytes → Text → Bytes → ℕ → Bytes → Result GrantError (Bytes × Bytes)
  derive_capability_material master_secret relay_name pin generation issuance_salt = do
    raise_if (not (length issuance_salt == 16)) salt_length
    let seed_material = relay_name ++ pin ++ pack64 generation ++ issuance_salt
    let capability_seed =
        hkdf_derive k master_secret (codes "yakr-relay-capability-v1") seed_material
    ok (k.hkdf 16 capability_seed (codes "id") [], k.hkdf 32 capability_seed (codes "auth") [])

module _ (c : Codec) (k : Crypto) where
  -- The timestamp is given; `random` is what `secrets` makes.
  unfoldable pub sign_capability_request :
      Bytes → Bytes → Text → Text → Bytes → ℕ → Option Bytes → Result GrantError (ℕ × Bytes × Bytes)
  sign_capability_request random auth_private method path body timestamp_ms nonce = do
    let raw_nonce = nonce_or random nonce
    raise_if (not (length raw_nonce == 16)) nonce_length
    ok (
      timestamp_ms,
      raw_nonce,
      k.ed25519_sign auth_private (
          capability_request_signing_input c k (record {
            method = method;
            path = path;
            body = body;
            timestamp_ms = timestamp_ms;
            nonce = raw_nonce;
          })),
    )

  unfoldable pub capability_request_headers :
      ℕ
      → Bytes
      → CapabilityGrant
      → Bytes
      → Text
      → Text
      → Bytes
      → Result GrantError CapabilityHeaders
  unfolding decimal
  capability_request_headers now random grant auth_private method path body = do
    (timestamp_ms, nonce, signature) ←
        sign_capability_request random auth_private method path body now none
    ok (record {
      grant = to_b64 c grant;
      timestamp = decimal timestamp_ms;
      nonce = b64encode nonce;
      signature = b64encode signature;
    })
