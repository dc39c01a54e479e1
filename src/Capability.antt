-- ===== src/Capability.antt =====
-- packages/yakr-core/src/yakr_core/capability_grant.py: grants that a relay signs, and the signed
-- requests of the client that holds one.
pub mod Payload
pub mod RoundTrip
pub mod Client
use yakr.Prelude.{
  ℕ, zero, suc, ◌+◌, ◌-◌, ◌*◌, ◌/◌, ◌%◌, ◌&&◌, Bool, true, false, not, ◌||◌, Option, none, some,
  List, [], ◌∷◌, ◌++◌, Result, ok, err, ◌>>=◌, ◌>>◌, raise_if, or_raise, ltb, leb, ◌==◌,
  if◌then◌else◌, length, Bytes, Text, codes, eqb, contains, decimal,
}
use yakr.Codec.{Codec}
use yakr.Crypto.{Crypto}
use yakr.Capability.Payload.{
  CapabilityGrant, GrantError, unsigned_payload, grant_expired, name_mismatch, pin_mismatch,
  bad_signature, auth_mismatch, timestamp_out_of_range, nonce_length, id_length, pin_length,
}

abbrev pub default_capability_ttl_ms : ℕ
default_capability_ttl_ms = 24 * 60 * 60 * 1000

abbrev pub timestamp_skew_ms : ℕ
timestamp_skew_ms = 5 * 60 * 1000

-- The aliases: a ticket's `store` is a capability's `post`, and `forward` is itself.
unfoldable pub normalize_permission : Text → Text
normalize_permission permission =
    if eqb permission (codes "store")
    then codes "post"
    else if eqb permission (codes "forward")
    then codes "forward"
    else permission

unfoldable pub grant_allows_permission : CapabilityGrant → Text → Bool
unfolding contains normalize_permission
grant_allows_permission grant permission =
    contains (normalize_permission permission) grant.permissions
    || contains permission grant.permissions

-- A request as its handler sees it, with its signed parts.
pub record Signed : Type 0 where
  pub method : Text
  pub path : Text
  pub body : Bytes
  pub timestamp_ms : ℕ
  pub nonce : Bytes

-- `method.upper()`, of an HTTP method, which is ASCII.
unfoldable pub upper : Text → Bytes
upper [] = []
upper (c ∷ cs) = (if leb b'a' c && leb c b'z' then c - 32 else c) ∷ upper cs

-- `hashlib`, `ed25519` and `cbor2` are parameters.
module _ (c : Codec) (k : Crypto) where
  unfoldable pub issue_capability_grant :
      ℕ
      → Bytes
      → Bytes
      → ℕ
      → Text
      → Bytes
      → List Text
      → Bytes
      → ℕ
      → Result GrantError CapabilityGrant
  issue_capability_grant now relay_private capability_id generation relay_name pin permissions
        auth_public ttl_ms =
      do
        raise_if (not (length capability_id == 16)) id_length
        raise_if (not (length pin == 32)) pin_length
        let grant : CapabilityGrant = record {
          capability_id = capability_id;
          capability_generation = generation;
          relay_name = relay_name;
          relay_tls_spki_sha256 = pin;
          permissions = permissions;
          expires_at = now + ttl_ms;
          auth_public = auth_public;
          relay_signature = [];
        }
        ok (record grant {
          relay_signature = k.ed25519_sign relay_private (unsigned_payload c grant);
        })

  unfoldable pub verify_capability_grant :
      ℕ → Bytes → Text → Bytes → CapabilityGrant → Result GrantError (Unit {0})
  verify_capability_grant now relay_public relay_name pin grant = do
    raise_if (leb grant.expires_at now) grant_expired
    raise_if (not (eqb grant.relay_name relay_name)) name_mismatch
    raise_if (not (eqb grant.relay_tls_spki_sha256 pin)) pin_mismatch
    raise_if (not (k.ed25519_verify relay_public grant.relay_signature (unsigned_payload c grant)))
        bad_signature

  -- The parts of the request joined by newlines.
  unfoldable pub capability_request_signing_input : Signed → Bytes
  unfolding upper decimal
  capability_request_signing_input r =
      upper r.method
      ++ b'\n'
        ∷ (r.path
            ++ b'\n' ∷ (k.sha256 r.body ++ b'\n' ∷ (decimal r.timestamp_ms ++ b'\n' ∷ r.nonce)))

  -- `abs(timestamp_ms - now) > TIMESTAMP_SKEW_MS`; one of the truncated differences is 0.
  unfoldable pub is_skewed : ℕ → ℕ → Bool
  is_skewed timestamp_ms now =
      ltb timestamp_skew_ms (timestamp_ms - now) || ltb timestamp_skew_ms (now - timestamp_ms)

  unfoldable pub verify_capability_request :
      ℕ → CapabilityGrant → Bytes → Bytes → Signed → Result GrantError (Unit {0})
  unfolding is_skewed
  verify_capability_request now grant auth_public signature r = do
    raise_if (not (eqb auth_public grant.auth_public)) auth_mismatch
    raise_if (is_skewed r.timestamp_ms now) timestamp_out_of_range
    raise_if (not (length r.nonce == 16)) nonce_length
    raise_if (not (k.ed25519_verify auth_public signature (capability_request_signing_input r)))
        bad_signature
