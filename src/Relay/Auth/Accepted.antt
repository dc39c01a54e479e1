-- ===== src/Relay/Auth/Accepted.antt =====
-- capability_grant.py and relay/app.py: the request that a client signs passes the relay's check.
use yakr.Prelude.{
  ℕ, ◌+◌, ◌≤◌, ◌≡◌, refl, true, false, some, none, [], ◌∷◌, ok, null, length, Bytes, Text, IsBytes,
  decimal, null-decimal, lookup, insert, select, eqb_refl, arith,
}
use yakr.Base64.{b64encode}
use yakr.Base64.RoundTrip.{b64decode-b64encode, null-b64encode}
use yakr.Codec.{Codec, Value, text}
use yakr.Crypto.{Crypto, IsSignature}
use yakr.Capability.Payload.{CapabilityGrant, to_bytes, to_b64}
use yakr.Capability.RoundTrip.{from_b64-to_b64}
use yakr.Capability.{
  Signed, timestamp_skew_ms, is_skewed, verify_capability_grant, verify_capability_request,
  grant_allows_permission, capability_request_signing_input,
}
use yakr.Capability.Client.{CapabilityHeaders, sign_capability_request, capability_request_headers}
use yakr.Relay.CapabilityStore.{CapabilityGrantStore, is_fresh, is_registered}
use yakr.Relay.CapabilityStore.Nonces.{consume_nonce-unused}
use yakr.Relay.Auth.{RelayRuntime, Request, given}
use yakr.Relay.Auth.Guard.{IsAuthorized}

given-filled : (t : Text) → null t ≡ false → given (some t) ≡ some t
given-filled t h = rw h refl

filled-b64encode : (bs : Bytes) → IsBytes bs → null bs ≡ false → null (b64encode bs) ≡ false
filled-b64encode [] h f = cc
filled-b64encode (b ∷ bs) h f = null-b64encode b bs h

filled-length : (bs : Bytes) (n : ℕ) → length bs ≡ n + 1 → null bs ≡ false
filled-length [] n h = absurd (omega (arith, h))
filled-length (b ∷ bs) n h = refl

-- The request with the headers.
abbrev pub request_with : CapabilityHeaders → Text → Text → Bytes → Request
request_with h method path body = record {
  grant_header = some h.grant;
  timestamp_header = some h.timestamp;
  nonce_header = some h.nonce;
  signature_header = some h.signature;
  method = method;
  path = path;
  body = body;
}

-- The registry after a nonce was used.
abbrev pub noted : ℕ → Bytes → CapabilityGrantStore → CapabilityGrantStore
noted now nonce s = record s {
  seen_nonces = insert (b64encode nonce) now (select (is_fresh now) s.seen_nonces);
}

-- What Python and cbor2 are documented to do: `int(str(n))` is n, and an encoding is not empty.
pub record IsPython (c : Codec) : Type 0 where
  pub int_of_decimal : (n : ℕ) → c.int_of (text (decimal n)) ≡ some n
  pub dumps-filled : (v : Value) → null (c.dumps v) ≡ false

-- The headers of a client.
abbrev pub headers_of :
    (c : Codec)
    → Crypto
    → ℕ
    → Bytes
    → CapabilityGrant
    → Bytes
    → Text
    → Text
    → Bytes
    → CapabilityHeaders
headers_of c k at nonce grant private method path body = record {
  grant = to_b64 c grant;
  timestamp = decimal at;
  nonce = b64encode nonce;
  signature = b64encode (
      k.ed25519_sign private (
        capability_request_signing_input c k (record {
          method = method;
          path = path;
          body = body;
          timestamp_ms = at;
          nonce = nonce;
        })));
}

module _ (c : Codec) (k : Crypto) where
  pub capability_request_headers-ok :
      (at : ℕ) (nonce : Bytes) (grant : CapabilityGrant) (private : Bytes) (method path : Text)
      (body : Bytes)
      → length nonce ≡ 16
      → capability_request_headers c k at nonce grant private method path body
        ≡ ok (headers_of c k at nonce grant private method path body)
  unfolding capability_request_headers sign_capability_request
  capability_request_headers-ok at nonce grant private method path body h = rw h refl

  module _ (p : IsPython c) (e : IsSignature k) where
    -- The request carries what the guard asks for.
    pub IsAuthorized-headers :
        (at now : ℕ) (nonce : Bytes) (grant : CapabilityGrant) (private : Bytes)
        (method path : Text) (body : Bytes) (permission : Text) (runtime : RelayRuntime)
        (s : CapabilityGrantStore)
        → length nonce ≡ 16
        → IsBytes nonce
        → grant.auth_public ≡ k.ed25519_public private
        → verify_capability_grant c k now runtime.relay_issuance_public runtime.name
            runtime.relay_tls_spki_sha256 grant
          ≡ ok tt
        → is_registered c k now grant s ≡ ok true
        → grant_allows_permission grant permission ≡ true
        → at ≤ now + timestamp_skew_ms
        → now ≤ at + timestamp_skew_ms
        → lookup (b64encode nonce) s.seen_nonces ≡ none
        → IsAuthorized c k now runtime
            (request_with (headers_of c k at nonce grant private method path body) method path body)
            permission
            s
            (noted now nonce s)
    unfolding verify_capability_request is_skewed
    IsAuthorized-headers at now nonce grant private method path body permission runtime s size bytes
          own granted registered allowed early late unused =
        let part : Signed = record {
          method = method;
          path = path;
          body = body;
          timestamp_ms = at;
          nonce = nonce;
        } in
        let message = capability_request_signing_input c k part in
        let signature = k.ed25519_sign private message in
        let written : IsBytes signature = e.signature-IsBytes private message in
        let near : is_skewed c k at now ≡ false = ground (arith, early, late) in
        let verifies : k.ed25519_verify grant.auth_public signature message ≡ true =
          rw own (e.verifies private message) in
        record {
          grant_b64 = to_b64 c grant;
          timestamp_raw = decimal at;
          nonce_b64 = b64encode nonce;
          signature_b64 = b64encode signature;
          grant = grant;
          signature = signature;
          timestamp_ms = at;
          nonce = nonce;
          timestamp_given = given-filled (decimal at) (null-decimal at);
          nonce_given = given-filled _ (filled-b64encode nonce bytes (filled-length nonce 15 size));
          grant_given = given-filled _ (
              unfold to_b64 to_bytes in
              filled-b64encode (to_bytes c grant) (c.dumps-IsBytes _) (p.dumps-filled _));
          signature_given = given-filled _ (
              filled-b64encode signature written
                (filled-length signature 63 (e.signature-length private message)));
          grant_read = from_b64-to_b64 c grant;
          signature_read = b64decode-b64encode signature written;
          timestamp_read = p.int_of_decimal at;
          nonce_read = b64decode-b64encode nonce bytes;
          granted = granted;
          registered = registered;
          allowed = allowed;
          signed = rw (eqb_refl grant.auth_public, near, size, verifies) refl;
          consumed = consume_nonce-unused now (b64encode nonce) s unused;
        }
