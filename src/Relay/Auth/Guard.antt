-- ===== src/Relay/Auth/Guard.antt =====
-- relay/app.py `_check_capability`: what a request must show to pass.
use yakr.Prelude.{
  ◌↔◌, ℕ, ◌≡◌, refl, true, false, not, some, or_raise, ok, null, bind-eq-ok, or_raise-eq-ok,
  raise_if-then-eq-ok, not-eq-false, on_error-eq-ok, Bytes, Text,
}
use yakr.Base64.{b64decode}
use yakr.Codec.{Codec, text}
use yakr.Crypto.{Crypto}
use yakr.Capability.Payload.{
  CapabilityGrant, from_b64, malformed, not_registered, missing_permission,
}
use yakr.Capability.{
  Signed, verify_capability_grant, verify_capability_request, grant_allows_permission,
}
use yakr.Relay.CapabilityStore.{CapabilityGrantStore, is_registered, consume_nonce}
use yakr.Relay.Auth.{RelayRuntime, Request, given, check_headers, check_capability}

abbrev pub signed_part : Request → ℕ → Bytes → Signed
signed_part request timestamp_ms nonce = record {
  method = request.method;
  path = request.path;
  body = request.body;
  timestamp_ms = timestamp_ms;
  nonce = nonce;
}

module _ (c : Codec) (k : Crypto) where
  -- The request carries a grant that this relay signed, that has not expired and is registered and allows
  -- the operation, and a signature over itself by the grant's key, with a fresh nonce.
  pub record IsAuthorized (now : ℕ) (runtime : RelayRuntime) (request : Request) (permission : Text)
      (s s' : CapabilityGrantStore) : Type 0 where
    pub grant_b64 : Text
    pub timestamp_raw : Text
    pub nonce_b64 : Text
    pub signature_b64 : Text
    pub grant : CapabilityGrant
    pub signature : Bytes
    pub timestamp_ms : ℕ
    pub nonce : Bytes
    pub timestamp_given : given request.timestamp_header ≡ some timestamp_raw
    pub nonce_given : given request.nonce_header ≡ some nonce_b64
    pub grant_given : given request.grant_header ≡ some grant_b64
    pub signature_given : given request.signature_header ≡ some signature_b64
    pub grant_read : from_b64 c grant_b64 ≡ ok grant
    pub signature_read : b64decode signature_b64 ≡ some signature
    pub timestamp_read : c.int_of (text timestamp_raw) ≡ some timestamp_ms
    pub nonce_read : b64decode nonce_b64 ≡ some nonce
    pub granted :
        verify_capability_grant c k now runtime.relay_issuance_public runtime.name
          runtime.relay_tls_spki_sha256 grant
        ≡ ok tt
    pub registered : is_registered c k now grant s ≡ ok true
    pub allowed : grant_allows_permission grant permission ≡ true
    pub signed :
        verify_capability_request c k now grant grant.auth_public signature
          (signed_part request timestamp_ms nonce)
        ≡ ok tt
    pub consumed : consume_nonce now nonce_b64 s ≡ ok s'

  check_headers-IsAuthorized :
      (now : ℕ) (runtime : RelayRuntime) (request : Request) (permission : Text)
      (s s' : CapabilityGrantStore)
      → check_headers c k now runtime request permission s ≡ ok s'
      → IsAuthorized now runtime request permission s s'
  unfolding check_headers
  check_headers-IsAuthorized now runtime request permission s s' e =
      let (grant_b64, e1, r1) = bind-eq-ok _ _ e in
      let (timestamp_raw, e2, r2) = bind-eq-ok _ _ r1 in
      let (nonce_b64, e3, r3) = bind-eq-ok _ _ r2 in
      let (signature_b64, e4, r4) = bind-eq-ok _ _ r3 in
      let (grant, e5, r5) = bind-eq-ok _ _ (on_error-eq-ok _ _ r4) in
      let (u, e6, r6) =
        bind-eq-ok
          (verify_capability_grant c k now runtime.relay_issuance_public runtime.name
            runtime.relay_tls_spki_sha256 grant)
          _ r5 in
      let (is_known, e7, r7) = bind-eq-ok (is_registered c k now grant s) _ r6 in
      let (e8, r8) = raise_if-then-eq-ok (not is_known) not_registered _ r7 in
      let (e9, r9) =
        raise_if-then-eq-ok (not (grant_allows_permission grant permission)) missing_permission _
          r8 in
      let (signature, e10, r10) = bind-eq-ok (or_raise (b64decode signature_b64) malformed) _ r9 in
      let (timestamp_ms, e11, r11) =
        bind-eq-ok (or_raise (c.int_of (text timestamp_raw)) malformed) _ r10 in
      let (nonce, e12, r12) = bind-eq-ok (or_raise (b64decode nonce_b64) malformed) _ r11 in
      let (u', e13, r13) =
        bind-eq-ok
          (verify_capability_request c k now grant grant.auth_public signature
            (signed_part request timestamp_ms nonce))
          _ r12 in
      record {
        grant_b64 = grant_b64;
        timestamp_raw = timestamp_raw;
        nonce_b64 = nonce_b64;
        signature_b64 = signature_b64;
        grant = grant;
        signature = signature;
        timestamp_ms = timestamp_ms;
        nonce = nonce;
        timestamp_given = or_raise-eq-ok _ _ e2;
        nonce_given = or_raise-eq-ok _ _ e3;
        grant_given = or_raise-eq-ok _ _ e1;
        signature_given = or_raise-eq-ok _ _ e4;
        grant_read = e5;
        signature_read = or_raise-eq-ok _ malformed e10;
        timestamp_read = or_raise-eq-ok _ malformed e11;
        nonce_read = or_raise-eq-ok _ malformed e12;
        granted = e6;
        registered = rw (not-eq-false is_known e8) at e7;
        allowed = not-eq-false _ e9;
        signed = e13;
        consumed = r13;
      }

  IsAuthorized-check_headers :
      (now : ℕ) (runtime : RelayRuntime) (request : Request) (permission : Text)
      (s s' : CapabilityGrantStore)
      → IsAuthorized now runtime request permission s s'
      → check_headers c k now runtime request permission s ≡ ok s'
  unfolding check_headers
  IsAuthorized-check_headers now runtime request permission s s' a =
      rw
        (
          a.grant_given, a.timestamp_given, a.nonce_given, a.signature_given, a.grant_read,
          a.granted, a.registered, a.allowed, a.signature_read, a.timestamp_read, a.nonce_read,
          a.signed, a.consumed,
        )
        refl

  -- The guard step by step.
  pub check_capability-IsAuthorized :
      (now : ℕ) (runtime : RelayRuntime) (request : Request) (permission : Text)
      (s s' : CapabilityGrantStore)
      → runtime.require_capabilities ≡ true
      → null runtime.relay_issuance_public ≡ false
      → (check_capability c k now runtime request permission s ≡ ok s')
        ↔ IsAuthorized now runtime request permission s s'
  unfolding check_capability
  check_capability-IsAuthorized now runtime request permission s s' required keyed = (
    λ e. check_headers-IsAuthorized now runtime request permission s s' (rw (required, keyed) at e),
    λ a. rw (required, keyed) (IsAuthorized-check_headers now runtime request permission s s' a),
  )
