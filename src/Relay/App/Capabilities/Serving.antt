-- ===== src/Relay/App/Capabilities/Serving.antt =====
-- relay/app.py `issue_capability` and capability_grant.py: the client that asked for a grant is served with it.
use yakr.Prelude.{
  ℕ, ◌+◌, ◌≤◌, ◌<◌, ◌≡◌, ◌∙◌, refl, subst, true, false, some, none, ok, null, length, leb,
  raise_if-then-eq-ok, Bytes, Text, IsBytes, lookup, arith,
}
use yakr.Base64.{b64encode, b64decode}
use yakr.Base64.RoundTrip.{b64decode-b64encode}
use yakr.Codec.{Codec}
use yakr.Crypto.{Crypto, IsSignature}
use yakr.Capability.Payload.{CapabilityGrant, from_b64, grant_expired}
use yakr.Capability.{timestamp_skew_ms, default_capability_ttl_ms, verify_capability_grant}
use yakr.Capability.Client.{CapabilityHeaders, capability_request_headers}
use yakr.Relay.CapabilityStore.{CapabilityGrantStore}
use yakr.Relay.Auth.{RelayRuntime, Request, check_capability}
use yakr.Relay.Auth.Entitled.{Allows, grant_allows_permission-Allows}
use yakr.Relay.Auth.Replay.{is_registered-active}
use yakr.Relay.CapabilityStore.Nonces.{consume_nonce-active}
use yakr.Relay.Auth.Guard.{check_capability-IsAuthorized}
use yakr.Relay.Auth.Accepted.{
  IsPython, headers_of, noted, request_with, capability_request_headers-ok, IsAuthorized-headers,
}
use yakr.Relay.App.Capabilities.{CapabilityIssueRequest, issue_capability}
use yakr.Relay.App.Capabilities.Issued.{issue_capability-IsIssued}

module _ (c : Codec) (k : Crypto) where
  verify_capability_grant-later :
      (now later : ℕ) (relay_public : Bytes) (name : Text) (pin : Bytes) (g : CapabilityGrant)
      → later < g.expires_at
      → verify_capability_grant c k now relay_public name pin g ≡ ok tt
      → verify_capability_grant c k later relay_public name pin g ≡ ok tt
  unfolding verify_capability_grant
  verify_capability_grant-later now later relay_public name pin g alive e =
      let (young, rest) = raise_if-then-eq-ok (leb g.expires_at now) grant_expired _ e in
      let living : leb g.expires_at later ≡ false = ground (arith, alive) in rw living rest

  -- The registry after the relay checked some requests, from the one it had.
  pub data Checked (runtime : RelayRuntime) (s₀ : CapabilityGrantStore)
      : CapabilityGrantStore → Type 0 where
    here : Checked runtime s₀ s₀
    next :
        {s s' : CapabilityGrantStore}
        → Checked runtime s₀ s
        → (now : ℕ) (request : Request) (permission : Text)
        → check_capability c k now runtime request permission s ≡ ok s'
        → Checked runtime s₀ s'

  Checked-active :
      {runtime : RelayRuntime} {s₀ s : CapabilityGrantStore}
      → runtime.require_capabilities ≡ true
      → null runtime.relay_issuance_public ≡ false
      → Checked runtime s₀ s
      → s.active ≡ s₀.active
  Checked-active required keyed here = refl
  Checked-active {runtime} required keyed (next {s} {s'} r now request permission e) =
      let a =
        (check_capability-IsAuthorized c k now runtime request permission s s' required keyed).0
          e in
      consume_nonce-active now a.nonce_b64 s s' a.consumed ∙ Checked-active required keyed r

  -- A client that got a grant under its own key is served by the relay, for a day, for each of the permissions that
  -- it asked for, `post` being good for an endpoint that checks `store`: every request that it signs with that key
  -- passes the check, if its clock is within five minutes of the relay's and its nonce was not used, whatever
  -- requests the relay checked in between. What revokes or registers grants in between is not considered.
  pub issued_grant_serves :
      (p : IsPython c) (e : IsSignature k) (now at later : ℕ) (runtime : RelayRuntime)
      (request : CapabilityIssueRequest) (s s' s'' : CapabilityGrantStore) (reply permission : Text)
      (private nonce : Bytes) (method path : Text) (body : Bytes)
      → runtime.require_capabilities ≡ true
      → null runtime.relay_issuance_public ≡ false
      → IsBytes (k.ed25519_public private)
      → request.auth_public ≡ b64encode (k.ed25519_public private)
      → issue_capability c k now runtime request s ≡ (ok reply, s')
      → Checked runtime s' s''
      → Allows permission request.permissions
      → later < now + default_capability_ttl_ms
      → at ≤ later + timestamp_skew_ms
      → later ≤ at + timestamp_skew_ms
      → length nonce ≡ 16
      → IsBytes nonce
      → lookup (b64encode nonce) s''.seen_nonces ≡ none
      → (grant : CapabilityGrant) × (from_b64 c reply ≡ ok grant)
        × (headers : CapabilityHeaders) × (capability_request_headers c k at nonce grant private
              method path body
            ≡ ok headers)
        × (check_capability c k later runtime (request_with headers method path body) permission s''
            ≡ ok (noted later nonce s''))
  issued_grant_serves p e now at later runtime request s s' s'' reply permission private nonce
        method path body required keyed key_bytes key issued checked asked alive early late size
        bytes unused =
      let (grant, i) = issue_capability-IsIssued c k now runtime request s s' reply issued in
      let own : grant.auth_public ≡ k.ed25519_public private =
        let read : b64decode (b64encode (k.ed25519_public private)) ≡ some grant.auth_public =
          subst (λ t. b64decode t ≡ some grant.auth_public) key i.asked.auth_public in
        cc (read, b64decode-b64encode (k.ed25519_public private) key_bytes) in
      let valid =
        verify_capability_grant-later now later runtime.relay_issuance_public runtime.name
          runtime.relay_tls_spki_sha256 grant (rw i.asked.expires_at alive) i.verified in
      let allowed =
        (grant_allows_permission-Allows c k grant permission).1 (rw i.asked.permissions asked) in
      let registered =
        is_registered-active c k later grant s' s'' (Checked-active required keyed checked)
        ∙ i.registered later in
      let passes =
        IsAuthorized-headers c k p e at later nonce grant private method path body permission
          runtime s'' size bytes own valid registered allowed early late unused in
      (
        grant,
        i.read,
        headers_of c k at nonce grant private method path body,
        capability_request_headers-ok c k at nonce grant private method path body size,
        (check_capability-IsAuthorized c k later runtime _ permission s'' _ required keyed).1
            passes,
      )
