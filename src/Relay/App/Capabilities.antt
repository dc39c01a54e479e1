-- ===== src/Relay/App/Capabilities.antt =====
-- relay/app.py: the endpoints that issue, register and revoke capability grants.
pub mod Issued
pub mod Serving
mod Tests
use yakr.Prelude.{
  ℕ, Bool, true, false, not, Option, none, some, List, [], ◌∷◌, Result, ok, err, ◌>>=◌, ◌>>◌,
  raise_if, or_raise, on_error, ◌==◌, if◌then◌else◌, length, null, Bytes, Text,
}
use yakr.Base64.{b64encode, b64decode}
use yakr.Codec.{Codec}
use yakr.Crypto.{Crypto}
use yakr.Capability.Payload.{CapabilityGrant, GrantError, to_b64, from_b64}
use yakr.Capability.{issue_capability_grant, default_capability_ttl_ms}
use yakr.Relay.CapabilityStore.{
  CapabilityGrantStore, register, revoke_with_overlap, revoke_immediately,
}
use yakr.Relay.Auth.{RelayRuntime, given, check_bootstrap_ticket}

pub record CapabilityIssueRequest : Type 0 where
  pub auth_public : Text
  pub capability_id : Text
  pub capability_generation : ℕ
  pub issuance_salt : Text
  pub permissions : List Text
  pub ticket : Option Text
  pub supersedes_capability_id : Option Text

pub record CapabilityRevokeRequest : Type 0 where
  pub capability_id : Text
  pub ticket : Text

-- Every exception is the status 400.
abbrev pub bad_request {ℓ} : {E : Type 0} {A : Type ℓ} → Result E A → Result ℕ A
bad_request r = on_error (λ _. 400) r

-- `if request.supersedes_capability_id: …`, where an empty text is false.
supersede_given : ℕ → Option Text → CapabilityGrantStore → Result ℕ CapabilityGrantStore
supersede_given now none s = ok s
supersede_given now (some id_b64) s = do
  id ← or_raise (b64decode id_b64) 400
  ok (revoke_with_overlap now none id s)

unfoldable pub supersede : ℕ → Option Text → CapabilityGrantStore → Result ℕ CapabilityGrantStore
unfolding supersede_given
supersede now id_b64 s = supersede_given now (given id_b64) s

module _ (c : Codec) (k : Crypto) where
  -- The checks before the `try`, and the grant that it signs. A private key is 32 bytes.
  unfoldable pub signed_grant : ℕ → RelayRuntime → CapabilityIssueRequest → Result ℕ CapabilityGrant
  signed_grant now runtime request = do
    raise_if (null runtime.relay_issuance_private) 500
    check_bootstrap_ticket c k now runtime request.ticket
    auth_public ← or_raise (b64decode request.auth_public) 400
    capability_id ← or_raise (b64decode request.capability_id) 400
    issuance_salt ← or_raise (b64decode request.issuance_salt) 400
    raise_if (not (length capability_id == 16)) 400
    raise_if (not (length issuance_salt == 16)) 400
    raise_if (not (length runtime.relay_issuance_private == 32)) 400
    bad_request (
        issue_capability_grant c k now runtime.relay_issuance_private capability_id
          request.capability_generation runtime.name runtime.relay_tls_spki_sha256
          request.permissions auth_public default_capability_ttl_ms)

  register_here :
      ℕ
      → RelayRuntime
      → CapabilityGrant
      → CapabilityGrantStore
      → Result GrantError CapabilityGrantStore
  register_here now runtime grant s =
      register c k now runtime.relay_issuance_public runtime.name runtime.relay_tls_spki_sha256
        grant s

  -- The reply to a registration, which leaves the store as it was where it fails.
  registered_reply :
      Text
      → CapabilityGrantStore
      → Result GrantError CapabilityGrantStore
      → Result ℕ Text × CapabilityGrantStore
  registered_reply reply s (err e) = (err 400, s)
  registered_reply reply s (ok s') = (ok reply, s')

  -- The superseded grant is revoked before the new one is registered.
  register_superseding :
      ℕ
      → RelayRuntime
      → CapabilityGrant
      → CapabilityGrantStore
      → Result ℕ CapabilityGrantStore
      → Result ℕ Text × CapabilityGrantStore
  unfolding registered_reply register_here
  register_superseding now runtime grant s (err status) = (err status, s)
  register_superseding now runtime grant s (ok revoked) =
      registered_reply (to_b64 c grant) revoked (register_here now runtime grant revoked)

  issue_signed :
      ℕ
      → RelayRuntime
      → CapabilityIssueRequest
      → CapabilityGrantStore
      → Result ℕ CapabilityGrant
      → Result ℕ Text × CapabilityGrantStore
  unfolding register_superseding
  issue_signed now runtime request s (err status) = (err status, s)
  issue_signed now runtime request s (ok grant) =
      register_superseding now runtime grant s (supersede now request.supersedes_capability_id s)

  -- The grant as base64, and the registry.
  unfoldable pub issue_capability :
      ℕ
      → RelayRuntime
      → CapabilityIssueRequest
      → CapabilityGrantStore
      → Result ℕ Text × CapabilityGrantStore
  unfolding issue_signed
  issue_capability now runtime request s =
      issue_signed now runtime request s (signed_grant now runtime request)

  unfoldable pub register_capability :
      ℕ → RelayRuntime → Text → CapabilityGrantStore → Result ℕ (Text × CapabilityGrantStore)
  unfolding register_here
  register_capability now runtime grant_b64 s = do
    raise_if (null runtime.relay_issuance_public) 500
    grant ← bad_request (from_b64 c grant_b64)
    s' ← bad_request (register_here now runtime grant s)
    ok (b64encode grant.capability_id, s')

  unfoldable pub revoke_capability :
      ℕ
      → RelayRuntime
      → CapabilityRevokeRequest
      → CapabilityGrantStore
      → Result ℕ CapabilityGrantStore
  revoke_capability now runtime request s = do
    check_bootstrap_ticket c k now runtime (some request.ticket)
    capability_id ← or_raise (b64decode request.capability_id) 400
    raise_if (not (length capability_id == 16)) 400
    ok (revoke_immediately now capability_id s)
