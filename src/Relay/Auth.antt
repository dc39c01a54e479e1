-- ===== src/Relay/Auth.antt =====
-- packages/yakr-relay/src/yakr_relay/app.py: who may call an endpoint. A request reads the clock
-- once. An error is the status of the `HTTPException`; its `detail` is left out.
pub mod Guard
pub mod Entitled
pub mod Replay
pub mod Accepted
use yakr.Prelude.{
  ℕ, Bool, true, false, not, ◌||◌, Option, none, some, List, [], ◌∷◌, Result, ok, err, ◌>>=◌, ◌>>◌,
  raise_if, or_raise, on_error, if◌then◌else◌, null, Bytes, Text, codes,
}
use yakr.Base64.{b64decode}
use yakr.Codec.{Codec, text}
use yakr.Crypto.{Crypto}
use yakr.Capability.Payload.{
  CapabilityGrant, GrantError, from_b64, malformed, not_registered, missing_permission,
}
use yakr.Capability.{
  Signed, verify_capability_grant, verify_capability_request, grant_allows_permission,
}
use yakr.Relay.CapabilityStore.{CapabilityGrantStore, is_registered, consume_nonce}
use yakr.Ticket
use yakr.Ticket.{RelayTicket, TicketError, is_value_error, verify_relay_ticket}

pub data RelayRole : Type 0 where
  entry mailbox both : RelayRole

pub record RelayRuntime : Type 0 where
  pub role : RelayRole
  pub wrap_secret : Option Bytes
  pub name : Text
  pub require_tickets : Bool
  pub require_capabilities : Bool
  pub relay_issuance_public : Bytes
  pub relay_issuance_private : Bytes
  pub relay_tls_spki_sha256 : Bytes

-- The capability headers of a request, and what its signature covers.
pub record Request : Type 0 where
  pub grant_header : Option Text
  pub timestamp_header : Option Text
  pub nonce_header : Option Text
  pub signature_header : Option Text
  pub method : Text
  pub path : Text
  pub body : Bytes

-- A header that is there and not empty, for `all([…])`.
abbrev pub given : Option Text → Option Text
given none = none
given (some t) = if null t then none else some t

module _ (c : Codec) (k : Crypto) where
  -- The loop over "store" and "fetch": only a `ValueError` goes on to the next permission.
  unfoldable pub try_permissions :
      ℕ → RelayRuntime → RelayTicket → List Text → Result TicketError (Unit {0})
  try_permissions now runtime ticket [] = err TicketError.missing_permission
  try_permissions now runtime ticket (permission ∷ rest) =
      let later = try_permissions now runtime ticket rest in
      elim (verify_relay_ticket c k now runtime.name permission ticket) [
        | ok _ ↦ ok tt
        | err e ↦ if is_value_error e then later else err e
      ]

  unfoldable pub check_bootstrap_ticket : ℕ → RelayRuntime → Option Text → Result ℕ (Unit {0})
  unfolding try_permissions
  check_bootstrap_ticket now runtime none = err 401
  check_bootstrap_ticket now runtime (some ticket_b64) =
      on_error (λ _. 401)
        (do
          ticket ← Ticket.from_b64 c ticket_b64
          try_permissions now runtime ticket (codes "store" ∷ codes "fetch" ∷ []))

  ticket_given : ℕ → RelayRuntime → Text → Option Text → Result ℕ (Unit {0})
  ticket_given now runtime permission none = err 401
  ticket_given now runtime permission (some ticket_b64) =
      on_error (λ _. 401)
        (do
          ticket ← Ticket.from_b64 c ticket_b64
          verify_relay_ticket c k now runtime.name permission ticket)

  unfoldable pub check_ticket : ℕ → RelayRuntime → Text → Option Text → Result ℕ (Unit {0})
  unfolding ticket_given
  check_ticket now runtime permission ticket_b64 =
      if not runtime.require_tickets then ok tt else ticket_given now runtime permission ticket_b64

  -- The body of the `try`, on the four headers.
  verify_headers :
      ℕ
      → RelayRuntime
      → Request
      → Text
      → Text
      → Text
      → Text
      → Text
      → CapabilityGrantStore
      → Result GrantError CapabilityGrantStore
  verify_headers now runtime request permission grant_b64 timestamp_raw nonce_b64 signature_b64
        store =
      do
        grant ← from_b64 c grant_b64
        verify_capability_grant c k now runtime.relay_issuance_public runtime.name
            runtime.relay_tls_spki_sha256 grant
        registered ← is_registered c k now grant store
        raise_if (not registered) not_registered
        raise_if (not (grant_allows_permission grant permission)) missing_permission
        signature ← or_raise (b64decode signature_b64) malformed
        timestamp_ms ← or_raise (c.int_of (text timestamp_raw)) malformed
        nonce ← or_raise (b64decode nonce_b64) malformed
        verify_capability_request c k now grant grant.auth_public signature (record {
          method = request.method;
          path = request.path;
          body = request.body;
          timestamp_ms = timestamp_ms;
          nonce = nonce;
        })
        consume_nonce now nonce_b64 store

  check_headers :
      ℕ → RelayRuntime → Request → Text → CapabilityGrantStore → Result ℕ CapabilityGrantStore
  unfolding verify_headers
  check_headers now runtime request permission store = do
    grant_b64 ← or_raise (given request.grant_header) 401
    timestamp_raw ← or_raise (given request.timestamp_header) 401
    nonce_b64 ← or_raise (given request.nonce_header) 401
    signature_b64 ← or_raise (given request.signature_header) 401
    on_error (λ _. 401)
        (verify_headers now runtime request permission grant_b64 timestamp_raw nonce_b64
          signature_b64 store)

  unfoldable pub check_capability :
      ℕ → RelayRuntime → Request → Text → CapabilityGrantStore → Result ℕ CapabilityGrantStore
  unfolding check_headers
  check_capability now runtime request permission store =
      if not runtime.require_capabilities
      then ok store
      else if null runtime.relay_issuance_public
      then err 500
      else check_headers now runtime request permission store

  unfoldable pub authorize_request :
      ℕ
      → RelayRuntime
      → Request
      → Text
      → Option Text
      → CapabilityGrantStore
      → Result ℕ CapabilityGrantStore
  unfolding check_capability check_ticket
  authorize_request now runtime request permission ticket_b64 store =
      if runtime.require_capabilities
      then check_capability now runtime request permission store
      else (check_ticket now runtime permission ticket_b64 >>= λ _. ok store)
