-- ===== src/Relay/App/Capabilities/Tests.antt =====
-- relay/app.py `issue_capability`: an example of a client that is served with its grant.
use yakr.Prelude.{
  ◌+◌, ◌≡◌, refl, inr, arith, true, false, none, some, [], ◌∷◌, ok, replicate, ◌∙◌, ap, Text, codes,
  eqb, contains, lookup, insert, read_digits-decimal,
}
use yakr.Base64.{b64encode, b64decode, padding}
use yakr.Codec.Sample.Laws.{sample, sample-int_of, sample-dumps-cons}
use yakr.Crypto.{signing_crypto, signing_crypto-IsSignature}
use yakr.Capability.Payload.{CapabilityGrant, to_b64, from_b64}
use yakr.Capability.{issue_capability_grant, verify_capability_grant, default_capability_ttl_ms}
use yakr.Capability.Client.{CapabilityHeaders, capability_request_headers}
use yakr.Ticket
use yakr.Ticket.{RelayTicket, verify_relay_ticket}
use yakr.Ticket.RoundTrip
use yakr.Relay.CapabilityStore.{CapabilityGrantStore, fresh_entry, register, check_generation}
use yakr.Relay.Auth.{RelayRuntime, both, check_bootstrap_ticket, try_permissions, check_capability}
use yakr.Relay.Auth.Accepted.{IsPython, noted, request_with}
use yakr.Relay.App.Capabilities.{CapabilityIssueRequest, supersede, signed_grant, issue_capability}
use yakr.Relay.App.Capabilities.Serving.{here, issued_grant_serves}

sample-IsPython : IsPython sample
sample-IsPython = record {
  int_of_decimal = λ n. sample-int_of _ ∙ ap some (read_digits-decimal n);
  dumps-filled = λ v. let (b, bs, e) = sample-dumps-cons v in rw e refl;
}

abbrev relay : RelayRuntime
relay = record {
  role = both;
  wrap_secret = none;
  name = codes "relay";
  require_tickets = false;
  require_capabilities = true;
  relay_issuance_public = replicate 32 6;
  relay_issuance_private = replicate 32 6;
  relay_tls_spki_sha256 = replicate 32 3;
}

abbrev ticket : RelayTicket
ticket = record {
  issuer_signing_public = [];
  relay_name = codes "relay";
  permissions = codes "store" ∷ [];
  contact_id = [];
  expires_at = 1000;
  signature = replicate 64 7;
}

-- The base64 of sixteen bytes 1.
abbrev id_text : Text
id_text = codes "AQEBAQEBAQEBAQEBAQEBAQ"

abbrev asked : CapabilityIssueRequest
asked = record {
  auth_public = codes "AQ";
  capability_id = id_text;
  capability_generation = 1;
  issuance_salt = id_text;
  permissions = codes "post" ∷ [];
  ticket = some (Ticket.to_b64 sample ticket);
  supersedes_capability_id = none;
}

abbrev issued : CapabilityGrant
issued = record {
  capability_id = replicate 16 1;
  capability_generation = 1;
  relay_name = codes "relay";
  relay_tls_spki_sha256 = replicate 32 3;
  permissions = codes "post" ∷ [];
  expires_at = 5 + default_capability_ttl_ms;
  auth_public = 1 ∷ [];
  relay_signature = replicate 64 7;
}

abbrev registry : CapabilityGrantStore
registry = record { overlap_window_ms = 100; active = []; seen_nonces = [] }

abbrev issued_registry : CapabilityGrantStore
issued_registry = record registry {
  active = insert id_text (fresh_entry sample signing_crypto 5 issued) [];
}

ticket_passes :
    check_bootstrap_ticket sample signing_crypto 5 relay (some (Ticket.to_b64 sample ticket))
    ≡ ok tt
unfolding check_bootstrap_ticket try_permissions verify_relay_ticket eqb contains
ticket_passes = rw (RoundTrip.from_b64-to_b64 sample ticket) refl

grant_signed : signed_grant sample signing_crypto 5 relay asked ≡ ok issued
unfolding signed_grant issue_capability_grant b64decode padding
grant_signed = rw ticket_passes refl

grant_issued :
    issue_capability sample signing_crypto 5 relay asked registry
    ≡ (ok (to_b64 sample issued), issued_registry)
unfolding issue_capability supersede register verify_capability_grant check_generation lookup eqb
    b64encode
grant_issued = rw grant_signed refl

issued_grant_serves_example :
    (grant : CapabilityGrant) × (from_b64 sample (to_b64 sample issued) ≡ ok grant)
    × (headers : CapabilityHeaders) × (capability_request_headers sample signing_crypto 1000
          (replicate 16 2)
          grant
          (1 ∷ [])
          (codes "POST")
          (codes "/v1/blobs")
          (codes "{}")
        ≡ ok headers)
    × (check_capability sample signing_crypto 2000 relay
          (request_with headers (codes "POST") (codes "/v1/blobs") (codes "{}"))
          (codes "store")
          issued_registry
        ≡ ok (noted 2000 (replicate 16 2) issued_registry))
unfolding b64encode contains eqb lookup
issued_grant_serves_example =
    issued_grant_serves sample signing_crypto sample-IsPython signing_crypto-IsSignature 5 1000 2000
      relay asked registry issued_registry issued_registry (to_b64 sample issued) (codes "store")
      (1 ∷ []) (replicate 16 2) (codes "POST") (codes "/v1/blobs") (codes "{}") refl refl
      (ground arith) refl grant_issued here (inr (refl, refl)) (ground arith) (ground arith)
      (ground arith) refl (ground arith) refl
