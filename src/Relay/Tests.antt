-- ===== src/Relay/Tests.antt =====
-- capability_store.py, app.py and pairing_store.py: examples. Signatures always verify, so that the
-- requests pass.
use yakr.Prelude.{
  ◌↔◌, ◌≡◌, ◌≢◌, ◌+◌, ◌++◌, ◌%◌, refl, inr, arith, true, false, none, some, [], ◌∷◌, ok, err, ltb,
  replicate, length, Bytes, Text, IsBytes, read_digits, subst, codes, eqb, contains, lookup, insert,
}
use yakr.Base64.{b64encode, b64decode, padding}
use yakr.Base64.RoundTrip.{null-b64encode}
use yakr.Codec.Sample.Laws.{sample, sample-int_of, sample-dumps-cons}
use yakr.Crypto.{trusting_crypto}
use yakr.Capability.Payload.{
  CapabilityGrant, to_b64, to_bytes, grant_value, unsigned_payload, generation_rollback,
}
use yakr.Capability.{
  verify_capability_grant, verify_capability_request, issue_capability_grant,
  default_capability_ttl_ms, grant_allows_permission,
}
use yakr.Capability.RoundTrip.{from_b64-to_b64}
use yakr.Ticket
use yakr.Ticket.{RelayTicket, verify_relay_ticket}
use yakr.Ticket.RoundTrip
use yakr.Relay.BlobStore.{empty, new_row}
use yakr.Relay.App.{RelayState}
use yakr.Relay.App.Blobs.{BlobStoreRequest, store_blob}
use yakr.Relay.App.Blobs.Access.{HasStored, store_blob_iff}
use yakr.Relay.App.Capabilities.{CapabilityIssueRequest, signed_grant, issue_capability}
use yakr.Relay.App.Capabilities.Issued.{failed_rotation_revokes}
use yakr.Relay.CapabilityStore.{
  check_generation, revoke_entry, CapabilityGrantStore, Entry, fresh_entry, register, is_registered,
  consume_nonce, revoke_with_overlap, revoke_immediately,
}
use yakr.Relay.CapabilityStore.Nonces
use yakr.Relay.CapabilityStore.Registration.{register-is_registered, rollback_refused}
use yakr.Relay.CapabilityStore.Revocation.{
  is_registered-revoke_with_overlap, supersede_revives, revoked_grant_registers_again,
}
use yakr.Relay.Auth.{
  RelayRuntime, Request, both, given, check_capability, check_bootstrap_ticket, try_permissions,
}
use yakr.Relay.Auth.Entitled.{IsEntitled, check_capability_iff}
use yakr.Relay.Auth.Guard.{IsAuthorized, check_capability-IsAuthorized}
use yakr.Relay.Auth.Replay.{replay_refused, padded_nonce_replays}

abbrev grant : CapabilityGrant
grant = record {
  capability_id = replicate 16 1;
  capability_generation = 2;
  relay_name = codes "relay";
  relay_tls_spki_sha256 = replicate 32 3;
  permissions = codes "post" ∷ [];
  expires_at = 1000;
  auth_public = replicate 32 4;
  relay_signature = [];
}

abbrev old_grant : CapabilityGrant
old_grant = record grant { capability_generation = 1 }

abbrev issuer : Bytes
issuer = replicate 32 6

abbrev registry : CapabilityGrantStore
registry = record { overlap_window_ms = 100; active = []; seen_nonces = [] }

abbrev entry_of : CapabilityGrant → Entry
entry_of g = fresh_entry sample trusting_crypto 5 g

abbrev holding : CapabilityGrantStore
holding = record registry { active = insert (b64encode grant.capability_id) (entry_of grant) [] }

grant_verifies :
    verify_capability_grant sample trusting_crypto 5 issuer (codes "relay") (replicate 32 3) grant
    ≡ ok tt
unfolding verify_capability_grant eqb
grant_verifies = refl

grant_registers :
    register sample trusting_crypto 5 issuer (codes "relay") (replicate 32 3) grant registry
    ≡ ok holding
unfolding register verify_capability_grant eqb lookup
grant_registers = refl

rollback_refused_example :
    register sample trusting_crypto 5 issuer (codes "relay") (replicate 32 3) old_grant holding
    ≢ ok registry
rollback_refused_example =
    rollback_refused sample trusting_crypto 5 5 issuer (codes "relay") (replicate 32 3) grant
      old_grant registry holding holding registry grant_registers Nonces.here refl (omega arith)

registered_seven : is_registered sample trusting_crypto 7 grant holding ≡ ok true
registered_seven =
    register-is_registered sample trusting_crypto 5 7 issuer (codes "relay") (replicate 32 3) grant
      registry holding grant_registers

is_registered-revoke_with_overlap_example :
    is_registered sample trusting_crypto 20 grant
      (revoke_with_overlap 10 (some 50) grant.capability_id holding)
    ≡ ok (ltb 20 (10 + 50))
is_registered-revoke_with_overlap_example =
    is_registered-revoke_with_overlap sample trusting_crypto 10 7 20 50 grant holding
      registered_seven

supersede_revives_example :
    is_registered sample trusting_crypto 30 grant (
      revoke_with_overlap 20 none grant.capability_id
        (revoke_immediately 10 grant.capability_id holding))
    ≡ ok true
supersede_revives_example =
    supersede_revives sample trusting_crypto 10 7 20 30 grant holding registered_seven (omega arith)

revoked_grant_registers_again_example :
    (s₂ : CapabilityGrantStore) × (register sample trusting_crypto 5 issuer
        (codes "relay")
        (replicate 32 3)
        grant
        (revoke_immediately 5 grant.capability_id holding)
      ≡ ok s₂)
    × (is_registered sample trusting_crypto 5 grant s₂ ≡ ok true)
revoked_grant_registers_again_example =
    revoked_grant_registers_again sample trusting_crypto 5 5 5 issuer (codes "relay")
      (replicate 32 3) grant registry holding grant_registers grant_verifies

abbrev relay : RelayRuntime
relay = record {
  role = both;
  wrap_secret = none;
  name = codes "relay";
  require_tickets = false;
  require_capabilities = true;
  relay_issuance_public = issuer;
  relay_issuance_private = [];
  relay_tls_spki_sha256 = replicate 32 3;
}

-- The base64 of sixteen bytes 1.
abbrev nonce_text : Text
nonce_text = codes "AQEBAQEBAQEBAQEBAQEBAQ"

abbrev request : Request
request = record {
  grant_header = some (to_b64 sample grant);
  timestamp_header = some (codes "5");
  nonce_header = some nonce_text;
  signature_header = some (codes "AQ");
  method = codes "POST";
  path = codes "/v1/blobs";
  body = codes "{}";
}

abbrev noted : CapabilityGrantStore
noted = record holding { seen_nonces = insert nonce_text 5 [] }

grant_header_given : given request.grant_header ≡ some (to_b64 sample grant)
unfolding to_b64 to_bytes
grant_header_given =
    let (b, bs, e) = sample-dumps-cons (grant_value grant) in
    rw (e, null-b64encode b bs (subst IsBytes e (sample.dumps-IsBytes (grant_value grant)))) refl

request-IsAuthorized :
    IsAuthorized sample trusting_crypto 5 relay request (codes "store") holding noted
unfolding verify_capability_request b64decode consume_nonce lookup eqb grant_allows_permission
    read_digits padding
request-IsAuthorized = record {
  grant_b64 = to_b64 sample grant;
  timestamp_raw = codes "5";
  nonce_b64 = nonce_text;
  signature_b64 = codes "AQ";
  grant = grant;
  signature = 1 ∷ [];
  timestamp_ms = 5;
  nonce = replicate 16 1;
  timestamp_given = refl;
  nonce_given = refl;
  grant_given = grant_header_given;
  signature_given = refl;
  grant_read = from_b64-to_b64 sample grant;
  signature_read = refl;
  timestamp_read = sample-int_of (codes "5");
  nonce_read = refl;
  granted = grant_verifies;
  registered =
      register-is_registered sample trusting_crypto 5 5 issuer (codes "relay") (replicate 32 3)
        grant registry holding grant_registers;
  allowed = refl;
  signed = refl;
  consumed = refl;
}

request_passes :
    check_capability sample trusting_crypto 5 relay request (codes "store") holding ≡ ok noted
request_passes =
    (check_capability-IsAuthorized sample trusting_crypto 5 relay request (codes "store") holding
        noted refl refl).1
      request-IsAuthorized

check_capability_iff_example :
    (check_capability sample trusting_crypto 5 relay request (codes "store") holding ≡ ok noted)
    ↔ IsEntitled sample trusting_crypto 5 relay request (codes "store") holding noted
check_capability_iff_example =
    check_capability_iff sample trusting_crypto 5 relay request (codes "store") holding noted refl
      refl

-- The base64 of 32 bytes 1, and a blob for that tag.
abbrev payload : BlobStoreRequest
payload = record {
  mailbox_tag = codes "AQEBAQEBAQEBAQEBAQEBAQEBAQEBAQEBAQEBAQEBAQE";
  expires_at = 50;
  ciphertext = codes "Bw";
  ticket = none;
}

abbrev before : RelayState
before = record {
  store = empty 10 2;
  pairing_store = record { ttl_ms = 100; sessions = [] };
  capability_store = holding;
}

abbrev after : RelayState
after = record before {
  store = record {
    max_blob_size = 10;
    max_blobs_per_tag = 2;
    next_id = 2;
    rows = new_row 5 (replicate 32 1) 50 (7 ∷ []) none 1 ∷ [];
  };
  capability_store = noted;
}

store_blob_iff_example :
    (store_blob sample trusting_crypto 5 relay request payload before ≡ (ok tt, after))
    ↔ HasStored sample trusting_crypto 5 relay request payload before after
store_blob_iff_example =
    store_blob_iff sample trusting_crypto 5 relay request payload before after refl refl

-- The blob is stored.
blob_is_stored : store_blob sample trusting_crypto 5 relay request payload before ≡ (ok tt, after)
unfolding b64decode padding
blob_is_stored =
    (store_blob_iff sample trusting_crypto 5 relay request payload before after refl refl).1
      (record {
        tag = replicate 32 1;
        ciphertext = 7 ∷ [];
        role = inr refl;
        entitled =
            (check_capability_iff sample trusting_crypto 5 relay request (codes "store") holding
                noted refl refl).0
              request_passes;
        tag_read = refl;
        ciphertext_read = refl;
        tag_length = refl;
        fits = ground arith;
        lives = ground arith;
        lifetime = ground arith;
        room = ground arith;
        inserted = refl;
        pairing = refl;
      })

replay_refused_example :
    check_capability sample trusting_crypto 5 relay request (codes "fetch") noted ≢ ok registry
replay_refused_example =
    replay_refused sample trusting_crypto relay refl refl 5 5 request request (codes "store")
      (codes "fetch") holding noted noted registry request_passes Nonces.here refl refl

nonce_unpadded : length nonce_text % 4 ≢ 0
nonce_unpadded e = ground (arith, e)

nonce_unused : lookup (nonce_text ++ padding nonce_text) holding.seen_nonces ≡ none
unfolding lookup
nonce_unused = refl

padded_nonce_replays_example :
    (s₂ : CapabilityGrantStore) × (check_capability sample trusting_crypto 5 relay
        (record request { nonce_header = some (nonce_text ++ padding nonce_text) })
        (codes "store")
        noted
      ≡ ok s₂)
padded_nonce_replays_example =
    padded_nonce_replays sample trusting_crypto relay refl refl 5 request (codes "store") nonce_text
      holding noted refl nonce_unpadded nonce_unused request_passes

abbrev issuing_relay : RelayRuntime
issuing_relay = record relay { relay_issuance_private = issuer }

abbrev ticket : RelayTicket
ticket = record {
  issuer_signing_public = [];
  relay_name = codes "relay";
  permissions = codes "store" ∷ [];
  contact_id = [];
  expires_at = 1000;
  signature = [];
}

-- The id is that of `grant`, the salt is 16 bytes 1 too, and the key is one byte.
abbrev issue_request : CapabilityIssueRequest
issue_request = record {
  auth_public = codes "AQ";
  capability_id = nonce_text;
  capability_generation = 1;
  issuance_salt = nonce_text;
  permissions = codes "post" ∷ [];
  ticket = some (Ticket.to_b64 sample ticket);
  supersedes_capability_id = none;
}

abbrev unsigned_issue : CapabilityGrant
unsigned_issue = record {
  capability_id = replicate 16 1;
  capability_generation = 1;
  relay_name = codes "relay";
  relay_tls_spki_sha256 = replicate 32 3;
  permissions = codes "post" ∷ [];
  expires_at = 5 + default_capability_ttl_ms;
  auth_public = 1 ∷ [];
  relay_signature = [];
}

abbrev issued : CapabilityGrant
issued = record unsigned_issue {
  relay_signature = trusting_crypto.ed25519_sign issuer (unsigned_payload sample unsigned_issue);
}

ticket_passes :
    check_bootstrap_ticket sample trusting_crypto 5 issuing_relay
      (some (Ticket.to_b64 sample ticket))
    ≡ ok tt
unfolding check_bootstrap_ticket try_permissions verify_relay_ticket eqb contains
ticket_passes = rw (RoundTrip.from_b64-to_b64 sample ticket) refl

abbrev rotation : CapabilityIssueRequest
rotation = record issue_request { supersedes_capability_id = some nonce_text }

rotation_signed : signed_grant sample trusting_crypto 5 issuing_relay rotation ≡ ok issued
unfolding signed_grant issue_capability_grant b64decode padding
rotation_signed = rw ticket_passes refl

id_read : b64decode nonce_text ≡ some grant.capability_id
unfolding b64decode padding
id_read = refl

rollback :
    register sample trusting_crypto 5 issuer
      (codes "relay")
      (replicate 32 3)
      issued
      (revoke_with_overlap 5 none grant.capability_id holding)
    ≡ err generation_rollback
unfolding register verify_capability_grant check_generation revoke_with_overlap revoke_entry lookup
    insert eqb b64encode
rollback = rw (from_b64-to_b64 sample grant) refl

failed_rotation_revokes_example :
    (s' : CapabilityGrantStore) × (issue_capability sample trusting_crypto 5 issuing_relay rotation
        holding
      ≡ (err 400, s'))
    × (is_registered sample trusting_crypto 200 grant s' ≡ ok false)
failed_rotation_revokes_example =
    failed_rotation_revokes sample trusting_crypto 5 7 200 issuing_relay rotation holding issued
      grant nonce_text generation_rollback rotation_signed refl id_read registered_seven rollback
      (omega arith)
