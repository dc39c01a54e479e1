-- ===== src/Relay/App/Tests.antt =====
-- relay/app.py: examples.
use mathlib.Core.List.Memᴰ.{head}
use yakr.Prelude.{
  ◌≡◌, refl, arith, false, none, some, List, [], ◌∷◌, map, ok, err, replicate, count, Bytes, Text,
  codes, IsBytes, eqb, lookup,
}
use yakr.Base64.{b64encode, b64decode, padding}
use yakr.Codec.Sample.Laws.{sample}
use yakr.Crypto.{toy_crypto, toy_crypto-IsAead}
use yakr.Message.{OuterBlob}
use yakr.Onion.{build_onion_packet, ingest_url}
use yakr.Pairing.{
  PairingRequest, PairingResponse, request_to_bytes, request_from_bytes, response_to_bytes,
  response_from_bytes,
}
use yakr.Relay.BlobStore
use yakr.Relay.BlobStore.{BlobStore, StoredBlob, empty, new_row, stored_blob, fetch}
use yakr.Relay.PairingStore.{PairingStore, Session}
use yakr.Relay.Auth.{RelayRuntime, Request, entry, both, authorize_request, check_ticket}
use yakr.Relay.App.{RelayState}
use yakr.Relay.App.Blobs.{
  BlobStoreRequest, FetchRequest, BlobResponse, same_key, is_seen, add_blobs, add_tags,
  reverse_onto, list_blobs, store_blob, fetch_blobs_post,
}
use yakr.Relay.App.Blobs.Listing.{response_key}
use yakr.Relay.App.Blobs.Access.{IsStored, IsStored-store_blob}
use yakr.Relay.App.Blobs.Lasting.{Reach, here, next, wait, fetched, stored_blob_is_fetched}
use yakr.Relay.App.Forwarding.{relay_packet}
use yakr.Relay.App.Forwarding.Delivery.{post_to, onion_packet_arrives}
use yakr.Relay.App.Pairing.Rendezvous.{rendezvous, rendezvous_delivers}

abbrev open_relay : RelayRuntime
open_relay = record {
  role = both;
  wrap_secret = some (5 ∷ []);
  name = codes "relay";
  require_tickets = false;
  require_capabilities = false;
  relay_issuance_public = [];
  relay_issuance_private = [];
  relay_tls_spki_sha256 = [];
}

abbrev bare_request : Request
bare_request = record {
  grant_header = none;
  timestamp_header = none;
  nonce_header = none;
  signature_header = none;
  method = codes "POST";
  path = codes "/v1/blobs";
  body = [];
}

-- The base64 of 32 bytes 1.
abbrev tag_text : Text
tag_text = codes "AQEBAQEBAQEBAQEBAQEBAQEBAQEBAQEBAQEBAQEBAQE"

abbrev payload : BlobStoreRequest
payload = record { mailbox_tag = tag_text; expires_at = 50; ciphertext = codes "Bw"; ticket = none }

abbrev before : RelayState
before = record {
  store = empty 10 2;
  pairing_store = record { ttl_ms = 100; sessions = [] };
  capability_store = record { overlap_window_ms = 100; active = []; seen_nonces = [] };
}

abbrev after : RelayState
after = record before {
  store = record {
    max_blob_size = 10;
    max_blobs_per_tag = 2;
    next_id = 2;
    rows = new_row 3 (replicate 32 1) 50 (7 ∷ []) none 1 ∷ [];
  };
}

tag_read : b64decode tag_text ≡ some (replicate 32 1)
unfolding b64decode padding
tag_read = refl

ciphertext_read : b64decode (codes "Bw") ≡ some (7 ∷ [])
unfolding b64decode padding
ciphertext_read = refl

anyone_authorized :
    authorize_request sample toy_crypto 3 open_relay bare_request
      (codes "store")
      none
      before.capability_store
    ≡ ok after.capability_store
unfolding authorize_request check_ticket
anyone_authorized = refl

row_stored : BlobStore.store 3 (replicate 32 1) 50 (7 ∷ []) none before.store ≡ ok after.store
unfolding BlobStore.store
row_stored = refl

is_stored : IsStored sample toy_crypto 3 open_relay bare_request payload before after
is_stored = record {
  tag = replicate 32 1;
  ciphertext = 7 ∷ [];
  role = refl;
  authorized = anyone_authorized;
  tag_read = tag_read;
  ciphertext_read = ciphertext_read;
  stored = row_stored;
  pairing = refl;
}

blob_stored : store_blob sample toy_crypto 3 open_relay bare_request payload before ≡ (ok tt, after)
blob_stored =
    IsStored-store_blob sample toy_crypto 3 open_relay bare_request payload before after is_stored

abbrev entry_relay : RelayRuntime
entry_relay = record open_relay { role = entry }

entry_refuses :
    store_blob sample toy_crypto 3 entry_relay bare_request payload before ≡ (err 405, before)
unfolding store_blob
entry_refuses = refl

abbrev asking : FetchRequest
asking = record { mailbox_tags = tag_text ∷ tag_text ∷ []; ticket = none }

abbrev listed : List BlobResponse
listed =
    record {
      mailbox_tag = b64encode (replicate 32 1);
      expires_at = 50;
      ciphertext = b64encode (7 ∷ []);
      stored_at = 3;
    }
    ∷ []

just_fetched :
    fetch_blobs_post sample toy_crypto 4 open_relay bare_request asking after ≡ (ok listed, after)
unfolding fetch_blobs_post authorize_request check_ticket list_blobs add_tags add_blobs is_seen
    same_key reverse_onto b64decode padding b64encode fetch eqb BlobStore.order_by_stored_at
    BlobStore.is_live BlobStore.insert_by_stored_at
just_fetched = refl

-- Another fetch has had the blob.
fetched_before : Reach sample toy_crypto 3 after 4 after
fetched_before =
    next (next here (wait 1))
      (fetched open_relay bare_request asking (ok listed) after just_fetched)

stored_blob_is_fetched_example :
    count (same_key (b64encode (7 ∷ []), 3)) (map response_key listed) ≡ 1
stored_blob_is_fetched_example =
    stored_blob_is_fetched sample toy_crypto 3 4 open_relay open_relay bare_request bare_request
      payload asking (7 ∷ []) listed before after after after blob_stored ciphertext_read
      fetched_before (omega arith) (head refl) just_fetched

abbrev row : BlobStore.Row
row = new_row 3 (replicate 32 1) 50 (7 ∷ []) none 1

abbrev outer : OuterBlob
outer = record { version = 1; mailbox_tag = replicate 32 1; expires_at = 50; ciphertext = 7 ∷ [] }

ones_written : IsBytes (replicate 24 1)
ones_written = ground arith

onion_packet_arrives_example :
    relay_packet sample toy_crypto
      (post_to sample toy_crypto 3 (codes "http://m") open_relay)
      3
      open_relay
      (record {
        packet = b64encode (
            build_onion_packet sample toy_crypto
              (replicate 24 1)
              (replicate 24 1)
              (5 ∷ [])
              (5 ∷ [])
              (codes "http://m")
              outer);
        ticket = none;
      })
      before
    ≡ (ok (ingest_url (codes "http://m")), record before { store = after.store })
onion_packet_arrives_example =
    onion_packet_arrives sample toy_crypto toy_crypto-IsAead 3 open_relay open_relay
      (codes "http://m") (replicate 24 1) (replicate 24 1) (5 ∷ []) (5 ∷ []) outer none before
      after.store refl refl refl refl refl refl refl refl ones_written row_stored

abbrev joining : PairingRequest
joining = record {
  invite_secret = replicate 32 7;
  joiner_name = codes "bob";
  joiner_signing_public = replicate 32 1;
  joiner_agreement_public = replicate 32 2;
  joiner_ephemeral_public = replicate 32 3;
  joiner_ratchet_public = replicate 32 4;
  joiner_profile = [];
  kem_ciphertext = [];
}

abbrev answering : PairingResponse
answering = record {
  inviter_ephemeral_public = replicate 32 5;
  inviter_ratchet_public = replicate 32 6;
  transcript_hash = replicate 32 8;
  inviter_profile = [];
}

secret_written : IsBytes (replicate 32 7)
secret_written = ground arith

no_session :
    (row : Session)
    → lookup (b64encode (toy_crypto.sha256 joining.invite_secret)) before.pairing_store.sessions
      ≡ some row
    → row.consumed ≡ false
unfolding lookup
no_session row e = ground (arith, e)

rendezvous_delivers_example :
    (pending : Text) × (answer : Text) × (request : Bytes) × (response : Bytes)
    × (s' : PairingStore) × (rendezvous sample toy_crypto 3 4
          (b64encode (replicate 32 7))
          (b64encode (request_to_bytes sample joining))
          (b64encode (response_to_bytes sample answering))
          before.pairing_store
        ≡ ok (pending, answer, s'))
    × (b64decode pending ≡ some request)
    × (request_from_bytes sample request ≡ ok joining)
    × (b64decode answer ≡ some response)
    × (response_from_bytes sample response ≡ ok answering)
rendezvous_delivers_example =
    rendezvous_delivers sample toy_crypto 3 4 joining answering before.pairing_store refl
      secret_written no_session
