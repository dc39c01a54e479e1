-- ===== src/Lib.antt =====
-- A model of Yakr, a messenger whose relays keep sealed blobs for absent receivers, with the
-- properties that make it correct. The sources are the Python packages under packages/.
--
-- The relay, packages/yakr-relay/src/yakr_relay:
--   Relay/BlobStore.antt       store.py: the table of blobs with `store`, `consume`, `fetch` and
--                              `sweep_expired`.
--   Relay/CapabilityStore.antt capability_store.py: the registered grants and the used nonces.
--   Relay/PairingStore.antt    pairing_store.py: one request and one response for each invite.
--   Relay/Auth.antt            app.py: `_check_ticket`, `_check_bootstrap_ticket`,
--                              `_check_capability` and `_authorize_request`.
--   Relay/App.antt             app.py: the endpoints, in App/Blobs, App/Forwarding, App/Pairing
--                              and App/Capabilities, over the three stores.
-- The core, packages/yakr-core/src/yakr_core:
--   Capability.antt, Ticket.antt  capability_grant.py and relay_ticket.py: what a relay checks,
--                              and in Capability/Client the signed requests of a client.
--   Ratchet.antt               ratchet.py: the double ratchet of a contact, `encrypt` and
--                              `decrypt`; State and Chains hold its dict and its keys.
--   Session.antt               session.py: the receiving side, `decrypt_outer` and
--                              `decrypt_inbound`, over the ratchet, the padding and the JSON;
--                              Session/Sending has the four calls that encrypt.
--   Message.antt               message.py: the outer blob and the inner message with their JSON.
--   Mailbox.antt               mailbox.py, and of privacy.py the tags that a client asks for.
--   DeliveryProfile.antt       delivery_profile.py: the signed profiles of peers, with
--                              their payload in Payload and their replacement in Updates.
--   ProfileAck.antt            profile_ack.py: which profile a peer has acknowledged.
--   Contact.antt               identity.py: a contact and the dict that it is saved as;
--                              Names.antt has the lists of names in one text.
--   LocalStore.antt            store.py: the client's tables, in Outbound, Inbound, Contacts
--                              and Notices over the SQL of Tables; and receipt_apply.py.
--   Presence.antt              presence.py: where the relays of contacts can be reached.
--   Onion.antt                 onion.py: packets by two relays.
--   Invite.antt                invite.py: the signed invites that a pairing starts from, as
--                              bundles and as URLs.
--   Pairing.antt               pairing.py: the request and the response of a pairing.
--   Privacy.antt               privacy.py: the padding to size classes.
--   HybridPq.antt              hybrid_pq.py: the hybrid master secret, and when to re-key.
--   Ephemeral.antt             ephemeral.py: lifetimes.
--   Base64.antt, Crypto.antt   `_b64encode` and `_b64decode` of store.py, and crypto.py.
-- The command line, packages/yakr-cli/src/yakr_cli:
--   Receipts.antt              receipt_cmds.py: a receipt is sent, or queued and flushed later.
--   Fetch.antt                 fetch_cmds.py: the loop of a fetch over the blobs of its tags,
--                              which joins the session, the profiles, the presence, the
--                              receipts and the store.
-- Prelude.antt passes on the library names and has the helpers; Codec.antt stands for cbor2, and
-- Sample.antt has data that the modules Tests share.
--
-- Numbers are natural numbers: Python's integers are unbounded, and those of the program are not
-- negative. Where the source subtracts or compares a difference, the two truncated differences
-- are written out. Bytes and texts are lists of numbers, the bytes below 256. The clock is an
-- argument of each call, read once; random bytes (nonces, key pairs) are arguments too. A call
-- that raises returns an error of its component's type; where the state it leaves can differ, as
-- in the ratchet, the endpoints and the fetch, it is returned with the error. An error of an
-- endpoint is the status of its reply. A table is the list of its rows by rising id, a dict an
-- association list, and the locks make each call one step. A transaction is its statements in
-- order, with an argument that says which of them raise, and one for whether the contact's file
-- can be written after the commit. A message of a peer with a negative `seq` or `created_at` is
-- malformed in the model, which keeps the contact as the decryption left it; `from_bytes` accepts
-- it, and `decrypt_outer` then refuses it by its number and rolls back. `consume_nonce` drops the nonces that
-- are too old before it refuses one; the model drops them at the next call, which looks at them
-- no earlier. A snapshot of the ratchet shares its dict `skipped_keys` with the state, and so
-- does the model.
--
-- Recursion is structural, but for three loops on fuel: `decimal_digits` on more than the number
-- it writes, which `read_digits` confirms is enough; the rounds of a fetch on the number of
-- blobs, which is enough because a round that is followed by another has taken one; and the
-- example codec, whose reader takes the length of its input.
--
-- Parameters: `Codec` is cbor2 and Python's conversions, with the laws that loading undoes
-- dumping and that a conversion keeps a value of its own type; Codec/Sample shows a codec that
-- meets them. `Json` is Python's JSON, with the same laws in `IsJson` and `IsPresenceJson`, and
-- `IsPython` has that `int` undoes `str`. `Crypto` is the cryptographic libraries, HMAC and
-- ML-KEM among them; `IsAead` says that the cipher opens what it sealed, `IsSignature` that a
-- signature verifies. `PqSigner` is ML-DSA, of which `IsHybridReady` says that a key pair works.
-- `httpx.post` is an argument of `relay_packet`, and the blobs that network.py fetched are one of
-- the fetch. `deliver_encrypted` of network.py is an argument of the receipts: it delivers, fails
-- or lets another exception escape, and `IsRefreshing` says that it changes at most the contact's
-- delivery profile, which it saves.
--
-- Not modelled: SQLite and the files, FastAPI and its validation of requests, TLS, the rest of
-- the command line, the mobile client, and of the core the end of a pairing, the choice of a
-- route in routing.py and network.py, the client's choice of tickets and capabilities, the file
-- of the identity, and the metrics, which only count.
pub mod Prelude
pub mod ProfileAck
pub mod Base64
pub mod Contact
pub mod DeliveryProfile
pub mod Ephemeral
pub mod Receipts
pub mod Relay
pub mod Codec
pub mod Crypto
pub mod Capability
pub mod Ticket
pub mod Fetch
pub mod HybridPq
pub mod Invite
pub mod Message
pub mod LocalStore
pub mod Mailbox
pub mod Names
pub mod Onion
pub mod Pairing
pub mod Ratchet
pub mod Privacy
pub mod Presence
pub mod Sample
pub mod Session
