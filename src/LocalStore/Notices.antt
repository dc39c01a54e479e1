-- ===== src/LocalStore/Notices.antt =====
-- core/store.py: the receipts that are due, the acknowledgements of profiles that are awaited (with
-- core/profile_ack.py `record_profile_ack_on_receipt`), the presence of relays, and the client's grants.
pub mod Acks
use yakr.Prelude.{
  ℕ, ◌+◌, Bool, true, false, not, ◌&&◌, Option, none, some, List, [], ◌∷◌, map, ltb, ◌==◌,
  if◌then◌else◌, count, select, first, Bytes, Text, eqb, rstrip,
}
use yakr.Base64.{b64encode}
use yakr.Capability.Payload.{CapabilityGrant, to_b64}
use yakr.Codec.{Codec}
use yakr.Contact.{Contact, text_ltb}
use yakr.Names.{join_names, split_names}
use yakr.Presence.Payload.{PresencePayload}
use yakr.ProfileAck.{apply_peer_profile_ack_pending}
use yakr.LocalStore.Tables.{insert_or_replace, order_by, lacks}
use yakr.LocalStore.{PresenceRow, ReceiptRow, AckRow, GrantRow, Database, FileLocalStore}
use yakr.LocalStore.Inbound.{is_queued, receipt_row, put_receipt}

unfoldable pub save_pending_receipt :
    ℕ → Text → Text → Option Text → FileLocalStore → FileLocalStore
save_pending_receipt now name id route s = record s {
  db = put_receipt (receipt_row now name id route) s.db;
}

abbrev of_contact : Option Text → ReceiptRow → Bool
of_contact none r = true
of_contact (some name) r = eqb r.contact_name name

abbrev earlier : ReceiptRow → ReceiptRow → Bool
earlier r x = ltb r.created_at x.created_at

abbrev receipt_of : ReceiptRow → Text × Text × Option Text
receipt_of r = (r.contact_name, r.delivered_id, r.route)

unfoldable pub list_pending_receipts :
    Option Text → FileLocalStore → List (Text × Text × Option Text)
list_pending_receipts name s =
    map receipt_of (order_by earlier (select (of_contact name) s.db.pending_receipts))

unfoldable pub delete_pending_receipt : Text → Text → FileLocalStore → Bool × FileLocalStore
delete_pending_receipt name id s = (
  ltb 0 (count (is_queued name id) s.db.pending_receipts),
  record s {
    db = record s.db {
      pending_receipts = select (lacks (is_queued name id)) s.db.pending_receipts;
    };
  },
)

-- The primary key of `profile_ack_pending`.
unfoldable pub is_ack : Text → Text → AckRow → Bool
is_ack name id r = eqb r.contact_name name && eqb r.msg_id id

unfoldable pub save_profile_ack_pending :
    Text → Text → ℕ → List Text → FileLocalStore → FileLocalStore
save_profile_ack_pending name id version names s = record s {
  db = record s.db {
    profile_ack_pending =
        insert_or_replace (is_ack name id)
          (record {
            contact_name = name;
            msg_id = id;
            profile_version = version;
            relay_names = join_names names;
          })
          s.db.profile_ack_pending;
  };
}

unfoldable pub take_profile_ack_pending :
    Text → Text → FileLocalStore → Option (ℕ × List Text) × FileLocalStore
take_profile_ack_pending name id s = elim (first (is_ack name id) s.db.profile_ack_pending) [
  | none ↦ (none, s)
  | some r ↦ (
    some (r.profile_version, split_names r.relay_names),
    record s {
      db = record s.db {
        profile_ack_pending = select (lacks (is_ack name id)) s.db.profile_ack_pending;
      };
    },
  )
]

-- What was taken is applied.
abbrev pub acked : Contact → Option (ℕ × List Text) × FileLocalStore → Contact × FileLocalStore
acked x (none, s) = (x, s)
acked x (some (version, names), s) = (apply_peer_profile_ack_pending version names x, s)

-- core/profile_ack.py
unfoldable pub record_profile_ack_on_receipt :
    Text → Text → Contact → FileLocalStore → Contact × FileLocalStore
record_profile_ack_on_receipt name id x s = acked x (take_profile_ack_pending name id s)

abbrev pub is_operator : Text → PresenceRow → Bool
is_operator name r = eqb r.operator_name name

unfoldable pub save_presence : ℕ → PresencePayload → Text → FileLocalStore → FileLocalStore
save_presence now p source_contact s = record s {
  db = record s.db {
    relay_presence =
        insert_or_replace (is_operator p.operator_name)
          (record {
            operator_name = p.operator_name;
            reachable_url = rstrip b'/' p.reachable_url;
            relay_active = p.relay_active;
            valid_until = p.valid_until;
            source_contact = source_contact;
            updated_at = now;
          })
          s.db.relay_presence;
  };
}

abbrev pub presence_of : PresenceRow → PresencePayload
presence_of r = record {
  operator_name = r.operator_name;
  reachable_url = r.reachable_url;
  relay_active = r.relay_active;
  valid_until = r.valid_until;
}

unfoldable pub load_presence : Text → FileLocalStore → Option PresencePayload
load_presence name s = elim (first (is_operator name) s.db.relay_presence) [
  | none ↦ none
  | some r ↦ some (presence_of r)
]

abbrev before_by_name : PresenceRow → PresenceRow → Bool
before_by_name r x = text_ltb r.operator_name x.operator_name

unfoldable pub list_presences : FileLocalStore → List PresencePayload
list_presences s = map presence_of (order_by before_by_name s.db.relay_presence)

-- The primary key of `capability_grants`.
abbrev is_grant : Text → ℕ → GrantRow → Bool
is_grant name generation r = eqb r.relay_name name && r.capability_generation == generation

abbrev newer : GrantRow → GrantRow → Bool
newer r x = ltb x.capability_generation r.capability_generation

-- The row that the query returns, of which the caller takes the columns.
unfoldable pub load_capability_grant : Text → FileLocalStore → Option GrantRow
load_capability_grant name s =
    first (λ r. true) (order_by newer (select (λ r. eqb r.relay_name name) s.db.capability_grants))

-- `auth_private` is the raw key.
unfoldable pub save_capability_grant :
    Codec → Text → CapabilityGrant → Bytes → Bytes → Bytes → FileLocalStore → FileLocalStore
save_capability_grant c name grant auth_private salt pin s = record s {
  db = record s.db {
    capability_grants =
        insert_or_replace (is_grant name grant.capability_generation)
          (record {
            relay_name = name;
            capability_generation = grant.capability_generation;
            grant_b64 = to_b64 c grant;
            auth_private_b64 = b64encode auth_private;
            issuance_salt_b64 = b64encode salt;
            relay_tls_spki_sha256 = pin;
            expires_at = grant.expires_at;
          })
          s.db.capability_grants;
  };
}
