-- ===== src/LocalStore.antt =====
-- packages/yakr-core/src/yakr_core/store.py: what a client keeps, the tables of messages.db and the JSON files of
-- its contacts. A call reads the clock once; the lock of SQLite makes a transaction one step.
pub mod Tables
pub mod Outbound
pub mod Inbound
pub mod Contacts
pub mod Notices
mod Tests
use yakr.Prelude.{
  ℕ, Bool, true, false, Option, none, some, List, [], ◌∷◌, Result, ok, err, Bytes, Text, Dict, eqb,
  insert, if◌then◌else◌,
}
use yakr.Codec.{Codec}
use yakr.Contact.{Contact, SavedContact, contact_to_dict}
use yakr.DeliveryProfile.Payload.{DeliveryProfile}

pub record InboundRow : Type 0 where
  pub contact_name : Text
  pub seq : ℕ
  pub valid_until : ℕ
  pub received_at : ℕ
  pub local_ciphertext : Bytes

-- The columns of the blob are NULL for a message that is saved without it.
pub record OutboundRow : Type 0 where
  pub contact_name : Text
  pub msg_id : Text
  pub seq : ℕ
  pub body : Text
  pub created_at : ℕ
  pub valid_until : ℕ
  pub outer_ciphertext_b64 : Option Text
  pub mailbox_tag_b64 : Option Text
  pub outer_expires_at : Option ℕ

pub record SentRow : Type 0 where
  pub contact_name : Text
  pub seq : ℕ
  pub body : Text
  pub created_at : ℕ
  pub valid_until : ℕ

pub record PresenceRow : Type 0 where
  pub operator_name : Text
  pub reachable_url : Text
  pub relay_active : Bool
  pub valid_until : ℕ
  pub source_contact : Text
  pub updated_at : ℕ

pub record ReceiptRow : Type 0 where
  pub contact_name : Text
  pub delivered_id : Text
  pub route : Option Text
  pub created_at : ℕ

-- `relay_names` is one text, with commas.
pub record AckRow : Type 0 where
  pub contact_name : Text
  pub msg_id : Text
  pub profile_version : ℕ
  pub relay_names : Text

pub record GrantRow : Type 0 where
  pub relay_name : Text
  pub capability_generation : ℕ
  pub grant_b64 : Text
  pub auth_private_b64 : Text
  pub issuance_salt_b64 : Text
  pub relay_tls_spki_sha256 : Bytes
  pub expires_at : ℕ

-- `contacts` is keyed by the name.
pub record Database : Type 0 where
  pub inbound_messages : List InboundRow
  pub outbound_pending : List OutboundRow
  pub sent_messages : List SentRow
  pub contacts : Dict SavedContact
  pub relay_presence : List PresenceRow
  pub pending_receipts : List ReceiptRow
  pub profile_ack_pending : List AckRow
  pub capability_grants : List GrantRow

abbrev pub empty_database : Database
empty_database = record {
  inbound_messages = [];
  outbound_pending = [];
  sent_messages = [];
  contacts = [];
  relay_presence = [];
  pending_receipts = [];
  profile_ack_pending = [];
  capability_grants = [];
}

-- `contact_files` is the directory of JSON files by their stems.
pub record FileLocalStore : Type 0 where
  pub test_fault : Option Text
  pub db : Database
  pub contact_files : Dict SavedContact
  pub local_profile : Option Text

-- `sqlite3.OperationalError`, injected or SQLite's own, and `OSError` of the contact's file.
pub data StoreFault : Type 0 where
  injected_fault sqlite_error file_error : StoreFault

-- `self.test_fault == name`
abbrev pub is_fault : Option Text → Text → Bool
is_fault none name = false
is_fault (some t) name = eqb t name

-- One statement of a transaction: `fails` tells which of them raise.
abbrev pub execute : (ℕ → Bool) → ℕ → Database → Result StoreFault Database
execute fails n db = if fails n then err sqlite_error else ok db

module _ (c : Codec) where
  -- `_save_contact_conn`
  abbrev pub save_contact_conn : Contact → Database → Database
  save_contact_conn x db = record db { contacts = insert x.name (contact_to_dict c x) db.contacts }

  -- `_sync_contact_json`
  abbrev pub sync_contact_json : Contact → FileLocalStore → FileLocalStore
  sync_contact_json x s = record s {
    contact_files = insert x.name (contact_to_dict c x) s.contact_files;
  }

  -- The end of a transaction: a rollback leaves the database; after a commit the contact's file
  -- is written, and if that raises, the database stays committed.
  unfoldable pub finish :
      Bool
      → Contact
      → FileLocalStore
      → Result StoreFault Database
      → Result StoreFault (Unit {0}) × FileLocalStore
  finish unwritable x s (err e) = (err e, s)
  finish unwritable x s (ok db) =
      if unwritable
      then (err file_error, record s { db = db })
      else (ok tt, sync_contact_json x (record s { db = db }))
