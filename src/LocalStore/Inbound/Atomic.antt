-- ===== src/LocalStore/Inbound/Atomic.antt =====
-- core/store.py `atomic_commit_receive_text`: all of it or nothing.
use yakr.Prelude.{
  ℕ, ◌≡◌, ◌≢◌, false, Option, none, some, Result, ok, err, Bytes, Text, eqb, first, lookup, ◌&&◌,
  ◌==◌,
}
use yakr.Codec.{Codec}
use yakr.Contact.{Contact, contact_to_dict}
use yakr.Crypto.{Crypto}
use yakr.Message.{Json, InnerMessage, inner_to_bytes}
use yakr.Session.Sending.{Sender, wrap_local_ciphertext}
use yakr.LocalStore.Tables.{found_or}
use yakr.LocalStore.{
  InboundRow, ReceiptRow, Database, FileLocalStore, StoreFault, injected_fault, sqlite_error,
  file_error,
}
use yakr.LocalStore.Inbound.{is_inbound, is_queued}

-- A text as it is kept, sealed under the device's key.
abbrev kept_text : Json → Crypto → ℕ → Bytes → Sender → Text → InnerMessage → InboundRow
kept_text j k now nonce own name inner = record {
  contact_name = name;
  seq = inner.seq;
  valid_until = inner.valid_until;
  received_at = now;
  local_ciphertext = wrap_local_ciphertext k nonce own (inner_to_bytes j inner);
}

-- A receipt that is to be sent.
abbrev due_receipt : ℕ → Text → Text → Option Text → ReceiptRow
due_receipt now name id route = record {
  contact_name = name;
  delivered_id = id;
  route = route;
  created_at = now;
}

-- The receipts that wait: the one that is due, if any, and the others as they were.
abbrev IsQueued : ℕ → Text → Option Text → Option Text → Database → Database → Type 0
IsQueued now name none route before db = db.pending_receipts ≡ before.pending_receipts
IsQueued now name (some id) route before db =
    (first (is_queued name id) db.pending_receipts ≡ some (due_receipt now name id route))
    × ((other other_id : Text)
        → eqb name other && eqb id other_id ≡ false
        → first (is_queued other other_id) db.pending_receipts
          ≡ first (is_queued other other_id) before.pending_receipts)

-- The tables that have nothing to do with a text that was received.
pub record IsElsewhereSame (before db : Database) : Type 0 where
  pub outbound : db.outbound_pending ≡ before.outbound_pending
  pub sent : db.sent_messages ≡ before.sent_messages
  pub presence : db.relay_presence ≡ before.relay_presence
  pub acks : db.profile_ack_pending ≡ before.profile_ack_pending
  pub grants : db.capability_grants ≡ before.capability_grants

module _ (c : Codec) (j : Json) (k : Crypto) where
  -- What a committed transaction leaves in the database.
  pub record IsFiled (now : ℕ) (nonce : Bytes) (own : Sender) (x : Contact) (inner : InnerMessage)
      (id route : Option Text) (s s' : FileLocalStore) : Type 0 where
    pub contact : lookup x.name s'.db.contacts ≡ some (contact_to_dict c x)
    pub other_contacts :
        (other : Text) → other ≢ x.name → lookup other s'.db.contacts ≡ lookup other s.db.contacts
    pub message :
        first (is_inbound x.name inner.seq) s'.db.inbound_messages
        ≡ some (
            found_or
              (kept_text j k now nonce own x.name inner)
              (first (is_inbound x.name inner.seq) s.db.inbound_messages))
    pub other_messages :
        (other : Text) (seq : ℕ)
        → eqb x.name other && inner.seq == seq ≡ false
        → first (is_inbound other seq) s'.db.inbound_messages
          ≡ first (is_inbound other seq) s.db.inbound_messages
    pub receipt : IsQueued now x.name id route s.db s'.db
    pub elsewhere : IsElsewhereSame s.db s'.db

  abbrev pub CommitOutcome :
      ℕ
      → Bytes
      → Sender
      → Contact
      → InnerMessage
      → Option Text
      → Option Text
      → FileLocalStore
      → Result StoreFault (Unit {0}) × FileLocalStore
      → Type 0
  CommitOutcome now nonce own x inner id route s (ok u, s') =
      IsFiled now nonce own x inner id route s s'
      × (lookup x.name s'.contact_files ≡ some (contact_to_dict c x))
  CommitOutcome now nonce own x inner id route s (err file_error, s') =
      IsFiled now nonce own x inner id route s s' × (s'.contact_files ≡ s.contact_files)
  CommitOutcome now nonce own x inner id route s (err injected_fault, s') = s' ≡ s
  CommitOutcome now nonce own x inner id route s (err sqlite_error, s') = s' ≡ s
