-- ===== src/Receipts/Queueing.antt =====
-- receipt_cmds.py `send_delivery_receipt`: a receipt is sent or queued, and the ratchet stays as it was.
use yakr.Prelude.{
  ◌+◌, ◌≡◌, true, false, Bool, Option, none, some, Result, ok, err, first, Text, lookup,
}
use yakr.Codec.{Codec}
use yakr.Contact.{Contact, contact_to_dict}
use yakr.Crypto.{Crypto}
use yakr.DeliveryProfile.Payload.{DeliveryProfile}
use yakr.Session.{rolled_back}
use yakr.Session.Sending.{SendError, EncryptedMessage}
use yakr.LocalStore.{
  FileLocalStore, StoreFault, injected_fault, sqlite_error, file_error, save_contact_conn,
  sync_contact_json,
}
use yakr.LocalStore.Inbound.{is_queued, receipt_row}
use yakr.Receipts.{
  ReceiptError, unknown_contact, unreadable_contact, not_encrypted, not_persisted, delivery_escaped,
  Surroundings,
}

abbrev counted : Contact → Contact
counted x = record x { next_send_seq = x.next_send_seq + 1 }

-- A call that succeeded counted its message, and but for the ratchet it did nothing else.
abbrev Counts : Contact → Result SendError EncryptedMessage × Contact → Type 0
Counts x (err e, x') = Unit
Counts x (ok m, x') = rolled_back x.ratchet x' ≡ counted x

module _ (c : Codec) where
  -- The contact's row.
  abbrev IsSaved : Contact → FileLocalStore → Type 0
  IsSaved x s = lookup x.name s.db.contacts ≡ some (contact_to_dict c x)

  abbrev Persisted :
      Contact → FileLocalStore → Result StoreFault (Unit {0}) × FileLocalStore → Type 0
  Persisted x s (ok u, s') =
      s' ≡ sync_contact_json c x (record s { db = save_contact_conn c x s.db })
  Persisted x s (err file_error, s') = s' ≡ record s { db = save_contact_conn c x s.db }
  Persisted x s (err injected_fault, s') = s' ≡ s
  Persisted x s (err sqlite_error, s') = s' ≡ s

  -- The contact with whatever profile it has by then.
  abbrev IsSavedFresh : Contact → FileLocalStore → Type 0
  IsSavedFresh x s = (p : Option DeliveryProfile) × IsSaved (record x { delivery_profile = p }) s

  -- What `deliver_encrypted` does to the contact and its row: it can give both a fresher profile.
  pub record IsRefreshing (w : Surroundings) : Type 0 where
    pub refreshed :
        (m : EncryptedMessage) (x : Contact) (s : FileLocalStore)
        → IsSaved x s
        → (p : Option DeliveryProfile) × ((w.delivers m x s).1 ≡ record x { delivery_profile = p })
          × IsSaved (record x { delivery_profile = p }) (w.delivers m x s).2

  abbrev pub Outcome :
      Surroundings
      → Text
      → Text
      → Option Text
      → Contact
      → FileLocalStore
      → Result ReceiptError Bool × FileLocalStore
      → Type 0
  Outcome w name id route x s (err delivery_escaped, s') = IsSavedFresh (counted x) s'
  Outcome w name id route x s (err unknown_contact, s') = s' ≡ s
  Outcome w name id route x s (err (unreadable_contact e), s') = s' ≡ s
  Outcome w name id route x s (err (not_encrypted e), s') = s' ≡ s
  Outcome w name id route x s (err (not_persisted injected_fault), s') = s' ≡ s
  Outcome w name id route x s (err (not_persisted sqlite_error), s') = s' ≡ s
  Outcome w name id route x s (err (not_persisted file_error), s') = IsSaved (counted x) s'
  Outcome w name id route x s (ok true, s') =
      (first (is_queued name id) s'.db.pending_receipts ≡ none) × IsSavedFresh (counted x) s'
  Outcome w name id route x s (ok false, s') =
      (first (is_queued name id) s'.db.pending_receipts ≡ some (receipt_row w.now name id route))
      × IsSavedFresh x s'

  abbrev persisted : Contact → FileLocalStore → FileLocalStore
  persisted x s = sync_contact_json c x (record s { db = save_contact_conn c x s.db })
