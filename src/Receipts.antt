-- ===== src/Receipts.antt =====
-- packages/yakr-cli/src/yakr_cli/receipt_cmds.py: sending a delivery receipt, or queueing it while no relay is
-- reached. Whether `deliver_encrypted` of network.py returns is an argument, as its HTTP calls decide it.
pub mod Queueing
mod Tests
use yakr.Prelude.{
  ℕ, ◌+◌, Bool, true, false, Option, none, some, List, [], ◌∷◌, Result, ok, err, if◌then◌else◌,
  Bytes, Text,
}
use yakr.Codec.{Codec}
use yakr.Contact.{Contact, ContactError}
use yakr.Crypto.{Crypto}
use yakr.Message.{Json}
use yakr.Session.{rolled_back}
use yakr.Session.Sending.{Sender, SendError, EncryptedMessage, encrypt_receipt}
use yakr.LocalStore.{FileLocalStore, StoreFault}
use yakr.LocalStore.Contacts.{get_contact, atomic_persist_contact}
use yakr.LocalStore.Notices.{save_pending_receipt, delete_pending_receipt, list_pending_receipts}

pub data ReceiptError : Type 0 where
  unknown_contact : ReceiptError
  unreadable_contact : ContactError → ReceiptError
  not_encrypted : SendError → ReceiptError
  not_persisted : StoreFault → ReceiptError
  delivery_escaped : ReceiptError

-- How `deliver_encrypted` ended: with a RuntimeError, an HTTPError or a ValueError, which are caught, or with any other
-- exception, which is not.
pub data Delivery : Type 0 where
  delivered failed escaped : Delivery

-- What a call meets: the clock, random bytes, the statements of SQLite that fail in its two transactions, and
-- what `deliver_encrypted` of network.py does with a message: it can give the contact a fresher profile, and save it.
pub record Surroundings : Type 0 where
  pub now : ℕ
  pub fresh : Bytes
  pub nonce : Bytes
  pub fails : ℕ → Bool
  pub fails_again : ℕ → Bool
  pub delivers : EncryptedMessage → Contact → FileLocalStore → Delivery × Contact × FileLocalStore

-- `_restore_ratchet_snapshot` and the number before.
restored : Contact → Contact → Contact
restored before x = record (rolled_back before.ratchet x) { next_send_seq = before.next_send_seq }

-- After the commit that takes the receipt back.
queue :
    Surroundings
    → Text
    → Text
    → Option Text
    → Result StoreFault (Unit {0}) × FileLocalStore
    → Result ReceiptError Bool × FileLocalStore
queue w name id route (err e, s) = (err (not_persisted e), s)
queue w name id route (ok _, s) = (ok false, save_pending_receipt w.now name id route s)

module _ (c : Codec) where
  -- After the first commit: `true` is a delivery.
  delivered_or_queued :
      Surroundings
      → Text
      → Text
      → Option Text
      → Contact
      → Delivery × Contact × FileLocalStore
      → Result ReceiptError Bool × FileLocalStore
  unfolding queue restored
  delivered_or_queued w name id route before (delivered, x, s) =
      (ok true, (delete_pending_receipt name id s).1)
  delivered_or_queued w name id route before (escaped, x, s) = (err delivery_escaped, s)
  delivered_or_queued w name id route before (failed, x, s) =
      queue w name id route (atomic_persist_contact c w.fails_again (restored before x) s)

  deliver :
      Surroundings
      → Text
      → Text
      → Option Text
      → Contact
      → Contact
      → EncryptedMessage
      → Result StoreFault (Unit {0}) × FileLocalStore
      → Result ReceiptError Bool × FileLocalStore
  unfolding delivered_or_queued
  deliver w name id route before x receipt (err e, s) = (err (not_persisted e), s)
  deliver w name id route before x receipt (ok _, s) =
      delivered_or_queued w name id route before (w.delivers receipt x s)

  -- The receipt does not advance the ratchet.
  deliver_receipt :
      Surroundings
      → Text
      → Text
      → Option Text
      → Contact
      → FileLocalStore
      → Result SendError EncryptedMessage × Contact
      → Result ReceiptError Bool × FileLocalStore
  unfolding deliver
  deliver_receipt w name id route before s (err e, x) = (err (not_encrypted e), s)
  deliver_receipt w name id route before s (ok receipt, x) =
      let counted = rolled_back before.ratchet x in
      deliver w name id route before counted receipt (atomic_persist_contact c w.fails counted s)

module _ (c : Codec) (j : Json) (k : Crypto) where
  send_to :
      Surroundings
      → Sender
      → Text
      → Text
      → Option Text
      → Result ContactError (Option Contact) × FileLocalStore
      → Result ReceiptError Bool × FileLocalStore
  unfolding deliver_receipt
  send_to w own name id route (err e, s) = (err (unreadable_contact e), s)
  send_to w own name id route (ok none, s) = (err unknown_contact, s)
  send_to w own name id route (ok (some x), s) =
      deliver_receipt c w name id route x s (encrypt_receipt j k w.now w.fresh w.nonce own id x)

  unfoldable pub send_delivery_receipt :
      Surroundings
      → Sender
      → Text
      → Text
      → Option Text
      → FileLocalStore
      → Result ReceiptError Bool × FileLocalStore
  unfolding send_to
  send_delivery_receipt w own name id route s = send_to w own name id route (get_contact c name s)

  abbrev route_or : Option Text → Option Text → Option Text
  route_or none stored = stored
  route_or (some route) stored = some route

  -- The loop over the receipts that were queued at its start; an exception ends it.
  flush :
      List (Surroundings × Text × Text × Option Text)
      → Sender
      → Option Text
      → ℕ
      → FileLocalStore
      → Result ReceiptError ℕ × FileLocalStore
  flush [] own route sent s = (ok sent, s)
  flush ((w, name, id, stored) ∷ rest) own route sent s =
      let (result, s') = send_delivery_receipt w own name id (route_or route stored) s in
      elim result [
        | err e ↦ (err e, s')
        | ok done ↦ flush rest own route (if done then sent + 1 else sent) s'
      ]

  -- Each receipt with the surroundings of its call.
  met_by :
      (ℕ → Surroundings)
      → ℕ
      → List (Text × Text × Option Text)
      → List (Surroundings × Text × Text × Option Text)
  met_by ws n [] = []
  met_by ws n ((name, id, route) ∷ rest) = (ws n, name, id, route) ∷ met_by ws (n + 1) rest

  unfoldable pub flush_pending_receipts :
      (ℕ → Surroundings)
      → Sender
      → Option Text
      → Option Text
      → FileLocalStore
      → Result ReceiptError ℕ × FileLocalStore
  unfolding flush met_by
  flush_pending_receipts ws own contact_name route s =
      flush (met_by ws 0 (list_pending_receipts contact_name s)) own route 0 s
