-- ===== src/Fetch.antt =====
-- packages/yakr-cli/src/yakr_cli/fetch_cmds.py `fetch_contact_inbound`: what a fetch does with the blobs that came for
-- each tag. Where the blobs and the routes come from is network.py, whose answers are arguments.
pub mod Ending
pub mod Counting
mod Tests
use yakr.Prelude.{
  ℕ, zero, suc, ◌+◌, Bool, true, false, not, ◌&&◌, Option, none, some, List, [], ◌∷◌, Result, ok,
  err, ltb, if◌then◌else◌, length, null, contains, Bytes, Text, codes, eqb,
}
use yakr.Codec.{Codec, Value, text}
use yakr.Contact.{Contact, ContactError}
use yakr.Crypto.{Crypto}
use yakr.DeliveryProfile.Payload.{DeliveryProfile, ProfileError, bad_signature, from_b64}
use yakr.DeliveryProfile.Updates.{apply_delivery_profile_update}
use yakr.Message.{Json, InnerMessage, OuterBlob}
use yakr.Message.RelayJson.{RelayBlob, RelayJsonError, from_relay_json, message_id}
use yakr.Presence.Payload.{PresencePayload, PresenceError, operator_mismatch}
use yakr.Presence.{apply_presence_message}
use yakr.Receipts.{ReceiptError, Surroundings, send_delivery_receipt}
use yakr.Session.{
  SessionError, duplicate_message, duplicate_seq, out_of_order_seq, malformed_message,
  decrypt_inbound, is_text,
}
use yakr.Session.Sending.{Sender}
use yakr.LocalStore.Tables.{order_by}
use yakr.LocalStore.{FileLocalStore, StoreFault}
use yakr.LocalStore.Contacts.{save_contact, get_contact}
use yakr.LocalStore.Inbound.{atomic_commit_receive_text}
use yakr.LocalStore.Notices.{record_profile_ack_on_receipt}
use yakr.LocalStore.Outbound.{apply_inbound_delivery_receipt, is_receipt, receipted}

-- A blob as a relay returns it.
pub record Item : Type 0 where
  pub blob : RelayBlob
  pub stored_at : ℕ

-- The loop with `seen`, before the sort.
unseen : List Text → List Item → List Item
unseen seen [] = []
unseen seen (i ∷ is) =
    let skipped = unseen seen is in
    let kept = unseen (i.blob.ciphertext ∷ seen) is in
    if contains i.blob.ciphertext seen then skipped else i ∷ kept

abbrev stored_before : Item → Item → Bool
stored_before i x = ltb i.stored_at x.stored_at

-- Python's sort is stable, and so is `order_by`.
unfoldable pub queue_of : List Item → List Item
unfolding unseen
queue_of items = order_by stored_before (unseen [] items)

-- What the handling of one blob meets.
pub record Encounter : Type 0 where
  pub now : ℕ
  pub fresh : Bytes
  pub nonce : Bytes
  pub fails : ℕ → Bool
  pub route : Option Text
  pub receipt : Surroundings

-- The variables of the call; `turn` numbers the encounters.
pub record Fetching : Type 0 where
  pub store : FileLocalStore
  pub contact : Contact
  pub fetched : ℕ
  pub turn : ℕ

-- The exceptions that end a fetch.
pub data FetchError : Type 0 where
  bad_blob : RelayJsonError → FetchError
  bad_message : SessionError → FetchError
  bad_profile : ProfileError → FetchError
  bad_presence : PresenceError → FetchError
  not_committed : StoreFault → FetchError
  receipt_failed : ReceiptError → FetchError
  unreadable_contact : ContactError → FetchError

-- What became of a blob: it is tried again, it was refused, or its message was taken.
pub data Handled : Type 0 where
  still_pending refused taken : Handled

-- `DuplicateSeqError`, and the exceptions that are no `YakrError`.
abbrev pub is_duplicate : SessionError → Bool
is_duplicate duplicate_message = true
is_duplicate duplicate_seq = true
is_duplicate out_of_order_seq = true
is_duplicate _ = false

abbrev escapes : SessionError → Bool
escapes malformed_message = true
escapes _ = false

-- `InvalidSignature` is no `ValueError`.
abbrev is_value_error : ProfileError → Bool
is_value_error bad_signature = false
is_value_error _ = true

abbrev is_profile : Value → Bool
is_profile (text t) = eqb t (codes "profile")
is_profile _ = false

abbrev pub Outcome : Type 0
Outcome = Result FetchError Handled × Fetching

-- `_refresh_contact_send_state`
abbrev refreshed : Contact → Option Contact → Contact
refreshed x none = x
refreshed x (some persisted) = record x {
  next_send_seq = persisted.next_send_seq;
  ratchet = persisted.ratchet;
}

module _ (c : Codec) where
  abbrev saved : Contact → Fetching → Fetching
  saved x f = record f { contact = x; store = save_contact c x f.store }

  -- After a receipt was sent or queued.
  refresh : Fetching → Result ContactError (Option Contact) × FileLocalStore → Outcome
  refresh f (err e, s) = (err (unreadable_contact e), record f { store = s })
  refresh f (ok persisted, s) =
      (ok taken, saved (refreshed f.contact persisted) (record f { store = s }))

  after_receipt : Fetching → Result ReceiptError Bool × FileLocalStore → Outcome
  unfolding refresh
  after_receipt f (err e, s) = (err (receipt_failed e), record f { store = s })
  after_receipt f (ok sent, s) = refresh (record f { store = s }) (get_contact c f.contact.name s)

-- `still_pending`, `progressed` and the variables after a round, or the exception.
abbrev pub Round : Type 0
Round = Result FetchError (List Item × Bool) × Fetching

-- The rest of the round, after a blob.
abbrev pub noted : Item → Handled → Round → Round
noted i h (err e, f) = (err e, f)
noted i still_pending (ok (still, progressed), f) = (ok (i ∷ still, progressed), f)
noted i refused (ok (still, progressed), f) = (ok (still, progressed), f)
noted i taken (ok (still, progressed), f) = (ok (still, true), f)

abbrev pub proceed : (Fetching → Round) → Item → Outcome → Round
proceed rest i (err e, f) = (err e, f)
proceed rest i (ok h, f) = noted i h (rest f)

abbrev pub Ended : Type 0
Ended = Result FetchError (Unit {0}) × Fetching

-- After a round: it is over, or the rest are tried again.
abbrev pub again : (List Item → Fetching → Option Ended) → Round → Option Ended
again rest (err e, f) = some (err e, f)
again rest (ok (still, progressed), f) = if progressed then rest still f else some (ok tt, f)

abbrev pub onward : (Fetching → Option Ended) → Option Ended → Option Ended
onward rest none = none
onward rest (some (err e, f)) = some (err e, f)
onward rest (some (ok _, f)) = rest f

module _ (c : Codec) (j : Json) (k : Crypto) (own : Sender) (name : Text) where
  after_commit :
      Encounter → Text → Fetching → Result StoreFault (Unit {0}) × FileLocalStore → Outcome
  unfolding after_receipt
  after_commit w id f (err e, s) = (err (not_committed e), record f { store = s })
  after_commit w id f (ok _, s) =
      after_receipt c (record f { store = s; fetched = f.fetched + 1 })
        (send_delivery_receipt c j k w.receipt own name id w.route s)

  take_text : Encounter → OuterBlob → InnerMessage → Fetching → Outcome
  unfolding after_commit
  take_text w outer inner f =
      let id = message_id k outer.ciphertext in
      after_commit w id f (
        atomic_commit_receive_text c j k w.fails w.now w.nonce own f.contact inner (some id) w.route
          f.store)

  take_receipt : Text → InnerMessage → Fetching → Outcome
  take_receipt id inner f =
      let (removed, s) = apply_inbound_delivery_receipt name inner f.store in
      let (x, s') = record_profile_ack_on_receipt name id f.contact s in
      (ok taken, saved c x (record f { store = s' }))

  receipt_id : InnerMessage → Option Text
  receipt_id inner = if is_receipt inner.type then receipted inner.message_id else none

  take_rest : Encounter → OuterBlob → InnerMessage → Fetching → Outcome
  unfolding take_text take_receipt receipt_id
  take_rest w outer inner f = elim (receipt_id inner) [
    | some id ↦ take_receipt id inner f
    | none ↦ if is_text inner.type then take_text w outer inner f else (ok taken, f)
  ]

  take_presence :
      Encounter
      → OuterBlob
      → InnerMessage
      → Fetching
      → Result PresenceError (Option PresencePayload × FileLocalStore)
      → Outcome
  unfolding take_rest
  take_presence w outer inner f (err operator_mismatch) = take_rest w outer inner f
  take_presence w outer inner f (err e) = (err (bad_presence e), f)
  take_presence w outer inner f (ok (none, s)) = take_rest w outer inner (record f { store = s })
  take_presence w outer inner f (ok (some p, s)) =
      (ok taken, saved c f.contact (record f { store = s }))

  updated : Fetching → Result ProfileError Contact → Outcome
  updated f (ok x) = (ok taken, saved c x f)
  updated f (err e) =
      if is_value_error e then (ok taken, saved c f.contact f) else (err (bad_profile e), f)

  take_profile : Encounter → Fetching → Result ProfileError DeliveryProfile → Outcome
  unfolding updated
  take_profile w f (err e) = (err (bad_profile e), f)
  take_profile w f (ok p) =
      updated f (apply_delivery_profile_update c k w.now p f.contact.signing_public f.contact)

  take_inner : Encounter → OuterBlob → InnerMessage → Fetching → Outcome
  unfolding take_profile take_presence
  take_inner w outer inner f =
      if is_profile inner.type && not (null inner.body)
      then take_profile w f (from_b64 c inner.body)
      else take_presence w outer inner f (apply_presence_message j w.now f.contact inner f.store)

  -- With the result of `decrypt_inbound` and the contact that it left.
  decrypted :
      Encounter → OuterBlob → Fetching → Result SessionError InnerMessage × Contact → Outcome
  unfolding take_inner
  decrypted w outer f (ok inner, x) = take_inner w outer inner (record f { contact = x })
  decrypted w outer f (err e, x) =
      if escapes e
      then (err (bad_message e), record f { contact = x })
      else if is_duplicate e
      then (ok still_pending, record f { contact = x })
      else (ok refused, record f { contact = x })

  handle_outer : Encounter → Fetching → Result RelayJsonError OuterBlob → Outcome
  unfolding decrypted
  handle_outer w f (err e) = (err (bad_blob e), f)
  handle_outer w f (ok outer) =
      decrypted w outer f (decrypt_inbound j k w.now w.fresh outer f.contact)

  -- The body of the loop over `pending`.
  unfoldable pub handle : Encounter → Item → Fetching → Outcome
  unfolding handle_outer
  handle w i f = handle_outer w (record f { turn = f.turn + 1 }) (from_relay_json i.blob)

  unfoldable pub round : (ℕ → Encounter) → List Item → Fetching → Round
  round ws [] f = (ok ([], false), f)
  round ws (i ∷ is) f = proceed (round ws is) i (handle (ws f.turn) i f)

  -- The loop `while pending`, on fuel; `none` is fuel that does not suffice.
  unfoldable pub drain : (ℕ → Encounter) → ℕ → List Item → Fetching → Option Ended
  drain ws fuel [] f = some (ok tt, f)
  drain ws zero (i ∷ is) f = none
  drain ws (suc fuel) (i ∷ is) f = again (drain ws fuel) (round ws (i ∷ is) f)

  -- The loop over the tags, by the blobs that came for each.
  unfoldable pub fetch_answers : (ℕ → Encounter) → List (List Item) → Fetching → Option Ended
  fetch_answers ws [] f = some (ok tt, f)
  fetch_answers ws (items ∷ rest) f =
      onward (fetch_answers ws rest) (drain ws (length (queue_of items)) (queue_of items) f)
