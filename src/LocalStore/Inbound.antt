-- ===== src/LocalStore/Inbound.antt =====
-- core/store.py: the messages that were received, kept sealed under the device's key.
pub mod Atomic
pub mod Commit
pub mod Sweep
use yakr.Prelude.{
  ℕ, ◌+◌, Bool, true, false, not, ◌&&◌, ◌||◌, Option, none, some, List, [], ◌∷◌, map, Result, ok,
  err, ◌>>=◌, ◌>>◌, raise_if, ltb, leb, ◌==◌, if◌then◌else◌, count, select, Bytes, Text, codes, eqb,
}
use yakr.Codec.{Codec}
use yakr.Contact.{Contact}
use yakr.Crypto.{Crypto}
use yakr.Ephemeral.{message_ttl_ms, is_message_expired}
use yakr.Message.{Json, InnerMessage, inner_to_bytes, inner_from_bytes}
use yakr.Session.{is_text}
use yakr.Session.Sending.{Sender, wrap_local_ciphertext, unwrap_local_ciphertext}
use yakr.LocalStore.Tables.{insert_or_replace, insert_or_ignore, order_by, lacks}
use yakr.LocalStore.{
  InboundRow, ReceiptRow, Database, FileLocalStore, StoreFault, injected_fault, is_fault, execute,
  save_contact_conn, finish,
}

-- The primary key of `inbound_messages`.
unfoldable pub is_inbound : Text → ℕ → InboundRow → Bool
is_inbound name seq r = eqb r.contact_name name && r.seq == seq

-- The primary key of `pending_receipts`.
unfoldable pub is_queued : Text → Text → ReceiptRow → Bool
is_queued name id r = eqb r.contact_name name && eqb r.delivered_id id

abbrev pub inbound_row : ℕ → Text → InnerMessage → Bytes → InboundRow
inbound_row now name inner wrapped = record {
  contact_name = name;
  seq = inner.seq;
  valid_until = inner.valid_until;
  received_at = now;
  local_ciphertext = wrapped;
}

abbrev pub receipt_row : ℕ → Text → Text → Option Text → ReceiptRow
receipt_row now name id route = record {
  contact_name = name;
  delivered_id = id;
  route = route;
  created_at = now;
}

abbrev pub put_inbound : InboundRow → Database → Database
put_inbound r db = record db {
  inbound_messages = insert_or_ignore (is_inbound r.contact_name r.seq) r db.inbound_messages;
}

abbrev pub put_receipt : ReceiptRow → Database → Database
put_receipt r db = record db {
  pending_receipts =
      insert_or_replace (is_queued r.contact_name r.delivered_id) r db.pending_receipts;
}

abbrev pub is_current : Text → ℕ → InboundRow → Bool
is_current name now r = eqb r.contact_name name && ltb now r.valid_until

abbrev pub before_by_time : InboundRow → InboundRow → Bool
before_by_time r x =
    ltb r.received_at x.received_at || r.received_at == x.received_at && ltb r.seq x.seq

abbrev pub Entry : Type 0
Entry = ℕ × Text × ℕ

abbrev untimed : Entry → ℕ × Text
untimed (seq, body, at) = (seq, body)

-- `valid_until <= now OR received_at <= now - MESSAGE_TTL_MS`
unfoldable pub is_outdated : ℕ → InboundRow → Bool
is_outdated now r = leb r.valid_until now || leb (r.received_at + message_ttl_ms) now

unfoldable pub sweep_expired_messages : ℕ → FileLocalStore → ℕ × FileLocalStore
sweep_expired_messages now s = (
  count (is_outdated now) s.db.inbound_messages,
  record s {
    db = record s.db { inbound_messages = select (lacks (is_outdated now)) s.db.inbound_messages };
  },
)

-- `if delivered_id is not None:`
queue_receipt :
    (ℕ → Bool)
    → ℕ
    → Text
    → Option Text
    → Option Text
    → Option Text
    → Database
    → Result StoreFault Database
queue_receipt fails now name none route fault db = ok db
queue_receipt fails now name (some id) route fault db = do
  raise_if (is_fault fault (codes "pending_receipt")) injected_fault
  execute fails 2 (put_receipt (receipt_row now name id route) db)

-- The body of the loop: `none` is `continue`, or a message that is no text.
shown_inner : ℕ → ℕ → InnerMessage → Option Entry
shown_inner now received_at inner =
    if is_message_expired inner.valid_until now
    then none
    else if is_text inner.type
    then some (inner.seq, inner.body, received_at)
    else none

module _ (j : Json) (k : Crypto) where
  -- `nonce` is that of the sealing.
  unfoldable pub save_inbound_message :
      ℕ → Bytes → Sender → Text → InnerMessage → FileLocalStore → FileLocalStore
  save_inbound_message now nonce own name inner s = record s {
    db =
        put_inbound
          (inbound_row now name inner (wrap_local_ciphertext k nonce own (inner_to_bytes j inner)))
          s.db;
  }

  unfoldable pub shown : ℕ → Sender → InboundRow → Option Entry
  unfolding shown_inner
  shown now own r = elim (unwrap_local_ciphertext k own r.local_ciphertext) [
    | err _ ↦ none
    | ok payload ↦ elim (inner_from_bytes j payload) [
      | err _ ↦ none
      | ok inner ↦ shown_inner now r.received_at inner
    ]
  ]

  unfoldable pub all_shown : ℕ → Sender → List InboundRow → List Entry
  all_shown now own [] = []
  all_shown now own (r ∷ rows) =
      let rest = all_shown now own rows in
      elim (shown now own r) [ none ↦ rest | some e ↦ e ∷ rest ]

  unfoldable pub list_inbound_messages_timed : ℕ → Text → Sender → FileLocalStore → List Entry
  list_inbound_messages_timed now name own s =
      all_shown now own
        (order_by before_by_time (select (is_current name now) s.db.inbound_messages))

  unfoldable pub list_inbound_messages : ℕ → Text → Sender → FileLocalStore → List (ℕ × Text)
  list_inbound_messages now name own s = map untimed (list_inbound_messages_timed now name own s)

module _ (c : Codec) (j : Json) (k : Crypto) where
  unfoldable pub commit_receive :
      (ℕ → Bool)
      → ℕ
      → Bytes
      → Sender
      → Contact
      → InnerMessage
      → Option Text
      → Option Text
      → Option Text
      → Database
      → Result StoreFault Database
  unfolding queue_receipt
  commit_receive fails now nonce own x inner delivered_id route fault db = do
    let wrapped = wrap_local_ciphertext k nonce own (inner_to_bytes j inner)
    db₁ ← execute fails 0 (save_contact_conn c x db)
    raise_if (is_fault fault (codes "inbound_message")) injected_fault
    db₂ ← execute fails 1 (put_inbound (inbound_row now x.name inner wrapped) db₁)
    db₃ ← queue_receipt fails now x.name delivered_id route fault db₂
    execute fails 3 db₃

  unfoldable pub atomic_commit_receive_text :
      (ℕ → Bool)
      → ℕ
      → Bytes
      → Sender
      → Contact
      → InnerMessage
      → Option Text
      → Option Text
      → FileLocalStore
      → Result StoreFault (Unit {0}) × FileLocalStore
  atomic_commit_receive_text fails now nonce own x inner delivered_id route s =
      finish c (fails 4) x s
        (commit_receive fails now nonce own x inner delivered_id route s.test_fault s.db)
