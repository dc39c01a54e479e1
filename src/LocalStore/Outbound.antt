-- ===== src/LocalStore/Outbound.antt =====
-- core/store.py: the messages that wait for their receipt, and those that were sent; core/receipt_apply.py.
pub mod Atomic
pub mod Lifecycle
pub mod Listing
use yakr.Prelude.{
  ℕ, ◌+◌, Bool, true, false, not, ◌&&◌, ◌||◌, Option, none, some, List, [], ◌∷◌, map, Result, ok,
  err, ◌>>=◌, ◌>>◌, raise_if, ltb, leb, ◌==◌, if◌then◌else◌, count, select, first, any, null, Bytes,
  Text, codes, eqb,
}
use yakr.Base64.{b64encode, b64decode}
use yakr.Codec.{Codec, Value, text}
use yakr.Contact.{Contact}
use yakr.Ephemeral.{message_ttl_ms, message_valid_until}
use yakr.Message.{InnerMessage, OuterBlob}
use yakr.LocalStore.Tables.{insert_or_replace, insert_or_ignore, order_by, lacks}
use yakr.LocalStore.{
  OutboundRow, SentRow, Database, FileLocalStore, StoreFault, injected_fault, is_fault, execute,
  save_contact_conn, finish,
}

-- The primary key of `outbound_pending`.
unfoldable pub is_pending : Text → Text → OutboundRow → Bool
is_pending name id r = eqb r.contact_name name && eqb r.msg_id id

unfoldable pub is_sent : Text → ℕ → SentRow → Bool
is_sent name seq r = eqb r.contact_name name && r.seq == seq

unfoldable pub find_pending : Text → Text → Database → Option OutboundRow
find_pending name id db = first (is_pending name id) db.outbound_pending

abbrev pub sent_row : ℕ → Text → ℕ → Text → SentRow
sent_row now name seq body = record {
  contact_name = name;
  seq = seq;
  body = body;
  created_at = now;
  valid_until = message_valid_until now;
}

abbrev pub bare_row : ℕ → Text → Text → ℕ → Text → OutboundRow
bare_row now name id seq body = record {
  contact_name = name;
  msg_id = id;
  seq = seq;
  body = body;
  created_at = now;
  valid_until = message_valid_until now;
  outer_ciphertext_b64 = none;
  mailbox_tag_b64 = none;
  outer_expires_at = none;
}

abbrev pub outer_row : ℕ → Text → Text → ℕ → Text → OuterBlob → OutboundRow
outer_row now name id seq body outer = record (bare_row now name id seq body) {
  outer_ciphertext_b64 = some (b64encode outer.ciphertext);
  mailbox_tag_b64 = some (b64encode outer.mailbox_tag);
  outer_expires_at = some outer.expires_at;
}

abbrev put_pending : OutboundRow → Database → Database
put_pending r db = record db {
  outbound_pending = insert_or_replace (is_pending r.contact_name r.msg_id) r db.outbound_pending;
}

abbrev put_sent : SentRow → Database → Database
put_sent r db = record db {
  sent_messages = insert_or_ignore (is_sent r.contact_name r.seq) r db.sent_messages;
}

unfoldable pub save_outbound_pending : ℕ → Text → Text → ℕ → Text → FileLocalStore → FileLocalStore
save_outbound_pending now name id seq body s = record s {
  db = put_sent (sent_row now name seq body) (put_pending (bare_row now name id seq body) s.db);
}

module _ (c : Codec) where
  -- The statements of `atomic_commit_send`.
  unfoldable pub commit_send :
      (ℕ → Bool)
      → ℕ
      → Contact
      → Text
      → ℕ
      → Text
      → OuterBlob
      → Option Text
      → Database
      → Result StoreFault Database
  commit_send fails now x id seq body outer fault db = do
    db₁ ← execute fails 0 (save_contact_conn c x db)
    raise_if (is_fault fault (codes "outbound_pending")) injected_fault
    db₂ ← execute fails 1 (put_pending (outer_row now x.name id seq body outer) db₁)
    db₃ ← execute fails 2 (put_sent (sent_row now x.name seq body) db₂)
    execute fails 3 db₃

  unfoldable pub atomic_commit_send :
      (ℕ → Bool)
      → ℕ
      → Contact
      → Text
      → ℕ
      → Text
      → OuterBlob
      → FileLocalStore
      → Result StoreFault (Unit {0}) × FileLocalStore
  atomic_commit_send fails now x id seq body outer s =
      finish c (fails 4) x s (commit_send fails now x id seq body outer s.test_fault s.db)

-- `not ciphertext_b64 or not tag_b64 or expires_at is None`; the inner `none` is what `b64decode` raises.
outer_of : Option Text → Option Text → Option ℕ → Option (Option OuterBlob)
outer_of (some ciphertext) (some tag) (some expires_at) =
    if null ciphertext || null tag
    then none
    else some (elim (b64decode tag) [
      | none ↦ none
      | some tag_bytes ↦ elim (b64decode ciphertext) [
        | none ↦ none
        | some bs ↦ some (record {
          version = 1;
          mailbox_tag = tag_bytes;
          expires_at = expires_at;
          ciphertext = bs;
        })
      ]
    ])
outer_of _ _ _ = none

unfoldable pub load_outbound_outer : Text → Text → FileLocalStore → Option (Option OuterBlob)
unfolding outer_of
load_outbound_outer name id s = elim (find_pending name id s.db) [
  | none ↦ none
  | some r ↦ outer_of r.outer_ciphertext_b64 r.mailbox_tag_b64 r.outer_expires_at
]

unfoldable pub mark_outbound_delivered : Text → Text → FileLocalStore → Bool × FileLocalStore
mark_outbound_delivered name id s = (
  ltb 0 (count (is_pending name id) s.db.outbound_pending),
  record s {
    db = record s.db {
      outbound_pending = select (lacks (is_pending name id)) s.db.outbound_pending;
    };
  },
)

unfoldable pub is_waiting : Text → ℕ → OutboundRow → Bool
is_waiting name now r = eqb r.contact_name name && ltb now r.valid_until

abbrev pub Pending : Type 0
Pending = Text × ℕ × Text

abbrev pub pending_of : OutboundRow → Pending
pending_of r = (r.msg_id, r.seq, r.body)

abbrev pub before_by_seq : OutboundRow → OutboundRow → Bool
before_by_seq r x = ltb r.seq x.seq

unfoldable pub list_outbound_pending : ℕ → Text → FileLocalStore → List Pending
list_outbound_pending now name s =
    map pending_of (order_by before_by_seq (select (is_waiting name now) s.db.outbound_pending))

-- `valid_until <= now OR created_at <= now - MESSAGE_TTL_MS`
unfoldable pub is_outdated : ℕ → ℕ → ℕ → Bool
is_outdated now valid_until at = leb valid_until now || leb (at + message_ttl_ms) now

abbrev pub is_outdated_pending : ℕ → OutboundRow → Bool
is_outdated_pending now r = is_outdated now r.valid_until r.created_at

abbrev pub is_outdated_sent : ℕ → SentRow → Bool
is_outdated_sent now r = is_outdated now r.valid_until r.created_at

unfoldable pub sweep_expired_outbound : ℕ → FileLocalStore → ℕ × FileLocalStore
sweep_expired_outbound now s = (
  count (is_outdated_pending now) s.db.outbound_pending,
  record s {
    db = record s.db {
      outbound_pending = select (lacks (is_outdated_pending now)) s.db.outbound_pending;
      sent_messages = select (lacks (is_outdated_sent now)) s.db.sent_messages;
    };
  },
)

abbrev is_shown : Text → ℕ → SentRow → Bool
is_shown name now r = eqb r.contact_name name && ltb now r.valid_until

abbrev before_by_time : SentRow → SentRow → Bool
before_by_time r x =
    ltb r.created_at x.created_at || r.created_at == x.created_at && ltb r.seq x.seq

abbrev timed : SentRow → ℕ × Text × ℕ
timed r = (r.seq, r.body, r.created_at)

abbrev untimed : ℕ × Text × ℕ → ℕ × Text
untimed (seq, body, at) = (seq, body)

unfoldable pub list_sent_messages_timed : ℕ → Text → FileLocalStore → List (ℕ × Text × ℕ)
list_sent_messages_timed now name s =
    map timed (order_by before_by_time (select (is_shown name now) s.db.sent_messages))

unfoldable pub list_sent_messages : ℕ → Text → FileLocalStore → List (ℕ × Text)
list_sent_messages now name s = map untimed (list_sent_messages_timed now name s)

-- core/receipt_apply.py
abbrev is_id : Text → Pending → Bool
is_id id (mid, seq, body) = eqb mid id

unfoldable pub has_outbound_pending : ℕ → Text → Text → FileLocalStore → Bool
has_outbound_pending now name id s = any (is_id id) (list_outbound_pending now name s)

-- `message_id` as a text that is not empty.
abbrev pub receipted : Value → Option Text
receipted (text t) = if null t then none else some t
receipted _ = none

abbrev pub is_receipt : Value → Bool
is_receipt (text t) = eqb t (codes "receipt")
is_receipt _ = false

unfoldable pub apply_inbound_delivery_receipt :
    Text → InnerMessage → FileLocalStore → Bool × FileLocalStore
apply_inbound_delivery_receipt name inner s =
    if not (is_receipt inner.type) then (false, s) else elim (receipted inner.message_id) [
      | none ↦ (false, s)
      | some id ↦ mark_outbound_delivered name id s
    ]
