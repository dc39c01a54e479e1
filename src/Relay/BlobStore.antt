-- ===== src/Relay/BlobStore.antt =====
-- packages/yakr-relay/src/yakr_relay/store.py: the mailbox of opaque blobs. The table is the list
-- of its rows by rising id; each method takes the clock that it reads, and the lock makes it one
-- step.
pub mod Quota
pub mod Delivery
pub mod Consumption
mod Tests
use yakr.Prelude.{
  ℕ, ◌+◌, Bool, true, false, not, ◌&&◌, Option, none, some, List, [], ◌∷◌, ◌++◌, map, Result, ok,
  err, ◌>>=◌, ◌>>◌, raise_if, ltb, leb, ◌==◌, if◌then◌else◌, length, select, first, count, null,
  Bytes, eqb,
}
use yakr.Ephemeral.{max_relay_blob_ttl_ms}

-- A row of the table `blobs`.
pub record Row : Type 0 where
  pub id : ℕ
  pub mailbox_tag : Bytes
  pub expires_at : ℕ
  pub ciphertext : Bytes
  pub stored_at : ℕ
  pub consume_token : Option Bytes

pub record StoredBlob : Type 0 where
  pub mailbox_tag : Bytes
  pub expires_at : ℕ
  pub ciphertext : Bytes
  pub stored_at : ℕ
  pub consume_token : Option Bytes

-- `next_id` is the AUTOINCREMENT counter.
pub record BlobStore : Type 0 where
  pub max_blob_size : ℕ
  pub max_blobs_per_tag : ℕ
  pub next_id : ℕ
  pub rows : List Row

-- The messages of the `ValueError`s.
pub data StoreError : Type 0 where
  bad_tag_length blob_too_large already_expired ttl_too_long blob_limit_exceeded : StoreError
  token_required token_mismatch : StoreError

abbrev pub empty : ℕ → ℕ → BlobStore
empty size per_tag = record {
  max_blob_size = size;
  max_blobs_per_tag = per_tag;
  next_id = 1;
  rows = [];
}

-- `mailbox_tag = ? AND expires_at > ?`
unfoldable pub is_live : Bytes → ℕ → Row → Bool
is_live tag now r = eqb r.mailbox_tag tag && ltb now r.expires_at

abbrev pub new_row : ℕ → Bytes → ℕ → Bytes → Option Bytes → ℕ → Row
new_row now tag expires_at ciphertext token id = record {
  id = id;
  mailbox_tag = tag;
  expires_at = expires_at;
  ciphertext = ciphertext;
  stored_at = now;
  consume_token = token;
}

-- `INSERT INTO blobs …`
abbrev pub insert_blob : ℕ → Bytes → ℕ → Bytes → Option Bytes → BlobStore → BlobStore
insert_blob now tag expires_at ciphertext token s = record s {
  next_id = s.next_id + 1;
  rows = s.rows ++ new_row now tag expires_at ciphertext token s.next_id ∷ [];
}

unfoldable pub store :
    ℕ → Bytes → ℕ → Bytes → Option Bytes → BlobStore → Result StoreError BlobStore
store now tag expires_at ciphertext token s = do
  raise_if (not (length tag == 32)) bad_tag_length
  raise_if (ltb s.max_blob_size (length ciphertext)) blob_too_large
  raise_if (leb expires_at now) already_expired
  raise_if (ltb (now + max_relay_blob_ttl_ms) expires_at) ttl_too_long
  raise_if (leb s.max_blobs_per_tag (count (is_live tag now) s.rows)) blob_limit_exceeded
  ok (insert_blob now tag expires_at ciphertext token s)

-- `mailbox_tag = ? AND stored_at = ?`
unfoldable pub is_at : Bytes → ℕ → Row → Bool
is_at tag stored_at r = eqb r.mailbox_tag tag && r.stored_at == stored_at

unfoldable pub is_other : ℕ → Row → Bool
is_other id r = not (r.id == id)

abbrev token_matches : Option Bytes → Bytes → Bool
token_matches none token = false
token_matches (some stored) token = eqb stored token

-- `DELETE FROM blobs WHERE id = ?`
abbrev pub delete_id : ℕ → BlobStore → BlobStore
delete_id id s = record s { rows = select (is_other id) s.rows }

-- The row that the query found, if any.
consume_row : Option Row → Bytes → BlobStore → Result StoreError (Bool × BlobStore)
consume_row none token s = ok (false, s)
consume_row (some r) token s =
    raise_if (not (token_matches r.consume_token token)) token_mismatch
    >> ok (true, delete_id r.id s)

unfoldable pub consume : Bytes → ℕ → Bytes → BlobStore → Result StoreError (Bool × BlobStore)
unfolding consume_row is_at
consume tag stored_at token s = do
  raise_if (not (length tag == 32)) bad_tag_length
  raise_if (null token) token_required
  consume_row (first (is_at tag stored_at) s.rows) token s

-- A stable insertion: behind the rows with a stored_at that is no later.
unfoldable pub insert_by_stored_at : Row → List Row → List Row
insert_by_stored_at r [] = r ∷ []
insert_by_stored_at r (x ∷ xs) =
    if ltb r.stored_at x.stored_at then r ∷ x ∷ xs else x ∷ insert_by_stored_at r xs

unfoldable pub order_by_stored_at : List Row → List Row → List Row
order_by_stored_at done [] = done
order_by_stored_at done (x ∷ xs) = order_by_stored_at (insert_by_stored_at x done) xs

abbrev pub stored_blob : Row → StoredBlob
stored_blob r = record {
  mailbox_tag = r.mailbox_tag;
  expires_at = r.expires_at;
  ciphertext = r.ciphertext;
  stored_at = r.stored_at;
  consume_token = r.consume_token;
}

unfoldable pub fetch : ℕ → Bytes → BlobStore → List StoredBlob
fetch now tag s = map stored_blob (order_by_stored_at [] (select (is_live tag now) s.rows))

abbrev pub is_expired : ℕ → Row → Bool
is_expired now r = leb r.expires_at now

-- The number of rows deleted, and the store.
unfoldable pub sweep_expired : ℕ → BlobStore → ℕ × BlobStore
sweep_expired now s =
    (count (is_expired now) s.rows, record s { rows = select (λ r. not (is_expired now r)) s.rows })
