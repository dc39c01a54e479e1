-- ===== src/Relay/App/Blobs.antt =====
-- relay/app.py: `store_blob`, `fetch_blobs_post` and `fetch_blobs_legacy`.
pub mod Access
pub mod Lasting
pub mod Listing
use yakr.Prelude.{
  ℕ, Bool, true, false, not, ◌&&◌, Option, none, some, List, [], ◌∷◌, ◌++◌, map, Result, ok, err,
  ◌>>=◌, or_raise, on_error, ◌==◌, if◌then◌else◌, null, Bytes, Text, codes, eqb,
}
use yakr.Base64.{b64encode, b64decode}
use yakr.Codec.{Codec}
use yakr.Crypto.{Crypto}
use yakr.Relay.BlobStore
use yakr.Relay.BlobStore.{
  BlobStore, StoredBlob, StoreError, bad_tag_length, blob_too_large, already_expired, ttl_too_long,
  blob_limit_exceeded, token_required, token_mismatch, fetch,
}
use yakr.Relay.CapabilityStore.{CapabilityGrantStore}
use yakr.Relay.Auth.{RelayRole, RelayRuntime, Request, entry, mailbox, both, authorize_request}
use yakr.Relay.App.{RelayState}

pub record BlobStoreRequest : Type 0 where
  pub mailbox_tag : Text
  pub expires_at : ℕ
  pub ciphertext : Text
  pub ticket : Option Text

pub record FetchRequest : Type 0 where
  pub mailbox_tags : List Text
  pub ticket : Option Text

pub record BlobResponse : Type 0 where
  pub mailbox_tag : Text
  pub expires_at : ℕ
  pub ciphertext : Text
  pub stored_at : ℕ

abbrev pub blob_response : StoredBlob → BlobResponse
blob_response b = record {
  mailbox_tag = b64encode b.mailbox_tag;
  expires_at = b.expires_at;
  ciphertext = b64encode b.ciphertext;
  stored_at = b.stored_at;
}

abbrev pub is_entry : RelayRole → Bool
is_entry entry = true
is_entry mailbox = false
is_entry both = false

-- `429 if "blob limit exceeded" in str(exc) else 400`
abbrev pub store_status : StoreError → ℕ
store_status blob_limit_exceeded = 429
store_status bad_tag_length = 400
store_status blob_too_large = 400
store_status already_expired = 400
store_status ttl_too_long = 400
store_status token_required = 400
store_status token_mismatch = 400

-- `store.store(tag, expires_at, ciphertext)` with the decoding before it.
unfoldable pub store_decoded : ℕ → BlobStoreRequest → BlobStore → Result ℕ BlobStore
store_decoded now payload store = do
  tag ← or_raise (b64decode payload.mailbox_tag) 400
  ciphertext ← or_raise (b64decode payload.ciphertext) 400
  on_error store_status (BlobStore.store now tag payload.expires_at ciphertext none store)

-- The reply, with the store that it leaves.
stored_reply : RelayState → Result ℕ BlobStore → Result ℕ (Unit {0}) × RelayState
stored_reply s (err status) = (err status, s)
stored_reply s (ok store) = (ok tt, record s { store = store })

store_authorized :
    ℕ
    → BlobStoreRequest
    → RelayState
    → Result ℕ CapabilityGrantStore
    → Result ℕ (Unit {0}) × RelayState
unfolding stored_reply
store_authorized now payload s (err status) = (err status, s)
store_authorized now payload s (ok registry) =
    stored_reply (record s { capability_store = registry }) (store_decoded now payload s.store)

-- `(ciphertext, stored_at)`, with the ciphertext as its base64.
abbrev pub Key : Type 0
Key = Text × ℕ

unfoldable pub same_key : Key → Key → Bool
same_key (c, t) (c', t') = eqb c c' && t == t'

unfoldable pub is_seen : Key → List Key → Bool
is_seen key [] = false
is_seen key (k ∷ ks) = if same_key key k then true else is_seen key ks

abbrev pub key_of : StoredBlob → Key
key_of b = (b64encode b.ciphertext, b.stored_at)

-- The inner loop: the items and the keys seen so far, each with the last one first.
unfoldable pub add_blobs :
    List StoredBlob → List BlobResponse × List Key → List BlobResponse × List Key
add_blobs [] acc = acc
add_blobs (b ∷ bs) (items, seen) =
    let skipped = add_blobs bs (items, seen) in
    let added = add_blobs bs (blob_response b ∷ items, key_of b ∷ seen) in
    if is_seen (key_of b) seen then skipped else added

-- The outer loop.
unfoldable pub add_tags :
    ℕ
    → BlobStore
    → List Text
    → List BlobResponse × List Key
    → Result ℕ (List BlobResponse × List Key)
add_tags now store [] acc = ok acc
add_tags now store (t ∷ ts) acc = do
  tag ← or_raise (b64decode t) 400
  add_tags now store ts (add_blobs (fetch now tag store) acc)

unfoldable pub reverse_onto {ℓ} : {A : Type ℓ} → List A → List A → List A
reverse_onto [] ys = ys
reverse_onto (x ∷ xs) ys = reverse_onto xs (x ∷ ys)

unfoldable pub list_blobs : ℕ → BlobStore → List Text → Result ℕ (List BlobResponse)
list_blobs now store tags = do acc ← add_tags now store tags ([], []); ok (reverse_onto acc.0 [])

fetch_authorized :
    ℕ
    → FetchRequest
    → RelayState
    → Result ℕ CapabilityGrantStore
    → Result ℕ (List BlobResponse) × RelayState
fetch_authorized now payload s (err status) = (err status, s)
fetch_authorized now payload s (ok registry) = (
  if null payload.mailbox_tags then err 400 else list_blobs now s.store payload.mailbox_tags,
  record s { capability_store = registry },
)

-- The tag is in the path of the URL, and nothing checks who asks.
unfoldable pub fetch_blobs_legacy : ℕ → Text → RelayState → Result ℕ (List BlobResponse)
fetch_blobs_legacy now mailbox_tag s = do
  tag ← or_raise (b64decode mailbox_tag) 400
  ok (map blob_response (fetch now tag s.store))

module _ (c : Codec) (k : Crypto) where
  unfoldable pub store_blob :
      ℕ → RelayRuntime → Request → BlobStoreRequest → RelayState → Result ℕ (Unit {0}) × RelayState
  unfolding store_authorized
  store_blob now runtime request payload s =
      if is_entry runtime.role
      then (err 405, s)
      else store_authorized now payload s (
          authorize_request c k now runtime request (codes "store") payload.ticket
            s.capability_store)

  unfoldable pub fetch_blobs_post :
      ℕ
      → RelayRuntime
      → Request
      → FetchRequest
      → RelayState
      → Result ℕ (List BlobResponse) × RelayState
  unfolding fetch_authorized
  fetch_blobs_post now runtime request payload s =
      if is_entry runtime.role
      then (err 405, s)
      else fetch_authorized now payload s (
          authorize_request c k now runtime request (codes "fetch") payload.ticket
            s.capability_store)
