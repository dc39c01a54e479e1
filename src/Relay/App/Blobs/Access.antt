-- ===== src/Relay/App/Blobs/Access.antt =====
-- relay/app.py: when `store_blob` stores, and what a fetch that succeeds lists.
use yakr.Prelude.{
  ◌↔◌, ◌⊎◌, ℕ, ◌+◌, ◌≤◌, ◌<◌, ◌≡◌, ◌∙◌, refl, sym, Bool, if◌then◌else◌, true, false, Bool-cases,
  inl, inr, none, some, List, [], ◌∷◌, ◌++◌, ok, err, bind-eq-ok, Result-cases, Option, or_raise,
  or_raise-eq-ok, on_error-eq-ok, ltb, ◌&&◌, count, null, length, Bytes, Text, codes, eqb, arith,
}
use yakr.Base64.{b64decode}
use yakr.Codec.{Codec}
use yakr.Crypto.{Crypto}
use yakr.Ephemeral.{max_relay_blob_ttl_ms}
use yakr.Relay.BlobStore
use yakr.Relay.BlobStore.{BlobStore}
use yakr.Relay.BlobStore.Quota.{Stored, store-Stored}
use yakr.Relay.Auth.{
  RelayRole, RelayRuntime, Request, entry, mailbox, both, check_capability, authorize_request,
}
use yakr.Relay.Auth.Entitled.{IsEntitled, check_capability_iff}
use yakr.Relay.CapabilityStore.{CapabilityGrantStore}
use yakr.Relay.App.{RelayState}
use yakr.Relay.App.Blobs.{
  BlobStoreRequest, FetchRequest, BlobResponse, is_entry, store_status, store_decoded, list_blobs,
  store_blob, fetch_blobs_post,
}

-- What a call of `store_blob` that returns has checked and done.
pub record IsStored (c : Codec) (k : Crypto) (now : ℕ) (runtime : RelayRuntime) (request : Request)
    (payload : BlobStoreRequest) (s s' : RelayState) : Type 0 where
  pub tag : Bytes
  pub ciphertext : Bytes
  pub role : is_entry runtime.role ≡ false
  pub authorized :
      authorize_request c k now runtime request (codes "store") payload.ticket s.capability_store
      ≡ ok s'.capability_store
  pub tag_read : b64decode payload.mailbox_tag ≡ some tag
  pub ciphertext_read : b64decode payload.ciphertext ≡ some ciphertext
  pub stored : BlobStore.store now tag payload.expires_at ciphertext none s.store ≡ ok s'.store
  pub pairing : s'.pairing_store ≡ s.pairing_store

-- What a call on a relay that requires capabilities needs, and what it leaves.
pub record HasStored (c : Codec) (k : Crypto) (now : ℕ) (runtime : RelayRuntime) (request : Request)
    (payload : BlobStoreRequest) (s s' : RelayState) : Type 0 where
  pub tag : Bytes
  pub ciphertext : Bytes
  pub role : (runtime.role ≡ mailbox) ⊎ (runtime.role ≡ both)
  pub entitled :
      IsEntitled c k now runtime request (codes "store") s.capability_store s'.capability_store
  pub tag_read : b64decode payload.mailbox_tag ≡ some tag
  pub ciphertext_read : b64decode payload.ciphertext ≡ some ciphertext
  pub tag_length : length tag ≡ 32
  pub fits : length ciphertext ≤ s.store.max_blob_size
  pub lives : now < payload.expires_at
  pub lifetime : payload.expires_at ≤ now + max_relay_blob_ttl_ms
  pub room :
      count (λ r. eqb r.mailbox_tag tag && ltb now r.expires_at) s.store.rows
      < s.store.max_blobs_per_tag
  pub inserted : s'.store ≡ record s.store {
    next_id = s.store.next_id + 1;
    rows =
        s.store.rows
        ++ record {
          id = s.store.next_id;
          mailbox_tag = tag;
          expires_at = payload.expires_at;
          ciphertext = ciphertext;
          stored_at = now;
          consume_token = none;
        }
          ∷ [];
  }
  pub pairing : s'.pairing_store ≡ s.pairing_store

keeps_blobs : (role : RelayRole) → (is_entry role ≡ false) ↔ ((role ≡ mailbox) ⊎ (role ≡ both))
keeps_blobs entry = ((λ e. cc), elim [ inl e ↦ cc | inr e ↦ cc ])
keeps_blobs mailbox = ((λ e. inl refl), (λ e. refl))
keeps_blobs both = ((λ e. inr refl), (λ e. refl))

if-true : {A : Type 0} (b : Bool) (x y : A) → b ≡ true → (if b then x else y) ≡ x
if-true true x y h = refl
if-true false x y h = absurd cc

Stored-store :
    (now : ℕ) (tag : Bytes) (expires_at : ℕ) (ciphertext : Bytes) (token : Option Bytes)
    (s s' : BlobStore)
    → Stored now tag expires_at ciphertext token s s'
    → BlobStore.store now tag expires_at ciphertext token s ≡ ok s'
unfolding BlobStore.store
Stored-store now tag expires_at ciphertext token s s' d =
    ground (arith, d.tag_length, d.fits, d.lives, d.lifetime, d.room, d.inserted)

module _ (c : Codec) (k : Crypto) where
  pub store_blob-IsStored :
      (now : ℕ) (runtime : RelayRuntime) (request : Request) (payload : BlobStoreRequest)
      (s s' : RelayState)
      → store_blob c k now runtime request payload s ≡ (ok tt, s')
      → IsStored c k now runtime request payload s s'
  unfolding store_blob store_decoded
  store_blob-IsStored now runtime request payload s s' e =
      elim (Bool-cases (is_entry runtime.role)) [
        | inl refused ↦ absurd (ground arith)
        | inr other ↦
            elim (Result-cases (
              authorize_request c k now runtime request (codes "store") payload.ticket
                s.capability_store)) [
                  | inr (status, refused) ↦ absurd (ground arith)
                  | inl (registry, passed) ↦
                      elim (Result-cases (store_decoded now payload s.store)) [
                        | inr (status, failed) ↦ absurd (ground arith)
                        | inl (store, done) ↦
                            let (tag, e1, r1) =
                              bind-eq-ok (or_raise (b64decode payload.mailbox_tag) 400) _ done in
                            let (ciphertext, e2, r2) =
                              bind-eq-ok (or_raise (b64decode payload.ciphertext) 400) _ r1 in
                            record {
                              tag = tag;
                              ciphertext = ciphertext;
                              role = other;
                              authorized = ground arith;
                              tag_read = or_raise-eq-ok _ 400 e1;
                              ciphertext_read = or_raise-eq-ok _ 400 e2;
                              stored = ground (arith, on_error-eq-ok store_status _ r2);
                              pairing = ground arith;
                            }
                      ]
                ]
      ]

  pub IsStored-store_blob :
      (now : ℕ) (runtime : RelayRuntime) (request : Request) (payload : BlobStoreRequest)
      (s s' : RelayState)
      → IsStored c k now runtime request payload s s'
      → store_blob c k now runtime request payload s ≡ (ok tt, s')
  unfolding store_blob store_decoded
  IsStored-store_blob now runtime request payload s s' a =
      rw (a.role, a.authorized, a.tag_read, a.ciphertext_read, a.stored) (ground (arith, a.pairing))

  by_capability :
      (now : ℕ) (runtime : RelayRuntime) (request : Request) (ticket : Option Text)
      (s : CapabilityGrantStore)
      → runtime.require_capabilities ≡ true
      → authorize_request c k now runtime request (codes "store") ticket s
        ≡ check_capability c k now runtime request (codes "store") s
  unfolding authorize_request
  by_capability now runtime request ticket s required = if-true _ _ _ required

  -- The role and the checks of the store, of an authorized request.
  IsStored-HasStored :
      (now : ℕ) (runtime : RelayRuntime) (request : Request) (payload : BlobStoreRequest)
      (s s' : RelayState)
      → runtime.require_capabilities ≡ true
      → null runtime.relay_issuance_public ≡ false
      → IsStored c k now runtime request payload s s'
      → HasStored c k now runtime request payload s s'
  unfolding BlobStore.is_live
  IsStored-HasStored now runtime request payload s s' required keyed a =
      let did =
        store-Stored now a.tag payload.expires_at a.ciphertext none s.store s'.store a.stored in
      record {
        tag = a.tag;
        ciphertext = a.ciphertext;
        role = (keeps_blobs runtime.role).0 a.role;
        entitled =
            (check_capability_iff c k now runtime request (codes "store") s.capability_store
                s'.capability_store required keyed).0
              (sym (by_capability now runtime request payload.ticket s.capability_store required)
                ∙ a.authorized);
        tag_read = a.tag_read;
        ciphertext_read = a.ciphertext_read;
        tag_length = did.tag_length;
        fits = did.fits;
        lives = did.lives;
        lifetime = did.lifetime;
        room = did.room;
        inserted = did.inserted;
        pairing = a.pairing;
      }

  HasStored-IsStored :
      (now : ℕ) (runtime : RelayRuntime) (request : Request) (payload : BlobStoreRequest)
      (s s' : RelayState)
      → runtime.require_capabilities ≡ true
      → null runtime.relay_issuance_public ≡ false
      → HasStored c k now runtime request payload s s'
      → IsStored c k now runtime request payload s s'
  unfolding BlobStore.is_live
  HasStored-IsStored now runtime request payload s s' required keyed a = record {
    tag = a.tag;
    ciphertext = a.ciphertext;
    role = (keeps_blobs runtime.role).1 a.role;
    authorized =
        by_capability now runtime request payload.ticket s.capability_store required
        ∙ (check_capability_iff c k now runtime request (codes "store") s.capability_store
              s'.capability_store required keyed).1
            a.entitled;
    tag_read = a.tag_read;
    ciphertext_read = a.ciphertext_read;
    stored = Stored-store now a.tag payload.expires_at a.ciphertext none s.store s'.store (record {
      tag_length = a.tag_length;
      fits = a.fits;
      lives = a.lives;
      lifetime = a.lifetime;
      room = a.room;
      inserted = a.inserted;
    });
    pairing = a.pairing;
  }

  -- On a relay that requires capabilities and has its issuance key, `store_blob` reports success exactly when the
  -- relay keeps blobs, the request is entitled to store, the tag is the base64 of 32 bytes and the ciphertext that
  -- of no more than the greatest size, the blob has not expired and lives no longer than a day, and the tag has
  -- room; then the table has the blob's row at its end, the registry the nonce, and nothing else changes.
  pub store_blob_iff :
      (now : ℕ) (runtime : RelayRuntime) (request : Request) (payload : BlobStoreRequest)
      (s s' : RelayState)
      → runtime.require_capabilities ≡ true
      → null runtime.relay_issuance_public ≡ false
      → (store_blob c k now runtime request payload s ≡ (ok tt, s'))
        ↔ HasStored c k now runtime request payload s s'
  store_blob_iff now runtime request payload s s' required keyed = (
    λ e.
        IsStored-HasStored now runtime request payload s s' required keyed
          (store_blob-IsStored now runtime request payload s s' e),
    λ a.
        IsStored-store_blob now runtime request payload s s'
          (HasStored-IsStored now runtime request payload s s' required keyed a),
  )

  -- A call of `store_blob` that fails, for whatever reason, leaves the blobs and the pairing sessions as they
  -- were.
  pub failed_store_keeps :
      (now : ℕ) (runtime : RelayRuntime) (request : Request) (payload : BlobStoreRequest)
      (s s' : RelayState) (status : ℕ)
      → store_blob c k now runtime request payload s ≡ (err status, s')
      → (s'.store ≡ s.store) × (s'.pairing_store ≡ s.pairing_store)
  unfolding store_blob
  failed_store_keeps now runtime request payload s s' status e =
      elim (Bool-cases (is_entry runtime.role)) [
        | inl refused ↦ (ground arith, ground arith)
        | inr other ↦
            elim (Result-cases (
              authorize_request c k now runtime request (codes "store") payload.ticket
                s.capability_store)) [
                  | inr (status', refused) ↦ (ground arith, ground arith)
                  | inl (registry, passed) ↦
                      elim (Result-cases (store_decoded now payload s.store)) [
                        | inr (status', failed) ↦ (ground arith, ground arith)
                        | inl (store, done) ↦ (ground arith, ground arith)
                      ]
                ]
      ]

  pub fetch_blobs_post-ok :
      (now : ℕ) (runtime : RelayRuntime) (request : Request) (payload : FetchRequest)
      (s s' : RelayState) (items : List BlobResponse)
      → fetch_blobs_post c k now runtime request payload s ≡ (ok items, s')
      → list_blobs now s.store payload.mailbox_tags ≡ ok items
  unfolding fetch_blobs_post
  fetch_blobs_post-ok now runtime request payload s s' items e =
      elim (Bool-cases (is_entry runtime.role)) [
        | inl refused ↦ absurd (ground arith)
        | inr other ↦
            elim (Result-cases (
              authorize_request c k now runtime request (codes "fetch") payload.ticket
                s.capability_store)) [
                  | inr (status, refused) ↦ absurd (ground arith)
                  | inl (registry, passed) ↦ ground arith
                ]
      ]
