-- ===== src/Relay/App/Blobs/Lasting.antt =====
-- relay/app.py and relay/store.py: a blob stays on the relay until it expires, whatever calls come.
use mathlib.Core.List.{Memᴰ, append-nil}
use mathlib.Core.List.Memᴰ.{head, tail, append_right}
use yakr.Prelude.{
  ℕ, ◌+◌, ◌≤◌, ◌<◌, ◌≡◌, ◌∙◌, ◌⊎◌, refl, ap, sym, subst, Bool, true, not, Bool-cases, inl, inr,
  Option, none, some, List, [], ◌∷◌, ◌++◌, map, Result, ok, err, bind-eq-ok, raise_if-then-eq-ok,
  Result-cases, on_error, on_error-eq-ok, or_raise, ltb, count, select, Bytes, codes, eqb_refl,
  arith, ok-injective,
}
use yakr.Base64.{b64encode, b64decode}
use yakr.Codec.{Codec}
use yakr.Crypto.{Crypto}
use yakr.Onion.{decode_mailbox_packet}
use yakr.Relay.BlobStore
use yakr.Relay.BlobStore.{
  Row, BlobStore, StoredBlob, is_live, is_expired, new_row, stored_blob, insert_blob,
  insert_by_stored_at, order_by_stored_at, fetch, sweep_expired,
}
use yakr.Relay.BlobStore.Quota.{store-Stored}
use yakr.Relay.CapabilityStore.{CapabilityGrantStore}
use yakr.Relay.PairingStore.{PairingStore}
use yakr.Relay.Auth.{RelayRuntime, Request, authorize_request, check_ticket}
use yakr.Relay.App.{RelayState}
use yakr.Relay.App.Forwarding.{IngestRequest, is_mailbox, ingest_packet}
use yakr.Relay.App.Blobs.{
  BlobStoreRequest, FetchRequest, BlobResponse, is_entry, store_status, same_key, store_blob,
  fetch_blobs_post,
}
use yakr.Relay.App.Blobs.Access.{store_blob-IsStored, failed_store_keeps, fetch_blobs_post-ok}
use yakr.Relay.App.Blobs.Listing.{response_key, list_blobs-once}

Memᴰ-select :
    (p : Row → Bool) (r : Row) (rs : List Row) → p r ≡ true → Memᴰ r rs → Memᴰ r (select p rs)
Memᴰ-select p r [] h m = elim m [ ]
Memᴰ-select p r (x ∷ rs) h (head e) = let own : p x ≡ true = rw (sym e) h in rw own (head e)
Memᴰ-select p r (x ∷ rs) h (tail m) = elim (Bool-cases (p x)) [
  | inl here ↦ rw here (tail (Memᴰ-select p r rs h m))
  | inr other ↦ rw other (Memᴰ-select p r rs h m)
]

Memᴰ-insert_by_stored_at : (r : Row) (rs : List Row) → Memᴰ r (insert_by_stored_at r rs)
unfolding insert_by_stored_at
Memᴰ-insert_by_stored_at r [] = head refl
Memᴰ-insert_by_stored_at r (x ∷ rs) = elim (Bool-cases (ltb r.stored_at x.stored_at)) [
  | inl first_ ↦ rw first_ (head refl)
  | inr later ↦ rw later (tail (Memᴰ-insert_by_stored_at r rs))
]

Memᴰ-insert_by_stored_at_other :
    (r x : Row) (rs : List Row) → Memᴰ r rs → Memᴰ r (insert_by_stored_at x rs)
unfolding insert_by_stored_at
Memᴰ-insert_by_stored_at_other r x [] m = elim m [ ]
Memᴰ-insert_by_stored_at_other r x (y ∷ rs) (head e) =
    elim (Bool-cases (ltb x.stored_at y.stored_at)) [
      | inl first_ ↦ rw first_ (tail (head e))
      | inr later ↦ rw later (head e)
    ]
Memᴰ-insert_by_stored_at_other r x (y ∷ rs) (tail m) =
    elim (Bool-cases (ltb x.stored_at y.stored_at)) [
      | inl first_ ↦ rw first_ (tail (tail m))
      | inr later ↦ rw later (tail (Memᴰ-insert_by_stored_at_other r x rs m))
    ]

Memᴰ-order_by_stored_at :
    (r : Row) (done rs : List Row) → Memᴰ r done ⊎ Memᴰ r rs → Memᴰ r (order_by_stored_at done rs)
unfolding order_by_stored_at
Memᴰ-order_by_stored_at r done [] (inl m) = m
Memᴰ-order_by_stored_at r done [] (inr m) = elim m [ ]
Memᴰ-order_by_stored_at r done (x ∷ rs) (inl m) =
    Memᴰ-order_by_stored_at r (insert_by_stored_at x done) rs
      (inl (Memᴰ-insert_by_stored_at_other r x done m))
Memᴰ-order_by_stored_at r done (x ∷ rs) (inr (head e)) =
    Memᴰ-order_by_stored_at r (insert_by_stored_at x done) rs
      (inl (subst (λ y. Memᴰ r (insert_by_stored_at y done)) e (Memᴰ-insert_by_stored_at r done)))
Memᴰ-order_by_stored_at r done (x ∷ rs) (inr (tail m)) =
    Memᴰ-order_by_stored_at r (insert_by_stored_at x done) rs (inr m)

Memᴰ-map : (r : Row) (rs : List Row) → Memᴰ r rs → Memᴰ (stored_blob r) (map stored_blob rs)
Memᴰ-map r [] m = elim m [ ]
Memᴰ-map r (x ∷ rs) (head e) = head (ap stored_blob e)
Memᴰ-map r (x ∷ rs) (tail m) = tail (Memᴰ-map r rs m)

-- A row that has not expired is fetched by its tag.
row_is_fetched :
    (now : ℕ) (r : Row) (s : BlobStore)
    → now < r.expires_at
    → Memᴰ r s.rows
    → Memᴰ (stored_blob r) (fetch now r.mailbox_tag s)
unfolding fetch is_live
row_is_fetched now r s alive m = Memᴰ-map r _ (
    Memᴰ-order_by_stored_at r [] _
      (inr (Memᴰ-select _ r s.rows (ground (arith, eqb_refl r.mailbox_tag, alive)) m)))

sweep_keeps :
    (now : ℕ) (r : Row) (s : BlobStore)
    → now < r.expires_at
    → Memᴰ r s.rows
    → Memᴰ r (sweep_expired now s).1.rows
unfolding sweep_expired
sweep_keeps now r s alive m = Memᴰ-select _ r s.rows (ground (arith, alive)) m

Memᴰ-append : (r : Row) (rs xs : List Row) → Memᴰ r rs → Memᴰ r (rs ++ xs)
Memᴰ-append r [] xs m = elim m [ ]
Memᴰ-append r (x ∷ rs) xs (head e) = head e
Memᴰ-append r (x ∷ rs) xs (tail m) = tail (Memᴰ-append r rs xs m)

-- A store as it was, or with rows more.
IsGrown : BlobStore → BlobStore → Type 0
IsGrown s s' = (x : List Row) × (s'.rows ≡ s.rows ++ x)

IsGrown-keeps : (r : Row) (s s' : BlobStore) → IsGrown s s' → Memᴰ r s.rows → Memᴰ r s'.rows
unfolding IsGrown
IsGrown-keeps r s s' (x, more) m = subst (Memᴰ r) (sym more) (Memᴰ-append r s.rows x m)

IsGrown-same : (s s' : BlobStore) → s' ≡ s → IsGrown s s'
unfolding IsGrown
IsGrown-same s s' e = ([], ap (λ (t : BlobStore). t.rows) e ∙ sym (append-nil s.rows))

store-IsGrown :
    (now : ℕ) (tag : Bytes) (expires_at : ℕ) (ciphertext : Bytes) (token : Option Bytes)
    (s s' : BlobStore)
    → BlobStore.store now tag expires_at ciphertext token s ≡ ok s'
    → IsGrown s s'
unfolding IsGrown
store-IsGrown now tag expires_at ciphertext token s s' e =
    let did = store-Stored now tag expires_at ciphertext token s s' e in
    (_, ap (λ (t : BlobStore). t.rows) did.inserted)

module _ (c : Codec) (k : Crypto) where
  store_blob-IsGrown :
      (now : ℕ) (runtime : RelayRuntime) (request : Request) (payload : BlobStoreRequest)
      (s s' : RelayState) (reply : Result ℕ (Unit {0}))
      → store_blob c k now runtime request payload s ≡ (reply, s')
      → IsGrown s.store s'.store
  store_blob-IsGrown now runtime request payload s s' (ok u) e =
      let a = store_blob-IsStored c k now runtime request payload s s' e in
      store-IsGrown now a.tag payload.expires_at a.ciphertext none s.store s'.store a.stored
  store_blob-IsGrown now runtime request payload s s' (err status) e =
      IsGrown-same s.store s'.store
        (failed_store_keeps c k now runtime request payload s s' status e).0

  fetch_blobs_post-keeps :
      (now : ℕ) (runtime : RelayRuntime) (request : Request) (payload : FetchRequest)
      (s s' : RelayState) (reply : Result ℕ (List BlobResponse))
      → fetch_blobs_post c k now runtime request payload s ≡ (reply, s')
      → s'.store ≡ s.store
  unfolding fetch_blobs_post
  fetch_blobs_post-keeps now runtime request payload s s' reply e =
      elim (Bool-cases (is_entry runtime.role)) [
        | inl refused ↦ ground arith
        | inr other ↦
            elim (Result-cases (
              authorize_request c k now runtime request (codes "fetch") payload.ticket
                s.capability_store)) [
                  | inr (status, refused) ↦ ground arith
                  | inl (registry, passed) ↦ ground arith
                ]
      ]

  ingest_packet-IsGrown :
      (now : ℕ) (runtime : RelayRuntime) (request : IngestRequest) (s s' : RelayState)
      → ingest_packet c k now runtime request s ≡ ok s'
      → IsGrown s.store s'.store
  unfolding ingest_packet
  ingest_packet-IsGrown now runtime request s s' e =
      let (role, r1) = raise_if-then-eq-ok (not (is_mailbox runtime.role)) 405 _ e in
      let (u, e2, r2) =
        bind-eq-ok (check_ticket c k now runtime (codes "store") request.ticket) _ r1 in
      let (wrap_secret, e3, r3) = bind-eq-ok (or_raise runtime.wrap_secret 500) _ r2 in
      let (inner, e4, r4) = bind-eq-ok (or_raise (b64decode request.inner) 400) _ r3 in
      let (outer, e5, r5) =
        bind-eq-ok (on_error (λ _. 400) (decode_mailbox_packet c k inner wrap_secret)) _ r4 in
      let (store, e6, r6) =
        bind-eq-ok
          (on_error store_status
            (BlobStore.store now outer.mailbox_tag outer.expires_at outer.ciphertext none s.store))
          _ r5 in
      let done : store ≡ s'.store = ap (λ (t : RelayState). t.store) (ok-injective r6) in
      subst (IsGrown s.store) done (
        store-IsGrown now outer.mailbox_tag outer.expires_at outer.ciphertext none s.store store
          (on_error-eq-ok store_status _ e6))

  -- One request, a sweep or the passing of time. A request to the other endpoints can leave any registry and any
  -- pairing sessions, and does not touch the blobs.
  pub data Step (t : ℕ) (s : RelayState) : ℕ → RelayState → Type 0 where
    wait : (d : ℕ) → Step t s (t + d) s
    stored :
        (runtime : RelayRuntime) (request : Request) (payload : BlobStoreRequest)
        (reply : Result ℕ (Unit {0})) (s' : RelayState)
        → store_blob c k t runtime request payload s ≡ (reply, s')
        → Step t s t s'
    fetched :
        (runtime : RelayRuntime) (request : Request) (payload : FetchRequest)
        (reply : Result ℕ (List BlobResponse)) (s' : RelayState)
        → fetch_blobs_post c k t runtime request payload s ≡ (reply, s')
        → Step t s t s'
    ingested :
        (runtime : RelayRuntime) (request : IngestRequest) (s' : RelayState)
        → ingest_packet c k t runtime request s ≡ ok s'
        → Step t s t s'
    swept : Step t s t (record s { store = (sweep_expired t s.store).1 })
    other :
        (registry : CapabilityGrantStore) (sessions : PairingStore)
        → Step t s t (record s { capability_store = registry; pairing_store = sessions })

  pub data Reach (t₀ : ℕ) (s₀ : RelayState) : ℕ → RelayState → Type 0 where
    here : Reach t₀ s₀ t₀ s₀
    next : {t t' : ℕ} {s s' : RelayState} → Reach t₀ s₀ t s → Step t s t' s' → Reach t₀ s₀ t' s'

  Step-later : {t t' : ℕ} {s s' : RelayState} → Step t s t' s' → t ≤ t'
  Step-later (wait d) = omega arith
  Step-later (stored runtime request payload reply s' e) = omega arith
  Step-later (fetched runtime request payload reply s' e) = omega arith
  Step-later (ingested runtime request s' e) = omega arith
  Step-later swept = omega arith
  Step-later (other registry sessions) = omega arith

  Step-keeps :
      (r : Row) {t t' : ℕ} {s s' : RelayState}
      → Step t s t' s'
      → t < r.expires_at
      → Memᴰ r s.store.rows
      → Memᴰ r s'.store.rows
  Step-keeps r (wait d) alive m = m
  Step-keeps r {t} {s = s} (stored runtime request payload reply s' e) alive m =
      IsGrown-keeps r s.store s'.store (store_blob-IsGrown t runtime request payload s s' reply e) m
  Step-keeps r {t} {s = s} (fetched runtime request payload reply s' e) alive m =
      subst (λ (b : BlobStore). Memᴰ r b.rows)
        (sym (fetch_blobs_post-keeps t runtime request payload s s' reply e)) m
  Step-keeps r {t} {s = s} (ingested runtime request s' e) alive m =
      IsGrown-keeps r s.store s'.store (ingest_packet-IsGrown t runtime request s s' e) m
  Step-keeps r {t} {s = s} swept alive m = sweep_keeps t r s.store alive m
  Step-keeps r (other registry sessions) alive m = m

  -- The row is there as long as it has not expired.
  Reach-keeps :
      (r : Row) {t₀ : ℕ} {s₀ : RelayState} {t : ℕ} {s : RelayState}
      → Reach t₀ s₀ t s
      → t < r.expires_at
      → Memᴰ r s₀.store.rows
      → Memᴰ r s.store.rows
  Reach-keeps r here alive m = m
  Reach-keeps r (next reach step) alive m =
      Step-keeps r step (omega (arith, Step-later step, alive))
        (Reach-keeps r reach (omega (arith, Step-later step, alive)) m)

  -- A blob that `store_blob` accepted is in the reply of every successful `fetch_blobs_post` that asks for its tag
  -- until it expires, exactly once, as its base64 with the time it was stored, whatever requests and sweeps
  -- come in between, other fetches of it too.
  pub stored_blob_is_fetched :
      (now later : ℕ) (runtime runtime' : RelayRuntime) (request request' : Request)
      (payload : BlobStoreRequest) (payload' : FetchRequest) (ciphertext : Bytes)
      (items : List BlobResponse) (s s₁ s₂ s₃ : RelayState)
      → store_blob c k now runtime request payload s ≡ (ok tt, s₁)
      → b64decode payload.ciphertext ≡ some ciphertext
      → Reach now s₁ later s₂
      → later < payload.expires_at
      → Memᴰ payload.mailbox_tag payload'.mailbox_tags
      → fetch_blobs_post c k later runtime' request' payload' s₂ ≡ (ok items, s₃)
      → count (same_key (b64encode ciphertext, now)) (map response_key items) ≡ 1
  stored_blob_is_fetched now later runtime runtime' request request' payload payload' ciphertext
        items s s₁ s₂ s₃ e read reach alive asked e' =
      let a = store_blob-IsStored c k now runtime request payload s s₁ e in
      let row = new_row now a.tag payload.expires_at a.ciphertext none s.store.next_id in
      let did =
        store-Stored now a.tag payload.expires_at a.ciphertext none s.store s₁.store a.stored in
      let added : Memᴰ row s₁.store.rows =
        subst (λ (b : BlobStore). Memᴰ row b.rows) (sym did.inserted)
          (append_right s.store.rows (head refl)) in
      let there = row_is_fetched later row s₂.store alive (Reach-keeps row reach alive added) in
      let same : a.ciphertext ≡ ciphertext = cc (a.ciphertext_read, read) in
      rw (sym same) (
        list_blobs-once later s₂.store payload'.mailbox_tags items payload.mailbox_tag a.tag
          (stored_blob row)
          (fetch_blobs_post-ok c k later runtime' request' payload' s₂ s₃ items e') asked a.tag_read
          there)
