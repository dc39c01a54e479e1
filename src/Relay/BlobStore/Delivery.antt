-- ===== src/Relay/BlobStore/Delivery.antt =====
-- relay/store.py: what `fetch` returns after `store` and `sweep_expired`.
use mathlib.Core.List.{append-nil, map-append}
use yakr.Prelude.{
  ℕ, ◌≤◌, ◌≡◌, ◌≢◌, refl, ap, ◌∙◌, true, false, not, Option, List, [], ◌∷◌, ◌++◌, map, arith, ok,
  Bool-cases, inl, inr, if◌then◌else◌, ltb, select, Bytes, eqb_iff, eqb_refl, All, All-map,
  select-append, select-select, All-select,
}
use yakr.Relay.BlobStore.{
  Row, StoredBlob, BlobStore, is_live, new_row, store, stored_blob, insert_by_stored_at,
  order_by_stored_at, fetch, is_expired, sweep_expired,
}
use yakr.Relay.BlobStore.Quota.{IsValid, store-Stored}

insert_by_stored_at-last :
    (r : Row) (rs : List Row)
    → All (λ x. x.stored_at ≤ r.stored_at) rs
    → insert_by_stored_at r rs ≡ rs ++ r ∷ []
unfolding insert_by_stored_at
insert_by_stored_at-last r [] h = refl
insert_by_stored_at-last r (x ∷ rs) h = ground (arith, insert_by_stored_at-last r rs h.1)

-- Sorting appends a row to the sorted rows.
order_by_stored_at-append :
    (done rs : List Row) (r : Row)
    → order_by_stored_at done (rs ++ r ∷ []) ≡ insert_by_stored_at r (order_by_stored_at done rs)
unfolding order_by_stored_at
order_by_stored_at-append done [] r = refl
order_by_stored_at-append done (x ∷ rs) r =
    order_by_stored_at-append (insert_by_stored_at x done) rs r

All-insert_by_stored_at :
    (P : Row → Type 0) (r : Row) (rs : List Row) → P r → All P rs → All P (insert_by_stored_at r rs)
unfolding insert_by_stored_at
All-insert_by_stored_at P r [] h k = (h, tt)
All-insert_by_stored_at P r (x ∷ rs) h k = ground (arith, All-insert_by_stored_at P r rs h k.1)

All-order_by_stored_at :
    (P : Row → Type 0) (done rs : List Row)
    → All P done
    → All P rs
    → All P (order_by_stored_at done rs)
unfolding order_by_stored_at
All-order_by_stored_at P done [] h k = h
All-order_by_stored_at P done (x ∷ rs) h k =
    All-order_by_stored_at P (insert_by_stored_at x done) rs
      (All-insert_by_stored_at P x done k.0 h) k.1

-- What `fetch` makes of the rows of the table.
listed : ℕ → Bytes → List Row → List StoredBlob
listed now tag rows = map stored_blob (order_by_stored_at [] (select (is_live tag now) rows))

listed-append_live :
    (now : ℕ) (tag : Bytes) (rows : List Row) (r : Row)
    → is_live tag now r ≡ true
    → All (λ x. x.stored_at ≤ r.stored_at) rows
    → listed now tag (rows ++ r ∷ []) ≡ listed now tag rows ++ stored_blob r ∷ []
unfolding listed
listed-append_live now tag rows r live late =
    let rest = select (is_live tag now) rows in
    let sorted : order_by_stored_at [] (rest ++ r ∷ []) ≡ order_by_stored_at [] rest ++ r ∷ [] =
      order_by_stored_at-append [] rest r
      ∙ insert_by_stored_at-last r (order_by_stored_at [] rest)
          (All-order_by_stored_at _ [] rest tt (All-select _ (is_live tag now) rows late)) in
    rw (select-append (is_live tag now) rows (r ∷ []), live, sorted)
      (map-append stored_blob _ (r ∷ []))

listed-append_dead :
    (now : ℕ) (tag : Bytes) (rows : List Row) (r : Row)
    → is_live tag now r ≡ false
    → listed now tag (rows ++ r ∷ []) ≡ listed now tag rows
unfolding listed
listed-append_dead now tag rows r dead =
    rw (select-append (is_live tag now) rows (r ∷ []), dead, append-nil) refl

module _ (now : ℕ) (tag : Bytes) (expires_at : ℕ) (ciphertext : Bytes) (token : Option Bytes)
    (s s' : BlobStore) (valid : IsValid now s)
    (done : store now tag expires_at ciphertext token s ≡ ok s') where
  -- A blob that `store` accepted is returned last by every `fetch` of its tag until it expires, behind the
  -- blobs that were there; once it has expired `fetch` is as if it had never been stored.
  pub fetch-store :
      (later : ℕ)
      → now ≤ later
      → fetch later tag s' ≡ (
          if ltb later expires_at
          then fetch later tag s
            ++ stored_blob (new_row now tag expires_at ciphertext token s.next_id) ∷ []
          else fetch later tag s)
  unfolding fetch listed is_live
  fetch-store later h =
      let did = store-Stored now tag expires_at ciphertext token s s' done in
      let r = new_row now tag expires_at ciphertext token s.next_id in
      rw did.inserted (elim (Bool-cases (ltb later expires_at)) [
        | inl lives ↦ rw lives (
            listed-append_live later tag s.rows r (ground (arith, eqb_refl tag))
              (All-map _ _ s.rows (λ x f. f.past) valid.fit))
        | inr over ↦ rw over (listed-append_dead later tag s.rows r (ground (arith, eqb_refl tag)))
      ])

  -- A `fetch` of another tag does not see it.
  pub fetch-store_ne :
      (later : ℕ) (other : Bytes) → other ≢ tag → fetch later other s' ≡ fetch later other s
  unfolding fetch listed is_live
  fetch-store_ne later other ne =
      let did = store-Stored now tag expires_at ciphertext token s s' done in
      rw did.inserted (
        listed-append_dead later other s.rows
          (new_row now tag expires_at ciphertext token s.next_id)
          (ground (arith, eqb_iff tag other)))

-- A sweep at `now` changes no `fetch` from then on.
pub fetch-sweep_expired :
    (now later : ℕ) (tag : Bytes) (s : BlobStore)
    → now ≤ later
    → fetch later tag (sweep_expired now s).1 ≡ fetch later tag s
unfolding fetch sweep_expired is_live
fetch-sweep_expired now later tag s h =
    ap (λ (rs : List Row). map stored_blob (order_by_stored_at [] rs))
      (select-select (is_live tag later) (λ r. not (is_expired now r)) s.rows
        (λ r live. ground arith))
