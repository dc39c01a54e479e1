-- ===== src/Relay/BlobStore/Consumption.antt =====
-- relay/store.py: what `consume` deletes.
use yakr.Prelude.{
  ℕ, ◌<◌, ◌≡◌, ◌≢◌, refl, subst, Bool, true, false, some, List, [], ◌∷◌, arith, ok, err, Bool-cases,
  inl, inr, length, select, select-All, first, remove_first, All, All-map, All-first, Bytes,
  eqb_iff, eqb_refl,
}
use yakr.Relay.BlobStore.{Row, BlobStore, token_mismatch, is_at, is_other, consume}
use yakr.Relay.BlobStore.Quota.{IdsRise, IsValid}

-- The ids that come later in the table are other ids.
keeps_later :
    (r : Row) (rs : List Row) → All (λ x. r.id < x.id) rs → All (λ x. is_other r.id x ≡ true) rs
unfolding is_other
keeps_later r rs h = All-map (λ x. r.id < x.id) _ rs (λ x lt. ground arith) h

is_other_self : (r : Row) → is_other r.id r ≡ false
unfolding is_other
is_other_self r = ground arith

is_other_earlier : (x r : Row) → x.id < r.id → is_other r.id x ≡ true
unfolding is_other
is_other_earlier x r h = ground arith

-- Deleting by the id of the row that a query found first deletes that row alone.
delete-first :
    (p : Row → Bool) (rs : List Row) (r : Row)
    → IdsRise rs
    → first p rs ≡ some r
    → select (is_other r.id) rs ≡ remove_first p rs
delete-first p [] r h e = refl
delete-first p (x ∷ rs) r h e = elim (Bool-cases (p x)) [
  | inl here ↦
      let same : x ≡ r = ground arith in
      let gone : is_other r.id x ≡ false = cc (is_other_self r) in
      rw (here, gone)
        (select-All (is_other r.id) rs
          (keeps_later r rs (subst (λ (y : Row). All (λ z. y.id < z.id) rs) same h.0)))
  | inr later ↦
      let below : x.id < r.id = All-first (λ y. x.id < y.id) p rs r (ground arith) h.0 in
      ground (arith, is_other_earlier x r below, delete-first p rs r h.1)
]

-- With the token of the first blob that has the tag and the time, `consume` returns true and takes that blob
-- alone out of the table.
pub consume_removes_first :
    (now : ℕ) (tag : Bytes) (stored_at : ℕ) (token : Bytes) (s : BlobStore) (r : Row)
    → IsValid now s
    → length tag ≡ 32
    → token ≢ []
    → first (is_at tag stored_at) s.rows ≡ some r
    → r.consume_token ≡ some token
    → consume tag stored_at token s
      ≡ ok (true, record s { rows = remove_first (is_at tag stored_at) s.rows })
unfolding consume
consume_removes_first now tag stored_at token s r v h ne e t =
    ground (arith, delete-first (is_at tag stored_at) s.rows r v.rising e, eqb_refl token)

-- Of two blobs that came with the same tag in the same millisecond and with different tokens, the
-- second cannot be consumed while the first is there: its own token is refused as a mismatch.
pub consume_shadowed :
    (tag : Bytes) (stored_at : ℕ) (token other : Bytes) (s : BlobStore) (r : Row)
    → length tag ≡ 32
    → token ≢ []
    → first (is_at tag stored_at) s.rows ≡ some r
    → r.consume_token ≡ some other
    → other ≢ token
    → consume tag stored_at token s ≡ err token_mismatch
unfolding consume
consume_shadowed tag stored_at token other s r h ne e t d = ground (arith, eqb_iff other token)
