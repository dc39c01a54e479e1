-- ===== src/LocalStore/Outbound/Listing.antt =====
-- core/store.py `list_outbound_pending` and core/receipt_apply.py: which messages are listed, and what a receipt does.
use yakr.Prelude.{
  ℕ, ◌≤◌, ◌≡◌, refl, ap, sym, ◌∙◌, false, Bool, ◌&&◌, Bool-cases, inl, inr, Option, none, some,
  List, [], ◌∷◌, map, count, select, first, any, ltb, Text, eqb, arith,
}
use yakr.LocalStore.Tables.{order_by, count-order_by, any-count}
use yakr.LocalStore.{FileLocalStore}
use yakr.LocalStore.Outbound.{
  OutboundRow, Pending, is_pending, is_waiting, is_id, pending_of, before_by_seq, find_pending,
  list_outbound_pending, has_outbound_pending,
}
use yakr.LocalStore.Outbound.Lifecycle.{IsKeyed}

any-map :
    (p : Pending → Bool) (rows : List OutboundRow)
    → any p (map pending_of rows) ≡ any (λ r. p (pending_of r)) rows
any-map p [] = refl
any-map p (r ∷ rows) = ground (arith, any-map p rows)

-- The waiting rows with an id are the row of the key, if it has not expired.
count-waiting :
    (now : ℕ) (name id : Text) (rows : List OutboundRow)
    → count (λ r. eqb r.msg_id id) (select (is_waiting name now) rows)
      ≡ count (λ r. is_pending name id r && ltb now r.valid_until) rows
unfolding is_waiting is_pending
count-waiting now name id [] = refl
count-waiting now name id (r ∷ rows) = ground (arith, count-waiting now name id rows)

abbrev pub alive : ℕ → Option OutboundRow → Bool
alive now none = false
alive now (some r) = ltb now r.valid_until

count_zero :
    (p q : OutboundRow → Bool) (rows : List OutboundRow)
    → count p rows ≤ 0
    → any (λ r. p r && q r) rows ≡ false
count_zero p q [] h = refl
count_zero p q (r ∷ rows) h = ground (arith, count_zero p q rows)

any-first :
    (p : OutboundRow → Bool) (now : ℕ) (rows : List OutboundRow)
    → count p rows ≤ 1
    → any (λ r. p r && ltb now r.valid_until) rows ≡ alive now (first p rows)
any-first p now [] h = refl
any-first p now (r ∷ rows) h = elim (Bool-cases (p r)) [
  | inr other ↦ rw other (any-first p now rows (omega arith))
  | inl here ↦ elim (Bool-cases (ltb now r.valid_until)) [
    | inl living ↦ rw (here, living) refl
    | inr over ↦
        rw (here, over)
          (count_zero p (λ x. ltb now x.valid_until) rows (omega (arith, rw here at h)))
  ]
]

-- A message is listed as pending exactly while its row is there and has not expired.
pub has_outbound_pending-find :
    (now : ℕ) (name id : Text) (s : FileLocalStore)
    → IsKeyed s.db
    → has_outbound_pending now name id s ≡ alive now (find_pending name id s.db)
unfolding has_outbound_pending list_outbound_pending find_pending
has_outbound_pending-find now name id s h =
    let rows = s.db.outbound_pending in
    let mine : OutboundRow → Bool = λ r. eqb r.msg_id id in
    any-map (is_id id) (order_by before_by_seq (select (is_waiting name now) rows))
    ∙ any-count mine (order_by before_by_seq (select (is_waiting name now) rows))
    ∙ ap (ltb 0) (
        count-order_by mine before_by_seq (select (is_waiting name now) rows)
        ∙ count-waiting now name id rows)
    ∙ sym (any-count (λ r. is_pending name id r && ltb now r.valid_until) rows)
    ∙ any-first (is_pending name id) now rows (h.unique name id)
