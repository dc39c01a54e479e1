-- ===== src/Relay/BlobStore/Quota.antt =====
-- relay/store.py: what holds of the table whatever the calls: the limit for each tag, the sizes and
-- the lifetimes of the rows.
use yakr.Prelude.{
  ℕ, ◌+◌, ◌≤◌, ◌<◌, ◌≡◌, Bool, true, Option, List, [], ◌∷◌, ◌++◌, arith, ok, Option-cases, ◌⊎◌, inl,
  inr, length, select, count, first, Bytes, eqb, eqb_iff, eqb_refl, subst, sym, All, All-append,
  All-select, All-map, count-append, count_mono, count-select-le,
}
use yakr.Ephemeral.{max_relay_blob_ttl_ms}
use yakr.Relay.BlobStore.{
  Row, BlobStore, empty, is_live, insert_blob, delete_id, store, is_at, consume, sweep_expired,
}

-- What the checks of `store` leave true of a row at a time no earlier than it was stored.
pub record IsFit (size next_id now : ℕ) (r : Row) : Type 0 where
  pub tag_length : length r.mailbox_tag ≡ 32
  pub fits : length r.ciphertext ≤ size
  pub past : r.stored_at ≤ now
  pub lives : r.stored_at < r.expires_at
  pub lifetime : r.expires_at ≤ r.stored_at + max_relay_blob_ttl_ms
  pub numbered : r.id < next_id

-- The ids rise along the table.
abbrev pub IdsRise : List Row → Type 0
IdsRise [] = Unit
IdsRise (r ∷ rs) = All (λ x. r.id < x.id) rs × IdsRise rs

pub record IsValid (now : ℕ) (s : BlobStore) : Type 0 where
  pub quota : (tag : Bytes) → count (is_live tag now) s.rows ≤ s.max_blobs_per_tag
  pub fit : All (IsFit s.max_blob_size s.next_id now) s.rows
  pub rising : IdsRise s.rows

IdsRise-append :
    (rs : List Row) (r : Row) → IdsRise rs → All (λ x. x.id < r.id) rs → IdsRise (rs ++ r ∷ [])
IdsRise-append [] r h k = (tt, tt)
IdsRise-append (x ∷ rs) r h k =
    (All-append (λ y. x.id < y.id) rs (r ∷ []) h.0 (k.0, tt), IdsRise-append rs r h.1 k.1)

IdsRise-select : (p : Row → Bool) (rs : List Row) → IdsRise rs → IdsRise (select p rs)
IdsRise-select p [] h = tt
IdsRise-select p (x ∷ rs) h =
    ground (arith, All-select (λ y. x.id < y.id) p rs h.0, IdsRise-select p rs h.1)

IsFit-later :
    {size next next' now now' : ℕ}
    → next ≤ next'
    → now ≤ now'
    → (r : Row) → IsFit size next now r
    → IsFit size next' now' r
IsFit-later hn ht r f = omega arith

is_live-earlier :
    (tag : Bytes) (now later : ℕ)
    → now ≤ later
    → (r : Row) → is_live tag later r ≡ true
    → is_live tag now r ≡ true
unfolding is_live
is_live-earlier tag now later h r live = ground arith

-- Time passes: fewer rows are live.
pub wait-IsValid : (now later : ℕ) (s : BlobStore) → now ≤ later → IsValid now s → IsValid later s
wait-IsValid now later s h v = record {
  quota =
      λ tag. omega (arith, v.quota tag, count_mono _ _ s.rows (is_live-earlier tag now later h));
  fit = All-map _ _ s.rows (IsFit-later (omega arith) h) v.fit;
  rising = v.rising;
}

-- What a call of `store` that returns has checked and done.
pub record Stored (now : ℕ) (tag : Bytes) (expires_at : ℕ) (ciphertext : Bytes)
    (token : Option Bytes) (s s' : BlobStore) : Type 0 where
  pub tag_length : length tag ≡ 32
  pub fits : length ciphertext ≤ s.max_blob_size
  pub lives : now < expires_at
  pub lifetime : expires_at ≤ now + max_relay_blob_ttl_ms
  pub room : count (is_live tag now) s.rows < s.max_blobs_per_tag
  pub inserted : s' ≡ insert_blob now tag expires_at ciphertext token s

pub store-Stored :
    (now : ℕ) (tag : Bytes) (expires_at : ℕ) (ciphertext : Bytes) (token : Option Bytes)
    (s s' : BlobStore)
    → store now tag expires_at ciphertext token s ≡ ok s'
    → Stored now tag expires_at ciphertext token s s'
unfolding store
store-Stored now tag expires_at ciphertext token s s' e = ground arith

quota-insert_blob :
    (now : ℕ) (tag other : Bytes) (r : Row) (rows : List Row) (most : ℕ)
    → eqb r.mailbox_tag tag ≡ true
    → count (is_live tag now) rows < most
    → count (is_live other now) rows ≤ most
    → count (is_live other now) (rows ++ r ∷ []) ≤ most
unfolding is_live
quota-insert_blob now tag other r rows most h room old = ground (
  arith,
  count-append (is_live other now) rows (r ∷ []),
  eqb_iff r.mailbox_tag tag,
  eqb_iff r.mailbox_tag other,
)

pub store-IsValid :
    (now : ℕ) (tag : Bytes) (expires_at : ℕ) (ciphertext : Bytes) (token : Option Bytes)
    (s s' : BlobStore)
    → IsValid now s
    → store now tag expires_at ciphertext token s ≡ ok s'
    → IsValid now s'
store-IsValid now tag expires_at ciphertext token s s' v e =
    let did = store-Stored now tag expires_at ciphertext token s s' e in
    subst (IsValid now) (sym did.inserted) (record {
      quota = λ other.
          quota-insert_blob now tag other _ s.rows s.max_blobs_per_tag (eqb_refl tag) did.room
            (v.quota other);
      fit =
          All-append _ s.rows _ (All-map _ _ s.rows (IsFit-later (omega arith) (omega arith)) v.fit)
            (omega arith);
      rising = IdsRise-append s.rows _ v.rising (All-map _ _ s.rows (λ r f. f.numbered) v.fit);
    })

select-IsValid :
    (p : Row → Bool) (now : ℕ) (s : BlobStore)
    → IsValid now s
    → IsValid now (record s { rows = select p s.rows })
select-IsValid p now s v = record {
  quota = λ tag. omega (arith, v.quota tag, count-select-le (is_live tag now) p s.rows);
  fit = All-select _ p s.rows v.fit;
  rising = IdsRise-select p s.rows v.rising;
}

-- `consume` deletes by an id, or changes nothing.
consume-deletes :
    (tag : Bytes) (stored_at : ℕ) (token : Bytes) (s s' : BlobStore) (b : Bool)
    → consume tag stored_at token s ≡ ok (b, s')
    → (s' ≡ s) ⊎ ((id : ℕ) × (s' ≡ delete_id id s))
unfolding consume
consume-deletes tag stored_at token s s' b e =
    elim (Option-cases (first (is_at tag stored_at) s.rows)) [
      | inl absent ↦ inl (ground arith)
      | inr (r, found) ↦ inr (r.id, ground arith)
    ]

pub consume-IsValid :
    (now : ℕ) (tag : Bytes) (stored_at : ℕ) (token : Bytes) (s s' : BlobStore) (b : Bool)
    → IsValid now s
    → consume tag stored_at token s ≡ ok (b, s')
    → IsValid now s'
consume-IsValid now tag stored_at token s s' b v e =
    elim (consume-deletes tag stored_at token s s' b e) [
      | inl same ↦ subst (IsValid now) (sym same) v
      | inr (id, less) ↦ subst (IsValid now) (sym less) (select-IsValid _ now s v)
    ]

pub sweep_expired-IsValid :
    (now : ℕ) (s : BlobStore) → IsValid now s → IsValid now (sweep_expired now s).1
unfolding sweep_expired
sweep_expired-IsValid now s v = select-IsValid _ now s v

-- One call, or the passing of time, at a clock that only rises.
pub data Step (t : ℕ) (s : BlobStore) : ℕ → BlobStore → Type 0 where
  wait : (d : ℕ) → Step t s (t + d) s
  stored :
      (tag : Bytes) (expires_at : ℕ) (ciphertext : Bytes) (token : Option Bytes) (s' : BlobStore)
      → store t tag expires_at ciphertext token s ≡ ok s'
      → Step t s t s'
  consumed :
      (tag : Bytes) (stored_at : ℕ) (token : Bytes) (b : Bool) (s' : BlobStore)
      → consume tag stored_at token s ≡ ok (b, s')
      → Step t s t s'
  swept : Step t s t (sweep_expired t s).1

pub data Reach (t₀ : ℕ) (s₀ : BlobStore) : ℕ → BlobStore → Type 0 where
  here : Reach t₀ s₀ t₀ s₀
  next : {t t' : ℕ} {s s' : BlobStore} → Reach t₀ s₀ t s → Step t s t' s' → Reach t₀ s₀ t' s'

Step-IsValid : {t t' : ℕ} {s s' : BlobStore} → Step t s t' s' → IsValid t s → IsValid t' s'
Step-IsValid {t} {s = s} (wait d) v = wait-IsValid t (t + d) s (omega arith) v
Step-IsValid {t} {s = s} (stored tag expires_at ciphertext token s' e) v =
    store-IsValid t tag expires_at ciphertext token s s' v e
Step-IsValid {t} {s = s} (consumed tag stored_at token b s' e) v =
    consume-IsValid t tag stored_at token s s' b v e
Step-IsValid {t} {s = s} swept v = sweep_expired-IsValid t s v

-- From a valid store, whatever calls come in whatever order as the clock rises, no mailbox tag ever
-- has more than `max_blobs_per_tag` unexpired blobs, every row passed the checks of `store`, and the
-- ids of the rows rise.
pub Reach-IsValid :
    {t₀ : ℕ} {s₀ : BlobStore} {t : ℕ} {s : BlobStore}
    → IsValid t₀ s₀
    → Reach t₀ s₀ t s
    → IsValid t s
Reach-IsValid v here = v
Reach-IsValid v (next r st) = Step-IsValid st (Reach-IsValid v r)

pub empty-IsValid : (t size per_tag : ℕ) → IsValid t (empty size per_tag)
empty-IsValid t size per_tag = record { quota = λ tag. omega arith; fit = tt; rising = tt }
