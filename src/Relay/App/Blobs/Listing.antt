-- ===== src/Relay/App/Blobs/Listing.antt =====
-- relay/app.py `fetch_blobs_post`: what the list of blobs holds.
use mathlib.Core.List.{Memᴰ}
use mathlib.Core.List.Memᴰ.{head, tail}
use yakr.Prelude.{
  ℕ, ◌+◌, ◌≤◌, ◌≡◌, refl, ap, sym, true, false, Bool-cases, inl, inr, some, List, [], ◌∷◌, map, ok,
  bind-eq-ok, or_raise, or_raise-eq-ok, ok-injective, subst, ◌==◌, if◌then◌else◌, count, Bytes,
  Text, eqb_iff, arith,
}
use yakr.Base64.{b64decode}
use yakr.Relay.BlobStore.{BlobStore, StoredBlob, fetch}
use yakr.Relay.App.Blobs.{
  BlobResponse, blob_response, Key, same_key, is_seen, key_of, add_blobs, add_tags, reverse_onto,
  list_blobs,
}

abbrev pub response_key : BlobResponse → Key
response_key b = (b.ciphertext, b.stored_at)

-- How many of the keys are this one.
abbrev occurrences : Key → List Key → ℕ
occurrences key ks = count (same_key key) ks

same_key-eq : (key k : Key) → same_key key k ≡ true → key ≡ k
unfolding same_key
same_key-eq (c, t) (c', t') e = ground (arith, eqb_iff c c')

same_key_refl : (key : Key) → same_key key key ≡ true
unfolding same_key
same_key_refl (c, t) = ground (arith, eqb_iff c c)

is_seen-occurrences :
    (key : Key) (ks : List Key) → is_seen key ks ≡ (if occurrences key ks == 0 then false else true)
unfolding is_seen
is_seen-occurrences key [] = refl
is_seen-occurrences key (k ∷ ks) = ground (arith, is_seen-occurrences key ks)

record Tracks (acc : List BlobResponse × List Key) : Type 0 where
  keys : map response_key acc.0 ≡ acc.1
  unique : (key : Key) → occurrences key acc.1 ≤ 1

unique-cons :
    (k : Key) (seen : List Key)
    → ((key : Key) → occurrences key seen ≤ 1)
    → is_seen k seen ≡ false
    → (key : Key) → occurrences key (k ∷ seen) ≤ 1
unique-cons k seen unique fresh key = elim (Bool-cases (same_key key k)) [
  | inl same ↦
      ground
        (arith, ap (λ x. occurrences x seen) (same_key-eq key k same), is_seen-occurrences k seen)
  | inr other ↦ ground (arith, unique key)
]

add_blobs-Tracks :
    (bs : List StoredBlob) (acc : List BlobResponse × List Key)
    → Tracks acc
    → Tracks (add_blobs bs acc)
unfolding add_blobs
add_blobs-Tracks [] acc h = h
add_blobs-Tracks (b ∷ bs) (items, seen) h = elim (Bool-cases (is_seen (key_of b) seen)) [
  | inl old ↦ rw old (add_blobs-Tracks bs (items, seen) h)
  | inr new ↦ rw new (
      add_blobs-Tracks bs (blob_response b ∷ items, key_of b ∷ seen)
        (record {
          keys = ap (◌∷◌ (key_of b)) h.keys;
          unique = unique-cons (key_of b) seen h.unique new;
        }))
]

occurrences-add_blobs :
    (key : Key) (bs : List StoredBlob) (acc : List BlobResponse × List Key)
    → occurrences key acc.1 ≤ occurrences key (add_blobs bs acc).1
unfolding add_blobs
occurrences-add_blobs key [] acc = omega arith
occurrences-add_blobs key (b ∷ bs) (items, seen) = ground (
  arith,
  occurrences-add_blobs key bs (items, seen),
  occurrences-add_blobs key bs (blob_response b ∷ items, key_of b ∷ seen),
)

add_blobs-covers_head :
    (x : StoredBlob) (bs : List StoredBlob) (acc : List BlobResponse × List Key)
    → 1 ≤ occurrences (key_of x) (add_blobs (x ∷ bs) acc).1
unfolding add_blobs
add_blobs-covers_head x bs (items, seen) = ground (
  arith,
  is_seen-occurrences (key_of x) seen,
  same_key_refl (key_of x),
  occurrences-add_blobs (key_of x) bs (items, seen),
  occurrences-add_blobs (key_of x) bs (blob_response x ∷ items, key_of x ∷ seen),
)

add_blobs-covers :
    (b : StoredBlob) (bs : List StoredBlob) (acc : List BlobResponse × List Key)
    → Memᴰ b bs
    → 1 ≤ occurrences (key_of b) (add_blobs bs acc).1
unfolding add_blobs
add_blobs-covers b [] acc m = elim m [ ]
add_blobs-covers b (x ∷ bs) acc (head e) =
    subst (λ y. 1 ≤ occurrences (key_of y) (add_blobs (x ∷ bs) acc).1) (sym e)
      (add_blobs-covers_head x bs acc)
add_blobs-covers b (x ∷ bs) (items, seen) (tail m) = ground (
  arith,
  add_blobs-covers b bs (items, seen) m,
  add_blobs-covers b bs (blob_response x ∷ items, key_of x ∷ seen) m,
)

-- What the outer loop leaves of the invariant.
add_tags-Tracks :
    (now : ℕ) (store : BlobStore) (tags : List Text) (acc acc' : List BlobResponse × List Key)
    → add_tags now store tags acc ≡ ok acc'
    → Tracks acc
    → Tracks acc'
unfolding add_tags
add_tags-Tracks now store [] acc acc' e h = subst Tracks (ok-injective e) h
add_tags-Tracks now store (t ∷ ts) acc acc' e h =
    let (tag, read, rest) = bind-eq-ok (or_raise (b64decode t) 400) _ e in
    add_tags-Tracks now store ts (add_blobs (fetch now tag store) acc) acc' rest
      (add_blobs-Tracks (fetch now tag store) acc h)

occurrences-add_tags :
    (key : Key) (now : ℕ) (store : BlobStore) (tags : List Text)
    (acc acc' : List BlobResponse × List Key)
    → add_tags now store tags acc ≡ ok acc'
    → occurrences key acc.1 ≤ occurrences key acc'.1
unfolding add_tags
occurrences-add_tags key now store [] acc acc' e =
    omega (arith, ap (λ (x : List BlobResponse × List Key). occurrences key x.1) (ok-injective e))
occurrences-add_tags key now store (t ∷ ts) acc acc' e =
    let (tag, read, rest) = bind-eq-ok (or_raise (b64decode t) 400) _ e in
    omega (
      arith,
      occurrences-add_tags key now store ts (add_blobs (fetch now tag store) acc) acc' rest,
      occurrences-add_blobs key (fetch now tag store) acc,
    )

add_tags-covers :
    (now : ℕ) (store : BlobStore) (t : Text) (tag : Bytes) (b : StoredBlob) (tags : List Text)
    (acc acc' : List BlobResponse × List Key)
    → add_tags now store tags acc ≡ ok acc'
    → Memᴰ t tags
    → b64decode t ≡ some tag
    → Memᴰ b (fetch now tag store)
    → 1 ≤ occurrences (key_of b) acc'.1
unfolding add_tags
add_tags-covers now store t tag b [] acc acc' e p read m = elim p [ ]
add_tags-covers now store t tag b (x ∷ ts) acc acc' e (head p) read m =
    let (tag', e1, rest) = bind-eq-ok (or_raise (b64decode x) 400) _ e in
    let same : tag' ≡ tag = cc (or_raise-eq-ok _ 400 e1, read, ap b64decode p) in
    let m' : Memᴰ b (fetch now tag' store) = subst (λ v. Memᴰ b (fetch now v store)) (sym same) m in
    let more = add_blobs (fetch now tag' store) acc in
    omega (
      arith,
      occurrences-add_tags (key_of b) now store ts more acc' rest,
      add_blobs-covers b (fetch now tag' store) acc m',
    )
add_tags-covers now store t tag b (x ∷ ts) acc acc' e (tail p) read m =
    let (other, e1, rest) = bind-eq-ok (or_raise (b64decode x) 400) _ e in
    add_tags-covers now store t tag b ts (add_blobs (fetch now other store) acc) acc' rest p read m

occurrences-reverse_onto :
    (key : Key) (items rest : List BlobResponse)
    → occurrences key (map response_key (reverse_onto items rest))
      ≡ occurrences key (map response_key items) + occurrences key (map response_key rest)
unfolding reverse_onto
occurrences-reverse_onto key [] rest = omega arith
occurrences-reverse_onto key (x ∷ items) rest =
    omega (arith, occurrences-reverse_onto key items (x ∷ rest))

-- A listing that succeeds has each live blob of each tag asked for exactly once, by its ciphertext and its time,
-- however often and under however many of the tags it was found.
pub list_blobs-once :
    (now : ℕ) (store : BlobStore) (tags : List Text) (items : List BlobResponse) (t : Text)
    (tag : Bytes) (b : StoredBlob)
    → list_blobs now store tags ≡ ok items
    → Memᴰ t tags
    → b64decode t ≡ some tag
    → Memᴰ b (fetch now tag store)
    → count (same_key (key_of b)) (map response_key items) ≡ 1
unfolding list_blobs
list_blobs-once now store tags items t tag b e asked read m =
    let (acc, e1, e2) = bind-eq-ok (add_tags now store tags ([], [])) _ e in
    let h =
      add_tags-Tracks now store tags ([], []) acc e1
        (record { keys = refl; unique = λ key. omega arith }) in
    let covered = add_tags-covers now store t tag b tags ([], []) acc e1 asked read m in
    let same : reverse_onto acc.0 [] ≡ items = ok-injective e2 in
    let total = occurrences-reverse_onto (key_of b) acc.0 [] in
    rw (sym same)
      (omega (arith, covered, h.unique (key_of b), total, ap (occurrences (key_of b)) h.keys))
