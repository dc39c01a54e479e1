-- ===== src/LocalStore/Tables.antt =====
-- The SQL that core/store.py uses, on a table as the list of its rows by rowid. A key is a test on rows. Rows
-- that an ORDER BY leaves equal come in the order of the table; SQLite leaves that open.
use yakr.Prelude.{
  ◌+◌, ◌≤◌, ◌≡◌, refl, Bool, true, false, not, Bool-cases, Option-cases, inl, inr, Option, none,
  some, List, [], ◌∷◌, ◌++◌, if◌then◌else◌, subst, count, select, first, any, count-append,
  count-select-le, ltb, ◌∙◌, All, All-map, arith,
}

module _ {ℓ} {A : Type ℓ} where
  abbrev pub lacks : (A → Bool) → A → Bool
  lacks same r = not (same r)

  -- `INSERT OR REPLACE`: `same` is the test on the new row's key.
  unfoldable pub insert_or_replace : (A → Bool) → A → List A → List A
  insert_or_replace same r rows = select (lacks same) rows ++ r ∷ []

  -- `INSERT OR IGNORE`
  unfoldable pub insert_or_ignore : (A → Bool) → A → List A → List A
  insert_or_ignore same r rows = if any same rows then rows else rows ++ r ∷ []

  insert_ordered : (A → A → Bool) → A → List A → List A
  insert_ordered before r [] = r ∷ []
  insert_ordered before r (x ∷ xs) =
      if before r x then r ∷ x ∷ xs else x ∷ insert_ordered before r xs

  sort_onto : (A → A → Bool) → List A → List A → List A
  sort_onto before done [] = done
  sort_onto before done (x ∷ xs) = sort_onto before (insert_ordered before x done) xs

  -- `ORDER BY`, by a strict order.
  unfoldable pub order_by : (A → A → Bool) → List A → List A
  unfolding sort_onto insert_ordered
  order_by before rows = sort_onto before [] rows

  -- What INSERT OR IGNORE leaves under a key: the row that was there, or the new one.
  abbrev pub found_or : A → Option A → A
  found_or r none = r
  found_or r (some there) = there

  -- A row that was found, if a deletion keeps it.
  abbrev pub kept : (A → Bool) → Option A → Option A
  kept keep none = none
  kept keep (some r) = if keep r then some r else none

module _ {ℓ} {A : Type ℓ} (p : A → Bool) where
  count-insert_ordered :
      (before : A → A → Bool) (r : A) (xs : List A)
      → count p (insert_ordered before r xs) ≡ (if p r then 1 else 0) + count p xs
  unfolding insert_ordered
  count-insert_ordered before r [] = refl
  count-insert_ordered before r (x ∷ xs) = ground (arith, count-insert_ordered before r xs)

  count-sort_onto :
      (before : A → A → Bool) (done xs : List A)
      → count p (sort_onto before done xs) ≡ count p done + count p xs
  unfolding sort_onto
  count-sort_onto before done [] = omega arith
  count-sort_onto before done (x ∷ xs) = omega (
    arith,
    count-sort_onto before (insert_ordered before x done) xs,
    count-insert_ordered before x done,
  )

  -- An ORDER BY has the rows of the table.
  pub count-order_by :
      (before : A → A → Bool) (xs : List A) → count p (order_by before xs) ≡ count p xs
  unfolding order_by
  count-order_by before xs = omega (arith, count-sort_onto before [] xs)

  pub any-count : (xs : List A) → any p xs ≡ ltb 0 (count p xs)
  any-count [] = refl
  any-count (x ∷ xs) = ground (arith, any-count xs)

  pub first-append : (xs ys : List A) → first p xs ≡ none → first p (xs ++ ys) ≡ first p ys
  first-append [] ys h = refl
  first-append (x ∷ xs) ys h = ground (arith, first-append xs ys)

  pub first-append_some :
      (xs ys : List A) (r : A) → first p xs ≡ some r → first p (xs ++ ys) ≡ some r
  first-append_some [] ys r h = cc
  first-append_some (x ∷ xs) ys r h = ground (arith, first-append_some xs ys r)

  pub first-select-lacks : (xs : List A) → first p (select (lacks p) xs) ≡ none
  first-select-lacks [] = refl
  first-select-lacks (x ∷ xs) = ground (arith, first-select-lacks xs)

  first-append_absent : (xs : List A) (r : A) → p r ≡ false → first p (xs ++ r ∷ []) ≡ first p xs
  first-append_absent [] r h = rw h refl
  first-append_absent (x ∷ xs) r h = ground (arith, first-append_absent xs r h)

  first-none-any : (xs : List A) → first p xs ≡ none → any p xs ≡ false
  first-none-any [] h = refl
  first-none-any (x ∷ xs) h = ground (arith, first-none-any xs)

  first-some-any : (xs : List A) (r : A) → first p xs ≡ some r → any p xs ≡ true
  first-some-any [] r h = cc
  first-some-any (x ∷ xs) r h = ground (arith, first-some-any xs r)

  pub first-insert_or_ignore :
      (r : A) (xs : List A)
      → p r ≡ true
      → first p (insert_or_ignore p r xs) ≡ some (found_or r (first p xs))
  unfolding insert_or_ignore
  first-insert_or_ignore r xs h = elim (Option-cases (first p xs)) [
    | inl absent ↦ rw (first-none-any xs absent, absent, first-append xs (r ∷ []) absent, h) refl
    | inr (there, found) ↦ rw (first-some-any xs there found, found) refl
  ]

  pub first-insert_or_ignore_other :
      (q : A → Bool) (r : A) (xs : List A)
      → p r ≡ false
      → first p (insert_or_ignore q r xs) ≡ first p xs
  unfolding insert_or_ignore
  first-insert_or_ignore_other q r xs other = elim (Bool-cases (any q xs)) [
    | inl there ↦ rw there refl
    | inr absent ↦ rw absent (first-append_absent xs r other)
  ]

  first-none : (xs : List A) → count p xs ≤ 0 → first p xs ≡ none
  first-none [] h = refl
  first-none (x ∷ xs) h = ground (arith, first-none xs)

  count-one : (r : A) → count p (r ∷ []) ≤ 1
  count-one r = ground arith

  count-one-false : (r : A) → p r ≡ false → count p (r ∷ []) ≡ 0
  count-one-false r h = rw h refl

  count-select-lacks :
      (q : A → Bool) (xs : List A) → ((x : A) → q x ≡ p x) → count p (select (lacks q) xs) ≡ 0
  count-select-lacks q [] h = refl
  count-select-lacks q (x ∷ xs) h = ground (arith, h x, count-select-lacks q xs h)

  count_zero-any :
      (q : A → Bool) (xs : List A) → ((x : A) → q x ≡ p x) → any q xs ≡ false → count p xs ≡ 0
  count_zero-any q [] h e = refl
  count_zero-any q (x ∷ xs) h e = ground (arith, h x, count_zero-any q xs h)

  -- The rows of other keys are found as before.
  pub first-select_other :
      (q : A → Bool) (xs : List A)
      → ((x : A) → q x ≡ true → p x ≡ false)
      → first p (select (lacks q) xs) ≡ first p xs
  first-select_other q [] h = refl
  first-select_other q (x ∷ xs) h = ground (arith, h x, first-select_other q xs h)

  pub first-insert_or_replace :
      (r : A) (xs : List A) → p r ≡ true → first p (insert_or_replace p r xs) ≡ some r
  unfolding insert_or_replace
  first-insert_or_replace r xs h =
      rw (first-append (select (lacks p) xs) (r ∷ []) (first-select-lacks xs), h) refl

  pub first-insert_or_replace_other :
      (q : A → Bool) (r : A) (xs : List A)
      → ((x : A) → q x ≡ true → p x ≡ false)
      → p r ≡ false
      → first p (insert_or_replace q r xs) ≡ first p xs
  unfolding insert_or_replace
  first-insert_or_replace_other q r xs h other =
      first-append_absent (select (lacks q) xs) r other ∙ first-select_other q xs h

  -- A deletion by another test, of a row whose key is unique.
  pub first-select_keep :
      (keep : A → Bool) (xs : List A)
      → count p xs ≤ 1
      → first p (select keep xs) ≡ kept keep (first p xs)
  first-select_keep keep [] h = refl
  first-select_keep keep (x ∷ xs) h = elim (Bool-cases (p x)) [
    | inl here ↦ elim (Bool-cases (keep x)) [
      | inl stays ↦ rw (stays, here, stays) refl
      | inr goes ↦
          rw (goes, here, goes)
            (first-none (select keep xs) (omega (arith, rw here at h, count-select-le p keep xs)))
    ]
    | inr later ↦ elim (Bool-cases (keep x)) [
      | inl stays ↦ rw (stays, later) (first-select_keep keep xs (omega arith))
      | inr goes ↦ rw (goes, later) (first-select_keep keep xs (omega arith))
    ]
  ]

  -- Keys stay unique.
  pub count-insert_or_replace :
      (q : A → Bool) (r : A) (xs : List A)
      → ((x : A) → p r ≡ true → q x ≡ p x)
      → count p xs ≤ 1
      → count p (insert_or_replace q r xs) ≤ 1
  unfolding insert_or_replace
  count-insert_or_replace q r xs h unique = elim (Bool-cases (p r)) [
    | inr other ↦ omega (
      arith,
      count-append p (select (lacks q) xs) (r ∷ []),
      count-select-le p (lacks q) xs,
      count-one-false r other,
    )
    | inl mine ↦ omega (
      arith,
      count-append p (select (lacks q) xs) (r ∷ []),
      count-select-lacks q xs (λ x. h x mine),
      count-one r,
    )
  ]

  pub count-insert_or_ignore :
      (q : A → Bool) (r : A) (xs : List A)
      → ((x : A) → p r ≡ true → q x ≡ p x)
      → count p xs ≤ 1
      → count p (insert_or_ignore q r xs) ≤ 1
  unfolding insert_or_ignore
  count-insert_or_ignore q r xs h unique = elim (Bool-cases (any q xs)) [
    | inl there ↦ rw there unique
    | inr absent ↦ elim (Bool-cases (p r)) [
      | inr other ↦ rw absent (omega (arith, count-append p xs (r ∷ []), count-one-false r other))
      | inl mine ↦ rw absent (
          omega (
            arith,
            count-append p xs (r ∷ []),
            count_zero-any q xs (λ x. h x mine) absent,
            count-one r,
          ))
    ]
  ]

-- The first row of an ORDER BY comes before no other, for an order that is transitive in this sense.
module _ {ℓ κ} {A : Type ℓ} (before : A → A → Bool) (Below : A → A → Type κ)
    (below_trans : (x y z : A) → Below x y → Below y z → Below x z)
    (yes_below : (r x : A) → before r x ≡ true → Below x r)
    (no_below : (r x : A) → before r x ≡ false → Below r x) where
  abbrev HeadsAll : List A → Type κ
  HeadsAll [] = Unit
  HeadsAll (x ∷ xs) = All (λ y. Below y x) xs

  All-insert_ordered :
      (P : A → Type κ) (r : A) (xs : List A) → P r → All P xs → All P (insert_ordered before r xs)
  unfolding insert_ordered
  All-insert_ordered P r [] h g = (h, tt)
  All-insert_ordered P r (x ∷ xs) h g = elim (Bool-cases (before r x)) [
    | inl first_ ↦ rw first_ (h, (g.0, g.1))
    | inr later ↦ rw later (g.0, All-insert_ordered P r xs h g.1)
  ]

  All-insert_ordered_parts :
      (P : A → Type κ) (r : A) (xs : List A) → All P (insert_ordered before r xs) → P r × All P xs
  unfolding insert_ordered
  All-insert_ordered_parts P r [] h = (h.0, tt)
  All-insert_ordered_parts P r (x ∷ xs) h = elim (Bool-cases (before r x)) [
    | inl first_ ↦ let g = rw first_ at h in (g.0, g.1)
    | inr later ↦
        let g = rw later at h in
        let parts = All-insert_ordered_parts P r xs g.1 in (parts.0, (g.0, parts.1))
  ]

  insert_ordered-HeadsAll :
      (r : A) (xs : List A) → HeadsAll xs → HeadsAll (insert_ordered before r xs)
  unfolding insert_ordered
  insert_ordered-HeadsAll r [] h = tt
  insert_ordered-HeadsAll r (x ∷ xs) h = elim (Bool-cases (before r x)) [
    | inl first_ ↦
        rw first_ (
          yes_below r x first_,
          All-map _ _ xs (λ y b. below_trans y x r b (yes_below r x first_)) h,
        )
    | inr later ↦ rw later (All-insert_ordered (λ y. Below y x) r xs (no_below r x later) h)
  ]

  sort_onto-HeadsAll : (done xs : List A) → HeadsAll done → HeadsAll (sort_onto before done xs)
  unfolding sort_onto
  sort_onto-HeadsAll done [] h = h
  sort_onto-HeadsAll done (x ∷ xs) h =
      sort_onto-HeadsAll (insert_ordered before x done) xs (insert_ordered-HeadsAll x done h)

  All-sort_onto_parts :
      (P : A → Type κ) (done xs : List A) → All P (sort_onto before done xs) → All P done × All P xs
  unfolding sort_onto
  All-sort_onto_parts P done [] h = (h, tt)
  All-sort_onto_parts P done (x ∷ xs) h =
      let rest = All-sort_onto_parts P (insert_ordered before x done) xs h in
      let parts = All-insert_ordered_parts P x done rest.0 in (parts.1, (parts.0, rest.1))

  heads-first :
      (refl_below : (x : A) → Below x x) (xs : List A) (r : A)
      → HeadsAll xs
      → first (λ x. true) xs ≡ some r
      → All (λ x. Below x r) xs
  heads-first refl_below [] r h e = cc
  heads-first refl_below (x ∷ xs) r h e =
      let same : x ≡ r = cc in subst (λ z. All (λ y. Below y z) (x ∷ xs)) same (refl_below x, h)

  -- `ORDER BY … LIMIT 1`
  pub first-order_by :
      (refl_below : (x : A) → Below x x) (xs : List A) (r : A)
      → first (λ x. true) (order_by before xs) ≡ some r
      → All (λ x. Below x r) xs
  unfolding order_by
  first-order_by refl_below xs r e =
      let heads = sort_onto-HeadsAll [] xs tt in
      (All-sort_onto_parts (λ x. Below x r) [] xs
        (heads-first refl_below (sort_onto before [] xs) r heads e)).1
