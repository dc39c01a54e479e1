-- ===== src/Names.antt =====
-- Lists of names in one text: `",".join(names)`, and the reading of it in core/identity.py
-- `Contact.from_dict` and core/store.py `take_profile_ack_pending`.
use yakr.Prelude.{
  ℕ, ◌≡◌, ◌≢◌, refl, ap, Bool, false, not, ◌||◌, ◌&&◌, List, [], ◌∷◌, ◌++◌, map, leb, ◌==◌,
  if◌then◌else◌, select, null, Text, All, arith,
}

-- The characters that `str.strip()` takes off.
abbrev is_space : ℕ → Bool
is_space c =
    leb 9 c && leb c 13
    || leb 28 c && leb c 32
    || c == 0x85
    || c == 0xa0
    || c == 0x1680
    || leb 0x2000 c && leb c 0x200a
    || c == 0x2028
    || c == 0x2029
    || c == 0x202f
    || c == 0x205f
    || c == 0x3000

-- `text.lstrip()`
lstrip : Text → Text
lstrip [] = []
lstrip (c ∷ cs) = let rest = lstrip cs in if is_space c then rest else c ∷ cs

-- `text.rstrip()`
rstrip_spaces : Text → Text
rstrip_spaces [] = []
rstrip_spaces (c ∷ cs) =
    let rest = rstrip_spaces cs in if null rest && is_space c then [] else c ∷ rest

unfoldable pub strip : Text → Text
unfolding lstrip rstrip_spaces
strip t = lstrip (rstrip_spaces t)

abbrev prepend : ℕ → List Text → List Text
prepend c [] = (c ∷ []) ∷ []
prepend c (p ∷ ps) = (c ∷ p) ∷ ps

-- `text.split(",")`
split_commas : Text → List Text
split_commas [] = [] ∷ []
split_commas (c ∷ cs) = if c == b',' then [] ∷ split_commas cs else prepend c (split_commas cs)

-- `",".join(names)`
unfoldable pub join_names : List Text → Text
join_names [] = []
join_names (n ∷ []) = n
join_names (n ∷ m ∷ ns) = n ++ b',' ∷ join_names (m ∷ ns)

abbrev is_filled : Text → Bool
is_filled t = not (null t)

-- `tuple(part.strip() for part in text.split(",") if part.strip())`
unfoldable pub split_names : Text → List Text
unfolding split_commas strip
split_names t = select is_filled (map strip (split_commas t))

-- A name that survives: it is not empty, has no comma, and no space at its ends.
pub record IsPlain (n : Text) : Type 0 where
  pub filled : null n ≡ false
  pub no_comma : All (λ c. c ≢ b',') n
  pub stripped : strip n ≡ n

split_commas-append :
    (n rest : Text)
    → All (λ c. c ≢ b',') n
    → split_commas (n ++ b',' ∷ rest) ≡ n ∷ split_commas rest
unfolding split_commas
split_commas-append [] rest h = refl
split_commas-append (c ∷ cs) rest h =
    let other : (c == b',') ≡ false = ground (arith, h.0) in
    rw (other, split_commas-append cs rest h.1) refl

split_commas-plain : (n : Text) → All (λ c. c ≢ b',') n → split_commas n ≡ n ∷ []
unfolding split_commas
split_commas-plain [] h = refl
split_commas-plain (c ∷ cs) h =
    let other : (c == b',') ≡ false = ground (arith, h.0) in
    rw (other, split_commas-plain cs h.1) refl

-- Names without commas and without spaces at their ends are read as they were joined.
pub split_names-join_names : (ns : List Text) → All IsPlain ns → split_names (join_names ns) ≡ ns
unfolding split_names join_names
split_names-join_names [] h = unfold split_commas strip in refl
split_names-join_names (n ∷ []) h =
    rw (split_commas-plain n h.0.no_comma, h.0.stripped, h.0.filled) refl
split_names-join_names (n ∷ m ∷ ns) h =
    rw (split_commas-append n (join_names (m ∷ ns)) h.0.no_comma, h.0.stripped, h.0.filled)
      (ap (◌∷◌ n) (split_names-join_names (m ∷ ns) h.1))
