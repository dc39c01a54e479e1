-- ===== src/Codec.antt =====
-- The CBOR payloads that the core signs and stores (cbor2), and Python's conversions `int`, `str`,
-- `bytes` and iteration of what `cbor2.loads` returns. The library is a parameter.
pub mod Sample
use yakr.Prelude.{
  ℕ, ◌≡◌, refl, Bool, true, false, Option, none, some, List, [], ◌∷◌, arith, Result, ok, err, ◌>>=◌,
  if◌then◌else◌, Bytes, Text, IsBytes, eqb, or_raise,
}

-- `other` stands for the values that the program never writes: None, floats, tags and so on.
mutual
  pub data Value : Type 0 where
    int : ℕ → Value
    bytes : Bytes → Value
    text : Text → Value
    list : Items → Value
    map : Fields → Value
    other : ℕ → Value

  pub data Items : Type 0 where
    nil : Items
    cons : Value → Items → Items

  pub data Fields : Type 0 where
    end : Fields
    field : Text → Value → Fields → Fields

-- `none` is an exception. The laws: a value is written as bytes and read back as it was, and a
-- conversion leaves the values of its own type as they are.
pub record Codec : Type 0 where
  pub dumps : Value → Bytes
  pub loads : Bytes → Option Value
  pub int_of : Value → Option ℕ
  pub str_of : Value → Option Text
  pub bytes_of : Value → Option Bytes
  pub items_of : Value → Option Items
  pub loads-dumps : (v : Value) → loads (dumps v) ≡ some v
  pub dumps-IsBytes : (v : Value) → IsBytes (dumps v)
  pub int_of_int : (n : ℕ) → int_of (int n) ≡ some n
  pub str_of_text : (t : Text) → str_of (text t) ≡ some t
  pub bytes_of_bytes : (b : Bytes) → bytes_of (bytes b) ≡ some b
  pub items_of_list : (vs : Items) → items_of (list vs) ≡ some vs

-- `payload.get(key)`
abbrev pub get : Text → Fields → Option Value
get key end = none
get key (field k v fs) = if eqb k key then some v else get key fs

-- The values of a list of texts, and back: `list(xs)` and `tuple(str(item) for item in xs)`.
abbrev pub texts : List Text → Items
texts [] = nil
texts (t ∷ ts) = cons (text t) (texts ts)

abbrev pub numbers : List ℕ → Items
numbers [] = nil
numbers (n ∷ ns) = cons (int n) (numbers ns)

-- A value that is indexed by texts.
abbrev pub fields_of : Value → Option Fields
fields_of (map fs) = some fs
fields_of _ = none

module _ (c : Codec) where
  unfoldable pub strs_of : Items → Option (List Text)
  strs_of nil = some []
  strs_of (cons v vs) = elim (c.str_of v) [
    | none ↦ none
    | some t ↦ elim (strs_of vs) [ none ↦ none | some ts ↦ some (t ∷ ts) ]
  ]

  pub strs_of-texts : (ts : List Text) → strs_of (texts ts) ≡ some ts
  unfolding strs_of
  strs_of-texts [] = refl
  strs_of-texts (t ∷ ts) = ground (arith, c.str_of_text t, strs_of-texts ts)

  -- `int(payload[key])` and the like: a missing key raises too.
  abbrev pub int_field : Text → Fields → Option ℕ
  int_field key fs = elim (get key fs) [ none ↦ none | some v ↦ c.int_of v ]

  abbrev pub str_field : Text → Fields → Option Text
  str_field key fs = elim (get key fs) [ none ↦ none | some v ↦ c.str_of v ]

  abbrev pub bytes_field : Text → Fields → Option Bytes
  bytes_field key fs = elim (get key fs) [ none ↦ none | some v ↦ c.bytes_of v ]

  abbrev pub strs_field : Text → Fields → Option (List Text)
  strs_field key fs = elim (get key fs) [
    | none ↦ none
    | some v ↦ elim (c.items_of v) [ none ↦ none | some vs ↦ strs_of vs ]
  ]

  -- `int(payload.get(key, default))` and `bytes(payload.get(key, b""))`
  abbrev pub int_field_or : Text → ℕ → Fields → Option ℕ
  int_field_or key default_value fs = elim (get key fs) [
    | none ↦ some default_value
    | some v ↦ c.int_of v
  ]

  abbrev pub bytes_field_or_empty : Text → Fields → Option Bytes
  bytes_field_or_empty key fs = elim (get key fs) [ none ↦ some [] | some v ↦ c.bytes_of v ]

  unfoldable pub ints_of : Items → Option (List ℕ)
  ints_of nil = some []
  ints_of (cons v vs) = elim (c.int_of v) [
    | none ↦ none
    | some n ↦ elim (ints_of vs) [ none ↦ none | some ns ↦ some (n ∷ ns) ]
  ]

  pub ints_of-numbers : (ns : List ℕ) → ints_of (numbers ns) ≡ some ns
  unfolding ints_of
  ints_of-numbers [] = refl
  ints_of-numbers (n ∷ ns) = ground (arith, c.int_of_int n, ints_of-numbers ns)

  abbrev pub ints_field : Text → Fields → Option (List ℕ)
  ints_field key fs = elim (get key fs) [
    | none ↦ none
    | some v ↦ elim (c.items_of v) [ none ↦ none | some vs ↦ ints_of vs ]
  ]

  -- The values of a list, for a comprehension.
  abbrev pub items_field : Text → Fields → Option Items
  items_field key fs = elim (get key fs) [ none ↦ none | some v ↦ c.items_of v ]
