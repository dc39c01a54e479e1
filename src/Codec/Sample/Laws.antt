-- ===== src/Codec/Sample/Laws.antt =====
-- The sample codec reads back what it writes, and writes bytes.
use yakr.Prelude.{
  ℕ, zero, suc, ◌+◌, ◌≤◌, ◌<◌, ◌≡◌, refl, some, List, [], ◌∷◌, arith, length, Bytes, Text, IsBytes,
  read_digits,
}
use yakr.Codec.{
  Value, Items, Fields, Codec, int, bytes, text, list, map, other, nil, cons, end, field,
}
use yakr.Codec.Sample.{
  write_nat, write_nats, write_value, write_items, write_fields, read_nat, read_nats, read_value,
  read_items, read_fields, sample_dumps, sample_loads, sample_int_of, sample_str_of,
  sample_bytes_of, sample_items_of,
}

read_nat-write_nat : (n : ℕ) (rest : Bytes) → read_nat (write_nat n rest) ≡ some (n, rest)
unfolding read_nat write_nat
read_nat-write_nat zero rest = refl
read_nat-write_nat (suc n) rest = rw (read_nat-write_nat n rest)

-- The fuel that a reader needs.
size_nats : List ℕ → ℕ
size_nats ns = suc (length ns)

mutual
  unfolding size_nats

  size_value : Value → ℕ
  size_value (int n) = 1
  size_value (bytes b) = suc (size_nats b)
  size_value (text t) = suc (size_nats t)
  size_value (list vs) = suc (size_items vs)
  size_value (map fs) = suc (size_fields fs)
  size_value (other n) = 1

  size_items : Items → ℕ
  size_items nil = 1
  size_items (cons v vs) = suc (size_value v + size_items vs)

  size_fields : Fields → ℕ
  size_fields end = 1
  size_fields (field k v fs) = suc (size_nats k + size_value v + size_fields fs)

read_nats-write_nats :
    (f : ℕ) (ns : List ℕ) (rest : Bytes)
    → size_nats ns ≤ f
    → read_nats f (write_nats ns rest) ≡ some (ns, rest)
unfolding read_nats write_nats size_nats
read_nats-write_nats zero ns rest h = absurd (omega arith)
read_nats-write_nats (suc f) [] rest h = refl
read_nats-write_nats (suc f) (n ∷ ns) rest h =
    rw (read_nat-write_nat n (write_nats ns rest), read_nats-write_nats f ns rest (omega arith))

size_value_pos : (v : Value) → 0 < size_value v
unfolding size_value
size_value_pos (int n) = omega arith
size_value_pos (bytes b) = omega arith
size_value_pos (text t) = omega arith
size_value_pos (list vs) = omega arith
size_value_pos (map fs) = omega arith
size_value_pos (other n) = omega arith

mutual
  unfolding size_value write_value read_value

  read-write_value :
      (v : Value) (f : ℕ) (rest : Bytes)
      → size_value v ≤ f
      → read_value f (write_value v rest) ≡ some (v, rest)
  read-write_value v zero rest h = absurd (omega (arith, size_value_pos v))
  read-write_value (int n) (suc f) rest h = rw (read_nat-write_nat n rest)
  read-write_value (bytes b) (suc f) rest h = rw (read_nats-write_nats f b rest (omega arith))
  read-write_value (text t) (suc f) rest h = rw (read_nats-write_nats f t rest (omega arith))
  read-write_value (list vs) (suc f) rest h = rw (read-write_items vs f rest (omega arith))
  read-write_value (map fs) (suc f) rest h = rw (read-write_fields fs f rest (omega arith))
  read-write_value (other n) (suc f) rest h = rw (read_nat-write_nat n rest)

  read-write_items :
      (vs : Items) (f : ℕ) (rest : Bytes)
      → size_items vs ≤ f
      → read_items f (write_items vs rest) ≡ some (vs, rest)
  read-write_items nil zero rest h = absurd (omega arith)
  read-write_items nil (suc f) rest h = refl
  read-write_items (cons v vs) zero rest h = absurd (omega arith)
  read-write_items (cons v vs) (suc f) rest h = rw (
    read-write_value v f (write_items vs rest) (omega arith),
    read-write_items vs f rest (omega arith),
  )

  read-write_fields :
      (fs : Fields) (f : ℕ) (rest : Bytes)
      → size_fields fs ≤ f
      → read_fields f (write_fields fs rest) ≡ some (fs, rest)
  read-write_fields end zero rest h = absurd (omega arith)
  read-write_fields end (suc f) rest h = refl
  read-write_fields (field k v fs) zero rest h = absurd (omega arith)
  read-write_fields (field k v fs) (suc f) rest h = rw (
    read_nats-write_nats f k (write_value v (write_fields fs rest)) (omega arith),
    read-write_value v f (write_fields fs rest) (omega arith),
    read-write_fields fs f rest (omega arith),
  )

length-write_nat : (n : ℕ) (rest : Bytes) → length rest ≤ length (write_nat n rest)
unfolding write_nat
length-write_nat zero rest = omega arith
length-write_nat (suc n) rest = omega (arith, length-write_nat n rest)

length-write_nats :
    (ns : List ℕ) (rest : Bytes) → size_nats ns + length rest ≤ length (write_nats ns rest)
unfolding write_nats size_nats
length-write_nats [] rest = omega arith
length-write_nats (n ∷ ns) rest =
    omega (arith, length-write_nat n (write_nats ns rest), length-write_nats ns rest)

-- The input is long enough to be the fuel.
mutual
  unfolding size_value write_value

  length-write_value :
      (v : Value) (rest : Bytes) → size_value v + length rest ≤ length (write_value v rest)
  length-write_value (int n) rest = omega (arith, length-write_nat n rest)
  length-write_value (bytes b) rest = omega (arith, length-write_nats b rest)
  length-write_value (text t) rest = omega (arith, length-write_nats t rest)
  length-write_value (list vs) rest = omega (arith, length-write_items vs rest)
  length-write_value (map fs) rest = omega (arith, length-write_fields fs rest)
  length-write_value (other n) rest = omega (arith, length-write_nat n rest)

  length-write_items :
      (vs : Items) (rest : Bytes) → size_items vs + length rest ≤ length (write_items vs rest)
  length-write_items nil rest = omega arith
  length-write_items (cons v vs) rest =
      omega (arith, length-write_value v (write_items vs rest), length-write_items vs rest)

  length-write_fields :
      (fs : Fields) (rest : Bytes) → size_fields fs + length rest ≤ length (write_fields fs rest)
  length-write_fields end rest = omega arith
  length-write_fields (field k v fs) rest = omega (
    arith,
    length-write_nats k (write_value v (write_fields fs rest)),
    length-write_value v (write_fields fs rest),
    length-write_fields fs rest,
  )

write_nat-IsBytes : (n : ℕ) (rest : Bytes) → IsBytes rest → IsBytes (write_nat n rest)
unfolding write_nat
write_nat-IsBytes zero rest h = (omega arith, h)
write_nat-IsBytes (suc n) rest h = (omega arith, write_nat-IsBytes n rest h)

write_nats-IsBytes : (ns : List ℕ) (rest : Bytes) → IsBytes rest → IsBytes (write_nats ns rest)
unfolding write_nats
write_nats-IsBytes [] rest h = (omega arith, h)
write_nats-IsBytes (n ∷ ns) rest h =
    (omega arith, write_nat-IsBytes n (write_nats ns rest) (write_nats-IsBytes ns rest h))

mutual
  unfolding write_value

  write_value-IsBytes : (v : Value) (rest : Bytes) → IsBytes rest → IsBytes (write_value v rest)
  write_value-IsBytes (int n) rest h = (omega arith, write_nat-IsBytes n rest h)
  write_value-IsBytes (bytes b) rest h = (omega arith, write_nats-IsBytes b rest h)
  write_value-IsBytes (text t) rest h = (omega arith, write_nats-IsBytes t rest h)
  write_value-IsBytes (list vs) rest h = (omega arith, write_items-IsBytes vs rest h)
  write_value-IsBytes (map fs) rest h = (omega arith, write_fields-IsBytes fs rest h)
  write_value-IsBytes (other n) rest h = (omega arith, write_nat-IsBytes n rest h)

  write_items-IsBytes : (vs : Items) (rest : Bytes) → IsBytes rest → IsBytes (write_items vs rest)
  write_items-IsBytes nil rest h = (omega arith, h)
  write_items-IsBytes (cons v vs) rest h =
      (omega arith, write_value-IsBytes v (write_items vs rest) (write_items-IsBytes vs rest h))

  write_fields-IsBytes :
      (fs : Fields) (rest : Bytes) → IsBytes rest → IsBytes (write_fields fs rest)
  write_fields-IsBytes end rest h = (omega arith, h)
  write_fields-IsBytes (field k v fs) rest h = (
    omega arith,
    write_nats-IsBytes k _
        (write_value-IsBytes v (write_fields fs rest) (write_fields-IsBytes fs rest h)),
  )

sample_loads-dumps : (v : Value) → sample_loads (sample_dumps v) ≡ some v
unfolding sample_loads sample_dumps
sample_loads-dumps v =
    rw (read-write_value v (length (write_value v [])) [] (omega (arith, length-write_value v [])))
      refl

sample_dumps-IsBytes : (v : Value) → IsBytes (sample_dumps v)
unfolding sample_dumps
sample_dumps-IsBytes v = write_value-IsBytes v [] tt

pub sample : Codec
unfolding sample_int_of sample_str_of sample_bytes_of sample_items_of
sample = record {
  dumps = sample_dumps;
  loads = sample_loads;
  int_of = sample_int_of;
  str_of = sample_str_of;
  bytes_of = sample_bytes_of;
  items_of = sample_items_of;
  loads-dumps = sample_loads-dumps;
  dumps-IsBytes = sample_dumps-IsBytes;
  int_of_int = λ n. refl;
  str_of_text = λ t. refl;
  bytes_of_bytes = λ b. refl;
  items_of_list = λ vs. refl;
}

pub sample-int_of : (t : Text) → sample.int_of (text t) ≡ some (read_digits 0 t)
unfolding sample sample_int_of
sample-int_of t = refl

-- No value is written as no bytes.
pub sample-dumps-cons : (v : Value) → (b : ℕ) × (bs : Bytes) × (sample.dumps v ≡ b ∷ bs)
unfolding sample sample_dumps write_value
sample-dumps-cons (int n) = (_, _, refl)
sample-dumps-cons (bytes b) = (_, _, refl)
sample-dumps-cons (text t) = (_, _, refl)
sample-dumps-cons (list vs) = (_, _, refl)
sample-dumps-cons (map fs) = (_, _, refl)
sample-dumps-cons (other n) = (_, _, refl)
