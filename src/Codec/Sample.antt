-- ===== src/Codec/Sample.antt =====
-- A codec that meets the laws of `Codec`: a prefix code with numbers in unary. It shows that what is
-- assumed of cbor2 can be met, and serves the examples.
pub mod Laws
use yakr.Prelude.{
  ℕ, zero, suc, ◌+◌, ◌-◌, ◌*◌, ◌≤◌, ◌≡◌, refl, Option, none, some, List, [], ◌∷◌, arith, length,
  Bytes, Text, IsBytes, read_digits,
}
use yakr.Codec.{
  Value, Items, Fields, Codec, int, bytes, text, list, map, other, nil, cons, end, field,
}

-- Each part is written before the rest of the output.
write_nat : ℕ → Bytes → Bytes
write_nat zero rest = 0 ∷ rest
write_nat (suc n) rest = 1 ∷ write_nat n rest

write_nats : List ℕ → Bytes → Bytes
write_nats [] rest = 0 ∷ rest
write_nats (n ∷ ns) rest = 1 ∷ write_nat n (write_nats ns rest)

mutual
  unfolding write_nat write_nats

  write_value : Value → Bytes → Bytes
  write_value (int n) rest = 0 ∷ write_nat n rest
  write_value (bytes b) rest = 1 ∷ write_nats b rest
  write_value (text t) rest = 2 ∷ write_nats t rest
  write_value (list vs) rest = 3 ∷ write_items vs rest
  write_value (map fs) rest = 4 ∷ write_fields fs rest
  write_value (other n) rest = 5 ∷ write_nat n rest

  write_items : Items → Bytes → Bytes
  write_items nil rest = 0 ∷ rest
  write_items (cons v vs) rest = 1 ∷ write_value v (write_items vs rest)

  write_fields : Fields → Bytes → Bytes
  write_fields end rest = 0 ∷ rest
  write_fields (field k v fs) rest = 1 ∷ write_nats k (write_value v (write_fields fs rest))

-- What was read, and the input behind it.
bump : Option (ℕ × Bytes) → Option (ℕ × Bytes)
bump none = none
bump (some (n, rest)) = some (suc n, rest)

read_nat : Bytes → Option (ℕ × Bytes)
unfolding bump
read_nat [] = none
read_nat (zero ∷ bs) = some (0, bs)
read_nat (suc n ∷ bs) = bump (read_nat bs)

abbrev ◌>>=◌ {ℓ κ} : {A : Type ℓ} {B : Type κ} → Option A → (A → Option B) → Option B

infixl 5 ◌>>=◌
none >>= f = none
some a >>= f = f a

read_nats : ℕ → Bytes → Option (List ℕ × Bytes)
read_nats zero bs = none
read_nats (suc f) [] = none
read_nats (suc f) (zero ∷ bs) = some ([], bs)
read_nats (suc f) (suc t ∷ bs) = read_nat bs >>= λ p. read_nats f p.1 >>= λ q. some (p.0 ∷ q.0, q.1)

mutual
  unfolding read_nat read_nats

  read_value : ℕ → Bytes → Option (Value × Bytes)
  read_value zero bs = none
  read_value (suc f) [] = none
  read_value (suc f) (zero ∷ bs) = read_nat bs >>= λ p. some (int p.0, p.1)
  read_value (suc f) (suc zero ∷ bs) = read_nats f bs >>= λ p. some (bytes p.0, p.1)
  read_value (suc f) (suc (suc zero) ∷ bs) = read_nats f bs >>= λ p. some (text p.0, p.1)
  read_value (suc f) (suc (suc (suc zero)) ∷ bs) = read_items f bs >>= λ p. some (list p.0, p.1)
  read_value (suc f) (suc (suc (suc (suc zero))) ∷ bs) =
      read_fields f bs >>= λ p. some (map p.0, p.1)
  read_value (suc f) (suc (suc (suc (suc (suc t)))) ∷ bs) =
      read_nat bs >>= λ p. some (other p.0, p.1)

  read_items : ℕ → Bytes → Option (Items × Bytes)
  read_items zero bs = none
  read_items (suc f) [] = none
  read_items (suc f) (zero ∷ bs) = some (nil, bs)
  read_items (suc f) (suc t ∷ bs) =
      read_value f bs >>= λ p. read_items f p.1 >>= λ q. some (cons p.0 q.0, q.1)

  read_fields : ℕ → Bytes → Option (Fields × Bytes)
  read_fields zero bs = none
  read_fields (suc f) [] = none
  read_fields (suc f) (zero ∷ bs) = some (end, bs)
  read_fields (suc f) (suc t ∷ bs) = read_nats f bs >>= λ p.
      read_value f p.1 >>= λ q. read_fields f q.1 >>= λ r. some (field p.0 q.0 r.0, r.1)

sample_dumps : Value → Bytes
unfolding write_value
sample_dumps v = write_value v []

sample_loads : Bytes → Option Value
unfolding read_value
sample_loads bs = read_value (length bs) bs >>= λ p. some p.0

-- The conversions are defined on values of their own type, and `int` on texts.
sample_int_of : Value → Option ℕ
unfolding read_digits
sample_int_of (int n) = some n
sample_int_of (text t) = some (read_digits 0 t)
sample_int_of _ = none

sample_str_of : Value → Option Text
sample_str_of (text t) = some t
sample_str_of _ = none

sample_bytes_of : Value → Option Bytes
sample_bytes_of (bytes b) = some b
sample_bytes_of _ = none

sample_items_of : Value → Option Items
sample_items_of (list vs) = some vs
sample_items_of _ = none
