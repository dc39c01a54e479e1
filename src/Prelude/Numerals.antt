-- ===== src/Prelude/Numerals.antt =====
-- Numbers as text and as bytes: `str(n)`, `bytes.hex()`, and the four bytes of a big-endian word.
use Prim.Native.Nat.{ℕ, zero, suc, ◌+◌, ◌-◌, ◌*◌, ◌/◌, ◌%◌, ◌<◌}
use mathlib.Core.Bool.{false}
use mathlib.Core.Path.{◌≡◌, refl, ap, ◌∙◌}
use mathlib.Core.Logic.{inl, inr}
use mathlib.Core.List.{[], ◌∷◌}
use native.Mathlib.Omega.{arith}
use yakr.Prelude.Tests.{if◌then◌else◌, ltb, ◌==◌, Bool-cases}
use yakr.Prelude.Lists.{null}
use yakr.Prelude.ByteStrings.{Bytes, Text, IsBytes}

-- The decimal digits of a number, on fuel that exceeds it, before those already written.
unfoldable pub decimal_digits : ℕ → ℕ → Text → Text
decimal_digits zero n acc = acc
decimal_digits (suc f) n acc =
    let rest = decimal_digits f (n / 10) ((n % 10 + 48) ∷ acc) in
    if n / 10 == 0 then (n % 10 + 48) ∷ acc else rest

-- `str(n)`
unfoldable pub decimal : ℕ → Text
unfolding decimal_digits
decimal n = decimal_digits (suc n) n []

-- The number that digits write, behind those already read.
unfoldable pub read_digits : ℕ → Text → ℕ
read_digits acc [] = acc
read_digits acc (d ∷ ds) = read_digits (acc * 10 + (d - 48)) ds

read_digits-digits :
    (f n : ℕ) (acc : Text) → n < f → read_digits 0 (decimal_digits f n acc) ≡ read_digits n acc
unfolding read_digits decimal_digits
read_digits-digits zero n acc h = absurd (omega (arith, h))
read_digits-digits (suc f) n acc h = elim (Bool-cases (n / 10 == 0)) [
  | inl last ↦
      let small : n < 10 = ground arith in
      rw last (ap (λ x. read_digits x acc) (omega (arith, small)))
  | inr more ↦
      let smaller : n / 10 < f = ground arith in
      rw more (
        read_digits-digits f (n / 10) ((n % 10 + 48) ∷ acc) smaller
        ∙ ap (λ x. read_digits x acc) (omega arith))
]

null-decimal_digits : (f n d : ℕ) (acc : Text) → null (decimal_digits f n (d ∷ acc)) ≡ false
unfolding decimal_digits
null-decimal_digits zero n d acc = refl
null-decimal_digits (suc f) n d acc = elim (Bool-cases (n / 10 == 0)) [
  | inl last ↦ rw last refl
  | inr more ↦ rw more (null-decimal_digits f (n / 10) (n % 10 + 48) (d ∷ acc))
]

pub null-decimal : (n : ℕ) → null (decimal n) ≡ false
unfolding decimal decimal_digits
null-decimal n = elim (Bool-cases (n / 10 == 0)) [
  | inl last ↦ rw last refl
  | inr more ↦ rw more (null-decimal_digits n (n / 10) (n % 10 + 48) [])
]

pub read_digits-decimal : (n : ℕ) → read_digits 0 (decimal n) ≡ n
unfolding decimal read_digits
read_digits-decimal n = read_digits-digits (suc n) n [] (omega arith)

hex_digit : ℕ → ℕ
hex_digit d = if ltb d 10 then d + 48 else d + 87

-- `bytes.hex()`
unfoldable pub hex : Bytes → Text
unfolding hex_digit
hex [] = []
hex (b ∷ bs) = hex_digit (b / 16) ∷ hex_digit (b % 16) ∷ hex bs

-- `struct.pack(">I", n)`, for a number below 2 ^ 32.
unfoldable pub pack32 : ℕ → Bytes
pack32 n = n / 16777216 % 256 ∷ n / 65536 % 256 ∷ n / 256 % 256 ∷ n % 256 ∷ []

-- The number that bytes write, the first one the highest.
unfoldable pub read_bytes : ℕ → Bytes → ℕ
read_bytes acc [] = acc
read_bytes acc (b ∷ bs) = read_bytes (acc * 256 + b) bs

-- `int.from_bytes(bs, "big")`
unfoldable pub unpack : Bytes → ℕ
unfolding read_bytes
unpack bs = read_bytes 0 bs

pub unpack-pack32 : (n : ℕ) → n < 4294967296 → unpack (pack32 n) ≡ n
unfolding unpack pack32
unpack-pack32 n h = omega (arith, h)

pub pack32-IsBytes : (n : ℕ) → IsBytes (pack32 n)
unfolding pack32
pack32-IsBytes n = (omega arith, (omega arith, (omega arith, (omega arith, tt))))
