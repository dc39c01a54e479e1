-- ===== src/Base64/RoundTrip.antt =====
-- Decoding what `_b64encode` wrote.
use mathlib.Core.List.{append-nil}
use yakr.Prelude.{
  ◌≢◌, zero, length-append, length-replicate, ℕ, suc, ◌+◌, ◌-◌, ◌*◌, ◌/◌, ◌%◌, ◌<◌, ◌≡◌, refl, ap,
  true, false, some, [], ◌∷◌, ◌++◌, arith, ◌==◌, length, replicate, null, Bytes, Text, IsBytes,
}
use yakr.Base64.{
  symbol, sextet, urlsafe_b64encode, rstrip_pad, b64encode, a2b_base64, start, one, two, three,
  is_ascii, padding, b64decode, pad_char, write, Quad, next_quad,
}

sextet-symbol : (v : ℕ) → v < 64 → sextet (symbol v) ≡ some v
unfolding symbol sextet
sextet-symbol v h = ground arith

symbol-ne-pad : (v : ℕ) → v < 64 → (symbol v == pad_char) ≡ false
unfolding symbol
symbol-ne-pad v h = ground arith

symbol-lt-ascii : (v : ℕ) → v < 64 → symbol v < 128
unfolding symbol
symbol-lt-ascii v h = ground arith

-- The symbols alone, with no padding.
symbols : Bytes → Text
symbols [] = []
symbols (a ∷ []) = symbol (a / 4) ∷ symbol (a % 4 * 16) ∷ []
symbols (a ∷ b ∷ []) = symbol (a / 4) ∷ symbol (a % 4 * 16 + b / 16) ∷ symbol (b % 16 * 4) ∷ []
symbols (a ∷ b ∷ c ∷ rest) =
    symbol (a / 4)
    ∷ symbol (a % 4 * 16 + b / 16)
    ∷ symbol (b % 16 * 4 + c / 64)
    ∷ symbol (c % 64)
    ∷ symbols rest

-- One character that is no padding survives `rstrip`.
rstrip_pad-cons :
    (c : ℕ) (cs : Text) → (c == pad_char) ≡ false → rstrip_pad (c ∷ cs) ≡ c ∷ rstrip_pad cs
unfolding rstrip_pad
rstrip_pad-cons c cs h = ground arith

rstrip_pad-urlsafe_b64encode :
    (bs : Bytes) → IsBytes bs → rstrip_pad (urlsafe_b64encode bs) ≡ symbols bs
unfolding urlsafe_b64encode symbols
rstrip_pad-urlsafe_b64encode [] h = unfold rstrip_pad in refl
rstrip_pad-urlsafe_b64encode (a ∷ []) h =
    rw
      (
        rstrip_pad-cons _ _ (symbol-ne-pad (a / 4) (omega arith)),
        rstrip_pad-cons _ _ (symbol-ne-pad (a % 4 * 16) (omega arith)),
      )
      (unfold rstrip_pad in refl)
rstrip_pad-urlsafe_b64encode (a ∷ b ∷ []) h =
    rw
      (
        rstrip_pad-cons _ _ (symbol-ne-pad (a / 4) (omega arith)),
        rstrip_pad-cons _ _ (symbol-ne-pad (a % 4 * 16 + b / 16) (omega arith)),
        rstrip_pad-cons _ _ (symbol-ne-pad (b % 16 * 4) (omega arith)),
      )
      (unfold rstrip_pad in refl)
rstrip_pad-urlsafe_b64encode (a ∷ b ∷ c ∷ rest) h =
    rw
      (
        rstrip_pad-cons _ _ (symbol-ne-pad (a / 4) (omega arith)),
        rstrip_pad-cons _ _ (symbol-ne-pad (a % 4 * 16 + b / 16) (omega arith)),
        rstrip_pad-cons _ _ (symbol-ne-pad (b % 16 * 4 + c / 64) (omega arith)),
        rstrip_pad-cons _ _ (symbol-ne-pad (c % 64) (omega arith)),
        rstrip_pad-urlsafe_b64encode rest h.1.1.1,
      )
      refl

padding-group : (w x y z : ℕ) (t : Text) → padding (w ∷ x ∷ y ∷ z ∷ t) ≡ padding t
unfolding padding
padding-group w x y z t = ap (λ (k : ℕ). replicate k pad_char) (omega arith)

a2b_base64-symbol :
    (q : Quad) (pads v : ℕ) (cs : Text)
    → v < 64
    → a2b_base64 q pads (symbol v ∷ cs) ≡ write q v (a2b_base64 (next_quad q v) 0 cs)
unfolding a2b_base64
a2b_base64-symbol start pads v cs h = rw (a2b_base64, symbol-ne-pad v h, sextet-symbol v h)
a2b_base64-symbol (one l) pads v cs h = rw (a2b_base64, symbol-ne-pad v h, sextet-symbol v h)
a2b_base64-symbol (two l) pads v cs h = rw (a2b_base64, symbol-ne-pad v h, sextet-symbol v h)
a2b_base64-symbol (three l) pads v cs h = rw (a2b_base64, symbol-ne-pad v h, sextet-symbol v h)

-- The symbols of some bytes with the padding that `_b64decode` adds decode to those bytes.
a2b_base64-symbols :
    (bs : Bytes) → IsBytes bs → a2b_base64 start 0 (symbols bs ++ padding (symbols bs)) ≡ some bs
unfolding symbols padding
a2b_base64-symbols [] h = unfold a2b_base64 in refl
a2b_base64-symbols (a ∷ []) h =
    rw
      (
        a2b_base64-symbol start 0 (a / 4) _ (omega arith),
        a2b_base64-symbol (one (a / 4)) 0 (a % 4 * 16) _ (omega arith),
      )
      (unfold a2b_base64 in ground arith)
a2b_base64-symbols (a ∷ b ∷ []) h =
    rw
      (
        a2b_base64-symbol start 0 (a / 4) _ (omega arith),
        a2b_base64-symbol (one (a / 4)) 0 (a % 4 * 16 + b / 16) _ (omega arith),
        a2b_base64-symbol (two ((a % 4 * 16 + b / 16) % 16)) 0 (b % 16 * 4) _ (omega arith),
      )
      (unfold a2b_base64 in ground arith)
a2b_base64-symbols (a ∷ b ∷ c ∷ rest) h =
    rw
      (
        padding-group _ _ _ _ (symbols rest),
        a2b_base64-symbol start 0 (a / 4) _ (omega arith),
        a2b_base64-symbol (one (a / 4)) 0 (a % 4 * 16 + b / 16) _ (omega arith),
        a2b_base64-symbol (two ((a % 4 * 16 + b / 16) % 16)) 0 (b % 16 * 4 + c / 64) _
            (omega arith),
        a2b_base64-symbol (three ((b % 16 * 4 + c / 64) % 4)) 0 (c % 64) _ (omega arith),
        a2b_base64-symbols rest h.1.1.1,
      )
      (ground arith)

is_ascii-symbols : (bs : Bytes) (t : Text) → IsBytes bs → is_ascii (symbols bs ++ t) ≡ is_ascii t
unfolding symbols is_ascii
is_ascii-symbols [] t h = refl
is_ascii-symbols (a ∷ []) t h =
    ground (arith, symbol-lt-ascii (a / 4), symbol-lt-ascii (a % 4 * 16))
is_ascii-symbols (a ∷ b ∷ []) t h = ground (
  arith,
  symbol-lt-ascii (a / 4),
  symbol-lt-ascii (a % 4 * 16 + b / 16),
  symbol-lt-ascii (b % 16 * 4),
)
is_ascii-symbols (a ∷ b ∷ c ∷ rest) t h = ground (
  arith,
  symbol-lt-ascii (a / 4),
  symbol-lt-ascii (a % 4 * 16 + b / 16),
  symbol-lt-ascii (b % 16 * 4 + c / 64),
  symbol-lt-ascii (c % 64),
  is_ascii-symbols rest t h.1.1.1,
)

is_ascii-replicate : (n : ℕ) → is_ascii (replicate n pad_char) ≡ true
unfolding is_ascii
is_ascii-replicate zero = refl
is_ascii-replicate (suc n) = is_ascii-replicate n

is_ascii-padding : (t : Text) → is_ascii (padding t) ≡ true
unfolding padding
is_ascii-padding t = is_ascii-replicate _

b64encode-eq-symbols : (bs : Bytes) → IsBytes bs → b64encode bs ≡ symbols bs
unfolding b64encode
b64encode-eq-symbols bs h = rstrip_pad-urlsafe_b64encode bs h

-- `_b64decode` gives back every byte string that `_b64encode` wrote.
pub b64decode-b64encode : (bs : Bytes) → IsBytes bs → b64decode (b64encode bs) ≡ some bs
b64decode-b64encode bs h = rw (b64encode-eq-symbols bs h) (
    unfold b64decode in
    rw (is_ascii-symbols bs (padding (symbols bs)) h, is_ascii-padding (symbols bs))
      (a2b_base64-symbols bs h))

pub null-b64encode : (b : ℕ) (bs : Bytes) → IsBytes (b ∷ bs) → null (b64encode (b ∷ bs)) ≡ false
unfolding symbols
null-b64encode b [] h = rw (b64encode-eq-symbols (b ∷ []) h) refl
null-b64encode b (x ∷ []) h = rw (b64encode-eq-symbols (b ∷ x ∷ []) h) refl
null-b64encode b (x ∷ y ∷ bs) h = rw (b64encode-eq-symbols (b ∷ x ∷ y ∷ bs) h) refl

-- Two byte strings with the same encoding are the same.
pub b64encode-injective :
    (xs bs : Bytes) → IsBytes xs → IsBytes bs → b64encode xs ≡ b64encode bs → xs ≡ bs
b64encode-injective xs bs ha hb e = cc (b64decode-b64encode xs ha, b64decode-b64encode bs hb)

padding-append : (v : Text) → padding (v ++ padding v) ≡ []
unfolding padding
padding-append v =
    let none_left : (4 - length (v ++ padding v) % 4) % 4 ≡ 0 =
      omega
        (arith, length-append v (padding v), length-replicate ((4 - length v % 4) % 4) pad_char) in
    ap (λ (k : ℕ). replicate k pad_char) none_left

-- A text and the same text with its padding written out decode alike.
pub b64decode-append-padding : (v : Text) → b64decode (v ++ padding v) ≡ b64decode v
unfolding b64decode
b64decode-append-padding v = rw (padding-append v, append-nil) refl

-- A text whose length is no multiple of four is changed by its padding.
pub append-padding-ne : (v : Text) → length v % 4 ≢ 0 → v ++ padding v ≢ v
unfolding padding
append-padding-ne v h e = omega (
  arith,
  length-append v (padding v),
  length-replicate ((4 - length v % 4) % 4) pad_char,
  ap (length {0}) e,
)
