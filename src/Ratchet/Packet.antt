-- ===== src/Ratchet/Packet.antt =====
-- ratchet.py: `decrypt` finds the fields of the packet that `encrypt` wrote.
use yakr.Prelude.{
  ℕ, zero, suc, ◌+◌, ◌<◌, ◌≡◌, refl, ap, ◌∙◌, subst, false, [], ◌∷◌, ◌++◌, ltb, length,
  length-append, take, drop, take-append, Bytes, eqb, pack32, unpack-pack32, arith,
}
use mathlib.Core.List.{append_assoc}
use yakr.Crypto.{Crypto}
use yakr.Ratchet.State.{RatchetState}
use yakr.Ratchet.{header, decrypt, adopt_peer, receive_on_chain, restore_on_error}

drop-past : (n m : ℕ) (xs ys : Bytes) → n ≡ length xs + m → drop n (xs ++ ys) ≡ drop m ys
drop-past n m [] ys e = ap (λ x. drop x ys) (omega (arith, e))
drop-past zero m (x ∷ xs) ys e = absurd (omega (arith, e))
drop-past (suc n) m (x ∷ xs) ys e = drop-past n m xs ys (omega (arith, e))

take-past : (n : ℕ) (xs ys : Bytes) → length xs ≡ n → take n (xs ++ ys) ≡ xs
take-past n xs ys e = subst (λ m. take m (xs ++ ys) ≡ xs) e (take-append xs ys)

module _ (k : Crypto) (public ciphertext : Bytes) (prev_n message_n : ℕ)
    (size : length public ≡ 32) where
  abbrev packet : Bytes
  packet = header k public prev_n message_n ++ ciphertext

  -- The packet behind the mark.
  fields : drop 5 packet ≡ public ++ (pack32 prev_n ++ (pack32 message_n ++ ciphertext))
  fields =
      append_assoc (public ++ pack32 prev_n) (pack32 message_n) ciphertext
      ∙ append_assoc public (pack32 prev_n) (pack32 message_n ++ ciphertext)

  packet-public : take 32 (drop 5 packet) ≡ public
  packet-public = rw fields (take-past 32 public _ size)

  packet-prev_n : take 4 (drop 37 packet) ≡ pack32 prev_n
  unfolding pack32
  packet-prev_n = rw (fields, drop-past 32 0 public _ (omega (arith, size))) refl

  packet-message_n : take 4 (drop 41 packet) ≡ pack32 message_n
  unfolding pack32
  packet-message_n = rw (fields, drop-past 36 4 public _ (omega (arith, size))) refl

  packet-ciphertext : drop 45 packet ≡ ciphertext
  unfolding pack32
  packet-ciphertext = rw (fields, drop-past 40 8 public _ (omega (arith, size))) refl

  packet-long : ltb (length packet) 45 ≡ false
  unfolding pack32
  packet-long =
      let rest = length-append public (pack32 prev_n ++ (pack32 message_n ++ ciphertext)) in
      let total : length packet ≡ 5 + length (drop 5 packet) = omega arith in
      ground (arith, total, ap (length {A = ℕ}) fields, rest, size)

-- `decrypt` of such a packet.
pub decrypt-packet :
    (k : Crypto) (fresh public ciphertext : Bytes) (prev_n message_n : ℕ) (s : RatchetState)
    → length public ≡ 32
    → prev_n < 4294967296
    → message_n < 4294967296
    → decrypt k fresh (header k public prev_n message_n ++ ciphertext) s
      ≡ restore_on_error k s
          (receive_on_chain k public prev_n message_n ciphertext (adopt_peer k fresh public s))
unfolding decrypt eqb
decrypt-packet k fresh public ciphertext prev_n message_n s size low low' =
    rw
      (
        packet-long k public ciphertext prev_n message_n size,
        packet-public k public ciphertext prev_n message_n size,
        packet-prev_n k public ciphertext prev_n message_n size,
        packet-message_n k public ciphertext prev_n message_n size,
        packet-ciphertext k public ciphertext prev_n message_n size,
        unpack-pack32 prev_n low,
        unpack-pack32 message_n low',
      )
      refl
