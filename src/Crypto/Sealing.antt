-- ===== src/Crypto/Sealing.antt =====
-- crypto.py: `xchacha_decrypt` opens what `xchacha_encrypt` sealed.
use yakr.Prelude.{
  ◌≡◌, refl, false, ok, ltb, length, length-append, ◌++◌, take, drop, take-append, drop-append,
  subst, Bytes, arith,
}
use yakr.Crypto.{Crypto, IsAead, xchacha_encrypt, xchacha_decrypt}

pub xchacha_decrypt-encrypt :
    (k : Crypto) (a : IsAead k) (nonce key plaintext ad : Bytes)
    → length nonce ≡ 24
    → xchacha_decrypt k key (xchacha_encrypt k nonce key plaintext ad) ad ≡ ok plaintext
unfolding xchacha_decrypt xchacha_encrypt
xchacha_decrypt-encrypt k a nonce key plaintext ad size =
    let sealed = k.aead_encrypt key ad nonce plaintext in
    let long : ltb (length (nonce ++ sealed)) 24 ≡ false =
      ground (arith, length-append nonce sealed) in
    let heads : take 24 (nonce ++ sealed) ≡ nonce =
      subst (λ n. take n (nonce ++ sealed) ≡ nonce) size (take-append nonce sealed) in
    let rest : drop 24 (nonce ++ sealed) ≡ sealed =
      subst (λ n. drop n (nonce ++ sealed) ≡ sealed) size (drop-append nonce sealed) in
    rw (long, heads, rest, a.opens key ad nonce plaintext) refl
