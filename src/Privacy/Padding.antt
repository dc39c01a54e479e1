-- ===== src/Privacy/Padding.antt =====
-- privacy.py: a padded plaintext is read back, and its length is that of a size class.
use yakr.Prelude.{
  ℕ, ◌+◌, ◌-◌, ◌<◌, ◌≡◌, refl, ap, sym, ◌∙◌, false, some, ◌++◌, ok, ok-injective,
  raise_if-then-eq-ok, ltb, leb, if◌then◌else◌, length, length-append, length-replicate,
  take-append, replicate, Bytes, pack32, unpack-pack32, arith,
}
use yakr.Privacy.{
  PrivacyMode, fast, balanced, high, size_4k, size_32k, select_size_class, PaddingError,
  pad_to_class, pad_plaintext, unpad_plaintext, decode_padded_plaintext,
}

-- What `pad_to_class` makes of a plaintext that fits a class.
record IsPadded (plaintext padded : Bytes) (class_size : ℕ) : Type 0 where
  small : length plaintext < 4294967296
  fill : ℕ
  filled : length plaintext + 4 + fill ≡ class_size
  made : padded ≡ pack32 (length plaintext) ++ (plaintext ++ replicate fill 0)

pad_to_class-IsPadded :
    (plaintext padded : Bytes) (class_size added : ℕ)
    → pad_to_class plaintext (some class_size) ≡ ok (padded, added)
    → IsPadded plaintext padded class_size
unfolding pad_to_class pack32
pad_to_class-IsPadded plaintext padded class_size added e =
    let (small, e1) =
      raise_if-then-eq-ok (leb 4294967296 (length plaintext)) PaddingError.too_many_bytes _ e in
    let (fits, e2) =
      raise_if-then-eq-ok (ltb class_size (length (pack32 (length plaintext) ++ plaintext)))
        PaddingError.exceeds_size_class _ e1 in
    record {
      small = ground (arith, small);
      fill = class_size - length (pack32 (length plaintext) ++ plaintext);
      filled = ground (arith, fits);
      made = sym (ap (λ (p : Bytes × ℕ). p.0) (ok-injective e2));
    }

length-padded :
    (plaintext padded : Bytes) (class_size : ℕ)
    → IsPadded plaintext padded class_size
    → length padded ≡ class_size
unfolding pack32
length-padded plaintext padded class_size w = rw w.made (
    omega (
      arith,
      w.filled,
      length-append plaintext (replicate w.fill 0),
      length-replicate {A = ℕ} w.fill 0,
    ))

unpad-padded :
    (plaintext padded : Bytes) (class_size : ℕ)
    → IsPadded plaintext padded class_size
    → unpad_plaintext padded ≡ ok plaintext
unfolding unpad_plaintext pack32
unpad-padded plaintext padded class_size w =
    let size = unpack-pack32 (length plaintext) w.small in
    let total = length-append plaintext (replicate w.fill 0) in
    let room : ltb (length (pack32 (length plaintext) ++ (plaintext ++ replicate w.fill 0)))
          (4 + length plaintext)
        ≡ false =
      ground (arith, total) in
    let long : ltb (length (pack32 (length plaintext) ++ (plaintext ++ replicate w.fill 0))) 4
        ≡ false =
      ground arith in
    rw (w.made, long, size, room, take-append plaintext (replicate w.fill 0)) refl

-- In every mode a plaintext that was padded is read back as it was.
pub decode-pad_plaintext :
    (plaintext padded : Bytes) (added : ℕ) (mode : PrivacyMode)
    → pad_plaintext plaintext mode ≡ ok (padded, added)
    → decode_padded_plaintext padded mode ≡ ok plaintext
unfolding pad_plaintext decode_padded_plaintext pad_to_class select_size_class
decode-pad_plaintext plaintext padded added fast e =
    ap (λ (p : Bytes × ℕ). ok p.0) (sym (ok-injective e))
decode-pad_plaintext plaintext padded added balanced e =
    unpad-padded plaintext padded _ (pad_to_class-IsPadded plaintext padded _ added e)
decode-pad_plaintext plaintext padded added high e =
    unpad-padded plaintext padded _ (pad_to_class-IsPadded plaintext padded _ added e)

-- The length that is seen of a plaintext of this length.
abbrev pub seen_length : PrivacyMode → ℕ → ℕ
seen_length fast n = n
seen_length balanced n = size_4k
seen_length high n = if leb (n + 4) size_4k then size_4k else size_32k

-- The length of what is sent tells no more than the size class: in mode `fast` it is that of the plaintext, in mode
-- `balanced` always 4096, and in mode `high` 4096 or, for a plaintext that does not fit that, 32768.
pub length-pad_plaintext :
    (plaintext padded : Bytes) (added : ℕ) (mode : PrivacyMode)
    → pad_plaintext plaintext mode ≡ ok (padded, added)
    → length padded ≡ seen_length mode (length plaintext)
unfolding pad_plaintext pad_to_class select_size_class
length-pad_plaintext plaintext padded added fast e =
    sym (ap (λ (p : Bytes × ℕ). length p.0) (ok-injective e))
length-pad_plaintext plaintext padded added balanced e =
    length-padded plaintext padded _ (pad_to_class-IsPadded plaintext padded _ added e)
    ∙ ground arith
length-pad_plaintext plaintext padded added high e =
    length-padded plaintext padded _ (pad_to_class-IsPadded plaintext padded _ added e)
    ∙ ground arith
