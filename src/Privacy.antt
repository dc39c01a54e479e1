-- ===== src/Privacy.antt =====
-- packages/yakr-core/src/yakr_core/privacy.py: padding to size classes.
pub mod Padding
mod Tests
use yakr.Prelude.{
  ℕ, ◌+◌, ◌-◌, Bool, true, false, Option, none, some, List, [], ◌∷◌, ◌++◌, Result, ok, err, ◌>>=◌,
  ◌>>◌, raise_if, ltb, leb, if◌then◌else◌, length, take, drop, replicate, Bytes, pack32, unpack,
}

pub data PrivacyMode : Type 0 where
  fast balanced high : PrivacyMode

abbrev pub size_4k : ℕ
size_4k = 4096

abbrev pub size_32k : ℕ
size_32k = 32768

abbrev pub size_classes : PrivacyMode → List ℕ
size_classes high = size_4k ∷ size_32k ∷ []
size_classes balanced = size_4k ∷ []
size_classes fast = []

-- The first class that is large enough, in rising order, or the largest one.
unfoldable pub fitting_class : ℕ → ℕ → List ℕ → ℕ
fitting_class needed largest [] = largest
fitting_class needed largest (size ∷ sizes) =
    let later = fitting_class needed size sizes in if leb needed size then size else later

-- The lists of `size_classes` are sorted.
unfoldable pub select_size_class : ℕ → PrivacyMode → Option ℕ
unfolding fitting_class
select_size_class plaintext_len fast = none
select_size_class plaintext_len balanced =
    some (fitting_class (plaintext_len + 4) 0 (size_classes balanced))
select_size_class plaintext_len high =
    some (fitting_class (plaintext_len + 4) 0 (size_classes high))

pub data PaddingError : Type 0 where
  too_many_bytes exceeds_size_class padded_too_short invalid_length_prefix : PaddingError

-- The padded text, and the number of bytes added to the plaintext.
unfoldable pub pad_to_class : Bytes → Option ℕ → Result PaddingError (Bytes × ℕ)
pad_to_class plaintext none = ok (plaintext, 0)
pad_to_class plaintext (some class_size) = do
  raise_if (leb 4294967296 (length plaintext)) too_many_bytes
  let framed = pack32 (length plaintext) ++ plaintext
  raise_if (ltb class_size (length framed)) exceeds_size_class
  ok (framed ++ replicate (class_size - length framed) 0, class_size - length plaintext)

unfoldable pub pad_plaintext : Bytes → PrivacyMode → Result PaddingError (Bytes × ℕ)
pad_plaintext plaintext mode = pad_to_class plaintext (select_size_class (length plaintext) mode)

unfoldable pub unpad_plaintext : Bytes → Result PaddingError Bytes
unpad_plaintext padded = do
  raise_if (ltb (length padded) 4) padded_too_short
  let size = unpack (take 4 padded)
  raise_if (ltb (length padded) (4 + size)) invalid_length_prefix
  ok (take size (drop 4 padded))

unfoldable pub decode_padded_plaintext : Bytes → PrivacyMode → Result PaddingError Bytes
decode_padded_plaintext padded fast = ok padded
decode_padded_plaintext padded balanced = unpad_plaintext padded
decode_padded_plaintext padded high = unpad_plaintext padded
