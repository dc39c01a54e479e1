-- ===== src/Base64.antt =====
-- The URL-safe base64 of relay/store.py `_b64encode` and `_b64decode`, over Python's `base64` and
-- the lenient `binascii.a2b_base64`: characters outside the alphabet are skipped, and padding ends
-- the text.
pub mod RoundTrip
use yakr.Prelude.{
  ℕ, ◌+◌, ◌-◌, ◌*◌, ◌/◌, ◌%◌, Bool, true, false, ◌&&◌, ◌||◌, Option, none, some, List, [], ◌∷◌,
  ◌++◌, ltb, leb, ◌==◌, if◌then◌else◌, length, replicate, null, Bytes, Text,
}

abbrev pub pad_char : ℕ
pad_char = b'='

-- The character of a sextet.
unfoldable pub symbol : ℕ → ℕ
symbol v =
    if ltb v 26
    then v + 65
    else if ltb v 52
    then v + 71
    else if ltb v 62
    then v - 4
    else if v == 62
    then b'-'
    else b'_'

-- The sextet of a character, of either alphabet.
unfoldable pub sextet : ℕ → Option ℕ
sextet c =
    if leb b'A' c && leb c b'Z'
    then some (c - 65)
    else if leb b'a' c && leb c b'z'
    then some (c - 71)
    else if leb b'0' c && leb c b'9'
    then some (c + 4)
    else if c == b'-' || c == b'+'
    then some 62
    else if c == b'_' || c == b'/'
    then some 63
    else none

-- `base64.urlsafe_b64encode`
unfoldable pub urlsafe_b64encode : Bytes → Text
urlsafe_b64encode [] = []
urlsafe_b64encode (a ∷ []) = symbol (a / 4) ∷ symbol (a % 4 * 16) ∷ pad_char ∷ pad_char ∷ []
urlsafe_b64encode (a ∷ b ∷ []) =
    symbol (a / 4) ∷ symbol (a % 4 * 16 + b / 16) ∷ symbol (b % 16 * 4) ∷ pad_char ∷ []
urlsafe_b64encode (a ∷ b ∷ c ∷ rest) =
    symbol (a / 4)
    ∷ symbol (a % 4 * 16 + b / 16)
    ∷ symbol (b % 16 * 4 + c / 64)
    ∷ symbol (c % 64)
    ∷ urlsafe_b64encode rest

-- `text.rstrip("=")`
unfoldable pub rstrip_pad : Text → Text
rstrip_pad [] = []
rstrip_pad (c ∷ cs) =
    let rest = rstrip_pad cs in if null rest && c == pad_char then [] else c ∷ rest

unfoldable pub b64encode : Bytes → Text
unfolding symbol urlsafe_b64encode rstrip_pad
b64encode bytes = rstrip_pad (urlsafe_b64encode bytes)

-- Where the decoder stands in a group of four, with the bits that it has not written.
pub data Quad : Type 0 where
  start : Quad
  one two three : ℕ → Quad

-- `quad_pos >= 2 && quad_pos + ++pads >= 4`
abbrev pub is_last_pad : Quad → ℕ → Bool
is_last_pad start pads = false
is_last_pad (one l) pads = false
is_last_pad (two l) pads = leb 1 pads
is_last_pad (three l) pads = true

abbrev pub count_pad : Quad → ℕ → ℕ
count_pad start pads = pads
count_pad (one l) pads = pads
count_pad (two l) pads = pads + 1
count_pad (three l) pads = pads + 1

abbrev pub next_quad : Quad → ℕ → Quad
next_quad start v = one v
next_quad (one l) v = two (v % 16)
next_quad (two l) v = three (v % 4)
next_quad (three l) v = start

-- The byte that a sextet completes goes before the rest of the output.
abbrev pub write : Quad → ℕ → Option Bytes → Option Bytes
write q v none = none
write start v (some out) = some out
write (one l) v (some out) = some ((l * 4 + v / 16) ∷ out)
write (two l) v (some out) = some ((l * 16 + v / 4) ∷ out)
write (three l) v (some out) = some ((l * 64 + v) ∷ out)

-- `none` is `binascii.Error`, a `ValueError`.
unfoldable pub a2b_base64 : Quad → ℕ → Text → Option Bytes
a2b_base64 start pads [] = some []
a2b_base64 (one l) pads [] = none
a2b_base64 (two l) pads [] = none
a2b_base64 (three l) pads [] = none
a2b_base64 q pads (c ∷ cs) = elim (c == pad_char) [
  | true ↦ elim (is_last_pad q pads) [ true ↦ some [] | false ↦ a2b_base64 q (count_pad q pads) cs ]
  | false ↦ elim (sextet c) [
    | none ↦ a2b_base64 q pads cs
    | some v ↦ write q v (a2b_base64 (next_quad q v) 0 cs)
  ]
]

-- A text with a character outside ASCII is refused before it is decoded.
unfoldable pub is_ascii : Text → Bool
is_ascii [] = true
is_ascii (c ∷ cs) = if ltb c 128 then is_ascii cs else false

-- `"=" * (-len(value) % 4)`
unfoldable pub padding : Text → Text
padding value = replicate ((4 - length value % 4) % 4) pad_char

unfoldable pub b64decode : Text → Option Bytes
unfolding sextet a2b_base64 is_ascii
b64decode value =
    if is_ascii (value ++ padding value) then a2b_base64 start 0 (value ++ padding value) else none
