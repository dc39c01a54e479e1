-- ===== src/Privacy/Tests.antt =====
-- privacy.py: examples.
use yakr.Prelude.{◌≡◌, refl, [], ◌∷◌, ok, replicate, Bytes, pack32}
use yakr.Privacy.{balanced, pad_plaintext, pad_to_class, select_size_class}

abbrev two_letters : Bytes
two_letters = 65 ∷ 66 ∷ []

abbrev padded : Bytes
padded = 0 ∷ 0 ∷ 0 ∷ 2 ∷ 65 ∷ 66 ∷ replicate 4090 0

text_pads : pad_plaintext two_letters balanced ≡ ok (padded, 4094)
unfolding pad_plaintext pad_to_class select_size_class pack32
text_pads = refl
