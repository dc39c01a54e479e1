-- ===== src/Message/RoundTrip.antt =====
-- message.py: an inner message is read as it was written.
use yakr.Prelude.{ℕ, ◌≡◌, refl, some, ok, eqb, Text}
use yakr.Codec.{int, text}
use yakr.Message.{Json, InnerMessage, inner_value, inner_to_bytes, inner_from_bytes}

-- What the program relies on of `json`.
pub record IsJson (j : Json) : Type 0 where
  pub inner_loads : (m : InnerMessage) → j.loads (j.dumps (inner_value m)) ≡ some (inner_value m)
  pub int_of_int : (n : ℕ) → j.int_of (int n) ≡ some n
  pub str_of_text : (t : Text) → j.str_of (text t) ≡ some t

pub inner_from_bytes-to_bytes :
    (j : Json) (l : IsJson j) (m : InnerMessage) → inner_from_bytes j (inner_to_bytes j m) ≡ ok m
unfolding inner_from_bytes inner_to_bytes inner_value eqb
inner_from_bytes-to_bytes j l m = rw (l.inner_loads m) (simp (l.int_of_int, l.str_of_text) refl)
