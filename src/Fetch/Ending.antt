-- ===== src/Fetch/Ending.antt =====
-- fetch_cmds.py: the loop over the blobs of a tag ends.
use yakr.Prelude.{
  ℕ, zero, suc, ◌+◌, ◌≤◌, ◌≡◌, refl, true, false, Option, some, List, [], ◌∷◌, ok, err,
  if◌then◌else◌, length, Text, arith,
}
use yakr.Codec.{Codec}
use yakr.Crypto.{Crypto}
use yakr.Message.{Json}
use yakr.Session.Sending.{Sender}
use yakr.Fetch.{
  Item, Encounter, Fetching, Handled, still_pending, refused, taken, Outcome, Round, Ended, noted,
  proceed, again, onward, queue_of, handle, round, drain, fetch_answers,
}

-- A round keeps no more than it got, and less if it made progress.
abbrev Shrinks : ℕ → Round → Type 0
Shrinks n (err e, f) = Unit
Shrinks n (ok (still, progressed), f) = length still + (if progressed then 1 else 0) ≤ n

Shrinks-le : (m n : ℕ) (r : Round) → m ≤ n → Shrinks m r → Shrinks n r
Shrinks-le m n (err e, f) h s = tt
Shrinks-le m n (ok (still, progressed), f) h s = omega (arith, h, s)

noted-Shrinks :
    (n : ℕ) (i : Item) (h : Handled) (r : Round) → Shrinks n r → Shrinks (suc n) (noted i h r)
noted-Shrinks n i h (err e, f) s = tt
noted-Shrinks n i still_pending (ok (still, progressed), f) s = omega (arith, s)
noted-Shrinks n i refused (ok (still, progressed), f) s = omega (arith, s)
noted-Shrinks n i taken (ok (still, true), f) s = omega (arith, s)
noted-Shrinks n i taken (ok (still, false), f) s = omega (arith, s)

proceed-Shrinks :
    (n : ℕ) (rest : Fetching → Round) (i : Item) (r : Outcome)
    → ((f : Fetching) → Shrinks n (rest f))
    → Shrinks (suc n) (proceed rest i r)
proceed-Shrinks n rest i (err e, f) h = tt
proceed-Shrinks n rest i (ok handled, f) h = noted-Shrinks n i handled (rest f) (h f)

again-some :
    (n : ℕ) (rest : List Item → Fetching → Option Ended) (r : Round)
    → Shrinks (suc n) r
    → ((is : List Item) (f : Fetching) → length is ≤ n → (e : Ended) × (rest is f ≡ some e))
    → (e : Ended) × (again rest r ≡ some e)
again-some n rest (err e, f) s h = (_, refl)
again-some n rest (ok (still, true), f) s h = h still f (omega (arith, s))
again-some n rest (ok (still, false), f) s h = (_, refl)

onward-some :
    (rest : Fetching → Option Ended) (e : Ended)
    → ((f : Fetching) → (e' : Ended) × (rest f ≡ some e'))
    → (e' : Ended) × (onward rest (some e) ≡ some e')
onward-some rest (err e, f) h = (_, refl)
onward-some rest (ok u, f) h = h f

module _ (c : Codec) (j : Json) (k : Crypto) (own : Sender) (name : Text) where
  round-Shrinks :
      (ws : ℕ → Encounter) (is : List Item) (f : Fetching)
      → Shrinks (length is) (round c j k own name ws is f)
  unfolding round
  round-Shrinks ws [] f = omega arith
  round-Shrinks ws (i ∷ is) f =
      proceed-Shrinks (length is) (round c j k own name ws is) i
        (handle c j k own name (ws f.turn) i f) (round-Shrinks ws is)

  -- As many rounds as there are blobs are enough.
  drain-some :
      (ws : ℕ → Encounter) (fuel : ℕ) (is : List Item) (f : Fetching)
      → length is ≤ fuel
      → (e : Ended) × (drain c j k own name ws fuel is f ≡ some e)
  unfolding drain
  drain-some ws fuel [] f h = (_, refl)
  drain-some ws zero (i ∷ is) f h = absurd (omega (arith, h))
  drain-some ws (suc fuel) (i ∷ is) f h =
      again-some fuel (drain c j k own name ws fuel) (round c j k own name ws (i ∷ is) f)
        (Shrinks-le (length (i ∷ is)) (suc fuel) (round c j k own name ws (i ∷ is) f) h
          (round-Shrinks ws (i ∷ is) f))
        (λ is' f' h'. drain-some ws fuel is' f' h')

  -- A fetch ends, whatever the relays answer and whatever its calls meet: for each tag, as many rounds as there are
  -- different blobs are enough.
  pub fetch_ends :
      (ws : ℕ → Encounter) (answers : List (List Item)) (f : Fetching)
      → (e : Ended) × (fetch_answers c j k own name ws answers f ≡ some e)
  unfolding fetch_answers
  fetch_ends ws [] f = (_, refl)
  fetch_ends ws (items ∷ rest) f =
      let (e, done) = drain-some ws (length (queue_of items)) (queue_of items) f (omega arith) in
      rw done (onward-some (fetch_answers c j k own name ws rest) e (fetch_ends ws rest))
