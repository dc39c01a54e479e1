-- ===== src/Fetch/Counting.antt =====
-- fetch_cmds.py: how many texts a fetch counts.
use yakr.Prelude.{
  ℕ, zero, suc, ◌+◌, ◌≤◌, ◌≡◌, refl, subst, true, false, Bool, Bool-cases, inl, inr, not, null,
  ◌&&◌, Option, Option-cases, none, some, List, [], ◌∷◌, Result, Result-cases, ok, err, length,
  Bytes, Text, arith,
}
use yakr.Codec.{Codec}
use yakr.Contact.{Contact, ContactError}
use yakr.Crypto.{Crypto}
use yakr.DeliveryProfile.{verify_delivery_profile, accept_delivery_profile_update}
use yakr.DeliveryProfile.Payload.{DeliveryProfile, ProfileError, from_b64}
use yakr.DeliveryProfile.Updates.{apply_delivery_profile_update}
use yakr.Message.{Json, InnerMessage, OuterBlob}
use yakr.Message.RelayJson.{RelayJsonError, from_relay_json}
use yakr.Presence.Payload.{
  PresencePayload, PresenceError, unsupported_presence, unreadable, operator_mismatch,
}
use yakr.ProfileAck.{apply_peer_profile_ack_pending}
use yakr.Receipts.{ReceiptError}
use yakr.Session.{SessionError, is_text}
use yakr.Session.Receiving.{decrypt_inbound-Outcome}
use yakr.Session.Receiving
use yakr.Session.Sending.{Sender}
use yakr.LocalStore.{FileLocalStore, StoreFault}
use yakr.LocalStore.Notices.{acked, record_profile_ack_on_receipt, take_profile_ack_pending}
use yakr.Fetch.{
  Item, Encounter, Fetching, FetchError, Handled, still_pending, refused, taken, Outcome, Round,
  Ended, escapes, is_duplicate, is_value_error, is_profile, noted, proceed, again, onward, queue_of,
  refresh, after_receipt, after_commit, take_text, take_receipt, receipt_id, take_rest,
  take_presence, updated, take_profile, take_inner, decrypted, handle_outer, handle, round, drain,
  fetch_answers,
}

-- The last number is this one, and no more texts are counted than this.
abbrev Within : ℕ → ℕ → Outcome → Type 0
Within last n (r, f) = (f.contact.last_recv_seq ≡ last) × (f.fetched ≤ n)

-- No more texts are counted than numbers were taken.
abbrev Counted : Fetching → Fetching → Type 0
Counted f f' = f'.fetched + f.contact.last_recv_seq ≤ f.fetched + f'.contact.last_recv_seq

abbrev KeepsSeq : Contact → Result ProfileError Contact → Type 0
KeepsSeq x (ok x') = x'.last_recv_seq ≡ x.last_recv_seq
KeepsSeq x (err e) = Unit

acked-seq :
    (x : Contact) (r : Option (ℕ × List Text) × FileLocalStore)
    → (acked x r).0.last_recv_seq ≡ x.last_recv_seq
unfolding apply_peer_profile_ack_pending
acked-seq x (none, s) = refl
acked-seq x (some (version, names), s) = ground arith

record_profile_ack_on_receipt-seq :
    (name id : Text) (x : Contact) (s : FileLocalStore)
    → (record_profile_ack_on_receipt name id x s).0.last_recv_seq ≡ x.last_recv_seq
unfolding record_profile_ack_on_receipt
record_profile_ack_on_receipt-seq name id x s = acked-seq x (take_profile_ack_pending name id s)

apply_delivery_profile_update-KeepsSeq :
    (c : Codec) (k : Crypto) (now : ℕ) (p : DeliveryProfile) (key : Bytes) (x : Contact)
    → KeepsSeq x (apply_delivery_profile_update c k now p key x)
unfolding apply_delivery_profile_update
apply_delivery_profile_update-KeepsSeq c k now p key x =
    elim (Result-cases (verify_delivery_profile c k p key)) [
      | inr (e, bad) ↦ rw bad tt
      | inl (u, good) ↦
          elim (Result-cases (accept_delivery_profile_update c k now x.delivery_profile p)) [
            | inr (e, bad) ↦ rw (good, bad) tt
            | inl (v, fine) ↦ rw (good, fine) refl
          ]
    ]

Counted-then : (f f' f'' : Fetching) → Counted f f' → Counted f' f'' → Counted f f''
Counted-then f f' f'' h g = omega (arith, h, g)

noted-state : (i : Item) (h : Handled) (r : Round) → (noted i h r).1 ≡ r.1
noted-state i h (err e, f) = refl
noted-state i still_pending (ok (still, progressed), f) = refl
noted-state i refused (ok (still, progressed), f) = refl
noted-state i taken (ok (still, progressed), f) = refl

proceed-Counted :
    (f : Fetching) (rest : Fetching → Round) (i : Item) (r : Outcome)
    → Counted f r.1
    → ((f' : Fetching) → Counted f' (rest f').1)
    → Counted f (proceed rest i r).1
proceed-Counted f rest i (err e, f') h g = h
proceed-Counted f rest i (ok handled, f') h g =
    rw (noted-state i handled (rest f')) (Counted-then f f' (rest f').1 h (g f'))

-- Where a loop ended.
abbrev CountedEnd : Fetching → Option Ended → Type 0
CountedEnd f none = Unit
CountedEnd f (some (r, f')) = Counted f f'

CountedEnd-then :
    (f f' : Fetching) (e : Option Ended) → Counted f f' → CountedEnd f' e → CountedEnd f e
CountedEnd-then f f' none h g = tt
CountedEnd-then f f' (some (r, f'')) h g = Counted-then f f' f'' h g

again-Counted :
    (f : Fetching) (rest : List Item → Fetching → Option Ended) (r : Round)
    → Counted f r.1
    → ((is : List Item) (f' : Fetching) → CountedEnd f' (rest is f'))
    → CountedEnd f (again rest r)
again-Counted f rest (err e, f') h g = h
again-Counted f rest (ok (still, true), f') h g =
    CountedEnd-then f f' (rest still f') h (g still f')
again-Counted f rest (ok (still, false), f') h g = h

onward-Counted :
    (f : Fetching) (rest : Fetching → Option Ended) (e : Option Ended)
    → CountedEnd f e
    → ((f' : Fetching) → CountedEnd f' (rest f'))
    → CountedEnd f (onward rest e)
onward-Counted f rest none h g = tt
onward-Counted f rest (some (err e, f')) h g = h
onward-Counted f rest (some (ok u, f')) h g = CountedEnd-then f f' (rest f') h (g f')

module _ (c : Codec) (last n : ℕ) where
  refresh-Within :
      (f : Fetching) (r : Result ContactError (Option Contact) × FileLocalStore)
      → f.contact.last_recv_seq ≡ last
      → f.fetched ≤ n
      → Within last n (refresh c f r)
  unfolding refresh
  refresh-Within f (err e, s) h g = (h, g)
  refresh-Within f (ok none, s) h g = (h, g)
  refresh-Within f (ok (some x), s) h g = (h, g)

  after_receipt-Within :
      (f : Fetching) (r : Result ReceiptError Bool × FileLocalStore)
      → f.contact.last_recv_seq ≡ last
      → f.fetched ≤ n
      → Within last n (after_receipt c f r)
  unfolding after_receipt
  after_receipt-Within f (err e, s) h g = (h, g)
  after_receipt-Within f (ok sent, s) h g = refresh-Within (record f { store = s }) _ h g

module _ (c : Codec) (j : Json) (k : Crypto) (own : Sender) (name : Text) where
  after_commit-Within :
      (w : Encounter) (id : Text) (f : Fetching) (r : Result StoreFault (Unit {0}) × FileLocalStore)
      → Within f.contact.last_recv_seq (f.fetched + 1) (after_commit c j k own name w id f r)
  unfolding after_commit
  after_commit-Within w id f (err e, s) = (refl, omega arith)
  after_commit-Within w id f (ok u, s) =
      after_receipt-Within c _ _ (record f { store = s; fetched = f.fetched + 1 }) _ refl
        (omega arith)

  take_rest-Within :
      (w : Encounter) (outer : OuterBlob) (inner : InnerMessage) (f : Fetching)
      → Within f.contact.last_recv_seq (f.fetched + 1) (take_rest c j k own name w outer inner f)
  unfolding take_rest take_receipt take_text
  take_rest-Within w outer inner f = elim (Option-cases (receipt_id c j k own name inner)) [
    | inr (id, receipt) ↦
        rw (take_rest, receipt) (record_profile_ack_on_receipt-seq name id f.contact _, omega arith)
    | inl none_ ↦ elim (Bool-cases (is_text inner.type)) [
      | inl text ↦ rw (take_rest, none_, text) (after_commit-Within w _ f _)
      | inr other ↦ rw (take_rest, none_, other) (refl, omega arith)
    ]
  ]

  take_presence-Within :
      (w : Encounter) (outer : OuterBlob) (inner : InnerMessage) (f : Fetching)
      (r : Result PresenceError (Option PresencePayload × FileLocalStore))
      → Within f.contact.last_recv_seq
          (f.fetched + 1)
          (take_presence c j k own name w outer inner f r)
  unfolding take_presence
  take_presence-Within w outer inner f (err unsupported_presence) = (refl, omega arith)
  take_presence-Within w outer inner f (err unreadable) = (refl, omega arith)
  take_presence-Within w outer inner f (err operator_mismatch) = take_rest-Within w outer inner f
  take_presence-Within w outer inner f (ok (none, s)) =
      take_rest-Within w outer inner (record f { store = s })
  take_presence-Within w outer inner f (ok (some p, s)) = (refl, omega arith)

  updated-Within :
      (f : Fetching) (r : Result ProfileError Contact)
      → KeepsSeq f.contact r
      → Within f.contact.last_recv_seq (f.fetched + 1) (updated c j k own name f r)
  unfolding updated
  updated-Within f (ok x) h = (h, omega arith)
  updated-Within f (err e) h = elim (Bool-cases (is_value_error e)) [
    | inl caught ↦ rw caught (refl, omega arith)
    | inr raised ↦ rw raised (refl, omega arith)
  ]

  take_profile-Within :
      (w : Encounter) (f : Fetching) (r : Result ProfileError DeliveryProfile)
      → Within f.contact.last_recv_seq (f.fetched + 1) (take_profile c j k own name w f r)
  unfolding take_profile
  take_profile-Within w f (err e) = (refl, omega arith)
  take_profile-Within w f (ok p) =
      updated-Within f _
        (apply_delivery_profile_update-KeepsSeq c k w.now p f.contact.signing_public f.contact)

  take_inner-Within :
      (w : Encounter) (outer : OuterBlob) (inner : InnerMessage) (f : Fetching)
      → Within f.contact.last_recv_seq (f.fetched + 1) (take_inner c j k own name w outer inner f)
  unfolding take_inner
  take_inner-Within w outer inner f =
      elim (Bool-cases (is_profile inner.type && not (null inner.body))) [
        | inl profile ↦ rw profile (take_profile-Within w f (from_b64 c inner.body))
        | inr other ↦ rw other (take_presence-Within w outer inner f _)
      ]

  decrypted-Counted :
      (w : Encounter) (outer : OuterBlob) (f : Fetching)
      (r : Result SessionError InnerMessage × Contact)
      → Receiving.Outcome w.now f.contact r
      → Counted f (decrypted c j k own name w outer f r).1
  unfolding decrypted
  decrypted-Counted w outer f (ok inner, x) h =
      let (same, most) = take_inner-Within w outer inner (record f { contact = x }) in
      omega (arith, same, most, h.next_seq, h.advanced)
  decrypted-Counted w outer f (err e, x) h = elim (Bool-cases (escapes e)) [
    | inl raised ↦ rw raised (omega (arith, h.seq))
    | inr caught ↦ elim (Bool-cases (is_duplicate e)) [
      | inl duplicate ↦ rw (caught, duplicate) (omega (arith, h.seq))
      | inr bad ↦ rw (caught, bad) (omega (arith, h.seq))
    ]
  ]

  handle_outer-Counted :
      (w : Encounter) (f : Fetching) (r : Result RelayJsonError OuterBlob)
      → Counted f (handle_outer c j k own name w f r).1
  unfolding handle_outer
  handle_outer-Counted w f (err e) = omega arith
  handle_outer-Counted w f (ok outer) =
      decrypted-Counted w outer f _ (decrypt_inbound-Outcome j k w.now w.fresh outer f.contact)

  handle-Counted :
      (w : Encounter) (i : Item) (f : Fetching) → Counted f (handle c j k own name w i f).1
  unfolding handle
  handle-Counted w i f =
      handle_outer-Counted w (record f { turn = f.turn + 1 }) (from_relay_json i.blob)

  round-Counted :
      (ws : ℕ → Encounter) (is : List Item) (f : Fetching)
      → Counted f (round c j k own name ws is f).1
  unfolding round
  round-Counted ws [] f = omega arith
  round-Counted ws (i ∷ is) f =
      proceed-Counted f (round c j k own name ws is) i (handle c j k own name (ws f.turn) i f)
        (handle-Counted (ws f.turn) i f) (round-Counted ws is)

  drain-Counted :
      (ws : ℕ → Encounter) (fuel : ℕ) (is : List Item) (f : Fetching)
      → CountedEnd f (drain c j k own name ws fuel is f)
  unfolding drain
  drain-Counted ws fuel [] f = omega arith
  drain-Counted ws zero (i ∷ is) f = tt
  drain-Counted ws (suc fuel) (i ∷ is) f =
      again-Counted f (drain c j k own name ws fuel) (round c j k own name ws (i ∷ is) f)
        (round-Counted ws (i ∷ is) f) (drain-Counted ws fuel)

  fetch_answers-Counted :
      (ws : ℕ → Encounter) (answers : List (List Item)) (f : Fetching)
      → CountedEnd f (fetch_answers c j k own name ws answers f)
  unfolding fetch_answers
  fetch_answers-Counted ws [] f = omega arith
  fetch_answers-Counted ws (items ∷ rest) f =
      onward-Counted f (fetch_answers c j k own name ws rest)
        (drain c j k own name ws (length (queue_of items)) (queue_of items) f)
        (drain-Counted ws (length (queue_of items)) (queue_of items) f)
        (fetch_answers-Counted ws rest)

  -- However the relays repeat and reorder the blobs, a fetch counts no more texts than the last number of the contact
  -- went up: a message is counted once. This holds where an exception ends the fetch too.
  pub fetched_counts_once :
      (ws : ℕ → Encounter) (answers : List (List Item)) (f f' : Fetching)
      (r : Result FetchError (Unit {0}))
      → fetch_answers c j k own name ws answers f ≡ some (r, f')
      → f'.fetched + f.contact.last_recv_seq ≤ f.fetched + f'.contact.last_recv_seq
  fetched_counts_once ws answers f f' r e =
      subst (CountedEnd f) e (fetch_answers-Counted ws answers f)
