-- ===== src/LocalStore/Inbound/Commit.antt =====
-- core/store.py `atomic_commit_receive_text`: all of it or nothing, and each message is shown once.
use yakr.Prelude.{
  ℕ, ◌+◌, ◌<◌, ◌≡◌, refl, ap, ◌∙◌, subst, true, false, Bool, Bool-cases, inl, inr, Option, none,
  some, List, [], ◌∷◌, ◌++◌, Result, ok, err, if◌then◌else◌, count, count-append, select,
  select-append, any, ltb, length, Bytes, Text, codes, eqb_refl, arith, Option-cases, ◌⊎◌, insert,
}
use yakr.Codec.{Codec}
use yakr.Contact.{Contact, contact_to_dict}
use yakr.Crypto.{Crypto, IsAead}
use yakr.Crypto.Sealing.{xchacha_decrypt-encrypt}
use yakr.Message.{Json, InnerMessage, inner_to_bytes}
use yakr.Message.RoundTrip.{IsJson, inner_from_bytes-to_bytes}
use yakr.Session.{is_text}
use yakr.Session.Sending.{
  Sender, wrap_local_ciphertext, unwrap_local_ciphertext, device_storage_key,
}
use yakr.LocalStore.Tables.{insert_or_ignore, order_by, count-order_by}
use yakr.LocalStore.{
  InboundRow, Database, FileLocalStore, StoreFault, injected_fault, sqlite_error, file_error,
  is_fault, save_contact_conn, sync_contact_json, finish,
}
use yakr.LocalStore.Inbound.{
  Entry, is_inbound, inbound_row, receipt_row, put_inbound, put_receipt, is_current, before_by_time,
  queue_receipt, commit_receive, atomic_commit_receive_text, shown_inner, shown, all_shown,
  list_inbound_messages_timed,
}

abbrev put_receipt? : ℕ → Text → Option Text → Option Text → Database → Database
put_receipt? now name none route db = db
put_receipt? now name (some id) route db = put_receipt (receipt_row now name id route) db

queue_receipt-ok :
    (fails : ℕ → Bool) (now : ℕ) (name : Text) (id route fault : Option Text) (db : Database)
    → (queue_receipt fails now name id route fault db ≡ ok (put_receipt? now name id route db))
      ⊎ ((queue_receipt fails now name id route fault db ≡ err injected_fault)
          ⊎ (queue_receipt fails now name id route fault db ≡ err sqlite_error))
unfolding queue_receipt
queue_receipt-ok fails now name none route fault db = inl refl
queue_receipt-ok fails now name (some id) route fault db =
    elim (Bool-cases (is_fault fault (codes "pending_receipt"))) [
      | inl injected ↦ inr (inl (rw injected refl))
      | inr clean ↦ elim (Bool-cases (fails 2)) [
        | inl f2 ↦ inr (inr (rw (clean, f2) refl))
        | inr g2 ↦ inl (rw (clean, g2) refl)
      ]
    ]

module _ (c : Codec) (j : Json) (k : Crypto) where
  -- The database that a commit leaves.
  abbrev pub received_db :
      ℕ → Bytes → Sender → Contact → InnerMessage → Option Text → Option Text → Database → Database
  received_db now nonce own x inner id route db = put_receipt? now x.name id route (
      put_inbound
        (inbound_row now x.name inner (wrap_local_ciphertext k nonce own (inner_to_bytes j inner)))
        (save_contact_conn c x db))

  abbrev pub ReceiveOutcome :
      ℕ
      → Bytes
      → Sender
      → Contact
      → InnerMessage
      → Option Text
      → Option Text
      → FileLocalStore
      → Result StoreFault (Unit {0}) × FileLocalStore
      → Type 0
  ReceiveOutcome now nonce own x inner id route s (ok u, s') =
      s' ≡ sync_contact_json c x (record s { db = received_db now nonce own x inner id route s.db })
  ReceiveOutcome now nonce own x inner id route s (err file_error, s') =
      s' ≡ record s { db = received_db now nonce own x inner id route s.db }
  ReceiveOutcome now nonce own x inner id route s (err injected_fault, s') = s' ≡ s
  ReceiveOutcome now nonce own x inner id route s (err sqlite_error, s') = s' ≡ s

  pub inbound-received_db :
      (now : ℕ) (nonce : Bytes) (own : Sender) (x : Contact) (inner : InnerMessage)
      (id route : Option Text) (db : Database)
      → (received_db now nonce own x inner id route db).inbound_messages
        ≡ insert_or_ignore
            (is_inbound x.name inner.seq)
            (inbound_row now x.name inner
              (wrap_local_ciphertext k nonce own (inner_to_bytes j inner)))
            db.inbound_messages
  inbound-received_db now nonce own x inner none route db = refl
  inbound-received_db now nonce own x inner (some id) route db = refl

  pub contacts-received_db :
      (now : ℕ) (nonce : Bytes) (own : Sender) (x : Contact) (inner : InnerMessage)
      (id route : Option Text) (db : Database)
      → (received_db now nonce own x inner id route db).contacts
        ≡ insert x.name (contact_to_dict c x) db.contacts
  contacts-received_db now nonce own x inner none route db = refl
  contacts-received_db now nonce own x inner (some id) route db = refl

  pub commit_receive-Outcome :
      (fails : ℕ → Bool) (now : ℕ) (nonce : Bytes) (own : Sender) (x : Contact)
      (inner : InnerMessage) (id route : Option Text) (s : FileLocalStore)
      → ReceiveOutcome now nonce own x inner id route s
          (atomic_commit_receive_text c j k fails now nonce own x inner id route s)
  unfolding atomic_commit_receive_text commit_receive finish
  commit_receive-Outcome fails now nonce own x inner id route s = elim (Bool-cases (fails 0)) [
    | inl f0 ↦ rw f0 refl
    | inr g0 ↦ elim (Bool-cases (is_fault s.test_fault (codes "inbound_message"))) [
      | inl injected ↦ rw (g0, injected) refl
      | inr clean ↦ elim (Bool-cases (fails 1)) [
        | inl f1 ↦ rw (g0, clean, f1) refl
        | inr g1 ↦
            let put =
              put_inbound
                (inbound_row now x.name inner
                  (wrap_local_ciphertext k nonce own (inner_to_bytes j inner)))
                (save_contact_conn c x s.db) in
            elim (queue_receipt-ok fails now x.name id route s.test_fault put) [
              | inr (inl bad) ↦ rw (g0, clean, g1, bad) refl
              | inr (inr bad) ↦ rw (g0, clean, g1, bad) refl
              | inl queued ↦ elim (Bool-cases (fails 3)) [
                | inl f3 ↦ rw (g0, clean, g1, queued, f3) refl
                | inr g3 ↦ elim (Bool-cases (fails 4)) [
                  | inl f4 ↦ rw (g0, clean, g1, queued, g3, f4) refl
                  | inr g4 ↦ rw (g0, clean, g1, queued, g3, g4) refl
                ]
              ]
            ]
      ]
    ]
  ]

-- What a row adds to a count of entries.
abbrev counts : (Entry → Bool) → Option Entry → ℕ
counts p none = 0
counts p (some e) = if p e then 1 else 0

abbrev passes : (Entry → Bool) → Option Entry → Bool
passes p none = false
passes p (some e) = p e

module _ (j : Json) (k : Crypto) where
  count-all_shown :
      (p : Entry → Bool) (now : ℕ) (own : Sender) (rows : List InboundRow)
      → count p (all_shown j k now own rows) ≡ count (λ r. passes p (shown j k now own r)) rows
  unfolding all_shown
  count-all_shown p now own [] = refl
  count-all_shown p now own (r ∷ rows) = elim (Option-cases (shown j k now own r)) [
    | inl hidden ↦ rw (all_shown, hidden) (omega (arith, count-all_shown p now own rows))
    | inr (e, seen) ↦
        rw (all_shown, seen) (ap (λ n. (if p e then 1 else 0) + n) (count-all_shown p now own rows))
  ]

  -- The entries of the list, by the rows of the table.
  pub count-list_inbound :
      (p : Entry → Bool) (now : ℕ) (name : Text) (own : Sender) (s : FileLocalStore)
      → count p (list_inbound_messages_timed j k now name own s)
        ≡ count
            (λ r. passes p (shown j k now own r))
            (select (is_current name now) s.db.inbound_messages)
  unfolding list_inbound_messages_timed
  count-list_inbound p now name own s =
      let rows = select (is_current name now) s.db.inbound_messages in
      count-all_shown p now own (order_by before_by_time rows)
      ∙ count-order_by (λ r. passes p (shown j k now own r)) before_by_time rows

  shown-inbound_row :
      (l : IsJson j) (a : IsAead k) (at now : ℕ) (nonce : Bytes) (own : Sender) (name : Text)
      (inner : InnerMessage)
      → length nonce ≡ 24
      → is_text inner.type ≡ true
      → now < inner.valid_until
      → shown j k now own
          (inbound_row at name inner (wrap_local_ciphertext k nonce own (inner_to_bytes j inner)))
        ≡ some (inner.seq, inner.body, at)
  unfolding shown shown_inner unwrap_local_ciphertext wrap_local_ciphertext
  shown-inbound_row l a at now nonce own name inner size text alive =
      let living : ltb inner.valid_until now ≡ false = ground (arith, alive) in
      rw
        (
          shown,
          unwrap_local_ciphertext,
          wrap_local_ciphertext,
          xchacha_decrypt-encrypt k a nonce (device_storage_key k own) (inner_to_bytes j inner) []
              size,
          inner_from_bytes-to_bytes j l inner,
          living,
          text,
        )
        refl

  -- One row more, at the end of the table.
  count-select-append :
      (p : Entry → Bool) (later : ℕ) (name : Text) (own : Sender) (rows : List InboundRow)
      (r : InboundRow)
      → is_current name later r ≡ true
      → count
          (λ x. passes p (shown j k later own x))
          (select (is_current name later) (rows ++ r ∷ []))
        ≡ count (λ x. passes p (shown j k later own x)) (select (is_current name later) rows)
          + (if passes p (shown j k later own r) then 1 else 0)
  count-select-append p later name own rows r current =
      rw (select-append (is_current name later) rows (r ∷ []), current)
        (omega (
          arith,
          count-append (λ x. passes p (shown j k later own x)) (select (is_current name later) rows)
              (r ∷ []),
        ))

module _ (c : Codec) (j : Json) (k : Crypto) (l : IsJson j) (a : IsAead k) where
  -- A text that was committed is shown until it expires, exactly once more than before if no message of the contact
  -- had its number; if one had, the list stays as it was. The other entries stay the same either way.
  pub committed_text_is_shown :
      (p : Entry → Bool) (fails : ℕ → Bool) (now later : ℕ) (nonce : Bytes) (own : Sender)
      (x : Contact) (inner : InnerMessage) (id route : Option Text) (s s' : FileLocalStore)
      → length nonce ≡ 24
      → is_text inner.type ≡ true
      → later < inner.valid_until
      → atomic_commit_receive_text c j k fails now nonce own x inner id route s ≡ (ok tt, s')
      → count p (list_inbound_messages_timed j k later x.name own s')
        ≡ count p (list_inbound_messages_timed j k later x.name own s)
          + (if any (is_inbound x.name inner.seq) s.db.inbound_messages
              then 0
              else if p (inner.seq, inner.body, now)
              then 1
              else 0)
  unfolding insert_or_ignore
  committed_text_is_shown p fails now later nonce own x inner id route s s' size text alive e =
      let r =
        inbound_row now x.name inner (wrap_local_ciphertext k nonce own (inner_to_bytes j inner)) in
      let rows = s.db.inbound_messages in
      let done : s'
          ≡ sync_contact_json c x
              (record s { db = received_db c j k now nonce own x inner id route s.db }) =
        subst (ReceiveOutcome c j k now nonce own x inner id route s) e
          (commit_receive-Outcome c j k fails now nonce own x inner id route s) in
      let table : s'.db.inbound_messages ≡ insert_or_ignore (is_inbound x.name inner.seq) r rows =
        ap (λ (t : FileLocalStore). t.db.inbound_messages) done
        ∙ inbound-received_db c j k now nonce own x inner id route s.db in
      let before = count-list_inbound j k p later x.name own s in
      let after = count-list_inbound j k p later x.name own s' in
      let seen = shown-inbound_row j k l a now later nonce own x.name inner size text alive in
      let current : is_current x.name later r ≡ true = ground (arith, eqb_refl x.name, alive) in
      elim (Bool-cases (any (is_inbound x.name inner.seq) rows)) [
        | inl there ↦
            let same : s'.db.inbound_messages ≡ rows = table ∙ (rw there refl) in
            rw (there, after, same, before) (omega arith)
        | inr absent ↦
            let longer : s'.db.inbound_messages ≡ rows ++ r ∷ [] = table ∙ (rw absent refl) in
            let added = count-select-append j k p later x.name own rows r current in
            rw (absent, after, longer, before, added, seen) refl
      ]
