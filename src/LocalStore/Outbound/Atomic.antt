-- ===== src/LocalStore/Outbound/Atomic.antt =====
-- core/store.py `atomic_commit_send`: all of it or nothing, and the blob is there to be sent again.
use yakr.Prelude.{
  ℕ, ◌+◌, ◌≡◌, refl, true, false, Bool, Bool-cases, inl, inr, Option, some, ◌∷◌, Result, ok, err,
  first, Bytes, Text, codes, IsBytes, eqb_refl, lookup, lookup-insert_self, arith, subst,
}
use yakr.Base64.{b64encode}
use yakr.Base64.RoundTrip.{b64decode-b64encode, null-b64encode}
use yakr.Codec.{Codec}
use yakr.Contact.{Contact, contact_to_dict}
use yakr.Ephemeral.{message_ttl_ms}
use yakr.Message.{OuterBlob}
use yakr.LocalStore.Tables.{found_or, first-insert_or_ignore, first-insert_or_replace}
use yakr.LocalStore.{
  Database, FileLocalStore, StoreFault, injected_fault, sqlite_error, file_error, is_fault, finish,
}
use yakr.LocalStore.Outbound.{
  OutboundRow, SentRow, is_pending, is_sent, find_pending, outer_row, sent_row, commit_send,
  atomic_commit_send, outer_of, load_outbound_outer,
}

-- A text among those sent, which is kept for a day.
abbrev sent_text : ℕ → Text → ℕ → Text → SentRow
sent_text now name seq body = record {
  contact_name = name;
  seq = seq;
  body = body;
  created_at = now;
  valid_until = now + message_ttl_ms;
}

-- A message that waits for its receipt, with its blob.
abbrev pending_text : ℕ → Text → Text → ℕ → Text → OuterBlob → OutboundRow
pending_text now name id seq body outer = record {
  contact_name = name;
  msg_id = id;
  seq = seq;
  body = body;
  created_at = now;
  valid_until = now + message_ttl_ms;
  outer_ciphertext_b64 = some (b64encode outer.ciphertext);
  mailbox_tag_b64 = some (b64encode outer.mailbox_tag);
  outer_expires_at = some outer.expires_at;
}

module _ (c : Codec) where
  -- What a committed transaction leaves in the database.
  pub record IsCommitted (now : ℕ) (x : Contact) (id : Text) (seq : ℕ) (body : Text)
      (outer : OuterBlob) (s s' : FileLocalStore) : Type 0 where
    pub contact : lookup x.name s'.db.contacts ≡ some (contact_to_dict c x)
    pub pending : find_pending x.name id s'.db ≡ some (pending_text now x.name id seq body outer)
    pub sent :
        first (is_sent x.name seq) s'.db.sent_messages
        ≡ some (
            found_or
              (sent_text now x.name seq body)
              (first (is_sent x.name seq) s.db.sent_messages))

  -- The database that a transaction reached.
  record Reached (now : ℕ) (x : Contact) (id : Text) (seq : ℕ) (body : Text) (outer : OuterBlob)
      (before db : Database) : Type 0 where
    contact : lookup x.name db.contacts ≡ some (contact_to_dict c x)
    pending : find_pending x.name id db ≡ some (pending_text now x.name id seq body outer)
    sent :
        first (is_sent x.name seq) db.sent_messages
        ≡ some (
            found_or
              (sent_text now x.name seq body)
              (first (is_sent x.name seq) before.sent_messages))

  abbrev Ends :
      ℕ → Contact → Text → ℕ → Text → OuterBlob → Database → Result StoreFault Database → Type 0
  Ends now x id seq body outer before (ok db) = Reached now x id seq body outer before db
  Ends now x id seq body outer before (err injected_fault) = Unit
  Ends now x id seq body outer before (err sqlite_error) = Unit
  Ends now x id seq body outer before (err file_error) = ⊥

  commit_send-Ends :
      (fails : ℕ → Bool) (now : ℕ) (x : Contact) (id : Text) (seq : ℕ) (body : Text)
      (outer : OuterBlob) (fault : Option Text) (db : Database)
      → Ends now x id seq body outer db (commit_send c fails now x id seq body outer fault db)
  unfolding commit_send find_pending is_pending is_sent
  commit_send-Ends fails now x id seq body outer fault db = elim (Bool-cases (fails 0)) [
    | inl f0 ↦ rw f0 tt
    | inr g0 ↦ elim (Bool-cases (is_fault fault (codes "outbound_pending"))) [
      | inl injected ↦ rw (g0, injected) tt
      | inr clean ↦ elim (Bool-cases (fails 1)) [
        | inl f1 ↦ rw (g0, clean, f1) tt
        | inr g1 ↦ elim (Bool-cases (fails 2)) [
          | inl f2 ↦ rw (g0, clean, g1, f2) tt
          | inr g2 ↦ elim (Bool-cases (fails 3)) [
            | inl f3 ↦ rw (g0, clean, g1, g2, f3) tt
            | inr g3 ↦
                rw (g0, clean, g1, g2, g3)
                  (record {
                    contact = lookup-insert_self x.name (contact_to_dict c x) db.contacts;
                    pending =
                        first-insert_or_replace (is_pending x.name id)
                          (outer_row now x.name id seq body outer) db.outbound_pending
                          (rw (eqb_refl x.name, eqb_refl id) refl);
                    sent =
                        first-insert_or_ignore (is_sent x.name seq) (sent_row now x.name seq body)
                          db.sent_messages (rw (eqb_refl x.name) (ground arith));
                  })
          ]
        ]
      ]
    ]
  ]

  abbrev pub Outcome :
      ℕ
      → Contact
      → Text
      → ℕ
      → Text
      → OuterBlob
      → FileLocalStore
      → Result StoreFault (Unit {0}) × FileLocalStore
      → Type 0
  Outcome now x id seq body outer s (ok u, s') =
      IsCommitted now x id seq body outer s s'
      × (lookup x.name s'.contact_files ≡ some (contact_to_dict c x))
  Outcome now x id seq body outer s (err file_error, s') =
      IsCommitted now x id seq body outer s s' × (s'.contact_files ≡ s.contact_files)
  Outcome now x id seq body outer s (err injected_fault, s') = s' ≡ s
  Outcome now x id seq body outer s (err sqlite_error, s') = s' ≡ s

  finish-Outcome :
      (unwritable : Bool) (now : ℕ) (x : Contact) (id : Text) (seq : ℕ) (body : Text)
      (outer : OuterBlob) (s : FileLocalStore) (r : Result StoreFault Database)
      → Ends now x id seq body outer s.db r
      → Outcome now x id seq body outer s (finish c unwritable x s r)
  unfolding finish find_pending
  finish-Outcome unwritable now x id seq body outer s (err injected_fault) h = refl
  finish-Outcome unwritable now x id seq body outer s (err sqlite_error) h = refl
  finish-Outcome unwritable now x id seq body outer s (err file_error) h = absurd h
  finish-Outcome true now x id seq body outer s (ok db) h =
      (record { contact = h.contact; pending = h.pending; sent = h.sent }, refl)
  finish-Outcome false now x id seq body outer s (ok db) h = (
    record { contact = h.contact; pending = h.pending; sent = h.sent },
    lookup-insert_self x.name (contact_to_dict c x) s.contact_files,
  )

  pub commit_send_atomic :
      (fails : ℕ → Bool) (now : ℕ) (x : Contact) (id : Text) (seq : ℕ) (body : Text)
      (outer : OuterBlob) (s : FileLocalStore)
      → Outcome now x id seq body outer s (atomic_commit_send c fails now x id seq body outer s)
  unfolding atomic_commit_send
  commit_send_atomic fails now x id seq body outer s =
      finish-Outcome (fails 4) now x id seq body outer s _
        (commit_send-Ends fails now x id seq body outer s.test_fault s.db)

  outer_of-row :
      (tag_head : ℕ) (tag : Bytes) (head : ℕ) (rest : Bytes) (expires_at : ℕ)
      → IsBytes (tag_head ∷ tag)
      → IsBytes (head ∷ rest)
      → outer_of
          (some (b64encode (head ∷ rest)))
          (some (b64encode (tag_head ∷ tag)))
          (some expires_at)
        ≡ some (
            some (record {
              version = 1;
              mailbox_tag = tag_head ∷ tag;
              expires_at = expires_at;
              ciphertext = head ∷ rest;
            }))
  unfolding outer_of
  outer_of-row tag_head tag head rest expires_at t b =
      rw
        (
          null-b64encode head rest b,
          null-b64encode tag_head tag t,
          b64decode-b64encode (tag_head ∷ tag) t,
          b64decode-b64encode (head ∷ rest) b,
        )
        refl

  -- A blob that was committed is loaded as it was, to be sent again.
  pub load_outbound_outer-commit :
      (fails : ℕ → Bool) (now : ℕ) (x : Contact) (id : Text) (seq : ℕ) (body : Text)
      (s s' : FileLocalStore) (tag_head head expires_at : ℕ) (tag rest : Bytes)
      → IsBytes (tag_head ∷ tag)
      → IsBytes (head ∷ rest)
      → (let outer : OuterBlob = record {
        version = 1;
        mailbox_tag = tag_head ∷ tag;
        expires_at = expires_at;
        ciphertext = head ∷ rest;
      } in
          atomic_commit_send c fails now x id seq body outer s ≡ (ok tt, s')
          → load_outbound_outer x.name id s' ≡ some (some outer))
  unfolding load_outbound_outer
  load_outbound_outer-commit fails now x id seq body s s' tag_head head expires_at tag rest t b e =
      let outer : OuterBlob = record {
        version = 1;
        mailbox_tag = tag_head ∷ tag;
        expires_at = expires_at;
        ciphertext = head ∷ rest;
      } in
      let done : IsCommitted now x id seq body outer s s' =
        (subst (Outcome now x id seq body outer s) e
          (commit_send_atomic fails now x id seq body outer s)).0 in
      rw (load_outbound_outer, done.pending) (outer_of-row tag_head tag head rest expires_at t b)
