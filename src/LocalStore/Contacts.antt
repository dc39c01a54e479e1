-- ===== src/LocalStore/Contacts.antt =====
-- core/store.py: the contacts, in the database and in their JSON files.
use yakr.Prelude.{
  ℕ, ◌≡◌, refl, Bool, Option, none, some, List, map, Result, ok, err, ◌>>=◌, Text, lookup,
  lookup-insert_self,
}
use yakr.Codec.{Codec}
use yakr.Contact.{Contact, SavedContact, ContactError, contact_to_dict, contact_from_dict, text_ltb}
use yakr.Contact.RoundTrip.{IsSavable, contact_from_dict-to_dict}
use yakr.LocalStore.Tables.{order_by}
use yakr.LocalStore.{
  FileLocalStore, StoreFault, execute, save_contact_conn, sync_contact_json, finish,
}

abbrev stem : Text × SavedContact → Text
stem (name, saved) = name

-- `sorted(path.stem for path in …)`
unfoldable pub list_contacts : FileLocalStore → List Text
list_contacts s = order_by text_ltb (map stem s.contact_files)

module _ (c : Codec) where
  unfoldable pub save_contact : Contact → FileLocalStore → FileLocalStore
  save_contact x s = sync_contact_json c x (record s { db = save_contact_conn c x s.db })

  unfoldable pub atomic_persist_contact :
      (ℕ → Bool) → Contact → FileLocalStore → Result StoreFault (Unit {0}) × FileLocalStore
  atomic_persist_contact fails x s =
      finish c (fails 2) x s
        (do db ← execute fails 0 (save_contact_conn c x s.db); execute fails 1 db)

  -- A contact that is only in its file is read from there and saved in the database.
  contact_of_file :
      FileLocalStore → Option SavedContact → Result ContactError (Option Contact) × FileLocalStore
  contact_of_file s none = (ok none, s)
  contact_of_file s (some saved) = elim (contact_from_dict c saved) [
    | err e ↦ (err e, s)
    | ok x ↦ (ok (some x), save_contact x s)
  ]

  unfoldable pub get_contact :
      Text → FileLocalStore → Result ContactError (Option Contact) × FileLocalStore
  unfolding contact_of_file
  get_contact name s = elim (lookup name s.db.contacts) [
    | none ↦ contact_of_file s (lookup name s.contact_files)
    | some saved ↦ ((do x ← contact_from_dict c saved; ok (some x)), s)
  ]

  -- A contact that was saved is found as it was, if its keys are bytes and its ratchet's are not empty where they
  -- are set, the relay URLs of its profile have no slash at their ends, a generation comes with its salt, and
  -- the names of relays that it acknowledged have no commas and no spaces at their ends.
  pub get_contact-save_contact :
      (x : Contact) (s : FileLocalStore)
      → IsSavable x
      → get_contact x.name (save_contact x s) ≡ (ok (some x), save_contact x s)
  unfolding get_contact save_contact
  get_contact-save_contact x s h =
      rw
        (
          get_contact,
          lookup-insert_self x.name (contact_to_dict c x) s.db.contacts,
          contact_from_dict-to_dict c x h,
        )
        refl

  -- A contact whose row is lost is found in its file, and is in the database again.
  pub get_contact-file :
      (x : Contact) (s : FileLocalStore)
      → IsSavable x
      → lookup x.name s.db.contacts ≡ none
      → lookup x.name s.contact_files ≡ some (contact_to_dict c x)
      → get_contact x.name s ≡ (ok (some x), save_contact x s)
  unfolding get_contact contact_of_file
  get_contact-file x s h lost there =
      rw (get_contact, lost, there, contact_of_file, contact_from_dict-to_dict c x h) refl
