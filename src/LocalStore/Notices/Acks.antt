-- ===== src/LocalStore/Notices/Acks.antt =====
-- core/store.py and core/profile_ack.py: an acknowledgement counts once; the newest grant of a relay is loaded.
use yakr.Prelude.{
  ℕ, ◌≤◌, ◌≡◌, refl, true, List, none, some, Text, All, eqb, eqb_refl, first, ltb, if◌then◌else◌,
  select, arith, subst, sym, ap,
}
use yakr.Contact.{Contact}
use yakr.Names.{IsPlain, join_names, split_names, split_names-join_names}
use yakr.ProfileAck.{apply_peer_profile_ack_pending}
use yakr.LocalStore.Tables.{first-order_by, first-insert_or_replace, first-select-lacks, lacks}
use yakr.LocalStore.{AckRow, GrantRow, FileLocalStore}
use yakr.LocalStore.Notices.{
  acked, is_ack, save_profile_ack_pending, take_profile_ack_pending, record_profile_ack_on_receipt,
  load_capability_grant, newer,
}

abbrev ack_row : Text → Text → ℕ → List Text → AckRow
ack_row name id version names = record {
  contact_name = name;
  msg_id = id;
  profile_version = version;
  relay_names = join_names names;
}

abbrev without : Text → Text → FileLocalStore → FileLocalStore
without name id s = record s {
  db = record s.db {
    profile_ack_pending = select (lacks (is_ack name id)) s.db.profile_ack_pending;
  };
}

record_profile_ack_on_receipt-found :
    (name id : Text) (x : Contact) (s : FileLocalStore) (r : AckRow) (names : List Text)
    → first (is_ack name id) s.db.profile_ack_pending ≡ some r
    → split_names r.relay_names ≡ names
    → record_profile_ack_on_receipt name id x s
      ≡ (apply_peer_profile_ack_pending r.profile_version names x, without name id s)
unfolding record_profile_ack_on_receipt
record_profile_ack_on_receipt-found name id x s r names found plain =
    let taken : take_profile_ack_pending name id s
        ≡ (some (r.profile_version, names), without name id s) =
      unfold take_profile_ack_pending in rw (take_profile_ack_pending, found, plain) refl in
    ap (acked x) taken

record_profile_ack_on_receipt-none :
    (name id : Text) (x : Contact) (s : FileLocalStore)
    → first (is_ack name id) s.db.profile_ack_pending ≡ none
    → record_profile_ack_on_receipt name id x s ≡ (x, s)
unfolding record_profile_ack_on_receipt
record_profile_ack_on_receipt-none name id x s lost =
    let taken : take_profile_ack_pending name id s ≡ (none, s) =
      unfold take_profile_ack_pending in rw (take_profile_ack_pending, lost) refl in
    ap (acked x) taken

-- The first receipt for a pushed profile records its version and its relays, as they were saved, if the version is
-- greater than the one acknowledged before, and otherwise leaves the contact as it was; a second receipt for
-- it changes nothing. The names have no commas and no spaces at their ends.
pub profile_ack_once :
    (name id : Text) (version : ℕ) (names : List Text) (x y : Contact) (s : FileLocalStore)
    → All IsPlain names
    → (let first_time =
          record_profile_ack_on_receipt name id x
            (save_profile_ack_pending name id version names s) in
        (first_time.0 ≡ (
          if ltb x.peer_acked_my_profile_version version
          then record x {
            peer_acked_my_profile_version = version;
            peer_acked_my_relay_names = names;
          }
          else x))
        × (record_profile_ack_on_receipt name id y first_time.1 ≡ (y, first_time.1)))
unfolding save_profile_ack_pending is_ack apply_peer_profile_ack_pending
profile_ack_once name id version names x y s plain =
    let own : is_ack name id (ack_row name id version names) ≡ true =
      rw (eqb_refl name, eqb_refl id) refl in
    let saved = save_profile_ack_pending name id version names s in
    let found =
      first-insert_or_replace (is_ack name id) (ack_row name id version names)
        s.db.profile_ack_pending own in
    let once =
      record_profile_ack_on_receipt-found name id x saved (ack_row name id version names) names
        found (split_names-join_names names plain) in
    let twice =
      record_profile_ack_on_receipt-none name id y (without name id saved)
        (first-select-lacks (is_ack name id) saved.db.profile_ack_pending) in
    subst
      (λ w.
        (w.0 ≡ apply_peer_profile_ack_pending version names x)
        × (record_profile_ack_on_receipt name id y w.1 ≡ (y, w.1)))
      (sym once) (refl, twice)

-- The grant that is loaded for a relay has the greatest generation that is stored for it.
pub load_capability_grant_newest :
    (name : Text) (s : FileLocalStore) (r : GrantRow)
    → load_capability_grant name s ≡ some r
    → All
        (λ x. x.capability_generation ≤ r.capability_generation)
        (select (λ x. eqb x.relay_name name) s.db.capability_grants)
unfolding load_capability_grant
load_capability_grant_newest name s r e =
    first-order_by newer (λ x y. x.capability_generation ≤ y.capability_generation)
      (λ x y z h g. omega arith) (λ x y h. ground arith) (λ x y h. ground arith) (λ x. omega arith)
      (select (λ x. eqb x.relay_name name) s.db.capability_grants) r e
