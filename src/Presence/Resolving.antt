-- ===== src/Presence/Resolving.antt =====
-- presence.py: what a contact tells of its relay is used while it is fresh.
use yakr.Prelude.{
  ℕ, ◌+◌, ◌<◌, ◌≡◌, refl, true, false, some, ok, ltb, Bool-cases, inl, inr, if◌then◌else◌, Text,
  eqb, eqb_refl, eqb_iff, rstrip, rstrip-rstrip, arith,
}
use yakr.Contact.{Contact}
use yakr.Ephemeral.{presence_ttl_ms}
use yakr.Message.{Json, presence_message}
use yakr.Presence.Payload.{
  PresencePayload, IsPresenceJson, for_operator, presence_to_b64, presence_from_b64-to_b64,
}
use yakr.LocalStore.Tables.{first-insert_or_replace, first-insert_or_replace_other}
use yakr.LocalStore.{FileLocalStore, PresenceRow}
use yakr.LocalStore.Notices.{is_operator, presence_of, save_presence, load_presence}
use yakr.Presence.{
  is_presence_fresh, cache_fresh, prefer, apply_presence_message, resolve_operator_url,
}

abbrev row_of : ℕ → PresencePayload → Text → PresenceRow
row_of now p source = record {
  operator_name = p.operator_name;
  reachable_url = rstrip b'/' p.reachable_url;
  relay_active = p.relay_active;
  valid_until = p.valid_until;
  source_contact = source;
  updated_at = now;
}

load_presence-save_presence :
    (now : ℕ) (p : PresencePayload) (source : Text) (s : FileLocalStore)
    → load_presence p.operator_name (save_presence now p source s)
      ≡ some (presence_of (row_of now p source))
unfolding load_presence save_presence
load_presence-save_presence now p source s =
    rw
      (
        load_presence,
        first-insert_or_replace (is_operator p.operator_name) (row_of now p source)
            s.db.relay_presence (eqb_refl p.operator_name),
      )
      refl

load_presence_other :
    (now : ℕ) (p : PresencePayload) (source name : Text) (s : FileLocalStore)
    → eqb p.operator_name name ≡ false
    → load_presence name (save_presence now p source s) ≡ load_presence name s
unfolding load_presence save_presence
load_presence_other now p source name s other =
    let elsewhere : (x : PresenceRow)
        → is_operator p.operator_name x ≡ true
        → is_operator name x ≡ false =
      λ x h. ground (
        arith,
        eqb_iff x.operator_name p.operator_name,
        eqb_iff x.operator_name name,
        eqb_iff p.operator_name name,
      ) in
    rw
      (
        load_presence,
        first-insert_or_replace_other (is_operator name) (is_operator p.operator_name)
            (row_of now p source) s.db.relay_presence elsewhere other,
      )
      refl

module _ (j : Json) where
  -- Where a contact said its relay is, is where it is looked for until the half hour is over; then the URL of its
  -- profile is used again. What others said stays as it was.
  pub told_url_is_used :
      (l : IsPresenceJson j) (told received later seq : ℕ)
      (name url profile_url conversation device : Text) (contact : Contact) (s : FileLocalStore)
      → contact.name ≡ name
      → received < told + presence_ttl_ms
      → (let p = for_operator told name url true in
          let inner =
            presence_message told conversation device seq (presence_to_b64 j p) p.valid_until in
          (s' : FileLocalStore) × (apply_presence_message j received contact inner s
            ≡ ok (some p, s'))
          × (resolve_operator_url later name profile_url s'
              ≡ rstrip b'/' (if ltb later (told + presence_ttl_ms) then url else profile_url))
          × ((other other_url : Text)
              → eqb name other ≡ false
              → resolve_operator_url later other other_url s'
                ≡ resolve_operator_url later other other_url s))
  unfolding apply_presence_message cache_fresh resolve_operator_url prefer is_presence_fresh
      for_operator presence_message eqb
  told_url_is_used l told received later seq name url profile_url conversation device contact s same
        early =
      let p = for_operator told name url true in
      let read = presence_from_b64-to_b64 j l p (rstrip-rstrip b'/' url) in
      let alive : ltb received (told + presence_ttl_ms) ≡ true = ground (arith, early) in
      (
        save_presence received p contact.name s,
        rw (apply_presence_message, read, same, eqb_refl name, alive) refl,
        rw (resolve_operator_url, load_presence-save_presence received p contact.name s)
            (elim (Bool-cases (ltb later (told + presence_ttl_ms))) [
              | inl fresh ↦ rw (fresh, rstrip-rstrip b'/' url, rstrip-rstrip b'/' url) refl
              | inr over ↦ rw over refl
            ]),
        λ other other_url ne.
            rw (resolve_operator_url, load_presence_other received p contact.name other s ne) refl,
      )
