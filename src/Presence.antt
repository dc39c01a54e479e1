-- ===== src/Presence.antt =====
-- packages/yakr-core/src/yakr_core/presence.py: where the relays of contacts can be reached, as they tell.
pub mod Payload
pub mod Resolving
mod Tests
use yakr.Prelude.{
  ℕ, ◌+◌, Bool, true, false, not, ◌&&◌, Option, none, some, List, [], ◌∷◌, Result, ok, err, ◌>>=◌,
  ◌>>◌, raise_if, ltb, if◌then◌else◌, Text, codes, eqb, contains, rstrip,
}
use yakr.Codec.{Value, text}
use yakr.Contact.{Contact}
use yakr.Ephemeral.{presence_ttl_ms}
use yakr.Message.{Json, InnerMessage}
use yakr.Presence.Payload.{PresencePayload, PresenceError, operator_mismatch, presence_from_b64}
use yakr.LocalStore.{FileLocalStore}
use yakr.LocalStore.Notices.{save_presence, load_presence, list_presences}

abbrev pub presence_valid_until : ℕ → ℕ
presence_valid_until created_at = created_at + presence_ttl_ms

unfoldable pub is_presence_fresh : ℕ → PresencePayload → Bool
is_presence_fresh now p = p.relay_active && ltb now p.valid_until

abbrev pub is_presence : Value → Bool
is_presence (text t) = eqb t (codes "presence")
is_presence _ = false

-- A payload that is not fresh is ignored.
cache_fresh :
    ℕ → Contact → PresencePayload → FileLocalStore → Option PresencePayload × FileLocalStore
cache_fresh now contact p s =
    if not (is_presence_fresh now p)
    then (none, s)
    else (some p, save_presence now p contact.name s)

module _ (j : Json) where
  unfoldable pub apply_presence_message :
      ℕ
      → Contact
      → InnerMessage
      → FileLocalStore
      → Result PresenceError (Option PresencePayload × FileLocalStore)
  unfolding cache_fresh
  apply_presence_message now contact inner s =
      if not (is_presence inner.type) then ok (none, s) else (do
        p ← presence_from_b64 j inner.body
        raise_if (not (eqb p.operator_name contact.name)) operator_mismatch
        ok (cache_fresh now contact p s))

-- A cached presence that is fresh comes before the profile.
prefer : ℕ → Text → Option PresencePayload → Text
prefer now profile_url none = rstrip b'/' profile_url
prefer now profile_url (some p) =
    if is_presence_fresh now p then rstrip b'/' p.reachable_url else rstrip b'/' profile_url

-- With a store; without one it is the profile's URL, stripped.
unfoldable pub resolve_operator_url : ℕ → Text → Text → FileLocalStore → Text
unfolding prefer
resolve_operator_url now operator_name profile_url s =
    prefer now profile_url (load_presence operator_name s)

-- The loop, with what it has seen; the list of URLs is that of `seen` in order.
fresh_urls : ℕ → List Text → List PresencePayload → List Text
fresh_urls now seen [] = []
fresh_urls now seen (p ∷ ps) =
    let url = rstrip b'/' p.reachable_url in
    let skipped = fresh_urls now seen ps in
    let added = fresh_urls now (url ∷ seen) ps in
    if not (is_presence_fresh now p)
    then skipped
    else if contains url seen
    then skipped
    else url ∷ added

unfoldable pub fresh_group_relay_urls : ℕ → FileLocalStore → List Text
unfolding fresh_urls
fresh_group_relay_urls now s = fresh_urls now [] (list_presences s)
