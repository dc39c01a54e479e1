-- ===== src/Ticket/RoundTrip.antt =====
-- relay_ticket.py: `from_b64` reads what `to_b64` wrote, and an issued ticket verifies.
use yakr.Prelude.{
  ℕ, ◌+◌, ◌<◌, ◌≡◌, refl, true, false, leb, List, ok, eqb, eqb_refl, contains, Bytes, Text, arith,
}
use yakr.Base64.RoundTrip.{b64decode-b64encode}
use yakr.Codec.{Codec, strs_of-texts}
use yakr.Crypto.{Crypto}
use yakr.Ticket.{
  RelayTicket, unsigned_value, unsigned_payload, ticket_value, to_bytes, from_bytes, to_b64,
  from_b64, issue_relay_ticket, verify_relay_ticket,
}

module _ (c : Codec) (t : RelayTicket) where
  from_bytes-to_bytes : from_bytes c (to_bytes c t) ≡ ok t
  unfolding from_bytes to_bytes ticket_value eqb
  from_bytes-to_bytes =
      rw c.loads-dumps
        (simp (c.bytes_of_bytes, c.int_of_int, c.str_of_text, c.items_of_list, strs_of-texts) refl)

  -- A ticket that was written as base64 is read back as it was.
  pub from_b64-to_b64 : from_b64 c (to_b64 c t) ≡ ok t
  unfolding from_b64 to_b64
  from_b64-to_b64 =
      rw (b64decode-b64encode (to_bytes c t) (unfold to_bytes in c.dumps-IsBytes _))
        from_bytes-to_bytes

-- A ticket that an identity issued is accepted by the relay that it names, for each permission that it
-- lists, until it expires.
pub verify-issue :
    (c : Codec) (k : Crypto) (now later : ℕ) (private public : Bytes) (relay_name permission : Text)
    (permissions : List Text) (contact_id : Bytes) (ttl_ms : ℕ)
    → ((message : Bytes) → k.ed25519_verify public (k.ed25519_sign private message) message ≡ true)
    → later < now + ttl_ms
    → contains permission permissions ≡ true
    → verify_relay_ticket c k later relay_name permission
        (issue_relay_ticket c k now private public relay_name permissions contact_id ttl_ms)
      ≡ ok tt
unfolding verify_relay_ticket issue_relay_ticket unsigned_payload unsigned_value
verify-issue c k now later private public relay_name permission permissions contact_id ttl_ms signed
      early allowed =
    let live : leb (now + ttl_ms) later ≡ false = ground arith in
    rw (live, eqb_refl relay_name, allowed, signed _) refl
