-- ===== src/LocalStore/Tests.antt =====
-- core/store.py: examples.
use yakr.Prelude.{
  ℕ, ◌+◌, ◌≡◌, refl, false, Bool, none, some, List, [], ◌∷◌, ok, err, replicate, codes, eqb, ltb,
  any, count, if◌then◌else◌, arith,
}
use yakr.Codec.Sample.Laws.{sample}
use yakr.Crypto.{toy_crypto, toy_crypto-IsAead}
use yakr.Message.{OuterBlob, text_message}
use yakr.Names.{IsPlain, strip}
use yakr.Session.{is_text}
use yakr.Sample.{toy_json, toy_json-IsJson, contact, hello, bob_device, contact-IsSavable}
use yakr.LocalStore.{
  Database, FileLocalStore, InboundRow, OutboundRow, empty_database, finish, sqlite_error,
}
use yakr.LocalStore.Contacts.{get_contact, save_contact, get_contact-save_contact}
use yakr.LocalStore.Inbound.{
  is_inbound, sweep_expired_messages, list_inbound_messages_timed, atomic_commit_receive_text,
  commit_receive, Entry,
}
use yakr.LocalStore.Inbound.Commit.{committed_text_is_shown}
use yakr.LocalStore.Inbound.Sweep.{list_inbound_messages-sweep}
use yakr.LocalStore.Notices.{record_profile_ack_on_receipt, save_profile_ack_pending}
use yakr.LocalStore.Notices.Acks.{profile_ack_once}
use yakr.LocalStore.Outbound.{
  atomic_commit_send, commit_send, find_pending, has_outbound_pending, load_outbound_outer,
  bare_row,
}
use yakr.LocalStore.Outbound.Atomic.{load_outbound_outer-commit}
use yakr.LocalStore.Outbound.Lifecycle.{
  Op, save, commit, delivered, sweep, IsKeyed, waiting, run, replay_all, run_refines,
}
use yakr.LocalStore.Outbound.Listing.{alive, has_outbound_pending-find}

abbrev empty_store : FileLocalStore
empty_store = record {
  test_fault = none;
  db = empty_database;
  contact_files = [];
  local_profile = none;
}

abbrev outer : OuterBlob
outer = record { version = 1; mailbox_tag = 1 ∷ []; expires_at = 500; ciphertext = 2 ∷ 3 ∷ [] }

abbrev never : ℕ → Bool
never n = false

abbrev third : ℕ → Bool
third n = ltb 1 n

empty-IsKeyed : IsKeyed empty_database
empty-IsKeyed = record { unique = λ name id. omega arith }

abbrev ops : List Op
ops =
    commit never 10 contact (codes "m1") 1 (codes "hello") outer
    ∷ commit third 11 contact (codes "m2") 2 (codes "lost") outer
    ∷ save 12 (codes "Bob") (codes "m3") 3 (codes "later")
    ∷ delivered (codes "Bob") (codes "m1")
    ∷ sweep 90000000
    ∷ []

run_refines_example :
    waiting (run sample ops empty_store).db ≡ replay_all none ops (waiting empty_database)
run_refines_example = run_refines sample ops empty_store empty-IsKeyed

-- The failing transaction of the example.
third_fails :
    atomic_commit_send sample third 10 contact (codes "m1") 1 (codes "hello") outer empty_store
    ≡ (err sqlite_error, empty_store)
unfolding atomic_commit_send commit_send finish
third_fails = refl

abbrev sent_store : FileLocalStore
sent_store =
    (atomic_commit_send sample never 10 contact (codes "m1") 1 (codes "hello") outer empty_store).1

sent_store-ok :
    atomic_commit_send sample never 10 contact (codes "m1") 1 (codes "hello") outer empty_store
    ≡ (ok tt, sent_store)
unfolding atomic_commit_send commit_send finish
sent_store-ok = refl

load_outbound_outer-commit_example :
    load_outbound_outer (codes "Bob") (codes "m1") sent_store ≡ some (some outer)
load_outbound_outer-commit_example =
    load_outbound_outer-commit sample never 10 contact (codes "m1") 1 (codes "hello") empty_store
      sent_store 1 2 500 [] (3 ∷ []) (ground arith) (ground arith) sent_store-ok

abbrev pending_row : OutboundRow
pending_row = bare_row 12 (codes "Bob") (codes "m3") 3 (codes "later")

abbrev one_pending : Database
one_pending = record empty_database { outbound_pending = pending_row ∷ [] }

one_pending-IsKeyed : IsKeyed one_pending
one_pending-IsKeyed = record { unique = λ name id. ground arith }

has_outbound_pending-find_example :
    has_outbound_pending 20 (codes "Bob") (codes "m3") (record empty_store { db = one_pending })
    ≡ alive 20 (find_pending (codes "Bob") (codes "m3") one_pending)
has_outbound_pending-find_example =
    has_outbound_pending-find 20 (codes "Bob") (codes "m3")
      (record empty_store { db = one_pending }) one_pending-IsKeyed

abbrev received_store : FileLocalStore
received_store =
    (atomic_commit_receive_text sample toy_json toy_crypto never 200 (replicate 24 0) bob_device
      contact hello (some (codes "d")) none empty_store).1

received_store-ok :
    atomic_commit_receive_text sample toy_json toy_crypto never 200
      (replicate 24 0)
      bob_device
      contact
      hello
      (some (codes "d"))
      none
      empty_store
    ≡ (ok tt, received_store)
unfolding atomic_commit_receive_text commit_receive finish
received_store-ok = refl

abbrev is_first : Entry → Bool
is_first (seq, body, at) = ltb seq 2

committed_text_is_shown_example :
    count is_first
      (list_inbound_messages_timed toy_json toy_crypto 300 (codes "Bob") bob_device received_store)
    ≡ count is_first
        (list_inbound_messages_timed toy_json toy_crypto 300 (codes "Bob") bob_device empty_store)
      + (if any (is_inbound (codes "Bob") 1) empty_database.inbound_messages
          then 0
          else if is_first (1, codes "hello", 200)
          then 1
          else 0)
unfolding text_message is_text eqb
committed_text_is_shown_example =
    committed_text_is_shown sample toy_json toy_crypto toy_json-IsJson toy_crypto-IsAead is_first
      never 200 300 (replicate 24 0) bob_device contact hello (some (codes "d")) none empty_store
      received_store refl refl (ground arith) received_store-ok

abbrev inbound : InboundRow
inbound = record {
  contact_name = codes "Bob";
  seq = 1;
  valid_until = 500;
  received_at = 200;
  local_ciphertext = [];
}

abbrev one_received : FileLocalStore
one_received = record empty_store { db = record empty_database { inbound_messages = inbound ∷ [] } }

list_inbound_messages-sweep_example :
    list_inbound_messages_timed toy_json toy_crypto 700
      (codes "Bob")
      bob_device
      (sweep_expired_messages 600 one_received).1
    ≡ list_inbound_messages_timed toy_json toy_crypto 700 (codes "Bob") bob_device one_received
list_inbound_messages-sweep_example =
    list_inbound_messages-sweep toy_json toy_crypto 600 700 (codes "Bob") bob_device one_received
      (omega arith) (omega arith, tt)

get_contact-save_contact_example :
    get_contact sample (codes "Bob") (save_contact sample contact empty_store)
    ≡ (ok (some contact), save_contact sample contact empty_store)
get_contact-save_contact_example =
    get_contact-save_contact sample contact empty_store contact-IsSavable

home-IsPlain : IsPlain (codes "home")
unfolding strip
home-IsPlain = record { filled = refl; no_comma = ground arith; stripped = refl }

profile_ack_once_example :
    (let first_time =
        record_profile_ack_on_receipt
          (codes "Bob")
          (codes "m1")
          contact
          (save_profile_ack_pending (codes "Bob") (codes "m1") 3 (codes "home" ∷ []) empty_store) in
      (first_time.0 ≡ record contact {
        peer_acked_my_profile_version = 3;
        peer_acked_my_relay_names = codes "home" ∷ [];
      })
      × (record_profile_ack_on_receipt (codes "Bob") (codes "m1") contact first_time.1
          ≡ (contact, first_time.1)))
profile_ack_once_example =
    profile_ack_once (codes "Bob") (codes "m1") 3 (codes "home" ∷ []) contact contact empty_store
      (home-IsPlain, tt)
