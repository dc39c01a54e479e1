-- ===== src/LocalStore/Outbound/Lifecycle.antt =====
-- core/store.py and core/receipt_apply.py: the waiting messages as a map by contact and id. A message is there from
-- its commit until its receipt or a sweep that finds it outdated.
use yakr.Prelude.{
  ℕ, ◌≤◌, ◌≡◌, refl, ap, ◌∙◌, true, false, Bool, not, ◌&&◌, Bool-cases, inl, inr, Option, none,
  some, List, [], ◌∷◌, ok, if◌then◌else◌, count, count-select-le, first, select, Text, codes, eqb,
  eqb_iff, eqb_refl, arith,
}
use yakr.Codec.{Codec}
use yakr.Contact.{Contact}
use yakr.Message.{OuterBlob}
use yakr.LocalStore.Tables.{
  insert_or_replace, lacks, kept, first-select_keep, first-insert_or_replace,
  first-insert_or_replace_other, first-select-lacks, first-select_other, count-insert_or_replace,
}
use yakr.LocalStore.{
  Database, FileLocalStore, is_fault, save_contact_conn, sync_contact_json, finish,
}
use yakr.LocalStore.Outbound.{
  OutboundRow, is_pending, find_pending, bare_row, outer_row, sent_row, put_pending, put_sent,
  save_outbound_pending, commit_send, atomic_commit_send, mark_outbound_delivered,
  is_outdated_pending, sweep_expired_outbound,
}

-- A call on the store; `fails` says which statements of a commit raise.
pub data Op : Type 0 where
  save : ℕ → Text → Text → ℕ → Text → Op
  commit : (ℕ → Bool) → ℕ → Contact → Text → ℕ → Text → OuterBlob → Op
  delivered : Text → Text → Op
  sweep : ℕ → Op

-- The abstract view: the row of a contact's message, if it waits.
abbrev pub Waiting : Type 0
Waiting = Text → Text → Option OutboundRow

abbrev pub update : Text → Text → Option OutboundRow → Waiting → Waiting
update name id v f n i = if eqb name n && eqb id i then v else f n i

-- The transaction ends with its commit.
unfoldable pub goes_through : (ℕ → Bool) → Option Text → Bool
goes_through fails fault =
    not (fails 0)
    && (not (is_fault fault (codes "outbound_pending"))
        && (not (fails 1) && (not (fails 2) && not (fails 3))))

-- Each primary key has one row.
pub record IsKeyed (db : Database) : Type 0 where
  pub unique : (name id : Text) → count (is_pending name id) db.outbound_pending ≤ 1

other_key :
    (name id n i : Text) (r : OutboundRow)
    → is_pending name id r ≡ true
    → (eqb name n && eqb id i) ≡ false
    → is_pending n i r ≡ false
unfolding is_pending
other_key name id n i r h e = ground (
  arith,
  eqb_iff r.contact_name name,
  eqb_iff r.msg_id id,
  eqb_iff r.contact_name n,
  eqb_iff r.msg_id i,
  eqb_iff name n,
  eqb_iff id i,
)

own_key :
    (n i : Text) (r x : OutboundRow)
    → is_pending n i r ≡ true
    → is_pending r.contact_name r.msg_id x ≡ is_pending n i x
unfolding is_pending
own_key n i r x h =
    let e : r.contact_name ≡ n = ground (arith, eqb_iff r.contact_name n) in
    let f : r.msg_id ≡ i = ground (arith, eqb_iff r.msg_id i) in rw (e, f) refl

-- INSERT OR REPLACE is an update of the map.
find-put :
    (r : OutboundRow) (rows : List OutboundRow) (n i : Text)
    → first (is_pending n i) (insert_or_replace (is_pending r.contact_name r.msg_id) r rows)
      ≡ update r.contact_name r.msg_id (some r) (λ m k. first (is_pending m k) rows) n i
find-put r rows n i = elim (Bool-cases (eqb r.contact_name n && eqb r.msg_id i)) [
  | inl same ↦
      let e : r.contact_name ≡ n = ground (arith, eqb_iff r.contact_name n) in
      let f : r.msg_id ≡ i = ground (arith, eqb_iff r.msg_id i) in
      rw (same, ← e, ← f)
        (first-insert_or_replace (is_pending r.contact_name r.msg_id) r rows
          (unfold is_pending in rw (eqb_refl r.contact_name, eqb_refl r.msg_id) refl))
  | inr other ↦ rw other (
      first-insert_or_replace_other (is_pending n i) (is_pending r.contact_name r.msg_id) r rows
        (λ x h. other_key r.contact_name r.msg_id n i x h other)
        (other_key r.contact_name r.msg_id n i r
          (unfold is_pending in rw (eqb_refl r.contact_name, eqb_refl r.msg_id) refl) other))
]

-- DELETE of a key, and of the outdated rows.
find-deleted :
    (name id : Text) (rows : List OutboundRow) (n i : Text)
    → first (is_pending n i) (select (lacks (is_pending name id)) rows)
      ≡ update name id none (λ m k. first (is_pending m k) rows) n i
find-deleted name id rows n i = elim (Bool-cases (eqb name n && eqb id i)) [
  | inl same ↦
      let e : name ≡ n = ground (arith, eqb_iff name n) in
      let f : id ≡ i = ground (arith, eqb_iff id i) in
      rw (same, ← e, ← f) (first-select-lacks (is_pending name id) rows)
  | inr other ↦ rw other (
      first-select_other (is_pending n i) (is_pending name id) rows
        (λ x h. other_key name id n i x h other))
]

-- The abstract calls.
replay : Option Text → Op → Waiting → Waiting
replay fault (save now name id seq body) f = update name id (some (bare_row now name id seq body)) f
replay fault (commit fails now x id seq body outer) f =
    if goes_through fails fault
    then update x.name id (some (outer_row now x.name id seq body outer)) f
    else f
replay fault (delivered name id) f = update name id none f
replay fault (sweep now) f = λ n i. kept (lacks (is_outdated_pending now)) (f n i)

unfoldable pub replay_all : Option Text → List Op → Waiting → Waiting
unfolding replay
replay_all fault [] f = f
replay_all fault (op ∷ ops) f = replay_all fault ops (replay fault op f)

abbrev pub waiting : Database → Waiting
waiting db name id = find_pending name id db

module _ (c : Codec) where
  step : Op → FileLocalStore → FileLocalStore
  step (save now name id seq body) s = save_outbound_pending now name id seq body s
  step (commit fails now x id seq body outer) s =
      (atomic_commit_send c fails now x id seq body outer s).1
  step (delivered name id) s = (mark_outbound_delivered name id s).1
  step (sweep now) s = (sweep_expired_outbound now s).1

  unfoldable pub run : List Op → FileLocalStore → FileLocalStore
  unfolding step
  run [] s = s
  run (op ∷ ops) s = run ops (step op s)

  record Refines (op : Op) (s s' : FileLocalStore) : Type 0 where
    keyed : IsKeyed s'.db
    fault : s'.test_fault ≡ s.test_fault
    view : (n i : Text) → find_pending n i s'.db ≡ replay s.test_fault op (waiting s.db) n i

  committed : ℕ → Contact → Text → ℕ → Text → OuterBlob → Database → Database
  committed now x id seq body outer db =
      put_sent (sent_row now x.name seq body)
        (put_pending (outer_row now x.name id seq body outer) (save_contact_conn c x db))

  commit_send-through :
      (fails : ℕ → Bool) (now : ℕ) (x : Contact) (id : Text) (seq : ℕ) (body : Text)
      (outer : OuterBlob) (fault : Option Text) (db : Database)
      → goes_through fails fault ≡ true
      → commit_send c fails now x id seq body outer fault db
        ≡ ok (committed now x id seq body outer db)
  unfolding commit_send goes_through committed
  commit_send-through fails now x id seq body outer fault db h =
      let g0 : fails 0 ≡ false = ground (arith, h) in
      let clean : is_fault fault (codes "outbound_pending") ≡ false = ground (arith, h) in
      let g1 : fails 1 ≡ false = ground (arith, h) in
      let g2 : fails 2 ≡ false = ground (arith, h) in
      let g3 : fails 3 ≡ false = ground (arith, h) in rw (g0, clean, g1, g2, g3) refl

  commit_send-stopped :
      (fails : ℕ → Bool) (now : ℕ) (x : Contact) (id : Text) (seq : ℕ) (body : Text)
      (outer : OuterBlob) (s : FileLocalStore)
      → goes_through fails s.test_fault ≡ false
      → (atomic_commit_send c fails now x id seq body outer s).1 ≡ s
  unfolding atomic_commit_send commit_send goes_through finish
  commit_send-stopped fails now x id seq body outer s h = elim (Bool-cases (fails 0)) [
    | inl f0 ↦ rw f0 refl
    | inr g0 ↦ elim (Bool-cases (is_fault s.test_fault (codes "outbound_pending"))) [
      | inl injected ↦ rw (g0, injected) refl
      | inr clean ↦ elim (Bool-cases (fails 1)) [
        | inl f1 ↦ rw (g0, clean, f1) refl
        | inr g1 ↦ elim (Bool-cases (fails 2)) [
          | inl f2 ↦ rw (g0, clean, g1, f2) refl
          | inr g2 ↦ elim (Bool-cases (fails 3)) [
            | inl f3 ↦ rw (g0, clean, g1, g2, f3) refl
            | inr g3 ↦ absurd (ground (arith, h, g0, clean, g1, g2, g3))
          ]
        ]
      ]
    ]
  ]

  put-IsKeyed : (r : OutboundRow) (db : Database) → IsKeyed db → IsKeyed (put_pending r db)
  put-IsKeyed r db h = record {
    unique = λ n i.
        count-insert_or_replace (is_pending n i) (is_pending r.contact_name r.msg_id) r
          db.outbound_pending (λ x. own_key n i r x) (h.unique n i);
  }

  selected-IsKeyed :
      (keep : OutboundRow → Bool) (db db' : Database)
      → db'.outbound_pending ≡ select keep db.outbound_pending
      → IsKeyed db
      → IsKeyed db'
  selected-IsKeyed keep db db' e h = record {
    unique = λ n i.
        rw e
          (omega (arith, count-select-le (is_pending n i) keep db.outbound_pending, h.unique n i));
  }

  commit-through :
      (fails : ℕ → Bool) (now : ℕ) (x : Contact) (id : Text) (seq : ℕ) (body : Text)
      (outer : OuterBlob) (s : FileLocalStore)
      → goes_through fails s.test_fault ≡ true
      → (s' : FileLocalStore) × ((atomic_commit_send c fails now x id seq body outer s).1 ≡ s')
        × (s'.db ≡ committed now x id seq body outer s.db)
        × (s'.test_fault ≡ s.test_fault)
  unfolding atomic_commit_send finish
  commit-through fails now x id seq body outer s h =
      let done = commit_send-through fails now x id seq body outer s.test_fault s.db h in
      let db = committed now x id seq body outer s.db in
      elim (Bool-cases (fails 4)) [
        | inl unwritable ↦ (record s { db = db }, rw (done, unwritable) refl, refl, refl)
        | inr writable ↦
            (sync_contact_json c x (record s { db = db }), rw (done, writable) refl, refl, refl)
      ]

  step-Refines : (op : Op) (s : FileLocalStore) → IsKeyed s.db → Refines op s (step op s)
  unfolding step replay find_pending committed
  step-Refines (save now name id seq body) s h =
      unfold save_outbound_pending in
      record {
        keyed = record { unique = (put-IsKeyed (bare_row now name id seq body) s.db h).unique };
        fault = refl;
        view = find-put (bare_row now name id seq body) s.db.outbound_pending;
      }
  step-Refines (commit fails now x id seq body outer) s h =
      elim (Bool-cases (goes_through fails s.test_fault)) [
        | inl through ↦
            let (s', e, whole, same) = commit-through fails now x id seq body outer s through in
            rw (step, e)
              (record {
                keyed = record {
                  unique =
                      rw whole (put-IsKeyed (outer_row now x.name id seq body outer) s.db h).unique;
                };
                fault = same;
                view =
                    rw (through, whole)
                      (find-put (outer_row now x.name id seq body outer) s.db.outbound_pending);
              })
        | inr stopped ↦
            rw (step, commit_send-stopped fails now x id seq body outer s stopped)
              (record { keyed = h; fault = refl; view = rw stopped (λ n i. refl) })
      ]
  step-Refines (delivered name id) s h =
      unfold mark_outbound_delivered in
      record {
        keyed = selected-IsKeyed (lacks (is_pending name id)) s.db _ refl h;
        fault = refl;
        view = find-deleted name id s.db.outbound_pending;
      }
  step-Refines (sweep now) s h =
      unfold sweep_expired_outbound in
      record {
        keyed = selected-IsKeyed (lacks (is_outdated_pending now)) s.db _ refl h;
        fault = refl;
        view = λ n i.
            first-select_keep (is_pending n i) (lacks (is_outdated_pending now))
              s.db.outbound_pending (h.unique n i);
      }

  -- Over any calls, commits that fail included, the table reads as the abstract map: a message waits from its commit
  -- until its own receipt, or a sweep that finds it outdated, and no call touches the message of another
  -- contact or another id.
  pub run_refines :
      (ops : List Op) (s : FileLocalStore)
      → IsKeyed s.db
      → waiting (run ops s).db ≡ replay_all s.test_fault ops (waiting s.db)
  unfolding run replay_all
  run_refines [] s h = refl
  run_refines (op ∷ ops) s h =
      let r = step-Refines op s h in
      let seen : waiting (step op s).db ≡ replay s.test_fault op (waiting s.db) =
        λ i n m. r.view n m i in
      run_refines ops (step op s) r.keyed ∙ (rw r.fault (ap (replay_all s.test_fault ops) seen))
