-- ===== src/Workers/EventCursor/Turns.antt =====
-- How a worker's turn on a cursor of chainEventCursor.ts ends.
use text.Mathlib.TextPositions.{eq_refl}
use mathlib.Core.Option.{some-injective}
use team_index.Base.{
  ℕ, ◌+◌, ◌≡◌, ◌≢◌, refl, sym, String, str_eq_iff, Option, none, some, true, false, if◌then◌else◌,
  arith, Text, ◌<◌,
}
use team_index.Workers.EventCursor.{
  CursorIdentity, CursorRow, Table, upserted, locked_row, Thrown, claimable,
  claim_chain_event_cursor, owns, complete_chain_event_cursor, fail_chain_event_cursor, cooled,
  truncate_error,
}
use team_index.Workers.EventCursor.Locking.{Held, claim_lem, locks_of}

not_owns : (o : Option String) (w : String) → o ≢ some w → owns o w ≡ false
not_owns none w h = refl
not_owns (some v) w h = ground (arith, str_eq_iff v w, h)

-- A worker that does not hold the lock changes no cursor by `complete` or `fail`.
pub not_owner :
    (key worker : String) (block : ℕ) (err : Thrown) (cooldown : Option ℕ) (t : Table)
    (row : CursorRow)
    → t key ≡ some row
    → row.locked_by ≢ some worker
    → (j : String)
    → (complete_chain_event_cursor key worker block t j ≡ t j)
      × (fail_chain_event_cursor key worker err cooldown t j ≡ t j)
unfolding complete_chain_event_cursor fail_chain_event_cursor
not_owner key worker block err cooldown t row stored other j =
    ground (arith, not_owns row.locked_by worker other, str_eq_iff key j)

-- When the lock is stale and no cooldown is in force another worker's claim gets the cursor, at
-- the block where it stood, and what the first worker then writes as it ends has no effect.
pub stale_takeover :
    (ms : ℕ) (worker : String) (since block : ℕ) (t : Table) (i : CursorIdentity) (other : String)
    (now at done : ℕ) (err : Thrown) (until : Option ℕ) (row : CursorRow)
    → t i.key ≡ some row
    → Held worker since block (some row)
    → since + ms < at
    → cooled row.cooldown_until now ≡ true
    → worker ≢ other
    → let t' : Table = (claim_chain_event_cursor ms i other now at t).1 in
      Held other now block (t' i.key)
      × Held other now block (complete_chain_event_cursor i.key worker done t' i.key)
      × Held other now block (fail_chain_event_cursor i.key worker err until t' i.key)
stale_takeover ms worker since block t i other now at done err until row stored h late cool ne =
    let t' : Table = (claim_chain_event_cursor ms i other now at t).1 in
    let taken : t' i.key ≡ some (locked_row (upserted i (some row)) other now) =
      granted (t i.key) stored (claim_lem ms i other now at t).1 in
    let held : Held other now block (t' i.key) = rw taken (refl, refl, h.2) in
    let (kept, kept') =
      not_owner i.key worker done err until t' (locked_row (upserted i (some row)) other now) taken
        (λ e. ne (some-injective worker other (sym e))) i.key in
    (held, rw kept held, rw kept' held)
  where
    granted :
        (o : Option CursorRow)
        → o ≡ some row
        → (claim_chain_event_cursor ms i other now at t).1 i.key
          ≡ some (
              if claimable (upserted i o) ms now at
              then locked_row (upserted i o) other now
              else upserted i o)
        → (claim_chain_event_cursor ms i other now at t).1 i.key
          ≡ some (locked_row (upserted i (some row)) other now)
    granted o e p =
        let fits : claimable (upserted i (some row)) ms now at ≡ true = ground arith in
        let here = rw e at p in ground arith

abbrev pub after_of : Option CursorRow → Option ℕ × Option Text
after_of none = (none, none)
after_of (some row) = (row.cooldown_until, row.last_error)

-- The worker that holds the lock ends its turn: `complete` moves the cursor to the block given and
-- clears the cooldown and the error, `fail` leaves the block and sets both; both give up the lock.
pub owner_ends :
    (key worker : String) (since block done : ℕ) (err : Thrown) (until : Option ℕ) (t : Table)
    → Held worker since block (t key)
    → (locks_of (complete_chain_event_cursor key worker done t key) ≡ (none, none, done))
      × (locks_of (fail_chain_event_cursor key worker err until t key) ≡ (none, none, block))
      × (after_of (complete_chain_event_cursor key worker done t key) ≡ (none, none))
      × (after_of (fail_chain_event_cursor key worker err until t key)
          ≡ (until, some (truncate_error err)))
unfolding complete_chain_event_cursor fail_chain_event_cursor
owner_ends key worker since block done err until t h = ground (arith, eq_refl key, eq_refl worker)
