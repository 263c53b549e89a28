-- ===== src/Workers/EventCursor/Locking.antt =====
-- Locks on the cursors of chainEventCursor.ts, under any interleaving of the workers' calls.
use text.Mathlib.TextPositions.{eq_refl}
use team_index.Base.{
  ℕ, ◌+◌, ◌≤◌, ◌≡◌, ◌≢◌, String, str_eq_iff, Option, none, some, true, false, ◌⊎◌, inl, inr, List,
  [], ◌∷◌, if◌then◌else◌, arith, All, Bool-cases,
}
use team_index.Workers.EventCursor.{
  CursorIdentity, CursorRow, Table, upserted, locked_row, Thrown, upsert_cursor, claimable,
  lock_cursor, claim_chain_event_cursor, complete_chain_event_cursor, fail_chain_event_cursor,
  cooled, free,
}

-- One call of the database client, by some worker.
pub data Call : Type 0 where
  upsert : CursorIdentity → Call
  lock : (key worker : String) (now at : ℕ) → Call
  complete : (key worker : String) (block : ℕ) → Call
  fail : (key worker : String) (err : Thrown) (cooldown : Option ℕ) → Call

abbrev pub call : ℕ → Call → Table → Table
call ms (upsert i) t = upsert_cursor i t
call ms (lock key worker now at) t = (lock_cursor ms key worker now at t).1
call ms (complete key worker block) t = complete_chain_event_cursor key worker block t
call ms (fail key worker err cooldown) t = fail_chain_event_cursor key worker err cooldown t

abbrev pub calls : ℕ → List Call → Table → Table
calls ms [] t = t
calls ms (c ∷ cs) t = calls ms cs (call ms c t)

-- A row that is locked by `worker` since `since`, at block `block`.
abbrev pub Held : String → ℕ → ℕ → Option CursorRow → Type 0
Held worker since block none = ⊥
Held worker since block (some row) =
    (row.locked_at ≡ some since)
    × (row.locked_by ≡ some worker)
    × (row.last_processed_block ≡ block)

-- A call that `worker` does not make on its cursor, and made before the lock is stale.
abbrev pub IsForeign : ℕ → String → String → ℕ → Call → Type 0
IsForeign ms key worker since (upsert i) = Unit
IsForeign ms key worker since (lock k w now at) = at ≤ since + ms
IsForeign ms key worker since (complete k w block) = (k ≢ key) ⊎ (w ≢ worker)
IsForeign ms key worker since (fail k w err cooldown) = (k ≢ key) ⊎ (w ≢ worker)

module _ (ms : ℕ) (key worker : String) (since block : ℕ) where
  call-Held :
      (c : Call) (t : Table)
      → IsForeign ms key worker since c
      → Held worker since block (t key)
      → Held worker since block (call ms c t key)
  unfolding upsert_cursor lock_cursor complete_chain_event_cursor fail_chain_event_cursor
  call-Held (upsert i) t f h = ground (arith, str_eq_iff i.key key)
  call-Held (lock k w now at) t f h = ground (arith, str_eq_iff k key)
  call-Held (complete k w b) t f h = ground (arith, str_eq_iff k key, str_eq_iff worker w)
  call-Held (fail k w err cool) t f h = ground (arith, str_eq_iff k key, str_eq_iff worker w)

  calls-Held :
      (cs : List Call) (t : Table)
      → All (IsForeign ms key worker since) cs
      → Held worker since block (t key)
      → Held worker since block (calls ms cs t key)
  calls-Held [] t f h = h
  calls-Held (c ∷ cs) t f h = calls-Held cs (call ms c t) f.1 (call-Held c t f.0 h)

-- What a claim returns and what it leaves at its key, by the row that the upsert left.
pub claim_lem :
    (ms : ℕ) (i : CursorIdentity) (w : String) (now at : ℕ) (t : Table)
    → ((claim_chain_event_cursor ms i w now at t).0 ≡ (
        if claimable (upserted i (t i.key)) ms now at
        then some (locked_row (upserted i (t i.key)) w now)
        else none))
      × ((claim_chain_event_cursor ms i w now at t).1 i.key
          ≡ some (
              if claimable (upserted i (t i.key)) ms now at
              then locked_row (upserted i (t i.key)) w now
              else upserted i (t i.key)))
unfolding claim_chain_event_cursor
claim_lem ms i w now at t = (ground (arith, eq_refl i.key), ground (arith, eq_refl i.key))

abbrev pub locks_of : Option CursorRow → Option ℕ × Option String × ℕ
locks_of none = (none, none, 0)
locks_of (some row) = (row.locked_at, row.locked_by, row.last_processed_block)

-- What a claim may do, by the row that stood at its key: a new cursor is created at the start
-- block and locked; a cursor that is locked by a live worker, or cooling down, keeps its lock and
-- is not handed out; any other is locked by the claimant. Its block stays in all cases.
abbrev pub Claimed :
    ℕ
    → CursorIdentity
    → String
    → ℕ
    → ℕ
    → Option CursorRow
    → Option CursorRow × Option CursorRow
    → Type 0
Claimed ms i w now at none (given, left) = (given ≡ left) × Held w now i.start_block left
Claimed ms i w now at (some row) (given, left) =
    (cooled row.cooldown_until now ≡ true)
      × (free row.locked_at ms at ≡ true)
      × (given ≡ left)
      × Held w now row.last_processed_block left
    ⊎ ((cooled row.cooldown_until now ≡ false) ⊎ (free row.locked_at ms at ≡ false))
      × (given ≡ none)
      × (locks_of left ≡ (row.locked_at, row.locked_by, row.last_processed_block))

-- A claim of a key without a cursor creates one at the start block and locks it. Where there is one,
-- either it was not cooling down and its lock was free, and then it is locked by the claimant at its
-- block and handed out; or it was cooling down or locked, and then nothing is handed out and its lock
-- and its block stay.
pub claim-Claimed :
    (ms : ℕ) (i : CursorIdentity) (w : String) (now at : ℕ) (t : Table)
    → Claimed ms i w now at (t i.key) (
      (claim_chain_event_cursor ms i w now at t).0,
      (claim_chain_event_cursor ms i w now at t).1 i.key,
    )
claim-Claimed ms i w now at t = by_row (t i.key) (claim_lem ms i w now at t)
  where
    by_row :
        (o : Option CursorRow)
        → ((claim_chain_event_cursor ms i w now at t).0 ≡ (
            if claimable (upserted i o) ms now at
            then some (locked_row (upserted i o) w now)
            else none))
          × ((claim_chain_event_cursor ms i w now at t).1 i.key
              ≡ some (
                  if claimable (upserted i o) ms now at
                  then locked_row (upserted i o) w now
                  else upserted i o))
        → Claimed ms i w now at o (
          (claim_chain_event_cursor ms i w now at t).0,
          (claim_chain_event_cursor ms i w now at t).1 i.key,
        )
    by_row none (p, q) = ground arith
    by_row (some row) (p, q) = elim (Bool-cases (cooled row.cooldown_until now)) [
      | inr hot ↦ inr (inl hot, ground arith, ground arith)
      | inl cool ↦ elim (Bool-cases (free row.locked_at ms at)) [
        | inr held ↦ inr (inr held, ground arith, ground arith)
        | inl loose ↦ inl (cool, loose, ground arith, ground arith)
      ]
    ]

-- While a worker's lock is fresh no call of the others takes the cursor from it or moves its block,
-- and a claim is refused, whatever calls were made before, in whatever order. Only the worker's own
-- `complete` and `fail` are left out.
pub lock_exclusive :
    (ms : ℕ) (key worker : String) (since block : ℕ) (t : Table) (cs : List Call)
    (i : CursorIdentity) (other : String) (now at : ℕ)
    → Held worker since block (t key)
    → All (IsForeign ms key worker since) cs
    → i.key ≡ key
    → at ≤ since + ms
    → ((claim_chain_event_cursor ms i other now at (calls ms cs t)).0 ≡ none)
      × Held worker since block
          ((claim_chain_event_cursor ms i other now at (calls ms cs t)).1 i.key)
lock_exclusive ms key worker since block t cs i other now at h foreign same early =
    refused (calls ms cs t i.key) (rw same (calls-Held ms key worker since block cs t foreign h))
      (claim_lem ms i other now at (calls ms cs t))
  where
    refused :
        (o : Option CursorRow)
        → Held worker since block o
        → ((claim_chain_event_cursor ms i other now at (calls ms cs t)).0 ≡ (
            if claimable (upserted i o) ms now at
            then some (locked_row (upserted i o) other now)
            else none))
          × ((claim_chain_event_cursor ms i other now at (calls ms cs t)).1 i.key
              ≡ some (
                  if claimable (upserted i o) ms now at
                  then locked_row (upserted i o) other now
                  else upserted i o))
        → ((claim_chain_event_cursor ms i other now at (calls ms cs t)).0 ≡ none)
          × Held worker since block
              ((claim_chain_event_cursor ms i other now at (calls ms cs t)).1 i.key)
    refused none held e = elim held [ ]
    refused (some row) held e = ground arith
