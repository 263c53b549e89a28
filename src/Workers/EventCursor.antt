-- ===== src/Workers/EventCursor.antt =====
-- src/workers/chainEventCursor.ts. Each call of the database client is one atomic step on the table
-- `chain_event_cursors`, whose `key` is unique; times are milliseconds.
pub mod Locking
pub mod Turns
use team_index.Base.{
  ℕ, ◌+◌, String, str_eq, Option, none, some, Bool, true, false, ◌&&◌, ltb, leb, if◌then◌else◌,
  Text, to_lower, take, suc, zero,
}

pub record CursorIdentity : Type 0 where
  pub key : String
  pub chain : String
  pub contract_address : Text
  pub event_name : String
  pub start_block : ℕ

pub record CursorRow : Type 0 where
  pub chain : String
  pub contract_address : Text
  pub event_name : String
  pub last_processed_block : ℕ
  pub locked_at : Option ℕ
  pub locked_by : Option String
  pub cooldown_until : Option ℕ
  pub last_error : Option Text

abbrev pub Table : Type 0
Table = String → Option CursorRow

abbrev pub put : Table → String → CursorRow → Table
put t k row j = if str_eq k j then some row else t j

-- CHAIN_EVENT_CURSOR_LOCK_STALE_MS, `none` where it is no positive number
unfoldable pub lock_stale_ms : Option ℕ → ℕ
lock_stale_ms none = 120000
lock_stale_ms (some zero) = 120000
lock_stale_ms (some (suc n)) = suc n

-- An error as `truncateError` reads it.
pub record Thrown : Type 0 where
  pub message : Option Text
  pub short_message : Option Text
  pub printed : Text

abbrev message_of : Option Text → Option Text → Text → Text
message_of (some m) s p = m
message_of none (some s) p = s
message_of none none p = p

unfoldable pub truncate_error : Thrown → Text
truncate_error err = take 500 (message_of err.message err.short_message err.printed)

unfoldable pub cursor_block_number : CursorRow → ℕ
cursor_block_number row = row.last_processed_block

-- The row that `upsert` leaves: created, or with its descriptive columns set again.
abbrev pub upserted : CursorIdentity → Option CursorRow → CursorRow
upserted i none = record {
  chain = i.chain;
  contract_address = to_lower i.contract_address;
  event_name = i.event_name;
  last_processed_block = i.start_block;
  locked_at = none;
  locked_by = none;
  cooldown_until = none;
  last_error = none;
}
upserted i (some row) = record row {
  chain = i.chain;
  contract_address = to_lower i.contract_address;
  event_name = i.event_name;
}

unfoldable pub upsert_cursor : CursorIdentity → Table → Table
upsert_cursor i t = put t i.key (upserted i (t i.key))

-- `cooldownUntil` is null or `lte` the time at which the claim began
abbrev pub cooled : Option ℕ → ℕ → Bool
cooled none now = true
cooled (some c) now = leb c now

-- `lockedAt` is null or `lt` the time of the update less the stale interval
abbrev pub free : Option ℕ → ℕ → ℕ → Bool
free none ms at = true
free (some l) ms at = ltb (l + ms) at

abbrev pub claimable : CursorRow → ℕ → ℕ → ℕ → Bool
claimable row ms now at = cooled row.cooldown_until now && free row.locked_at ms at

abbrev pub locked_row : CursorRow → String → ℕ → CursorRow
locked_row row worker now = record row { locked_at = some now; locked_by = some worker }

-- The conditional `updateMany`, with its `count === 1`: `now` was read when the claim began, `at`
-- is the time of the update.
unfoldable pub lock_cursor : ℕ → String → String → ℕ → ℕ → Table → Bool × Table
lock_cursor ms key worker now at t = elim (t key) [
  | none ↦ (false, t)
  | some row ↦
      if claimable row ms now at then (true, put t key (locked_row row worker now)) else (false, t)
]

unfoldable pub claim_chain_event_cursor :
    ℕ → CursorIdentity → String → ℕ → ℕ → Table → Option CursorRow × Table
unfolding upsert_cursor lock_cursor
claim_chain_event_cursor ms i worker now at t =
    let (claimed, t') = lock_cursor ms i.key worker now at (upsert_cursor i t) in
    (if claimed then t' i.key else none, t')

abbrev pub owns : Option String → String → Bool
owns none worker = false
owns (some w) worker = str_eq w worker

-- `updateMany` where the key and `lockedBy` are the worker's
abbrev update_owned : String → String → (CursorRow → CursorRow) → Table → Table
update_owned key worker f t = elim (t key) [
  | none ↦ t
  | some row ↦ if owns row.locked_by worker then put t key (f row) else t
]

unfoldable pub complete_chain_event_cursor : String → String → ℕ → Table → Table
complete_chain_event_cursor key worker block t =
    update_owned key worker
      (λ row. record row {
        last_processed_block = block;
        locked_at = none;
        locked_by = none;
        cooldown_until = none;
        last_error = none;
      })
      t

unfoldable pub fail_chain_event_cursor : String → String → Thrown → Option ℕ → Table → Table
unfolding truncate_error
fail_chain_event_cursor key worker err cooldown t =
    update_owned key worker
      (λ row. record row {
        locked_at = none;
        locked_by = none;
        cooldown_until = cooldown;
        last_error = some (truncate_error err);
      })
      t
