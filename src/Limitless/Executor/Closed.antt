-- ===== src/Limitless/Executor/Closed.antt =====
-- src/limitless/limitlessExecutor.ts: what the execution of a row leaves behind.
use team_index.Base.{
  ℕ, suc, ◌≤◌, ◌≡◌, ◌≢◌, refl, List, [], ◌∷◌, length, any, Bool, true, false, Option, none, some,
  Result, ok, throw, Text, String, arith, eq_refl, Bool-cases, if◌then◌else◌, ◌+◌, inl, inr,
}
use team_index.Services.Scheduler.{
  QueueStatus, scheduled, executed, skipped_match, failed, Key, key_eq, QueueRow, Table, put,
}
use team_index.Limitless.Executor.Calls.{
  Stop, skip, refuse, raise, WalletAccount, Exchange, continue, ◌>>=◌,
}
use team_index.Limitless.Executor.Quiet.{
  Reply, traced, is_placed, Posts, nothing_posted, not_placed, placed,
}
use team_index.Limitless.Executor.Posted.{attempt-Posting}
use team_index.Limitless.Executor.Rows.{
  TradePool, TradeCandidate, Position, TradeDb, TrancheParams, TradeEnv, exposure_of, Placed,
  claimed_row, with_order_id, upsert_position, position_of, TradeOutcome, skipped, refused, traded,
  with_account, closed,
}
use team_index.Limitless.Executor.Trade.{attempt, window_open, with_rows}
use team_index.Limitless.Executor.{queue_key, expected_of, claimed, execute_limitless_tranche}

-- The row of a key is unlocked and has the status.
abbrev pub Shut : Key → QueueStatus → TradeDb → Type 0
Shut key status db =
    (row : QueueRow) × (db.queue key ≡ some row)
    × (row.status ≡ status)
    × (row.locked_at ≡ none)
    × (row.locked_by ≡ none)

abbrev pub has_position : Key → List Position → Bool
has_position key ps = any (λ p. key_eq p.queue_id key) ps

abbrev pub is_failure : Result Text TradeOutcome → Bool
is_failure (ok (refused reason)) = true
is_failure (throw e) = true
is_failure _ = false

abbrev pub count_placed : List Reply → ℕ
count_placed [] = 0
count_placed (r ∷ rs) = let rest = count_placed rs in if is_placed r then suc rest else rest

-- The outcome of a claimed row and the answers to the orders since the first one, with the answers and the
-- positions before and the tables after
pub data Ended (key : Key) (positions : List Position) (log : List Reply) (db : TradeDb)
    : Result Text TradeOutcome → List Reply → Type 0 where
  as_skipped :
      {reason : _}
      → Shut key skipped_match db
      → db.positions ≡ positions
      → Ended key positions log db (ok (skipped reason)) log
  as_failed :
      {out : Result Text TradeOutcome} {log' : List Reply}
      → is_failure out ≡ true
      → length log' ≤ 1 + length log
      → count_placed log' ≡ count_placed log
      → Shut key failed db
      → db.positions ≡ positions
      → Ended key positions log db out log'
  as_traded :
      {p : Placed} {r : Reply}
      → is_placed r ≡ true
      → Shut key executed db
      → has_position key db.positions ≡ true
      → Ended key positions log db (ok (traded p)) (r ∷ log)

key_eq_refl : (k : Key) → key_eq k k ≡ true
key_eq_refl k = ground (arith, eq_refl k.pool_id, eq_refl k.candidate_id)

put_same : (t : Table) (k : Key) (row : QueueRow) → put t k row k ≡ some row
put_same t k row = rw (key_eq_refl k) refl

with_order_id-queue_id :
    (id : Option Text) (p : Position) → (with_order_id id p).queue_id ≡ p.queue_id
with_order_id-queue_id none p = refl
with_order_id-queue_id (some id) p = refl

has_position-upsert :
    (new : Position) (ps : List Position)
    → has_position new.queue_id (upsert_position new ps) ≡ true
has_position-upsert new [] = rw (key_eq_refl new.queue_id) refl
has_position-upsert new (p ∷ ps) = elim (Bool-cases (key_eq p.queue_id new.queue_id)) [
  | inl e ↦ rw (e, with_order_id-queue_id new.clob_order_id p, e) refl
  | inr e ↦ rw (e, has_position-upsert new ps, e) refl
]

closed-Ended :
    (key : Key) (row : QueueRow) (pool_id : String) (candidate : Option TradeCandidate) (time : ℕ)
    (r : Result Stop Placed) (db : TradeDb) (log log' : List Reply)
    → Posts log r log'
    → ((p : Placed) → r ≡ ok p → candidate ≢ none)
    → let (out, after) = closed key row pool_id candidate time r db in
      Ended key db.positions log after out log'
unfolding closed
closed-Ended key row pool_id candidate time _ db log _ (nothing_posted (skip reason)) c =
    as_skipped (_, put_same db.queue key _, refl, refl, refl) refl
closed-Ended key row pool_id candidate time _ db log _ (nothing_posted (refuse reason)) c =
    as_failed refl (omega arith) refl (_, put_same db.queue key _, refl, refl, refl) refl
closed-Ended key row pool_id candidate time _ db log _ (nothing_posted (raise e)) c =
    as_failed refl (omega arith) refl (_, put_same db.queue key _, refl, refl, refl) refl
closed-Ended key row pool_id candidate time _ db log _ (not_placed (skip reason) r s h) c =
    absurd (ground (arith, s))
closed-Ended key row pool_id candidate time _ db log _ (not_placed (refuse reason) r s h) c =
    as_failed refl (omega arith) (rw h refl) (_, put_same db.queue key _, refl, refl, refl) refl
closed-Ended key row pool_id candidate time _ db log _ (not_placed (raise e) r s h) c =
    as_failed refl (omega arith) (rw h refl) (_, put_same db.queue key _, refl, refl, refl) refl
closed-Ended key row pool_id none time _ db log _ (placed p r h) c = absurd (c p refl refl)
closed-Ended key row pool_id (some candidate) time _ db log _ (placed p r h) c =
    as_traded h (_, put_same db.queue key _, refl, refl, refl)
      (has_position-upsert (position_of key pool_id candidate p) db.positions)

module _ {W : Type 0} (ex : Exchange W) (env : TradeEnv) where
  no_candidate :
      (r : Result Stop Bool) (pool : Option TradePool) (exposure : ℕ) (a : Option WalletAccount)
      (w : W) (p : Placed)
      → (continue r (λ open_now. with_rows ex env pool exposure none) a w).0 ≢ ok p
  no_candidate (throw e) pool exposure a w p h = absurd (ground (arith, h))
  no_candidate (ok b) none exposure a w p h = absurd (ground (arith, h))
  no_candidate (ok b) (some pool) exposure a w p h = absurd (ground (arith, h))

  attempt-candidate :
      (expected : ℕ) (pool : Option TradePool) (exposure : ℕ) (candidate : Option TradeCandidate)
      (a : Option WalletAccount) (w : W) (p : Placed)
      → (attempt ex env expected pool exposure candidate a w).0 ≡ ok p
      → candidate ≢ none
  unfolding attempt ◌>>=◌
  attempt-candidate expected pool exposure (some c) a w p h = λ e. absurd (ground (arith, e))
  attempt-candidate expected pool exposure none a w p h =
      let (r, s) = window_open ex env expected a w in
      absurd (no_candidate r pool exposure s.0 s.1 p h)

module _ {W : Type 0} (ex : Exchange W) (env : TradeEnv) where
  claimed-Ended :
      (params : TrancheParams) (key : Key) (row : QueueRow) (db : TradeDb) (w : W)
      (log : List Reply)
      → let (out, (after, state)) = claimed (traced ex) env params key row db (w, log) in
        Ended key db.positions log after out state.1
  claimed-Ended params key row db w log =
      let pool_id = params.key.pool_id in
      let candidate = db.candidates params.key.candidate_id in
      let expected = expected_of params.expected_execution_time_ms row in
      let pool = db.pools pool_id in
      let exposure = exposure_of pool_id db.positions in
      let account = db.accounts pool_id in
      let (r, (a, s)) = attempt (traced ex) env expected pool exposure candidate account (w, log) in
      closed-Ended key row pool_id candidate _ r (with_account pool_id a db) log s.1
        ((attempt-Posting ex env expected pool exposure candidate).posts account (w, log))
        (attempt-candidate (traced ex) env expected pool exposure candidate account (w, log))

  -- On a row that is scheduled, the call posts at most one order, and it leaves the row unlocked. The row is
  -- skipped and nothing was posted and no position changed; or it is failed, no posted order was accepted and
  -- no position changed, and the call refused or threw; or it is executed, the one order was accepted and the
  -- row has a position.
  pub scheduled-Ended :
      (params : TrancheParams) (row : QueueRow) (db : TradeDb) (w : W) (log : List Reply)
      → db.queue (queue_key params) ≡ some row
      → row.status ≡ scheduled
      → let (out, (after, state)) = execute_limitless_tranche (traced ex) env params db (w, log) in
        Ended (queue_key params) db.positions log after out state.1
  unfolding execute_limitless_tranche
  scheduled-Ended params row db w log h e =
      rw (h, e)
        (let (time, w') = ex.now w in
          let row' = claimed_row row time env.lock_owner in
          claimed-Ended params (queue_key params) row'
            (record db { queue = put db.queue (queue_key params) row' }) w' log)
