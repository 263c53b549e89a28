-- ===== src/Services/Scheduler.antt =====
-- src/services/scheduler.ts and addMatchExecutionJob of src/queues/bull.ts: each candidate match gets
-- two rows in the queue of trades, 48 and 24 hours before kick-off, and a job for each.
pub mod Rows
use team_index.Base.{
  ℕ, ◌+◌, ◌-◌, ◌*◌, String, str_eq, Text, codes, Option, none, some, Bool, true, false, ◌&&◌,
  Result, ok, throw, List, [], ◌∷◌, ◌==◌, if◌then◌else◌,
}

pub data QueueStatus : Type 0 where
  scheduled processing executed skipped_match cancelled failed : QueueStatus

-- The unique columns of club_match_queue
pub record Key : Type 0 where
  pub pool_id : String
  pub candidate_id : String
  pub tranche : ℕ

abbrev pub key_eq : Key → Key → Bool
key_eq a b =
    str_eq a.pool_id b.pool_id && (str_eq a.candidate_id b.candidate_id && a.tranche == b.tranche)

-- A row of club_match_queue; times are milliseconds.
pub record QueueRow : Type 0 where
  pub execution_time : ℕ
  pub stake_usd : ℕ
  pub status : QueueStatus
  pub locked_at : Option ℕ
  pub locked_by : Option String
  pub attempts : ℕ
  pub executed_at : Option ℕ
  pub last_error : Option Text

abbrev pub Table : Type 0
Table = Key → Option QueueRow

abbrev pub put : Table → Key → QueueRow → Table
put t k row j = if key_eq k j then some row else t j

abbrev terminal : QueueStatus → Bool
terminal executed = true
terminal skipped_match = true
terminal cancelled = true
terminal processing = true
terminal _ = false

abbrev pub is_terminal : Option QueueRow → Bool
is_terminal none = false
is_terminal (some row) = terminal row.status

pub data JobState : Type 0 where
  delayed waiting failed_job other_state : JobState

-- The queue of jobs by their ids, which the keys are; `remove` may fail, which is ignored. `meanwhile` is what
-- other processes do to the table between the read of a row and its write.
pub record Queue (W : Type 0) : Type 0 where
  pub now : W → ℕ × W
  pub meanwhile : Table → W → Table × W
  pub get_job : Key → W → Result Text (Option JobState) × W
  pub remove : Key → W → W
  pub add : Key → (delay : ℕ) → (expected_execution_time : ℕ) → W → Result Text (Unit {0}) × W

pub data Scheduled : Type 0 where
  created updated skipped : Scheduled

pub record ScheduleResult : Type 0 where
  pub created : ℕ
  pub updated : ℕ
  pub skipped : ℕ
  pub jobs_queued : ℕ

pub record Candidate : Type 0 where
  pub id : String
  pub kickoff_time : Option ℕ

abbrev pub hours : ℕ → ℕ
hours n = n * 3600 * 1000

-- A time before 1970 is taken as 0.
abbrev pub subtract_hours : ℕ → ℕ → ℕ
subtract_hours d h = d - hours h

abbrev fresh_row : ℕ → ℕ → QueueRow
fresh_row time stake = record {
  execution_time = time;
  stake_usd = stake;
  status = scheduled;
  locked_at = none;
  locked_by = none;
  attempts = 0;
  executed_at = none;
  last_error = none;
}

abbrev pub rescheduled : QueueRow → ℕ → ℕ → QueueRow
rescheduled row time stake = record row {
  execution_time = time;
  stake_usd = stake;
  status = scheduled;
  locked_at = none;
  locked_by = none;
  executed_at = none;
  last_error = none;
}

-- The row that is written, by the row that was read and the one that is there: an update of a row that was
-- read, whatever it is now, or a new row
abbrev pub written : Option QueueRow → Option QueueRow → ℕ → ℕ → Result Text QueueRow
written none none time stake = ok (fresh_row time stake)
written none (some now) time stake = throw (codes "Unique constraint failed")
written (some row) none time stake = throw (codes "Record to update not found")
written (some row) (some now) time stake = ok (rescheduled now time stake)

abbrev pub outcome : Option QueueRow → Scheduled
outcome none = created
outcome (some row) = updated

abbrev pub count : Scheduled → ScheduleResult → ScheduleResult
count created r = record r { created = r.created + 1; jobs_queued = r.jobs_queued + 1 }
count updated r = record r { updated = r.updated + 1; jobs_queued = r.jobs_queued + 1 }
count skipped r = record r { skipped = r.skipped + 1 }

abbrev pub tranches : List (ℕ × ℕ)
tranches = (1, 48) ∷ (2, 24) ∷ []

abbrev pub no_results : ScheduleResult
no_results = record { created = 0; updated = 0; skipped = 0; jobs_queued = 0 }

module _ {W : Type 0} (queue : Queue W) where
  abbrev cleared : Option JobState → Key → W → W
  cleared (some delayed) k w = queue.remove k w
  cleared (some waiting) k w = queue.remove k w
  cleared (some failed_job) k w = queue.remove k w
  cleared _ k w = w

  abbrev added : Result Text (Option JobState) → Key → ℕ → ℕ → W → Result Text (Unit {0}) × W
  added (throw e) k delay time w = (throw e, w)
  added (ok existing) k delay time w = queue.add k delay time (cleared existing k w)

  unfoldable pub add_match_execution_job : Key → ℕ → W → Result Text (Unit {0}) × W
  add_match_execution_job k run_at w =
      let (now, w1) = queue.now w in
      let (existing, w2) = queue.get_job k w1 in added existing k (run_at - now) run_at w2

  abbrev pub finished :
      Scheduled → Table → Result Text (Unit {0}) × W → Result Text Scheduled × (Table × W)
  finished o t (throw e, w) = (throw e, (t, w))
  finished o t (ok _, w) = (ok o, (t, w))

  -- After the write, the job is added.
  abbrev pub queued :
      Scheduled → Result Text QueueRow → Key → ℕ → Table → W → Result Text Scheduled × (Table × W)
  queued o (throw e) k time t w = (throw e, (t, w))
  queued o (ok row) k time t w = finished o (put t k row) (add_match_execution_job k time w)

  -- `true`: the row that was read is in a terminal status.
  abbrev pub schedule_unless :
      Bool → Option QueueRow → Key → ℕ → ℕ → Table → W → Result Text Scheduled × (Table × W)
  schedule_unless true existing k time stake t w = (ok skipped, (t, w))
  schedule_unless false existing k time stake t w =
      let (t', w') = queue.meanwhile t w in
      queued (outcome existing) (written existing (t' k) time stake) k time t' w'

  unfoldable pub schedule_candidate_tranche :
      Key → ℕ → ℕ → Table → W → Result Text Scheduled × (Table × W)
  schedule_candidate_tranche k time stake t w =
      schedule_unless (is_terminal (t k)) (t k) k time stake t w

  module _ (pool_id : String) where
    abbrev pub key_of : Candidate → ℕ → Key
    key_of c n = record { pool_id = pool_id; candidate_id = c.id; tranche = n }

    abbrev pub go_on {κ} :
        {A : Type κ}
        → Result Text A
        → (A → Table → W → Result Text ScheduleResult × (Table × W))
        → Table
        → W
        → Result Text ScheduleResult × (Table × W)
    go_on (throw e) f t w = (throw e, (t, w))
    go_on (ok a) f t w = f a t w

    -- The tranches of one candidate, by number and hours before kick-off
    abbrev pub tranches_loop :
        List (ℕ × ℕ)
        → Candidate
        → ℕ
        → ScheduleResult
        → Table
        → W
        → Result Text ScheduleResult × (Table × W)
    tranches_loop [] c kickoff r t w = (ok r, (t, w))
    tranches_loop ((n, h) ∷ ns) c kickoff r t w =
        let (o, v) = schedule_candidate_tranche (key_of c n) (subtract_hours kickoff h) 0 t w in
        go_on o (λ s t' w'. tranches_loop ns c kickoff (count s r) t' w') v.0 v.1

    abbrev pub candidate_turn :
        Option ℕ → Candidate → ScheduleResult → Table → W → Result Text ScheduleResult × (Table × W)
    candidate_turn none c r t w = (ok r, (t, w))
    candidate_turn (some kickoff) c r t w = tranches_loop tranches c kickoff r t w

    -- The loop over the candidates of the pool, the latest discovered first
    unfoldable pub candidates_loop :
        List Candidate → ScheduleResult → Table → W → Result Text ScheduleResult × (Table × W)
    candidates_loop [] r t w = (ok r, (t, w))
    candidates_loop (c ∷ cs) r t w =
        let (o, v) = candidate_turn c.kickoff_time c r t w in
        go_on o (λ r' t' w'. candidates_loop cs r' t' w') v.0 v.1

    unfoldable pub schedule_match_tranches :
        List Candidate → Table → W → Result Text ScheduleResult × (Table × W)
    unfolding candidates_loop
    schedule_match_tranches cs t w = candidates_loop cs no_results t w
