-- ===== src/Services/Tests.antt =====
-- The theorems on src/services at concrete inputs.
use team_index.Base.{ℕ, ◌+◌, true, ◌≡◌, refl, none, some, [], ◌∷◌, List, ok}
use team_index.Services.Scheduler.{
  Key, Table, put, QueueStatus, QueueRow, executed, failed, rescheduled, Queue, Candidate,
  schedule_match_tranches, candidates_loop, schedule_candidate_tranche, add_match_execution_job,
}
use team_index.Services.Scheduler.Rows.{terminal_stays}
use team_index.Services.RiskEngine.{RiskInputs, is_within_risk}

abbrev queue : Queue ℕ
queue = record {
  now = λ w. (1000, w);
  meanwhile = λ t w. (t, w);
  get_job = λ k w. (ok none, w);
  remove = λ k w. w;
  add = λ k delay time w. (ok tt, w);
}

abbrev done : Key
done = record { pool_id = "p"; candidate_id = "a"; tranche = 1 }

abbrev row_with : QueueStatus → QueueRow
row_with status = record {
  execution_time = 5;
  stake_usd = 3;
  status = status;
  locked_at = none;
  locked_by = none;
  attempts = 1;
  executed_at = some 6;
  last_error = none;
}

abbrev rows : Table
rows = put (λ k. none) done (row_with executed)

abbrev candidates : List Candidate
candidates =
    record { id = "a"; kickoff_time = some 400000000 }
    ∷ record { id = "b"; kickoff_time = none }
    ∷ record { id = "c"; kickoff_time = some 500000000 }
    ∷ []

terminal_stays_example : (schedule_match_tranches queue "p" candidates rows 0).1.0 done ≡ rows done
terminal_stays_example = terminal_stays queue "p" done candidates rows 0 (λ t w h. refl) refl

-- The executed tranche is skipped and the three others are new.
schedule_runs :
    (schedule_match_tranches queue "p" candidates rows 0).0
    ≡ ok (record { created = 3; updated = 0; skipped = 1; jobs_queued = 3 })
unfolding schedule_match_tranches candidates_loop schedule_candidate_tranche add_match_execution_job
schedule_runs = refl

-- Another process executes the row between the read and the write.
abbrev busy : Queue ℕ
busy = record queue { meanwhile = λ t w. (rows, w) }

-- The executed row is set back to SCHEDULED.
race_runs :
    (schedule_candidate_tranche busy done 9 0 (put (λ k. none) done (row_with failed)) 0).1.0 done
    ≡ some (rescheduled (row_with executed) 9 0)
unfolding schedule_candidate_tranche add_match_execution_job
race_runs = refl

abbrev inputs : RiskInputs
inputs = record {
  pool_total_value_usd = 1000;
  pool_total_exposure_usd = 150;
  max_per_match_pct = 3;
  max_total_exposure_pct = 20;
}

risk_accepts : (is_within_risk inputs (20 + 10)).ok ≡ true
unfolding is_within_risk
risk_accepts = refl
