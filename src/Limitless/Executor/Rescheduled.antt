-- ===== src/Limitless/Executor/Rescheduled.antt =====
-- src/limitless/limitlessExecutor.ts and src/services/scheduler.ts on the same rows.
use mathlib.Core.Path.{subst}
use team_index.Base.{
  suc, ◌≡◌, ◌⊎◌, refl, sym, ap, ◌∙◌, List, [], ◌∷◌, true, some, Result, Text, String, Bool-cases,
  inl, inr, All,
}
use team_index.Services.Scheduler.{
  executed, Key, is_terminal, Queue, Candidate, schedule_match_tranches,
}
use team_index.Services.Scheduler.Rows.{Undisturbed, terminal_stays}
use team_index.Limitless.Executor.Calls.{Exchange}
use team_index.Limitless.Executor.Quiet.{Reply, traced}
use team_index.Limitless.Executor.Closed.{
  Shut, count_placed, has_position, Ended, as_skipped, as_failed, as_traded, scheduled-Ended,
}
use team_index.Limitless.Executor.Once.{Shut-idle, is_scheduled, scheduled_row, idle}
use team_index.Limitless.Executor.Rows.{TradeDb, TrancheParams, TradeEnv, TradeOutcome}
use team_index.Limitless.Executor.{queue_key, execute_limitless_tranche}

-- A job of the queue runs, or the candidates of a pool are scheduled.
pub data Event : Type 0 where
  executes : TrancheParams → Event
  schedules : String → List Candidate → Event

-- The jobs are those of one row.
abbrev pub IsOf : Key → Event → Type 0
IsOf key (executes params) = queue_key params ≡ key
IsOf key (schedules pool_id cs) = Unit

-- No order was accepted, or one was, and the row is executed and has a position.
abbrev pub Sound : Key → TradeDb → List Reply → Type 0
Sound key db log =
    (count_placed log ≡ 0)
    ⊎ ((count_placed log ≡ 1) × Shut key executed db × (has_position key db.positions ≡ true))

module _ {W V : Type 0} (ex : Exchange W) (queue : Queue V) (env : TradeEnv) where
  unfoldable pub event : Event → TradeDb → W → V → TradeDb × (W × V)
  unfolding execute_limitless_tranche schedule_match_tranches
  event (executes params) db w v =
      let (out, (db', w')) = execute_limitless_tranche ex env params db w in (db', (w', v))
  event (schedules pool_id cs) db w v =
      let (out, (table, v')) = schedule_match_tranches queue pool_id cs db.queue v in
      (record db { queue = table }, (w, v'))

  unfoldable pub events : List Event → TradeDb → W → V → TradeDb × (W × V)
  unfolding event
  events [] db w v = (db, (w, v))
  events (e ∷ es) db w v = let (db', (w', v')) = event e db w v in events es db' w' v'

Ended-Sound :
    (key : Key) (before db : TradeDb) (log : List Reply) (out : Result Text TradeOutcome)
    (log' : List Reply)
    → Ended key before.positions log db out log'
    → count_placed log ≡ 0
    → Sound key db log'
Ended-Sound key before db log _ _ (as_skipped shut same) e = inl e
Ended-Sound key before db log out log' (as_failed failure short equal shut same) e = inl (equal ∙ e)
Ended-Sound key before db log _ _ (as_traded h shut position) e =
    inr (rw h (ap suc e), shut, position)

module _ {W V : Type 0} (ex : Exchange W) (queue : Queue V) (env : TradeEnv) where
  execution-Sound :
      (params : TrancheParams) (db : TradeDb) (w : W) (log : List Reply)
      → Sound (queue_key params) db log
      → let (out, (after, state)) = execute_limitless_tranche (traced ex) env params db (w, log) in
        Sound (queue_key params) after state.1
  execution-Sound params db w log h =
      let key = queue_key params in
      let family : TradeDb × (W × List Reply) → Type 0 = λ t. Sound key t.0 t.1.1 in
      let (out, (after, state)) = execute_limitless_tranche (traced ex) env params db (w, log) in
      elim (Bool-cases (is_scheduled (db.queue key))) [
        | inr idle_row ↦ subst family (sym (idle (traced ex) env params db (w, log) idle_row)) h
        | inl open_row ↦
            let (row, found, status) = scheduled_row (db.queue key) open_row in
            elim h [
              | inl none_placed ↦
                  Ended-Sound key db after log out state.1
                    (scheduled-Ended ex env params row db w log found status) none_placed
              | inr (one, shut, position) ↦
                  absurd (cc (open_row, Shut-idle key executed db shut refl))
            ]
      ]

  Shut-terminal :
      (key : Key) (db : TradeDb) → Shut key executed db → is_terminal (db.queue key) ≡ true
  Shut-terminal key db (row, found, status, at, owner) =
      ap is_terminal found ∙ ap (λ s. is_terminal (some (record row { status = s }))) status

  scheduling-Sound :
      (key : Key) (pool_id : String) (cs : List Candidate) (db : TradeDb) (v : V) (log : List Reply)
      → Undisturbed queue key
      → Sound key db log
      → let (out, (table, v')) = schedule_match_tranches queue pool_id cs db.queue v in
        Sound key (record db { queue = table }) log
  scheduling-Sound key pool_id cs db v log u (inl none_placed) = inl none_placed
  scheduling-Sound key pool_id cs db v log u
        (inr (one, (row, found, status, at, owner), position)) =
      let shut : Shut key executed db = (row, found, status, at, owner) in
      let same = terminal_stays queue pool_id key cs db.queue v u (Shut-terminal key db shut) in
      inr (one, (row, same ∙ found, status, at, owner), position)

  event-Sound :
      (key : Key) (e : Event) (db : TradeDb) (w : W) (v : V) (log : List Reply)
      → Undisturbed queue key
      → IsOf key e
      → Sound key db log
      → let (after, (state, v')) = event (traced ex) queue env e db (w, log) v in
        Sound key after state.1
  unfolding event
  event-Sound key (executes params) db w v log u same h =
      let family : Key → Type 0 = λ k.
        let (out, (after, state)) = execute_limitless_tranche (traced ex) env params db (w, log) in
        Sound k after state.1 in
      subst family same (execution-Sound params db w log (rw same h))
  event-Sound key (schedules pool_id cs) db w v log u same h =
      scheduling-Sound key pool_id cs db v log u h

  events-Sound_from :
      (key : Key) (es : List Event) (db : TradeDb) (w : W) (v : V) (log : List Reply)
      → Undisturbed queue key
      → All (IsOf key) es
      → Sound key db log
      → let (after, (state, v')) = events (traced ex) queue env es db (w, log) v in
        Sound key after state.1
  unfolding events
  events-Sound_from key [] db w v log u same h = h
  events-Sound_from key (e ∷ es) db w v log u same h =
      let (after, (state, v')) = event (traced ex) queue env e db (w, log) v in
      events-Sound_from key es after state.0 v' state.1 u same.1
        (event-Sound key e db w v log u same.0 h)

  -- The executions of a row and schedulings of the candidates of any pools, run one after the other in any
  -- order, get at most one answer that accepts an order, also where a failed row is scheduled again; and if
  -- there is one, the row is executed and unlocked at the end, and has a position. It is assumed that between
  -- the read and the write of a scheduling no other process changes the row once it is terminal: the code has
  -- no guard against that.
  pub events-Sound :
      (key : Key) (es : List Event) (db : TradeDb) (w : W) (v : V)
      → Undisturbed queue key
      → All (IsOf key) es
      → let (after, (state, v')) = events (traced ex) queue env es db (w, []) v in
        Sound key after state.1
  events-Sound key es db w v u same = events-Sound_from key es db w v [] u same (inl refl)
