-- ===== src/Limitless/Executor/Once.antt =====
-- src/limitless/limitlessExecutor.ts: a row that is executed again and again.
use mathlib.Core.Path.{subst}
use team_index.Base.{
  ◌≤◌, ◌≡◌, refl, sym, ap, ◌∙◌, List, [], ◌∷◌, length, Bool, true, false, Option, none, some,
  Result, Text, arith, Bool-cases, inl, inr, All,
}
use team_index.Services.Scheduler.{
  QueueStatus, scheduled, processing, executed, skipped_match, failed, cancelled, Key, QueueRow,
}
use team_index.Limitless.Executor.Calls.{Exchange}
use team_index.Limitless.Executor.Quiet.{Reply, traced}
use team_index.Limitless.Executor.Closed.{
  Shut, count_placed, has_position, Ended, as_skipped, as_failed, as_traded, scheduled-Ended,
}
use team_index.Limitless.Executor.Rows.{Position, TradeDb, TrancheParams, TradeEnv, TradeOutcome}
use team_index.Limitless.Executor.{queue_key, claim_queue, execute_limitless_tranche}

-- Executions one after the other, what each of them returns or throws ignored
unfoldable pub executions :
    {W : Type 0} → Exchange W → TradeEnv → List TrancheParams → TradeDb → W → TradeDb × W
executions ex env [] db w = (db, w)
executions ex env (p ∷ ps) db w =
    let (out, (db', w')) = execute_limitless_tranche ex env p db w in executions ex env ps db' w'

abbrev pub status_scheduled : QueueStatus → Bool
status_scheduled scheduled = true
status_scheduled _ = false

abbrev pub is_scheduled : Option QueueRow → Bool
is_scheduled none = false
is_scheduled (some row) = status_scheduled row.status

module _ {W : Type 0} (ex : Exchange W) (env : TradeEnv) where
  status-idle :
      (params : TrancheParams) (key : Key) (row : QueueRow) (db : TradeDb) (w : W) (s : QueueStatus)
      → row.status ≡ s
      → status_scheduled s ≡ false
      → (claim_queue ex env params key (some row) db w).1 ≡ (db, w)
  status-idle params key row db w scheduled e h = absurd (ground (arith, h))
  status-idle params key row db w processing e h = rw e refl
  status-idle params key row db w executed e h = rw e refl
  status-idle params key row db w skipped_match e h = rw e refl
  status-idle params key row db w cancelled e h = rw e refl
  status-idle params key row db w failed e h = rw e refl

  claim-idle :
      (params : TrancheParams) (key : Key) (row : Option QueueRow) (db : TradeDb) (w : W)
      → is_scheduled row ≡ false
      → (claim_queue ex env params key row db w).1 ≡ (db, w)
  claim-idle params key none db w h = refl
  claim-idle params key (some row) db w h = status-idle params key row db w row.status refl h

  -- A row that is not scheduled, or that is missing, is left alone with everything else.
  pub idle :
      (params : TrancheParams) (db : TradeDb) (w : W)
      → is_scheduled (db.queue (queue_key params)) ≡ false
      → (execute_limitless_tranche ex env params db w).1 ≡ (db, w)
  unfolding execute_limitless_tranche
  idle params db w h = claim-idle params (queue_key params) (db.queue (queue_key params)) db w h

  executions-idle :
      (key : Key) (ps : List TrancheParams) (db : TradeDb) (w : W)
      → All (λ p. queue_key p ≡ key) ps
      → is_scheduled (db.queue key) ≡ false
      → executions ex env ps db w ≡ (db, w)
  unfolding executions
  executions-idle key [] db w same h = refl
  executions-idle key (p ∷ ps) db w (e, same) h =
      let step = idle p db w (ap (λ k. is_scheduled (db.queue k)) e ∙ h) in
      ap (λ s. executions ex env ps s.0 s.1) step ∙ executions-idle key ps db w same h

pub Shut-idle :
    (key : Key) (status : QueueStatus) (db : TradeDb)
    → Shut key status db
    → status_scheduled status ≡ false
    → is_scheduled (db.queue key) ≡ false
Shut-idle key status db (row, e, s, at, owner) h = ap is_scheduled e ∙ ap status_scheduled s ∙ h

-- No second order is posted, and an accepted one has its position.
abbrev pub Once : Key → TradeDb → List Reply → Type 0
Once key db log =
    (length log ≤ 1)
    × (count_placed log ≡ 1 → Shut key executed db × (has_position key db.positions ≡ true))

Ended-Once :
    (key : Key) (positions : List Position) (db : TradeDb) (out : Result Text TradeOutcome)
    (log : List Reply)
    → Ended key positions [] db out log
    → (is_scheduled (db.queue key) ≡ false) × Once key db log
Ended-Once key positions db _ _ (as_skipped shut same) =
    (Shut-idle key skipped_match db shut refl, (omega arith, λ one. absurd (omega (arith, one))))
Ended-Once key positions db out log (as_failed failure short none_placed shut same) =
    (Shut-idle key failed db shut refl, (short, λ one. absurd (omega (arith, one, none_placed))))
Ended-Once key positions db _ _ (as_traded h shut position) =
    (Shut-idle key executed db shut refl, (omega arith, λ one. (shut, position)))

status_scheduled→eq : (s : QueueStatus) → status_scheduled s ≡ true → s ≡ scheduled
status_scheduled→eq scheduled h = refl
status_scheduled→eq processing h = absurd (ground (arith, h))
status_scheduled→eq executed h = absurd (ground (arith, h))
status_scheduled→eq skipped_match h = absurd (ground (arith, h))
status_scheduled→eq cancelled h = absurd (ground (arith, h))
status_scheduled→eq failed h = absurd (ground (arith, h))

pub scheduled_row :
    (o : Option QueueRow)
    → is_scheduled o ≡ true
    → (row : QueueRow) × (o ≡ some row) × (row.status ≡ scheduled)
scheduled_row none h = absurd (ground (arith, h))
scheduled_row (some row) h = (row, refl, status_scheduled→eq row.status h)

module _ {W : Type 0} (ex : Exchange W) (env : TradeEnv) where
  first-Once :
      (p : TrancheParams) (ps : List TrancheParams) (db : TradeDb) (w : W) (row : QueueRow)
      → db.queue (queue_key p) ≡ some row
      → row.status ≡ scheduled
      → All (λ q. queue_key q ≡ queue_key p) ps
      → let (after, state) = executions (traced ex) env (p ∷ ps) db (w, []) in
        Once (queue_key p) after state.1
  unfolding executions
  first-Once p ps db w row e s same =
      let key = queue_key p in
      let (out, (db', state)) = execute_limitless_tranche (traced ex) env p db (w, []) in
      let (closed_row, once) =
        Ended-Once key db.positions db' out state.1 (scheduled-Ended ex env p row db w [] e s) in
      let family : TradeDb × (W × List Reply) → Type 0 = λ t. Once key t.0 t.1.1 in
      subst family (sym (executions-idle (traced ex) env key ps db' state same closed_row)) once

  -- However often a row is executed, one execution after the other, at most one order is posted for it; and if
  -- the order was accepted, the row ends as executed and unlocked, and has a position.
  pub executions-Once :
      (key : Key) (ps : List TrancheParams) (db : TradeDb) (w : W)
      → All (λ p. queue_key p ≡ key) ps
      → let (after, state) = executions (traced ex) env ps db (w, []) in Once key after state.1
  unfolding executions
  executions-Once key [] db w same = (omega arith, λ one. absurd (omega (arith, one)))
  executions-Once key (p ∷ ps) db w (e, same) = elim (Bool-cases (is_scheduled (db.queue key))) [
    | inl h ↦
        let (row, found, status) = scheduled_row (db.queue key) h in
        rw (sym e) (first-Once p ps db w row (rw e found) status (rw e same))
    | inr h ↦
        let family : TradeDb × (W × List Reply) → Type 0 = λ t. Once key t.0 t.1.1 in
        subst family (sym (executions-idle (traced ex) env key (p ∷ ps) db (w, []) (e, same) h))
          (omega arith, λ one. absurd (omega (arith, one)))
  ]
