-- ===== src/Services/Scheduler/Rows.antt =====
-- What scheduler.ts does to the rows of the queue and what it counts.
use team_index.Base.{
  ℕ, ◌≡◌, refl, ap, ◌∙◌, String, str_eq_iff, Text, Option, none, some, Bool, true, false, Result,
  ok, throw, List, [], ◌∷◌, arith, Bool-cases, inl, inr,
}
use team_index.Services.Scheduler.{
  Key, key_eq, QueueRow, Table, put, is_terminal, Queue, Scheduled, ScheduleResult, Candidate,
  count, written, outcome, finished, queued, schedule_unless, schedule_candidate_tranche,
  add_match_execution_job, tranches_loop, tranches, candidate_turn, candidates_loop,
  schedule_match_tranches, key_of, subtract_hours, go_on,
}

key_eq→eq : (a b : Key) → key_eq a b ≡ true → a ≡ b
key_eq→eq a b e =
    ground (arith, str_eq_iff a.pool_id b.pool_id, str_eq_iff a.candidate_id b.candidate_id)

-- The row of a key, before and after, where it is terminal before
abbrev Kept : Key → Table → Table → Type 0
Kept j before after = is_terminal (before j) ≡ true → after j ≡ before j

-- Other processes leave the row alone once it is terminal.
abbrev pub Undisturbed : {W : Type 0} → Queue W → Key → Type 0
Undisturbed {W} queue j =
    (t : Table) (w : W) → is_terminal (t j) ≡ true → (queue.meanwhile t w).0 j ≡ t j

other_key :
    (j k : Key) (t : Table)
    → is_terminal (t k) ≡ false
    → is_terminal (t j) ≡ true
    → key_eq k j ≡ false
other_key j k t n h = elim (Bool-cases (key_eq k j)) [
  | inr e ↦ e
  | inl e ↦ absurd (cc (n, h, ap (λ i. is_terminal (t i)) (key_eq→eq k j e)))
]

module _ {W : Type 0} (queue : Queue W) where
  finished_table :
      (o : Scheduled) (t : Table) (reply : Result Text (Unit {0}) × W)
      → (finished queue o t reply).1.0 ≡ t
  finished_table o t (ok _, w) = refl
  finished_table o t (throw e, w) = refl

  queued_other :
      (o : Scheduled) (r : Result Text QueueRow) (j k : Key) (time : ℕ) (t : Table) (w : W)
      → key_eq k j ≡ false
      → (queued queue o r k time t w).1.0 j ≡ t j
  queued_other o (throw e) j k time t w d = refl
  queued_other o (ok row) j k time t w d =
      ap (λ u. u j) (finished_table o (put t k row) (add_match_execution_job queue k time w))
      ∙ rw d refl

  unless-Kept :
      (terminal : Bool) (j k : Key) (time stake : ℕ) (t : Table) (w : W)
      → Undisturbed queue j
      → is_terminal (t k) ≡ terminal
      → Kept j t (schedule_unless queue terminal (t k) k time stake t w).1.0
  unless-Kept true j k time stake t w u e h = refl
  unless-Kept false j k time stake t w u e h =
      let (t', w') = queue.meanwhile t w in
      queued_other (outcome (t k)) (written (t k) (t' k) time stake) j k time t' w'
        (other_key j k t e h)
      ∙ u t w h

  tranche-Kept :
      (j k : Key) (time stake : ℕ) (t : Table) (w : W)
      → Undisturbed queue j
      → Kept j t (schedule_candidate_tranche queue k time stake t w).1.0
  unfolding schedule_candidate_tranche
  tranche-Kept j k time stake t w u = unless-Kept (is_terminal (t k)) j k time stake t w u refl

  Kept-trans : (j : Key) (a b c : Table) → Kept j a b → Kept j b c → Kept j a c
  Kept-trans j a b c f g h = g (ap is_terminal (f h) ∙ h) ∙ f h

  module _ (pool_id : String) where
    go_on-Kept :
        {A : Type 0} (j : Key) (o : Result Text A)
        (f : A → Table → W → Result Text ScheduleResult × (Table × W)) (before t : Table) (w : W)
        → Kept j before t
        → ((a : A) (t' : Table) (w' : W) → Kept j t' (f a t' w').1.0)
        → Kept j before (go_on queue pool_id o f t w).1.0
    go_on-Kept j (throw e) f before t w h g = h
    go_on-Kept j (ok a) f before t w h g = Kept-trans j before t (f a t w).1.0 h (g a t w)

    tranches_loop-Kept :
        (j : Key) (ns : List (ℕ × ℕ)) (c : Candidate) (kickoff : ℕ) (r : ScheduleResult) (t : Table)
        (w : W)
        → Undisturbed queue j
        → Kept j t (tranches_loop queue pool_id ns c kickoff r t w).1.0
    tranches_loop-Kept j [] c kickoff r t w u = λ h. refl
    tranches_loop-Kept j ((n, b) ∷ ns) c kickoff r t w u =
        let k = key_of queue pool_id c n in
        let o = schedule_candidate_tranche queue k (subtract_hours kickoff b) 0 t w in
        go_on-Kept j o.0 _ t o.1.0 o.1.1 (tranche-Kept j k (subtract_hours kickoff b) 0 t w u)
          (λ s t' w'. tranches_loop-Kept j ns c kickoff (count s r) t' w' u)

    candidate_turn-Kept :
        (j : Key) (kickoff : Option ℕ) (c : Candidate) (r : ScheduleResult) (t : Table) (w : W)
        → Undisturbed queue j
        → Kept j t (candidate_turn queue pool_id kickoff c r t w).1.0
    candidate_turn-Kept j none c r t w u = λ h. refl
    candidate_turn-Kept j (some kickoff) c r t w u = tranches_loop-Kept j tranches c kickoff r t w u

    candidates_loop-Kept :
        (j : Key) (cs : List Candidate) (r : ScheduleResult) (t : Table) (w : W)
        → Undisturbed queue j
        → Kept j t (candidates_loop queue pool_id cs r t w).1.0
    unfolding candidates_loop
    candidates_loop-Kept j [] r t w u = λ h. refl
    candidates_loop-Kept j (c ∷ cs) r t w u =
        let o = candidate_turn queue pool_id c.kickoff_time c r t w in
        go_on-Kept j o.0 _ t o.1.0 o.1.1 (candidate_turn-Kept j c.kickoff_time c r t w u)
          (λ r' t' w'. candidates_loop-Kept j cs r' t' w' u)

    -- A row that is executed, skipped, cancelled or in processing when the scheduling of a pool's candidates
    -- begins is left as it is, whatever the candidates and whether the queue of jobs answers or fails, and
    -- whatever other processes do to other rows between the reads and the writes.
    pub terminal_stays :
        (j : Key) (cs : List Candidate) (t : Table) (w : W)
        → Undisturbed queue j
        → is_terminal (t j) ≡ true
        → (schedule_match_tranches queue pool_id cs t w).1.0 j ≡ t j
    unfolding schedule_match_tranches
    terminal_stays j cs t w u h = candidates_loop-Kept j cs _ t w u h
