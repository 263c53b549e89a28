-- ===== src/Onchain/PoolSync/Sorted.antt =====
-- src/onchain/poolSync.ts: what holds of the sorted logs of a sync holds of all of them.
use team_index.Base.{List, [], ◌∷◌, All, Bool-cases, inl, inr}
use team_index.Onchain.PoolSync.Logs.{Log, is_after, insert_log, sort_logs}

All-insert :
    {A : Type 0} (P : Log A → Type 0) (ev : Log A) (xs : List (Log A))
    → All P (insert_log ev xs)
    → P ev × All P xs
All-insert P ev [] (p, h) = (p, tt)
All-insert P ev (x ∷ xs) h = elim (Bool-cases (is_after x ev)) [
  | inl e ↦ let k = rw e at h in (k.0, k.1)
  | inr e ↦ let k = rw e at h in let r = All-insert P ev xs k.1 in (r.0, (k.0, r.1))
]

-- What holds of the sorted logs holds of the logs.
pub All-sort_logs :
    {A : Type 0} (P : Log A → Type 0) (evs done : List (Log A))
    → All P (sort_logs done evs)
    → All P done × All P evs
All-sort_logs P [] done h = (h, tt)
All-sort_logs P (ev ∷ evs) done h =
    let r = All-sort_logs P evs (insert_log ev done) h in
    let s = All-insert P ev done r.0 in (s.1, (s.0, r.1))

pub All-imp :
    {A : Type 0} (P Q : A → Type 0) (xs : List A) → ((a : A) → P a → Q a) → All P xs → All Q xs
All-imp P Q [] f h = tt
All-imp P Q (x ∷ xs) f (p, h) = (f x p, All-imp P Q xs f h)
