-- ===== src/Services/PriceEngine/Basis.antt =====
-- src/services/priceEngine.ts: the value that is written to a vault against the value of the pool.
use team_index.Base.{ℕ, ◌+◌, ◌≤◌, ◌≡◌, List, true, some, Text, pos, ◌+ℤ◌, ◌⊎◌}
use team_index.Services.PriceEngine.{PoolValuation, Nav, Memory, PriceEnv}
use team_index.Services.PriceEngine.Pushes.{Push, Tried, Confirmed}

-- What one recalculation of pool `id` sends, when the clock reads `time`: nothing, or one value, settled or
-- not, which the conditions allowed, and which with the vault's own cash makes the pool's value
pub data Written (env : PriceEnv) (id : Text) (memory : Memory) (time : ℕ) (v : PoolValuation)
    (log : List Push) : List Push → Type 0 where
  quiet : Written env id memory time v log log
  written :
      (nav : Nav) (log' : List Push)
      → pos v.vault_cash +ℤ pos nav.positions +ℤ nav.pnl ≡ v.total_pool_value
      → env.push_enabled ≡ true
      → ((t : ℕ) → memory.last_push_at id ≡ some t → t + env.push_interval_ms ≤ time)
      → Tried id nav log log' ⊎ Confirmed id nav log log'
      → Written env id memory time v log log'
