-- ===== src/Limiter.antt =====
-- internal/httpapi/ratelimit.go: the fixed-window rate limiter. Times are nanoseconds, and the zero
-- time is 0. The map of counters is a table with one row for each key.
pub mod Window
use self_organizing_multi_ag.Base.{
  ℕ, ◌+◌, String, Bool, true, false, Option, none, some, List, [], ◌==◌, leb, ltb, if◌then◌else◌,
}
use self_organizing_multi_ag.Table.{find, update, delete, insert}

-- `registerPerMinute` and `agentPerMinute`
abbrev pub register_per_minute : ℕ
register_per_minute = 30

abbrev pub agent_per_minute : ℕ
agent_per_minute = 300

pub record Counter : Type 0 where
  pub key : String
  pub n : ℕ
  pub reset_at : ℕ

pub record Limiter : Type 0 where
  pub max : ℕ
  pub window : ℕ
  pub counters : List Counter
  pub next_sweep : ℕ

unfoldable pub new_limiter : ℕ → ℕ → Limiter
new_limiter max window = record { max = max; window = window; counters = []; next_sweep = 0 }

abbrev pub counter_key : Counter → String
counter_key c = c.key

abbrev pub is_over : ℕ → Counter → Bool
is_over now c = ltb c.reset_at now

-- The sweep at the head of `allow`.
unfoldable pub sweep : ℕ → Limiter → Limiter
sweep now l =
    if ltb l.next_sweep now
    then record l { counters = delete (is_over now) l.counters; next_sweep = now + l.window }
    else l

-- `l.counters[key] = c`
unfoldable pub store : Counter → List Counter → List Counter
store c cs = insert c (delete (λ (x : Counter). x.key == c.key) cs)

abbrev pub fresh_counter : String → ℕ → Limiter → Counter
fresh_counter key now l = record { key = key; n = 1; reset_at = now + l.window }

-- The rest of `allow`, on the counter that the map holds.
unfoldable pub spend : String → ℕ → Limiter → Option Counter → Limiter × Bool
unfolding store
spend key now l none = (record l { counters = store (fresh_counter key now l) l.counters }, true)
spend key now l (some c) =
    if is_over now c
    then (record l { counters = store (fresh_counter key now l) l.counters }, true)
    else if leb l.max c.n
    then (l, false)
    else (record l { counters = store (record c { key = key; n = c.n + 1 }) l.counters }, true)

-- `limiter.allow`
unfoldable pub allow : String → ℕ → Limiter → Limiter × Bool
unfolding sweep
allow key now l =
    let swept = sweep now l in spend key now swept (find counter_key key swept.counters)
