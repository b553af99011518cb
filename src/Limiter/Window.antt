-- ===== src/Limiter/Window.antt =====
-- Lemmas on the limiter of internal/httpapi/ratelimit.go: the counter of a key before and after a
-- call.
use self_organizing_multi_ag.Base.{
  ℕ, ◌+◌, ◌≤◌, String, ◌≡◌, refl, Bool, true, not, Option, none, some, List, [], ◌∷◌, arith, ◌==◌,
  eq_iff, eq_refl, leb, if◌then◌else◌,
}
use self_organizing_multi_ag.Table.{IsKeyed, find, delete}
use self_organizing_multi_ag.Table.Keyed.{find-insert, IsKeyed-insert, IsKeyed-delete}
use self_organizing_multi_ag.Limiter.{
  Counter, Limiter, counter_key, is_over, sweep, store, fresh_counter, spend, allow,
}

-- What the map holds for a key at a time: a counter whose window is over counts for nothing.
abbrev pub unless_over : ℕ → Option Counter → Option Counter
unless_over now none = none
unless_over now (some c) = if is_over now c then none else some c

abbrev pub live : Limiter → ℕ → String → Option Counter
live l now k = unless_over now (find counter_key k l.counters)

-- The counter after a call, on the counter before it: what a limiter that never sweeps keeps.
abbrev pub spent : String → ℕ → Limiter → Option Counter → Counter
spent key now l none = record { key = key; n = 1; reset_at = now + l.window }
spent key now l (some c) = if leb l.max c.n then c else record c { key = key; n = c.n + 1 }

abbrev pub admits : Limiter → Option Counter → Bool
admits l none = true
admits l (some c) = not (leb l.max c.n)

find-delete_other :
    (k j : String) (cs : List Counter)
    → find counter_key k (delete (λ (x : Counter). x.key == j) cs)
      ≡ (if k == j then none else find counter_key k cs)
unfolding find delete
find-delete_other k j [] = ground arith
find-delete_other k j (c ∷ cs) =
    ground (arith, find-delete_other k j cs, eq_iff c.key j, eq_iff c.key k, eq_iff k j)

find-store :
    (k : String) (c : Counter) (cs : List Counter)
    → find counter_key k (store c cs) ≡ (if k == c.key then some c else find counter_key k cs)
unfolding store
find-store k c cs = ground (
  arith,
  find-insert counter_key k c (delete (λ (x : Counter). x.key == c.key) cs),
  find-delete_other k c.key cs,
  eq_iff c.key k,
  eq_iff k c.key,
)

find-sweep :
    (now : ℕ) (k : String) (cs : List Counter)
    → IsKeyed counter_key cs
    → find counter_key k (delete (is_over now) cs) ≡ unless_over now (find counter_key k cs)
unfolding find delete
find-sweep now k [] h = refl
find-sweep now k (c ∷ cs) h = ground (arith, find-sweep now k cs h.1, eq_iff c.key k)

IsKeyed-store :
    (c : Counter) (cs : List Counter) → IsKeyed counter_key cs → IsKeyed counter_key (store c cs)
unfolding store
IsKeyed-store c cs k =
    IsKeyed-insert counter_key c _
      (IsKeyed-delete counter_key (λ (x : Counter). x.key == c.key) cs k)
      (ground (arith, find-delete_other c.key c.key cs, eq_refl c.key))

-- Sweeping leaves every live counter, now and later.
live-sweep :
    (now later : ℕ) (k : String) (l : Limiter)
    → IsKeyed counter_key l.counters
    → now ≤ later
    → live (sweep now l) later k ≡ live l later k
unfolding sweep
live-sweep now later k l m h = ground (arith, find-sweep now k l.counters m)

module _ (key : String) (now : ℕ) (l : Limiter) where
  -- A call, on the counter that the map holds.
  spend_lem :
      (o : Option Counter) (k : String) (later : ℕ)
      → now ≤ later
      → find counter_key key l.counters ≡ o
      → ((spend key now l o).1 ≡ admits l (unless_over now o))
        × (live (spend key now l o).0 later k ≡ (
            if k == key
            then unless_over later (some (spent key now l (unless_over now o)))
            else live l later k))
  unfolding spend
  spend_lem none k later h e =
      ground (arith, find-store k (fresh_counter key now l) l.counters, eq_iff k key)
  spend_lem (some c) k later h e = ground (
    arith,
    find-store k (fresh_counter key now l) l.counters,
    find-store k (record c { key = key; n = c.n + 1 }) l.counters,
    eq_iff k key,
  )

swept_same :
    (now : ℕ) (l : Limiter) → ((sweep now l).max ≡ l.max) × ((sweep now l).window ≡ l.window)
unfolding sweep
swept_same now l = ground arith

-- The limiter keeps for each key what one that never sweeps would keep, and answers by it: a call
-- is admitted unless the key's window is open and full; it opens a window, or counts in the open
-- one, and no other key's counter changes. The map holds each key once.
pub allow_lem :
    (key : String) (now : ℕ) (l : Limiter) (k : String) (later : ℕ)
    → IsKeyed counter_key l.counters
    → now ≤ later
    → ((allow key now l).1 ≡ admits l (live l now key))
      × (live (allow key now l).0 later k ≡ (
          if k == key
          then unless_over later (some (spent key now l (live l now key)))
          else live l later k))
unfolding allow
allow_lem key now l k later m h = ground (
  arith,
  spend_lem key now (sweep now l) (find counter_key key (sweep now l).counters) k later h refl,
  live-sweep now now key l m (omega arith),
  live-sweep now later k l m h,
  swept_same now l,
)
