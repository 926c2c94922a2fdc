-- ===== src/Limit/Buckets.antt =====
-- internal/api/rate_limit.go: `authRateLimit(limit, window)`. Times are numbers, in the unit of `window`;
-- a request is handled in one step, as the lock is held.
use opsup.Prelude.{
  ℕ, suc, ◌+◌, String, Bool, true, false, ◌&&◌, ◌||◌, Option, none, some, List, [], ◌∷◌, length,
  ltb, leb, str_eq, if◌then◌else◌,
}

-- `bucket`, and `clients` by the address.
pub record Bucket : Type 0 where
  pub until : ℕ
  pub count : ℕ

abbrev pub Clients : Type 0
Clients = List (String × Bucket)

abbrev pub max_clients : ℕ
max_clients = 4096

-- The loop that deletes what `now` is not before.
unfoldable pub expire : ℕ → Clients → Clients
expire now [] = []
expire now ((ip, b) ∷ cs) =
    let rest = expire now cs in if ltb now b.until then (ip, b) ∷ rest else rest

-- `clients[ip]`
unfoldable pub lookup : String → Clients → Option Bucket
lookup ip [] = none
lookup ip ((k, b) ∷ cs) = let further = lookup ip cs in if str_eq k ip then some b else further

-- `clients[ip] = value`
unfoldable pub put : String → Bucket → Clients → Clients
put ip v [] = (ip, v) ∷ []
put ip v ((k, b) ∷ cs) =
    let further = put ip v cs in if str_eq k ip then (k, v) ∷ cs else (k, b) ∷ further

-- From the look at the map on: whether the request goes on, and the map.
unfoldable pub admit : ℕ → ℕ → ℕ → String → Option Bucket → Clients → Bool × Clients
unfolding put
admit limit window now ip none cs =
    if leb limit 0 || leb max_clients (length cs)
    then (false, cs)
    else (true, put ip (record { until = now + window; count = 1 }) cs)
admit limit window now ip (some b) cs =
    if leb limit b.count then (false, cs) else (true, put ip (record b { count = suc b.count }) cs)

-- The handler, for a request from this address at this time.
unfoldable pub attempt : ℕ → ℕ → ℕ → String → Clients → Bool × Clients
unfolding expire lookup admit
attempt limit window now ip clients =
    let live = expire now clients in admit limit window now ip (lookup ip live) live

-- The map after some requests, with their times and addresses; and how many from one address go on.
unfoldable pub after : ℕ → ℕ → List (ℕ × String) → Clients → Clients
unfolding attempt
after limit window [] cs = cs
after limit window ((now, ip) ∷ es) cs = after limit window es (attempt limit window now ip cs).1

unfoldable pub passes : ℕ → ℕ → String → List (ℕ × String) → Clients → ℕ
unfolding attempt
passes limit window who [] cs = 0
passes limit window who ((now, ip) ∷ es) cs =
    let (goes_on, next) = attempt limit window now ip cs in
    let later = passes limit window who es next in
    if goes_on && str_eq ip who then suc later else later
