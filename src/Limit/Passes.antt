-- ===== src/Limit/Passes.antt =====
-- How many attempts from one address go on.
use text.Mathlib.TextEquality.{eq_iff}
use opsup.Prelude.{
  ℕ, suc, ◌+◌, ◌-◌, ◌*◌, ◌≤◌, ◌<◌, ◌≡◌, ◌≢◌, refl, sym, ap, subst, ◌∙◌, inl, inr, String, Bool,
  false, ◌&&◌, ◌||◌, Option, none, some, List, [], ◌∷◌, arith, All, All-weaken, Bool-cases, if_rule,
  length, ltb, leb, str_eq, if◌then◌else◌,
}
use opsup.Limit.Buckets.{
  Bucket, Clients, max_clients, expire, lookup, put, admit, attempt, after, passes,
}

-- The addresses of the map are different.
abbrev Others : String → Clients → Type 0
Others ip cs = All (λ (e : String × Bucket). e.0 ≢ ip) cs

abbrev pub Distinct : Clients → Type 0
Distinct [] = Unit
Distinct ((ip, b) ∷ cs) = Others ip cs × Distinct cs

-- An entry lives on or goes.
abbrev live : ℕ → Option Bucket → Option Bucket
live now none = none
live now (some b) = if ltb now b.until then some b else none

lookup-Others : (ip : String) (cs : Clients) → Others ip cs → lookup ip cs ≡ none
unfolding lookup
lookup-Others ip [] h = refl
lookup-Others ip ((k, b) ∷ cs) h = ground (arith, h.0, eq_iff k ip, lookup-Others ip cs h.1)

expire-Others : (now : ℕ) (ip : String) (cs : Clients) → Others ip cs → Others ip (expire now cs)
unfolding expire
expire-Others now ip [] h = tt
expire-Others now ip ((k, b) ∷ cs) h =
    let rest = expire-Others now ip cs h.1 in
    if_rule (Others ip) (ltb now b.until) _ _ (λ _. (h.0, rest)) (λ _. rest)

expire-Distinct : (now : ℕ) (cs : Clients) → Distinct cs → Distinct (expire now cs)
unfolding expire
expire-Distinct now [] d = tt
expire-Distinct now ((k, b) ∷ cs) d =
    let rest = expire-Distinct now cs d.1 in
    if_rule Distinct (ltb now b.until) _ _ (λ _. (expire-Others now k cs d.0, rest)) (λ _. rest)

lookup-expire :
    (now : ℕ) (ip : String) (cs : Clients)
    → Distinct cs
    → lookup ip (expire now cs) ≡ live now (lookup ip cs)
unfolding lookup expire
lookup-expire now ip [] d = refl
lookup-expire now ip ((k, b) ∷ cs) d = elim (Bool-cases (str_eq k ip)) [
  | inl same ↦
      let gone : lookup ip (expire now cs) ≡ none =
        lookup-Others ip (expire now cs)
          (expire-Others now ip cs (subst (λ x. Others x cs) ((eq_iff k ip).0 same) d.0)) in
      ground (arith, same, gone)
  | inr other ↦ ground (arith, other, lookup-expire now ip cs d.1)
]

put-Others :
    (who ip : String) (v : Bucket) (cs : Clients)
    → ip ≢ who
    → Others who cs
    → Others who (put ip v cs)
unfolding put
put-Others who ip v [] n h = (n, tt)
put-Others who ip v ((k, b) ∷ cs) n h =
    let further = put-Others who ip v cs n h.1 in
    if_rule (Others who) (str_eq k ip) _ _ (λ _. h) (λ _. (h.0, further))

put-Distinct : (ip : String) (v : Bucket) (cs : Clients) → Distinct cs → Distinct (put ip v cs)
unfolding put
put-Distinct ip v [] d = (tt, tt)
put-Distinct ip v ((k, b) ∷ cs) d =
    let further = put-Distinct ip v cs d.1 in
    if_rule Distinct (str_eq k ip) _ _ (λ _. d)
      (λ other. (
        put-Others k ip v cs (λ e. absurd (ground (arith, other, eq_iff k ip, sym e))) d.0,
        further,
      ))

lookup_same-put : (ip : String) (v : Bucket) (cs : Clients) → lookup ip (put ip v cs) ≡ some v
unfolding lookup put
lookup_same-put ip v [] = ground (arith, eq_iff ip ip)
lookup_same-put ip v ((k, b) ∷ cs) = ground (arith, lookup_same-put ip v cs)

lookup_other-put :
    (who ip : String) (v : Bucket) (cs : Clients)
    → str_eq ip who ≡ false
    → lookup who (put ip v cs) ≡ lookup who cs
unfolding lookup put
lookup_other-put who ip v [] n = ground (arith, n)
lookup_other-put who ip v ((k, b) ∷ cs) n = elim (Bool-cases (str_eq k ip)) [
  | inl same ↦
      let apart : str_eq k who ≡ false = ap (λ x. str_eq x who) ((eq_iff k ip).0 same) ∙ n in
      ground (arith, same, apart)
  | inr other ↦ ground (arith, other, lookup_other-put who ip v cs n)
]

module _ (limit window : ℕ) where
  admit-Distinct :
      (now : ℕ) (ip : String) (o : Option Bucket) (cs : Clients)
      → Distinct cs
      → Distinct (admit limit window now ip o cs).1
  unfolding admit
  admit-Distinct now ip none cs d =
      if_rule (λ (r : Bool × Clients). Distinct r.1) (leb limit 0 || leb max_clients (length cs)) _
        _ (λ _. d) (λ _. put-Distinct ip (record { until = now + window; count = 1 }) cs d)
  admit-Distinct now ip (some b) cs d =
      if_rule (λ (r : Bool × Clients). Distinct r.1) (leb limit b.count) _ _ (λ _. d)
        (λ _. put-Distinct ip (record b { count = suc b.count }) cs d)

  attempt-Distinct :
      (now : ℕ) (ip : String) (cs : Clients)
      → Distinct cs
      → Distinct (attempt limit window now ip cs).1
  unfolding attempt
  attempt-Distinct now ip cs d =
      let rest = expire now cs in
      admit-Distinct now ip (lookup ip rest) rest (expire-Distinct now cs d)

  after-Distinct :
      (es : List (ℕ × String)) (cs : Clients) → Distinct cs → Distinct (after limit window es cs)
  unfolding after
  after-Distinct [] cs d = d
  after-Distinct ((now, ip) ∷ es) cs d =
      after-Distinct es (attempt limit window now ip cs).1 (attempt-Distinct now ip cs d)

  -- How many attempts may still go on before `end`, for an address with this entry: a bucket that ends
  -- before it may be followed by one more.
  abbrev budget : ℕ → Option Bucket → ℕ
  budget end none = limit
  budget end (some b) = if ltb b.until end then (limit - b.count) + limit else limit - b.count

  live-budget :
      (now end : ℕ) (o : Option Bucket) → now < end → budget end (live now o) ≤ budget end o
  live-budget now end none h = omega arith
  live-budget now end (some b) h = ground (arith, h)

  -- What a request from the address itself leaves of the budget.
  admit_same-budget :
      (now end : ℕ) (ip : String) (o : Option Bucket) (cs : Clients)
      → lookup ip cs ≡ o
      → end ≤ now + window
      → let (goes_on, next) = admit limit window now ip o cs in
        (if goes_on then 1 else 0) + budget end (lookup ip next) ≤ budget end o
  unfolding admit
  admit_same-budget now end ip none cs e h =
      let new = lookup_same-put ip (record { until = now + window; count = 1 }) cs in
      if_rule (λ (r : Bool × Clients). (if r.0 then 1 else 0) + budget end (lookup ip r.1) ≤ limit)
        (leb limit 0 || leb max_clients (length cs)) _ _ (λ _. rw e (omega arith))
        (λ on. rw new (ground (arith, on, h)))
  admit_same-budget now end ip (some b) cs e h =
      let new = lookup_same-put ip (record b { count = suc b.count }) cs in
      if_rule
        (λ (r : Bool × Clients).
          (if r.0 then 1 else 0) + budget end (lookup ip r.1) ≤ budget end (some b))
        (leb limit b.count) _ _ (λ _. rw e (omega arith)) (λ on. rw new (ground (arith, on)))

  admit_other-lookup :
      (now : ℕ) (who ip : String) (o : Option Bucket) (cs : Clients)
      → str_eq ip who ≡ false
      → lookup who (admit limit window now ip o cs).1 ≡ lookup who cs
  unfolding admit
  admit_other-lookup now who ip none cs n =
      if_rule (λ (r : Bool × Clients). lookup who r.1 ≡ lookup who cs)
        (leb limit 0 || leb max_clients (length cs)) _ _ (λ _. refl)
        (λ _. lookup_other-put who ip (record { until = now + window; count = 1 }) cs n)
  admit_other-lookup now who ip (some b) cs n =
      if_rule (λ (r : Bool × Clients). lookup who r.1 ≡ lookup who cs) (leb limit b.count) _ _
        (λ _. refl) (λ _. lookup_other-put who ip (record b { count = suc b.count }) cs n)

  -- One request, from any address, before `end` and less than a window away from it.
  attempt-budget :
      (now end : ℕ) (who ip : String) (cs : Clients)
      → Distinct cs
      → now < end
      → end ≤ now + window
      → let (goes_on, next) = attempt limit window now ip cs in
        (if goes_on && str_eq ip who then 1 else 0) + budget end (lookup who next)
        ≤ budget end (lookup who cs)
  unfolding attempt
  attempt-budget now end who ip cs d early near = elim (Bool-cases (str_eq ip who)) [
    | inl same ↦ subst Spends ((eq_iff ip who).0 same) own
    | inr other ↦
        let kept = admit_other-lookup now who ip (lookup ip rest) rest other in
        rw kept (ground (arith, other, lives who))
  ]
    where
      rest : Clients
      rest = expire now cs

      Spends : String → Type 0
      Spends w =
          let (goes_on, next) = attempt limit window now ip cs in
          (if goes_on && str_eq ip w then 1 else 0) + budget end (lookup w next)
          ≤ budget end (lookup w cs)

      lives : (w : String) → budget end (lookup w rest) ≤ budget end (lookup w cs)
      lives w = rw (lookup-expire now w cs d) (live-budget now end (lookup w cs) early)

      own : Spends ip
      own =
          let spent = admit_same-budget now end ip (lookup ip rest) rest refl near in
          ground (arith, (eq_iff ip ip).1 refl, spent, lives ip)

  passes-budget :
      (end : ℕ) (who : String) (es : List (ℕ × String)) (cs : Clients)
      → Distinct cs
      → All (λ (e : ℕ × String). (e.0 < end) × (end ≤ e.0 + window)) es
      → passes limit window who es cs ≤ budget end (lookup who cs)
  unfolding passes
  passes-budget end who [] cs d h = omega arith
  passes-budget end who ((now, ip) ∷ es) cs d h =
      let next = (attempt limit window now ip cs).1 in
      let step = attempt-budget now end who ip cs d h.0.0 h.0.1 in
      let later = passes-budget end who es next (attempt-Distinct now ip cs d) h.1 in
      ground (arith, step, later)

  budget-bound : (end : ℕ) (o : Option Bucket) → budget end o ≤ 2 * limit
  budget-bound end none = omega arith
  budget-bound end (some b) = ground arith

  -- After any requests, at any times: of those that follow within one window of time, at most twice the
  -- limit from one address go on.
  pub passes-bound :
      (before es : List (ℕ × String)) (start : ℕ) (who : String)
      → All (λ (e : ℕ × String). (start ≤ e.0) × (e.0 < start + window)) es
      → passes limit window who es (after limit window before []) ≤ 2 * limit
  passes-bound before es start who h =
      let clients = after limit window before [] in
      let spent = passes-budget (start + window) who es clients (after-Distinct before [] tt) (
        All-weaken (λ (e : ℕ × String). (start ≤ e.0) × (e.0 < start + window))
          (λ (e : ℕ × String). (e.0 < start + window) × (start + window ≤ e.0 + window)) es
          (λ e k. (k.1, omega (arith, k.0))) h) in
      omega (arith, spent, budget-bound (start + window) (lookup who clients))
