-- ===== src/Terminal/Timers.antt =====
-- The pending timers of a connection.
use opsup.Prelude.{
  ℕ, suc, ◌≤◌, ◌<◌, ◌≡◌, ◌≢◌, refl, none, some, Option, List, [], ◌∷◌, ◌++◌, arith, ◌==◌,
  if◌then◌else◌,
}
use opsup.Terminal.State.{Task, pumps, resizes, find_timer, remove_timer, clear_timer}

abbrev pub or_else : Option Task → Option Task → Option Task
or_else none o = o
or_else (some t) o = some t

pub find_timer-append :
    (t : ℕ) (ts : List (ℕ × Task)) (u : ℕ) (task : Task)
    → find_timer t (ts ++ (u, task) ∷ [])
      ≡ or_else (find_timer t ts) (if u == t then some task else none)
unfolding find_timer
find_timer-append t [] u task = refl
find_timer-append t ((x, k) ∷ ts) u task = ground (arith, find_timer-append t ts u task)

pub find_timer-remove_timer :
    (t u : ℕ) (ts : List (ℕ × Task))
    → find_timer t (remove_timer u ts) ≡ (if u == t then none else find_timer t ts)
unfolding find_timer remove_timer
find_timer-remove_timer t u [] = ground arith
find_timer-remove_timer t u ((x, k) ∷ ts) = ground (arith, find_timer-remove_timer t u ts)

-- The timers below `next` are all that there are, and the resize timer is none of the pump's.
pub record TimersOk (ts : List (ℕ × Task)) (next : ℕ) (resize : Option ℕ) : Type 0 where
  pub unused : (t : ℕ) → next ≤ t → find_timer t ts ≡ none
  pub resize_old : (t : ℕ) → resize ≡ some t → t < next
  pub resize_apart : (t : ℕ) → resize ≡ some t → find_timer t ts ≢ some pumps

-- While a pump timer is noted it is pending.
abbrev pub Armed : List (ℕ × Task) → Option ℕ → Type 0
Armed ts pump = (t : ℕ) → pump ≡ some t → find_timer t ts ≡ some pumps

module _ (ts : List (ℕ × Task)) (next : ℕ) (resize : Option ℕ) (v : TimersOk ts next resize) where
  pub append-TimersOk : (k : Task) → TimersOk (ts ++ (next, k) ∷ []) (suc next) resize
  append-TimersOk k = record {
    unused = λ t h. ground (arith, v.unused t, find_timer-append t ts next k);
    resize_old = λ t e. ground (arith, v.resize_old t e);
    resize_apart =
        λ t e. ground (arith, v.resize_old t e, v.resize_apart t e, find_timer-append t ts next k);
  }

  pub remove-TimersOk : (u : ℕ) → TimersOk (remove_timer u ts) next resize
  remove-TimersOk u = record {
    unused = λ t h. ground (arith, v.unused t h, find_timer-remove_timer t u ts);
    resize_old = v.resize_old;
    resize_apart = λ t e. ground (arith, v.resize_apart t e, find_timer-remove_timer t u ts);
  }

  -- A new resize timer.
  pub renew-TimersOk : TimersOk (ts ++ (next, resizes) ∷ []) (suc next) (some next)
  renew-TimersOk = record {
    unused = λ t h. ground (arith, v.unused t, find_timer-append t ts next resizes);
    resize_old = λ t e. ground arith;
    resize_apart = λ t e. ground (arith, v.unused t, find_timer-append t ts next resizes);
  }

  pub append-Armed :
      (k : Task) (pump : Option ℕ) → Armed ts pump → Armed (ts ++ (next, k) ∷ []) pump
  append-Armed k pump a = λ t e. ground (arith, a t e, find_timer-append t ts next k)

  pub remove-Armed :
      (u : ℕ) (pump : Option ℕ)
      → find_timer u ts ≢ some pumps
      → Armed ts pump
      → Armed (remove_timer u ts) pump
  remove-Armed u pump other a = λ t e. ground (arith, a t e, find_timer-remove_timer t u ts)

  -- A new pump timer.
  pub renew-Armed : Armed (ts ++ (next, pumps) ∷ []) (some next)
  renew-Armed = λ t e. ground (arith, v.unused t, find_timer-append t ts next pumps)

pub clear-TimersOk :
    (ts : List (ℕ × Task)) (next : ℕ) (resize : Option ℕ)
    → TimersOk ts next resize
    → TimersOk (clear_timer resize ts) next resize
unfolding clear_timer
clear-TimersOk ts next none v = v
clear-TimersOk ts next (some r) v = remove-TimersOk ts next (some r) v r

pub clear-Armed :
    (ts : List (ℕ × Task)) (next : ℕ) (resize pump : Option ℕ)
    → TimersOk ts next resize
    → Armed ts pump
    → Armed (clear_timer resize ts) pump
unfolding clear_timer
clear-Armed ts next none pump v a = a
clear-Armed ts next (some r) pump v a =
    remove-Armed ts next (some r) v r pump (v.resize_apart r refl) a
