-- ===== src/Tabs/Status.antt =====
-- ui/src/components/TerminalTabs.tsx, lines 20 to 30 and 63: the status of each tab, as its session
-- reports it. The functions in `callbacks` are all one function of the key.
use opsup.Prelude.{
  Bool, true, false, ◌≡◌, refl, sym, ap, ◌∙◌, ℕ, List, [], ◌∷◌, Option, none, some, inl, inr,
  Bool-cases, if◌then◌else◌, arith,
}
use opsup.Terminal.State.{Status, connecting, connected, error}
use opsup.Tabs.Workspace.{TabInfo, key_eq, has_key}
use opsup.Tabs.Keys.{key_eq_iff}

-- `statuses`, by the keys of its entries.
abbrev pub Statuses : Type 0
Statuses = List (List ℕ × Status)

-- `statuses[key]`
unfoldable pub find_status : List ℕ → Statuses → Option Status
find_status key [] = none
find_status key ((k, s) ∷ rest) =
    let further = find_status key rest in if key_eq k key then some s else further

-- `{ ...previous, [key]: status }`
unfoldable pub put : List ℕ → Status → Statuses → Statuses
put key s [] = (key, s) ∷ []
put key s ((k, old) ∷ rest) =
    let further = put key s rest in if key_eq k key then (key, s) ∷ rest else (k, old) ∷ further

abbrev pub same_status : Status → Status → Bool
same_status connecting connecting = true
same_status connected connected = true
same_status error error = true
same_status _ _ = false

-- What the callback of a key does.
unfoldable pub report : List ℕ → Status → Statuses → Statuses
report key s previous = elim (find_status key previous) [
  | none ↦ put key s previous
  | some old ↦ if same_status old s then previous else put key s previous
]

-- The effect on the tabs: `entries.filter(([key]) => keys.has(key))`.
unfoldable pub prune : List TabInfo → Statuses → Statuses
prune tabs [] = []
prune tabs ((k, s) ∷ rest) =
    let kept = prune tabs rest in if has_key k tabs then (k, s) ∷ kept else kept

-- `statuses[tab.key] || 'connecting'`
abbrev pub or_connecting : Option Status → Status
or_connecting none = connecting
or_connecting (some s) = s

unfoldable pub status_of : List ℕ → Statuses → Status
status_of key st = or_connecting (find_status key st)

pub data Event : Type 0 where
  reports : List ℕ → Status → Event
  changes : List TabInfo → Event

unfoldable pub react : Event → Statuses → Statuses
react (reports key s) st = report key s st
react (changes tabs) st = prune tabs st

unfoldable pub run : List Event → Statuses → Statuses
run [] st = st
run (e ∷ es) st = run es (react e st)

-- What one tab is to show: its last report since it was last missing among the tabs.
abbrev pub shows : List ℕ → Event → Status → Status
shows key (reports k s) now = if key_eq k key then s else now
shows key (changes tabs) now = if has_key key tabs then now else connecting

abbrev pub shows_all : List ℕ → List Event → Status → Status
shows_all key [] now = now
shows_all key (e ∷ es) now = shows_all key es (shows key e now)

find_status-put :
    (key k : List ℕ) (s : Status) (st : Statuses)
    → find_status key (put k s st) ≡ (if key_eq k key then some s else find_status key st)
unfolding find_status put
find_status-put key k s [] = refl
find_status-put key k s ((j, old) ∷ rest) = elim (Bool-cases (key_eq j k)) [
  | inl e ↦ ground (arith, e, ap (λ x. key_eq x key) ((key_eq_iff j k).0 e))
  | inr e ↦ ground (
    arith,
    e,
    find_status-put key k s rest,
    (key_eq_iff j key).0,
    (key_eq_iff k key).0,
    (key_eq_iff j k).1,
  )
]

same_status_eq : (s t : Status) → same_status s t ≡ true → s ≡ t
same_status_eq s t h = ground arith

or_connecting-if :
    (b : Bool) (s : Status) (o : Option Status)
    → or_connecting (if b then some s else o) ≡ (if b then s else or_connecting o)
or_connecting-if true s o = refl
or_connecting-if false s o = refl

status_of-put :
    (key k : List ℕ) (s : Status) (st : Statuses)
    → status_of key (put k s st) ≡ (if key_eq k key then s else status_of key st)
unfolding status_of
status_of-put key k s st =
    ap or_connecting (find_status-put key k s st)
    ∙ or_connecting-if (key_eq k key) s (find_status key st)

-- A report of what is there already changes nothing.
reported_again :
    (key k : List ℕ) (s old : Status) (st : Statuses)
    → find_status k st ≡ some old
    → same_status old s ≡ true
    → status_of key st ≡ (if key_eq k key then s else status_of key st)
unfolding status_of
reported_again key k s old st e d = by (key_eq k key) refl
  where
    by : (b : Bool) → key_eq k key ≡ b → status_of key st ≡ (if b then s else status_of key st)
    by false f = refl
    by true f =
        ap (λ x. status_of x st) (sym ((key_eq_iff k key).0 f))
        ∙ ap or_connecting e
        ∙ same_status_eq old s d

status_of-report :
    (key k : List ℕ) (s : Status) (st : Statuses)
    → status_of key (report k s st) ≡ (if key_eq k key then s else status_of key st)
unfolding report
status_of-report key k s st = by (find_status k st) refl
  where
    by :
        (found : Option Status)
        → find_status k st ≡ found
        → status_of key (elim found [
          | none ↦ put k s st
          | some old ↦ if same_status old s then st else put k s st
        ])
          ≡ (if key_eq k key then s else status_of key st)
    by none e = status_of-put key k s st
    by (some old) e = elim (Bool-cases (same_status old s)) [
      | inl d ↦ rw d (reported_again key k s old st e d)
      | inr d ↦ rw d (status_of-put key k s st)
    ]

has_key-same :
    (k key : List ℕ) (tabs : List TabInfo) → key_eq k key ≡ true → has_key k tabs ≡ has_key key tabs
has_key-same k key tabs e = ap (λ x. has_key x tabs) ((key_eq_iff k key).0 e)

find_status-prune :
    (key : List ℕ) (tabs : List TabInfo) (st : Statuses)
    → find_status key (prune tabs st) ≡ (if has_key key tabs then find_status key st else none)
unfolding find_status prune
find_status-prune key tabs [] = ground arith
find_status-prune key tabs ((k, s) ∷ rest) =
    ground (arith, find_status-prune key tabs rest, has_key-same k key tabs)

status_of-prune :
    (key : List ℕ) (tabs : List TabInfo) (st : Statuses)
    → status_of key (prune tabs st) ≡ (if has_key key tabs then status_of key st else connecting)
unfolding status_of
status_of-prune key tabs st =
    ap or_connecting (find_status-prune key tabs st) ∙ by (has_key key tabs)
  where
    by :
        (b : Bool)
        → or_connecting (if b then find_status key st else none)
          ≡ (if b then or_connecting (find_status key st) else connecting)
    by true = refl
    by false = refl

status_of-react :
    (key : List ℕ) (e : Event) (st : Statuses)
    → status_of key (react e st) ≡ shows key e (status_of key st)
unfolding react
status_of-react key (reports k s) st = status_of-report key k s st
status_of-react key (changes tabs) st = status_of-prune key tabs st

-- Whatever the sessions report and however the tabs change, in any order: the status shown for a key is
-- the last one reported for it since the key was last missing among the tabs, and `connecting` where
-- there is none. No report for another key changes it.
pub status_of-run :
    (key : List ℕ) (es : List Event) (st : Statuses)
    → status_of key (run es st) ≡ shows_all key es (status_of key st)
unfolding run
status_of-run key [] st = refl
status_of-run key (e ∷ es) st =
    status_of-run key es (react e st) ∙ ap (shows_all key es) (status_of-react key e st)
