-- ===== src/Tabs/Life.antt =====
-- The tabs over the life of the workspace.
use opsup.Prelude.{
  ℕ, zero, suc, ◌≡◌, ◌≢◌, refl, subst, ◌∙◌, inl, inr, true, none, some, List, [], ◌∷◌, ◌++◌, arith,
  All, All-append, Bool-cases, Option-cases, get_elem?, length,
}
use opsup.Types.{Server}
use opsup.Tabs.Workspace.{
  TabInfo, Workspace, first_workspace, key_eq, make_key, find_server, open_terminal, without,
  close_terminal, select, has_key, next_tab, close_tab, Arrow, target_index, press,
}
use opsup.Tabs.Keys.{key_eq_iff}
use opsup.Tabs.Laws.{
  Apart, Keyed, IsActive, has_key-IsActive, find_server-none, find_server-has_key, has_key-concat,
  Apart-concat, without-All, without-Apart, has_key-without, has_key-last_tab, next_tab-has_key,
}

pub record IsSound (w : Workspace) : Type 0 where
  pub apart : Apart w.tabs
  pub keyed : All Keyed w.tabs
  pub active : IsActive w.active_key w.tabs

open_terminal-IsSound :
    (s : Server) (now : ℕ) (w : Workspace) → IsSound w → IsSound (open_terminal s now w)
unfolding open_terminal
open_terminal-IsSound s now w v = elim (Option-cases (find_server s.id w.tabs)) [
  | inr (t, e) ↦
      rw (e, open_terminal)
        (record {
          apart = v.apart;
          keyed = v.keyed;
          active = has_key-IsActive t.key w.tabs (find_server-has_key s.id w.tabs t e).0;
        })
  | inl e ↦
      let t : TabInfo = record { key = make_key s.id now; server = s } in
      rw (e, open_terminal)
        (record {
          apart = Apart-concat w.tabs t v.apart (find_server-none s.id w.tabs e);
          keyed = All-append Keyed w.tabs (t ∷ []) v.keyed ((now, refl), tt);
          active = has_key-IsActive t.key (w.tabs ++ t ∷ []) (has_key-concat w.tabs t);
        })
]

pub close_terminal-tabs :
    (key : List ℕ) (w : Workspace) → (close_terminal key w).tabs ≡ without key w.tabs
unfolding close_terminal
close_terminal-tabs key w = go (without key w.tabs) refl
  where
    go :
        (ts : List TabInfo)
        → without key w.tabs ≡ ts
        → (close_terminal key w).tabs ≡ without key w.tabs
    go [] e = rw (e, close_terminal)
    go (t ∷ ts) e = rw (e, close_terminal)

kept-IsActive :
    (k key : List ℕ) (ts us : List TabInfo) (t : TabInfo)
    → without key ts ≡ t ∷ us
    → IsActive k ts
    → k ≢ key
    → has_key k (t ∷ us) ≡ true
unfolding without
kept-IsActive k key [] us t e a ne = absurd (cc e)
kept-IsActive k key (x ∷ xs) us t e a ne = rw (← e) (has_key-without k key (x ∷ xs) ne ∙ a)

closed-IsSound :
    (key : List ℕ) (w : Workspace) (ts : List TabInfo)
    → without key w.tabs ≡ ts
    → IsSound w
    → IsSound (close_terminal key w)
unfolding close_terminal
closed-IsSound key w [] e v =
    rw (e, close_terminal) (record { apart = tt; keyed = tt; active = refl })
closed-IsSound key w (t ∷ ts) e v =
    let apart : Apart (t ∷ ts) = subst Apart e (without-Apart key w.tabs v.apart) in
    let keyed : All Keyed (t ∷ ts) = subst (All Keyed) e (without-All Keyed key w.tabs v.keyed) in
    elim (Bool-cases (key_eq w.active_key key)) [
      | inl hit ↦
          rw (e, hit, close_terminal)
            (record { apart = apart; keyed = keyed; active = has_key-last_tab t ts })
      | inr miss ↦
          rw (e, miss, close_terminal)
            (record {
              apart = apart;
              keyed = keyed;
              active =
                  kept-IsActive w.active_key key w.tabs ts t e v.active
                    (λ p. cc (miss, (key_eq_iff w.active_key key).1 p));
            })
    ]

close_terminal-IsSound : (key : List ℕ) (w : Workspace) → IsSound w → IsSound (close_terminal key w)
close_terminal-IsSound key w v = closed-IsSound key w (without key w.tabs) refl v

select-IsSound :
    (key : List ℕ) (w : Workspace) → has_key key w.tabs ≡ true → IsSound w → IsSound (select key w)
select-IsSound key w h v = record {
  apart = v.apart;
  keyed = v.keyed;
  active = has_key-IsActive key w.tabs h;
}

close_tab-IsSound : (key : List ℕ) (w : Workspace) → IsSound w → IsSound (close_tab key w)
unfolding close_tab
close_tab-IsSound key w v = elim (Option-cases (next_tab key w.tabs)) [
  | inl alone ↦ rw (alone, close_tab) (close_terminal-IsSound key w v)
  | inr (u, e) ↦
      let (there, other) = next_tab-has_key key w.tabs u v.apart v.keyed e in
      rw (e, close_tab)
        (select-IsSound u.key (close_terminal key w)
          (rw (close_terminal-tabs key w) (has_key-without u.key key w.tabs other ∙ there))
          (close_terminal-IsSound key w v))
]

get_elem?-has_key :
    (ts : List TabInfo) (i : ℕ) (t : TabInfo) → get_elem? ts i ≡ some t → has_key t.key ts ≡ true
unfolding has_key
get_elem?-has_key [] i t e = absurd (cc e)
get_elem?-has_key (x ∷ xs) zero t e = ground (arith, (key_eq_iff t.key t.key).1 refl)
get_elem?-has_key (x ∷ xs) (suc i) t e = ground (arith, get_elem?-has_key xs i t e)

press-IsSound : (a : Arrow) (i : ℕ) (w : Workspace) → IsSound w → IsSound (press a i w)
unfolding press
press-IsSound a i w v = elim (Option-cases (get_elem? w.tabs (target_index a i (length w.tabs)))) [
  | inl none_there ↦ rw (none_there, press) v
  | inr (t, e) ↦ rw (e, press) (select-IsSound t.key w (get_elem?-has_key w.tabs _ t e) v)
]

-- What a user does to the workspace: connects to a server at some time, closes a tab, clicks the
-- label of a tab, or presses a key on it.
pub data Action : Type 0 where
  opens : Server → ℕ → Action
  closes : List ℕ → Action
  clicks : ℕ → Action
  presses : Arrow → ℕ → Action

unfoldable pub act : Action → Workspace → Workspace
act (opens server now) w = open_terminal server now w
act (closes key) w = close_tab key w
act (clicks i) w = elim (get_elem? w.tabs i) [ none ↦ w | some t ↦ select t.key w ]
act (presses arrow i) w = press arrow i w

unfoldable pub run : List Action → Workspace → Workspace
run [] w = w
run (a ∷ rest) w = run rest (act a w)

act-IsSound : (a : Action) (w : Workspace) → IsSound w → IsSound (act a w)
unfolding act
act-IsSound (opens server now) w v = open_terminal-IsSound server now w v
act-IsSound (closes key) w v = close_tab-IsSound key w v
act-IsSound (clicks i) w v = elim (Option-cases (get_elem? w.tabs i)) [
  | inl none_there ↦ rw (none_there, act) v
  | inr (t, e) ↦ rw (e, act) (select-IsSound t.key w (get_elem?-has_key w.tabs i t e) v)
]
act-IsSound (presses arrow i) w v = press-IsSound arrow i w v

run-IsSound : (todo : List Action) (w : Workspace) → IsSound w → IsSound (run todo w)
unfolding run
run-IsSound [] w v = v
run-IsSound (a ∷ rest) w v = run-IsSound rest (act a w) (act-IsSound a w v)

-- After any sequence of opened and closed tabs, clicks and arrow keys: no two tabs are of one
-- server, each tab has a key made for its server, and the active key is that of a tab, or empty
-- where there is no tab.
pub run-first_workspace-IsSound : (todo : List Action) → IsSound (run todo first_workspace)
run-first_workspace-IsSound todo =
    run-IsSound todo first_workspace (record { apart = tt; keyed = tt; active = refl })

kept_active :
    (key k : List ℕ) (w : Workspace) (ts : List TabInfo)
    → without key w.tabs ≡ ts
    → has_key k ts ≡ true
    → w.active_key ≢ key
    → (close_terminal key w).active_key ≡ w.active_key
unfolding close_terminal has_key
kept_active key k w [] e h ne = absurd (cc h)
kept_active key k w (t ∷ ts) e h ne = elim (Bool-cases (key_eq w.active_key key)) [
  | inl hit ↦ absurd (ne ((key_eq_iff w.active_key key).0 hit))
  | inr miss ↦ rw (e, miss, close_terminal)
]

-- In a sound workspace, closing a tab that is not active, where `closeTab` finds a neighbour `u`:
-- `closeTerminal` leaves the active tab as it is, and `closeTab` then selects `u`, whichever tab
-- was active.
pub closing_other_moves :
    (key : List ℕ) (w : Workspace) (u : TabInfo)
    → IsSound w
    → w.active_key ≢ key
    → next_tab key w.tabs ≡ some u
    → ((close_terminal key w).active_key ≡ w.active_key) × ((close_tab key w).active_key ≡ u.key)
unfolding close_tab
closing_other_moves key w u v ne e =
    let (there, other) = next_tab-has_key key w.tabs u v.apart v.keyed e in
    (
      kept_active key u.key w (without key w.tabs) refl
          (has_key-without u.key key w.tabs other ∙ there) ne,
      rw (e, close_tab),
    )
