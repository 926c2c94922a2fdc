-- ===== src/Servers/Shells.antt =====
-- What the list of servers does to a desktop, and what it deletes.
use opsup.Prelude.{
  ◌≡◌, refl, subst, sym, Bool, true, false, Bool-cases, Option, none, some, List, [], ◌∷◌, ◌++◌,
  append_assoc, append-nil, ◌⊎◌, inl, inr, arith, if◌then◌else◌,
}
use opsup.Types.{Server, is_rdp}
use opsup.Servers.Actions.{
  Call, lists, connects, tests, asks, deletes, ServerList, Item, connect, files, test, edit, delete,
  offers, calls, mount, fetched, choose, TestAnswer, success, failure, threw, tested, confirm,
  deleted, modal_ok, modal_cancel, Event, answers, chooses, clicks_files, adds, test_answers,
  confirms, delete_answers, oks, cancels, closes_files, react, run,
}

abbrev IsShell : Server → Type 0
IsShell s = is_rdp s.protocol ≡ false

-- A question about the server is among the calls.
abbrev Asks : Server → List Call → Type 0
Asks s [] = ⊥
Asks s (c ∷ cs) = (c ≡ asks s) ⊎ Asks s cs

-- A call that may come after the earlier ones.
abbrev May : List Call → Call → Type 0
May earlier (tests s) = IsShell s
May earlier (deletes s) = Asks s earlier
May earlier _ = Unit

abbrev pub AllMay : List Call → List Call → Type 0
AllMay earlier [] = Unit
AllMay earlier (c ∷ cs) = May earlier c × AllMay (earlier ++ c ∷ []) cs

AllMay-append :
    (earlier xs ys : List Call)
    → AllMay earlier xs
    → AllMay (earlier ++ xs) ys
    → AllMay earlier (xs ++ ys)
AllMay-append earlier [] ys hx hy = subst (λ e. AllMay e ys) (append-nil earlier) hy
AllMay-append earlier (x ∷ xs) ys hx hy = (
  hx.0,
  AllMay-append (earlier ++ x ∷ []) xs ys hx.1
      (subst (λ e. AllMay e ys) (sym (append_assoc earlier (x ∷ []) xs)) hy),
)

Asks-append : (s : Server) (xs ys : List Call) → (Asks s xs ⊎ Asks s ys) → Asks s (xs ++ ys)
Asks-append s [] ys (inl h) = elim h [ ]
Asks-append s [] ys (inr h) = h
Asks-append s (x ∷ xs) ys (inl (inl h)) = inl h
Asks-append s (x ∷ xs) ys (inl (inr h)) = inr (Asks-append s xs ys (inl h))
Asks-append s (x ∷ xs) ys (inr h) = inr (Asks-append s xs ys (inr h))

abbrev pub EachIs : (Server → Type 0) → Option Server → Type 0
EachIs P none = Unit
EachIs P (some s) = P s

-- What holds of the list: the calls that were made, the server whose files are shown, the one that is
-- asked about, and that only an open form edits a server.
abbrev pub IsSound : ServerList → Type 0
IsSound l =
    AllMay [] l.made
    × EachIs IsShell l.file_manager_server
    × EachIs (λ s. Asks s l.made) l.asking
    × ((l.modal_open ≡ true) ⊎ (l.editing ≡ none))

still_asked :
    (asking : Option Server) (xs ys : List Call)
    → EachIs (λ s. Asks s xs) asking
    → EachIs (λ s. Asks s (xs ++ ys)) asking
still_asked none xs ys h = tt
still_asked (some s) xs ys h = Asks-append s xs ys (inl h)

calls-IsSound :
    (cs : List Call) (l : ServerList) → AllMay l.made cs → IsSound l → IsSound (calls cs l)
calls-IsSound cs l m (a, f, q, e) =
    (AllMay-append [] l.made cs a m, f, still_asked l.asking l.made cs q, e)

choose-IsSound :
    (item : Item) (s : Server) (l : ServerList)
    → offers s item ≡ true
    → IsSound l
    → IsSound (choose item s l)
unfolding choose offers
choose-IsSound connect s l o h = calls-IsSound (connects s ∷ []) l (tt, tt) h
choose-IsSound files s l o (a, f, q, e) = (a, ground arith, q, e)
choose-IsSound test s l o h = calls-IsSound (tests s ∷ []) l (ground arith, tt) h
choose-IsSound edit s l o (a, f, q, e) = (a, f, q, inl refl)
choose-IsSound delete s l o (a, f, q, e) = (
  AllMay-append [] l.made (asks s ∷ []) a (tt, tt),
  f,
  Asks-append s l.made (asks s ∷ []) (inr (inl refl)),
  e,
)

tested-IsSound : (a : TestAnswer) (l : ServerList) → IsSound l → IsSound (tested a l)
unfolding tested
tested-IsSound success l h = calls-IsSound _ l (tt, tt) h
tested-IsSound (failure error) l h = calls-IsSound _ l (tt, tt) h
tested-IsSound (threw none) l h = calls-IsSound _ l (tt, tt) h
tested-IsSound (threw (some error)) l h = calls-IsSound _ l (tt, tt) h

confirm-IsSound : (ok : Bool) (l : ServerList) → IsSound l → IsSound (confirm ok l)
unfolding confirm
confirm-IsSound ok l (a, f, was, e) = go l.asking was ok
  where
    go :
        (asking : Option Server)
        → EachIs (λ s. Asks s l.made) asking
        → (ok : Bool)
        → IsSound (elim asking [
          | none ↦ l
          | some s ↦
              if ok
              then calls (deletes s ∷ []) (record l { asking = none })
              else record l { asking = none }
        ])
    go none q ok = (a, f, was, e)
    go (some s) q true =
        calls-IsSound (deletes s ∷ []) (record l { asking = none }) (q, tt) (a, f, tt, e)
    go (some s) q false = (a, f, tt, e)

fetched-IsSound :
    (a : Option (Option (List Server))) (l : ServerList) → IsSound l → IsSound (fetched a l)
unfolding fetched
fetched-IsSound none l h = h
fetched-IsSound (some none) l h = h
fetched-IsSound (some (some ss)) l h = h

react-IsSound : (x : Event) (l : ServerList) → IsSound l → IsSound (react x l)
unfolding react deleted modal_ok modal_cancel
react-IsSound (answers a) l h = fetched-IsSound a l h
react-IsSound (chooses item s) l h = elim (Bool-cases (offers s item)) [
  | inl o ↦ rw o (choose-IsSound item s l o h)
  | inr o ↦ rw o h
]
react-IsSound (clicks_files s) l (a, f, q, e) = elim (Bool-cases (is_rdp s.protocol)) [
  | inl o ↦ rw o (a, f, q, e)
  | inr o ↦ rw o (a, o, q, e)
]
react-IsSound adds l (a, f, q, e) = (a, f, q, inl refl)
react-IsSound (test_answers a) l h = tested-IsSound a l h
react-IsSound (confirms ok) l h = confirm-IsSound ok l h
react-IsSound delete_answers l h = calls-IsSound _ l (tt, (tt, tt)) h
react-IsSound oks l (a, f, q, e) = (
  AllMay-append [] l.made (lists ∷ []) a (tt, tt),
  f,
  still_asked l.asking l.made (lists ∷ []) q,
  inr refl,
)
react-IsSound cancels l (a, f, q, e) = (a, f, q, inr refl)
react-IsSound closes_files l (a, f, q, e) = (a, tt, q, e)

run-IsSound : (es : List Event) (l : ServerList) → IsSound l → IsSound (run es l)
unfolding run
run-IsSound [] l h = h
run-IsSound (e ∷ es) l h = run-IsSound es (react e l) (react-IsSound e l h)

-- Whatever the user chooses and the API answers, in any order, since the list was mounted: only a
-- shell's connection was tested, each deletion came after a question about that server, the files shown
-- are a shell's, and a server is edited only while the form is open.
pub run-mount-IsSound : (es : List Event) → IsSound (run es mount)
unfolding mount
run-mount-IsSound es = run-IsSound es mount ((tt, tt), tt, tt, inr refl)
