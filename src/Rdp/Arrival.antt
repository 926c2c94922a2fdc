-- ===== src/Rdp/Arrival.antt =====
-- The messages on their way to the page of ui/src/rdp/client.ts, and what it will have by them.
use opsup.Prelude.{
  ◌≡◌, refl, sym, ap, subst, ◌⊎◌, inl, inr, Bool, true, false, Option, none, some, List, [], ◌∷◌,
  ◌++◌, arith, All, Option-cases,
}
use opsup.Types.{Server}
use opsup.Rdp.Client.{
  Page, Init, pin, resize, on_message, on_ready, on_submit, on_session, finish, on_end, on_failure,
  Event, messaged, submitted, react,
}
use opsup.Rdp.Target.{GoesTo, react-GoesTo}
use opsup.Rdp.Frame.{Posted, ready, status, is_own}

-- No server, or the tab's.
abbrev pub Pinned : Server → Option Server → Type 0
Pinned s none = Unit
Pinned s (some t) = t ≡ s

-- An event of the page itself, or a message about the server.
abbrev pub IsAbout : Server → Event → Type 0
IsAbout s (messaged trusted m) = m.server ≡ s
IsAbout s _ = Unit

pub react-own :
    (e : Event) (p : Page)
    → is_own e ≡ true
    → ((react e p).0.server ≡ p.server) × ((react e p).0.active ≡ p.active)
unfolding react on_message on_ready on_submit on_session on_end on_failure finish
react-own (messaged false m) p h = (refl, refl)
react-own (messaged true m) p h = absurd (cc h)
react-own (submitted is_https) p h = ground arith
react-own _ p h = ground arith

react-unpinned :
    (e : Event) (p : Page) (s : Server) → p.server ≡ none → All (GoesTo s) (react e p).1
unfolding react on_message on_ready on_submit on_session on_end on_failure resize
react-unpinned (messaged trusted m) p s h = ground arith
react-unpinned (submitted is_https) p s h = ground arith
react-unpinned _ p s h = ground arith

-- A pinned page, by its server.
Pinned-some : (s t : Server) (o : Option Server) → Pinned s o → o ≡ some t → o ≡ some s
Pinned-some s t none h e = absurd (cc e)
Pinned-some s t (some u) h e = ap some h

pub of_some : (s : Server) (o : Option Server) → o ≡ some s → Pinned s o
of_some s none e = tt
of_some s (some u) e = cc e

of_none : (s : Server) (o : Option Server) → o ≡ none → Pinned s o
of_none s none e = tt
of_none s (some u) e = absurd (cc e)

pin-server :
    (m : Init) (p : Page) (s : Server)
    → Pinned s p.server
    → m.server ≡ s
    → (pin m.server p).server ≡ some s
unfolding pin
pin-server m p s h a = elim (Option-cases p.server) [
  | inl e ↦ rw (e, pin) (ap some a)
  | inr (t, e) ↦ rw (e, pin) (Pinned-some s t p.server h e)
]

pub react-Pinned :
    (e : Event) (p : Page) (s : Server)
    → Pinned s p.server
    → IsAbout s e
    → Pinned s (react e p).0.server
unfolding react on_message
react-Pinned (messaged true m) p s h a = of_some s (pin m.server p).server (pin-server m p s h a)
react-Pinned (messaged false m) p s h a = h
react-Pinned e p s h a = subst (Pinned s) (sym (react-own e p refl).0) h

pub react-aimed :
    (e : Event) (p : Page) (s : Server) → Pinned s p.server → All (GoesTo s) (react e p).1
react-aimed e p s h = elim (Option-cases p.server) [
  | inl q ↦ react-unpinned e p s q
  | inr (t, q) ↦ react-GoesTo e p s (Pinned-some s t p.server h q)
]

-- A message of the tab leaves the page with the server and with the flag of the message.
pub message-agrees :
    (m : Init) (p : Page) (s : Server)
    → Pinned s p.server
    → m.server ≡ s
    → ((react (messaged true m) p).0.server ≡ some s)
      × ((react (messaged true m) p).0.active ≡ m.active)
unfolding react on_message
message-agrees m p s h a = (pin-server m p s h a, refl)

abbrev pub has_ready : List Posted → Bool
has_ready [] = false
has_ready (ready ∷ up) = true
has_ready (status s ∷ up) = has_ready up

-- What the page will have when the messages on their way have come: the server and the flag `on`.
abbrev pub Arrives : Server → Bool → List Init → Option Server → Bool → Type 0
Arrives s on [] server active = (server ≡ some s) × (active ≡ on)
Arrives s on (m ∷ []) server active = m.active ≡ on
Arrives s on (m ∷ n ∷ rest) server active = Arrives s on (n ∷ rest) server active

-- A loaded page will have the tab's server and flag by what is on its way, or asks for them.
abbrev pub IsFollowing : Bool → Bool → Server → Bool → List Init → Option Server → Bool → Type 0
IsFollowing false asked s on down server active = Unit
IsFollowing true asked s on down server active = (asked ≡ true) ⊎ Arrives s on down server active

pub Arrives-append :
    (s : Server) (on : Bool) (down : List Init) (m : Init) (server : Option Server) (active : Bool)
    → m.active ≡ on
    → Arrives s on (down ++ m ∷ []) server active
Arrives-append s on [] m server active e = e
Arrives-append s on (n ∷ []) m server active e = e
Arrives-append s on (n ∷ k ∷ rest) m server active e =
    Arrives-append s on (k ∷ rest) m server active e

-- While messages are on their way, it does not matter what the page has.
Arrives-any :
    (s : Server) (on : Bool) (m : Init) (rest : List Init) (server server' : Option Server)
    (active active' : Bool)
    → Arrives s on (m ∷ rest) server active
    → Arrives s on (m ∷ rest) server' active'
Arrives-any s on m [] server server' active active' h = h
Arrives-any s on m (n ∷ rest) server server' active active' h =
    Arrives-any s on n rest server server' active active' h

Arrives-cons :
    (s : Server) (on : Bool) (m : Init) (rest : List Init) (server server' : Option Server)
    (active : Bool)
    → server' ≡ some s
    → Arrives s on (m ∷ rest) server active
    → Arrives s on rest server' m.active
Arrives-cons s on m [] server server' active e h = (e, h)
Arrives-cons s on m (n ∷ rest) server server' active e h =
    Arrives-any s on n rest server server' active m.active h

has_ready-append : (up more : List Posted) → has_ready up ≡ true → has_ready (up ++ more) ≡ true
has_ready-append [] more h = cc h
has_ready-append (ready ∷ up) more h = refl
has_ready-append (status t ∷ up) more h = has_ready-append up more h

pub has_ready_last : (up : List Posted) → has_ready (up ++ ready ∷ []) ≡ true
has_ready_last [] = refl
has_ready_last (ready ∷ up) = refl
has_ready_last (status t ∷ up) = has_ready_last up

-- What is posted meanwhile, and a page with the same server and flag, keep it so.
pub IsFollowing-append :
    (loaded : Bool) (up more : List Posted) (s : Server) (on : Bool) (down : List Init)
    (server server' : Option Server) (active active' : Bool)
    → server' ≡ server
    → active' ≡ active
    → IsFollowing loaded (has_ready up) s on down server active
    → IsFollowing loaded (has_ready (up ++ more)) s on down server' active'
IsFollowing-append false up more s on down server server' active active' e g h = tt
IsFollowing-append true up more s on down server server' active active' e g (inl asked) =
    inl (has_ready-append up more asked)
IsFollowing-append true up more s on down server server' active active' e g (inr there) = inr (
    subst (λ o. Arrives s on down o active') (sym e)
      (subst (Arrives s on down server) (sym g) there))

pub IsFollowing-deliver :
    (loaded : Bool) (up more : List Posted) (s : Server) (on : Bool) (m : Init) (rest : List Init)
    (server server' : Option Server) (active active' : Bool)
    → server' ≡ some s
    → active' ≡ m.active
    → IsFollowing loaded (has_ready up) s on (m ∷ rest) server active
    → IsFollowing loaded (has_ready (up ++ more)) s on rest server' active'
IsFollowing-deliver false up more s on m rest server server' active active' e g h = tt
IsFollowing-deliver true up more s on m rest server server' active active' e g (inl asked) =
    inl (has_ready-append up more asked)
IsFollowing-deliver true up more s on m rest server server' active active' e g (inr there) = inr (
    subst (Arrives s on rest server') (sym g)
      (Arrives-cons s on m rest server server' active e there))
