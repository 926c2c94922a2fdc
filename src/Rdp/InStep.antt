-- ===== src/Rdp/InStep.antt =====
-- The tab of ui/src/components/RdpTab.tsx and the page of ui/src/rdp/client.ts in its frame.
use opsup.Prelude.{
  ◌≡◌, refl, sym, subst, inl, inr, Bool, true, false, Option, some, List, [], ◌∷◌, All, All-append,
  All-weaken, codes, Bool-cases, bool_eq, String,
}
use opsup.Types.{Server}
use opsup.Rdp.Client.{Init, Event, messaged, react}
use opsup.Rdp.Target.{GoesTo}
use opsup.Rdp.Address.{IsPlain, Reaches, GoesTo-Reaches}
use opsup.Rdp.Frame.{
  Posted, ready, status, Frame, send, mount, posted, at_page, listen, Action, loads, activates,
  stores, delivers_down, delivers_up, happens, is_own, act, run,
}
use opsup.Rdp.Arrival.{
  Pinned, has_ready, IsFollowing, react-own, react-aimed, message-agrees, Arrives-append,
  IsFollowing-append, IsFollowing-deliver, has_ready_last, of_some,
}

record IsSound (s : Server) (f : Frame) : Type 0 where
  own : f.server ≡ s
  pinned : Pinned s f.page.server
  about : All (λ m. m.server ≡ s) f.down
  aimed : All (GoesTo s) f.calls
  following : IsFollowing f.loaded (has_ready f.up) s f.is_active f.down f.page.server f.page.active

send-IsSound :
    (s : Server) (f : Frame)
    → f.server ≡ s
    → Pinned s f.page.server
    → All (λ m. m.server ≡ s) f.down
    → All (GoesTo s) f.calls
    → IsSound s (send f)
unfolding send
send-IsSound s f own pinned about aimed = elim (Bool-cases f.loaded) [
  | inl e ↦
      simp (e, send)
        (record {
          own = own;
          pinned = pinned;
          about = All-append (λ m. m.server ≡ s) f.down (_ ∷ []) about (own, tt);
          aimed = aimed;
          following = inr (Arrives-append s f.is_active f.down _ f.page.server f.page.active refl);
        })
  | inr e ↦
      simp (e, send)
        (record { own = own; pinned = pinned; about = about; aimed = aimed; following = rw e tt })
]

own-IsSound :
    (s : Server) (e : Event) (f : Frame) → is_own e ≡ true → IsSound s f → IsSound s (at_page e f)
unfolding at_page
own-IsSound s e f o v =
    let k = react-own e f.page o in
    record {
      own = v.own;
      pinned = subst (Pinned s) (sym k.0) v.pinned;
      about = v.about;
      aimed =
          All-append (GoesTo s) f.calls (react e f.page).1 v.aimed
            (react-aimed e f.page s v.pinned);
      following =
          IsFollowing-append f.loaded f.up (posted (react e f.page).1) s f.is_active f.down
            f.page.server (react e f.page).0.server f.page.active (react e f.page).0.active k.0 k.1
            v.following;
    }

deliver-IsSound :
    (s : Server) (down : List Init) (f : Frame)
    → f.down ≡ down
    → IsSound s f
    → IsSound s (act delivers_down f)
unfolding act at_page
deliver-IsSound s [] f e v = simp (e, act) v
deliver-IsSound s (m ∷ rest) f e v =
    let about : All (λ m. m.server ≡ s) (m ∷ rest) = subst (All (λ m. m.server ≡ s)) e v.about in
    let k = message-agrees m f.page s v.pinned about.0 in
    let calls = (react (messaged true m) f.page).1 in
    simp (e, act)
      (record {
        own = v.own;
        pinned = of_some s (react (messaged true m) f.page).0.server k.0;
        about = about.1;
        aimed =
            All-append (GoesTo s) f.calls calls v.aimed
              (react-aimed (messaged true m) f.page s v.pinned);
        following =
            IsFollowing-deliver f.loaded f.up (posted calls) s f.is_active m rest f.page.server
              (react (messaged true m) f.page).0.server f.page.active
              (react (messaged true m) f.page).0.active k.0 k.1
              (subst
                (λ d.
                  IsFollowing f.loaded (has_ready f.up) s f.is_active d f.page.server f.page.active)
                e v.following);
      })

listen-IsSound :
    (s : Server) (up : List Posted) (f : Frame)
    → f.up ≡ up
    → IsSound s f
    → IsSound s (act delivers_up f)
unfolding act listen
listen-IsSound s [] f e v = simp (e, act) v
listen-IsSound s (ready ∷ rest) f e v =
    simp (e, act) (send-IsSound s (record f { up = rest }) v.own v.pinned v.about v.aimed)
listen-IsSound s (status t ∷ rest) f e v =
    simp (e, act)
      (record {
        own = v.own;
        pinned = v.pinned;
        about = v.about;
        aimed = v.aimed;
        following =
            subst
              (λ u.
                IsFollowing f.loaded (has_ready u) s f.is_active f.down f.page.server f.page.active)
              e v.following;
      })

act-IsSound : (s : Server) (a : Action) (f : Frame) → IsSound s f → IsSound s (act a f)
unfolding act
act-IsSound s loads f v = record {
  own = v.own;
  pinned = tt;
  about = tt;
  aimed = v.aimed;
  following = inl (has_ready_last f.up);
}
act-IsSound s (activates on) f v = elim (Bool-cases (bool_eq on f.is_active)) [
  | inl e ↦ rw (e, act) v
  | inr e ↦
      rw (e, act) (send-IsSound s (record f { is_active = on }) v.own v.pinned v.about v.aimed)
]
act-IsSound s (stores token) f v = record {
  own = v.own;
  pinned = v.pinned;
  about = v.about;
  aimed = v.aimed;
  following = v.following;
}
act-IsSound s delivers_down f v = deliver-IsSound s f.down f refl v
act-IsSound s delivers_up f v = listen-IsSound s f.up f refl v
act-IsSound s (happens e) f v = elim (Bool-cases (is_own e)) [
  | inl o ↦ rw (o, act) (own-IsSound s e f o v)
  | inr o ↦ rw (o, act) v
]

run-IsSound : (s : Server) (todo : List Action) (f : Frame) → IsSound s f → IsSound s (run todo f)
unfolding run
run-IsSound s [] f v = v
run-IsSound s (a ∷ rest) f v = run-IsSound s rest (act a f) (act-IsSound s a f v)

mount-IsSound : (s : Server) (on : Bool) (token : Option String) → IsSound s (mount s on token)
mount-IsSound s on token = record {
  own = refl;
  pinned = tt;
  about = tt;
  aimed = tt;
  following = tt;
}

-- Whatever happens to a tab of the server `s` and to the page in its frame, however the messages
-- between them are delayed, the page is loaded anew, and messages about other servers come from
-- elsewhere: every attempt to connect that the page makes asks the proxy for `s` by its id, and its
-- destination, read as an address, is the host and the port of `s`. The host has no brackets of its own.
pub run-mount-Reaches :
    (s : Server) (on : Bool) (token : Option String) (todo : List Action)
    → IsPlain (codes s.host)
    → All (Reaches s) (run todo (mount s on token)).calls
run-mount-Reaches s on token todo plain =
    let calls = (run todo (mount s on token)).calls in
    All-weaken (GoesTo s) (Reaches s) calls (GoesTo-Reaches s plain)
      (run-IsSound s todo (mount s on token) (mount-IsSound s on token)).aimed

in_step :
    (s : Server) (f : Frame)
    → IsSound s f
    → f.loaded ≡ true
    → f.down ≡ []
    → f.up ≡ []
    → (f.page.server ≡ some s) × (f.page.active ≡ f.is_active)
in_step s f v l d u =
    let h : IsFollowing true false s f.is_active [] f.page.server f.page.active =
      subst (λ x. IsFollowing x false s f.is_active [] f.page.server f.page.active) l
        (subst (λ x. IsFollowing f.loaded false s f.is_active x f.page.server f.page.active) d
          (subst
            (λ x.
              IsFollowing f.loaded (has_ready x) s f.is_active f.down f.page.server f.page.active)
            u v.following)) in
    elim h [ inl asked ↦ cc asked | inr there ↦ there ]

-- Whatever happened to a tab of the server `s`: once the page in its frame is loaded and no message is
-- on its way in either direction, the page has the server `s` and knows whether the tab is shown.
pub run-mount-in_step :
    (s : Server) (on : Bool) (token : Option String) (todo : List Action)
    → let f = run todo (mount s on token) in
      f.loaded ≡ true
      → f.down ≡ []
      → f.up ≡ []
      → (f.page.server ≡ some s) × (f.page.active ≡ f.is_active)
run-mount-in_step s on token todo =
    in_step s (run todo (mount s on token))
      (run-IsSound s todo (mount s on token) (mount-IsSound s on token))
