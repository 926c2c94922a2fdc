-- ===== src/Files/Listing.antt =====
-- What the directory shows: the answer to the latest request, for the path and server shown.
use opsup.Prelude.{
  ℕ, ◌≡◌, ◌≢◌, refl, sym, ap, subst, ◌∙◌, String, Bool, true, false, ◌&&◌, Option, none, some, List,
  [], ◌∷◌, ◌==◌, bool_eq, arith, inl, inr, Bool-cases, Option-cases, if◌then◌else◌,
}
use opsup.Files.Directory.{
  FileEntry, Request, Directory, Captured, Action, loads, answers, renders, refreshes, load_files,
  is_latest, settle, leave, render, mount, is_current, refresh, find_request, drop_request,
  answer_to, first_directory, act, run,
}
use opsup.Files.Requests.{
  find_request-id, find_request-drop_request, find_request-MadeBy, drop_request-MadeBy, any-Below,
  view-Kept, load_files-Kept, leave-Kept, latest, view, Kept,
}

module _ (world : Request → List FileEntry) where
  pub record IsListing (d : Directory) : Type 0 where
    pub kept : Kept d
    pub rendered : d.visible.open_now ≡ true → d.rendered_generation ≡ d.generation
    pub shown : d.ready ≡ true → d.visible.open_now ≡ true → d.files ≡ world (latest d)
    pub awaited :
        d.visible.open_now ≡ true
        → d.loading ≡ true
        → find_request d.generation d.flying ≡ some (latest d)

  load_files-IsListing :
      (server : ℕ) (p : String) (d : Directory)
      → d.visible.server_id ≡ server
      → Kept d
      → IsListing (load_files server p d)
  unfolding load_files find_request
  load_files-IsListing server p d here v = record {
    kept = load_files-Kept server p d v;
    rendered = λ _. refl;
    shown = λ e. cc e;
    awaited = λ _ _. ground arith;
  }

  closed-IsListing : (d : Directory) → d.visible.open_now ≡ false → Kept d → IsListing d
  closed-IsListing d off v = record {
    kept = v;
    rendered = λ e. cc (off, e);
    shown = λ _ e. cc (off, e);
    awaited = λ e. cc (off, e);
  }

  same-IsListing :
      (o : Bool) (server : ℕ) (d : Directory)
      → o ≡ d.visible.open_now
      → server ≡ d.visible.server_id
      → IsListing d
      → IsListing (view o server d)
  same-IsListing o server d same_open same_server v = record {
    kept = view-Kept o server d v.kept;
    rendered = λ e. v.rendered (sym same_open ∙ e);
    shown = λ r e.
        v.shown r (sym same_open ∙ e)
        ∙ ap (λ n. world (record { id = d.generation; server_id = n; path = d.current_path }))
            (sym same_server);
    awaited = λ e l.
        v.awaited (sym same_open ∙ e) l
        ∙ ap {B = Option Request}
            (λ n. some (record { id = d.generation; server_id = n; path = d.current_path }))
            (sym same_server);
  }

  changed-IsListing :
      (o : Bool) (server : ℕ) (d : Directory)
      → Kept d
      → IsListing
          (if o then load_files server "/" (leave (view o server d)) else leave (view o server d))
  unfolding leave
  changed-IsListing true server d v =
      load_files-IsListing server "/" (leave (view true server d)) refl
        (leave-Kept (view true server d) (view-Kept true server d v))
  changed-IsListing false server d v =
      closed-IsListing (leave (view false server d)) refl
        (leave-Kept (view false server d) (view-Kept false server d v))

  render-IsListing :
      (o : Bool) (server : ℕ) (d : Directory) → IsListing d → IsListing (render o server d)
  unfolding render
  render-IsListing o server d v =
      elim (Bool-cases (bool_eq o d.visible.open_now && (server == d.visible.server_id))) [
        | inl same ↦ rw (same, render) (same-IsListing o server d (ground arith) (ground arith) v)
        | inr other ↦ rw (other, render) (changed-IsListing o server d v.kept)
      ]

  dropped-Kept :
      (id : ℕ) (d : Directory) → Kept d → Kept (record d { flying = drop_request id d.flying })
  dropped-Kept id d v = record {
    seen = v.seen;
    made = drop_request-MadeBy d.generation d.current_path id d.flying v.made;
    older = v.older;
    controlled = v.controlled;
    bounded = v.bounded;
  }

  -- A request in flight that passes the check of `loadFiles` is for what the directory shows.
  is_latest-latest :
      (r : Request) (d : Directory)
      → find_request r.id d.flying ≡ some r
      → Kept d
      → is_latest r d ≡ true
      → r ≡ latest d
  is_latest-latest r d e v here =
      let made = find_request-MadeBy d.generation d.current_path r.id d.flying r v.made e in
      ground (arith, made.1)

  -- The request that the spinner waits for passes it.
  awaited-is_latest :
      (r : Request) (d : Directory)
      → find_request r.id d.flying ≡ some r
      → IsListing d
      → is_latest r d ≡ false
      → d.visible.open_now ≡ true
      → d.loading ≡ true
      → r.id ≢ d.generation
  awaited-is_latest r d e v stale o l same =
      let waits = v.awaited o l in
      let fresh = any-Below d.generation d.aborted v.kept.older in
      let found : find_request d.generation d.flying ≡ some r =
        subst (λ i. find_request i d.flying ≡ some r) same e in
      ground (arith, waits, fresh, found)

  settled-IsListing :
      (r : Request) (error : Option String) (d : Directory)
      → r ≡ latest d
      → is_latest r d ≡ true
      → IsListing d
      → IsListing (settle r (answer_to world r error) d)
  unfolding settle
  settled-IsListing r none d same here v =
      rw (here, settle)
        (record {
          kept =
              (let k = dropped-Kept r.id d v.kept in
                record {
                  seen = k.seen;
                  made = k.made;
                  older = k.older;
                  controlled = k.controlled;
                  bounded = k.bounded;
                });
          rendered = v.rendered;
          shown = λ _ _. ap world same;
          awaited = λ _ l. cc l;
        })
  settled-IsListing r (some text) d same here v =
      rw (here, settle)
        (record {
          kept =
              (let k = dropped-Kept r.id d v.kept in
                record {
                  seen = k.seen;
                  made = k.made;
                  older = k.older;
                  controlled = k.controlled;
                  bounded = k.bounded;
                });
          rendered = v.rendered;
          shown = v.shown;
          awaited = λ _ l. cc l;
        })

  -- The answer to the latest request is shown, and any other is dropped.
  settle-IsListing :
      (r : Request) (error : Option String) (d : Directory)
      → find_request r.id d.flying ≡ some r
      → IsListing d
      → IsListing (settle r (answer_to world r error) d)
  unfolding settle
  settle-IsListing r error d e v = elim (Bool-cases (is_latest r d)) [
    | inl here ↦ settled-IsListing r error d (is_latest-latest r d e v.kept here) here v
    | inr stale ↦
        rw (stale, settle)
          (record {
            kept = dropped-Kept r.id d v.kept;
            rendered = v.rendered;
            shown = v.shown;
            awaited = λ o l.
                find_request-drop_request d.generation r.id d.flying
                  (awaited-is_latest r d e v stale o l)
                ∙ v.awaited o l;
          })
  ]

  refresh-IsListing : (c : Captured) (d : Directory) → IsListing d → IsListing (refresh c d)
  unfolding refresh is_current
  refresh-IsListing c d v = elim (Bool-cases (is_current c d)) [
    | inl here ↦
        rw (here, refresh) (load_files-IsListing c.server_id c.path d (ground arith) v.kept)
    | inr stale ↦ rw (stale, refresh) v
  ]

  act-IsListing : (a : Action) (d : Directory) → IsListing d → IsListing (act world a d)
  unfolding act
  act-IsListing (loads path) d v = load_files-IsListing d.visible.server_id path d refl v.kept
  act-IsListing (answers id error) d v = elim (Option-cases (find_request id d.flying)) [
    | inl none_left ↦ rw (none_left, act) v
    | inr (r, e) ↦
        rw (e, act)
          (settle-IsListing r error d
            (subst (λ i. find_request i d.flying ≡ some r) (sym (find_request-id id d.flying r e))
              e)
            v)
  ]
  act-IsListing (renders o server) d v = render-IsListing o server d v
  act-IsListing (refreshes c) d v = refresh-IsListing c d v

  run-IsListing : (todo : List Action) (d : Directory) → IsListing d → IsListing (run world todo d)
  unfolding run
  run-IsListing [] d v = v
  run-IsListing (a ∷ rest) d v = run-IsListing rest (act world a d) (act-IsListing a d v)

  first-Kept : (o : Bool) (server : ℕ) → Kept (first_directory o server)
  first-Kept o server = record {
    seen = refl;
    made = tt;
    older = tt;
    controlled = λ i e. cc e;
    bounded = omega arith;
  }

  mount-IsListing : (o : Bool) (server : ℕ) → IsListing (mount o server)
  unfolding mount
  mount-IsListing true server = load_files-IsListing server "/" _ refl (first-Kept true server)
  mount-IsListing false server = closed-IsListing _ refl (first-Kept false server)

  -- Whatever is clicked, answered, in whatever order, and rendered from the first render on: while
  -- the directory is open and ready, its files are the answer to the latest request, which is for
  -- the server and the path that are shown; while it is open and loading, that request is in flight.
  pub run-mount-IsListing :
      (o : Bool) (server : ℕ) (todo : List Action) → IsListing (run world todo (mount o server))
  run-mount-IsListing o server todo = run-IsListing todo (mount o server) (mount-IsListing o server)
