-- ===== src/Files/Capture.antt =====
-- A captured target of ui/src/hooks/useDirectory.ts, lines 48 to 53, across later loads.
use opsup.Prelude.{ℕ, suc, ◌≤◌, ◌≡◌, refl, String, Bool, false, List, [], ◌∷◌, arith}
use opsup.Files.Directory.{
  FileEntry, Request, Directory, Answer, listed, refused, Captured, Action, loads, answers, renders,
  refreshes, load_files, settle, leave, render, mount, capture, is_current, refresh, act, run,
}
use opsup.Files.Listing.{run-mount-IsListing}

settle-generation :
    (r : Request) (a : Answer) (d : Directory) → (settle r a d).generation ≡ d.generation
unfolding settle
settle-generation r (listed es) d = ground arith
settle-generation r (refused text) d = ground arith

load_files-generation :
    (n : ℕ) (p : String) (d : Directory) → (load_files n p d).generation ≡ suc d.generation
unfolding load_files
load_files-generation n p d = refl

render-generation : (o : Bool) (n : ℕ) (d : Directory) → d.generation ≤ (render o n d).generation
unfolding render leave load_files
render-generation o n d = ground arith

refresh-generation : (c : Captured) (d : Directory) → d.generation ≤ (refresh c d).generation
unfolding refresh load_files
refresh-generation c d = ground arith

module _ (world : Request → List FileEntry) where
  act-generation : (a : Action) (d : Directory) → d.generation ≤ (act world a d).generation
  unfolding act
  act-generation (loads path) d = omega (arith, load_files-generation d.visible.server_id path d)
  act-generation (answers id error) d = grind (arith, settle-generation)
  act-generation (renders o n) d = render-generation o n d
  act-generation (refreshes c) d = refresh-generation c d

  run-generation :
      (todo : List Action) (d : Directory) → d.generation ≤ (run world todo d).generation
  unfolding run
  run-generation [] d = omega arith
  run-generation (a ∷ rest) d =
      omega (arith, act-generation a d, run-generation rest (act world a d))

  -- A target captured in any state is not current any more once a path was loaded, be it the same
  -- path, whatever happens after that.
  pub capture_expires :
      (o : Bool) (server : ℕ) (before after : List Action) (path : String)
      → let d = run world before (mount o server) in
        is_current (capture d) (run world (loads path ∷ after) d) ≡ false
  unfolding capture is_current run act load_files
  capture_expires o server before after path =
      let d = run world before (mount o server) in
      let k = (run-mount-IsListing world o server before).kept in
      ground (arith, k.bounded, run-generation after (load_files d.visible.server_id path d))
