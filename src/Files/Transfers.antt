-- ===== src/Files/Transfers.antt =====
-- What the handlers of ui/src/components/FileManager.tsx ask of the server.
use text.Mathlib.TextEquality.{eq_iff}
use opsup.Prelude.{
  ℕ, suc, ◌+◌, ◌≡◌, ◌≢◌, sym, ◌∙◌, String, true, Option, none, some, List, [], ◌∷◌, ◌++◌, map,
  append-nil, append_assoc, any, str_eq, arith, if◌then◌else◌, ltb,
}
use opsup.Files.Directory.{
  FileEntry, Directory, Captured, capture, is_current, refresh, shown_ready,
}
use opsup.Files.Paths.{path_parts}
use opsup.Files.Crumbs.{path_parts-folder_path}
use opsup.Files.Manager.{
  Call, uploads, deletes, makes, Upload, Uploaded, upload_all, finish_upload, handle_upload,
  handle_delete, handle_mkdir,
}

-- How many files arrived.
unfoldable pub arrived : List Upload → ℕ
arrived [] = 0
arrived (u ∷ us) = elim u.error [ none ↦ suc (arrived us) | some _ ↦ arrived us ]

abbrev pub upload_call : Captured → Upload → Call
upload_call target u = uploads target.server_id target.path u.file

upload_all-calls :
    (target : Captured) (us : List Upload) (r : Uploaded)
    → (upload_all target us r).calls ≡ r.calls ++ map (upload_call target) us
unfolding upload_all
upload_all-calls target [] r = sym (append-nil r.calls)
upload_all-calls target (u ∷ us) r =
    upload_all-calls target us _
    ∙ append_assoc r.calls (upload_call target u ∷ []) (map (upload_call target) us)

upload_all-count :
    (target : Captured) (us : List Upload) (r : Uploaded)
    → (upload_all target us r).count ≡ r.count + arrived us
unfolding upload_all arrived
upload_all-count target [] r = omega arith
upload_all-count target (u ∷ us) r = upload_all-count target us _ ∙ ground arith

-- An upload that starts in a ready directory sends each chosen file, in order, to the directory
-- and server shown when it started, whatever fails and wherever the user goes meanwhile; the
-- directory is loaded again at the end if a file arrived and the captured target is still current.
pub handle_upload_sends :
    (u : Upload) (us : List Upload) (before after : Directory)
    → shown_ready before ≡ true
    → is_current (capture before) before ≡ true
    → let r = handle_upload (u ∷ us) before after in
      let target = capture before in
      (r.calls ≡ map (upload_call target) (u ∷ us))
      × (r.directory ≡ (if ltb 0 (arrived (u ∷ us)) then refresh target after else after))
unfolding handle_upload finish_upload
handle_upload_sends u us before after ready here =
    let target = capture before in
    let start : Uploaded = record { count = 0; calls = []; notes = [] } in
    let calls = upload_all-calls target (u ∷ us) start in
    let count = upload_all-count target (u ∷ us) start in ground (arith, calls, count)

-- Only a file that the ready directory lists is deleted, and on the server shown.
pub handle_delete_listed :
    (entry : FileEntry) (error : Option String) (before after : Directory)
    → (handle_delete entry error before after).calls ≢ []
    → (shown_ready before ≡ true)
      × (any (λ file. str_eq file.path entry.path) before.files ≡ true)
      × ((handle_delete entry error before after).calls
          ≡ deletes before.visible.server_id entry.path ∷ [])
unfolding handle_delete
handle_delete_listed entry error before after h = ground arith

-- A folder is made only in the directory that is open when the dialog closes, on its server, and
-- its path has the parts of that directory's path and then those of the typed name.
pub handle_mkdir_where :
    (typed : String) (error : Option String) (before asked after : Directory) (server : ℕ)
    (path : String)
    → (handle_mkdir typed error before asked after).calls ≡ makes server path ∷ []
    → (asked.visible.open_now ≡ true)
      × (server ≡ asked.visible.server_id)
      × (path_parts path ≡ path_parts asked.visible.path ++ path_parts typed)
unfolding handle_mkdir is_current capture
handle_mkdir_where typed error before asked after server path e = ground (
  arith,
  path_parts-folder_path before.current_path typed,
  eq_iff asked.visible.path before.current_path,
)
