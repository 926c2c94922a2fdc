-- ===== src/Files/Manager.antt =====
-- ui/src/components/FileManager.tsx: the handlers of the file manager, on the state of its
-- directory. A handler with an `await` takes the directory as it is when the handler begins, and
-- as it is when each answer has come.
use opsup.Prelude.{
  ℕ, suc, String, not, ◌&&◌, ◌||◌, Option, none, some, List, [], ◌∷◌, ◌++◌, str_eq, or_text, truthy,
  template, codes, any, if◌then◌else◌, ◌==◌,
}
use opsup.Prelude.Decimal.{decimal}
use opsup.Files.Directory.{
  FileEntry, Directory, Captured, load_files, capture, is_current, refresh, shown_ready,
}
use opsup.Files.Paths.{folder_path, go_path}

-- The calls of ui/src/api/files.ts that change something.
pub data Call : Type 0 where
  uploads : (server_id : ℕ) (directory file : String) → Call
  deletes : (server_id : ℕ) (path : String) → Call
  makes : (server_id : ℕ) (path : String) → Call

-- The calls of `message`, as code points.
pub data Note : Type 0 where
  success failure : List ℕ → Note

pub record Outcome : Type 0 where
  pub directory : Directory
  pub calls : List Call
  pub notes : List Note

abbrev pub nothing : Directory → Outcome
nothing d = record { directory = d; calls = []; notes = [] }

-- `handleNavigate(record)` and `handleGoPath()`
unfoldable pub handle_navigate : FileEntry → Directory → Directory
handle_navigate entry d =
    if shown_ready d && (entry.is_dir && is_current (capture d) d)
    then load_files d.visible.server_id entry.path d
    else d

unfoldable pub handle_go_path : String → Directory → Directory
handle_go_path input d = load_files d.visible.server_id (go_path input) d

-- A file of the upload, and the error of its request, if it failed.
pub record Upload : Type 0 where
  pub file : String
  pub error : Option String

pub record Uploaded : Type 0 where
  pub count : ℕ
  pub calls : List Call
  pub notes : List Note

-- The loop of `handleUpload`.
unfoldable pub upload_all : Captured → List Upload → Uploaded → Uploaded
upload_all target [] r = r
upload_all target (u ∷ us) r = upload_all target us (record {
  count = elim u.error [ none ↦ suc r.count | some _ ↦ r.count ];
  calls = r.calls ++ uploads target.server_id target.path u.file ∷ [];
  notes = elim u.error [
    | none ↦ r.notes
    | some text ↦
        r.notes ++ failure (codes (template (u.file ∷ ": " ∷ or_text text "上传失败" ∷ []))) ∷ []
  ];
})

abbrev pub count_note : ℕ → Note
count_note n = success (codes "已上传 " ++ (decimal n ++ codes " 个文件"))

-- The end of `handleUpload`.
unfoldable pub finish_upload : Captured → Uploaded → Directory → Outcome
finish_upload target r after =
    if r.count == 0
    then record { directory = after; calls = r.calls; notes = r.notes }
    else record {
      directory = refresh target after;
      calls = r.calls;
      notes = r.notes ++ count_note r.count ∷ [];
    }

-- `handleUpload`
unfoldable pub handle_upload : List Upload → Directory → Directory → Outcome
handle_upload files before after =
    let target = capture before in
    if not (shown_ready before) || not (is_current target before)
    then nothing before
    else elim files [
      | [] ↦ nothing before
      | u ∷ us ↦
          finish_upload target
            (upload_all target (u ∷ us) (record { count = 0; calls = []; notes = [] })) after
    ]

-- `handleDelete(record)`, with the answer to its request.
unfoldable pub handle_delete : FileEntry → Option String → Directory → Directory → Outcome
handle_delete entry error before after =
    let target = capture before in
    let call = deletes before.visible.server_id entry.path in
    if not (shown_ready before)
      || (not (any (λ file. str_eq file.path entry.path) before.files)
          || not (is_current target before))
    then nothing before
    else elim error [
      | none ↦ record {
        directory = refresh target after;
        calls = call ∷ [];
        notes = success (codes "已删除") ∷ [];
      }
      | some text ↦ record {
        directory = after;
        calls = call ∷ [];
        notes = failure (codes (or_text text "删除失败")) ∷ [];
      }
    ]

-- `handleMkdir`: `typed` is the name that the dialog gives, `""` if it is cancelled or left empty,
-- and `asked` the directory when the dialog closes.
unfoldable pub handle_mkdir : String → Option String → Directory → Directory → Directory → Outcome
handle_mkdir typed error before asked after =
    let target = capture before in
    let call = makes target.server_id (folder_path target.path typed) in
    if not (shown_ready before) || not (is_current target before)
    then nothing before
    else if truthy typed && is_current target asked
    then elim error [
      | none ↦ record {
        directory = refresh target after;
        calls = call ∷ [];
        notes = success (codes "已创建") ∷ [];
      }
      | some text ↦ record {
        directory = after;
        calls = call ∷ [];
        notes = failure (codes (or_text text "创建失败")) ∷ [];
      }
    ]
    else nothing asked
