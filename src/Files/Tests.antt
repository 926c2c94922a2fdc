-- ===== src/Files/Tests.antt =====
-- A directory of a server, runs of the file manager on it, and instances of the theorems.
use opsup.Prelude.{◌≡◌, refl, String, true, false, none, some, List, [], ◌∷◌, map, codes}
use opsup.Prelude.Decimal.{decimal}
use opsup.Files.Directory.{
  FileEntry, Request, Directory, Action, loads, answers, load_files, settle, leave, render, mount,
  capture, is_current, refresh, find_request, drop_request, act, run,
}
use opsup.Files.Listing.{IsListing, run-mount-IsListing}
use opsup.Files.Paths.{path_parts, crumb_path, folder_path, trim, go_path}
use opsup.Files.Size.{format_size}
use opsup.Files.Manager.{
  Upload, upload_all, finish_upload, handle_upload, handle_delete, handle_mkdir,
}
use opsup.Files.Download.{
  downloads, creates_url, clicks as clicks_link, revokes_url, handle_download,
}
use opsup.Files.Transfers.{upload_call, handle_upload_sends}

all_steps : Unit {0}
unfolding load_files settle leave render mount capture is_current refresh find_request drop_request
    act run path_parts crumb_path folder_path trim go_path upload_all finish_upload handle_upload
    handle_delete handle_mkdir decimal format_size
all_steps = tt

abbrev entry : String → String → FileEntry
entry name path = record {
  name = name;
  size = 1536;
  mode = "-rw-r--r--";
  mod_time = "";
  is_dir = false;
  path = path;
}

abbrev world : Request → List FileEntry
world r = entry "a.log" "/var/a.log" ∷ []

-- The root is asked for, then /var; the root's answer comes last and is dropped.
abbrev clicks : List Action
clicks = loads "/var" ∷ answers 2 none ∷ answers 1 (some "late") ∷ []

abbrev var : Directory
var = run world clicks (mount true 7)

var_shown : (var.ready ≡ true) × (var.current_path ≡ "/var") × (var.notices ≡ [])
unfolding all_steps
var_shown = (refl, refl, refl)

run-mount-IsListing_example : IsListing world (run world clicks (mount true 7))
run-mount-IsListing_example = run-mount-IsListing world true 7 clicks

deep_parts : path_parts "/srv//www/" ≡ "srv" ∷ "www" ∷ []
unfolding all_steps
deep_parts = refl

typed_path : go_path "  var/log " ≡ "/var/log"
unfolding all_steps
typed_path = refl

sizes :
    (format_size 0 ≡ codes "-")
    × (format_size 1023 ≡ codes "1023 B")
    × (format_size 1536 ≡ codes "1.5 KB")
    × (format_size 5368709120 ≡ codes "5.0 GB")
unfolding all_steps
sizes = (refl, refl, refl, refl)

abbrev good : Upload
good = record { file = "b.txt"; error = none }

abbrev bad : Upload
bad = record { file = "c.txt"; error = some "" }

handle_upload_sends_example :
    (handle_upload (good ∷ bad ∷ []) var var).calls
    ≡ map (upload_call (capture var)) (good ∷ bad ∷ [])
unfolding all_steps
handle_upload_sends_example = (handle_upload_sends good (bad ∷ []) var var refl refl).0

downloaded :
    handle_download (entry "a.log" "/var/a.log") none var
    ≡ downloads 7 "/var/a.log" ∷ creates_url ∷ clicks_link "a.log" ∷ revokes_url ∷ []
unfolding all_steps handle_download
downloaded = refl
