-- ===== src/Files/Directory.antt =====
-- ui/src/hooks/useDirectory.ts, and `FileEntry` of ui/src/api/files.ts. A request is known by the
-- generation at which it was made, and so is its `AbortController`. A render whose `open` or
-- `serverId` has changed is one step with the effect that follows it.
use opsup.Prelude.{
  ℕ, suc, bool_eq, String, Bool, true, false, not, ◌&&◌, Option, none, some, List, [], ◌∷◌, ◌==◌,
  str_eq, or_text, any, if◌then◌else◌,
}

pub record FileEntry : Type 0 where
  pub name : String
  pub size : ℕ
  pub mode : String
  pub mod_time : String
  pub is_dir : Bool
  pub path : String

-- `visible.current`
pub record Visible : Type 0 where
  pub open_now : Bool
  pub server_id : ℕ
  pub path : String

pub record Request : Type 0 where
  pub id : ℕ
  pub server_id : ℕ
  pub path : String

-- `notices` are the calls of `message.error`, the last one first; `flying` the requests without an
-- answer; `aborted` the requests whose controller was aborted.
pub record Directory : Type 0 where
  pub files : List FileEntry
  pub current_path : String
  pub loading : Bool
  pub ready : Bool
  pub rendered_generation : ℕ
  pub generation : ℕ
  pub controller : Option ℕ
  pub visible : Visible
  pub aborted : List ℕ
  pub flying : List Request
  pub notices : List String

-- `controller.current?.abort()`
abbrev pub abort : Directory → List ℕ
abort d = elim d.controller [ none ↦ d.aborted | some id ↦ id ∷ d.aborted ]

-- `loadFiles(path)` of a render with `serverId`, up to its `await`.
unfoldable pub load_files : ℕ → String → Directory → Directory
load_files server_id path d =
    let id = suc d.generation in
    record d {
      aborted = abort d;
      controller = some id;
      generation = id;
      rendered_generation = id;
      visible = record (d.visible) { path = path };
      current_path = path;
      files = [];
      ready = false;
      loading = true;
      flying = record { id = id; server_id = server_id; path = path } ∷ d.flying;
    }

-- `current()` of a call of `loadFiles`.
abbrev pub is_latest : Request → Directory → Bool
is_latest r d =
    not (any (λ id. id == r.id) d.aborted)
    && ((d.generation == r.id) && (d.visible.open_now && (d.visible.server_id == r.server_id)))

-- `response.data || []`, or `error.response?.data?.error`, which is `""` where it is missing.
pub data Answer : Type 0 where
  listed : List FileEntry → Answer
  refused : String → Answer

abbrev pub list_failed : String
list_failed = "加载文件列表失败"

unfoldable pub drop_request : ℕ → List Request → List Request
drop_request id [] = []
drop_request id (r ∷ rs) = let rest = drop_request id rs in if r.id == id then rest else r ∷ rest

unfoldable pub find_request : ℕ → List Request → Option Request
find_request id [] = none
find_request id (r ∷ rs) = if r.id == id then some r else find_request id rs

-- The rest of `loadFiles`, when the answer to its request arrives.
unfoldable pub settle : Request → Answer → Directory → Directory
settle r answer d₀ =
    let d = record d₀ { flying = drop_request r.id d₀.flying } in
    if not (is_latest r d) then d else elim answer [
      | listed entries ↦ record d { files = entries; ready = true; loading = false }
      | refused text ↦ record d { notices = or_text text list_failed ∷ d.notices; loading = false }
    ]

-- The cleanup of the effect.
unfoldable pub leave : Directory → Directory
leave d = record d { generation = suc d.generation; aborted = abort d }

-- A render with `open` and `serverId`; the effect runs if one of them has changed.
unfoldable pub render : Bool → ℕ → Directory → Directory
render open_now server_id d₀ =
    let d = record d₀ {
      visible = record (d₀.visible) { open_now = open_now; server_id = server_id };
    } in
    if bool_eq open_now d₀.visible.open_now && (server_id == d₀.visible.server_id)
    then d
    else if open_now
    then load_files server_id "/" (leave d)
    else leave d

-- The state of the first render, before its effect.
abbrev pub first_directory : Bool → ℕ → Directory
first_directory open_now server_id = record {
  files = [];
  current_path = "/";
  loading = false;
  ready = false;
  rendered_generation = 0;
  generation = 0;
  controller = none;
  visible = record { open_now = open_now; server_id = server_id; path = "/" };
  aborted = [];
  flying = [];
  notices = [];
}

-- The first render with its effect.
unfoldable pub mount : Bool → ℕ → Directory
mount open_now server_id =
    let d = first_directory open_now server_id in if open_now then load_files server_id "/" d else d

-- `ready && open && visible.current.serverId === serverId`, in the render that is shown.
abbrev pub shown_ready : Directory → Bool
shown_ready d = d.ready && d.visible.open_now

-- `capture()`
pub record Captured : Type 0 where
  pub id : ℕ
  pub server_id : ℕ
  pub path : String

unfoldable pub capture : Directory → Captured
capture d = record {
  id = d.rendered_generation;
  server_id = d.visible.server_id;
  path = d.current_path;
}

-- `target.isCurrent()` and `target.refresh()`
unfoldable pub is_current : Captured → Directory → Bool
is_current c d =
    (d.generation == c.id)
    && (d.visible.open_now
        && ((d.visible.server_id == c.server_id) && str_eq d.visible.path c.path))

unfoldable pub refresh : Captured → Directory → Directory
refresh c d = if is_current c d then load_files c.server_id c.path d else d

-- What happens to a directory: a click that loads a path, an answer to a request in flight (a
-- listing, or an error with its text), a render, or a captured target's `refresh`.
pub data Action : Type 0 where
  loads : String → Action
  answers : ℕ → Option String → Action
  renders : Bool → ℕ → Action
  refreshes : Captured → Action

-- `world` is what the servers list: for a request, the entries at its server and path.
module _ (world : Request → List FileEntry) where
  abbrev pub answer_to : Request → Option String → Answer
  answer_to r none = listed (world r)
  answer_to r (some text) = refused text

  unfoldable pub act : Action → Directory → Directory
  act (loads path) d = load_files d.visible.server_id path d
  act (answers id error) d = elim (find_request id d.flying) [
    | none ↦ d
    | some r ↦ settle r (answer_to r error) d
  ]
  act (renders open_now server_id) d = render open_now server_id d
  act (refreshes c) d = refresh c d

  unfoldable pub run : List Action → Directory → Directory
  run [] d = d
  run (a ∷ rest) d = run rest (act a d)
