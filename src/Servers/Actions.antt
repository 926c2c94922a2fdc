-- ===== src/Servers/Actions.antt =====
-- ui/src/components/ServerSidebar.tsx, lines 18 to 48, 68 to 74, 84, 91, 117 and 127 to 131: the list of
-- servers as it is fetched, the menu of a server, and the dialogs that it opens. Calls, and messages to
-- the user, are recorded in `made`, in their order.
use opsup.Prelude.{
  String, Bool, true, false, not, ◌&&◌, ◌||◌, Option, none, some, List, [], ◌∷◌, ◌++◌, or_text,
  template, if◌then◌else◌,
}
use opsup.Types.{Server, is_rdp}

pub data Call : Type 0 where
  lists : Call
  connects tests asks deletes : Server → Call
  says errs : String → Call

pub record ServerList : Type 0 where
  pub servers : List Server
  pub loading : Bool
  pub modal_open : Bool
  pub editing : Option Server
  pub file_manager_server : Option Server
  -- The server that an open `Modal.confirm` asks about.
  pub asking : Option Server
  pub made : List Call

-- A menu's items, by their keys.
pub data Item : Type 0 where
  connect files test edit delete : Item

abbrev pub is_files : Item → Bool
is_files files = true
is_files _ = false

abbrev pub is_test : Item → Bool
is_test test = true
is_test _ = false

-- The filter of `menuFor(server)`.
unfoldable pub offers : Server → Item → Bool
offers server item = not (is_rdp server.protocol) || (not (is_files item) && not (is_test item))

abbrev pub calls : List Call → ServerList → ServerList
calls cs l = record l { made = l.made ++ cs }

-- The first render and its effect.
unfoldable pub mount : ServerList
mount = record {
  servers = [];
  loading = true;
  modal_open = false;
  editing = none;
  file_manager_server = none;
  asking = none;
  made = lists ∷ [];
}

-- The end of `fetchServers`: a failure, or what is listed, which may be `null`.
unfoldable pub fetched : Option (Option (List Server)) → ServerList → ServerList
fetched none l = record l { loading = false }
fetched (some none) l = record l { servers = []; loading = false }
fetched (some (some ss)) l = record l { servers = ss; loading = false }

-- `handleEdit`, `handleDelete`, `handleTest` up to its `await`, and the other two.
unfoldable pub choose : Item → Server → ServerList → ServerList
choose connect s l = calls (connects s ∷ []) l
choose files s l = record l { file_manager_server = some s }
choose test s l = calls (tests s ∷ []) l
choose edit s l = record l { editing = some s; modal_open = true }
choose delete s l = calls (asks s ∷ []) (record l { asking = some s })

-- What `testConnection` answers: its result, or an error that may have a text.
pub data TestAnswer : Type 0 where
  success : TestAnswer
  failure : String → TestAnswer
  threw : Option String → TestAnswer

unfoldable pub tested : TestAnswer → ServerList → ServerList
tested success l = calls (says "连接成功" ∷ []) l
tested (failure error) l = calls (errs (template ("连接失败: " ∷ error ∷ [])) ∷ []) l
tested (threw none) l = calls (errs "测试失败" ∷ []) l
tested (threw (some error)) l = calls (errs (or_text error "测试失败") ∷ []) l

-- The two buttons of `Modal.confirm`, and the rest of `onOk` once the server is deleted.
unfoldable pub confirm : Bool → ServerList → ServerList
confirm ok l = elim l.asking [
  | none ↦ l
  | some s ↦
      let closed = record l { asking = none } in
      if ok then calls (deletes s ∷ []) closed else closed
]

unfoldable pub deleted : ServerList → ServerList
deleted l = calls (says "已删除" ∷ lists ∷ []) l

-- `handleModalOk`, and `onCancel`.
unfoldable pub modal_ok : ServerList → ServerList
modal_ok l = calls (lists ∷ []) (record l { modal_open = false; editing = none })

unfoldable pub modal_cancel : ServerList → ServerList
modal_cancel l = record l { modal_open = false; editing = none }

pub data Event : Type 0 where
  answers : Option (Option (List Server)) → Event
  chooses : Item → Server → Event
  clicks_files : Server → Event
  adds : Event
  test_answers : TestAnswer → Event
  confirms : Bool → Event
  delete_answers oks cancels closes_files : Event

-- An item that the menu does not offer cannot be chosen, and a desktop's card has no button of files.
unfoldable pub react : Event → ServerList → ServerList
react (answers a) l = fetched a l
react (chooses item s) l = if offers s item then choose item s l else l
react (clicks_files s) l =
    if not (is_rdp s.protocol) then record l { file_manager_server = some s } else l
react adds l = record l { editing = none; modal_open = true }
react (test_answers a) l = tested a l
react (confirms ok) l = confirm ok l
react delete_answers l = deleted l
react oks l = modal_ok l
react cancels l = modal_cancel l
react closes_files l = record l { file_manager_server = none }

unfoldable pub run : List Event → ServerList → ServerList
run [] l = l
run (e ∷ es) l = run es (react e l)
