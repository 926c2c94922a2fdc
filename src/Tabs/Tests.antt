-- ===== src/Tabs/Tests.antt =====
-- The tabs on concrete servers.
use opsup.Prelude.{ℕ, ◌≡◌, ◌≢◌, refl, none, List, [], ◌∷◌, arith, length, codes}
use opsup.Prelude.Decimal.{decimal}
use opsup.Types.{Server}
use opsup.Tabs.Workspace.{
  first_workspace, make_key, close_tab, close_terminal, arrow_right, open_terminal, without,
  find_server, last_tab, neighbour, has_key, press, target_index,
}
use opsup.Tabs.Life.{IsSound, Action, opens, presses, run, act, run-first_workspace-IsSound}
use opsup.Terminal.State.{connected, error}
use opsup.Tabs.Status.{reports, changes, status_of, run as run_statuses, status_of-run}

abbrev host : ℕ → Server
host id = record {
  id = id;
  protocol = none;
  rdp_domain = none;
  rdp_cert_fingerprint = none;
  name = "web";
  host_key = "";
  host = "10.0.0.1";
  port = 22;
  username = "ops";
  auth_type = "key";
  description = "";
  group = "";
  jump_server_id = none;
  created_at = "";
  updated_at = "";
}

abbrev todo : List Action
todo =
    opens (host 1) 5
    ∷ opens (host 2) 6
    ∷ opens (host 1) 7
    ∷ opens (host 3) 8
    ∷ presses arrow_right 2
    ∷ []

all_steps : Unit {0}
unfolding make_key find_server open_terminal without last_tab close_terminal neighbour has_key
    close_tab target_index press act run decimal
all_steps = tt

opened : length (run todo first_workspace).tabs ≡ 3
unfolding all_steps
opened = refl

run-first_workspace-IsSound_example : IsSound (run todo first_workspace)
run-first_workspace-IsSound_example = run-first_workspace-IsSound todo

todo_other : (run todo first_workspace).active_key ≢ make_key 2 6
unfolding all_steps
todo_other e = ground (arith, e)

status_of-run_example :
    let es =
      reports (codes "1-5") connected
      ∷ reports (codes "2-6") error
      ∷ changes []
      ∷ reports (codes "2-6") connected
      ∷ [] in
    status_of (codes "2-6") (run_statuses es []) ≡ connected
unfolding status_of
status_of-run_example =
    status_of-run (codes "2-6")
      (reports (codes "1-5") connected
        ∷ reports (codes "2-6") error
        ∷ changes []
        ∷ reports (codes "2-6") connected
        ∷ [])
      []
