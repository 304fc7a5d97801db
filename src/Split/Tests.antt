-- ===== src/Split/Tests.antt =====
-- Runs of the manager of daemon/src/split/mod.rs, and one route of daemon/src/split/routing.rs.
use varmlen_client_linux.Base.{
  List, ◌||◌, any, ℕ, Bool, true, false, [], ◌∷◌, some, Result, ok, err, Done, Eff, ◌≡◌, ◌⊎◌, refl,
  is_ok,
}
use varmlen_client_linux.Base.Text.{Str, str}
use varmlen_client_linux.Split.{
  SplitPlan, SplitBackend, SplitManager, SplitError, routing_unavailable, disabled, active, new,
  apply,
}
use varmlen_client_linux.Split.Apply.{Recorded, recorded, RolledBack, up, apply_lem}
use varmlen_client_linux.Split.Process.{
  AppSelector, process_name, ProcessSnapshot, matches, matches_target, is_windows_image,
  PermissionDecision, permission_decision,
}
use varmlen_client_linux.Split.Subtree.{mem, Tree, subtree, children, push_children}
use varmlen_client_linux.Split.Subtree.Whole.{IsWhole, subtree_lem}
use varmlen_client_linux.Split.Reconcile
use varmlen_client_linux.Split.Reconcile.{ProcessHost, Owned, reconcile_with}
use varmlen_client_linux.Split.Routing.{PhysicalRoute}

abbrev fine : Eff Unit SplitError Done
fine _ = (ok tt, tt)

-- The routing cannot be laid.
abbrev unroutable : SplitBackend Unit
unroutable = record {
  create_cgroup = λ _. fine;
  attach_socket_mark_bpf = fine;
  install_route_rules = λ _. (err routing_unavailable, tt);
  start_permission_watcher = λ _. fine;
  reconcile_existing = λ _. fine;
  update_plan = λ _. fine;
  refresh_route_rules = fine;
  rollback = fine;
}

abbrev plan : SplitPlan
plan = record { uid = 1000; applications = str "/usr/bin/ssh" ∷ [] }

abbrev manager : SplitManager (Recorded Unit)
manager = new (record { inner = tt; trace = [] })

abbrev applied : SplitManager (Recorded Unit)
applied = (apply (recorded unroutable) plan manager).1

abbrev result : Result SplitError Done
result = (apply (recorded unroutable) plan manager).0

apply_lem_example :
    ((is_ok result ≡ true) × (applied.status ≡ active) × (applied.backend.trace ≡ up []))
    ⊎ ((is_ok result ≡ false) × (applied.status ≡ disabled) × RolledBack applied.backend.trace)
apply_lem_example = apply_lem unroutable plan manager

abbrev route : PhysicalRoute
route = record { interface = str "wlan0"; gateway = some (str "192.168.1.1") }

abbrev any_address : Str → Bool
any_address _ = true

abbrev line : Str
line = str "default via 192.168.1.1 dev wlan0 proto dhcp"

abbrev game : ProcessSnapshot
game = record {
  comm = str "wine64";
  executable = str "/usr/bin/wine64-preloader";
  argument_zero = str "wine64";
  arguments = str "wine64" ∷ str "Z:/games/REPO.exe" ∷ [];
  cgroup = str "/user.slice";
}

plain : is_windows_image (str "firefox") ≡ false
unfolding is_windows_image
plain = refl

abbrev selectors : List AppSelector
selectors = process_name (str "REPO.exe") ∷ []

abbrev decision : PermissionDecision
decision = permission_decision 1000 1000 (str "/usr/bin/wine64") game selectors false

abbrev meant : Bool
meant = any (λ s. matches_target s (str "/usr/bin/wine64") || matches s game) selectors

-- A tree with a cycle.
abbrev tree : Tree
tree = (1, 2 ∷ 3 ∷ []) ∷ (3, 4 ∷ 1 ∷ []) ∷ []

walked : subtree tree 1 ≡ some (1 ∷ 2 ∷ 3 ∷ 4 ∷ [])
unfolding subtree children push_children
walked = refl

subtree_lem_example : (found : List ℕ) × (subtree tree 1 ≡ some found) × IsWhole tree 1 found
subtree_lem_example = subtree_lem tree 1

-- Process 4 was moved by a selector that the plan no longer has; process 2 is its child.
abbrev processes : ProcessHost (List ℕ)
processes = record {
  pids = λ w. some (2 ∷ 4 ∷ 9 ∷ []);
  real_uid = λ pid w. some 1000;
  contains_pid = λ pid w. mem pid w;
  snapshot = λ pid w. some game;
  move_pid = λ pid w. (ok tt, pid ∷ w);
  mark_existing_sockets = λ pid w. w;
  member_pids = λ w. w;
  process_tree = λ w. (4, 2 ∷ []) ∷ [];
  move_out = λ pid w. w;
}

abbrev moved : Owned
moved = (4, process_name (str "ssh")) ∷ []

abbrev after : Result SplitError Done × Owned × List ℕ
after = reconcile_with processes 1000 selectors moved (2 ∷ 4 ∷ [])
