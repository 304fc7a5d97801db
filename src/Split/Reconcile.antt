-- ===== src/Split/Reconcile.antt =====
-- daemon/src/split/system.rs, `reconcile_with`: one pass of the processes against the selectors. The map
-- of the processes that the split moved is an association list, in the order of its iteration.
pub mod Current
use varmlen_client_linux.Base.{
  ℕ, zero, suc, Bool, true, false, not, ◌&&◌, ◌||◌, List, [], ◌∷◌, Option, none, some, Result, ok,
  err, Done, Eff, ltb, ◌==◌, if◌then◌else◌, is_some, any, length, unwrap_or, ◌>>=◌, ◌>>◌, pure,
}
use varmlen_client_linux.Base.Text.{Str, str_eq}
use varmlen_client_linux.Split.{SplitError, reconciliation_failed}
use varmlen_client_linux.Split.Process.{
  AppSelector, exact_path, process_name, ProcessSnapshot, path_eq, matches, matched_application_id,
}
use varmlen_client_linux.Split.Subtree.{Tree, mem, subtree}

abbrev pub max_owned_pids : ℕ
max_owned_pids = 8192

abbrev pub Owned : Type 0
Owned = List (ℕ × AppSelector)

-- The derived `==`.
unfoldable pub same_selector : AppSelector → AppSelector → Bool
unfolding path_eq
same_selector (exact_path s) (exact_path t) = path_eq s t
same_selector (process_name s) (process_name t) = str_eq s t
same_selector _ _ = false

abbrev pub holds : List AppSelector → AppSelector → Bool
holds selectors selector = any (λ s. same_selector s selector) selectors

-- `HashMap::remove`, `contains_key` and `insert`
unfoldable pub remove : ℕ → Owned → Owned
remove pid [] = []
remove pid ((p, s) ∷ owned) =
    let rest = remove pid owned in if p == pid then rest else (p, s) ∷ rest

unfoldable pub contains_key : ℕ → Owned → Bool
contains_key pid [] = false
contains_key pid ((p, s) ∷ owned) = p == pid || contains_key pid owned

-- `if owned.len() < MAX_OWNED_PIDS { owned.insert(pid, selector.clone()); }`
unfoldable pub remember : ℕ → AppSelector → Owned → Owned
unfolding remove
remember pid selector owned =
    if ltb (length owned) max_owned_pids then (pid, selector) ∷ remove pid owned else owned

-- `owned.retain(|pid, _| members.contains(pid))`
unfoldable pub retain : List ℕ → Owned → Owned
retain members [] = []
retain members ((p, s) ∷ owned) =
    let rest = retain members owned in if mem p members then (p, s) ∷ rest else rest

unfoldable pub find : (AppSelector → Bool) → List AppSelector → Option AppSelector
find p [] = none
find p (selector ∷ selectors) =
    let rest = find p selectors in if p selector then some selector else rest

unfoldable pub stale : List AppSelector → Owned → List ℕ
stale selectors [] = []
stale selectors ((p, s) ∷ owned) =
    let rest = stale selectors owned in if holds selectors s then rest else p ∷ rest

-- What the pass reads of /proc and does to the cgroup.
pub record ProcessHost (W : Type 0) : Type 0 where
  pub pids : W → Option (List ℕ)  -- the numbers among the entries of /proc
  pub real_uid : ℕ → W → Option ℕ
  pub contains_pid : ℕ → W → Bool
  pub snapshot : ℕ → W → Option ProcessSnapshot
  pub move_pid : ℕ → Eff W SplitError Done
  pub mark_existing_sockets : ℕ → W → W
  pub member_pids : W → List ℕ
  pub process_tree : W → Tree
  pub move_out : ℕ → W → W  -- its result is dropped

module _ {W : Type 0} (host : ProcessHost W) (owner_uid : ℕ) (selectors : List AppSelector) where
  abbrev is_owners : Option ℕ → Bool
  is_owners none = false
  is_owners (some uid) = uid == owner_uid

  abbrev chosen : Option ProcessSnapshot → Option AppSelector
  chosen none = none
  chosen (some process) =
      find (λ s. matches s process || is_some (matched_application_id s process)) selectors

  abbrev after_move :
      ℕ → AppSelector → Owned → Result SplitError Done × W → Result SplitError Owned × W
  after_move pid selector owned (ok _, w) =
      (ok (remember pid selector owned), host.mark_existing_sockets pid w)
  after_move pid selector owned (err e, w) = (err e, w)

  move_chosen : ℕ → Option AppSelector → Owned → Eff W SplitError Owned
  move_chosen pid none owned w = (ok owned, w)
  move_chosen pid (some selector) owned w = after_move pid selector owned (host.move_pid pid w)

  move_one : ℕ → Owned → Eff W SplitError Owned
  unfolding move_chosen
  move_one pid owned w =
      if not (is_owners (host.real_uid pid w)) || host.contains_pid pid w
      then (ok owned, w)
      else move_chosen pid (chosen (host.snapshot pid w)) owned w

  -- On an error the map keeps what was put in before it.
  move_all : List ℕ → Owned → W → Result SplitError Done × Owned × W
  unfolding move_one
  move_all [] owned w = (ok tt, owned, w)
  move_all (pid ∷ pids) owned w =
      let (moved, w') = move_one pid owned w in
      elim moved [ err e ↦ (err e, owned, w') | ok owned' ↦ move_all pids owned' w' ]

  abbrev attributed : Option ProcessSnapshot → Option AppSelector
  attributed none = none
  attributed (some process) = find (λ s. matches s process) selectors

  abbrev remember_if : ℕ → Option AppSelector → Owned → Owned
  remember_if pid none owned = owned
  remember_if pid (some selector) owned = remember pid selector owned

  attribute : List ℕ → Owned → W → Owned
  attribute [] owned w = owned
  attribute (pid ∷ pids) owned w =
      attribute pids (remember_if pid (attributed (host.snapshot pid w)) owned) w

  abbrev without_key : Owned → List ℕ → List ℕ
  without_key owned [] = []
  without_key owned (pid ∷ pids) =
      let rest = without_key owned pids in if contains_key pid owned then rest else pid ∷ rest

  give_back : List ℕ → List ℕ → Owned → W → Owned × W
  give_back members [] owned w = (owned, w)
  give_back members (pid ∷ pids) owned w =
      give_back members pids (remove pid owned) (if mem pid members then host.move_out pid w else w)

  -- The walk never runs out of fuel.
  give_back_all : Tree → List ℕ → List ℕ → Owned → W → Owned × W
  unfolding give_back
  give_back_all tree members [] owned w = (owned, w)
  give_back_all tree members (root ∷ roots) owned w =
      let (owned', w') = give_back members (unwrap_or (subtree tree root) []) owned w in
      give_back_all tree members roots owned' w'

  settle : Owned → W → Owned × W
  unfolding attribute give_back_all
  settle owned w =
      let members = host.member_pids w in
      let kept = retain members owned in
      let known = attribute (without_key kept members) kept w in
      give_back_all (host.process_tree w) members (stale selectors known) known w

  settle_if : Result SplitError Done × Owned × W → Result SplitError Done × Owned × W
  unfolding settle
  settle_if (ok _, owned, w) = let (owned', w') = settle owned w in (ok tt, owned', w')
  settle_if (err e, owned, w) = (err e, owned, w)

  pass : Option (List ℕ) → Owned → W → Result SplitError Done × Owned × W
  unfolding move_all settle_if
  pass none owned w = (err reconciliation_failed, owned, w)
  pass (some pids) owned w = settle_if (move_all pids owned w)

  unfoldable pub reconcile_with : Owned → W → Result SplitError Done × Owned × W
  unfolding pass
  reconcile_with owned w = pass (host.pids w) owned w
