-- ===== src/Recovery/Found.antt =====
-- daemon/src/recovery.rs: sets of resources in their order, and the routes of Varmlen in what `ip` prints.
use varmlen_client_linux.Base.{
  ℕ, Bool, true, false, not, ◌&&◌, ◌||◌, List, [], ◌∷◌, ◌++◌, ltb, ◌==◌, if◌then◌else◌, is_empty,
}
use varmlen_client_linux.Base.Text.{lines, Str, str, contains}
use varmlen_client_linux.Identity.{ProcessIdentity}
use varmlen_client_linux.Split.Routing.{split_table}
use varmlen_client_linux.Recovery.{
  Resource, xray_process, tun_interface, route_table, nft_table, split_bpf, runtime_file, same,
}

abbrev smaller : Str → Str → Bool
smaller [] [] = false
smaller [] (b ∷ t) = true
smaller (a ∷ s) [] = false
smaller (a ∷ s) (b ∷ t) = ltb a b || (a == b && smaller s t)

abbrev earlier : ProcessIdentity → ProcessIdentity → Bool
earlier p q =
    ltb p.pid q.pid
    || (p.pid == q.pid
        && (ltb p.start_time_ticks q.start_time_ticks
            || (p.start_time_ticks == q.start_time_ticks && smaller p.executable q.executable)))

abbrev variant : Resource → ℕ
variant (xray_process _) = 0
variant (tun_interface _) = 1
variant (route_table _) = 2
variant (nft_table _) = 3
variant (split_bpf _) = 4
variant (runtime_file _) = 5

-- The derived order.
abbrev precedes : Resource → Resource → Bool
precedes (xray_process p) (xray_process q) = earlier p q
precedes (tun_interface s) (tun_interface t) = smaller s t
precedes (route_table s) (route_table t) = smaller s t
precedes (nft_table s) (nft_table t) = smaller s t
precedes (split_bpf s) (split_bpf t) = smaller s t
precedes (runtime_file s) (runtime_file t) = smaller s t
precedes r q = ltb (variant r) (variant q)

-- `BTreeSet::insert`
abbrev pub insert : Resource → List Resource → List Resource
insert r [] = r ∷ []
insert r (q ∷ set) =
    let rest = insert r set in
    if same r q then q ∷ set else if precedes r q then r ∷ q ∷ set else q ∷ rest

abbrev pub insert_if : Bool → Resource → List Resource → List Resource
insert_if found r set = if found then insert r set else set

abbrev lines_with : Bool → Str → List Str → List Str
lines_with wanted pattern [] = []
lines_with wanted pattern (line ∷ rest) =
    let others = lines_with wanted pattern rest in
    if contains pattern line
    then if wanted then line ∷ others else others
    else if wanted
    then others
    else line ∷ others

abbrev join : List Str → Str
join [] = []
join (line ∷ []) = line
join (line ∷ next ∷ rest) = line ++ 0xa ∷ join (next ∷ rest)

unfoldable pub route_resources : Str → Str → List Resource
route_resources rules_text routes_text =
    let split_line = str "lookup " ++ split_table in
    let split_rules = lines_with true split_line (lines rules_text) in
    let helper_rules = join (lines_with false split_line (lines rules_text)) in
    insert_if
      (contains (str "0x2024") helper_rules
        || contains (str "0x00002024") helper_rules
        || contains (str "0x2025") helper_rules
        || contains (str "0x00002025") helper_rules
        || contains (str "0.0.0.0/1") routes_text
        || contains (str "128.0.0.0/1") routes_text
        || contains (str "blackhole ::/1") routes_text
        || contains (str "blackhole 8000::/1") routes_text)
      (route_table (str "100"))
      (insert_if (not (is_empty split_rules)) (route_table split_table) (
        insert_if (contains (str "0x2023") rules_text || contains (str "0x00002023") rules_text)
          (route_table (str "101")) []))

abbrev pub merge : List Resource → List Resource → List Resource
merge [] set = set
merge (r ∷ rs) set = merge rs (insert r set)
