-- ===== src/Split/Process.antt =====
-- daemon/src/split/process.rs: the selectors of the programs that bypass the tunnel, and the decision of
-- daemon/src/split/watcher.rs about a program that is about to run. Text is valid UTF-8 throughout.
pub mod Names
use varmlen_client_linux.Base.{
  ℕ, Bool, true, false, not, ◌&&◌, ◌||◌, List, [], ◌∷◌, Option, none, some, Result, ok, err, ltb,
  leb, ◌==◌, if◌then◌else◌, is_empty, is_some, any, length,
}
use varmlen_client_linux.Base.Text.{
  Str, str, str_eq, len, trim, contains, contains_char, eq_ignore_ascii_case, split_by, nonempty,
  split_whitespace, starts_with,
}
use varmlen_client_linux.Split.{SplitError, invalid_application}

pub data AppSelector : Type 0 where
  exact_path process_name : Str → AppSelector

pub record ProcessSnapshot : Type 0 where
  pub comm : Str
  pub executable : Str
  pub argument_zero : Str
  pub arguments : List Str
  pub cgroup : Str

abbrev pub is_absolute : Str → Bool
is_absolute path = starts_with (str "/") path

abbrev without_dots : List Str → List Str
without_dots [] = []
without_dots (part ∷ parts) =
    let rest = without_dots parts in if str_eq part (str ".") then rest else part ∷ rest

-- `Path::components` of an absolute path, behind the root.
unfoldable pub components : Str → List Str
components path = without_dots (nonempty (split_by (λ c. c == b'/') path))

abbrev same_parts : List Str → List Str → Bool
same_parts [] [] = true
same_parts (a ∷ s) (b ∷ t) = str_eq a b && same_parts s t
same_parts _ _ = false

-- `==` on paths goes by their components.
unfoldable pub path_eq : Str → Str → Bool
unfolding components
path_eq s t =
    (if is_absolute s then is_absolute t else not (is_absolute t))
    && same_parts (components s) (components t)

abbrev named : Str → Option Str
named part = if str_eq part (str "..") then none else some part

abbrev last_named : List Str → Option Str
last_named [] = none
last_named (part ∷ []) = named part
last_named (_ ∷ part ∷ parts) = last_named (part ∷ parts)

-- `Path::file_name`
unfoldable pub file_name : Str → Option Str
unfolding components
file_name path = last_named (components path)

abbrev pub is_separator : ℕ → Bool
is_separator c = c == b'/' || c == 0x5c

-- `rsplit(p).next()`: what follows the last character that passes the test.
unfoldable pub after_last : (ℕ → Bool) → Str → Str
after_last p [] = []
after_last p (c ∷ s) =
    let rest = after_last p s in if any p s then rest else if p c then s else c ∷ s

unfoldable pub argument_is_named : Str → Str → Bool
unfolding after_last
argument_is_named argument name = eq_ignore_ascii_case (after_last is_separator argument) name

abbrev is_dot : ℕ → Bool
is_dot c = c == b'.'

unfoldable pub is_windows_image : Str → Bool
unfolding after_last
is_windows_image name = any is_dot name && eq_ignore_ascii_case (after_last is_dot name) (str "exe")

unfoldable pub is_application_id : Str → Bool
unfolding is_windows_image
is_application_id name =
    not (contains_char b'-' name)
    && not (is_windows_image name)
    && leb 3 (length (nonempty (split_by is_dot name)))

-- The test of `command_words`: of each argument as a whole and of each of its words.
unfoldable pub any_command_word : (Str → Bool) → List Str → Bool
any_command_word p [] = false
any_command_word p (argument ∷ arguments) =
    p argument || any p (split_whitespace argument) || any_command_word p arguments

unfoldable pub cgroup_paths_contain : Str → ProcessSnapshot → Bool
cgroup_paths_contain id process = any (contains id) (split_by (λ c. c == b'/') process.cgroup)

abbrev pub is_named : Option Str → Str → Bool
is_named none name = false
is_named (some part) name = eq_ignore_ascii_case part name

abbrev or_empty : Option Str → Str
or_empty none = []
or_empty (some part) = part

-- `AppSelector::parse`
unfoldable pub parse : Str → Result SplitError AppSelector
parse untrimmed =
    let value = trim untrimmed in
    if is_empty value || ltb 4096 (len value) || contains_char 0 value
    then err (invalid_application value)
    else if is_absolute value
    then ok (exact_path value)
    else if contains_char b'/' value || contains_char 0x5c value
    then err (invalid_application value)
    else ok (process_name value)

unfoldable pub matches : AppSelector → ProcessSnapshot → Bool
unfolding path_eq file_name argument_is_named is_windows_image any_command_word
matches (exact_path path) process = path_eq process.executable path
matches (process_name name) process =
    eq_ignore_ascii_case process.comm name
    || eq_ignore_ascii_case (or_empty (file_name process.executable)) name
    || argument_is_named process.argument_zero name
    || (is_windows_image name
        && any_command_word (λ word. argument_is_named word name) process.arguments)

unfoldable pub matched_application_id : AppSelector → ProcessSnapshot → Option Str
unfolding is_application_id cgroup_paths_contain
matched_application_id (exact_path path) process = none
matched_application_id (process_name name) process =
    if is_application_id name && cgroup_paths_contain name process then some name else none

unfoldable pub matches_target : AppSelector → Str → Bool
unfolding path_eq file_name
matches_target (exact_path path) target = path_eq path target
matches_target (process_name name) target = is_named (file_name target) name

pub data PermissionDecision : Type 0 where
  allow move_and_allow deny : PermissionDecision

unfoldable pub permission_decision :
    (process_uid owner_uid : ℕ) (target : Str) (process : ProcessSnapshot)
    → List AppSelector
    → (move_succeeded : Bool) → PermissionDecision
permission_decision process_uid owner_uid target process selectors move_succeeded =
    if not (process_uid == owner_uid)
      || not
          (any (λ selector. matches_target selector target || matches selector process) selectors)
    then allow
    else if move_succeeded
    then move_and_allow
    else deny
