-- ===== src/Helper/Pids.antt =====
-- helper/src/main.rs: which processes are meant by the excluded programs, and the sweep that moves them.
use varmlen_client_linux.Base.{
  ℕ, ◌+◌, ◌/◌, ◌%◌, Bool, true, false, not, ◌&&◌, ◌||◌, List, [], ◌∷◌, ◌++◌, Option, none, some,
  if◌then◌else◌, any, ltb, ◌==◌, is_empty, take, unwrap_or, to_option,
}
use varmlen_client_linux.Base.Text.{
  Str, str, len, str_eq, eq_ignore_ascii_case, starts_with, trim, split_by, nonempty, decimal,
  parse_unsigned,
}
use varmlen_client_linux.Helper.Machine.{Machine}

abbrev comm_max : ℕ
comm_max = 15

abbrev ends_with_slash : Str → Bool
ends_with_slash [] = false
ends_with_slash (c ∷ []) = c == b'/'
ends_with_slash (c ∷ d ∷ s) = ends_with_slash (d ∷ s)

-- `as_bytes`: UTF-8.
abbrev char_bytes : ℕ → List ℕ
char_bytes c =
    if ltb c 0x80
    then c ∷ []
    else if ltb c 0x800
    then (0xc0 + c / 64) ∷ (0x80 + c % 64) ∷ []
    else if ltb c 0x10000
    then (0xe0 + c / 4096) ∷ (0x80 + c / 64 % 64) ∷ (0x80 + c % 64) ∷ []
    else (0xf0 + c / 262144) ∷ (0x80 + c / 4096 % 64) ∷ (0x80 + c / 64 % 64) ∷ (0x80 + c % 64) ∷ []

abbrev as_bytes : Str → List ℕ
as_bytes [] = []
as_bytes (c ∷ s) = char_bytes c ++ as_bytes s

-- `comm` holds the first fifteen bytes of a longer name only.
abbrev matches_truncated : Str → Str → Bool
matches_truncated id comm =
    ltb comm_max (len id)
    && len comm == comm_max
    && eq_ignore_ascii_case (take comm_max (as_bytes id)) (as_bytes comm)

-- A selector that ends with a slash means every program below it.
unfoldable pub id_matches : Str → Str → Str → Str → Str → Bool
id_matches id comm exe exe_base arg0_base =
    if is_empty id
    then false
    else if ends_with_slash id
    then not (is_empty exe) && starts_with id exe
    else if eq_ignore_ascii_case comm id
        || eq_ignore_ascii_case exe_base id
        || str_eq exe id
        || (not (is_empty arg0_base) && eq_ignore_ascii_case arg0_base id)
    then true
    else matches_truncated id comm

abbrev last_piece : List Str → Str
last_piece [] = []
last_piece (s ∷ []) = s
last_piece (s ∷ t ∷ rest) = last_piece (t ∷ rest)

abbrev first_piece : List Str → Str
first_piece [] = []
first_piece (s ∷ _) = s

-- The part of the first argument behind its last separator, of Unix or of Windows.
unfoldable pub arg0_basename : Str → Str
arg0_basename cmdline =
    last_piece
      (split_by (λ c. c == b'/' || c == 0x5c) (first_piece (split_by (λ c. c == 0) cmdline)))

abbrev without_dots : List Str → List Str
without_dots [] = []
without_dots (s ∷ rest) = if str_eq s (str ".") then without_dots rest else s ∷ without_dots rest

-- `Path::file_name`, and nothing where there is none.
abbrev file_name : Str → Str
file_name path =
    let name = last_piece (without_dots (nonempty (split_by (λ c. c == b'/') path))) in
    if str_eq name (str "..") then [] else name

abbrev pub proc_file : ℕ → Str → Str
proc_file pid name = str "/proc/" ++ (decimal pid ++ name)

abbrev pub parse_pid : Str → Option ℕ
parse_pid name = parse_unsigned 4294967295 name

module _ {W : Type 0} (machine : Machine W) where
  unfoldable pub pid_matches_excluded : ℕ → List Str → W → Bool
  unfolding id_matches arg0_basename
  pid_matches_excluded pid excluded w =
      let comm =
        trim (unwrap_or (to_option (machine.read_to_string (proc_file pid (str "/comm")) w)) []) in
      let exe = unwrap_or (machine.read_link (proc_file pid (str "/exe")) w) [] in
      let arg0 = unwrap_or (machine.read_lossy (proc_file pid (str "/cmdline")) w) [] in
      any (λ id. id_matches id comm exe (file_name exe) (arg0_basename arg0)) excluded

  unfoldable pub bypass_move_if_match : Str → ℕ → List Str → W → W
  unfolding pid_matches_excluded
  bypass_move_if_match procs pid excluded w =
      if pid_matches_excluded pid excluded w then (machine.write procs (decimal pid) w).1 else w

  -- A name in /proc that is no number is no process.
  unfoldable pub sweep_entry : Str → List Str → Option ℕ → W → W
  unfolding bypass_move_if_match
  sweep_entry procs excluded none w = w
  sweep_entry procs excluded (some pid) w = bypass_move_if_match procs pid excluded w

  unfoldable pub sweep : Str → List Str → List Str → W → W
  unfolding sweep_entry
  sweep procs excluded [] w = w
  sweep procs excluded (name ∷ names) w =
      sweep procs excluded names (sweep_entry procs excluded (parse_pid name) w)

  unfoldable pub bypass_sweep : Str → List Str → W → W
  unfolding sweep
  bypass_sweep procs excluded w =
      sweep procs excluded (unwrap_or (machine.read_dir (str "/proc") w) []) w
