-- ===== src/Files/Memory.antt =====
-- A disk in memory, which has the laws that daemon/src/state.rs and daemon/src/log_store.rs rely on.
use varmlen_client_linux.Base.{
  ℕ, false, [], ◌∷◌, ◌++◌, Option, none, some, Result, ok, err, Done, ◌≡◌, ◌≢◌, arith, refl, length,
  take, drop, if◌then◌else◌, inl, inr, is_ok, ◌⊎◌, ◌∙◌, sym, ap, take_all, ◌+◌,
}
use varmlen_client_linux.Base.Text.{Str, str, str_eq, str_eq_iff}
use varmlen_client_linux.Protocol.Frames.{Bytes}
use varmlen_client_linux.Files.{Files, FileLaws, LogLaws, IoError, not_found, other}

abbrev pub Disk : Type 0
Disk = Str → Option Bytes

abbrev set : Str → Option Bytes → Disk → Disk
set path content disk q = if str_eq path q then content else disk q

abbrev on_content : {A : Type 0} → Option Bytes → (Bytes → A) → Disk → Result IoError A × Disk
on_content none f disk = (err not_found, disk)
on_content (some b) f disk = (ok (f b), disk)

abbrev created : Option Bytes → Str → Disk → Result IoError Done × Disk
created none path disk = (ok tt, set path (some []) disk)
created (some b) path disk = (err (other (str "exists")), disk)

abbrev opened : Option Bytes → Str → Disk → Result IoError Done × Disk
opened none path disk = (ok tt, set path (some []) disk)
opened (some b) path disk = (ok tt, disk)

abbrev appended : Option Bytes → Str → Bytes → Disk → Result IoError Done × Disk
appended none path bytes disk = (err not_found, disk)
appended (some b) path bytes disk = (ok tt, set path (some (b ++ bytes)) disk)

abbrev renamed : Option Bytes → Str → Str → Disk → Result IoError Done × Disk
renamed none from to disk = (err not_found, disk)
renamed (some b) from to disk = (ok tt, set to (some b) (set from none disk))

abbrev removed : Option Bytes → Str → Disk → Result IoError Done × Disk
removed none path disk = (err not_found, disk)
removed (some b) path disk = (ok tt, set path none disk)

abbrev digit : ℕ → Str
digit n = (48 + n) ∷ []

-- A sync does nothing; every path has one parent directory.
abbrev pub memory : Files Disk
memory = record {
  open_read = λ path disk. on_content (disk path) (λ _. tt) disk;
  metadata_len = λ path disk. on_content (disk path) length disk;
  read_to_end = λ path n disk. on_content (disk path) (take n) disk;
  read_from = λ path n disk. on_content (disk path) (drop n) disk;
  from_utf8_lossy = λ bytes. bytes;
  open_append = λ path disk. opened (disk path) path disk;
  flush = λ path disk. (ok tt, disk);
  is_symlink = λ path disk. false;
  parent = λ path. some (str "/run/varmlen");
  fetch_add = λ disk. (1, disk);
  process_id = 7;
  show = digit;
  create_new = λ path disk. created (disk path) path disk;
  write_all = λ path bytes disk. appended (disk path) path bytes disk;
  sync_all = λ path disk. (ok tt, disk);
  rename = λ from to disk. renamed (disk from) from to disk;
  remove_file = λ path disk. removed (disk path) path disk;
}

pub set_other :
    (q p : Str) (content : Option Bytes) (disk : Disk) → q ≢ p → set q content disk p ≡ disk p
set_other q p content disk d = ground (arith, str_eq_iff q p)

pub set_same : (q : Str) (content : Option Bytes) (disk : Disk) → set q content disk q ≡ content
set_same q content disk = ground (arith, str_eq_iff q q)

pub created_other :
    (o : Option Bytes) (q p : Str) (disk : Disk) → q ≢ p → (created o q disk).1 p ≡ disk p
created_other none q p disk d = set_other q p (some []) disk d
created_other (some b) q p disk d = refl

pub appended_other :
    (o : Option Bytes) (q p : Str) (b : Bytes) (disk : Disk)
    → q ≢ p
    → (appended o q b disk).1 p ≡ disk p
appended_other none q p b disk d = refl
appended_other (some c) q p b disk d = set_other q p (some (c ++ b)) disk d

pub removed_other :
    (o : Option Bytes) (q p : Str) (disk : Disk) → q ≢ p → (removed o q disk).1 p ≡ disk p
removed_other none q p disk d = refl
removed_other (some b) q p disk d = set_other q p none disk d

pub renamed_to :
    (q p : Str) (disk : Disk)
    → (o : Option Bytes) → disk q ≡ o
    → ((renamed o q p disk).0 ≡ ok tt → (renamed o q p disk).1 p ≡ disk q)
      × (is_ok (renamed o q p disk).0 ≡ false → (renamed o q p disk).1 p ≡ disk p)
renamed_to q p disk none e = (λ h. cc, λ h. refl)
renamed_to q p disk (some b) e =
    (λ h. ground (arith, set_same p (some b) (set q none disk)), λ h. ground arith)

pub created_same :
    (o : Option Bytes) (q : Str) (disk : Disk)
    → (created o q disk).0 ≡ ok tt
    → (created o q disk).1 q ≡ some []
created_same none q disk h = set_same q (some []) disk
created_same (some b) q disk h = cc

pub same_content :
    {A : Type 0} (o : Option Bytes) (f : Bytes → A) (disk : Disk) (p : Str)
    → (on_content o f disk).1 p ≡ disk p
same_content none f disk p = refl
same_content (some b) f disk p = refl

abbrev pub memory_laws : (p : Str) → FileLaws memory p
memory_laws p = record {
  contents = λ q disk. disk q;
  fetch_add = λ disk. refl;
  create_new = λ q disk d. created_other (disk q) q p disk d;
  created = λ q disk h. created_same (disk q) q disk h;
  write_all = λ q b disk d. appended_other (disk q) q p b disk d;
  written = λ q b c disk e h. rw e (set_same q (some (c ++ b)) disk);
  sync_all = λ q r disk. refl;
  renamed = λ q disk h. (renamed_to q p disk (disk q) refl).0 h;
  not_renamed = λ q disk h. (renamed_to q p disk (disk q) refl).1 h;
  remove_file = λ q disk d. removed_other (disk q) q p disk d;
  opened = λ disk h. same_content (disk p) (λ _. tt) disk p;
  len = λ b disk e. rw e refl;
  read_to_end = λ n b disk e. rw e refl;
}

pub renamed_other :
    (o : Option Bytes) (q r p : Str) (disk : Disk)
    → q ≢ p
    → r ≢ p
    → (renamed o q r disk).1 p ≡ disk p
renamed_other none q r p disk d e = refl
renamed_other (some b) q r p disk d e =
    set_other r p (some b) (set q none disk) e ∙ set_other q p none disk d

pub moved_away :
    (o : Option Bytes) (r p : Str) (disk : Disk)
    → r ≢ p
    → (renamed o p r disk).0 ≡ ok tt
    → (renamed o p r disk).1 p ≡ none
moved_away none r p disk d h = cc
moved_away (some b) r p disk d h = set_other r p (some b) (set p none disk) d ∙ set_same p none disk

pub not_there :
    (o : Option Bytes) (r p : Str) (disk : Disk)
    → disk p ≡ o
    → ((renamed o p r disk).0 ≡ err not_found → (renamed o p r disk).1 p ≡ none)
      × (is_ok (renamed o p r disk).0 ≡ false → (renamed o p r disk).1 p ≡ disk p)
not_there none r p disk e = (λ h. e, λ h. refl)
not_there (some b) r p disk e = (λ h. cc, λ h. cc)

pub removed_same :
    (o : Option Bytes) (p : Str) (disk : Disk)
    → ((removed o p disk).1 p ≡ none) ⊎ ((removed o p disk).1 p ≡ disk p)
removed_same none p disk = inr refl
removed_same (some b) p disk = inl (set_same p none disk)

pub opened_none : (p : Str) (disk : Disk) → (opened none p disk).1 p ≡ some []
opened_none p disk = set_same p (some []) disk

abbrev pub memory_log_laws : (p : Str) → LogLaws memory p
memory_log_laws p = record {
  contents = λ disk. disk p;
  len = λ b disk e. rw e refl;
  no_len = λ disk. same_content (disk p) length disk p;
  other = λ q r disk d e. renamed_other (disk q) q r p disk d e;
  moved = λ r disk d h. moved_away (disk p) r p disk d h;
  absent = λ r disk h. (not_there (disk p) r p disk refl).0 h;
  not_moved = λ r disk h. (not_there (disk p) r p disk refl).1 h;
  remove_other = λ q disk d. removed_other (disk q) q p disk d;
  removed = λ disk. removed_same (disk p) p disk;
  remade = λ disk e. rw e (inr (opened_none p disk));
  found = λ b disk e. rw e e;
  wrote = λ b c disk e. (
    length b,
    rw e (
        set_same p (some (c ++ b)) disk
        ∙ ap (λ d. some (c ++ d)) (sym (take_all (length b) b (omega arith)))),
  );
  not_wrote = λ b disk e. rw e e;
  flush = λ disk. refl;
}
