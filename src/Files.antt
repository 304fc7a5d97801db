-- ===== src/Files.antt =====
-- The files that daemon/src/state.rs and daemon/src/log_store.rs use through the standard library. An
-- open file is known by its path.
pub mod Memory
use varmlen_client_linux.Base.{
  ℕ, [], ◌++◌, Option, none, some, ok, err, Done, Eff, ◌≡◌, ◌≢◌, ◌⊎◌, Bool, length, take, false,
  is_ok,
}
use varmlen_client_linux.Base.Text.{Str}
use varmlen_client_linux.Protocol.Frames.{Bytes}

-- `std::io::Error`, by the kinds that the program tells apart.
pub data IoError : Type 0 where
  not_found : IoError
  invalid_data invalid_input other : Str → IoError

pub record Files (W : Type 0) : Type 0 where
  pub open_read : Str → Eff W IoError Done
  pub metadata_len : Str → Eff W IoError ℕ
  pub read_to_end : Str → ℕ → Eff W IoError Bytes  -- at most that many bytes
  pub read_from : Str → ℕ → Eff W IoError Bytes  -- from that offset to the end
  pub from_utf8_lossy : Bytes → Str
  pub open_append : Str → Eff W IoError Done  -- made if it is not there
  pub flush : Str → Eff W IoError Done
  pub is_symlink : Str → W → Bool
  pub parent : Str → Option Str
  pub fetch_add : W → ℕ × W  -- of the static `NEXT`
  pub process_id : ℕ
  pub show : ℕ → Str
  pub create_new : Str → Eff W IoError Done
  pub write_all : Str → Bytes → Eff W IoError Done
  pub sync_all : Str → Eff W IoError Done
  pub rename : Str → Str → Eff W IoError Done
  pub remove_file : Str → Eff W IoError Done

-- What the program relies on, for the contents of one path `p`.
pub record FileLaws {W : Type 0} (files : Files W) (p : Str) : Type 0 where
  pub contents : Str → W → Option Bytes
  pub fetch_add : (w : W) → contents p (files.fetch_add w).1 ≡ contents p w
  pub create_new : (q : Str) (w : W) → q ≢ p → contents p (files.create_new q w).1 ≡ contents p w
  pub created :
      (q : Str) (w : W)
      → (files.create_new q w).0 ≡ ok tt
      → contents q (files.create_new q w).1 ≡ some []
  pub write_all :
      (q : Str) (b : Bytes) (w : W) → q ≢ p → contents p (files.write_all q b w).1 ≡ contents p w
  pub written :
      (q : Str) (b c : Bytes) (w : W)
      → contents q w ≡ some c
      → (files.write_all q b w).0 ≡ ok tt
      → contents q (files.write_all q b w).1 ≡ some (c ++ b)
  pub sync_all : (q r : Str) (w : W) → contents r (files.sync_all q w).1 ≡ contents r w
  pub renamed :
      (q : Str) (w : W)
      → (files.rename q p w).0 ≡ ok tt
      → contents p (files.rename q p w).1 ≡ contents q w
  pub not_renamed :
      (q : Str) (w : W)
      → is_ok (files.rename q p w).0 ≡ false
      → contents p (files.rename q p w).1 ≡ contents p w
  pub remove_file : (q : Str) (w : W) → q ≢ p → contents p (files.remove_file q w).1 ≡ contents p w
  -- A file that opens is there, and is read as it is.
  pub opened :
      (w : W) → (files.open_read p w).0 ≡ ok tt → contents p (files.open_read p w).1 ≡ contents p w
  pub len :
      (b : Bytes) (w : W) → contents p w ≡ some b → files.metadata_len p w ≡ (ok (length b), w)
  pub read_to_end :
      (n : ℕ) (b : Bytes) (w : W)
      → contents p w ≡ some b
      → files.read_to_end p n w ≡ (ok (take n b), w)

-- The same for a log at the path `p`.
pub record LogLaws {W : Type 0} (files : Files W) (p : Str) : Type 0 where
  pub contents : W → Option Bytes
  pub len : (b : Bytes) (w : W) → contents w ≡ some b → files.metadata_len p w ≡ (ok (length b), w)
  pub no_len : (w : W) → contents (files.metadata_len p w).1 ≡ contents w
  pub other : (q r : Str) (w : W) → q ≢ p → r ≢ p → contents (files.rename q r w).1 ≡ contents w
  pub moved :
      (r : Str) (w : W)
      → r ≢ p
      → (files.rename p r w).0 ≡ ok tt
      → contents (files.rename p r w).1 ≡ none
  pub absent :
      (r : Str) (w : W)
      → (files.rename p r w).0 ≡ err not_found
      → contents (files.rename p r w).1 ≡ none
  pub not_moved :
      (r : Str) (w : W)
      → is_ok (files.rename p r w).0 ≡ false
      → contents (files.rename p r w).1 ≡ contents w
  pub remove_other : (q : Str) (w : W) → q ≢ p → contents (files.remove_file q w).1 ≡ contents w
  pub removed :
      (w : W)
      → (contents (files.remove_file p w).1 ≡ none)
        ⊎ (contents (files.remove_file p w).1 ≡ contents w)
  pub remade :
      (w : W)
      → contents w ≡ none
      → (contents (files.open_append p w).1 ≡ none) ⊎ (contents (files.open_append p w).1 ≡ some [])
  pub found :
      (b : Bytes) (w : W) → contents w ≡ some b → contents (files.open_append p w).1 ≡ some b
  -- A write that fails may have written a part.
  pub wrote :
      (b c : Bytes) (w : W)
      → contents w ≡ some c
      → (k : ℕ) × (contents (files.write_all p b w).1 ≡ some (c ++ take k b))
  pub not_wrote :
      (b : Bytes) (w : W) → contents w ≡ none → contents (files.write_all p b w).1 ≡ none
  pub flush : (w : W) → contents (files.flush p w).1 ≡ contents w
