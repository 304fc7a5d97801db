-- ===== src/State/Atomic.antt =====
-- daemon/src/state.rs: what a write leaves of the file, also when it fails, and what a read makes of it.
use varmlen_client_linux.Base.{
  ℕ, Result, ok, err, Done, ◌≡◌, ◌≢◌, ◌⊎◌, arith, [], inl, inr, Option-cases,
}
use varmlen_client_linux.Base.Text.{Str}
use varmlen_client_linux.Protocol.Frames.{Serde}
use varmlen_client_linux.Files.{Files, FileLaws, IoError}
use varmlen_client_linux.State.{PersistedState, temporary_path, write_steps, write_in, write}

module _ {W : Type 0} (files : Files W) (serde : Serde PersistedState) (path : Str)
    (laws : FileLaws files path) where
  abbrev pub Written : PersistedState → W → Result IoError Done × W → Type 0
  Written state w (ok _, w') = laws.contents path w' ≡ serde.to_vec state
  Written state w (err e, w') =
      (laws.contents path w' ≡ laws.contents path w) ⊎ (laws.contents path w' ≡ serde.to_vec state)

  write_steps-Written :
      (parent temporary : Str) (state : PersistedState) (w : W)
      → temporary ≢ path
      → Written state w (write_steps files serde path parent temporary state w)
  unfolding write_steps
  write_steps-Written parent temporary state w d =
      let w1 = (files.create_new temporary w).1 in
      elim (Option-cases (serde.to_vec state)) [
        | inl unencoded ↦ ground (arith, laws.create_new temporary w d)
        | inr (bytes, encoded) ↦
            let w2 = (files.write_all temporary bytes w1).1 in
            let w3 = (files.sync_all temporary w2).1 in
            let w4 = (files.rename temporary path w3).1 in
            ground (
              arith,
              laws.create_new temporary w d,
              laws.created temporary w,
              laws.write_all temporary bytes w1 d,
              laws.written temporary bytes [] w1,
              laws.sync_all temporary path w2,
              laws.sync_all temporary temporary w2,
              laws.renamed temporary w3,
              laws.not_renamed temporary w3,
              laws.sync_all parent path w4,
            )
      ]

  write_in-Written :
      (parent : Str) (state : PersistedState) (w : W)
      → ((n : ℕ) → temporary_path files parent n ≢ path)
      → Written state w (write_in files serde path parent state w)
  unfolding write_in
  write_in-Written parent state w d =
      let (n, w') = files.fetch_add w in
      let temporary = temporary_path files parent n in
      let u = (write_steps files serde path parent temporary state w').1 in
      ground (
        arith,
        laws.fetch_add w,
        write_steps-Written parent temporary state w' (d n),
        laws.remove_file temporary u (d n),
      )

  -- Whatever fails, a write of the state leaves the file at the path as it was or with the whole new
  -- state, and if it returns, with the new state.
  pub write-Written :
      (state : PersistedState) (w : W)
      → ((parent : Str) (n : ℕ) → temporary_path files parent n ≢ path)
      → Written state w (write files serde path state w)
  unfolding write
  write-Written state w d = elim (Option-cases (files.parent path)) [
    | inl none_of ↦ ground arith
    | inr (parent, e) ↦ ground (arith, write_in-Written parent state w (d parent))
  ]
