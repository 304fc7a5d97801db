-- ===== src/LogStore/Bounded.antt =====
-- daemon/src/log_store.rs: the log never grows beyond its limit.
use varmlen_client_linux.Base.{
  ℕ, zero, suc, Option, none, some, ◌+◌, ◌≤◌, ◌≢◌, ◌≡◌, length, arith, ◌<◌,
}
use varmlen_client_linux.Base.Text.{Str}
use varmlen_client_linux.Protocol.Frames.{Bytes}
use varmlen_client_linux.Files.{Files, LogLaws}
use varmlen_client_linux.LogStore.{max_log_bytes, rotated_path, remove_if_exists, clear, clear_from}

abbrev pub Fits : ℕ → Option Bytes → Type 0
Fits n none = Unit
Fits n (some b) = length b + n ≤ max_log_bytes

module _ {W : Type 0} (files : Files W) (path : Str) (laws : LogLaws files path)
    (apart : (index : ℕ) → 0 < index → rotated_path files path index ≢ path) where
  removes :
      (i : ℕ) (w : W)
      → 0 < i
      → laws.contents (remove_if_exists files (rotated_path files path i) w).1 ≡ laws.contents w
  removes i w h = ground (arith, laws.remove_other (rotated_path files path i) w (apart i h))

  drops :
      (i : ℕ) (w : W)
      → Fits 0 (laws.contents w)
      → Fits 0 (laws.contents (remove_if_exists files (rotated_path files path i) w).1)
  drops zero w h = ground (arith, laws.removed w)
  drops (suc i) w h = ground (arith, removes (suc i) w (omega arith))

  clears :
      (n i : ℕ) (w : W)
      → Fits 0 (laws.contents w)
      → Fits 0 (laws.contents (clear_from files path n i w).1)
  clears zero i w h = h
  clears (suc n) i w h =
      let w1 = (remove_if_exists files (rotated_path files path i) w).1 in
      ground (arith, drops i w h, clears n (suc i) w1)

  -- A clearing of the log, whatever fails in it, leaves a log of at most `MAX_LOG_BYTES`, if it was so
  -- long before.
  pub clear-Fits :
      (w : W) → Fits 0 (laws.contents w) → Fits 0 (laws.contents (clear files path w).1)
  unfolding clear
  clear-Fits w h = clears 4 0 w h
