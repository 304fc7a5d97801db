-- ===== src/Identity.antt =====
-- daemon/src/recovery.rs: the identity of a process, which tells a reused PID from the old process.
pub mod Match
mod Tests
use varmlen_client_linux.Base.{
  ℕ, suc, zero, ◌+◌, ◌-◌, Bool, true, false, ◌&&◌, List, [], ◌∷◌, Option, none, some, ◌==◌,
  if◌then◌else◌, get_elem?, is_some,
}
use varmlen_client_linux.Base.Text.{Str, str_eq, split_whitespace, parse_unsigned}

pub record ProcessIdentity : Type 0 where
  pub pid : ℕ
  pub start_time_ticks : ℕ
  pub executable : Str

-- `self.matches(&live)`
unfoldable pub matches : ProcessIdentity → ProcessIdentity → Bool
matches saved live =
    saved.pid == live.pid
    && saved.start_time_ticks == live.start_time_ticks
    && str_eq saved.executable live.executable

abbrev older : Option Str → Str → Option Str
older none rest = some rest
older (some later) rest = some later

-- What follows the last `)`: `stat.rfind(')')` and `stat.get(command_end + 1..)`.
unfoldable pub after_last_paren : Str → Option Str
after_last_paren [] = none
after_last_paren (c ∷ s) =
    let later = after_last_paren s in if c == b')' then older later s else later

abbrev u64_max : ℕ
u64_max = 18446744073709551615

abbrev pub bind {ℓ} : {A B : Type ℓ} → Option A → (A → Option B) → Option B
bind none f = none
bind (some a) f = f a

unfoldable pub parse_start_time_ticks : Str → Option ℕ
unfolding after_last_paren
parse_start_time_ticks stat =
    bind (after_last_paren stat)
      λ rest. bind (get_elem? (split_whitespace rest) 19) λ value. parse_unsigned u64_max value
