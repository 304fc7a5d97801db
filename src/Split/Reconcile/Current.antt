-- ===== src/Split/Reconcile/Current.antt =====
-- daemon/src/split/system.rs: what a pass leaves of the record of moved processes.
use varmlen_client_linux.Base.{ℕ, true, false, List, ◌==◌, ◌≡◌, ◌⊎◌}
use varmlen_client_linux.Split.Process.{AppSelector}
use varmlen_client_linux.Split.Subtree.{mem}
use varmlen_client_linux.Split.Reconcile.{holds}

abbrev Entry : Type 0
Entry = ℕ × AppSelector

abbrev IsOther : ℕ → Entry → Type 0
IsOther pid (p, s) = (p == pid) ≡ false

-- The selectors still hold an entry's, or the entry is one of those to give back.
abbrev IsDue : List AppSelector → List ℕ → Entry → Type 0
IsDue selectors roots (p, s) = (holds selectors s ≡ true) ⊎ (mem p roots ≡ true)

abbrev pub IsCurrent : List AppSelector → Entry → Type 0
IsCurrent selectors (p, s) = holds selectors s ≡ true
