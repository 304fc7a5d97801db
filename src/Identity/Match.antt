-- ===== src/Identity/Match.antt =====
-- daemon/src/recovery.rs: what the identity of a process stands for.
use varmlen_client_linux.Base.{
  true, false, [], ◌∷◌, ◌++◌, none, some, ◌≡◌, ◌↔◌, arith, refl, get_elem?,
}
use varmlen_client_linux.Base.Text.{
  Str, str_eq_iff, contains_char, split_whitespace, parse_unsigned,
}
use varmlen_client_linux.Identity.{
  ProcessIdentity, matches, after_last_paren, parse_start_time_ticks, bind, u64_max,
}

-- A saved process matches a live one exactly if the number, the start time and the executable are all
-- the same.
pub matches_iff : (saved live : ProcessIdentity) → (matches saved live ≡ true) ↔ (saved ≡ live)
unfolding matches
matches_iff saved live = ground (arith, str_eq_iff saved.executable live.executable)

none_after : (rest : Str) → contains_char b')' rest ≡ false → after_last_paren rest ≡ none
unfolding after_last_paren
none_after [] h = refl
none_after (c ∷ s) h = ground (arith, none_after s)

after_last_paren-append :
    (before rest : Str)
    → contains_char b')' rest ≡ false
    → after_last_paren (before ++ b')' ∷ rest) ≡ some rest
unfolding after_last_paren
after_last_paren-append [] rest h = rw (none_after rest h) refl
after_last_paren-append (c ∷ s) rest h = ground (arith, after_last_paren-append s rest h)

-- The start time is the twentieth word after the last `)`, whatever the name of the program in front
-- of it is, also one with spaces and parentheses.
pub parse_start_time_ticks_lem :
    (before rest : Str)
    → contains_char b')' rest ≡ false
    → parse_start_time_ticks (before ++ b')' ∷ rest)
      ≡ bind (get_elem? (split_whitespace rest) 19) (λ value. parse_unsigned u64_max value)
unfolding parse_start_time_ticks
parse_start_time_ticks_lem before rest h = rw (after_last_paren-append before rest h) refl
