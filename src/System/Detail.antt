-- ===== src/System/Detail.antt =====
-- daemon/src/system.rs, `validation_failure_detail`: why Xray refused a configuration, in few words.
use varmlen_client_linux.Base.{
  ℕ, zero, suc, Bool, true, not, ◌&&◌, List, [], ◌∷◌, ◌++◌, Option, none, some, ltb, leb,
  if◌then◌else◌, is_empty, all, length, drop, ◌≡◌, ◌≤◌, ◌-◌, arith, refl, and_true, Bool-cases, inl,
  inr,
}
use varmlen_client_linux.Base.Text.{Str, str, len_utf8, trim, contains, starts_with, lines}

abbrev max_detail_chars : ℕ
max_detail_chars = 600

abbrev is_telling : Str → Bool
is_telling line =
    not (is_empty line)
    && not (starts_with (str "Xray ") line)
    && not (starts_with (str "A unified platform") line)
    && not (contains (str "Reading config:") line)

telling : List Str → List Str
telling [] = []
telling (line ∷ rest) =
    let others = telling rest in if is_telling (trim line) then trim line ∷ others else others

join : List Str → Str
join [] = []
join (line ∷ []) = line
join (line ∷ next ∷ rest) = line ++ str " | " ++ join (next ∷ rest)

-- `&s[offset..]`, an offset in bytes; `none` is the panic inside a character or behind the end.
unfoldable pub slice_from : ℕ → Str → Option Str
slice_from zero s = some s
slice_from (suc n) [] = none
slice_from (suc n) (c ∷ s) =
    let rest = slice_from (suc n - len_utf8 c) s in if leb (len_utf8 c) (suc n) then rest else none

abbrev with_dots : Option Str → Option Str
with_dots none = none
with_dots (some s) = some (0x2026 ∷ s)

unfoldable pub shorten : Str → Option Str
unfolding slice_from
shorten detail =
    if leb (length detail) max_detail_chars
    then some detail
    else with_dots (slice_from (length detail - max_detail_chars) detail)

explain : List Str → Option Str
unfolding shorten join
explain [] = some (str "no explanation was written by Xray")
explain (line ∷ rest) = shorten (join (line ∷ rest))

unfoldable pub validation_failure_detail : Str → Str → Option Str
unfolding explain telling
validation_failure_detail stdout stderr = explain (telling (lines stderr ++ lines stdout))

abbrev pub is_ascii : Str → Bool
is_ascii s = all (λ c. ltb c 128) s

slice_from-drop :
    (n : ℕ) (s : Str) → is_ascii s ≡ true → n ≤ length s → slice_from n s ≡ some (drop n s)
unfolding slice_from
slice_from-drop zero s h k = refl
slice_from-drop (suc n) [] h k = absurd (omega (arith, k))
slice_from-drop (suc n) (c ∷ s) h k =
    let (here, later) = and_true (ltb c 128) (is_ascii s) h in
    let rest = slice_from-drop n s later (omega (arith, k)) in ground (arith, here, rest)

-- A detail of ASCII characters is never cut in the middle of one: it is kept whole up to 600 characters,
-- and otherwise its last 600 are, behind dots.
pub shorten_lem :
    (detail : Str)
    → is_ascii detail ≡ true
    → shorten detail
      ≡ some
          (if leb (length detail) 600 then detail else 0x2026 ∷ drop (length detail - 600) detail)
unfolding shorten
shorten_lem detail h = elim (Bool-cases (leb (length detail) 600)) [
  | inl e ↦ rw e refl
  | inr e ↦ rw e (rw (slice_from-drop (length detail - 600) detail h (omega arith)) refl)
]
