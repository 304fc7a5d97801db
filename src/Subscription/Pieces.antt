-- ===== src/Subscription/Pieces.antt =====
-- Cuts of a text, as the standard library makes them for src-tauri/src/subscription.rs, and base64.
use varmlen_client_linux.Base.{
  ℕ, Bool, true, false, ◌||◌, List, [], ◌∷◌, Option, none, some, if◌then◌else◌, ◌==◌,
}
use mathlib.Core.List.{reverse}
use varmlen_client_linux.Base.Text.{Str, is_whitespace}
use varmlen_client_linux.Subscription.{
  Codecs, Engine, standard, url_safe, standard_no_pad, url_safe_no_pad,
}

abbrev pub strip_prefix : Str → Str → Option Str
strip_prefix [] s = some s
strip_prefix (p ∷ ps) [] = none
strip_prefix (p ∷ ps) (c ∷ s) = elim (p == c) [ true ↦ strip_prefix ps s | false ↦ none ]

abbrev in_front : ℕ → Option (Str × Str) → Option (Str × Str)
in_front c none = none
in_front c (some (a, b)) = some (c ∷ a, b)

-- At the first separator, which goes.
unfoldable pub split_once : ℕ → Str → Option (Str × Str)
split_once p [] = none
split_once p (c ∷ s) = let rest = split_once p s in if c == p then some ([], s) else in_front c rest

-- At the last one.
unfoldable pub rsplit_once : ℕ → Str → Option (Str × Str)
rsplit_once p [] = none
rsplit_once p (c ∷ s) = elim (rsplit_once p s) [
  | none ↦ if c == p then some ([], s) else none
  | some (a, b) ↦ some (c ∷ a, b)
]

-- `split(p).next()`
unfoldable pub before : ℕ → Str → Str
before p [] = []
before p (c ∷ s) = let rest = before p s in if c == p then [] else c ∷ rest

abbrev is_bracket : ℕ → Bool
is_bracket c = c == b'[' || c == b']'

abbrev drop_brackets : Str → Str
drop_brackets [] = []
drop_brackets (c ∷ s) = elim (is_bracket c) [ true ↦ drop_brackets s | false ↦ c ∷ s ]

-- `trim_matches(['[', ']'])`
abbrev pub trim_brackets : Str → Str
trim_brackets s = reverse (drop_brackets (reverse (drop_brackets s)))

abbrev pub without_whitespace : Str → Str
without_whitespace [] = []
without_whitespace (c ∷ s) =
    if is_whitespace c then without_whitespace s else c ∷ without_whitespace s

abbrev pub engines : List Engine
engines = standard ∷ url_safe ∷ standard_no_pad ∷ url_safe_no_pad ∷ []

-- The first engine whose result is text.
unfoldable pub first_decoded : Codecs → List Engine → Str → Option Str
first_decoded codecs [] s = none
first_decoded codecs (e ∷ es) s = elim (codecs.decode e s) [
  | none ↦ first_decoded codecs es s
  | some decoded ↦ some decoded
]

unfoldable pub b64_decode_str : Codecs → Str → Option Str
unfolding first_decoded
b64_decode_str codecs s = first_decoded codecs engines (without_whitespace s)
