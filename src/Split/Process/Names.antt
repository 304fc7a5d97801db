-- ===== src/Split/Process/Names.antt =====
-- daemon/src/split/process.rs and watcher.rs: which programs a selector means.
use varmlen_client_linux.Base.{
  ℕ, Bool, true, false, ◌||◌, List, [], ◌∷◌, ◌++◌, ok, ◌≡◌, ◌≢◌, ◌≤◌, arith, refl, any, ap,
}
use varmlen_client_linux.Base.Text.{Str, len, trim, contains_char, eq_ignore_ascii_case}
use varmlen_client_linux.Split.Process.{
  AppSelector, exact_path, process_name, ProcessSnapshot, is_absolute, is_separator, after_last,
  argument_is_named, is_windows_image, parse, matches,
}

abbrev pub IsSelector : Str → AppSelector → Type 0
IsSelector value (exact_path path) = (path ≡ value) × (is_absolute path ≡ true)
IsSelector value (process_name name) = (name ≡ value) × (any is_separator name ≡ false)

no_separator :
    (s : Str) → (contains_char b'/' s || contains_char 0x5c s) ≡ false → any is_separator s ≡ false
no_separator [] h = refl
no_separator (c ∷ s) h = ground (arith, no_separator s)

-- A selector that is parsed is the trimmed text, which is not empty, has at most 4096 bytes and no zero
-- character: a path if it is absolute, and otherwise the name of a program without any separator.
pub parse-IsSelector :
    (text : Str) (selector : AppSelector)
    → parse text ≡ ok selector
    → (trim text ≢ [])
      × (len (trim text) ≤ 4096)
      × (contains_char 0 (trim text) ≡ false)
      × IsSelector (trim text) selector
unfolding parse
parse-IsSelector text selector h = ground (arith, no_separator (trim text))

after_last-none : (p : ℕ → Bool) (s : Str) → any p s ≡ false → after_last p s ≡ s
unfolding after_last
after_last-none p [] h = refl
after_last-none p (c ∷ s) h = ground arith

any-append : (p : ℕ → Bool) (s t : Str) → any p t ≡ true → any p (s ++ t) ≡ true
any-append p [] t h = h
any-append p (c ∷ s) t h = ground (arith, any-append p s t h)

after_last-append :
    (p : ℕ → Bool) (c : ℕ) (before after : Str)
    → p c ≡ true
    → any p after ≡ false
    → after_last p (before ++ c ∷ after) ≡ after
unfolding after_last
after_last-append p c [] after h k = ground arith
after_last-append p c (b ∷ before) after h k =
    ground (arith, after_last-append p c before after h k, any-append p before (c ∷ after))

-- An argument, a path of Unix or of Windows, is named like a program exactly if its part behind the
-- last separator is that name but for the case of letters, whatever stands in front: the name of a
-- program never means another one that only ends in it.
pub argument_is_named_lem :
    (before file name : Str) (c : ℕ)
    → is_separator c ≡ true
    → any is_separator file ≡ false
    → (argument_is_named (before ++ c ∷ file) name ≡ eq_ignore_ascii_case file name)
      × (argument_is_named file name ≡ eq_ignore_ascii_case file name)
unfolding argument_is_named
argument_is_named_lem before file name c h k = (
  ap (λ part. eq_ignore_ascii_case part name) (after_last-append is_separator c before file h k),
  ap (λ part. eq_ignore_ascii_case part name) (after_last-none is_separator file k),
)

-- Only a selector of a Windows image looks at the arguments behind the first one.
pub matches-arguments :
    (name : Str) (process : ProcessSnapshot) (arguments : List Str)
    → is_windows_image name ≡ false
    → matches (process_name name) (record process { arguments = arguments })
      ≡ matches (process_name name) process
unfolding matches
matches-arguments name process arguments h = ground arith
