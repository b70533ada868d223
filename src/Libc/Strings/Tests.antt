-- ===== src/Libc/Strings/Tests.antt =====
-- Runs of the string functions.
use oldasternix.Prelude.{◌≡◌, refl, some, none, [], ◌∷◌, get_or}
use oldasternix.Prelude.Int.{pos, ◌-ℤ◌}
use oldasternix.Libc.Memory.{Memory, poke, bytes}
use oldasternix.Libc.Strings.{
  strncat, strcmp, strncmp, strpbrk, strstr, strcspn, strncpy, strchr, span_loop, seek_end,
}

-- "ab", "abc" and "b" at the addresses 0, 3 and 7, zeros behind.
abbrev words : Memory
words a = get_or (97 ∷ 98 ∷ 0 ∷ 97 ∷ 98 ∷ 99 ∷ 0 ∷ 98 ∷ 0 ∷ []) a 0

-- The sign is that of the right string: "ab" before "abc" gives 99.
strcmp_sign : strcmp 5 words 0 3 ≡ some (pos 99)
unfolding strcmp ◌-ℤ◌
strcmp_sign = refl

strncmp_prefix : strncmp words 0 3 2 ≡ pos 0
unfolding strncmp ◌-ℤ◌
strncmp_prefix = refl

strstr_found : strstr 9 words 3 7 ≡ some (some 4)
unfolding strstr ◌-ℤ◌
strstr_found = refl

strpbrk_found : strpbrk 9 words 3 7 ≡ some (some 4)
unfolding strpbrk strcspn span_loop strchr
strpbrk_found = refl

strncat_cut :
    bytes (elim (strncat 9 words 7 3 2) [ some (k, _) ↦ k | none ↦ words ]) 7 4
    ≡ 98 ∷ 97 ∷ 98 ∷ 0 ∷ []
unfolding strncat seek_end strncpy poke bytes
strncat_cut = refl
