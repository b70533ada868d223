-- ===== src/Libc/Tests.antt =====
-- The theorems on libc/string.c at concrete memories, and runs of the functions.
use oldasternix.Prelude.{ℕ, ◌≡◌, ◌↔◌, inr, some, List, [], ◌∷◌, get_or, arith}
use oldasternix.Prelude.Int.{ℤ, pos}
use oldasternix.Libc.Memory.{Memory}
use oldasternix.Libc.Block.{memmove, memmove_lem}
use oldasternix.Libc.Strings.{IsCString, strcat, strcmp}
use oldasternix.Libc.Strings.Copy.{strcat-append}
use oldasternix.Libc.Strings.Scan.{strcmp-eq-zero}

-- "ab", "abc" and "b" at the addresses 0, 3 and 7, zeros behind.
abbrev words : Memory
words a = get_or (97 ∷ 98 ∷ 0 ∷ 97 ∷ 98 ∷ 99 ∷ 0 ∷ 98 ∷ 0 ∷ []) a 0

abbrev ab : List ℕ
ab = 97 ∷ 98 ∷ []

abbrev abc : List ℕ
abc = 97 ∷ 98 ∷ 99 ∷ []

abbrev b : List ℕ
b = 98 ∷ []

ab-IsCString : IsCString words 0 ab
ab-IsCString = omega arith

abc-IsCString : IsCString words 3 abc
abc-IsCString = omega arith

b-IsCString : IsCString words 7 b
b-IsCString = omega arith

memmove_lem_example : memmove words 1 0 3 2 ≡ 98
memmove_lem_example = memmove_lem words 1 0 3 2

strcat-append_example :
    (k : Memory) × (strcat 5 words 7 3 ≡ some (k, 7)) × IsCString k 7 (98 ∷ 97 ∷ 98 ∷ 99 ∷ [])
strcat-append_example =
    strcat-append 5 words 7 3 b abc (omega arith) (omega arith) b-IsCString abc-IsCString
      (inr (omega arith))

strcmp-eq-zero_example : (v : ℤ) × (strcmp 3 words 0 3 ≡ some v) × ((v ≡ pos 0) ↔ (ab ≡ abc))
strcmp-eq-zero_example =
    strcmp-eq-zero 3 words 0 3 ab abc (omega arith) (omega arith) (omega arith) ab-IsCString
      abc-IsCString
