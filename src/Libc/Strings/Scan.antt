-- ===== src/Libc/Strings/Scan.antt =====
-- What the functions that only read a string return.
use oldasternix.Prelude.{
  ℕ, zero, suc, ◌+◌, ◌<◌, ◌≡◌, ◌≢◌, ◌↔◌, refl, ap, Bool, true, false, ◌==◌, Option, none, some,
  List, [], ◌∷◌, ◌++◌, if◌then◌else◌, arith, length,
}
use oldasternix.Prelude.Int.{ℤ, pos, ◌-ℤ◌, eq_ℤ}
use oldasternix.Prelude.Word.{u32, schar}
use oldasternix.Libc.Memory.{Memory}
use oldasternix.Libc.Strings.{
  IsCString, strlen_loop, strlen, strcmp, strchr, strrchr_loop, strrchr, span_loop, strspn, strcspn,
}
use oldasternix.Libc.Strings.Copy.{seek_end_lem}
use mathlib.Core.Option

strlen_loop_lem :
    (f : ℕ) (m : Memory) (s n : ℕ) (xs : List ℕ)
    → length xs < f
    → n + length xs < 4294967296
    → IsCString m s xs
    → strlen_loop f m s n ≡ some (n + length xs)
unfolding strlen_loop
strlen_loop_lem zero m s n xs lt small h = absurd (omega arith)
strlen_loop_lem (suc f) m s n [] lt small h = ground arith
strlen_loop_lem (suc f) m s n (x ∷ xs) lt small h =
    ground (arith, strlen_loop_lem f m (s + 1) (u32 (n + 1)) xs)

-- With more fuel than the string is long, `strlen` runs to its end and returns the number of bytes
-- before the zero byte. The string is shorter than 2^32.
pub strlen-length :
    (f : ℕ) (m : Memory) (s : ℕ) (xs : List ℕ)
    → length xs < f
    → length xs < 4294967296
    → IsCString m s xs
    → strlen f m s ≡ some (length xs)
unfolding strlen
strlen-length f m s xs lt small h = ground (arith, strlen_loop_lem f m s 0 xs)

-- The value that `strcmp` computes, from the two strings.
unfoldable pub compare_strings : List ℕ → List ℕ → ℤ
compare_strings [] [] = pos 0
compare_strings [] (y ∷ ys) = schar y -ℤ pos 0
compare_strings (x ∷ xs) [] = pos 0 -ℤ schar x
compare_strings (x ∷ xs) (y ∷ ys) =
    let rest = compare_strings xs ys in if x == y then rest else schar y -ℤ schar x

-- `strcmp` stops within the shorter string and computes the difference at the first place where
-- the strings differ.
pub strcmp-compare_strings :
    (f : ℕ) (m : Memory) (l r : ℕ) (xs ys : List ℕ)
    → length xs < f
    → IsCString m l xs
    → IsCString m r ys
    → strcmp f m l r ≡ some (compare_strings xs ys)
unfolding strcmp compare_strings ◌-ℤ◌
strcmp-compare_strings zero m l r xs ys lt h k = absurd (omega arith)
strcmp-compare_strings (suc f) m l r [] [] lt h k = ground arith
strcmp-compare_strings (suc f) m l r [] (y ∷ ys) lt h k = ground arith
strcmp-compare_strings (suc f) m l r (x ∷ xs) [] lt h k = ground arith
strcmp-compare_strings (suc f) m l r (x ∷ xs) (y ∷ ys) lt h k =
    ground (arith, strcmp-compare_strings f m (l + 1) (r + 1) xs ys)

abbrev pub AllBytes : List ℕ → Type 0
AllBytes [] = Unit {0}
AllBytes (x ∷ xs) = (0 < x) × (x < 256) × AllBytes xs

compare_strings-eq-zero :
    (xs ys : List ℕ) → AllBytes xs → AllBytes ys → (compare_strings xs ys ≡ pos 0) ↔ (xs ≡ ys)
unfolding compare_strings ◌-ℤ◌
compare_strings-eq-zero [] [] a b = ground arith
compare_strings-eq-zero [] (y ∷ ys) a b = ground arith
compare_strings-eq-zero (x ∷ xs) [] a b = ground arith
compare_strings-eq-zero (x ∷ xs) (y ∷ ys) a b =
    ground (arith, compare_strings-eq-zero xs ys a.2 b.2)

-- With more fuel than the first string is long, `strcmp` of two strings of nonzero bytes runs to
-- its end, and its result is 0 exactly when the strings are equal.
pub strcmp-eq-zero :
    (f : ℕ) (m : Memory) (l r : ℕ) (xs ys : List ℕ)
    → length xs < f
    → AllBytes xs
    → AllBytes ys
    → IsCString m l xs
    → IsCString m r ys
    → (v : ℤ) × (strcmp f m l r ≡ some v) × ((v ≡ pos 0) ↔ (xs ≡ ys))
strcmp-eq-zero f m l r xs ys lt a b h k = (
  compare_strings xs ys,
  strcmp-compare_strings f m l r xs ys lt h k,
  compare_strings-eq-zero xs ys a b,
)

-- The first place of `ch` in a list of bytes.
pub index_of : ℤ → List ℕ → Option ℕ
index_of ch [] = none
index_of ch (x ∷ xs) = if eq_ℤ (schar x) ch then some 0 else Option.map suc (index_of ch xs)

-- The pointer `i` bytes past `s`.
abbrev pub offset : ℕ → Option ℕ → Option ℕ
offset s none = none
offset s (some i) = some (s + i)

offset-suc : (s : ℕ) (o : Option ℕ) → offset (s + 1) o ≡ offset s (Option.map suc o)
offset-suc s none = refl
offset-suc s (some i) = ap some (omega arith)

-- With more fuel than the string is long, `strchr` runs to its end and returns a pointer to the
-- first occurrence of `ch` in the string, its zero byte included, or a null pointer when there is
-- none.
pub strchr-index_of :
    (f : ℕ) (m : Memory) (s : ℕ) (ch : ℤ) (xs : List ℕ)
    → length xs < f
    → IsCString m s xs
    → strchr f m s ch ≡ some (offset s (index_of ch (xs ++ 0 ∷ [])))
unfolding strchr index_of
strchr-index_of zero m s ch xs lt h = absurd (omega arith)
strchr-index_of (suc f) m s ch [] lt h = ground arith
strchr-index_of (suc f) m s ch (x ∷ xs) lt h =
    ground (arith, strchr-index_of f m (s + 1) ch xs, offset-suc s (index_of ch (xs ++ 0 ∷ [])))

-- With more fuel than the string is long, `strrchr` runs to its end and returns a null pointer for
-- every `ch` but 0, also for one that is in the string.
pub strrchr-misses :
    (f : ℕ) (m : Memory) (s : ℕ) (ch : ℤ) (xs : List ℕ)
    → length xs < f
    → ch ≢ pos 0
    → IsCString m s xs
    → strrchr f m s ch ≡ some none
unfolding strrchr strrchr_loop
strrchr-misses zero m s ch xs lt ne h = absurd (omega arith)
strrchr-misses (suc f) m s ch xs lt ne h =
    rw (seek_end_lem (suc f) m s xs lt h) (ground (arith, end m s xs h))
  where
    end : (k : Memory) (p : ℕ) (ys : List ℕ) → IsCString k p ys → k (p + length ys) ≡ 0
    end k p [] c = ground arith
    end k p (y ∷ ys) c = ground (arith, end k (p + 1) ys c.2)

-- How many bytes stand in front of the first one whose membership in `set` is not `keep`.
pub span : Bool → List ℕ → List ℕ → ℕ
span keep set [] = 0
span keep set (x ∷ xs) =
    let rest = suc (span keep set xs) in
    elim (index_of (schar x) (set ++ 0 ∷ [])) [
      | none ↦ if keep then 0 else rest
      | some _ ↦ if keep then rest else 0
    ]

span_loop-span :
    (keep : Bool) (f : ℕ) (m : Memory) (dest src n : ℕ) (xs set : List ℕ)
    → length xs < f
    → length set + length xs < f
    → n + length xs < 4294967296
    → IsCString m dest xs
    → IsCString m src set
    → span_loop keep f m dest src n ≡ some (n + span keep set xs)
unfolding span_loop span
span_loop-span keep zero m dest src n xs set lt ls small h k = absurd (omega arith)
span_loop-span keep (suc f) m dest src n [] set lt ls small h k = ground arith
span_loop-span keep (suc f) m dest src n (x ∷ xs) set lt ls small h k = ground (
  arith,
  strchr-index_of (suc f) m src (schar (m dest)) set,
  span_loop-span keep f m (dest + 1) src (u32 (n + 1)) xs set,
)

-- With more fuel than both strings are long together, `strspn` and `strcspn` run to their end; the
-- first counts the leading bytes that are in the second string, the other those that are not. The
-- string is shorter than 2^32.
pub strspn-span :
    (f : ℕ) (m : Memory) (dest src : ℕ) (xs set : List ℕ)
    → length set + length xs < f
    → length xs < 4294967296
    → IsCString m dest xs
    → IsCString m src set
    → (strspn f m dest src ≡ some (span true set xs))
      × (strcspn f m dest src ≡ some (span false set xs))
unfolding strspn strcspn
strspn-span f m dest src xs set lt small h k = (
  ground (arith, span_loop-span true f m dest src 0 xs set),
  ground (arith, span_loop-span false f m dest src 0 xs set),
)
