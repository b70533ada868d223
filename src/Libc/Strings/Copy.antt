-- ===== src/Libc/Strings/Copy.antt =====
-- What the copying functions leave in memory.
use oldasternix.Prelude.{
  ℕ, zero, suc, ◌+◌, ◌≤◌, ◌<◌, ◌≡◌, ◌⊎◌, some, List, [], ◌∷◌, ◌++◌, min, arith, length,
}
use oldasternix.Libc.Memory.{Memory, poke}
use oldasternix.Libc.Block.{memcpy, memcpy_lem}
use oldasternix.Libc.Strings.{
  IsCString, seek_end, strcpy_loop, strcpy, strncpy_loop, strncpy, strcat,
}

-- A string survives a change of memory elsewhere.
pub IsCString-frame :
    (m k : Memory) (p : ℕ) (xs : List ℕ)
    → ((i : ℕ) → i ≤ length xs → k (p + i) ≡ m (p + i))
    → IsCString m p xs
    → IsCString k p xs
IsCString-frame m k p [] same s = ground (arith, same 0)
IsCString-frame m k p (x ∷ xs) same s = (
  ground (arith, same 0),
  s.1,
  IsCString-frame m k (p + 1) xs (λ i h. ground (arith, same (i + 1))) s.2,
)

pub seek_end_lem :
    (f : ℕ) (m : Memory) (s : ℕ) (xs : List ℕ)
    → length xs < f
    → IsCString m s xs
    → seek_end f m s ≡ some (s + length xs)
unfolding seek_end
seek_end_lem zero m s xs lt h = absurd (omega arith)
seek_end_lem (suc f) m s [] lt h = ground arith
seek_end_lem (suc f) m s (x ∷ xs) lt h = ground (arith, seek_end_lem f m (s + 1) xs)

strcpy_loop_lem :
    (f : ℕ) (m : Memory) (dest src : ℕ) (xs : List ℕ)
    → length xs < f
    → IsCString m src xs
    → (dest ≤ src) ⊎ (src + suc (length xs) ≤ dest)
    → strcpy_loop f m dest src ≡ some (memcpy m dest src (suc (length xs)))
unfolding strcpy_loop memcpy
strcpy_loop_lem zero m dest src xs lt h apart = absurd (omega arith)
strcpy_loop_lem (suc f) m dest src [] lt h apart = ground arith
strcpy_loop_lem (suc f) m dest src (x ∷ xs) lt h apart =
    ground
      (arith, strcpy_loop_lem f (poke m dest (m src)) (dest + 1) (src + 1) xs (omega arith) later)
  where
    later : IsCString (poke m dest (m src)) (src + 1) xs
    later = IsCString-frame m _ (src + 1) xs (λ i l. unfold poke in ground arith) h.2

-- With more fuel than the string is long, `strcpy` runs to its end, copies the string and its zero
-- byte as `memcpy` would, and returns `dest`. `dest` is not inside the string behind its first
-- byte.
pub strcpy-memcpy :
    (f : ℕ) (m : Memory) (dest src : ℕ) (xs : List ℕ)
    → length xs < f
    → IsCString m src xs
    → (dest ≤ src) ⊎ (src + suc (length xs) ≤ dest)
    → strcpy f m dest src ≡ some (memcpy m dest src (suc (length xs)), dest)
unfolding strcpy
strcpy-memcpy f m dest src xs lt h apart = ground (arith, strcpy_loop_lem f m dest src xs)

strncpy_loop_lem :
    (n : ℕ) (m : Memory) (dest src : ℕ) (xs : List ℕ)
    → IsCString m src xs
    → (dest ≤ src) ⊎ (src + suc (length xs) ≤ dest)
    → let k = min n (suc (length xs)) in
      strncpy_loop m dest src n ≡ poke (memcpy m dest src k) (dest + k) 0
unfolding strncpy_loop memcpy
strncpy_loop_lem zero m dest src xs h apart = ground arith
strncpy_loop_lem (suc n) m dest src [] h apart = ground arith
strncpy_loop_lem (suc n) m dest src (x ∷ xs) h apart = ground (
  arith,
  strncpy_loop_lem n (poke m dest (m src)) (dest + 1) (src + 1) xs later,
  shift (min n (suc (length xs))),
)
  where
    later : IsCString (poke m dest (m src)) (src + 1) xs
    later = IsCString-frame m _ (src + 1) xs (λ i l. unfold poke in ground arith) h.2

    shift : (k : ℕ) → dest + 1 + k ≡ dest + suc k
    shift k = omega arith

-- `strncpy` copies at most `n` bytes of the string and its zero byte, and always writes one more
-- zero byte behind what it copied: at `dest + n` when the string is not shorter than `n`.
pub strncpy-memcpy :
    (n : ℕ) (m : Memory) (dest src : ℕ) (xs : List ℕ)
    → IsCString m src xs
    → (dest ≤ src) ⊎ (src + suc (length xs) ≤ dest)
    → let k = min n (suc (length xs)) in
      strncpy m dest src n ≡ (poke (memcpy m dest src k) (dest + k) 0, dest)
unfolding strncpy
strncpy-memcpy n m dest src xs h apart = ground (arith, strncpy_loop_lem n m dest src xs)

IsCString-memcpy :
    (m : Memory) (dest src : ℕ) (xs : List ℕ)
    → IsCString m src xs
    → (dest ≤ src) ⊎ (src + suc (length xs) ≤ dest)
    → IsCString (memcpy m dest src (suc (length xs))) dest xs
IsCString-memcpy m dest src xs h apart = go xs src dest h (λ i l. at i l)
  where
    at : (i : ℕ) → i ≤ length xs → memcpy m dest src (suc (length xs)) (dest + i) ≡ m (src + i)
    at i l = ground (arith, memcpy_lem m dest src (suc (length xs)) (dest + i))

    go :
        (ys : List ℕ) (p q : ℕ)
        → IsCString m p ys
        → ((i : ℕ) → i ≤ length ys → memcpy m dest src (suc (length xs)) (q + i) ≡ m (p + i))
        → IsCString (memcpy m dest src (suc (length xs))) q ys
    go [] p q s same = ground (arith, same 0)
    go (y ∷ ys) p q s same = (
      ground (arith, same 0),
      s.1,
      go ys (p + 1) (q + 1) s.2 (λ i l. ground (arith, same (i + 1))),
    )

IsCString-append :
    (m k : Memory) (p : ℕ) (xs ys : List ℕ)
    → IsCString m p xs
    → ((i : ℕ) → i < length xs → k (p + i) ≡ m (p + i))
    → IsCString k (p + length xs) ys
    → IsCString k p (xs ++ ys)
IsCString-append m k p [] ys h same s = let e : p + 0 ≡ p = omega arith in rw e at s
IsCString-append m k p (x ∷ xs) ys h same s = (
  ground (arith, same 0),
  h.1,
  IsCString-append m k (p + 1) xs ys h.2 (λ i l. ground (arith, same (i + 1)))
      (let e : p + suc (length xs) ≡ p + 1 + length xs = omega arith in rw e at s),
)

-- With more fuel than either string is long, `strcat` runs to its end and returns `dest`, where the
-- first string with the second behind it now stands. The end of the first string is not inside the
-- second one behind its first byte.
pub strcat-append :
    (f : ℕ) (m : Memory) (dest src : ℕ) (xs ys : List ℕ)
    → length xs < f
    → length ys < f
    → IsCString m dest xs
    → IsCString m src ys
    → (dest + length xs ≤ src) ⊎ (src + suc (length ys) ≤ dest + length xs)
    → (k : Memory) × (strcat f m dest src ≡ some (k, dest)) × IsCString k dest (xs ++ ys)
unfolding strcat
strcat-append f m dest src xs ys lx ly hx hy apart =
    let end = dest + length xs in
    let k = memcpy m end src (suc (length ys)) in
    (
      k,
      rw (seek_end_lem f m dest xs lx hx, strcpy-memcpy f m end src ys ly hy apart),
      IsCString-append m k dest xs ys hx
          (λ i l. ground (arith, memcpy_lem m end src (suc (length ys)) (dest + i)))
          (IsCString-memcpy m end src ys hy apart),
    )
