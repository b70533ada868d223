-- ===== src/Libc/Search.antt =====
-- `memchr` and `memcmp` of libc/string.c. A null pointer is `none`.
use oldasternix.Prelude.{
  ℕ, zero, suc, ◌+◌, ◌<◌, ◌≡◌, ◌≢◌, ◌↔◌, refl, Option, none, some, ◌==◌, if◌then◌else◌, arith,
}
use oldasternix.Prelude.Int.{ℤ, pos, ◌-ℤ◌, eq_ℤ}
use oldasternix.Libc.Memory.{Memory, bytes}

-- The pointer is not advanced by the loop.
pub memchr : Memory → ℕ → ℤ → ℕ → Option ℕ
memchr m ptr ch zero = none
memchr m ptr ch (suc n) = if eq_ℤ (pos (m ptr)) ch then some ptr else memchr m ptr ch n

-- The do-while loop of `memcmp`, with `n` more bytes after the current ones.
memcmp_from : Memory → ℕ → ℕ → ℕ → ℤ
memcmp_from m l r zero = pos (m r) -ℤ pos (m l)
memcmp_from m l r (suc n) =
    let rest = memcmp_from m (l + 1) (r + 1) n in
    if m l == m r then rest else pos (m r) -ℤ pos (m l)

pub memcmp : Memory → ℕ → ℕ → ℕ → ℤ
unfolding memcmp_from
memcmp m l r zero = pos 0
memcmp m l r (suc n) = memcmp_from m l r n

-- `memchr` looks at the first byte alone: a match further on is never found.
pub memchr-misses :
    (m : Memory) (ptr n i : ℕ) (ch : ℤ)
    → pos (m ptr) ≢ ch
    → i < n
    → pos (m (ptr + i)) ≡ ch
    → memchr m ptr ch n ≡ none
unfolding memchr
memchr-misses m ptr zero i ch ne lt e = refl
memchr-misses m ptr (suc n) i ch ne lt e = ground (arith, miss n)
  where
    miss : (k : ℕ) → memchr m ptr ch k ≡ none
    miss zero = refl
    miss (suc k) = ground (arith, miss k)

memcmp_from-eq :
    (m : Memory) (l r n : ℕ)
    → (memcmp_from m l r n ≡ pos 0) ↔ (bytes m l (suc n) ≡ bytes m r (suc n))
unfolding memcmp_from bytes ◌-ℤ◌
memcmp_from-eq m l r zero = ground arith
memcmp_from-eq m l r (suc n) = ground (arith, memcmp_from-eq m (l + 1) (r + 1) n)

-- `memcmp` returns 0 exactly when the two ranges hold the same bytes.
pub memcmp-eq-zero :
    (m : Memory) (l r n : ℕ) → (memcmp m l r n ≡ pos 0) ↔ (bytes m l n ≡ bytes m r n)
unfolding memcmp bytes
memcmp-eq-zero m l r zero = ((λ _. refl), λ _. refl)
memcmp-eq-zero m l r (suc n) = memcmp_from-eq m l r n

memcmp_from-first :
    (m : Memory) (l r n i : ℕ)
    → i < suc n
    → ((j : ℕ) → j < i → m (l + j) ≡ m (r + j))
    → m (l + i) ≢ m (r + i)
    → memcmp_from m l r n ≡ pos (m (r + i)) -ℤ pos (m (l + i))
unfolding memcmp_from
memcmp_from-first m l r zero i lt same ne = let e : i ≡ 0 = omega arith in ground arith
memcmp_from-first m l r (suc n) zero lt same ne = ground arith
memcmp_from-first m l r (suc n) (suc i) lt same ne = ground (
  arith,
  same 0,
  memcmp_from-first m (l + 1) (r + 1) n i (omega arith) (λ j h. ground (arith, same (suc j)))
      (ground arith),
)

-- Where the ranges first differ, the result is the right byte less the left one.
memcmp-first :
    (m : Memory) (l r n i : ℕ)
    → i < n
    → ((j : ℕ) → j < i → m (l + j) ≡ m (r + j))
    → m (l + i) ≢ m (r + i)
    → memcmp m l r n ≡ pos (m (r + i)) -ℤ pos (m (l + i))
unfolding memcmp
memcmp-first m l r zero i lt same ne = absurd (omega arith)
memcmp-first m l r (suc n) i lt same ne = memcmp_from-first m l r n i lt same ne
