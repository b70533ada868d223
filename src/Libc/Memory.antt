-- ===== src/Libc/Memory.antt =====
-- Byte-addressed memory, in which the routines of libc/string.c read and write.
use oldasternix.Prelude.{
  ℕ, zero, suc, ◌+◌, ◌<◌, ◌≡◌, refl, ap, ap₂, ◌==◌, if◌then◌else◌, List, [], ◌∷◌, arith, length,
}

-- What each address holds. Pointers are addresses, and no routine here computes one past 2^32.
abbrev pub Memory : Type 0
Memory = ℕ → ℕ

-- `*p = v` for an `unsigned char` lvalue.
unfoldable pub poke : Memory → ℕ → ℕ → Memory
poke m p v x = if x == p then v else m x

-- The `n` bytes from `p` on.
unfoldable pub bytes : Memory → ℕ → ℕ → List ℕ
bytes m p zero = []
bytes m p (suc n) = m p ∷ bytes m (p + 1) n

pub length-bytes : (m : Memory) (p n : ℕ) → length (bytes m p n) ≡ n
unfolding bytes
length-bytes m p zero = refl
length-bytes m p (suc n) = ap suc (length-bytes m (p + 1) n)

-- Two ranges that agree byte for byte hold the same list.
pub bytes_ext :
    (m k : Memory) (p q n : ℕ)
    → ((i : ℕ) → i < n → m (p + i) ≡ k (q + i))
    → bytes m p n ≡ bytes k q n
unfolding bytes
bytes_ext m k p q zero h = refl
bytes_ext m k p q (suc n) h =
    ap₂ ◌∷◌ (ground (arith, h 0))
      (bytes_ext m k (p + 1) (q + 1) n (λ i l. ground (arith, h (i + 1))))
