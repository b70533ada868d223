-- ===== src/Libc/Block.antt =====
-- `memset`, `memcpy`, `memmove` of libc/string.c.
use oldasternix.Prelude.{
  ℕ, zero, suc, ◌+◌, ◌-◌, ◌≤◌, ◌≡◌, ◌⊎◌, Bool, ◌&&◌, ltb, leb, if◌then◌else◌, arith,
}
use oldasternix.Prelude.Word.{u8}
use oldasternix.Libc.Memory.{Memory, poke}

pub memset : Memory → ℕ → ℕ → ℕ → Memory
memset m dest ch zero = m
memset m dest ch (suc n) = memset (poke m dest (u8 ch)) (dest + 1) ch n

unfoldable pub memcpy : Memory → ℕ → ℕ → ℕ → Memory
memcpy m dest src zero = m
memcpy m dest src (suc n) = memcpy (poke m dest (m src)) (dest + 1) (src + 1) n

-- The second loop of `memmove`: `dest` and `src` stand just past what is left to copy.
pub copy_down : Memory → ℕ → ℕ → ℕ → Memory
copy_down m dest src zero = m
copy_down m dest src (suc n) = copy_down (poke m (dest - 1) (m (src - 1))) (dest - 1) (src - 1) n

pub memmove : Memory → ℕ → ℕ → ℕ → Memory
memmove m dest src n =
    if ltb dest src
    then memcpy m dest src n
    else if ltb src dest
    then copy_down m (dest + n) (src + n) n
    else m

-- Is `x` one of the `n` addresses from `p` on?
abbrev pub within : ℕ → ℕ → ℕ → Bool
within p n x = leb p x && ltb x (p + n)

pub memset_lem :
    (m : Memory) (dest ch n x : ℕ) → memset m dest ch n x ≡ (if within dest n x then u8 ch else m x)
unfolding memset poke
memset_lem m dest ch zero x = ground arith
memset_lem m dest ch (suc n) x = ground (arith, memset_lem (poke m dest (u8 ch)) (dest + 1) ch n x)

pub memcpy_lem :
    (m : Memory) (dest src n x : ℕ)
    → (dest ≤ src) ⊎ (src + n ≤ dest)
    → memcpy m dest src n x ≡ (if within dest n x then m (src + (x - dest)) else m x)
unfolding memcpy poke
memcpy_lem m dest src zero x h = ground arith
memcpy_lem m dest src (suc n) x h =
    ground (arith, memcpy_lem (poke m dest (m src)) (dest + 1) (src + 1) n x)

copy_down_lem :
    (m : Memory) (dest src n x : ℕ)
    → src ≤ dest
    → copy_down m (dest + n) (src + n) n x ≡ (if within dest n x then m (src + (x - dest)) else m x)
unfolding copy_down poke
copy_down_lem m dest src zero x h = ground arith
copy_down_lem m dest src (suc n) x h =
    ground (arith, copy_down_lem (poke m (dest + n) (m (src + n))) dest src n x)

-- `memmove` puts at each of the `n` addresses from `dest` on what stood at the matching address
-- from `src` on before the call, also where the two ranges overlap, and changes nothing else.
pub memmove_lem :
    (m : Memory) (dest src n x : ℕ)
    → memmove m dest src n x ≡ (if within dest n x then m (src + (x - dest)) else m x)
unfolding memmove
memmove_lem m dest src n x = ground (arith, memcpy_lem m dest src n x, copy_down_lem m dest src n x)
