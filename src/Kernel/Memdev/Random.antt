-- ===== src/Kernel/Memdev/Random.antt =====
-- /dev/urandom: the seeds of its generator, and the bytes made of them.
use oldasternix.Prelude.{
  ℕ, zero, suc, ◌+◌, ◌*◌, ◌≤◌, ◌<◌, ◌^◌, ◌≡◌, refl, ap₂, List, [], ◌∷◌, arith,
}
use oldasternix.Prelude.Word.{u8}
use oldasternix.Prelude.Int.{pos}
use oldasternix.Libc.Memory.{Memory, poke, bytes}
use oldasternix.Kernel.Machine.{Machine}
use oldasternix.Kernel.Memdev.{next_seed, urandom_loop, urandom_read}

-- A seed that the generator can have: the first one, or a remainder.
abbrev pub IsSeed : ℕ → Type 0
IsSeed s = s ≤ 62521

-- The first `k` seeds behind `seed`.
pub seeds : ℕ → ℕ → List ℕ
seeds zero seed = []
seeds (suc k) seed = next_seed seed ∷ seeds k (next_seed seed)

pub iterate : ℕ → ℕ → ℕ
iterate zero seed = seed
iterate (suc k) seed = iterate k (next_seed seed)

pub low_bytes : List ℕ → List ℕ
low_bytes [] = []
low_bytes (x ∷ xs) = u8 x ∷ low_bytes xs

-- From a seed of the generator no step overflows an `int`, and the next seed is one again.
pub next_seed-IsSeed : (s : ℕ) → IsSeed s → (9735 * s + 13997 < 2 ^ 31) × IsSeed (next_seed s)
unfolding next_seed
next_seed-IsSeed s h = omega arith

urandom_loop-outside :
    (k buf x : ℕ) (m : Memory) (seed : ℕ) → x < buf → (urandom_loop k buf m seed).0 x ≡ m x
unfolding urandom_loop poke
urandom_loop-outside zero buf x m seed h = refl
urandom_loop-outside (suc k) buf x m seed h =
    ground (
      arith,
      urandom_loop-outside k (buf + 1) x (poke m buf (u8 (next_seed seed))) (next_seed seed),
    )

urandom_loop-bytes :
    (k buf : ℕ) (m : Memory) (seed : ℕ)
    → bytes (urandom_loop k buf m seed).0 buf k ≡ low_bytes (seeds k seed)
unfolding urandom_loop bytes seeds low_bytes poke
urandom_loop-bytes zero buf m seed = refl
urandom_loop-bytes (suc k) buf m seed =
    let m' = poke m buf (u8 (next_seed seed)) in
    ap₂ ◌∷◌ (ground (arith, urandom_loop-outside k (buf + 1) buf m' (next_seed seed)))
      (urandom_loop-bytes k (buf + 1) m' (next_seed seed))

urandom_loop-seed :
    (k buf : ℕ) (m : Memory) (seed : ℕ) → (urandom_loop k buf m seed).1 ≡ iterate k seed
unfolding urandom_loop iterate
urandom_loop-seed zero buf m seed = refl
urandom_loop-seed (suc k) buf m seed =
    urandom_loop-seed k (buf + 1) (poke m buf (u8 (next_seed seed))) (next_seed seed)

iterate-IsSeed : (k s : ℕ) → IsSeed s → IsSeed (iterate k s)
unfolding iterate
iterate-IsSeed zero s h = h
iterate-IsSeed (suc k) s h = iterate-IsSeed k (next_seed s) (next_seed-IsSeed s h).1

-- From a seed that the generator can have, `urandom_read` of fewer than 2^31 bytes fills the buffer
-- with the low bytes of the next `n` seeds, leaves the last of them as the seed, which is again one
-- that the generator can have, and returns the count.
pub urandom_read-seeds :
    (buf n : ℕ) (w : Machine)
    → n < 2 ^ 31
    → IsSeed w.seed
    → let (r, w') = urandom_read buf n w in
      (r ≡ pos n)
      × (bytes w'.memory buf n ≡ low_bytes (seeds n w.seed))
      × (w'.seed ≡ iterate n w.seed)
      × IsSeed w'.seed
unfolding urandom_read
urandom_read-seeds buf n w h s =
    let e = urandom_loop-seed n buf w.memory w.seed in
    (
      ground arith,
      urandom_loop-bytes n buf w.memory w.seed,
      e,
      omega (arith, e, iterate-IsSeed n w.seed s),
    )
