-- ===== src/Kernel/Tmpfs/FileData/Load.antt =====
-- The loop over blocks of `tmpfs_read`, and its first slice.
use oldasternix.Prelude.{
  ℕ, zero, suc, ◌+◌, ◌-◌, ◌*◌, ◌/◌, ◌%◌, ◌≤◌, ◌<◌, ◌≡◌, refl, ap, ◌∙◌, ◌⊎◌, Bool-cases, inl, inr,
  some, ltb, if◌then◌else◌, length, arith,
}
use oldasternix.Libc.Memory.{Memory}
use oldasternix.Kernel.Tmpfs.Chain.{Chain, blk_size, copy_out, next_blk, read_loop}
use oldasternix.Kernel.Tmpfs.FileData.{first_slice}
use oldasternix.Kernel.Tmpfs.FileData.Walk.{byte_at}
use oldasternix.Kernel.Tmpfs.FileData.Rounds.{block, byte_at-block}

-- The file's bytes from `lo` to `hi` stand in memory at `buf`, and nothing before `buf` changed.
pub record IsLoaded (c : Chain) (buf lo hi : ℕ) (m m' : Memory) : Type 0 where
  pub new : (x : ℕ) → lo ≤ x → x < hi → m' (buf + (x - lo)) ≡ byte_at c x
  pub before : (y : ℕ) → y < buf → m' y ≡ m y

read_loop-done :
    (f : ℕ) (c : Chain) (off end buf n i : ℕ) (m : Memory)
    → end ≤ off
    → read_loop (suc f) c off end buf n i m ≡ some m
unfolding read_loop
read_loop-done f c off end buf n i m h = ground arith

read_loop-more :
    (f : ℕ) (c : Chain) (off end buf n i j : ℕ) (m : Memory)
    → off < end
    → next_blk c i ≡ some (some j)
    → read_loop (suc f) c off end buf n i m
      ≡ read_loop f c
          (off + 4096)
          end
          (buf + 4096)
          n
          (i + 1)
          (copy_out (block c (i + 1)) 0 m buf (if ltb n 4096 then n else 4096))
unfolding read_loop
read_loop-more f c off end buf n i j m h e = ground arith

module _ (c : Chain) where
  IsLoaded-step :
      (buf count i off end : ℕ) (m m' : Memory)
      → off ≡ 4096 * (i + 1)
      → (end ≤ off + count) ⊎ (count ≡ 4096)
      → count ≤ 4096
      → IsLoaded c (buf + 4096) (off + 4096) end (copy_out (block c (i + 1)) 0 m buf count) m'
      → IsLoaded c buf off end m m'
  IsLoaded-step buf count i off end m m' start enough small s = record {
    new = λ x lo hi. elim (Bool-cases (ltb x (off + 4096))) [
      | inl here ↦
          let e : x - 4096 * (i + 1) ≡ x - off = omega arith in
          s.before (buf + (x - off)) (ground arith)
          ∙ ground (
            arith,
            byte_at-block c (i + 1) x,
            ap (λ k. block c (i + 1) k) e,
            ap (λ k. block c (i + 1) k) {x = 0 + (buf + (x - off) - buf)} {y = x - off}
                (omega arith),
          )
      | inr later ↦
          ap m' {x = buf + (x - off)} {y = buf + 4096 + (x - (off + 4096))} (ground arith)
          ∙ s.new x (ground arith) hi
    ];
    before = λ y l. s.before y (omega arith) ∙ ground arith;
  }

  pub read_loop-IsLoaded :
      (f off end buf n i : ℕ) (m : Memory)
      → off ≡ 4096 * (i + 1)
      → end ≤ off + n
      → end ≤ off + 4096 * f
      → end ≤ 4096 * length c.blocks
      → (m' : Memory) × (read_loop (suc f) c off end buf n i m ≡ some m')
        × IsLoaded c buf off end m m'
  read_loop-IsLoaded zero off end buf n i m start part fuel room = (
    m,
    read_loop-done zero c off end buf n i m (omega arith),
    record { new = λ x lo hi. absurd (omega arith); before = λ y l. refl },
  )
  read_loop-IsLoaded (suc f) off end buf n i m start part fuel room =
      elim (Bool-cases (ltb off end)) [
        | inr done ↦ (
          m,
          read_loop-done (suc f) c off end buf n i m (ground arith),
          record { new = λ x lo hi. absurd (ground arith); before = λ y l. refl },
        )
        | inl more ↦
            let count : ℕ = if ltb n blk_size then n else blk_size in
            let m1 = copy_out (block c (i + 1)) 0 m buf count in
            let (m', e, s) =
              read_loop-IsLoaded f (off + 4096) end (buf + 4096) n (i + 1) m1 (omega arith)
                (omega arith) (omega arith) room in
            let there : next_blk c i ≡ some (some (i + 1)) = unfold next_blk in ground arith in
            (
              m',
              read_loop-more (suc f) c off end buf n i (i + 1) m (ground arith) there ∙ e,
              IsLoaded-step buf count i off end m m' start (ground arith) (ground arith) s,
            )
      ]

  pub IsLoaded-join :
      (buf lo mid hi : ℕ) (m m1 m2 : Memory)
      → lo ≤ mid
      → IsLoaded c buf lo mid m m1
      → IsLoaded c (buf + (mid - lo)) mid hi m1 m2
      → IsLoaded c buf lo hi m m2
  IsLoaded-join buf lo mid hi m m1 m2 h s t = record {
    new = λ x p q. elim (Bool-cases (ltb x mid)) [
      | inl early ↦ t.before (buf + (x - lo)) (ground arith) ∙ s.new x p (ground arith)
      | inr later ↦
          ap m2 {x = buf + (x - lo)} {y = buf + (mid - lo) + (x - mid)} (ground arith)
          ∙ t.new x (ground arith) q
    ];
    before = λ y l. t.before y (omega arith) ∙ s.before y l;
  }

  pub first-IsLoaded :
      (m : Memory) (buf off n : ℕ)
      → IsLoaded c buf off
          (off + first_slice off n)
          m
          (copy_out (block c (off / 4096)) (off % 4096) m buf (first_slice off n))
  first-IsLoaded m buf off n = record {
    new = λ x lo hi.
        let there : x / 4096 ≡ off / 4096 = ground arith in
        let place : off % 4096 + (buf + (x - off) - buf) ≡ x % 4096 = ground arith in
        ground
          (arith, ap (λ k. block c (off / 4096) k) place, ap (λ k. block c k (x % 4096)) there);
    before = λ y l. ground arith;
  }

  pub rest-IsLoaded :
      (off buf n : ℕ) (m : Memory)
      → off + n ≤ 4096 * length c.blocks
      → let slice = first_slice off n in
        (m' : Memory) × (read_loop
            (n / 4096 + 2)
            c
            (off + slice)
            (off + n)
            (buf + slice)
            n
            (off / 4096)
            m
          ≡ some m')
        × IsLoaded c (buf + slice) (off + slice) (off + n) m m'
  rest-IsLoaded off buf n m room =
      let slice = first_slice off n in
      let rounds : n / 4096 + 2 ≡ suc (n / 4096 + 1) = omega arith in
      rw rounds (elim (Bool-cases (ltb n (4096 - off % 4096))) [
        | inl fits ↦ (
          m,
          read_loop-done (n / 4096 + 1) c (off + slice) (off + n) (buf + slice) n (off / 4096) m
              (ground arith),
          record { new = λ x lo hi. absurd (ground arith); before = λ y l. refl },
        )
        | inr more ↦
            read_loop-IsLoaded (n / 4096 + 1) (off + slice) (off + n) (buf + slice) n (off / 4096) m
              (ground arith) (ground arith) (ground arith) room
      ])
