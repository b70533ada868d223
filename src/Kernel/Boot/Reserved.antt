-- ===== src/Kernel/Boot/Reserved.antt =====
-- The frames that are handed out once `hlinit` (kernel/arch/i686/boot/boot1.c) has read the boot
-- information.
use oldasternix.Prelude.{
  ℕ, ◌*◌, ◌/◌, ◌%◌, ◌^◌, ◌≤◌, ◌<◌, ◌≡◌, sym, ap, ◌∙◌, false, some, ◌||◌, inl, inr, ◌⊎◌, List, arith,
  Ends,
}
use oldasternix.Kernel.Boot.{read_info}
use oldasternix.Kernel.Boot.Info.{Found, nothing_found}
use oldasternix.Kernel.Boot.Layout.{Tag, learn_all, any_reserves, bounds}
use oldasternix.Kernel.Boot.Maps.{IsHanded, read_info-Reads}
use oldasternix.Kernel.Boot.Parse.{Reads}
use oldasternix.Kernel.Boot.State.{Given, Kernel}
use oldasternix.Kernel.Frames.{Frames, is_marked, is_phys_used, alloc_phys}
use oldasternix.Kernel.Frames.Choice.{IsChosen, IsRefused, alloc_phys-IsChosen}
use oldasternix.Kernel.Frames.Marks.{
  used, tracked_end, used-is_marked, is_phys_used-inside, is_phys_used-some,
}
use oldasternix.Kernel.Paging.{Paging}
use oldasternix.Kernel.Ports.{Hardware}

-- A frame that no tag reserves, and that was free when the information was read.
abbrev pub IsUnreserved : List Tag → Frames → ℕ → Type 0
IsUnreserved ts f phys =
    (any_reserves ts (phys / 4096) ≡ false) × (is_phys_used phys f ≡ some false)

used-aligned : (phys : ℕ) (f : Frames) → phys % 4096 ≡ 0 → used f (phys / 4096) ≡ is_marked phys f
used-aligned phys f aligned =
    let whole : phys / 4096 * 4096 ≡ phys = omega arith in
    used-is_marked (phys / 4096) f ∙ ap (λ a. is_marked a f) whole

unreserved :
    (ts : List Tag) (f : Frames) (b : ℕ × ℕ) (g : Found) (r : Found × Frames) (a : ℕ × Frames)
    → Reads g (any_reserves ts) b f r
    → b.1 ≤ tracked_end
    → IsChosen r.1.lower_bound r.1 a
    → (a.0 < b.1) × IsUnreserved ts f a.0
unreserved ts f b g r a reads top chosen =
    let high : r.1.upper_bound ≡ b.1 = ap (λ c. c.1) reads.within in
    let below : a.0 < b.1 = omega (arith, high, chosen.below) in
    let inside : a.0 < tracked_end = omega (arith, below, top) in
    let marks = reads.adds.marks (a.0 / 4096) (omega arith) in
    let free : (any_reserves ts (a.0 / 4096) || is_marked a.0 f) ≡ false =
      ap (λ u. any_reserves ts (a.0 / 4096) || u) (sym (used-aligned a.0 f chosen.aligned))
      ∙ sym marks
      ∙ used-aligned a.0 r.1 chosen.aligned
      ∙ (is_phys_used-some a.0 r.1 false chosen.free).1 in
    let unused : is_marked a.0 f ≡ false = ground (arith, free) in
    (below, (ground (arith, free), is_phys_used-inside a.0 f inside ∙ ap some unused))

module _ (hw : Hardware) (fuel : ℕ) (given : Given) (enough : 2 ^ 32 ≤ fuel) where
  -- After the boot information is read, `alloc_phys` runs to its end, and a frame that it hands out
  -- lies below the upper bound that the tags give, is reserved by no tag (no unavailable region of
  -- the memory map, and not the hole behind lower memory) and was free before; else it returns
  -- 0xffffffff and the bitmap is as before. The tags lie in memory, and each unavailable region
  -- lies below 0x7fff8000, where the bitmap ends, or starts at 4 GiB or above, the bitmap is made
  -- of bytes, the lower bound is a frame's address below 4 GiB, the upper bound at most 0x7fff8000,
  -- the cursor is on the screen, and the fuel is at least 2^32 and more than the number of tags.
  pub alloc_phys-IsUnreserved :
      (k : Kernel) (ts : List Tag) (p : Paging)
      → IsHanded hw fuel given k ts p
      → let b = bounds ts (p.frames.lower_bound, p.frames.upper_bound) in
        b.0 % 4096 ≡ 0
        → b.0 < 2 ^ 32
        → b.1 ≤ tracked_end
        → p.frames.machine.cursor < 2000
        → Ends (read_info hw fuel given p) (λ r.
          Ends
            (alloc_phys fuel r.1.frames)
            (λ a. IsRefused r.1.frames a ⊎ ((a.0 < b.1) × IsUnreserved ts p.frames a.0)))
  alloc_phys-IsUnreserved k ts p h aligned small top on =
      let (r, e, reads) = read_info-Reads hw fuel given enough k ts p h in
      let b = bounds ts (p.frames.lower_bound, p.frames.upper_bound) in
      let low : r.1.frames.lower_bound ≡ b.0 = ap (λ c. c.0) reads.within in
      let high : r.1.frames.upper_bound ≡ b.1 = ap (λ c. c.1) reads.within in
      let cursor : r.1.frames.machine.cursor ≡ p.frames.machine.cursor =
        ap (λ w. w.cursor) reads.machine in
      let (a, e', how) =
        alloc_phys-IsChosen fuel r.1.frames (omega arith) (rw low aligned)
          (omega (arith, low, small)) (omega (arith, high, top)) (omega (arith, cursor, on)) in
      (
        r,
        e,
        (
          a,
          e',
          elim how [
            | inl refused ↦ inl refused
            | inr chosen ↦ inr (
                unreserved ts p.frames b (learn_all ts nothing_found) (r.0, r.1.frames) a reads top
                  chosen)
          ],
        ),
      )
