-- ===== src/Kernel/Frames/Choice.antt =====
-- Which frame `alloc_phys` of kernel/arch/i686/mem.c may hand out, whatever the bitmap holds.
use oldasternix.Prelude.{
  ℕ, zero, suc, ◌+◌, ◌-◌, ◌/◌, ◌%◌, ◌^◌, ◌≤◌, ◌<◌, ◌≡◌, refl, ap, ◌∙◌, true, false, some, inl, inr,
  ◌⊎◌, ltb, arith, Ends, Ends-if,
}
use oldasternix.Prelude.Word.{u32}
use oldasternix.Kernel.Frames.{
  Frames, is_marked, mark, is_phys_used, set_phys_used, alloc_loop, alloc_phys,
}
use oldasternix.Kernel.Frames.Alloc.{failed}
use oldasternix.Kernel.Frames.Marks.{tracked_end, is_phys_used-inside, set_phys_used-inside}

-- A frame from `ret` on, below the upper bound, that was free and is marked now.
pub record IsChosen (ret : ℕ) (f : Frames) (r : ℕ × Frames) : Type 0 where
  pub above : ret ≤ r.0
  pub below : r.0 < f.upper_bound
  pub aligned : r.0 % 4096 ≡ 0
  pub free : is_phys_used r.0 f ≡ some false
  pub marked : set_phys_used r.0 true f ≡ some r.1

-- No frame was free.
abbrev pub IsRefused : Frames → ℕ × Frames → Type 0
IsRefused f r = (r.0 ≡ 2 ^ 32 - 1) × (r.1.bitmap ≡ f.bitmap)

alloc_loop-IsChosen :
    (k ret : ℕ) (f : Frames)
    → 2 ^ 20 < ret / 4096 + k
    → ret % 4096 ≡ 0
    → ret < 2 ^ 32
    → f.upper_bound ≤ tracked_end
    → f.machine.cursor < 2000
    → Ends (alloc_loop k ret f) (λ r. IsRefused f r ⊎ IsChosen ret f r)
unfolding alloc_loop
alloc_loop-IsChosen zero ret f enough aligned small top on = absurd (omega arith)
alloc_loop-IsChosen (suc k) ret f enough aligned small top on =
    Ends-if (ltb ret f.upper_bound)
      (λ under.
        let below : ret < f.upper_bound = ground (arith, under) in
        let next : u32 (ret + 4096) ≡ ret + 4096 = omega (arith, below) in
        let inside : ret < tracked_end = omega (arith, below, top) in
        rw (is_phys_used-inside ret f inside, set_phys_used-inside ret true f inside)
          (Ends-if (is_marked ret f)
            (λ taken. rw next (
              let (r, e, how) =
                alloc_loop-IsChosen k (ret + 4096) f (omega arith) (omega arith) (omega arith) top
                  on in
              (r, e, later r how)))
            (λ free. (
              (ret, mark ret true f),
              refl,
              inr (record {
                above = omega arith;
                below = below;
                aligned = aligned;
                free = is_phys_used-inside ret f inside ∙ ap some free;
                marked = set_phys_used-inside ret true f inside;
              }),
            ))))
      (λ _. (let (r, e, p) = failed f on in (r, e, inl p)))
  where
    later :
        (r : ℕ × Frames)
        → IsRefused f r ⊎ IsChosen (ret + 4096) f r
        → IsRefused f r ⊎ IsChosen ret f r
    later r (inl p) = inl p
    later r (inr p) = inr (record {
      above = omega (arith, p.above);
      below = p.below;
      aligned = p.aligned;
      free = p.free;
      marked = p.marked;
    })

-- `alloc_phys` runs to its end with more than 2^20 rounds of fuel. Either it hands out a frame that
-- was free, from the lower bound on and below the upper bound, and marks it alone, or it returns
-- 0xffffffff and the bitmap is as before. The lower bound is the address of a frame, the upper bound
-- not behind the frames of the bitmap, and the cursor is on the screen.
pub alloc_phys-IsChosen :
    (fuel : ℕ) (f : Frames)
    → 2 ^ 20 < fuel
    → f.lower_bound % 4096 ≡ 0
    → f.lower_bound < 2 ^ 32
    → f.upper_bound ≤ tracked_end
    → f.machine.cursor < 2000
    → Ends (alloc_phys fuel f) (λ r. IsRefused f r ⊎ IsChosen f.lower_bound f r)
unfolding alloc_phys
alloc_phys-IsChosen fuel f enough aligned small top on =
    alloc_loop-IsChosen fuel f.lower_bound f (omega arith) aligned small top on
