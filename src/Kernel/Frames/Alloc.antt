-- ===== src/Kernel/Frames/Alloc.antt =====
-- Allocation of a frame by kernel/arch/i686/mem.c.
use oldasternix.Prelude.{
  ℕ, zero, suc, ◌+◌, ◌-◌, ◌*◌, ◌/◌, ◌^◌, ◌≤◌, ◌<◌, ◌≡◌, refl, sym, ap, ◌∙◌, Bool, true, false,
  Bool-cases, inl, inr, none, some, ◌==◌, ltb, if◌then◌else◌, arith, Ends, Ends-if, Ends-bind,
  ◌>>=◌, [],
}
use oldasternix.Prelude.Text.{bytes_of}
use oldasternix.Prelude.Word.{u32}
use oldasternix.Kernel.Frames.{Frames, mark, is_phys_used, set_phys_used, alloc_loop, alloc_phys}
use oldasternix.Kernel.Frames.Marks.{
  IsBytes, used, tracked_end, used-mark, used-is_phys_used, is_phys_used-some, set_phys_used-inside,
}
use oldasternix.Libc.Stdio.{say}
use oldasternix.Libc.Stdio.Messages.{say_text-Said}

-- The frames from address `ret` on, `n` of them, are used.
abbrev pub AllUsed : ℕ → ℕ → Frames → Type 0
AllUsed n ret f = (i : ℕ) → i < n → is_phys_used (ret + i * 4096) f ≡ some true

alloc_loop-lowest :
    (k n ret : ℕ) (f : Frames)
    → n < k
    → AllUsed n ret f
    → ret + n * 4096 < f.upper_bound
    → f.upper_bound < 2 ^ 32
    → is_phys_used (ret + n * 4096) f ≡ some false
    → alloc_loop k ret f ≡ some (ret + n * 4096, mark (ret + n * 4096) true f)
unfolding alloc_loop
alloc_loop-lowest zero n ret f fuel full below top free = absurd (omega arith)
alloc_loop-lowest (suc k) zero ret f fuel full below top free =
    let here : ret + 0 * 4096 ≡ ret = omega arith in
    let under : ltb ret f.upper_bound ≡ true = ground arith in
    let unused : is_phys_used ret f ≡ some false = rw here at free in
    let (inside, _) = is_phys_used-some ret f false unused in
    rw (under, unused, set_phys_used-inside ret true f inside, here)
alloc_loop-lowest (suc k) (suc n) ret f fuel full below top free =
    let under : ltb ret f.upper_bound ≡ true = ground arith in
    let taken : is_phys_used ret f ≡ some true =
      let here : ret + 0 * 4096 ≡ ret = omega arith in rw here at (full 0 (omega arith)) in
    let next : u32 (ret + 4096) ≡ ret + 4096 = omega arith in
    let shift =
      λ (i : ℕ). (let e : ret + 4096 + i * 4096 ≡ ret + suc i * 4096 = omega arith in e) in
    let rest =
      alloc_loop-lowest k n (ret + 4096) f (omega arith)
        (λ i l. rw (shift i) (full (suc i) (omega arith))) (omega arith) top (rw (shift n) free) in
    rw (under, taken, next) (rest ∙ ap (λ x. some (x, mark x true f)) (shift n))

-- A round at a used frame.
alloc_loop-used :
    (k ret : ℕ) (f : Frames)
    → is_phys_used ret f ≡ some true
    → ret + 4096 < 2 ^ 32
    → (do
      taken ← is_phys_used ret f
      if taken
          then alloc_loop k (u32 (ret + 4096)) f
          else (do f ← set_phys_used ret true f; some (ret, f)))
      ≡ alloc_loop k (ret + 4096) f
alloc_loop-used k ret f taken small =
    let next : u32 (ret + 4096) ≡ ret + 4096 = omega arith in rw (taken, next)

-- What is left when no frame was free.
pub failed :
    (f : Frames)
    → f.machine.cursor < 2000
    → Ends {A = ℕ × Frames}
        (do
          w ← say (bytes_of "err: mem: out of memory (phys)\n") [] f.machine
          some (2 ^ 32 - 1, record f { machine = w }))
        (λ r. (r.0 ≡ 2 ^ 32 - 1) × (r.1.bitmap ≡ f.bitmap))
failed f on =
    Ends-bind (say_text-Said (bytes_of "err: mem: out of memory (phys)\n") f.machine refl on)
      (λ w said. ((2 ^ 32 - 1, record f { machine = w }), refl, (refl, refl)))

alloc_loop-none :
    (k n ret : ℕ) (f : Frames)
    → n < k
    → AllUsed n ret f
    → f.upper_bound ≤ ret + n * 4096
    → ret + n * 4096 < 2 ^ 32
    → f.machine.cursor < 2000
    → Ends (alloc_loop k ret f) (λ r. (r.0 ≡ 2 ^ 32 - 1) × (r.1.bitmap ≡ f.bitmap))
unfolding alloc_loop
alloc_loop-none zero n ret f fuel full above small on = absurd (omega arith)
alloc_loop-none (suc k) zero ret f fuel full above small on =
    let under : ltb ret f.upper_bound ≡ false = ground arith in rw under (failed f on)
alloc_loop-none (suc k) (suc n) ret f fuel full above small on =
    let here : ret + 0 * 4096 ≡ ret = omega arith in
    let taken : is_phys_used ret f ≡ some true = rw here at (full 0 (omega arith)) in
    let shift =
      λ (i : ℕ). (let e : ret + 4096 + i * 4096 ≡ ret + suc i * 4096 = omega arith in e) in
    let rest =
      alloc_loop-none k n (ret + 4096) f (omega arith)
        (λ i l. rw (shift i) (full (suc i) (omega arith))) (omega arith) (omega arith) on in
    Ends-if (ltb ret f.upper_bound) (λ _. rw (alloc_loop-used k ret f taken (omega arith)) rest)
      (λ _. failed f on)

marked-here :
    (phys q : ℕ) (b : Bool)
    → phys < tracked_end
    → (if ltb (q / 8) 65535 then some (if phys / 4096 == q then true else b) else none)
      ≡ (if phys / 4096 == q then some true else if ltb (q / 8) 65535 then some b else none)
marked-here phys q b inside = elim (Bool-cases (phys / 4096 == q)) [
  | inl same ↦ let test : ltb (q / 8) 65535 ≡ true = ground (arith, same) in rw (same, test) refl
  | inr other ↦ rw other refl
]

-- If the first `n` frames from the lower bound are read as used and the next one, below the upper
-- bound, is read as free, all inside the bitmap, `alloc_phys` runs to its end with more fuel than
-- `n`, returns that frame and marks it; every other frame is read as before. The bitmap is made of
-- bytes and the upper bound is below 2^32.
pub alloc_phys-lowest :
    (fuel n : ℕ) (f : Frames)
    → n < fuel
    → IsBytes f
    → AllUsed n f.lower_bound f
    → f.lower_bound + n * 4096 < f.upper_bound
    → f.upper_bound < 2 ^ 32
    → is_phys_used (f.lower_bound + n * 4096) f ≡ some false
    → let phys = f.lower_bound + n * 4096 in
      Ends (alloc_phys fuel f) (λ r.
        (r.0 ≡ phys)
        × ((q : ℕ)
            → is_phys_used (q * 4096) r.1
              ≡ (if phys / 4096 == q then some true else is_phys_used (q * 4096) f)))
unfolding alloc_phys
alloc_phys-lowest fuel n f enough bytes full below top free =
    let phys = f.lower_bound + n * 4096 in
    let f' = mark phys true f in
    let (inside, _) = is_phys_used-some phys f false free in
    (
      (phys, f'),
      alloc_loop-lowest fuel n f.lower_bound f enough full below top free,
      (
        refl,
        λ q.
            used-is_phys_used q f'
            ∙ rw (used-mark phys q true f bytes) (marked-here phys q (used f q) inside)
            ∙ ap (λ b. if phys / 4096 == q then some true else b) (sym (used-is_phys_used q f)),
      ),
    )

-- If the `n` frames from the lower bound up to the upper bound are used, `alloc_phys` runs to its
-- end with more fuel than `n`, returns 0xffffffff and leaves the bitmap as it is. The frames end
-- below 2^32 and the cursor is on the screen.
pub alloc_phys-none :
    (fuel n : ℕ) (f : Frames)
    → n < fuel
    → AllUsed n f.lower_bound f
    → f.upper_bound ≤ f.lower_bound + n * 4096
    → f.lower_bound + n * 4096 < 2 ^ 32
    → f.machine.cursor < 2000
    → Ends (alloc_phys fuel f) (λ r. (r.0 ≡ 2 ^ 32 - 1) × (r.1.bitmap ≡ f.bitmap))
unfolding alloc_phys
alloc_phys-none fuel n f enough full above small on =
    alloc_loop-none fuel n f.lower_bound f enough full above small on
