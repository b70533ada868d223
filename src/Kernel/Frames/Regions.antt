-- ===== src/Kernel/Frames/Regions.antt =====
-- The frames that boot marks, kernel/arch/i686/mem.c: whole regions, and what the marking leaves as
-- it is.
use oldasternix.Prelude.{
  ℕ, zero, suc, ◌+◌, ◌-◌, ◌*◌, ◌/◌, ◌%◌, ◌^◌, ◌≤◌, ◌<◌, ◌≡◌, refl, ap, ◌∙◌, inl, inr, Bool, true,
  ◌&&◌, ◌||◌, not, Bool-cases, ◌==◌, ltb, leb, arith, none, some, Option-cases, Ends, Ends-bind,
}
use mathlib.Core.Option.{some-injective}
use oldasternix.Prelude.Word.{u32}
use oldasternix.Kernel.Frames.{
  Frames, mark, set_phys_used, init_loop, mem_init_regions, set_used_loop, mem_set_used,
}
use oldasternix.Kernel.Frames.Marks.{
  IsBytes, used, used-mark, IsBytes-mark, in_region, region_end, in_region-aligned, tracked_end,
  set_phys_used-inside, set_used_loop-marks, mem_set_used-loop,
}

-- Only the bitmap changes.
pub record Kept (f f' : Frames) : Type 0 where
  pub machine : f'.machine ≡ f.machine
  pub lower_bound : f'.lower_bound ≡ f.lower_bound
  pub upper_bound : f'.upper_bound ≡ f.upper_bound

abbrev pub unchanged : (f : Frames) → Kept f f
unchanged f = record { machine = refl; lower_bound = refl; upper_bound = refl }

pub Kept-trans : (f g h : Frames) → Kept f g → Kept g h → Kept f h
Kept-trans f g h a b = record {
  machine = b.machine ∙ a.machine;
  lower_bound = b.lower_bound ∙ a.lower_bound;
  upper_bound = b.upper_bound ∙ a.upper_bound;
}

Kept-mark : (page : ℕ) (u : Bool) (f : Frames) → Kept f (mark page u f)
unfolding mark
Kept-mark page u f = record { machine = refl; lower_bound = refl; upper_bound = refl }

Kept-set_phys_used :
    (page : ℕ) (u : Bool) (f f' : Frames) → set_phys_used page u f ≡ some f' → Kept f f'
unfolding set_phys_used
Kept-set_phys_used page u f f' e = elim (Bool-cases (ltb (page / 4096 / 8) 65535)) [
  | inl inside ↦
      let e' : some (mark page u f) ≡ some f' = rw inside at e in
      rw (some-injective (mark page u f) f' e') at (Kept-mark page u f)
  | inr outside ↦ let e' : none ≡ some f' = rw outside at e in absurd (ground (arith, e'))
]

set_used_loop-Kept :
    (k page max : ℕ) (f f' : Frames) → set_used_loop k page max f ≡ some f' → Kept f f'
unfolding set_used_loop
set_used_loop-Kept zero page max f f' e = ground (arith, e)
set_used_loop-Kept (suc k) page max f f' e = elim (Option-cases (set_phys_used page true f)) [
  | inl fault ↦ let e' : none ≡ some f' = rw fault at e in absurd (ground (arith, e'))
  | inr (f1, marked) ↦
      let next = u32 (page + 4096) in
      let first = Kept-set_phys_used page true f f1 marked in
      elim (Bool-cases (ltb next max && not (next == 0))) [
        | inl more ↦
            Kept-trans f f1 f' first (set_used_loop-Kept k next max f1 f' (rw (marked, more) at e))
        | inr done ↦
            let end : some f1 ≡ some f' = rw (marked, done) at e in
            let same : f1 ≡ f' = some-injective f1 f' end in rw same at first
      ]
]

-- The frames that a call of `mem_set_used` marks.
abbrev pub region : ℕ → ℕ → ℕ → Bool
region phys min_size q = ltb phys (2 ^ 32) && in_region phys (region_end phys min_size) q

mem_set_used-behind :
    (fuel phys min_size : ℕ) (f : Frames)
    → 2 ^ 32 ≤ phys
    → mem_set_used fuel phys min_size f ≡ some f
unfolding mem_set_used
mem_set_used-behind fuel phys min_size f h =
    let test : ltb (2 ^ 32 - 1) phys ≡ true = ground arith in rw test refl

-- A region that `mem_set_used` can mark: it lies inside the bitmap, or starts where it is ignored.
abbrev pub is_tracked : ℕ → ℕ → Bool
is_tracked phys min_size =
    leb (2 ^ 32) phys || (ltb phys tracked_end && leb (phys + min_size) tracked_end)

-- `mem_set_used` of such a region marks it, and changes nothing but the bitmap.
pub mem_set_used-region :
    (fuel phys min_size : ℕ) (f : Frames)
    → 2 ^ 20 ≤ fuel
    → IsBytes f
    → is_tracked phys min_size ≡ true
    → Ends (mem_set_used fuel phys min_size f) (λ f'.
      IsBytes f'
      × ((q : ℕ) → q < 2 ^ 20 → used f' q ≡ (region phys min_size q || used f q))
      × Kept f f')
mem_set_used-region fuel phys min_size f enough bytes fits = elim (Bool-cases (ltb phys (2 ^ 32))) [
  | inl low ↦
      let small : phys < tracked_end = ground (arith, low, fits) in
      let ends : phys + min_size ≤ tracked_end = ground (arith, low, fits) in
      let (f', e, (bytes', marks)) =
        set_used_loop-marks fuel (phys - phys % 4096) (region_end phys min_size) f bytes
          (omega arith) (omega arith) (ground arith) (omega arith) in
      (
        f',
        mem_set_used-loop fuel phys min_size f (omega arith) (omega arith) ∙ e,
        (
          bytes',
          λ q l.
              marks q l
              ∙ ap (λ b. b || used f q)
                  (in_region-aligned phys (region_end phys min_size) q ∙ rw low refl),
          set_used_loop-Kept fuel (phys - phys % 4096) (region_end phys min_size) f f' e,
        ),
      )
  | inr high ↦ (
    f,
    mem_set_used-behind fuel phys min_size f (ground arith),
    (bytes, λ q l. rw high refl, unchanged f),
  )
]

init_loop-marks :
    (k page : ℕ) (f : Frames)
    → IsBytes f
    → page % 4096 ≡ 0
    → 0x100000 ≤ page + k * 4096
    → Ends (init_loop k page f) (λ f'.
      IsBytes f'
      × ((q : ℕ) → used f' q ≡ ((leb (page / 4096) q && ltb q 256) || used f q))
      × Kept f f')
unfolding init_loop
init_loop-marks zero page f bytes aligned fuel = (f, refl, (bytes, λ q. ground arith, unchanged f))
init_loop-marks (suc k) page f bytes aligned fuel = elim (Bool-cases (ltb page 0x100000)) [
  | inl more ↦
      let f1 = mark page true f in
      let marked : set_phys_used page true f ≡ some f1 =
        set_phys_used-inside page true f (ground (arith, more)) in
      let (f2, e, (bytes', marks, kept)) =
        init_loop-marks k (page + 4096) f1 (IsBytes-mark page true f bytes) (omega arith)
          (omega arith) in
      rw (more, marked)
        (
          f2,
          e,
          (
            bytes',
            λ q. marks q ∙ rw (used-mark page q true f bytes) (ground arith),
            Kept-trans f f1 f2 (Kept-mark page true f) kept,
          ),
        )
  | inr done ↦ rw done (f, refl, (bytes, λ q. ground arith, unchanged f))
]

-- `mem_init_regions` marks lower memory from the frame of its end on, up to 1 MiB, and sets the
-- bounds.
pub mem_init_regions-marks :
    (lower upper : ℕ) (f : Frames)
    → IsBytes f
    → Ends (mem_init_regions lower upper f) (λ f'.
      IsBytes f'
      × ((q : ℕ) → used f' q ≡ ((leb (lower / 4096) q && ltb q 256) || used f q))
      × (f'.machine ≡ f.machine)
      × (f'.lower_bound ≡ 0)
      × (f'.upper_bound ≡ u32 (0x100000 + upper)))
unfolding mem_init_regions
mem_init_regions-marks lower upper f bytes =
    let page : (lower - lower % 4096) / 4096 ≡ lower / 4096 = omega arith in
    Ends-bind (init_loop-marks 256 (lower - lower % 4096) f bytes (omega arith) (omega arith))
      (λ f' (bytes', marks, kept). (
        record f' { upper_bound = u32 (0x100000 + upper); lower_bound = 0 },
        refl,
        (
          bytes',
          λ q. marks q ∙ ap (λ n. (leb n q && ltb q 256) || used f q) page,
          kept.machine,
          refl,
          refl,
        ),
      ))
