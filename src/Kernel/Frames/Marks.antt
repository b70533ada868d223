-- ===== src/Kernel/Frames/Marks.antt =====
-- The bitmap of kernel/arch/i686/mem.c as a set of frames.
use oldasternix.Prelude.{
  ℕ, zero, suc, ◌+◌, ◌-◌, ◌*◌, ◌/◌, ◌%◌, ◌^◌, ◌≤◌, ◌<◌, ◌≡◌, refl, sym, ap, ap₂, ◌∙◌, inl, inr,
  Bool, true, false, none, some, ◌&&◌, ◌||◌, not, Bool-cases, ◌==◌, ltb, if◌then◌else◌, arith, Ends,
  Ends-if,
}
use mathlib.Core.Option.{some-injective}
use oldasternix.Prelude.Bytes.{has_bit, has_bit-set_bit}
use oldasternix.Prelude.Word.{u32}
use oldasternix.Kernel.Frames.{
  Frames, is_marked, mark, is_phys_used, set_phys_used, set_used_loop, mem_set_used,
}

-- The bitmap is made of bytes.
abbrev pub IsBytes : Frames → Type 0
IsBytes f = (i : ℕ) → f.bitmap i < 256

-- Whether frame number `q` is used.
abbrev pub used : Frames → ℕ → Bool
used f q = has_bit (f.bitmap (q / 8)) (q % 8)

pub used-mark :
    (phys q : ℕ) (u : Bool) (f : Frames)
    → IsBytes f
    → used (mark phys u f) q ≡ (if phys / 4096 == q then u else used f q)
unfolding mark
used-mark phys q true f bytes =
    let p = phys / 4096 in
    let law =
      has_bit-set_bit (f.bitmap (p / 8)) (p % 8) (q % 8) (bytes (p / 8)) (omega arith)
        (omega arith) in
    elim (Bool-cases (q / 8 == p / 8)) [
      | inl same ↦
          let e : q / 8 ≡ p / 8 = ground arith in
          let test : (p % 8 == q % 8) ≡ (p == q) = ground (arith, e) in
          rw same (law.0 ∙ rw (test, e))
      | inr other ↦ let test : (p == q) ≡ false = ground arith in rw (other, test)
    ]
used-mark phys q false f bytes =
    let p = phys / 4096 in
    let law =
      has_bit-set_bit (f.bitmap (p / 8)) (p % 8) (q % 8) (bytes (p / 8)) (omega arith)
        (omega arith) in
    elim (Bool-cases (q / 8 == p / 8)) [
      | inl same ↦
          let e : q / 8 ≡ p / 8 = ground arith in
          let test : (p % 8 == q % 8) ≡ (p == q) = ground (arith, e) in
          rw same (law.1 ∙ rw (test, e))
      | inr other ↦ let test : (p == q) ≡ false = ground arith in rw (other, test)
    ]

pub IsBytes-mark : (phys : ℕ) (u : Bool) (f : Frames) → IsBytes f → IsBytes (mark phys u f)
unfolding mark
IsBytes-mark phys u f bytes i = ground (arith, bytes i)

-- The address behind the last frame of the bitmap.
abbrev pub tracked_end : ℕ
tracked_end = 0x7fff8000

pub is_phys_used-inside :
    (phys : ℕ) (f : Frames) → phys < tracked_end → is_phys_used phys f ≡ some (is_marked phys f)
unfolding is_phys_used
is_phys_used-inside phys f inside =
    let test : ltb (phys / 4096 / 8) 65535 ≡ true = ground arith in rw test refl

pub set_phys_used-inside :
    (phys : ℕ) (u : Bool) (f : Frames)
    → phys < tracked_end
    → set_phys_used phys u f ≡ some (mark phys u f)
unfolding set_phys_used
set_phys_used-inside phys u f inside =
    let test : ltb (phys / 4096 / 8) 65535 ≡ true = ground arith in rw test refl

-- What is read lies inside.
pub is_phys_used-some :
    (phys : ℕ) (f : Frames) (u : Bool)
    → is_phys_used phys f ≡ some u
    → (phys < tracked_end) × (is_marked phys f ≡ u)
unfolding is_phys_used
is_phys_used-some phys f u e = elim (Bool-cases (ltb (phys / 4096 / 8) 65535)) [
  | inl inside ↦
      let e' : some (is_marked phys f) ≡ some u = rw inside at e in
      (ground (arith, inside), some-injective (is_marked phys f) u e')
  | inr outside ↦ let e' : none ≡ some u = rw outside at e in absurd (ground (arith, e'))
]

-- The frames that a region of memory meets, as `mem_set_used` computes its end; the first frame is
-- marked even when the region is empty.
abbrev pub region_end : ℕ → ℕ → ℕ
region_end phys min_size =
    if ltb (2 ^ 32 - 1) (phys + min_size) then 2 ^ 32 - 1 else phys + min_size

abbrev pub in_region : ℕ → ℕ → ℕ → Bool
in_region phys end q = (phys / 4096 == q) || (ltb (phys / 4096) q && ltb (q * 4096) end)

in_region-next :
    (page max q : ℕ) (b : Bool)
    → page % 4096 ≡ 0
    → page + 4096 < max
    → (in_region (page + 4096) max q || (if page / 4096 == q then true else b))
      ≡ (in_region page max q || b)
in_region-next page max q b aligned more =
    let next : (page + 4096) / 4096 ≡ page / 4096 + 1 = omega arith in ground (arith, next)

in_region-last :
    (page max q : ℕ) (b : Bool)
    → page % 4096 ≡ 0
    → max ≤ page + 4096
    → (if page / 4096 == q then true else b) ≡ (in_region page max q || b)
in_region-last page max q b aligned end = ground arith

pub set_used_loop-marks :
    (k page max : ℕ) (f : Frames)
    → IsBytes f
    → page % 4096 ≡ 0
    → page < tracked_end
    → max ≤ tracked_end
    → 2 ^ 20 ≤ page / 4096 + k
    → Ends
        (set_used_loop k page max f)
        (λ f'. IsBytes f' × ((q : ℕ) → q < 2 ^ 20 → used f' q ≡ (in_region page max q || used f q)))
unfolding set_used_loop
set_used_loop-marks zero page max f bytes aligned small top fuel = absurd (omega arith)
set_used_loop-marks (suc k) page max f bytes aligned small top fuel =
    let f1 = mark page true f in
    let bytes1 = IsBytes-mark page true f bytes in
    let marks1 = λ (q : ℕ). used-mark page q true f bytes in
    rw (set_phys_used-inside page true f small) (
      Ends-if (ltb (u32 (page + 4096)) max && not (u32 (page + 4096) == 0))
        (λ more.
          let next : u32 (page + 4096) ≡ page + 4096 = ground (arith, more) in
          let less : page + 4096 < max = ground (arith, more, next) in
          let (f', e, (bytes', marks)) =
            set_used_loop-marks k (u32 (page + 4096)) max f1 bytes1 (ground (arith, next))
              (omega (arith, next, less)) top (omega (arith, next)) in
          (
            f',
            e,
            (
              bytes',
              λ q l.
                  marks q l
                  ∙ rw (next, marks1 q) (in_region-next page max q (used f q) aligned less),
            ),
          ))
        (λ done.
          let ended : max ≤ page + 4096 = ground (arith, done) in
          (
            f1,
            refl,
            (bytes1, λ q l. marks1 q ∙ in_region-last page max q (used f q) aligned ended),
          )))

pub used-is_marked : (q : ℕ) (f : Frames) → used f q ≡ is_marked (q * 4096) f
unfolding is_marked
used-is_marked q f = let same : q * 4096 / 4096 ≡ q = omega arith in rw same

pub used-is_phys_used :
    (q : ℕ) (f : Frames)
    → is_phys_used (q * 4096) f ≡ (if ltb (q / 8) 65535 then some (used f q) else none)
unfolding is_phys_used
used-is_phys_used q f =
    let same : q * 4096 / 4096 ≡ q = omega arith in rw (same, sym (used-is_marked q f)) refl

pub in_region-aligned :
    (phys end q : ℕ) → in_region (phys - phys % 4096) end q ≡ in_region phys end q
in_region-aligned phys end q =
    let same : (phys - phys % 4096) / 4096 ≡ phys / 4096 = omega arith in rw same

pub mem_set_used-loop :
    (fuel phys min_size : ℕ) (f : Frames)
    → phys < 2 ^ 32
    → phys + min_size < 2 ^ 64
    → mem_set_used fuel phys min_size f
      ≡ set_used_loop fuel (phys - phys % 4096) (region_end phys min_size) f
unfolding mem_set_used
mem_set_used-loop fuel phys min_size f small fits =
    let end : (phys + min_size) % 2 ^ 64 ≡ phys + min_size = ground arith in
    let low : ltb (2 ^ 32 - 1) phys ≡ false = ground arith in rw (end, low)

-- `mem_set_used` of a region that starts and ends inside the bitmap, at 0x7fff8000 at most, with
-- 2^20 rounds of fuel, runs to its end and marks exactly the frames that the region meets, and its
-- first frame also when it is empty: a frame inside the bitmap that was read as used or free is
-- read as used if the region meets it, and else as before. The bitmap is made of bytes, before and
-- after.
pub mem_set_used-in_region :
    (fuel phys min_size q : ℕ) (f : Frames) (u : Bool)
    → 2 ^ 20 ≤ fuel
    → IsBytes f
    → phys < tracked_end
    → phys + min_size ≤ tracked_end
    → is_phys_used (q * 4096) f ≡ some u
    → Ends (mem_set_used fuel phys min_size f) (λ f'.
      IsBytes f' × (is_phys_used (q * 4096) f' ≡ some (in_region phys (phys + min_size) q || u)))
mem_set_used-in_region fuel phys min_size q f u enough bytes small fits read =
    let (inside, marked) = is_phys_used-some (q * 4096) f u read in
    let end : region_end phys min_size ≡ phys + min_size = ground arith in
    let (f', e, (bytes', marks)) =
      set_used_loop-marks fuel (phys - phys % 4096) (phys + min_size) f bytes (omega arith)
        (omega arith) fits (omega arith) in
    (
      f',
      mem_set_used-loop fuel phys min_size f (omega arith) (omega arith)
          ∙ ap (λ max. set_used_loop fuel (phys - phys % 4096) max f) end
          ∙ e,
      (
        bytes',
        is_phys_used-inside (q * 4096) f' inside
            ∙ ap some (
                sym (used-is_marked q f')
                ∙ marks q (omega arith)
                ∙ ap₂ ◌||◌ (in_region-aligned phys (phys + min_size) q)
                    (used-is_marked q f ∙ marked)),
      ),
    )
