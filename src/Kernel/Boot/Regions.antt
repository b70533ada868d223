-- ===== src/Kernel/Boot/Regions.antt =====
-- The loop of `hlinit` over the entries of the memory map, against the list of regions that it holds.
use oldasternix.Prelude.{
  ◌>>=◌, ℕ, zero, suc, ◌+◌, ◌*◌, ◌^◌, ◌≤◌, ◌<◌, ◌≡◌, refl, ap, ◌∙◌, Bool, true, false, ◌||◌, ◌==◌,
  ltb, if◌then◌else◌, arith, some, Ends, Ends-if, Ends-bind, Option, List, [], ◌∷◌, length,
}
use oldasternix.Prelude.Word.{u32}
use oldasternix.Kernel.Boot.Info.{word32, word64, entries_loop, memory_available}
use oldasternix.Kernel.Boot.Layout.{Region, RegionsAt, is_trackable, takes, any_takes}
use oldasternix.Kernel.Frames.{Frames, mem_set_used}
use oldasternix.Kernel.Frames.Marks.{IsBytes, used}
use oldasternix.Kernel.Frames.Regions.{Kept, unchanged, Kept-trans, mem_set_used-region}
use oldasternix.Libc.Memory.{Memory}

-- The frames that `p` tells are marked besides those that were, and the bitmap is made of bytes.
pub record Adds (p : ℕ → Bool) (f f' : Frames) : Type 0 where
  pub bytes : IsBytes f'
  pub marks : (q : ℕ) → q < 524280 → used f' q ≡ (p q || used f q)

pub Adds-trans :
    (p p' : ℕ → Bool) (f f1 f2 : Frames)
    → Adds p f f1
    → Adds p' f1 f2
    → Adds (λ q. p q || p' q) f f2
Adds-trans p p' f f1 f2 a b = record {
  bytes = b.bytes;
  marks = λ q l. ground (arith, a.marks q l, b.marks q l);
}

-- A round of each loop, with the memory that it reads apart from the frames that it marks.
abbrev entries_round : ℕ → ℕ → ℕ → ℕ → Frames → Memory → Option Frames
entries_round k fuel tag entry f m =
    if ltb entry (u32 (tag + word32 m (tag + 4)))
    then (do
      f ←
          if word32 m (entry + 16) == memory_available
          then some f
          else mem_set_used fuel (word64 m entry) (word64 m (entry + 8)) f
      entries_loop k fuel tag (u32 (entry + word32 m (tag + 8))) f)
    else some f

entries_loop-round :
    (k fuel tag entry : ℕ) (f : Frames) (m : Memory)
    → f.machine.memory ≡ m
    → entries_loop (suc k) fuel tag entry f ≡ entries_round k fuel tag entry f m
unfolding entries_loop
entries_loop-round k fuel tag entry f m same = ap (entries_round k fuel tag entry f) same

module _ (fuel : ℕ) (m : Memory) (enough : 2 ^ 32 ≤ fuel) where
  -- One entry of the memory map.
  entry-takes :
      (r : Region) (entry : ℕ) (f : Frames)
      → IsBytes f
      → word64 m entry ≡ r.addr
      → word64 m (entry + 8) ≡ r.len
      → word32 m (entry + 16) ≡ r.type
      → is_trackable r ≡ true
      → Ends
          (if word32 m (entry + 16) == memory_available
            then some f
            else mem_set_used fuel (word64 m entry) (word64 m (entry + 8)) f)
          (λ f'. Adds (takes r) f f' × Kept f f')
  entry-takes r entry f bytes addr len type fits =
      rw (addr, len, type)
        (Ends-if (r.type == memory_available)
          (λ free. (f, refl, (record { bytes = bytes; marks = λ q l. rw free refl }, unchanged f)))
          (λ taken.
            let (f', e, (bytes', marks, kept)) =
              mem_set_used-region fuel r.addr r.len f (omega arith) bytes (rw taken at fits) in
            (
              f',
              e,
              (
                record { bytes = bytes'; marks = λ q l. rw taken (marks q (omega (arith, l))) },
                kept,
              ),
            )))

  pub entries_loop-takes :
      (rs : List Region) (k tag entry size end : ℕ) (f : Frames)
      → f.machine.memory ≡ m
      → IsBytes f
      → word32 m (tag + 8) ≡ size
      → 24 ≤ size
      → u32 (tag + word32 m (tag + 4)) ≡ end
      → end ≡ entry + length rs * size
      → end < 2 ^ 32
      → RegionsAt m entry size rs
      → length rs < k
      → Ends (entries_loop k fuel tag entry f) (λ f'. Adds (any_takes rs) f f' × Kept f f')
  entries_loop-takes rs zero tag entry size end f same bytes step wide stop count top at less =
      absurd (omega arith)
  entries_loop-takes [] (suc k) tag entry size end f same bytes step wide stop count top at less =
      let done : ltb entry end ≡ false = ground (arith, count) in
      rw (entries_loop-round k fuel tag entry f m same, stop, done)
        (f, refl, (record { bytes = bytes; marks = λ q l. refl }, unchanged f))
  entries_loop-takes (r ∷ rs) (suc k) tag entry size end f same bytes step wide stop count top at
        less =
      let count' : end ≡ entry + size + length rs * size = grind arith in
      let more : ltb entry end ≡ true = ground (arith, count') in
      let next : u32 (entry + size) ≡ entry + size = ground (arith, count') in
      rw (entries_loop-round k fuel tag entry f m same, stop, more, step, next)
        (Ends-bind (entry-takes r entry f bytes at.0 at.1 at.2 at.3) (λ f1 (adds, kept).
          let (f2, e, (adds', kept')) =
            entries_loop-takes rs k tag (entry + size) size end f1
              (ap (λ w. w.memory) kept.machine ∙ same) adds.bytes step wide stop count' top at.4
              (omega arith) in
          (
            f2,
            e,
            (Adds-trans (takes r) (any_takes rs) f f1 f2 adds adds', Kept-trans f f1 f2 kept kept'),
          )))
