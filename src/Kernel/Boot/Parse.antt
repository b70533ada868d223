-- ===== src/Kernel/Boot/Parse.antt =====
-- The loops of `hlinit` over the boot information, against the list of tags that it holds.
use oldasternix.Prelude.{
  ◌>>=◌, ℕ, zero, suc, ◌+◌, ◌*◌, ◌^◌, ◌≤◌, ◌<◌, ◌≡◌, refl, ap, ap₂, ◌∙◌, Bool, true, false, ◌==◌,
  if◌then◌else◌, arith, some, Ends, Ends-bind, Option, List, [], ◌∷◌, length,
}
use oldasternix.Prelude.Word.{u32}
use oldasternix.Kernel.Boot.Info.{
  Found, word32, padded, entries_loop, read_tag, tags_loop, tag_type_end, tag_type_module,
  tag_type_basic_meminfo, tag_type_mmap,
}
use oldasternix.Kernel.Boot.Layout.{
  Tag, meminfo, mmap, ramdisk, other, type_of, size_of, BodyAt, TagsAt, learn, learn_all, reserves,
  any_reserves, bound, bounds,
}
use oldasternix.Kernel.Frames.{Frames, mem_init_regions}
use oldasternix.Kernel.Frames.Marks.{IsBytes}
use oldasternix.Kernel.Frames.Regions.{mem_init_regions-marks}
use oldasternix.Kernel.Boot.Regions.{Adds, Adds-trans, entries_loop-takes}
use oldasternix.Libc.Memory.{Memory}

-- A round of each loop, with the memory that it reads apart from the frames that it marks.
abbrev read_round : ℕ → ℕ → Found → Frames → Memory → Option (Found × Frames)
read_round fuel tag g f m =
    if word32 m tag == tag_type_basic_meminfo
    then (do
      f ← mem_init_regions (u32 (word32 m (tag + 8) * 1024)) (u32 (word32 m (tag + 12) * 1024)) f
      some (record g { got_meminfo = true }, f))
    else if word32 m tag == tag_type_mmap
    then (do f ← entries_loop fuel fuel tag (tag + 16) f; some (record g { got_mmap = true }, f))
    else if word32 m tag == tag_type_module
    then some
        (record g { got_rd = true; rd_start = word32 m (tag + 8); rd_end = word32 m (tag + 12) }, f)
    else some (g, f)

read_tag-round :
    (fuel tag : ℕ) (g : Found) (f : Frames) (m : Memory)
    → f.machine.memory ≡ m
    → read_tag fuel tag g f ≡ read_round fuel tag g f m
unfolding read_tag
read_tag-round fuel tag g f m same = ap (read_round fuel tag g f) same

abbrev tags_round : ℕ → ℕ → ℕ → Found → Frames → Memory → Option (Found × Frames)
tags_round k fuel tag g f m = if word32 m tag == tag_type_end then some (g, f) else (do
  (g, f) ← read_tag fuel tag g f
  tags_loop k fuel (u32 (tag + padded (word32 m (tag + 4)))) g f)

tags_loop-round :
    (k fuel tag : ℕ) (g : Found) (f : Frames) (m : Memory)
    → f.machine.memory ≡ m
    → tags_loop (suc k) fuel tag g f ≡ tags_round k fuel tag g f m
unfolding tags_loop
tags_loop-round k fuel tag g f m same = ap (tags_round k fuel tag g f) same

-- What a part of the information does: what is remembered, the frames marked, and the bounds.
pub record Reads (learnt : Found) (p : ℕ → Bool) (b : ℕ × ℕ) (f : Frames) (r : Found × Frames)
    : Type 0 where
  pub found : r.0 ≡ learnt
  pub adds : Adds p f r.1
  pub within : (r.1.lower_bound, r.1.upper_bound) ≡ b
  pub machine : r.1.machine ≡ f.machine

Reads-then :
    (t : Tag) (ts : List Tag) (g : Found) (f : Frames) (r r' : Found × Frames)
    → Reads (learn t g) (reserves t) (bound t (f.lower_bound, f.upper_bound)) f r
    → Reads
        (learn_all ts r.0)
        (any_reserves ts)
        (bounds ts (r.1.lower_bound, r.1.upper_bound))
        r.1
        r'
    → Reads
        (learn_all (t ∷ ts) g)
        (any_reserves (t ∷ ts))
        (bounds (t ∷ ts) (f.lower_bound, f.upper_bound))
        f
        r'
Reads-then t ts g f r r' first rest = record {
  found = rest.found ∙ ap (learn_all ts) first.found;
  adds = Adds-trans (reserves t) (any_reserves ts) f r.1 r'.1 first.adds rest.adds;
  within = rest.within ∙ ap (bounds ts) first.within;
  machine = rest.machine ∙ first.machine;
}

type_of-end :
    (t : Tag) (m : Memory) (tag : ℕ) → BodyAt m tag t → (type_of t == tag_type_end) ≡ false
type_of-end (meminfo lower upper) m tag at = refl
type_of-end (mmap step rs) m tag at = refl
type_of-end (ramdisk start end size) m tag at = refl
type_of-end (other type size) m tag at = let end = at.0 in ground (arith, end)

module _ (fuel : ℕ) (m : Memory) (enough : 2 ^ 32 ≤ fuel) where
  read_tag-Reads :
      (t : Tag) (tag : ℕ) (g : Found) (f : Frames)
      → f.machine.memory ≡ m
      → IsBytes f
      → word32 m tag ≡ type_of t
      → word32 m (tag + 4) ≡ size_of t
      → tag + size_of t + 24 < 2 ^ 32
      → BodyAt m tag t
      → Ends
          (read_tag fuel tag g f)
          (Reads (learn t g) (reserves t) (bound t (f.lower_bound, f.upper_bound)) f)
  read_tag-Reads (meminfo lower upper) tag g f same bytes type size top at =
      rw (read_tag-round fuel tag g f m same, type, at.0, at.1)
        (Ends-bind (mem_init_regions-marks (u32 (lower * 1024)) (u32 (upper * 1024)) f bytes)
          (λ f' (bytes', marks, machine, low, high). (
            (record g { got_meminfo = true }, f'),
            refl,
            record {
              found = refl;
              adds = record { bytes = bytes'; marks = λ q l. marks q };
              within = ap₂ (λ x y. (x, y)) low high;
              machine = machine;
            },
          )))
  read_tag-Reads (mmap step rs) tag g f same bytes type size top (kept, wide, at) =
      let end : u32 (tag + word32 m (tag + 4)) ≡ tag + 16 + length rs * step =
        ground (arith, size) in
      let few : length rs < fuel = grind arith in
      rw (read_tag-round fuel tag g f m same, type)
        (Ends-bind
          (entries_loop-takes fuel m enough rs fuel tag (tag + 16) step
            (tag + 16 + length rs * step) f same bytes kept wide end refl (omega arith) at few)
          (λ f' (adds, same'). (
            (record g { got_mmap = true }, f'),
            refl,
            record {
              found = refl;
              adds = adds;
              within = ap₂ (λ x y. (x, y)) same'.lower_bound same'.upper_bound;
              machine = same'.machine;
            },
          )))
  read_tag-Reads (ramdisk start end size) tag g f same bytes type size' top at =
      rw (read_tag-round fuel tag g f m same, type, at.0, at.1)
        (
          (record g { got_rd = true; rd_start = start; rd_end = end }, f),
          refl,
          record {
            found = refl;
            adds = record { bytes = bytes; marks = λ q l. refl };
            within = refl;
            machine = refl;
          },
        )
  read_tag-Reads (other type size) tag g f same bytes kind size' top (end, info, map, module_) =
      let a : (type == tag_type_basic_meminfo) ≡ false = ground (arith, info) in
      let b : (type == tag_type_mmap) ≡ false = ground (arith, map) in
      let c : (type == tag_type_module) ≡ false = ground (arith, module_) in
      rw (read_tag-round fuel tag g f m same, kind, a, b, c)
        (
          (g, f),
          refl,
          record {
            found = refl;
            adds = record { bytes = bytes; marks = λ q l. refl };
            within = refl;
            machine = refl;
          },
        )

  -- The loop over the boot information against the list of tags that lies in memory: with more
  -- rounds than tags, and 2^32 rounds for the regions of a memory map, it runs to its end. It
  -- remembers what the tags say, the last of a kind; of the frames below 0x7fff8000, where the
  -- bitmap ends, those are used that were used and those that a tag reserves; the bounds are those
  -- of the last tag on the memory's size; the rest of the machine is as before. The bitmap is made
  -- of bytes, before and after, and each unavailable region lies below 0x7fff8000 or starts at 4
  -- GiB or above, where it is ignored.
  pub tags_loop-Reads :
      (ts : List Tag) (k tag : ℕ) (g : Found) (f : Frames)
      → f.machine.memory ≡ m
      → IsBytes f
      → TagsAt m tag ts
      → length ts < k
      → Ends
          (tags_loop k fuel tag g f)
          (Reads (learn_all ts g) (any_reserves ts) (bounds ts (f.lower_bound, f.upper_bound)) f)
  tags_loop-Reads ts zero tag g f same bytes at less = absurd (omega arith)
  tags_loop-Reads [] (suc k) tag g f same bytes at less =
      rw (tags_loop-round k fuel tag g f m same, at)
        (
          (g, f),
          refl,
          record {
            found = refl;
            adds = record { bytes = bytes; marks = λ q l. refl };
            within = refl;
            machine = refl;
          },
        )
  tags_loop-Reads (t ∷ ts) (suc k) tag g f same bytes (type, size, top, at, more) less =
      let going : (type_of t == tag_type_end) ≡ false = type_of-end t m tag at in
      let next : u32 (tag + padded (size_of t)) ≡ tag + padded (size_of t) = ground arith in
      rw (tags_loop-round k fuel tag g f m same, type, going, size, next)
        (Ends-bind (read_tag-Reads t tag g f same bytes type size top at) (λ r first.
          let (r', e, rest) =
            tags_loop-Reads ts k (tag + padded (size_of t)) r.0 r.1
              (ap (λ w. w.memory) first.machine ∙ same) first.adds.bytes more (omega arith) in
          (r', e, Reads-then t ts g f r r' first rest)))
