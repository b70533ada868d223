-- ===== src/Kernel/Boot/Info.antt =====
-- The boot information that `hlinit` (kernel/arch/i686/boot/boot1.c) is handed: tags in memory, in
-- the layout of the vendored kernel/include/vendor/grub/multiboot2.h, whose constants and offsets
-- stand here. `none` is that a frame lies outside the bitmap, or that the fuel of a loop ran out.
use oldasternix.Prelude.{
  ◌>>=◌, ℕ, zero, suc, ◌+◌, ◌-◌, ◌*◌, ◌%◌, ◌^◌, Bool, true, false, Option, none, some, ◌==◌, ltb,
  if◌then◌else◌,
}
use oldasternix.Prelude.Word.{u32}
use oldasternix.Kernel.Frames.{Frames, mem_init_regions, mem_set_used}
use oldasternix.Libc.Memory.{Memory}

abbrev pub tag_type_end : ℕ
tag_type_end = 0

abbrev pub tag_type_module : ℕ
tag_type_module = 3

abbrev pub tag_type_basic_meminfo : ℕ
tag_type_basic_meminfo = 4

abbrev pub tag_type_mmap : ℕ
tag_type_mmap = 6

abbrev pub memory_available : ℕ
memory_available = 1

-- Words as the processor reads them from memory.
unfoldable pub word32 : Memory → ℕ → ℕ
word32 m a = m a + 2 ^ 8 * m (a + 1) + 2 ^ 16 * m (a + 2) + 2 ^ 24 * m (a + 3)

unfoldable pub word64 : Memory → ℕ → ℕ
unfolding word32
word64 m a = word32 m a + 2 ^ 32 * word32 m (a + 4)

-- What `hlinit` remembers of the tags.
pub record Found : Type 0 where
  pub got_rd : Bool
  pub got_meminfo : Bool
  pub got_mmap : Bool
  pub rd_start : ℕ
  pub rd_end : ℕ

abbrev pub nothing_found : Found
nothing_found = record {
  got_rd = false;
  got_meminfo = false;
  got_mmap = false;
  rd_start = 0;
  rd_end = 0;
}

-- The loop over the entries of the memory map at `tag`, from the entry `mmap` on.
unfoldable pub entries_loop : ℕ → ℕ → ℕ → ℕ → Frames → Option Frames
entries_loop zero fuel tag mmap f = none
entries_loop (suc k) fuel tag mmap f =
    let m = f.machine.memory in
    if ltb mmap (u32 (tag + word32 m (tag + 4)))
    then (do
      f ←
          if word32 m (mmap + 16) == memory_available
          then some f
          else mem_set_used fuel (word64 m mmap) (word64 m (mmap + 8)) f
      entries_loop k fuel tag (u32 (mmap + word32 m (tag + 8))) f)
    else some f

-- The `switch` over the type of a tag.
unfoldable pub read_tag : ℕ → ℕ → Found → Frames → Option (Found × Frames)
unfolding entries_loop
read_tag fuel tag g f =
    let m = f.machine.memory in
    let type = word32 m tag in
    if type == tag_type_basic_meminfo
    then (do
      f ← mem_init_regions (u32 (word32 m (tag + 8) * 1024)) (u32 (word32 m (tag + 12) * 1024)) f
      some (record g { got_meminfo = true }, f))
    else if type == tag_type_mmap
    then (do f ← entries_loop fuel fuel tag (tag + 16) f; some (record g { got_mmap = true }, f))
    else if type == tag_type_module
    then some
        (record g { got_rd = true; rd_start = word32 m (tag + 8); rd_end = word32 m (tag + 12) }, f)
    else some (g, f)

-- A size, rounded up to the next multiple of 8.
abbrev pub padded : ℕ → ℕ
padded size = u32 (size + 7) - u32 (size + 7) % 8

unfoldable pub tags_loop : ℕ → ℕ → ℕ → Found → Frames → Option (Found × Frames)
unfolding read_tag
tags_loop zero fuel tag g f = none
tags_loop (suc k) fuel tag g f =
    let m = f.machine.memory in
    if word32 m tag == tag_type_end then some (g, f) else (do
      (g, f) ← read_tag fuel tag g f
      tags_loop k fuel (u32 (tag + padded (word32 m (tag + 4)))) g f)
