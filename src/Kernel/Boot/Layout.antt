-- ===== src/Kernel/Boot/Layout.antt =====
-- What the boot information says, as a list of tags: how they lie in memory, and what the kernel is
-- to make of them.
use oldasternix.Prelude.{
  ℕ, ◌+◌, ◌*◌, ◌/◌, ◌^◌, ◌≤◌, ◌<◌, ◌≡◌, ◌≢◌, Bool, true, false, ◌&&◌, ◌||◌, List, [], ◌∷◌, ◌==◌,
  ltb, leb, length, not,
}
use oldasternix.Prelude.Word.{u32}
use oldasternix.Kernel.Boot.Info.{
  Found, word32, word64, padded, tag_type_end, tag_type_module, tag_type_basic_meminfo,
  tag_type_mmap, memory_available,
}
use oldasternix.Kernel.Frames.Marks.{in_region, region_end}
use oldasternix.Kernel.Frames.Regions.{is_tracked}
use oldasternix.Libc.Memory.{Memory}

-- An entry of the memory map.
pub record Region : Type 0 where
  pub addr : ℕ
  pub len : ℕ
  pub type : ℕ

-- The memory of the machine in KiB, the memory map with the size of its entries, the RAM disk with
-- the size of its tag, and any other tag by its type and size.
pub data Tag : Type 0 where
  meminfo : (lower upper : ℕ) → Tag
  mmap : (entry_size : ℕ) (regions : List Region) → Tag
  ramdisk : (start end size : ℕ) → Tag
  other : (type size : ℕ) → Tag

abbrev pub type_of : Tag → ℕ
type_of (meminfo lower upper) = tag_type_basic_meminfo
type_of (mmap entry_size regions) = tag_type_mmap
type_of (ramdisk start end size) = tag_type_module
type_of (other type size) = type

abbrev pub size_of : Tag → ℕ
size_of (meminfo lower upper) = 16
size_of (mmap entry_size regions) = 16 + length regions * entry_size
size_of (ramdisk start end size) = size
size_of (other type size) = size

-- A region that can be told apart in the bitmap: memory is available there, or it lies below
-- 0x7fff8000, or it starts where it is ignored.
abbrev pub is_trackable : Region → Bool
is_trackable r = r.type == memory_available || is_tracked r.addr r.len

-- The entries of a map lie one behind the other, and each can be told apart in the bitmap.
abbrev pub RegionsAt : Memory → ℕ → ℕ → List Region → Type 0
RegionsAt m entry entry_size [] = Unit {0}
RegionsAt m entry entry_size (r ∷ rs) =
    (word64 m entry ≡ r.addr)
    × (word64 m (entry + 8) ≡ r.len)
    × (word32 m (entry + 16) ≡ r.type)
    × (is_trackable r ≡ true)
    × RegionsAt m (entry + entry_size) entry_size rs

abbrev pub BodyAt : Memory → ℕ → Tag → Type 0
BodyAt m tag (meminfo lower upper) = (word32 m (tag + 8) ≡ lower) × (word32 m (tag + 12) ≡ upper)
BodyAt m tag (mmap entry_size regions) =
    (word32 m (tag + 8) ≡ entry_size)
    × (24 ≤ entry_size)
    × RegionsAt m (tag + 16) entry_size regions
BodyAt m tag (ramdisk start end size) = (word32 m (tag + 8) ≡ start) × (word32 m (tag + 12) ≡ end)
BodyAt m tag (other type size) =
    (type ≢ tag_type_end)
    × (type ≢ tag_type_basic_meminfo)
    × (type ≢ tag_type_mmap)
    × (type ≢ tag_type_module)

-- The tags lie one behind the other, each at a multiple of 8 bytes behind the last, up to the tag
-- that ends them, and all below 2^32.
abbrev pub TagsAt : Memory → ℕ → List Tag → Type 0
TagsAt m tag [] = word32 m tag ≡ tag_type_end
TagsAt m tag (t ∷ ts) =
    (word32 m tag ≡ type_of t)
    × (word32 m (tag + 4) ≡ size_of t)
    × (tag + size_of t + 24 < 2 ^ 32)
    × BodyAt m tag t
    × TagsAt m (tag + padded (size_of t)) ts

-- What is remembered of a tag, and of all: the last of a kind counts.
abbrev pub learn : Tag → Found → Found
learn (meminfo lower upper) g = record g { got_meminfo = true }
learn (mmap entry_size regions) g = record g { got_mmap = true }
learn (ramdisk start end size) g = record g { got_rd = true; rd_start = start; rd_end = end }
learn (other type size) g = g

abbrev pub learn_all : List Tag → Found → Found
learn_all [] g = g
learn_all (t ∷ ts) g = learn_all ts (learn t g)

-- The frames that a region of the map takes: none if memory is available there, or if it starts
-- behind 4 GiB.
abbrev pub takes : Region → ℕ → Bool
takes r q =
    not (r.type == memory_available)
    && ltb r.addr (2 ^ 32)
    && in_region r.addr (region_end r.addr r.len) q

abbrev pub any_takes : List Region → ℕ → Bool
any_takes [] q = false
any_takes (r ∷ rs) q = takes r q || any_takes rs q

-- The frames that a tag takes; lower memory ends at the frame of `lower`, and upper memory starts
-- at 1 MiB.
abbrev pub reserves : Tag → ℕ → Bool
reserves (meminfo lower upper) q = leb (u32 (lower * 1024) / 4096) q && ltb q 256
reserves (mmap entry_size regions) q = any_takes regions q
reserves (ramdisk start end size) q = false
reserves (other type size) q = false

abbrev pub any_reserves : List Tag → ℕ → Bool
any_reserves [] q = false
any_reserves (t ∷ ts) q = reserves t q || any_reserves ts q

-- The bounds between which frames are handed out.
abbrev pub bound : Tag → ℕ × ℕ → ℕ × ℕ
bound (meminfo lower upper) b = (0, u32 (0x100000 + u32 (upper * 1024)))
bound (mmap entry_size regions) b = b
bound (ramdisk start end size) b = b
bound (other type size) b = b

abbrev pub bounds : List Tag → ℕ × ℕ → ℕ × ℕ
bounds [] b = b
bounds (t ∷ ts) b = bounds ts (bound t b)
