-- ===== src/Libc/Heap/Tests.antt =====
-- The theorem on the heap at a concrete chain of blocks.
use oldasternix.Prelude.{List, false, ◌≡◌, refl, true, some, [], ◌∷◌, ◌==◌, if◌then◌else◌, arith}
use oldasternix.Kernel.Frames.{unused}
use oldasternix.Kernel.Machine.{at_boot}
use oldasternix.Libc.Heap.{free, Heap, Header, malloc}
use oldasternix.Libc.Heap.Blocks.{Block, Lies, allocate, extent}
use oldasternix.Libc.Heap.Blocks.Free.{free-released}
use oldasternix.Libc.Heap.Blocks.Malloc.{malloc-allocate}
use oldasternix.Libc.Heap.Search.{IsChain}

-- A used block of 32 bytes, and behind it the last block, free.
abbrev used_block : Header
used_block = record { status = 1; size = 32; prev_header = 0 }

abbrev free_block : Header
free_block = record { status = 2; size = 4032; prev_header = 0xd0000000 }

abbrev two_blocks : Heap
two_blocks = record {
  first_hdr = 0xd0000000;
  headers = λ a. if a == 0xd0000000 then used_block else free_block;
  paging = record {
    frames = unused (at_boot (λ a. 65) 10_000 753_664);
    words = λ g i. 0;
    directory = 8;
  };
}

two_blocks-IsChain : IsChain 0xd0000000 (used_block ∷ free_block ∷ []) two_blocks
two_blocks-IsChain = (omega arith, refl, refl, (omega arith, refl, refl))

abbrev two : List Block
two = record { taken = true; size = 32 } ∷ record { taken = false; size = 4032 } ∷ []

-- The second block becomes one of 112 bytes, which is taken, and a free one of 3904.
malloc-allocate_example :
    (h' : Heap) × (malloc 2 100 two_blocks ≡ some (0xd0000040, h'))
    × (h'.first_hdr ≡ 0xd0000000)
    × Lies 0xd0000000 0
        (record { taken = true; size = 32 }
          ∷ record { taken = true; size = 112 }
          ∷ record { taken = false; size = 3904 }
          ∷ [])
        h'.headers
    × (extent (allocate 112 two) ≡ 4096)
malloc-allocate_example =
    malloc-allocate 2 100 two two_blocks (omega arith) (omega arith) (omega arith) (omega arith)
      refl (refl, (refl, tt))

-- The same heap after that allocation, and one of the rest.
abbrev full_heap : Heap
full_heap = record two_blocks {
  headers = λ a.
      if a == 0xd0000000
      then used_block
      else if a == 0xd0000030
      then record { status = 1; size = 112; prev_header = 0xd0000000 }
      else record { status = 3; size = 3904; prev_header = 0xd0000030 };
}

free-released_example :
    Lies 0xd0000000 0
      (record { taken = true; size = 32 }
        ∷ record { taken = false; size = 112 }
        ∷ record { taken = true; size = 3904 }
        ∷ [])
      (free 0xd0000040 full_heap).headers
free-released_example =
    free-released 0xd0000000 (record { taken = true; size = 32 } ∷ []) []
      (record { taken = true; size = 112 }) (record { taken = true; size = 3904 }) full_heap
      (omega arith) refl refl refl (refl, (refl, (refl, tt)))
