-- ===== src/Kernel/Boot/Maps.antt =====
-- What `hlinit` (kernel/arch/i686/boot/boot1.c) does with the boot information.
use oldasternix.Prelude.{
  ℕ, ◌+◌, ◌≤◌, ◌<◌, ◌^◌, ◌≡◌, refl, Bool, some, List, [], ◌∷◌, ◌++◌, map, length, Ends,
}
use oldasternix.Prelude.Text.{bytes_of}
use oldasternix.Kernel.Boot.{early_init, read_info, yes_or_no}
use oldasternix.Kernel.Boot.Info.{nothing_found}
use oldasternix.Kernel.Boot.Layout.{Tag, TagsAt, learn_all, any_reserves, bounds}
use oldasternix.Kernel.Boot.Parse.{Reads, tags_loop-Reads}
use oldasternix.Kernel.Boot.State.{Given, Kernel}
use oldasternix.Kernel.Frames.Marks.{IsBytes}
use oldasternix.Kernel.Machine.{Machine}
use oldasternix.Kernel.Paging.{Paging}
use oldasternix.Kernel.Ports.{Hardware}
use oldasternix.Libc.Stdio.Pieces.{Piece, literal, string}

-- The parts of the panic's message. Its lines run into one another where the source's literals do.
abbrev pub first_lines : List ℕ
first_lines = bytes_of "Did not get required memory maps from GRUB.\n\tgot meminfo? "

abbrev pub got_mmap_line : List ℕ
got_mmap_line = bytes_of "\n\tgot mmap? "

abbrev pub advice : List ℕ
advice =
    bytes_of
      "\nAre you using legacy (BIOS) boot mode? Legacy BIOS is stillrequired to boot *nix at this point. Sorry for theinconvenience! :(\n"

abbrev pub missing_maps : Bool → Bool → List ℕ
missing_maps got_meminfo got_mmap =
    first_lines ++ yes_or_no got_meminfo ++ got_mmap_line ++ yes_or_no got_mmap ++ advice

abbrev message : List ℕ → List ℕ → List Piece
message a b =
    map literal first_lines
    ++ string a ∷ (map literal got_mmap_line ++ string b ∷ (map literal advice ++ []))

module _ (hw : Hardware) (fuel : ℕ) (given : Given) where
  -- The state before the boot information is read, with the tags in its memory.
  pub record IsHanded (k : Kernel) (ts : List Tag) (p : Paging) : Type 0 where
    pub early : early_init hw fuel given k.paging ≡ some p
    pub bytes : IsBytes p.frames
    pub tags : TagsAt p.frames.machine.memory (given.mbi_phys + 8) ts
    pub few : length ts < fuel

module _ (hw : Hardware) (fuel : ℕ) (given : Given) (enough : 2 ^ 32 ≤ fuel) where
  pub read_info-Reads :
      (k : Kernel) (ts : List Tag) (p : Paging)
      → IsHanded hw fuel given k ts p
      → Ends (read_info hw fuel given p) (λ r.
        Reads
          (learn_all ts nothing_found)
          (any_reserves ts)
          (bounds ts (p.frames.lower_bound, p.frames.upper_bound))
          p.frames
          (r.0, r.1.frames))
  unfolding read_info
  read_info-Reads k ts p h =
      let (r, e, reads) =
        tags_loop-Reads fuel p.frames.machine.memory enough ts fuel (given.mbi_phys + 8)
          nothing_found p.frames refl h.bytes h.tags h.few in
      ((r.0, record p { frames = r.1 }), rw e, reads)
