-- ===== src/Kernel/Boot/Tests.antt =====
-- The theorems on boot at a concrete machine.
use Prim.Native.Nat.{bit_and}
use oldasternix.Prelude.{
  ◌≢◌, ℕ, ◌-◌, ◌^◌, ◌<◌, ◌≡◌, ◌⊎◌, inl, refl, Bool, true, false, ◌&&◌, none, some, List, [], ◌∷◌,
  ◌++◌, ◌==◌, ltb, if◌then◌else◌, get_or, take, drop, arith, Ends,
}
use oldasternix.Kernel.Boot.{boot_initcalls, tty_init, early_init, read_info, echo}
use oldasternix.Kernel.Boot.Echo.{HasConsole, IsQuiet, echo-types}
use oldasternix.Kernel.Boot.Info.{nothing_found, tags_loop, word32, word64}
use oldasternix.Kernel.Boot.Layout.{
  Tag, meminfo, mmap, ramdisk, other, TagsAt, learn_all, any_reserves, bounds,
}
use oldasternix.Kernel.Boot.Maps.{IsHanded}
use oldasternix.Kernel.Boot.Parse.{Reads, tags_loop-Reads}
use oldasternix.Kernel.Boot.Reserved.{IsUnreserved, alloc_phys-IsUnreserved}
use oldasternix.Kernel.Boot.Started.{boot_initcalls-slots}
use oldasternix.Prelude.Word.{u8}
use oldasternix.Kernel.Ps2.Controller.Replies.{owes}
use oldasternix.Kernel.Ps2.Controller.Waiting.{Prompt, Patient}
use oldasternix.Kernel.Boot.State.{driver, keyboard, Given, Kernel, machine_of}
use oldasternix.Kernel.Frames.{unused, alloc_phys, mem_init, kernel_loop, mark, set_phys_used}
use oldasternix.Kernel.Frames.Choice.{IsRefused}
use oldasternix.Kernel.Machine.{Machine, at_boot}
use oldasternix.Kernel.Paging.{
  Paging, mem_map, find_region, is_virt_region_used, region_loop, map_loop, map_page, set_entry,
  page_directory, page_tables,
}
use oldasternix.Kernel.Ports.{Hardware}
use oldasternix.Kernel.Interrupts.{base_entry}
use oldasternix.Kernel.Drivers.{empty}
use oldasternix.Kernel.Console.Typing.{Screen, Displays, type_text}
use oldasternix.Kernel.Device.{dev}
use oldasternix.Kernel.Initcalls.{tty, initcall_tables, char_slot, block_slot}
use oldasternix.Kernel.Keyboard.Queue.{contents}
use oldasternix.Kernel.Tmpfs.{Inode, device, it_chr}
use oldasternix.Libc.Memory.{Memory, bytes}

abbrev bytes32 : ℕ → List ℕ
bytes32 a = a ∷ 0 ∷ 0 ∷ 0 ∷ []

-- The boot information at 1000: 4 KiB of lower memory and 8 KiB of upper memory, a map with an
-- available and a reserved region, a RAM disk, a tag that means nothing here, and the end.
abbrev info : List ℕ
info =
    bytes32 0
    ++ bytes32 0
    ++ bytes32 4
    ++ bytes32 16
    ++ bytes32 4
    ++ bytes32 8
    ++ bytes32 6
    ++ bytes32 64
    ++ bytes32 24
    ++ bytes32 0
    ++ bytes32 0
    ++ bytes32 0
    ++ bytes32 200
    ++ bytes32 0
    ++ bytes32 1
    ++ bytes32 0
    ++ bytes32 200
    ++ bytes32 0
    ++ bytes32 9
    ++ bytes32 0
    ++ bytes32 2
    ++ bytes32 0
    ++ bytes32 3
    ++ bytes32 16
    ++ bytes32 50
    ++ bytes32 60
    ++ bytes32 9
    ++ bytes32 8
    ++ bytes32 0
    ++ bytes32 8

abbrev memory : Memory
memory a = if ltb a 1000 then 0 else get_or info (a - 1000) 0

abbrev tags : List Tag
tags =
    meminfo 4 8
    ∷ mmap 24
        (record { addr = 0; len = 200; type = 1 } ∷ record { addr = 200; len = 9; type = 2 } ∷ [])
    ∷ ramdisk 50 60 16
    ∷ other 9 8
    ∷ []

memory-TagsAt : TagsAt memory 1008 tags
unfolding word64 word32
memory-TagsAt = (
  refl,
  refl,
  omega arith,
  (refl, refl),
  (
    refl,
    refl,
    omega arith,
    (refl, omega arith, (refl, refl, refl, refl, (refl, refl, refl, refl, tt))),
    (
      refl,
      refl,
      omega arith,
      (refl, refl),
      (refl, refl, omega arith, (ground arith, ground arith, ground arith, ground arith), refl),
    ),
  ),
)

abbrev machine : Machine
machine = at_boot memory 10_000 20_000

tags_loop-Reads_example : Ends (tags_loop 5 (2 ^ 32) 1008 nothing_found (unused machine)) (
    Reads
      (learn_all tags nothing_found)
      (any_reserves tags)
      (bounds tags (0x100000, 0xf00000))
      (unused machine))
tags_loop-Reads_example =
    tags_loop-Reads (2 ^ 32) memory (omega arith) tags 5 1008 nothing_found (unused machine) refl
      (λ i. omega arith) memory-TagsAt (omega arith)

abbrev quiet : Hardware
quiet bus port = 0

-- The kernel in one frame, the boot information at 1000, the input line of the console at 100.
abbrev given : Given
given = record {
  kernel_start = 0xc0100000;
  kernel_end = 0xc0101000;
  virtual_offset = 0xc0000000;
  idt_base = 0;
  exc_isrs = λ _. 0;
  key_stub = 0;
  initcalls = [];
  driver_at = λ _. 0;
  mbi_phys = 1000;
  fs = 1;
  root = 2;
  tty1 = 3;
  console = 4;
  ram0 = 5;
  fresh = record { bytes = λ _. 0; stray = false };
  hello_com1 = 0;
  hello_device = 0;
  block_buf = 0;
  line_buf = 100;
  unwind_ptr = 0;
}

-- The page directory in frame 8, with a table for the devices.
abbrev paging : Machine → Paging
paging w = record {
  frames = unused w;
  words = λ g i. if g == 8 && (i == 960) then 0x9003 else 0;
  directory = 8;
}

abbrev kernel : Machine → Kernel
kernel w = record {
  paging = paging w;
  interrupts = record { idt = λ _. base_entry; idtr_size = 0; idtr_base = 0; loaded = none };
  tables = empty Machine;
  store = λ _. none;
  scancode_set = 0;
  release_next = false;
  ignore_next = 0;
  scancode_plane = 0;
}

-- What the calls before the boot information leave behind, if they end.
abbrev after_early : Machine → Paging
after_early w = elim (early_init quiet (2 ^ 32) given (paging w)) [ none ↦ paging w | some p ↦ p ]

abbrev blank : Machine
blank = at_boot (λ _. 0) 10_000 20_000

blank-early : early_init quiet (2 ^ 32) given (paging blank) ≡ some (after_early blank)
unfolding early_init tty_init mem_init kernel_loop set_phys_used mark mem_map find_region
    is_virt_region_used region_loop map_loop map_page set_entry page_directory page_tables
blank-early = refl

machine-IsHanded : IsHanded quiet (2 ^ 32) given (kernel machine) tags (after_early machine)
unfolding early_init tty_init mem_init kernel_loop set_phys_used mark mem_map find_region
    is_virt_region_used region_loop map_loop map_page set_entry page_directory page_tables
machine-IsHanded = record {
  early = refl;
  bytes = λ i. ground arith;
  tags = memory-TagsAt;
  few = omega arith;
}

first_column : 0 < 2000
first_column = omega arith

machine-on_screen : (after_early machine).frames.machine.cursor < 2000
unfolding early_init tty_init mem_init kernel_loop set_phys_used mark mem_map find_region
    is_virt_region_used region_loop map_loop map_page set_entry page_directory page_tables
machine-on_screen = first_column

alloc_phys-IsUnreserved_example : Ends (read_info quiet (2 ^ 32) given (after_early machine)) (λ r.
    Ends (alloc_phys (2 ^ 32) r.1.frames) (λ a.
      IsRefused r.1.frames a
      ⊎ ((a.0 < 0x102000) × IsUnreserved tags (after_early machine).frames a.0)))
alloc_phys-IsUnreserved_example =
    alloc_phys-IsUnreserved quiet (2 ^ 32) given (omega arith) (kernel machine) tags
      (after_early machine) machine-IsHanded refl (omega arith) (omega arith) machine-on_screen

-- Three characters wait at the keyboard.
abbrev typing : Machine
typing =
    record (at_boot (λ a. if a == 10_000 then 97 else if a == 10_001 then 98 else 10) 10_000
      20_000) { queue_idx = 3 }

abbrev console_inode : Inode
console_inode = record {
  nlink = 1;
  mode = it_chr;
  uid = 0;
  gid = 0;
  fs_on = 1;
  dev_type = dev 2 0;
  body = device;
}

abbrev running_kernel : Kernel
running_kernel = record (kernel typing) {
  tables = initcall_tables quiet (tty ∷ []) (empty Machine);
  store = λ q. if q == 4 then some console_inode else none;
}

running-HasConsole : HasConsole quiet (tty ∷ []) 4 running_kernel
running-HasConsole = record {
  inode = console_inode;
  tables = refl;
  registered = refl;
  holds = refl;
  kind = refl;
  number = refl;
}

running-IsQuiet : IsQuiet given typing
running-IsQuiet = record {
  fits = omega arith;
  apart = record {
    queue_buf = inl (omega arith);
    vga_buf = inl (omega arith);
    vga_queue = inl (omega arith);
  };
}

abbrev newlines : Screen
newlines = record { at = λ _. 2570; cursor = 0 }

echo-types_example : Ends (echo quiet 5 given 2 4 running_kernel) (λ k'.
    (contents (machine_of k') ≡ drop 20 (contents typing))
    × Displays (machine_of k') (type_text (take 20 (contents typing)) newlines))
unfolding bytes
echo-types_example =
    echo-types quiet 5 given (tty ∷ []) 4 2 running_kernel newlines running-HasConsole
      running-IsQuiet (omega arith, (omega arith, (omega arith, tt)))
      (record { cells = λ i l. ground arith; place = refl; inside = omega arith })

-- A keyboard controller that has a byte to give when one is owed, and passes every test.
abbrev answering : Hardware
answering bus port = if port == 0x64 then (if owes bus then 1 else 0) else 0x55

answering-Prompt : Prompt answering 3
answering-Prompt bus = (
  (0, omega arith, ((λ i l. absurd (omega arith)), idle_or_owed (owes bus))),
  λ owed. (0, omega arith, ((λ i l. absurd (omega arith)), rw owed refl)),
)
  where
    idle_or_owed : (b : Bool) → (bit_and (u8 (if b then 1 else 0)) 2 == 0) ≡ true
    idle_or_owed true = refl
    idle_or_owed false = refl

answering-Patient : Patient answering 1
answering-Patient bus e = absurd (ground (arith, e))

boot_initcalls-slots_example :
    Ends
      (boot_initcalls answering 3 given (keyboard ∷ driver tty ∷ driver tty ∷ []) (kernel blank))
      (λ k'.
        ((i : ℕ)
          → (k'.tables.char_drivers i ≡ char_slot answering (tty ∷ tty ∷ []) i)
            × (k'.tables.block_drivers i ≡ block_slot answering (tty ∷ tty ∷ []) i))
        × (k'.store ≡ (kernel blank).store)
        × ((machine_of k').cursor < 2000)
        × ((i : ℕ) → i ≢ 0x21 → k'.interrupts.idt i ≡ base_entry))
boot_initcalls-slots_example =
    boot_initcalls-slots answering 3 given 1 answering-Prompt answering-Patient (omega arith)
      (keyboard ∷ driver tty ∷ driver tty ∷ []) (kernel blank) refl (omega arith)
