-- ===== src/Kernel/Boot.antt =====
-- The boot of the kernel, kernel/arch/i686/boot/boot1.c. What boot0.s, the linker and the loader
-- provide, and the addresses that `malloc` hands out, stand in a record. `none` is that the fuel ran
-- out, or a fault.
pub mod State
pub mod Info
pub mod Layout
pub mod Regions
pub mod Parse
pub mod Echo
pub mod Maps
pub mod Reserved
pub mod Started
mod Tests
use oldasternix.Prelude.{
  ◌>>=◌, ℕ, zero, suc, ◌+◌, ◌-◌, ◌^◌, Bool, true, false, not, ◌||◌, Option, none, some, List, [],
  ◌∷◌, ◌++◌, if◌then◌else◌,
}
use oldasternix.Prelude.Int.{ℤ, pos, negsuc}
use oldasternix.Prelude.Text.{bytes_of}
use oldasternix.Prelude.Word.{u32}
use oldasternix.Kernel.Boot.Info.{Found, nothing_found, tags_loop}
use oldasternix.Kernel.Boot.State.{
  BootCall, driver, keyboard, Given, Kernel, machine_of, set_machine, with_machine, ps2_of,
  with_ps2, system_of, with_system,
}
use oldasternix.Kernel.Device.{dev, major, minor}
use oldasternix.Kernel.Drivers.{Tables}
use oldasternix.Kernel.Frames.{Frames, page_size, mem_init}
use oldasternix.Kernel.Initcalls.{Initcall, register, major_of, is_block}
use oldasternix.Kernel.Interrupts.{Interrupts, setup_interrupts}
use oldasternix.Kernel.Machine.{Machine}
use oldasternix.Kernel.Paging.{Paging, default_page_flags, mem_map, mem_map_range}
use oldasternix.Kernel.Panic.{panic}
use oldasternix.Kernel.Ports.{Hardware}
use oldasternix.Kernel.Ps2.{ps2_kb_driversetup}
use oldasternix.Kernel.Ps2.State.{Ps2}
use oldasternix.Kernel.Ramdisk.{add_ramdisk}
use oldasternix.Kernel.Tmpfs.{
  Dentry, Inode, Store, put, with_inode, tmpfs_create, tmpfs_lookup, tmpfs_mount, it_chr, it_blk,
}
use oldasternix.Kernel.Tmpfs.Calls.{System, tmpfs_read, tmpfs_write}
use oldasternix.Kernel.Tmpfs.Chain.{Fresh}
use oldasternix.Libc.Block.{within}
use oldasternix.Libc.Memory.{bytes, poke}
use oldasternix.Libc.Stdio.{Arg, text, word, say}
use oldasternix.Libc.Strings.{strlen}

abbrev pub k_mem_start : ℕ
k_mem_start = 0xc0000000

abbrev pub k_mem_dev_start : ℕ
k_mem_dev_start = 0xf0000000

-- `none` of `hlinit` apart, it runs on in its last loop, or a panic has halted it.
pub data Outcome : Type 0 where
  running : Kernel → Outcome
  halted : Machine → Outcome

-- kernel/arch/i686/drivers/tty.c.
pub tty_init : ℕ → Paging → Option Paging
tty_init fuel p = do
  (vga, p) ← mem_map fuel k_mem_dev_start 1 0xb8000 default_page_flags p
  some (set_machine (record (p.frames.machine) { vga_buffer = vga }) p)

-- An `int` that is passed on as a `size_t`.
abbrev pub as_size : ℤ → ℕ
as_size (pos n) = n
as_size (negsuc n) = 2 ^ 32 - 1 - n

abbrev pub yes_or_no : Bool → List ℕ
yes_or_no b = if b then bytes_of "yes" else bytes_of "no"

-- What `register_char_driver` and `register_block_driver` print of a number that is taken. The
-- majors of the three drivers differ, so that only the driver itself can hold its number.
pub number_taken : Given → Initcall → Machine → Option Machine
number_taken given c w =
    let kind = if is_block c then bytes_of " block\n" else bytes_of " char\n" in
    say
      (bytes_of "err: device number taken: %d"
        ++ kind
        ++ bytes_of "\tdriver 1: %p\n\tdriver 2: %p\n")
      (word (major_of c) ∷ word (u32 (given.driver_at c)) ∷ word (u32 (given.driver_at c)) ∷ []) w

module _ (hw : Hardware) (fuel : ℕ) (given : Given) where
  -- The calls before the boot information is read.
  pub early_init : Paging → Option Paging
  unfolding tty_init
  early_init p = do
    frames ← mem_init fuel given.kernel_start given.kernel_end given.virtual_offset p.frames
    tty_init fuel (record p { frames = frames })

  pub read_info : Paging → Option (Found × Paging)
  read_info p = do
    (g, frames) ← tags_loop fuel fuel (given.mbi_phys + 8) nothing_found p.frames
    some (g, record p { frames = frames })

  -- The panic when the memory maps are missing.
  pub refuse_boot : Found → Machine → Option Machine
  refuse_boot g w =
      panic fuel given.unwind_ptr
        (bytes_of
          "Did not get required memory maps from GRUB.\n\tgot meminfo? %s\n\tgot mmap? %s\nAre you using legacy (BIOS) boot mode? Legacy BIOS is stillrequired to boot *nix at this point. Sorry for theinconvenience! :(\n")
        (text (yes_or_no g.got_meminfo) ∷ text (yes_or_no g.got_mmap) ∷ []) w

  pub map_ramdisk : Found → Paging → Option Paging
  map_ramdisk g p = if not g.got_rd then some p else (do
    (ramdisk, p) ← mem_map_range fuel k_mem_start g.rd_start g.rd_end default_page_flags p
    let (rd, w) =
        add_ramdisk page_size ramdisk (u32 (g.rd_end + 2 ^ 32 - g.rd_start)) p.frames.machine
    w ←
        say (bytes_of "info: added RAM disk as dev %d:%d\n")
          (word (major rd) ∷ word (minor rd) ∷ []) w
    some (set_machine w p))

  pub enable_interrupts : Kernel → Kernel
  enable_interrupts k =
      let w = machine_of k in
      let (t, bus) = setup_interrupts given.idt_base given.exc_isrs (k.interrupts, w.bus) in
      with_machine (record w { bus = bus }) (record k { interrupts = t })

  pub run_initcall : BootCall → Kernel → Option Kernel
  unfolding number_taken
  run_initcall (driver c) k = do
    let (tables, taken) = register hw c k.tables
    w ← if taken then number_taken given c (machine_of k) else some (machine_of k)
    some (with_machine w (record k { tables = tables }))
  run_initcall keyboard k = do
    y ← ps2_kb_driversetup fuel hw given.key_stub (ps2_of k)
    some (with_ps2 y k)

  pub boot_initcalls : List BootCall → Kernel → Option Kernel
  unfolding run_initcall
  boot_initcalls [] k = some k
  boot_initcalls (c ∷ cs) k = do k ← run_initcall c k; boot_initcalls cs k

  -- A device file in the root directory: its inode, with the device number set.
  pub make_device : ℕ → List ℕ → ℕ → ℕ → Store → Option (ℕ × Store)
  make_device p name mode number s = do
    (_, s) ← tmpfs_create p given.root name mode s
    found ← tmpfs_lookup given.root name s
    elim found [
      | none ↦ none
      | some de ↦
          with_inode (s de.ino) (λ i. some (de.ino, put de.ino (record i { dev_type = number }) s))
    ]

  -- What boot shows before its last loop; the result is the console's inode.
  pub demonstrate : Kernel → Option (ℕ × Kernel)
  unfolding make_device
  demonstrate k = do
    w ← say (bytes_of "Hello, world!\n") [] (machine_of k)
    let s = tmpfs_mount given.root given.fs 0 k.store
    (tty1, s) ← make_device given.tty1 (bytes_of "tty1") it_chr (dev 2 1) s
    (_, y) ←
        tmpfs_write k.tables given.fresh tty1 0 given.hello_com1 19
          (record { store = s; machine = w })
    (console, s) ← make_device given.console (bytes_of "console") it_chr (dev 2 0) y.store
    (_, y) ←
        tmpfs_write k.tables given.fresh console 0 given.hello_device 27 (record y { store = s })
    (ram0, s) ← make_device given.ram0 (bytes_of "ram0") it_blk (dev 1 0) y.store
    (_, y) ← tmpfs_read k.tables ram0 0 given.block_buf 4096 (record y { store = s })
    let m = poke y.machine.memory (given.block_buf + 4096) 0
    n ← strlen fuel m given.block_buf
    w ←
        say (bytes_of "%s\n") (text (bytes m given.block_buf n) ∷ [])
          (record (y.machine) { memory = m })
    some (console, with_system (record y { machine = w }) k)

  -- A round of the last loop: what was typed on the console is written to it.
  pub echo_round : ℕ → Kernel → Option Kernel
  echo_round console k = do
    (n, y) ← tmpfs_read k.tables console 0 given.line_buf 10 (system_of k)
    (_, y) ← tmpfs_write k.tables given.fresh console 0 given.line_buf (as_size n) y
    some (with_system y k)

  pub echo : ℕ → ℕ → Kernel → Option Kernel
  unfolding echo_round
  echo zero console k = some k
  echo (suc rounds) console k = do k ← echo_round console k; echo rounds console k

  -- `hlinit`, up to a number of rounds of its last loop.
  pub hlinit : ℕ → Kernel → Option Outcome
  unfolding early_init read_info refuse_boot map_ramdisk enable_interrupts boot_initcalls
      demonstrate echo
  hlinit rounds k = do
    p ← early_init k.paging
    (g, p) ← read_info p
    if not g.got_meminfo || not g.got_mmap
        then (do w ← refuse_boot g p.frames.machine; some (halted w))
        else (do
          p ← map_ramdisk g p
          k ← boot_initcalls given.initcalls (enable_interrupts (record k { paging = p }))
          (console, k) ← demonstrate k
          k ← echo rounds console k
          some (running k))
