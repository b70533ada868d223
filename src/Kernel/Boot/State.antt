-- ===== src/Kernel/Boot/State.antt =====
-- The state of the whole kernel during boot, kernel/arch/i686/boot/boot1.c, and what boot0.s, the
-- linker and the loader provide.
use oldasternix.Prelude.{ℕ, Bool, List}
use oldasternix.Kernel.Drivers.{Tables}
use oldasternix.Kernel.Initcalls.{Initcall}
use oldasternix.Kernel.Interrupts.{Interrupts}
use oldasternix.Kernel.Machine.{Machine}
use oldasternix.Kernel.Paging.{Paging}
use oldasternix.Kernel.Ps2.State.{Ps2}
use oldasternix.Kernel.Tmpfs.{Store}
use oldasternix.Kernel.Tmpfs.Calls.{System}
use oldasternix.Kernel.Tmpfs.Chain.{Fresh}

-- An entry of the section of initcalls: one that registers a driver, or `ps2_kb_driversetup`.
pub data BootCall : Type 0 where
  driver : Initcall → BootCall
  keyboard : BootCall

-- What is given from outside: the linker's symbols, the handlers of interrupts.s, the initcalls in
-- link order, the drivers that they register, the boot information, the addresses of the new file system and its inodes, those of
-- the texts, and those of the variables on the stack.
pub record Given : Type 0 where
  pub kernel_start : ℕ
  pub kernel_end : ℕ
  pub virtual_offset : ℕ
  pub idt_base : ℕ
  pub exc_isrs : ℕ → ℕ
  pub key_stub : ℕ
  pub initcalls : List BootCall
  pub driver_at : Initcall → ℕ
  pub mbi_phys : ℕ
  pub fs : ℕ
  pub root : ℕ
  pub tty1 : ℕ
  pub console : ℕ
  pub ram0 : ℕ
  pub fresh : Fresh
  pub hello_com1 : ℕ
  pub hello_device : ℕ
  pub block_buf : ℕ
  pub line_buf : ℕ
  pub unwind_ptr : ℕ

-- The whole state; the machine stands in `paging`. The fields from `scancode_set` on are the
-- variables of the keyboard's driver.
pub record Kernel : Type 0 where
  pub paging : Paging
  pub interrupts : Interrupts
  pub tables : Tables Machine
  pub store : Store
  pub scancode_set : ℕ
  pub release_next : Bool
  pub ignore_next : ℕ
  pub scancode_plane : ℕ

abbrev pub machine_of : Kernel → Machine
machine_of k = k.paging.frames.machine

abbrev pub set_machine : Machine → Paging → Paging
set_machine w p = record p { frames = record (p.frames) { machine = w } }

abbrev pub with_machine : Machine → Kernel → Kernel
with_machine w k = record k { paging = set_machine w k.paging }

-- The state that the keyboard's driver sees, and what it leaves.
abbrev pub ps2_of : Kernel → Ps2
ps2_of k = record {
  machine = machine_of k;
  interrupts = k.interrupts;
  scancode_set = k.scancode_set;
  release_next = k.release_next;
  ignore_next = k.ignore_next;
  scancode_plane = k.scancode_plane;
}

abbrev pub with_ps2 : Ps2 → Kernel → Kernel
with_ps2 y k = record k {
  paging = set_machine y.machine k.paging;
  interrupts = y.interrupts;
  scancode_set = y.scancode_set;
  release_next = y.release_next;
  ignore_next = y.ignore_next;
  scancode_plane = y.scancode_plane;
}

-- The state that the file system sees.
abbrev pub system_of : Kernel → System
system_of k = record { store = k.store; machine = machine_of k }

abbrev pub with_system : System → Kernel → Kernel
with_system y k = record k { paging = set_machine y.machine k.paging; store = y.store }
