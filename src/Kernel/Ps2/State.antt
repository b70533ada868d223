-- ===== src/Kernel/Ps2/State.antt =====
-- The static variables of kernel/arch/i686/drivers/ps2_kb.c, with what else the driver changes.
use oldasternix.Prelude.{ℕ, Bool}
use oldasternix.Kernel.Interrupts.{Interrupts}
use oldasternix.Kernel.Machine.{Machine}

pub record Ps2 : Type 0 where
  pub machine : Machine
  pub interrupts : Interrupts
  pub scancode_set : ℕ
  pub release_next : Bool
  pub ignore_next : ℕ
  pub scancode_plane : ℕ
