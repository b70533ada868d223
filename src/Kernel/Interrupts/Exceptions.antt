-- ===== src/Kernel/Interrupts/Exceptions.antt =====
-- The handlers of the processor's exceptions, kernel/arch/i686/interrupts.c, over the registers that
-- interrupts.s pushes (kernel/arch/i686/include/x86/interrupts.h).
pub mod Dump
use oldasternix.Prelude.{◌>>=◌, ℕ, zero, suc, Option, none, some, List, [], ◌∷◌}
use oldasternix.Prelude.Text.{bytes_of}
use oldasternix.Kernel.Machine.{Machine}
use oldasternix.Kernel.Panic.{panic}
use oldasternix.Libc.Stdio.{Arg, text, word}

-- `struct registers`.
pub record Registers : Type 0 where
  pub edi : ℕ
  pub esi : ℕ
  pub ebp : ℕ
  pub esp : ℕ
  pub ebx : ℕ
  pub edx : ℕ
  pub ecx : ℕ
  pub eax : ℕ
  pub eip : ℕ
  pub cs : ℕ
  pub eflags : ℕ

-- `struct error_registers`.
pub record ErrorRegisters : Type 0 where
  pub edi : ℕ
  pub esi : ℕ
  pub ebp : ℕ
  pub esp : ℕ
  pub ebx : ℕ
  pub edx : ℕ
  pub ecx : ℕ
  pub eax : ℕ
  pub error_code : ℕ
  pub eip : ℕ
  pub cs : ℕ
  pub eflags : ℕ

abbrev pub exceptions : List (List ℕ)
exceptions =
    bytes_of "Division Error (#DE)"
    ∷ bytes_of "Debug (#DB)"
    ∷ bytes_of "<Non-Maskable Interrupt>"
    ∷ bytes_of "Breakpoint (#BP)"
    ∷ bytes_of "Overflow (#OF)"
    ∷ bytes_of "Bound Range Exceeded (#BR)"
    ∷ bytes_of "Invalid Opcode (#UD)"
    ∷ bytes_of "Device Not Available (#NM)"
    ∷ bytes_of "Double Fault (#DF)"
    ∷ bytes_of "Coprocessor Segment Overrun"
    ∷ bytes_of "Invalid TSS (#TS)"
    ∷ bytes_of "Segment Not Present (#NP)"
    ∷ bytes_of "Stack-Segment Fault (#SS)"
    ∷ bytes_of "General Protection Fault (#GP)"
    ∷ bytes_of "Page Fault (#PF)"
    ∷ bytes_of "<Reserved>"
    ∷ bytes_of "x87 Floating-Point Exception (#MF)"
    ∷ bytes_of "Alignment Check (#AC)"
    ∷ bytes_of "Machine Check (#MC)"
    ∷ bytes_of "SIMD Floating-Point Exception (#XM)"
    ∷ bytes_of "Virtualization Exception (#VE)"
    ∷ bytes_of "Control Protection Exception (#CP)"
    ∷ bytes_of "<Reserved>"
    ∷ bytes_of "<Reserved>"
    ∷ bytes_of "<Reserved>"
    ∷ bytes_of "<Reserved>"
    ∷ bytes_of "<Reserved>"
    ∷ bytes_of "<Reserved>"
    ∷ bytes_of "Hypervisor Injection Exception (#HV)"
    ∷ bytes_of "VMM Communication Exception (#VC)"
    ∷ bytes_of "Security Exception (#SX)"
    ∷ bytes_of "<Reserved>"
    ∷ []

-- An element of an array; `none` is out of its bounds.
abbrev pub element : List (List ℕ) → ℕ → Option (List ℕ)
element [] i = none
element (s ∷ ss) zero = some s
element (s ∷ ss) (suc i) = element ss i

-- The state in which the processor halts, as for `panic`.
pub exception_code : ℕ → ℕ → ℕ → ErrorRegisters → Machine → Option Machine
exception_code fuel unwind_ptr error regs w = do
  name ← element exceptions error
  panic fuel unwind_ptr
      (bytes_of
        "An exception occured: %s\nError code: %08x\nRegister dump:\n%%eax = %08x\t%%ebx = %08x\n%%ecx = %08x\t%%edx = %08x\n%%ebp = %08x\t%%esp = %08x\n%%esi = %08x\t%%edi = %08x\n%%eflags = %08x\n")
      (text name
        ∷ word (regs.error_code)
        ∷ word (regs.eax)
        ∷ word (regs.ebx)
        ∷ word (regs.ecx)
        ∷ word (regs.edx)
        ∷ word (regs.ebp)
        ∷ word (regs.esp)
        ∷ word (regs.esi)
        ∷ word (regs.edi)
        ∷ word (regs.eflags)
        ∷ [])
      w

pub exception_no_code : ℕ → ℕ → ℕ → Registers → Machine → Option Machine
exception_no_code fuel unwind_ptr error regs w = do
  name ← element exceptions error
  panic fuel unwind_ptr
      (bytes_of
        "An exception occured: %s\nRegister dump:\n%%eax = %08x\t%%ebx = %08x\n%%ecx = %08x\t%%edx = %08x\n%%ebp = %08x\t%%esp = %08x\n%%esi = %08x\t%%edi = %08x\n%%eflags = %08x\n")
      (text name
        ∷ word (regs.eax)
        ∷ word (regs.ebx)
        ∷ word (regs.ecx)
        ∷ word (regs.edx)
        ∷ word (regs.ebp)
        ∷ word (regs.esp)
        ∷ word (regs.esi)
        ∷ word (regs.edi)
        ∷ word (regs.eflags)
        ∷ [])
      w
