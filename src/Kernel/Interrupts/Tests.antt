-- ===== src/Kernel/Interrupts/Tests.antt =====
-- The theorems on interrupts at concrete values.
use oldasternix.Prelude.{ℕ, ◌≡◌, true, false, none, some, List, [], ◌∷◌, arith, Ends}
use oldasternix.Prelude.Text.{bytes_of}
use oldasternix.Kernel.Interrupts.{
  Interrupts, base_entry, trap_gate, setup_interrupts, pic_set_mask, pic_clear_mask,
}
use oldasternix.Kernel.Interrupts.Masks.{masked, mask_of, irq_port, pic_set_mask-masked}
use oldasternix.Kernel.Interrupts.Table.{gate, handler, setup_interrupts-idt}
use oldasternix.Kernel.Interrupts.Exceptions.{ErrorRegisters, exceptions, element, exception_code}
use oldasternix.Kernel.Interrupts.Exceptions.Dump.{
  titled, labelled, register_dump, general_of_error, exception_code-dump,
}
use oldasternix.Kernel.Machine.{Machine, at_boot as boot_machine}
use oldasternix.Kernel.Ports.{Hardware, wrote, read}
use oldasternix.Libc.Stdio.Pieces.{output_all}
use oldasternix.Libc.Stdio.Show.{Prints}

abbrev all_masked : Hardware
all_masked bus port = 255

abbrev isrs : ℕ → ℕ
isrs i = 0xc0101234

abbrev at_boot : Interrupts
at_boot = record { idt = λ _. base_entry; idtr_size = 0; idtr_base = 0; loaded = none }

setup_interrupts-idt_example :
    let t' = (setup_interrupts 5000 isrs (at_boot, [])).0 in
    (t'.idt 14 ≡ gate trap_gate 0xc0101234)
    × (handler (t'.idt 14) ≡ 0xc0101234)
    × (t'.loaded ≡ some (2047, 5000))
setup_interrupts-idt_example =
    setup_interrupts-idt 5000 14 isrs at_boot [] (omega arith) (omega arith)

pic_set_mask-masked_example :
    let p = irq_port 12 in
    let v = mask_of all_masked 12 [] in
    (new new' : ℕ) × (pic_set_mask all_masked 12 [] ≡ wrote 0x80 0 ∷ wrote p new ∷ read p v ∷ [])
    × (pic_clear_mask all_masked 12 [] ≡ wrote 0x80 0 ∷ wrote p new' ∷ read p v ∷ [])
    × (masked new 4 ≡ true)
    × (masked new' 4 ≡ false)
pic_set_mask-masked_example =
    pic_set_mask-masked all_masked 12 4 [] (omega arith) (omega arith) (omega arith)

-- A page fault.
abbrev fault : ErrorRegisters
fault = record {
  edi = 1;
  esi = 2;
  ebp = 3;
  esp = 4;
  ebx = 5;
  edx = 6;
  ecx = 7;
  eax = 0xdeadbeef;
  error_code = 2;
  eip = 9;
  cs = 8;
  eflags = 0x202;
}

abbrev calm : Machine
calm = boot_machine (λ _. 0) 10_000 20_000

exception_code-dump_example :
    (name : List ℕ) × (element exceptions 14 ≡ some name)
    × Ends (exception_code 1 0 14 fault calm) (
        Prints calm (
          output_all (
            titled name
              (labelled (bytes_of "Error code: ") 2 10 (register_dump (general_of_error fault))))))
exception_code-dump_example =
    exception_code-dump 1 0 14 calm (omega arith) (omega arith) fault
      (
        omega arith,
        (
          omega arith,
          (
            omega arith,
            (
              omega arith,
              (omega arith, (omega arith, (omega arith, (omega arith, (omega arith, tt))))),
            ),
          ),
        ),
      )
      (omega arith)
