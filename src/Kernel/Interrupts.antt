-- ===== src/Kernel/Interrupts.antt =====
-- The interrupt table and the two interrupt controllers, kernel/arch/i686/interrupts.c. What the
-- assembly of interrupts.s provides, the addresses of the table and of the handlers of the
-- exceptions, is an argument.
pub mod Table
pub mod Masks
pub mod Exceptions
mod Tests
use Prim.Native.Nat.{bit_and, bit_or}
use oldasternix.Prelude.{
  ℕ, zero, suc, ◌+◌, ◌-◌, ◌*◌, ◌/◌, ◌^◌, Option, none, some, ◌==◌, ltb, leb, if◌then◌else◌,
}
use oldasternix.Prelude.Word.{u8, u16}
use oldasternix.Kernel.Ports.{Bus, Hardware, outb, inb, io_wait}

abbrev pub ms_cmd : ℕ
ms_cmd = 0x20

abbrev pub ms_data : ℕ
ms_data = 0x21

abbrev pub sl_cmd : ℕ
sl_cmd = 0xa0

abbrev pub sl_data : ℕ
sl_data = 0xa1

abbrev pub pic_init : ℕ
pic_init = 0x10

abbrev pub pic_casc : ℕ
pic_casc = 0x01

abbrev pub pic_8086 : ℕ
pic_8086 = 0x01

abbrev pub pic_end : ℕ
pic_end = 0x20

abbrev pub irq_offset : ℕ
irq_offset = 0x20

-- `enum isr_type`.
abbrev pub interrupt_gate : ℕ
interrupt_gate = 0xe

abbrev pub trap_gate : ℕ
trap_gate = 0xf

-- `struct idt_entry`.
pub record IdtEntry : Type 0 where
  pub offset_low : ℕ
  pub segment : ℕ
  pub res32 : ℕ
  pub type : ℕ
  pub res44 : ℕ
  pub ring : ℕ
  pub present : ℕ
  pub offset_high : ℕ

-- `IDT`, `IDTR`, and what the processor was told of them: the size and the base of the table that
-- it uses, once interrupts are enabled.
pub record Interrupts : Type 0 where
  pub idt : ℕ → IdtEntry
  pub idtr_size : ℕ
  pub idtr_base : ℕ
  pub loaded : Option (ℕ × ℕ)

pub init_pic : Bus → Bus
init_pic bus =
    let bus = outb sl_cmd (bit_or pic_init pic_casc) (outb ms_cmd (bit_or pic_init pic_casc) bus) in
    let bus = io_wait bus in
    let bus = outb sl_data (irq_offset + 8) (outb ms_data irq_offset bus) in
    let bus = io_wait bus in
    let bus = outb sl_data 2 (outb ms_data 4 bus) in
    let bus = io_wait bus in
    let bus = outb sl_data pic_8086 (outb ms_data pic_8086 bus) in
    let bus = io_wait bus in io_wait (outb sl_data 0xff (outb ms_data 0xfb bus))

abbrev pub base_entry : IdtEntry
base_entry = record {
  offset_low = 0;
  segment = 0x08;
  res32 = 0;
  type = interrupt_gate;
  res44 = 0;
  ring = 0;
  present = 0;
  offset_high = 0;
}

-- The loop of `init_table`, with the rounds left: entry `i` and those after it.
pub fill_table : ℕ → ℕ → (ℕ → IdtEntry) → ℕ → IdtEntry
fill_table zero i idt = idt
fill_table (suc k) i idt = fill_table k (i + 1) (λ j. if j == i then base_entry else idt j)

pub init_table : ℕ → Interrupts → Interrupts
unfolding fill_table
init_table base t = record t {
  idt = fill_table 256 0 t.idt;
  idtr_size = 256 * 8 - 1;
  idtr_base = base;
}

pub set_isr : ℕ → ℕ → Interrupts → Interrupts
set_isr int_no stub t = record t {
  idt = λ j.
      if j == int_no
      then record (t.idt j) {
        offset_low = u16 stub;
        offset_high = u16 (stub / 2 ^ 16);
        present = if stub == 0 then 0 else 1;
      }
      else t.idt j;
}

pub set_isr_type : ℕ → ℕ → ℕ → Interrupts → Interrupts
unfolding set_isr
set_isr_type int_no stub type t =
    set_isr int_no stub
      (record t { idt = λ j. if j == int_no then record (t.idt j) { type = type } else t.idt j })

-- The loop of `setup_interrupts`, with the rounds left.
pub set_exceptions : ℕ → ℕ → (ℕ → ℕ) → Interrupts → Interrupts
set_exceptions zero i exc_isrs t = t
set_exceptions (suc k) i exc_isrs t =
    set_exceptions k (i + 1) exc_isrs (set_isr_type i (exc_isrs i) trap_gate t)

-- `load_enable_interrupts` of interrupts.s.
abbrev pub load_enable_interrupts : Interrupts → Interrupts
load_enable_interrupts t = record t { loaded = some (t.idtr_size, t.idtr_base) }

pub setup_interrupts : ℕ → (ℕ → ℕ) → Interrupts × Bus → Interrupts × Bus
unfolding init_table set_exceptions init_pic
setup_interrupts base exc_isrs (t, bus) =
    (load_enable_interrupts (set_exceptions 32 0 exc_isrs (init_table base t)), init_pic bus)

-- The port and the line within its controller, as `pic_set_mask` and `pic_clear_mask` choose them.
abbrev pub mask_port : ℕ → ℕ
mask_port irq = if ltb 8 irq then sl_data else ms_data

abbrev pub mask_line : ℕ → ℕ
mask_line irq = if ltb 8 irq then irq - 8 else irq

pub pic_set_mask : Hardware → ℕ → Bus → Bus
pic_set_mask hw irq bus =
    let (value, bus) = inb hw (mask_port irq) bus in
    io_wait (outb (mask_port irq) (u8 (bit_or value (2 ^ mask_line irq))) bus)

pub pic_clear_mask : Hardware → ℕ → Bus → Bus
pic_clear_mask hw irq bus =
    let (value, bus) = inb hw (mask_port irq) bus in
    io_wait (outb (mask_port irq) (u8 (bit_and value (4294967295 - 2 ^ mask_line irq))) bus)

unfoldable pub pic_eoi : ℕ → Bus → Bus
pic_eoi irq bus =
    let bus = if leb 8 irq then outb sl_cmd pic_end bus else bus in outb ms_cmd pic_end bus
