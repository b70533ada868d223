-- ===== src/Kernel/Interrupts/Table.antt =====
-- The interrupt table that `setup_interrupts` leaves.
use oldasternix.Prelude.{
  ◌≢◌, false, ℕ, zero, suc, ◌+◌, ◌*◌, ◌/◌, ◌^◌, ◌≤◌, ◌<◌, ◌≡◌, ◌∙◌, refl, some, ◌==◌, ltb, leb,
  true, ◌&&◌, if◌then◌else◌, arith,
}
use oldasternix.Prelude.Word.{u16}
use oldasternix.Kernel.Interrupts.{
  IdtEntry, Interrupts, base_entry, fill_table, init_table, set_isr, set_isr_type, set_exceptions,
  setup_interrupts, trap_gate,
}
use oldasternix.Kernel.Ports.{Bus}

-- The entry of a handler at `stub`: not present for a null pointer.
abbrev pub gate : ℕ → ℕ → IdtEntry
gate type stub = record base_entry {
  type = type;
  offset_low = u16 stub;
  offset_high = u16 (stub / 2 ^ 16);
  present = if stub == 0 then 0 else 1;
}

-- Where the processor jumps to.
abbrev pub handler : IdtEntry → ℕ
handler e = e.offset_low + e.offset_high * 2 ^ 16

fill_table_lem :
    (k i j : ℕ) (idt : ℕ → IdtEntry)
    → fill_table k i idt j ≡ (if leb i j && ltb j (i + k) then base_entry else idt j)
unfolding fill_table
fill_table_lem zero i j idt = ground arith
fill_table_lem (suc k) i j idt =
    ground (arith, fill_table_lem k (i + 1) j (λ x. if x == i then base_entry else idt x))

set_exceptions_lem :
    (k i j : ℕ) (isrs : ℕ → ℕ) (t : Interrupts)
    → ((x : ℕ) → i ≤ x → x < i + k → t.idt x ≡ base_entry)
    → (set_exceptions k i isrs t).idt j
      ≡ (if leb i j && ltb j (i + k) then gate trap_gate (isrs j) else t.idt j)
unfolding set_exceptions set_isr_type set_isr
set_exceptions_lem zero i j isrs t h = ground arith
set_exceptions_lem (suc k) i j isrs t h = ground (
  arith,
  set_exceptions_lem k (i + 1) j isrs (set_isr_type i (isrs i) trap_gate t)
      (λ x a b. ground (arith, h x)),
  h j,
)

set_exceptions-idtr :
    (k i : ℕ) (isrs : ℕ → ℕ) (t : Interrupts)
    → ((set_exceptions k i isrs t).idtr_size ≡ t.idtr_size)
      × ((set_exceptions k i isrs t).idtr_base ≡ t.idtr_base)
unfolding set_exceptions set_isr_type set_isr
set_exceptions-idtr zero i isrs t = (refl, refl)
set_exceptions-idtr (suc k) i isrs t =
    set_exceptions-idtr k (i + 1) isrs (set_isr_type i (isrs i) trap_gate t)

init_table-idt : (base x : ℕ) (t : Interrupts) → x < 256 → (init_table base t).idt x ≡ base_entry
unfolding init_table
init_table-idt base x t h =
    let inside : (leb 0 x && ltb x (0 + 256)) ≡ true = ground arith in
    fill_table_lem 256 0 x t.idt ∙ rw inside

init_table-idtr :
    (base : ℕ) (t : Interrupts)
    → ((init_table base t).idtr_size ≡ 2047) × ((init_table base t).idtr_base ≡ base)
unfolding init_table
init_table-idtr base t = (refl, refl)

-- After `setup_interrupts` each of the first 32 entries of the table is a trap gate in the kernel's
-- code segment that leads to its exception handler (not present for a null pointer), the other
-- entries up to 255 are not present, and the processor was given the table with its size less one.
-- Handlers are 32-bit addresses.
pub setup_interrupts-idt :
    (base j : ℕ) (isrs : ℕ → ℕ) (t : Interrupts) (bus : Bus)
    → j < 256
    → isrs j < 2 ^ 32
    → let t' = (setup_interrupts base isrs (t, bus)).0 in
      (t'.idt j ≡ (if ltb j 32 then gate trap_gate (isrs j) else base_entry))
      × (handler (t'.idt j) ≡ (if ltb j 32 then isrs j else 0))
      × (t'.loaded ≡ some (2047, base))
unfolding setup_interrupts
setup_interrupts-idt base j isrs t bus h small =
    let start = init_table base t in
    let table : (set_exceptions 32 0 isrs start).idt j
        ≡ (if ltb j 32 then gate trap_gate (isrs j) else base_entry) =
      set_exceptions_lem 32 0 j isrs start (λ x a b. init_table-idt base x t (omega arith))
      ∙ ground (arith, init_table-idt base j t h) in
    let idtr = set_exceptions-idtr 32 0 isrs start in
    (table, ground (arith, table), ground (arith, idtr, init_table-idtr base t))

-- Setting a handler leaves every other entry as it is.
pub set_isr-other :
    (int_no stub i : ℕ) (t : Interrupts) → i ≢ int_no → (set_isr int_no stub t).idt i ≡ t.idt i
unfolding set_isr
set_isr-other int_no stub i t other =
    let differ : (i == int_no) ≡ false = ground (arith, other) in rw differ
