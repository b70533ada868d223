-- ===== src/Kernel/Interrupts/Masks.antt =====
-- The masks of the interrupt controllers.
use oldasternix.Prelude.{
  ℕ, ◌%◌, ◌<◌, ◌≡◌, ◌≢◌, refl, Bool, true, false, ◌&&◌, ◌==◌, ltb, if◌then◌else◌, ◌∷◌, arith,
}
use oldasternix.Prelude.Bits.{all_below, all_below-elim}
use oldasternix.Prelude.Bytes.{has_bit, set_bit, clear_bit, has_bit-set_bit}
use oldasternix.Prelude.Word.{u8}
use oldasternix.Kernel.Interrupts.{ms_data, sl_data, pic_set_mask, pic_clear_mask}
use oldasternix.Kernel.Ports.{Bus, Hardware, wrote, read, outb, inb, io_wait}

-- Line `i` of a controller is masked in the byte `v`.
abbrev pub masked : ℕ → ℕ → Bool
masked v i = has_bit v i

-- The port that holds the mask of line `irq`, and what the hardware answers there.
abbrev pub irq_port : ℕ → ℕ
irq_port irq = if ltb irq 8 then ms_data else sl_data

abbrev pub mask_of : Hardware → ℕ → Bus → ℕ
mask_of hw irq bus = u8 (hw bus (irq_port irq))

-- For every interrupt line below 16 but line 8, `pic_set_mask` and `pic_clear_mask` read the mask
-- of the line's controller and write it back with the line's bit set or cleared; the other seven
-- lines stay as the hardware reported them.
pub pic_set_mask-masked :
    (hw : Hardware) (irq j : ℕ) (bus : Bus)
    → irq < 16
    → irq ≢ 8
    → j < 8
    → let p = irq_port irq in
      let v = mask_of hw irq bus in
      (new new' : ℕ) × (pic_set_mask hw irq bus ≡ wrote 0x80 0 ∷ wrote p new ∷ read p v ∷ bus)
      × (pic_clear_mask hw irq bus ≡ wrote 0x80 0 ∷ wrote p new' ∷ read p v ∷ bus)
      × (masked new j ≡ (if irq % 8 == j then true else masked v j))
      × (masked new' j ≡ (if irq % 8 == j then false else masked v j))
unfolding pic_set_mask pic_clear_mask outb inb io_wait
pic_set_mask-masked hw irq j bus h ne hj =
    let v = mask_of hw irq bus in
    let law = has_bit-set_bit v (irq % 8) j (omega arith) (omega arith) hj in
    (set_bit v (irq % 8), clear_bit v (irq % 8), ground arith, ground arith, law.0, law.1)

-- Bit 8 is not in a byte.
unchanged_table : all_below 256 (λ v. (set_bit v 8 == v) && (clear_bit v 8 == v)) ≡ true
unfolding all_below
unchanged_table = refl

unchanged : (v : ℕ) → v < 256 → (set_bit v 8 ≡ v) × (clear_bit v 8 ≡ v)
unchanged v h =
    let law =
      all_below-elim 256 (λ v. (set_bit v 8 == v) && (clear_bit v 8 == v)) v unchanged_table h in
    ground (arith, law)

-- For line 8, the first of the second controller, `pic_set_mask` and `pic_clear_mask` read the mask
-- of the first controller and write it back unchanged: the line is neither masked nor unmasked.
pub pic_set_mask-irq8 :
    (hw : Hardware) (bus : Bus)
    → let v = u8 (hw bus ms_data) in
      let events = wrote 0x80 0 ∷ wrote ms_data v ∷ read ms_data v ∷ bus in
      (pic_set_mask hw 8 bus ≡ events) × (pic_clear_mask hw 8 bus ≡ events)
unfolding pic_set_mask pic_clear_mask outb inb io_wait
pic_set_mask-irq8 hw bus =
    let v = u8 (hw bus ms_data) in
    let same = unchanged v (omega arith) in (ground (arith, same), ground (arith, same))
