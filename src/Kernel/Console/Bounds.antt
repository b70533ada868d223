-- ===== src/Kernel/Console/Bounds.antt =====
-- Where printing writes, and where it leaves the cursor.
use oldasternix.Prelude.{
  ℕ, zero, suc, ◌+◌, ◌-◌, ◌*◌, ◌/◌, ◌≤◌, ◌<◌, ◌≡◌, refl, inl, inr, false, leb, if◌then◌else◌,
  Bool-cases, ◌∷◌, arith,
}
use oldasternix.Prelude.Word.{u8}
use oldasternix.Libc.Memory.{poke}
use oldasternix.Libc.Block.{memset_lem, within}
use oldasternix.Kernel.Ports.{Bus, wrote, outb}
use oldasternix.Kernel.Machine.{Machine}
use oldasternix.Kernel.Console.{
  poke16, tty_scroll, place_char, scroll_if_below, tty_putchar, write_loop, vconsole_write,
  tty_set_cursor,
}
use oldasternix.Kernel.Console.Screen.{outside-tty_scroll}

place_char-outside :
    (ch x : ℕ) (w : Machine)
    → w.cursor < 2000
    → within w.vga_buffer 4000 x ≡ false
    → ((place_char ch w).memory x ≡ w.memory x)
      × ((place_char ch w).vga_buffer ≡ w.vga_buffer)
      × ((place_char ch w).cursor ≤ 2000)
unfolding place_char poke16 poke
place_char-outside ch x w h out = ground (arith, memset_lem w.memory w.vga_buffer 0 4000 x)

pub scroll_if_below_lem :
    (w : Machine)
    → w.cursor ≤ 2000
    → scroll_if_below w ≡ (if leb 2000 w.cursor then tty_scroll 1 w else w)
unfolding scroll_if_below
scroll_if_below_lem w h = elim (Bool-cases (leb 2000 w.cursor)) [
  | inl below ↦ let one : (w.cursor - 2000) / 80 + 1 ≡ 1 = ground arith in rw (below, one)
  | inr above ↦ rw above
]

scroll_if_below-outside :
    (x : ℕ) (w : Machine)
    → w.cursor ≤ 2000
    → within w.vga_buffer 4000 x ≡ false
    → ((scroll_if_below w).memory x ≡ w.memory x)
      × ((scroll_if_below w).vga_buffer ≡ w.vga_buffer)
      × ((scroll_if_below w).cursor < 2000)
scroll_if_below-outside x w h out =
    let buffer : (tty_scroll 1 w).vga_buffer ≡ w.vga_buffer = unfold tty_scroll in refl in
    let up : (tty_scroll 1 w).cursor ≡ w.cursor - 80 = unfold tty_scroll in refl in
    rw (scroll_if_below_lem w h) (elim (Bool-cases (leb 2000 w.cursor)) [
      | inl below ↦ rw below (ground (arith, outside-tty_scroll 1 x w))
      | inr above ↦ rw above (refl, refl, ground arith)
    ])

-- With the cursor on the screen, printing any character writes nothing outside the 4000 bytes of
-- the VGA buffer, does not move the buffer, and leaves the cursor on the screen.
pub tty_putchar-outside :
    (ch x : ℕ) (w : Machine)
    → w.cursor < 2000
    → within w.vga_buffer 4000 x ≡ false
    → ((tty_putchar ch w).memory x ≡ w.memory x)
      × ((tty_putchar ch w).vga_buffer ≡ w.vga_buffer)
      × ((tty_putchar ch w).cursor < 2000)
unfolding tty_putchar
tty_putchar-outside ch x w h out =
    ground (arith, place_char-outside ch x w, scroll_if_below-outside x (place_char ch w))

pub vga_buffer-tty_putchar : (ch : ℕ) (w : Machine) → (tty_putchar ch w).vga_buffer ≡ w.vga_buffer
unfolding tty_putchar scroll_if_below place_char tty_scroll
vga_buffer-tty_putchar ch w = ground arith

-- Printing leaves the keyboard's queue and modifiers alone.
pub keyboard-tty_putchar :
    (ch : ℕ) (w : Machine)
    → ((tty_putchar ch w).modifiers ≡ w.modifiers) × ((tty_putchar ch w).queue_idx ≡ w.queue_idx)
unfolding tty_putchar scroll_if_below place_char tty_scroll
keyboard-tty_putchar ch w = ground arith

pub bus-tty_putchar : (ch : ℕ) (w : Machine) → (tty_putchar ch w).bus ≡ w.bus
unfolding tty_putchar scroll_if_below place_char tty_scroll
bus-tty_putchar ch w = ground arith

pub input_queue-tty_putchar :
    (ch : ℕ) (w : Machine) → (tty_putchar ch w).input_queue ≡ w.input_queue
unfolding tty_putchar scroll_if_below place_char tty_scroll
input_queue-tty_putchar ch w = ground arith

pub cursor-tty_putchar : (ch : ℕ) (w : Machine) → w.cursor < 2000 → (tty_putchar ch w).cursor < 2000
unfolding tty_putchar scroll_if_below place_char tty_scroll
cursor-tty_putchar ch w h = ground arith

write_loop-cursor : (n buf : ℕ) (w : Machine) → w.cursor < 2000 → (write_loop n buf w).cursor < 2000
unfolding write_loop
write_loop-cursor zero buf w h = h
write_loop-cursor (suc n) buf w h =
    write_loop-cursor n (buf + 1) (tty_putchar (w.memory buf) w)
      (cursor-tty_putchar (w.memory buf) w h)

-- With the cursor on the screen at the start of `vconsole_write`, the last four bus events of the
-- call select the cursor registers of the display controller and give them the low and the high
-- byte of the cursor's position, which is on the screen.
pub vconsole_write-cursor :
    (n buf : ℕ) (w : Machine)
    → w.cursor < 2000
    → let w' = (vconsole_write buf n w).1 in
      (lo hi : ℕ) × (old : Bus) × (w'.bus
        ≡ wrote 0x3d5 hi ∷ wrote 0x3d4 0x0e ∷ wrote 0x3d5 lo ∷ wrote 0x3d4 0x0f ∷ old)
      × (hi * 256 + lo ≡ w'.cursor)
      × (w'.cursor < 2000)
unfolding vconsole_write tty_set_cursor outb
vconsole_write-cursor n buf w h =
    let v = write_loop n buf w in
    let on : v.cursor < 2000 = write_loop-cursor n buf w h in
    (u8 v.cursor, u8 (v.cursor / 256), v.bus, ground arith, ground arith, on)
