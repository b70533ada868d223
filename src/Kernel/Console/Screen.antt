-- ===== src/Kernel/Console/Screen.antt =====
-- The display as 2000 cells: what scrolling and printing do to them.
use oldasternix.Prelude.{
  ℕ, ◌+◌, ◌-◌, ◌*◌, ◌≤◌, ◌<◌, ◌≡◌, refl, ap, true, false, ◌||◌, ◌==◌, ltb, if◌then◌else◌, arith,
}
use oldasternix.Prelude.Bits.{all_below, all_below-elim, bit_or-add}
use oldasternix.Libc.Memory.{Memory, poke}
use oldasternix.Libc.Block.{memmove, memmove_lem, memset_lem, within}
use oldasternix.Kernel.Machine.{Machine}
use oldasternix.Kernel.Console.{
  vga_width, vga_buffer_size, poke16, cell_of, sign_extend, tty_scroll,
}

-- The 16-bit cell `i` of the display.
abbrev pub cell : Machine → ℕ → ℕ
cell w i = w.memory (w.vga_buffer + 2 * i) + 256 * w.memory (w.vga_buffer + 2 * i + 1)

pub byte-tty_scroll :
    (lines k : ℕ) (w : Machine)
    → lines ≤ 25
    → k < 4000
    → (tty_scroll lines w).memory (w.vga_buffer + k)
      ≡ (if ltb k (4000 - lines * 160) then w.memory (w.vga_buffer + (k + lines * 160)) else 0)
unfolding tty_scroll
byte-tty_scroll lines k w h l =
    let vga = w.vga_buffer in
    let points = lines * vga_width in
    let m = memmove w.memory vga (vga + 2 * points) (vga_buffer_size * 2 - points * 2) in
    ground (
      arith,
      memset_lem m (vga + 2 * (vga_buffer_size - points)) 0 (points * 2) (vga + k),
      memmove_lem w.memory vga (vga + 2 * points) (vga_buffer_size * 2 - points * 2) (vga + k),
    )

pub outside-tty_scroll :
    (lines x : ℕ) (w : Machine)
    → lines ≤ 25
    → within w.vga_buffer 4000 x ≡ false
    → (tty_scroll lines w).memory x ≡ w.memory x
unfolding tty_scroll
outside-tty_scroll lines x w h l =
    let vga = w.vga_buffer in
    let points = lines * vga_width in
    let m = memmove w.memory vga (vga + 2 * points) (vga_buffer_size * 2 - points * 2) in
    ground (
      arith,
      memset_lem m (vga + 2 * (vga_buffer_size - points)) 0 (points * 2) x,
      memmove_lem w.memory vga (vga + 2 * points) (vga_buffer_size * 2 - points * 2) x,
    )

-- Scrolling by up to 25 lines moves every cell of the display up by that many lines and blanks the
-- cells that come free.
pub cell-tty_scroll :
    (lines i : ℕ) (w : Machine)
    → lines ≤ 25
    → i < vga_buffer_size
    → cell (tty_scroll lines w) i
      ≡ (if ltb i (vga_buffer_size - lines * vga_width) then cell w (i + lines * vga_width) else 0)
cell-tty_scroll lines i w h l =
    let same : (tty_scroll lines w).vga_buffer ≡ w.vga_buffer = unfold tty_scroll in refl in
    ground (
      arith,
      same,
      byte-tty_scroll lines (2 * i) w,
      byte-tty_scroll lines (2 * i + 1) w,
      ap w.memory {x = w.vga_buffer + (2 * i + lines * 160)}
          {y = w.vga_buffer + 2 * (i + lines * 80)} (omega arith),
    )

pub cell-poke16 :
    (m : Memory) (p i j v : ℕ)
    → v < 65536
    → let m' = poke16 m (p + 2 * j) v in
      (m' (p + 2 * i) + 256 * m' (p + 2 * i + 1))
      ≡ (if i == j then v else m (p + 2 * i) + 256 * m (p + 2 * i + 1))
unfolding poke16 poke
cell-poke16 m p i j v h = ground arith

-- A character below 128 is stored with the attribute 7.
pub cell_of-ascii : (ch : ℕ) → ch < 128 → cell_of ch ≡ 1792 + ch
unfolding cell_of sign_extend
cell_of-ascii ch h = ground (arith, bit_or-add 8 7 ch)

high_table : all_below 256 (λ ch. ltb ch 128 || (cell_of ch == 65280 + ch)) ≡ true
unfolding all_below cell_of sign_extend
high_table = refl

-- A character from 128 to 255 is negative as a `char`: the cell that is stored for it has the
-- attribute 0xff instead of the console's own.
pub cell_of-high : (ch : ℕ) → 128 ≤ ch → ch < 256 → cell_of ch ≡ 65280 + ch
cell_of-high ch h l =
    ground
      (arith, all_below-elim 256 (λ ch. ltb ch 128 || (cell_of ch == 65280 + ch)) ch high_table)
