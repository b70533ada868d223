-- ===== src/Kernel/Console.antt =====
-- The virtual console's display, kernel/arch/i686/drivers/tty.c: an 80 by 25 VGA text buffer in
-- memory (16-bit cells, low byte first) and a cursor. `pos` of the source is the field `cursor`.
pub mod Screen
pub mod Bounds
pub mod Typing
mod Tests
use Prim.Native.Nat.{bit_or}
use oldasternix.Prelude.{
  ℕ, zero, suc, ◌+◌, ◌-◌, ◌*◌, ◌/◌, Bool, true, ◌==◌, ltb, leb, if◌then◌else◌,
}
use oldasternix.Prelude.Int.{ℤ, pos, neg}
use oldasternix.Prelude.Word.{u8, u16, u32, to_int}
use oldasternix.Libc.Memory.{Memory, poke}
use oldasternix.Libc.Block.{memmove, memset}
use oldasternix.Kernel.Errno.{enodev}
use oldasternix.Kernel.Machine.{Machine}
use oldasternix.Kernel.Ports.{Bus, outb}

abbrev pub vga_width : ℕ
vga_width = 80

abbrev pub vga_height : ℕ
vga_height = 25

abbrev pub vga_buffer_size : ℕ
vga_buffer_size = vga_width * vga_height

abbrev pub tab_size : ℕ
tab_size = 8

-- The attribute byte of every cell; nothing changes it.
abbrev pub format : ℕ
format = 0x07

-- A `uint16_t` store.
pub poke16 : Memory → ℕ → ℕ → Memory
poke16 m p v = poke (poke m p (u8 v)) (p + 1) (u8 (v / 256))

-- A `char` converted to `int`, as a 32-bit pattern.
pub sign_extend : ℕ → ℕ
sign_extend ch = if ltb ch 128 then ch else ch + 4294967040

-- `(uint16_t)format << 8 | ch`, stored in a `uint16_t`.
pub cell_of : ℕ → ℕ
cell_of ch = u16 (bit_or (format * 256) (sign_extend ch))

pub tty_scroll : ℕ → Machine → Machine
tty_scroll lines w =
    let points = lines * vga_width in
    let n = points * 2 in
    let m = memmove w.memory w.vga_buffer (w.vga_buffer + 2 * points) (vga_buffer_size * 2 - n) in
    record w {
      memory = memset m (w.vga_buffer + 2 * (vga_buffer_size - points)) 0 n;
      cursor = w.cursor - points;
    }

unfoldable pub tty_set_cursor : ℕ → Bus → Bus
tty_set_cursor cur bus =
    outb 0x3d5 (u8 (cur / 256)) (outb 0x3d4 0x0e (outb 0x3d5 (u8 cur) (outb 0x3d4 0x0f bus)))

-- The `switch` of `tty_putchar`.
pub place_char : ℕ → Machine → Machine
place_char ch w =
    if ch == 10
    then record w { cursor = (w.cursor / vga_width + 1) * vga_width }
    else if ch == 13
    then record w { cursor = (w.cursor / vga_width + 1) * vga_width }
    else if ch == 9
    then record w { cursor = (w.cursor / tab_size + 1) * tab_size }
    else if ch == 12
    then record w { memory = memset w.memory w.vga_buffer 0 (vga_buffer_size * 2); cursor = 0 }
    else if ch == 27
    then record w { processing_sequence = true }
    else record w {
      memory = poke16 w.memory (w.vga_buffer + 2 * w.cursor) (cell_of ch);
      cursor = w.cursor + 1;
    }

-- The end of `tty_putchar`.
pub scroll_if_below : Machine → Machine
scroll_if_below w =
    if leb vga_buffer_size w.cursor
    then tty_scroll ((w.cursor - vga_buffer_size) / vga_width + 1) w
    else w

pub tty_putchar : ℕ → Machine → Machine
tty_putchar ch w = scroll_if_below (place_char ch w)

-- The loop of `vconsole_write`, with the rounds left.
unfoldable pub write_loop : ℕ → ℕ → Machine → Machine
write_loop zero buf w = w
write_loop (suc k) buf w = write_loop k (buf + 1) (tty_putchar (w.memory buf) w)

unfoldable pub vconsole_write : ℕ → ℕ → Machine → ℤ × Machine
vconsole_write buf n w =
    let w = write_loop n buf w in (to_int n, record w { bus = tty_set_cursor w.cursor w.bus })

-- Serial input is not implemented.
pub serial_read : ℕ → ℕ → ℕ → Machine → ℤ × Machine
serial_read port buf n w = (pos 0, w)

-- The loop of `serial_write`, with the rounds left.
pub serial_loop : ℕ → ℕ → ℕ → Memory → Bus → Bus
serial_loop zero address buf m bus = bus
serial_loop (suc k) address buf m bus = serial_loop k address (buf + 1) m (outb address (m buf) bus)

-- `ports[port - 1]`, for the ports 1 and 2; the caller never passes 0.
abbrev pub com_port : ℕ → ℕ
com_port port = if port == 1 then 0x3f8 else 0x2f8

pub serial_write : ℕ → ℕ → ℕ → Machine → ℤ × Machine
unfolding serial_loop
serial_write port buf n w =
    if ltb 2 port
    then (neg enodev, w)
    else (to_int n, record w { bus = serial_loop n (com_port port) buf w.memory w.bus })
