-- ===== src/Kernel/Tty.antt =====
-- The terminal device of kernel/drivers/char/tty.c: minor 0 is the virtual console, 1 to 127 are
-- serial ports.
pub mod Echo
use oldasternix.Prelude.{ℕ, ◌==◌, ltb, if◌then◌else◌}
use oldasternix.Prelude.Int.{ℤ, neg}
use oldasternix.Kernel.Errno.{enodev}
use oldasternix.Kernel.Device.{minor}
use oldasternix.Kernel.Drivers.{CharDriver}
use oldasternix.Kernel.Machine.{Machine}
use oldasternix.Kernel.Keyboard.{vconsole_read}
use oldasternix.Kernel.Console.{vconsole_write, serial_read, serial_write}

unfoldable pub tty_read : ℕ → ℕ → ℕ → ℕ → Machine → ℤ × Machine
tty_read dev off buf n w =
    let m = minor dev in
    if m == 0
    then vconsole_read buf n w
    else if ltb m 128
    then serial_read m buf n w
    else (neg enodev, w)

unfoldable pub tty_write : ℕ → ℕ → ℕ → ℕ → Machine → ℤ × Machine
tty_write dev off buf n w =
    let m = minor dev in
    if m == 0
    then vconsole_write buf n w
    else if ltb m 128
    then serial_write m buf n w
    else (neg enodev, w)

abbrev pub tty_driver : CharDriver Machine
tty_driver = record { read = tty_read; write = tty_write }
