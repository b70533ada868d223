-- ===== src/Kernel/Console/Tests.antt =====
-- The theorems on the display at concrete machines.
use oldasternix.Prelude.{◌<◌, ◌≡◌, refl, inl, ◌==◌, if◌then◌else◌, arith}
use oldasternix.Prelude.Int.{pos}
use oldasternix.Libc.Memory.{Memory, bytes}
use oldasternix.Kernel.Machine.{Machine, at_boot}
use oldasternix.Kernel.Console.{tty_putchar, vconsole_write}
use oldasternix.Kernel.Console.Bounds.{tty_putchar-outside}
use oldasternix.Kernel.Console.Typing.{Screen, type_text, Displays, vconsole_write-type_text}

-- "A", a line feed and "B" at 0, a black screen at 5000.
abbrev text : Memory
text a = if a == 0 then 65 else if a == 1 then 10 else if a == 2 then 66 else 0

abbrev black : Machine
black = at_boot text 1000 5000

-- The cursor stands on the last cell.
abbrev at_end : Machine
at_end = record black { cursor = 1999 }

abbrev black_screen : Screen
black_screen = record { at = λ _. 0; cursor = 1999 }

at_end-Displays : Displays at_end black_screen
at_end-Displays = record { cells = λ i l. ground arith; place = refl; inside = omega arith }

vconsole_write-type_text_example :
    let (r, w') = vconsole_write 0 3 at_end in
    (r ≡ pos 3) × Displays w' (type_text (bytes text 0 3) black_screen)
unfolding bytes
vconsole_write-type_text_example =
    vconsole_write-type_text 3 0 at_end black_screen (omega arith)
      (omega arith, (omega arith, (omega arith, tt))) (inl (omega arith)) at_end-Displays

tty_putchar-outside_example :
    ((tty_putchar 65 at_end).memory 9000 ≡ at_end.memory 9000)
    × ((tty_putchar 65 at_end).vga_buffer ≡ 5000)
    × ((tty_putchar 65 at_end).cursor < 2000)
tty_putchar-outside_example = tty_putchar-outside 65 9000 at_end (omega arith) refl
