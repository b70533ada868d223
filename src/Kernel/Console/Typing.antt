-- ===== src/Kernel/Console/Typing.antt =====
-- Printing against an abstract screen of 2000 cells and a cursor.
use oldasternix.Prelude.{
  ℕ, zero, suc, ◌+◌, ◌-◌, ◌*◌, ◌/◌, ◌^◌, ◌≤◌, ◌<◌, ◌≡◌, refl, sym, ap, ◌⊎◌, inl, inr, ◌==◌, ltb,
  leb, if◌then◌else◌, Bool-cases, List, [], ◌∷◌, arith,
}
use oldasternix.Prelude.Int.{pos}
use oldasternix.Libc.Memory.{bytes, bytes_ext}
use oldasternix.Libc.Block.{memset_lem}
use oldasternix.Kernel.Machine.{Machine}
use oldasternix.Kernel.Console.{
  cell_of, tty_scroll, place_char, scroll_if_below, tty_putchar, write_loop, vconsole_write,
}
use oldasternix.Kernel.Console.Screen.{cell, cell-tty_scroll, cell-poke16, cell_of-ascii}
use oldasternix.Kernel.Console.Bounds.{
  scroll_if_below_lem, tty_putchar-outside, vga_buffer-tty_putchar,
}

-- What a reader of the display sees.
pub record Screen : Type 0 where
  pub at : ℕ → ℕ
  pub cursor : ℕ

-- Line feed and carriage return start the next line, tab goes to the next multiple of 8, form feed
-- clears, escape shows nothing, and any other character takes its cell in light grey.
pub show_char : ℕ → Screen → Screen
show_char ch s =
    if ch == 10
    then record s { cursor = (s.cursor / 80 + 1) * 80 }
    else if ch == 13
    then record s { cursor = (s.cursor / 80 + 1) * 80 }
    else if ch == 9
    then record s { cursor = (s.cursor / 8 + 1) * 8 }
    else if ch == 12
    then record { at = λ i. 0; cursor = 0 }
    else if ch == 27
    then s
    else record { at = λ i. if i == s.cursor then 1792 + ch else s.at i; cursor = s.cursor + 1 }

-- When the cursor is behind the last line, that line appears and the first one goes.
pub next_line : Screen → Screen
next_line s =
    if leb 2000 s.cursor
    then record { at = λ i. if ltb i 1920 then s.at (i + 80) else 0; cursor = s.cursor - 80 }
    else s

pub type_char : ℕ → Screen → Screen
unfolding show_char next_line
type_char ch s = next_line (show_char ch s)

unfoldable pub type_text : List ℕ → Screen → Screen
type_text [] s = s
type_text (ch ∷ text) s = type_text text (type_char ch s)

-- The machine displays the screen `s`, whose cursor is on it.
pub record Displays (w : Machine) (s : Screen) : Type 0 where
  pub cells : (i : ℕ) → i < 2000 → cell w i ≡ s.at i
  pub place : w.cursor ≡ s.cursor
  pub inside : s.cursor < 2000

place_char-cells :
    (ch : ℕ) (w : Machine) (s : Screen) (i : ℕ)
    → ch < 128
    → Displays w s
    → i < 2000
    → (cell (place_char ch w) i ≡ (show_char ch s).at i)
      × ((place_char ch w).cursor ≡ (show_char ch s).cursor)
unfolding place_char show_char
place_char-cells ch w s i small d l =
    let vga = w.vga_buffer in
    ground (
      arith,
      d.cells i l,
      d.place,
      cell_of-ascii ch small,
      cell-poke16 w.memory vga i w.cursor (cell_of ch),
      memset_lem w.memory vga 0 4000 (vga + 2 * i),
      memset_lem w.memory vga 0 4000 (vga + 2 * i + 1),
    )

scroll_if_below-cells :
    (w : Machine) (s : Screen)
    → ((i : ℕ) → i < 2000 → cell w i ≡ s.at i)
    → w.cursor ≡ s.cursor
    → w.cursor ≤ 2000
    → Displays (scroll_if_below w) (next_line s)
unfolding next_line
scroll_if_below-cells w s cells place h =
    let up : (tty_scroll 1 w).cursor ≡ w.cursor - 80 = unfold tty_scroll in refl in
    let test : leb 2000 s.cursor ≡ leb 2000 w.cursor = ap (λ c. leb 2000 c) (sym place) in
    rw (scroll_if_below_lem w h, test)
      (elim (Bool-cases (leb 2000 w.cursor)) [
        | inl below ↦ rw below (record {
          cells = λ i l. ground (arith, cell-tty_scroll 1 i w, cells (i + 80));
          place = omega arith;
          inside = ground arith;
        })
        | inr above ↦ rw above (record { cells = cells; place = place; inside = ground arith })
      ])

-- Printing an ASCII character does to the display what `type_char` does to the screen.
pub tty_putchar-type_char :
    (ch : ℕ) (w : Machine) (s : Screen)
    → ch < 128
    → Displays w s
    → Displays (tty_putchar ch w) (type_char ch s)
unfolding tty_putchar type_char
tty_putchar-type_char ch w s small d =
    let on : w.cursor < 2000 = omega (arith, d.place, d.inside) in
    scroll_if_below-cells (place_char ch w) (show_char ch s)
      (λ i l. (place_char-cells ch w s i small d l).0)
      ((place_char-cells ch w s 0 small d (omega arith)).1) (cursor-le ch w on)
  where
    cursor-le : (c : ℕ) (v : Machine) → v.cursor < 2000 → (place_char c v).cursor ≤ 2000
    cursor-le c v l = unfold place_char in ground arith

abbrev pub AllAscii : List ℕ → Type 0
AllAscii [] = Unit {0}
AllAscii (x ∷ xs) = (x < 128) × AllAscii xs

-- The text lies outside the VGA buffer.
abbrev pub Apart : Machine → ℕ → ℕ → Type 0
Apart w buf n = (buf + n ≤ w.vga_buffer) ⊎ (w.vga_buffer + 4000 ≤ buf)

write_loop-type_text :
    (n buf : ℕ) (w : Machine) (s : Screen)
    → AllAscii (bytes w.memory buf n)
    → Apart w buf n
    → Displays w s
    → Displays (write_loop n buf w) (type_text (bytes w.memory buf n) s)
unfolding write_loop type_text bytes
write_loop-type_text zero buf w s ascii apart d = d
write_loop-type_text (suc n) buf w s ascii apart d =
    let ch = w.memory buf in
    let w' = tty_putchar ch w in
    let on : w.cursor < 2000 = omega (arith, d.place, d.inside) in
    let same : bytes w'.memory (buf + 1) n ≡ bytes w.memory (buf + 1) n =
      bytes_ext w'.memory w.memory (buf + 1) (buf + 1) n
        (λ i l. (tty_putchar-outside ch (buf + 1 + i) w on (ground arith)).0) in
    let fixed : w'.vga_buffer ≡ w.vga_buffer = vga_buffer-tty_putchar ch w in
    rw same at (
      write_loop-type_text n (buf + 1) w' (type_char ch s) (rw same ascii.1) (ground (arith, fixed))
        (tty_putchar-type_char ch w s ascii.0 d))

-- `vconsole_write` of ASCII text that lies outside the VGA buffer, fewer than 2^31 characters, does
-- to the display what typing the text does to an abstract screen of 2000 cells and a cursor, and
-- returns the number of characters. The display showed that screen before, with the cursor on it.
pub vconsole_write-type_text :
    (n buf : ℕ) (w : Machine) (s : Screen)
    → n < 2 ^ 31
    → AllAscii (bytes w.memory buf n)
    → Apart w buf n
    → Displays w s
    → let (r, w') = vconsole_write buf n w in
      (r ≡ pos n) × Displays w' (type_text (bytes w.memory buf n) s)
unfolding vconsole_write
vconsole_write-type_text n buf w s small ascii apart d =
    let shown = write_loop-type_text n buf w s ascii apart d in
    (ground arith, record { cells = shown.cells; place = shown.place; inside = shown.inside })
