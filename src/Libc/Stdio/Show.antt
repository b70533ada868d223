-- ===== src/Libc/Stdio/Show.antt =====
-- What printing a text does to the display, and `vconsole_write` of a text in memory.
use oldasternix.Prelude.{
  ℕ, zero, suc, ◌+◌, ◌<◌, ◌≡◌, refl, ap, ◌∙◌, List, [], ◌∷◌, ◌++◌, ◌==◌, ◌||◌, if◌then◌else◌,
  replicate, arith,
}
use mathlib.Core.List.{reverse, reverse-append}
use oldasternix.Prelude.Word.{u8, to_int}
use oldasternix.Libc.Memory.{bytes, bytes_ext}
use oldasternix.Libc.Stdio.{type_bytes, show, putchar, put_all}
use oldasternix.Kernel.Machine.{Machine}
use oldasternix.Kernel.Console.{tty_putchar, tty_set_cursor, write_loop, vconsole_write}
use oldasternix.Kernel.Ports.{Bus, wrote, read, outb}
use oldasternix.Kernel.Console.Bounds.{
  bus-tty_putchar, tty_putchar-outside, vga_buffer-tty_putchar, keyboard-tty_putchar,
}
use oldasternix.Kernel.Console.Typing.{
  Screen, type_char, type_text, Displays, tty_putchar-type_char, AllAscii, Apart,
}

-- What happened on the bus but at the ports of the display's cursor.
unfoldable pub off_screen : Bus → Bus
off_screen [] = []
off_screen (wrote port v ∷ bus) =
    let rest = off_screen bus in
    if port == 0x3d4 || (port == 0x3d5) then rest else wrote port v ∷ rest
off_screen (read port v ∷ bus) = read port v ∷ off_screen bus

-- From `w` to `w'` the text is typed on whatever screen is displayed, the keyboard's state stays as
-- it is, and nothing happens on the bus but at the ports of the cursor.
pub record Prints (w : Machine) (text : List ℕ) (w' : Machine) : Type 0 where
  pub shows : (s : Screen) → Displays w s → Displays w' (type_text text s)
  pub modifiers : w'.modifiers ≡ w.modifiers
  pub queue_idx : w'.queue_idx ≡ w.queue_idx
  pub bus : off_screen w'.bus ≡ off_screen w.bus

pub type_text-append :
    (a b : List ℕ) (s : Screen) → type_text (a ++ b) s ≡ type_text b (type_text a s)
unfolding type_text
type_text-append [] b s = refl
type_text-append (ch ∷ a) b s = type_text-append a b (type_char ch s)

pub Prints-append :
    (a b : List ℕ) (w w' w'' : Machine) → Prints w a w' → Prints w' b w'' → Prints w (a ++ b) w''
Prints-append a b w w' w'' p q = record {
  shows = λ s d. rw (type_text-append a b s) (q.shows (type_text a s) (p.shows s d));
  modifiers = q.modifiers ∙ p.modifiers;
  queue_idx = q.queue_idx ∙ p.queue_idx;
  bus = q.bus ∙ p.bus;
}

pub Prints-nothing : (w : Machine) → Prints w [] w
unfolding type_text
Prints-nothing w = record { shows = λ s d. d; modifiers = refl; queue_idx = refl; bus = refl }

tty_putchar-Prints : (ch : ℕ) (w : Machine) → ch < 128 → Prints w (ch ∷ []) (tty_putchar ch w)
unfolding type_text
tty_putchar-Prints ch w h =
    let (m, q) = keyboard-tty_putchar ch w in
    record {
      shows = λ s d. tty_putchar-type_char ch w s h d;
      modifiers = m;
      queue_idx = q;
      bus = ap off_screen (bus-tty_putchar ch w);
    }

type_bytes-Prints :
    (text : List ℕ) (w : Machine) → AllAscii text → Prints w text (type_bytes text w)
unfolding type_bytes
type_bytes-Prints [] w a = Prints-nothing w
type_bytes-Prints (ch ∷ text) w a =
    Prints-append (ch ∷ []) text w (tty_putchar ch w) (type_bytes text (tty_putchar ch w))
      (tty_putchar-Prints ch w a.0) (type_bytes-Prints text (tty_putchar ch w) a.1)

off_screen-tty_set_cursor :
    (cursor : ℕ) (bus : Bus) → off_screen (tty_set_cursor cursor bus) ≡ off_screen bus
unfolding tty_set_cursor outb off_screen
off_screen-tty_set_cursor cursor bus = refl

pub show-Prints : (text : List ℕ) (w : Machine) → AllAscii text → Prints w text (show text w)
unfolding show
show-Prints text w a =
    let p = type_bytes-Prints text w a in
    record {
      shows = λ s d.
          let shown = p.shows s d in
          record { cells = shown.cells; place = shown.place; inside = shown.inside };
      modifiers = p.modifiers;
      queue_idx = p.queue_idx;
      bus = off_screen-tty_set_cursor (type_bytes text w).cursor (type_bytes text w).bus ∙ p.bus;
    }

pub putchar-Prints : (ch : ℕ) (w : Machine) → ch < 128 → Prints w (ch ∷ []) (putchar ch w)
unfolding putchar
putchar-Prints ch w h =
    let same : u8 ch ≡ ch = omega arith in rw same (show-Prints (ch ∷ []) w (h, tt))

pub put_all-Prints : (text : List ℕ) (w : Machine) → AllAscii text → Prints w text (put_all text w)
unfolding put_all
put_all-Prints [] w a = Prints-nothing w
put_all-Prints (ch ∷ text) w a =
    Prints-append (ch ∷ []) text w (putchar ch w) (put_all text (putchar ch w))
      (putchar-Prints ch w a.0) (put_all-Prints text (putchar ch w) a.1)

pub AllAscii-append : (a b : List ℕ) → AllAscii a → AllAscii b → AllAscii (a ++ b)
AllAscii-append [] b p q = q
AllAscii-append (x ∷ a) b p q = (p.0, AllAscii-append a b p.1 q)

pub AllAscii-replicate : (n ch : ℕ) → ch < 128 → AllAscii (replicate n ch)
AllAscii-replicate zero ch h = tt
AllAscii-replicate (suc n) ch h = (h, AllAscii-replicate n ch h)

pub AllAscii-reverse : (a : List ℕ) → AllAscii a → AllAscii (reverse a)
AllAscii-reverse [] p = tt
AllAscii-reverse (x ∷ a) p =
    rw (reverse-append (x ∷ []) a)
      (AllAscii-append (reverse a) (x ∷ []) (AllAscii-reverse a p.1) (p.0, tt))

write_loop-type_bytes :
    (n buf : ℕ) (w : Machine)
    → Apart w buf n
    → w.cursor < 2000
    → write_loop n buf w ≡ type_bytes (bytes w.memory buf n) w
unfolding write_loop type_bytes bytes
write_loop-type_bytes zero buf w apart on = refl
write_loop-type_bytes (suc n) buf w apart on =
    let ch = w.memory buf in
    let w' = tty_putchar ch w in
    let same : bytes w'.memory (buf + 1) n ≡ bytes w.memory (buf + 1) n =
      bytes_ext w'.memory w.memory (buf + 1) (buf + 1) n
        (λ i l. (tty_putchar-outside ch (buf + 1 + i) w on (ground arith)).0) in
    let fixed : w'.vga_buffer ≡ w.vga_buffer = vga_buffer-tty_putchar ch w in
    write_loop-type_bytes n (buf + 1) w' (ground (arith, fixed))
      (tty_putchar-outside ch (w.vga_buffer + 4000) w on (ground arith)).2
    ∙ ap (λ t. type_bytes t w') same

-- For a text in memory outside the VGA buffer, with the cursor on the screen, `vconsole_write` does
-- what printing the list of its bytes does: the bytes that it reads in each round are those that
-- were there before the call.
pub vconsole_write-show :
    (n buf : ℕ) (w : Machine)
    → Apart w buf n
    → w.cursor < 2000
    → vconsole_write buf n w ≡ (to_int n, show (bytes w.memory buf n) w)
unfolding vconsole_write show
vconsole_write-show n buf w apart on = let e = write_loop-type_bytes n buf w apart on in rw e
