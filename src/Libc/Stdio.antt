-- ===== src/Libc/Stdio.antt =====
-- Formatted output, libc/stdio.c. What is printed goes to the virtual console
-- (kernel/arch/i686/drivers/tty.c). A format and a string argument are lists of their bytes before
-- the zero byte. A result of `none` is that an argument is missing or of another kind than its
-- specifier, where the source's behaviour is undefined, or that the fuel ran out. An `int` is its
-- bit pattern, and its arithmetic wraps around.
pub mod Show
pub mod Digits
pub mod Pieces
mod Convert
pub mod Print
pub mod Messages
mod Tests
use oldasternix.Prelude.{
  ◌>>=◌, ℕ, zero, suc, ◌+◌, ◌-◌, ◌*◌, ◌/◌, ◌%◌, ◌^◌, Bool, true, false, ◌&&◌, ◌||◌, Option, none,
  some, List, [], ◌∷◌, ◌++◌, ◌==◌, ltb, leb, if◌then◌else◌, length, replicate,
}
use mathlib.Core.List.{reverse}
use oldasternix.Prelude.Int.{ℤ}
use oldasternix.Prelude.Word.{u8, u32, to_int}
use oldasternix.Libc.Memory.{Memory, poke}
use oldasternix.Kernel.Machine.{Machine}
use oldasternix.Kernel.Console.{tty_putchar, tty_set_cursor}

-- The loop of `vconsole_write` over a text that lies outside the VGA buffer.
pub type_bytes : List ℕ → Machine → Machine
type_bytes [] w = w
type_bytes (ch ∷ text) w = type_bytes text (tty_putchar ch w)

-- `vconsole_write` of such a text.
pub show : List ℕ → Machine → Machine
unfolding type_bytes
show text w = let w = type_bytes text w in record w { bus = tty_set_cursor w.cursor w.bus }

-- `putchar` writes the low byte of its argument.
pub putchar : ℕ → Machine → Machine
unfolding show
putchar ch w = show (u8 ch ∷ []) w

pub puts : List ℕ → Machine → ℕ × Machine
unfolding show
puts s w = (length s, show s w)

-- The array `digits` of `putiradix`, filled from the lowest digit.
pub digits_loop : ℕ → ℕ → ℕ → ℕ → List ℕ
digits_loop zero x r alpha = []
digits_loop (suc f) x r alpha =
    let d = x % r in
    let digit = if ltb d 10 then 48 + d else alpha + d - 10 in
    let rest = digits_loop f (x / r) r alpha in digit ∷ (if x / r == 0 then [] else rest)

-- A 32-bit number has at most 32 digits in any radix.
pub digits : ℕ → ℕ → ℕ → List ℕ
unfolding digits_loop
digits x r alpha = digits_loop 32 x r alpha

-- The loops that print characters one by one.
pub put_all : List ℕ → Machine → Machine
put_all [] w = w
put_all (ch ∷ text) w = put_all text (putchar ch w)

-- A negative `min` is below every number of digits.
pub putiradix : ℕ → ℕ → ℕ → ℕ → ℕ → Machine → ℕ × Machine
unfolding digits put_all
putiradix x r alpha min filler w =
    let ds = digits x r alpha in
    let n = length ds in
    let num_min = if ltb min (2 ^ 31) then min else 0 in
    let w = put_all (replicate (num_min - n) filler) w in
    let w = put_all (reverse ds) w in (if ltb n num_min then num_min else n, w)

-- The arguments of a call: 32-bit words, strings, and the addresses that `%n` stores to.
pub data Arg : Type 0 where
  word : ℕ → Arg
  text : List ℕ → Arg
  address : ℕ → Arg

abbrev pub take_word : List Arg → Option (ℕ × List Arg)
take_word (word x ∷ args) = some (x, args)
take_word _ = none

abbrev pub take_text : List Arg → Option (List ℕ × List Arg)
take_text (text s ∷ args) = some (s, args)
take_text _ = none

abbrev pub take_address : List Arg → Option (ℕ × List Arg)
take_address (address p ∷ args) = some (p, args)
take_address _ = none

-- A store of an `int`, low byte first.
pub poke32 : Memory → ℕ → ℕ → Memory
poke32 m p v =
    poke (poke (poke (poke m p (u8 v)) (p + 1) (u8 (v / 2 ^ 8))) (p + 2) (u8 (v / 2 ^ 16))) (p + 3)
      (u8 (v / 2 ^ 24))

-- The count so far, the arguments that are left, and the machine.
abbrev pub Progress : Type 0
Progress = ℕ × List Arg × Machine

-- A number that a specifier takes from the arguments, printed by `putiradix`.
abbrev pub put_number : ℕ → ℕ → ℕ → ℕ → List Arg → ℕ → Machine → Option Progress
put_number r alpha num_min filler args n w = do
  (x, args) ← take_word args
  let (k, w) = putiradix x r alpha num_min filler w
  some (u32 (n + k), args, w)

-- The cases 'd' and 'i'.
abbrev pub put_signed : ℕ → ℕ → List Arg → ℕ → Machine → Option Progress
put_signed num_min filler args n w = do
  (d, args) ← take_word args
  if ltb d (2 ^ 31)
      then put_number 10 0 num_min filler (word d ∷ args) n w
      else put_number 10 0 num_min filler (word (u32 (2 ^ 32 - d)) ∷ args) (u32 (n + 1))
          (putchar b'-' w)

-- The `switch` of `vprintf`, on the character after the flag and the width. `printf("")` prints
-- nothing.
pub convert : ℕ → ℕ → ℕ → List Arg → ℕ → Machine → Option Progress
unfolding putiradix puts putchar poke32
convert c num_min filler args n w =
    if c == b'%'
    then some (u32 (n + 1), args, putchar b'%' w)
    else if c == b's'
    then (do (s, args) ← take_text args; let (k, w) = puts s w; some (u32 (n + k), args, w))
    else if c == b'c'
    then (do (x, args) ← take_word args; some (u32 (n + 1), args, putchar x w))
    else if c == b'd' || (c == b'i')
    then put_signed num_min filler args n w
    else if c == b'u'
    then put_number 10 0 num_min filler args n w
    else if c == b'p'
    then (let (k, w) = puts (b'0' ∷ b'x' ∷ []) w in
        put_number 16 b'a' num_min filler args (u32 (n + k)) w)
    else if c == b'x'
    then put_number 16 b'a' num_min filler args n w
    else if c == b'X'
    then put_number 16 b'A' num_min filler args n w
    else if c == b'o'
    then put_number 8 0 num_min filler args n w
    else if c == b'n'
    then (do
      (p, args) ← take_address args
      some (n, args, record w { memory = poke32 w.memory p n }))
    else some (n, args, putchar c w)

-- The flag '0': the filler, and the format behind it.
pub read_flag : List ℕ → ℕ × List ℕ
read_flag [] = (b' ', [])
read_flag (c ∷ format) = if c == b'0' then (b'0', format) else (b' ', c ∷ format)

-- The loop over the digits of the width.
pub read_width : ℕ → List ℕ → ℕ × List ℕ
read_width num_min [] = (num_min, [])
read_width num_min (c ∷ format) =
    let rest = read_width (u32 (num_min * 10 + (c - b'0'))) format in
    if leb b'0' c && leb c b'9' then rest else (num_min, c ∷ format)

-- The loop of `vprintf`: the count, and the machine.
pub vprintf_loop : ℕ → List ℕ → List Arg → ℕ → Machine → Option (ℕ × Machine)
unfolding convert read_flag read_width
vprintf_loop zero format args n w = none
vprintf_loop (suc f) [] args n w = some (n, w)
vprintf_loop (suc f) (c ∷ format) args n w = elim (c == b'%') [
  | false ↦ vprintf_loop f format args (u32 (n + 1)) (putchar c w)
  | true ↦
      let (filler, behind) = read_flag format in
      let (num_min, behind) = read_width 0 behind in
      elim behind [
        | [] ↦ some (u32 (n + 1), putchar b'%' w)
        | c' ∷ rest ↦ elim (convert c' num_min filler args n w) [
          | none ↦ none
          | some (n', args', w') ↦ vprintf_loop f rest args' n' w'
        ]
      ]
]

-- Each round reads a character of the format at least.
pub vprintf : List ℕ → List Arg → Machine → Option (ℕ × Machine)
unfolding vprintf_loop
vprintf format args w = vprintf_loop (length format + 1) format args 0 w

pub printf : List ℕ → List Arg → Machine → Option (ℕ × Machine)
unfolding vprintf
printf format args w = vprintf format args w

-- A call of `printf` whose result is not used.
abbrev pub say : List ℕ → List Arg → Machine → Option Machine
say format args w = do (_, w) ← printf format args w; some w
