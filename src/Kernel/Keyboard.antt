-- ===== src/Kernel/Keyboard.antt =====
-- The keyboard driver of kernel/drivers/kb.c: modifier keys, and the queue of typed characters.
pub mod Keymap
pub mod Modifiers
pub mod Queue
mod Tests
use Prim.Native.Nat.{bit_and, bit_or}
use oldasternix.Prelude.{ℕ, ◌+◌, ◌-◌, Bool, true, false, not, xor, ◌==◌, ltb, leb, if◌then◌else◌}
use oldasternix.Prelude.Int.{ℤ}
use oldasternix.Prelude.Word.{u8, to_int}
use oldasternix.Libc.Memory.{poke}
use oldasternix.Libc.Block.{memcpy, memmove}
use oldasternix.Kernel.Machine.{Machine}
use oldasternix.Kernel.Keyboard.Keymap.{keycode_to_char}

-- `enum kb_mod`.
abbrev pub lshift : ℕ
lshift = 1

abbrev pub rshift : ℕ
rshift = 2

abbrev pub shift : ℕ
shift = bit_or lshift rshift

abbrev pub lctrl : ℕ
lctrl = 4

abbrev pub rctrl : ℕ
rctrl = 8

abbrev pub ctrl : ℕ
ctrl = bit_or lctrl rctrl

abbrev pub lalt : ℕ
lalt = 16

abbrev pub ralt : ℕ
ralt = 32

abbrev pub caps : ℕ
caps = 64

abbrev pub queue_len : ℕ
queue_len = 256

-- `kb_get_mod` and `kb_set_mod` on the byte `modifiers`.
pub get_mod : ℕ → ℕ → Bool
get_mod modifiers flag = not (bit_and modifiers flag == 0)

pub set_mod : ℕ → ℕ → Bool → ℕ
set_mod modifiers flag value =
    if value then u8 (bit_or modifiers flag) else u8 (bit_and modifiers (4294967295 - flag))

pub kb_get_mod : ℕ → Machine → Bool
unfolding get_mod
kb_get_mod flag w = get_mod w.modifiers flag

pub kb_set_mod : ℕ → Bool → Machine → Machine
unfolding set_mod
kb_set_mod flag value w = record w { modifiers = set_mod w.modifiers flag value }

unfoldable pub vconsole_read : ℕ → ℕ → Machine → ℤ × Machine
vconsole_read buf n w =
    let n = if ltb w.queue_idx n then w.queue_idx else n in
    let m = memcpy w.memory buf w.input_queue n in
    let m = memmove m w.input_queue (w.input_queue + n) (w.queue_idx - n) in
    (to_int n, record w { memory = m; queue_idx = w.queue_idx - n })

-- The end of `kb_key_pressed`: a full queue loses its oldest character.
pub enqueue : ℕ → Machine → Machine
enqueue ch w =
    let full = leb queue_len w.queue_idx in
    let m =
      if full
      then memmove w.memory w.input_queue (w.input_queue + 1) (w.queue_idx - 1)
      else w.memory in
    let idx = if full then w.queue_idx - 1 else w.queue_idx in
    record w { memory = poke m (w.input_queue + idx) ch; queue_idx = idx + 1 }

-- The character that a key stands for under the modifiers, 0 for a key that is not mapped.
pub key_char : ℕ → ℕ → ℕ
unfolding get_mod
key_char modifiers keycode =
    keycode_to_char (xor (get_mod modifiers shift) (get_mod modifiers caps)) keycode

-- The `default` case of `kb_key_pressed`.
pub key_typed : ℕ → Machine → Machine
unfolding key_char get_mod enqueue
key_typed keycode w =
    let ch = key_char w.modifiers keycode in
    if ch == 0 then w else enqueue (if get_mod w.modifiers ctrl then bit_and ch 0x1f else ch) w

pub kb_key_pressed : ℕ → Machine → Machine
unfolding kb_set_mod kb_get_mod key_typed
kb_key_pressed keycode w =
    if keycode == 0x80
    then kb_set_mod lshift true w
    else if keycode == 0x8b
    then kb_set_mod rshift true w
    else if keycode == 0xa0
    then kb_set_mod lctrl true w
    else if keycode == 0xa7
    then kb_set_mod rctrl true w
    else if keycode == 0xa2
    then kb_set_mod lalt true w
    else if keycode == 0xa4
    then kb_set_mod ralt true w
    else if keycode == 0x60
    then kb_set_mod caps (not (kb_get_mod caps w)) w
    else key_typed keycode w

pub kb_key_released : ℕ → Machine → Machine
unfolding kb_set_mod
kb_key_released keycode w =
    if keycode == 0x80
    then kb_set_mod lshift false w
    else if keycode == 0x8b
    then kb_set_mod rshift false w
    else if keycode == 0xa0
    then kb_set_mod lctrl false w
    else if keycode == 0xa7
    then kb_set_mod rctrl false w
    else if keycode == 0xa2
    then kb_set_mod lalt false w
    else if keycode == 0xa4
    then kb_set_mod ralt false w
    else w
