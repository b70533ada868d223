-- ===== src/Kernel/Ps2.antt =====
-- The PS/2 keyboard driver, kernel/arch/i686/drivers/ps2_kb.c: the interrupt handler, which turns
-- scancodes into keys, and the setup.
pub mod State
pub mod Keycodes
pub mod Controller
pub mod Invariant
pub mod Decode
mod Tests
use oldasternix.Prelude.{
  ◌>>=◌, ℕ, ◌+◌, ◌-◌, Bool, true, false, not, ◌||◌, Option, none, some, List, [], ◌∷◌, ◌==◌,
  if◌then◌else◌,
}
use oldasternix.Prelude.Text.{bytes_of}
use oldasternix.Kernel.Interrupts.{irq_offset, set_isr, pic_clear_mask, pic_eoi}
use oldasternix.Kernel.Keyboard.{kb_key_pressed, kb_key_released}
use oldasternix.Kernel.Machine.{Machine}
use oldasternix.Kernel.Ports.{Bus, Hardware, inb}
use oldasternix.Kernel.Ps2.Controller.{ps2_kb_data, controller_setup}
use oldasternix.Kernel.Ps2.State.{Ps2}
use oldasternix.Libc.Stdio.{say, word}
use oldasternix.Kernel.Ps2.Keycodes.{scs2_keycode, scs3_keycode}

abbrev pub irq1_keyboard_data_ready : ℕ
irq1_keyboard_data_ready = 1

abbrev pub report : Bool → ℕ → Machine → Machine
report release keycode w = if release then kb_key_released keycode w else kb_key_pressed keycode w

abbrev pub warn_unknown : ℕ → Machine → Option Machine
warn_unknown scancode w =
    say (bytes_of "warn: ps/2: unknown scancode: %02X\n") (word scancode ∷ []) w

-- The `case 3` of the handler.
pub receive3 : ℕ → Ps2 → Option Ps2
receive3 scancode y = if scancode == 0xf0 then some (record y { release_next = true }) else (do
  let keycode = scs3_keycode scancode
  w ←
      if keycode == 0xff
      then warn_unknown scancode y.machine
      else some (report y.release_next keycode y.machine)
  some (record y { machine = w; release_next = false }))

-- The keycode of a scancode within or outside the sequence of the Pause key, and `ignore_next`.
pub in_sequence : ℕ → ℕ → ℕ × ℕ
in_sequence ignore_next keycode =
    if ignore_next == 0
    then (keycode, 0)
    else if ignore_next - 1 == 0
    then (0x0f, 0)
    else (0xfe, ignore_next - 1)

-- The `case 2` of the handler.
pub receive2 : ℕ → Ps2 → Option Ps2
unfolding in_sequence
receive2 scancode y =
    if scancode == 0xf0
    then some (record y { release_next = true })
    else if scancode == 0xe0
    then some (record y { scancode_plane = 1 })
    else if scancode == 0xe1
    then some (record y { ignore_next = 2 })
    else (do
      let (keycode, ignore) = in_sequence y.ignore_next (scs2_keycode y.scancode_plane scancode)
      w ←
          if keycode == 0xff
          then warn_unknown scancode y.machine
          else if keycode == 0xfe
          then some y.machine
          else some (report y.release_next keycode y.machine)
      some (record y {
        machine = w;
        ignore_next = ignore;
        release_next = false;
        scancode_plane = 0;
      }))

pub receive : ℕ → Ps2 → Option Ps2
unfolding receive2 receive3
receive scancode y =
    if y.scancode_set == 3
    then receive3 scancode y
    else if y.scancode_set == 2
    then receive2 scancode y
    else (do
      w ← say (bytes_of "info: ps/2: scancode set not yet supported\n") [] y.machine
      some (record y { machine = w }))

abbrev pub set_bus : Bus → Ps2 → Ps2
set_bus bus y = record y { machine = record (y.machine) { bus = bus } }

pub ps2_key_pressed : Hardware → Ps2 → Option Ps2
unfolding receive
ps2_key_pressed hw y =
    let (scancode, bus) = inb hw ps2_kb_data y.machine.bus in
    do
      y ← receive scancode (set_bus bus y)
      some (set_bus (pic_eoi irq1_keyboard_data_ready y.machine.bus) y)

-- `stub` is the address of the handler's entry in interrupts.s.
pub ps2_kb_driversetup : ℕ → Hardware → ℕ → Ps2 → Option Ps2
ps2_kb_driversetup fuel hw stub y = do
  (ok, y) ← controller_setup hw fuel y
  if not ok
      then (do
        w ← say (bytes_of "FATAL: ps/2: keyboard will not be available\n") [] y.machine
        some (record y { machine = w }))
      else (let y = record y {
        interrupts = set_isr (irq_offset + irq1_keyboard_data_ready) stub y.interrupts;
      } in
          some (set_bus (pic_clear_mask hw irq1_keyboard_data_ready y.machine.bus) y))
