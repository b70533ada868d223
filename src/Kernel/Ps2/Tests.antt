-- ===== src/Kernel/Ps2/Tests.antt =====
-- The theorems on the PS/2 keyboard driver at concrete scancodes and hardware.
use oldasternix.Prelude.{
  ◌≡◌, true, false, some, none, List, [], ◌∷◌, ◌==◌, if◌then◌else◌, arith, Ends,
}
use oldasternix.Kernel.Interrupts.{Interrupts, base_entry}
use oldasternix.Kernel.Machine.{Machine, at_boot}
use oldasternix.Kernel.Ports.{Hardware, Bus, wrote, read}
use oldasternix.Kernel.Ps2.{ps2_key_pressed}
use oldasternix.Kernel.Ps2.Decode.{
  Stroke, plain, extended, pause, codes2_all, idle, perform, AllKnown, receive_all,
  receive_all-perform, Stroke3, AllKnown3, perform3, receive_all-perform3,
}
use oldasternix.Kernel.Ps2.Invariant.{IsReady, ps2_key_pressed-IsReady}
use oldasternix.Kernel.Ps2.Keycodes.{
  scs2_keycode, plain_codes, extended_codes, scs3_keycode, scs3_keycodes,
}

abbrev start : Machine
start = at_boot (λ a. 65) 10_000 753_664

abbrev table : Interrupts
table = record { idt = λ _. base_entry; idtr_size = 0; idtr_base = 0; loaded = none }

-- A controller that is ready at every second poll; the device answers each byte with an
-- acknowledgement.
abbrev answers_ack : Hardware
answers_ack [] port = 0
answers_ack (wrote p v ∷ bus) port = if port == 0x60 then 0xfa else 0
answers_ack (read p v ∷ bus) port = if port == 0x60 then 0xfa else 1

ps2_key_pressed-IsReady_example :
    Ends
      (ps2_key_pressed answers_ack (idle 2 start table))
      (λ y'. IsReady y' × ((bus : Bus) × (y'.machine.bus ≡ wrote 0x20 0x20 ∷ bus)))
ps2_key_pressed-IsReady_example = ps2_key_pressed-IsReady answers_ack (idle 2 start table) (record {
  machine = record { modifiers = omega arith; queue = omega arith; cursor = omega arith };
  plane = omega arith;
  ignore = omega arith;
})

-- Shift and A, then the left Windows key, then Pause.
abbrev strokes : List Stroke
strokes =
    record { key = plain 0x12; up = false }
    ∷ record { key = plain 0x1c; up = false }
    ∷ record { key = plain 0x1c; up = true }
    ∷ record { key = plain 0x12; up = true }
    ∷ record { key = extended 0x1f; up = false }
    ∷ record { key = extended 0x1f; up = true }
    ∷ record { key = pause; up = false }
    ∷ record { key = pause; up = true }
    ∷ []

strokes-AllKnown : AllKnown strokes
unfolding scs2_keycode plain_codes extended_codes
strokes-AllKnown = (
  (omega arith, omega arith),
  (
    (omega arith, omega arith),
    (
      (omega arith, omega arith),
      (
        (omega arith, omega arith),
        (
          (omega arith, omega arith),
          (
            (omega arith, omega arith),
            ((omega arith, omega arith), ((omega arith, omega arith), tt)),
          ),
        ),
      ),
    ),
  ),
)

receive_all-perform_example :
    receive_all (codes2_all strokes) (idle 2 start table)
    ≡ some (idle 2 (perform strokes start) table)
receive_all-perform_example = receive_all-perform strokes start table strokes-AllKnown

-- Shift and A in scancode set 3.
abbrev strokes3 : List Stroke3
strokes3 =
    record { code = 0x12; up = false }
    ∷ record { code = 0x1c; up = false }
    ∷ record { code = 0x1c; up = true }
    ∷ []

strokes3-AllKnown : AllKnown3 strokes3
unfolding scs3_keycode scs3_keycodes
strokes3-AllKnown = (omega arith, (omega arith, (omega arith, tt)))

receive_all-perform3_example :
    receive_all (0x12 ∷ 0x1c ∷ 0xf0 ∷ 0x1c ∷ []) (idle 3 start table)
    ≡ some (idle 3 (perform3 strokes3 start) table)
receive_all-perform3_example = receive_all-perform3 strokes3 start table strokes3-AllKnown
