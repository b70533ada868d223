-- ===== src/Kernel/Keyboard/Tests.antt =====
-- The theorems on the keyboard at concrete machines.
use oldasternix.Prelude.{
  ◌≤◌, ◌≡◌, refl, inl, [], ◌∷◌, ◌++◌, leb, take, drop, min, if◌then◌else◌, arith,
}
use oldasternix.Prelude.Int.{pos}
use oldasternix.Libc.Memory.{Memory, bytes}
use oldasternix.Kernel.Machine.{Machine, at_boot}
use oldasternix.Kernel.Keyboard.{queue_len, kb_key_pressed, vconsole_read, enqueue}
use oldasternix.Kernel.Keyboard.Keymap.{keycode_to_char}
use oldasternix.Kernel.Keyboard.Queue.{contents, Fits, vconsole_read-take, enqueue-append}

abbrev zeros : Memory
zeros a = 0

-- Shift held, then the key at keycode 0x63 twice.
abbrev typed : Machine
typed = kb_key_pressed 0x63 (kb_key_pressed 0x63 (kb_key_pressed 0x80 (at_boot zeros 1000 5000)))

typed_idx : typed.queue_idx ≡ 2
unfolding kb_key_pressed keycode_to_char
typed_idx = refl

typed-Fits : typed.queue_idx ≤ queue_len
typed-Fits = omega (arith, typed_idx)

vconsole_read-take_example :
    let (r, w') = vconsole_read 100 1 typed in
    let k = min 1 typed.queue_idx in
    (r ≡ pos k)
    × (bytes w'.memory 100 k ≡ take 1 (contents typed))
    × (contents w' ≡ drop 1 (contents typed))
    × Fits w'
unfolding kb_key_pressed keycode_to_char
vconsole_read-take_example =
    vconsole_read-take 100 1 typed typed-Fits (omega arith) (inl (omega arith))

enqueue-append_example :
    (contents (enqueue 97 typed)
      ≡ (if leb queue_len typed.queue_idx then drop 1 (contents typed) else contents typed)
        ++ 97 ∷ [])
    × Fits (enqueue 97 typed)
enqueue-append_example = enqueue-append 97 typed typed-Fits
