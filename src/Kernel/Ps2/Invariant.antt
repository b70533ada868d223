-- ===== src/Kernel/Ps2/Invariant.antt =====
-- The interrupt handler of kernel/arch/i686/drivers/ps2_kb.c on any scancodes.
use oldasternix.Prelude.{
  ℕ, ◌≤◌, ◌<◌, ◌≡◌, refl, Bool, true, false, some, [], ◌∷◌, ◌==◌, if◌then◌else◌, arith, Ends,
  Ends-bind, Ends-if,
}
use oldasternix.Prelude.Text.{bytes_of}
use oldasternix.Kernel.Interrupts.{pic_eoi}
use oldasternix.Kernel.Keyboard.Modifiers.{modifiers-byte}
use oldasternix.Kernel.Keyboard.Queue.{Fits, Fits-keys}
use oldasternix.Kernel.Machine.{Machine}
use oldasternix.Kernel.Ports.{Bus, Hardware, wrote, inb, outb}
use oldasternix.Kernel.Ps2.{
  report, warn_unknown, in_sequence, receive, receive2, receive3, set_bus, ps2_key_pressed,
}
use oldasternix.Kernel.Ps2.Keycodes.{scs2_keycode, scs3_keycode}
use oldasternix.Libc.Stdio.Messages.{
  Said, say_pieces-Said, say_text-Said, hex_byte, hex_byte-IsPiece, newline-IsPiece,
}
use oldasternix.Kernel.Ps2.State.{Ps2}
use oldasternix.Libc.Stdio.Pieces.{literal}

-- The keyboard's and the console's state within their bounds.
pub record IsSane (w : Machine) : Type 0 where
  pub modifiers : w.modifiers < 256
  pub queue : Fits w
  pub cursor : w.cursor < 2000

-- The handler's own state: the plane is a row of the table, and at most two codes are left of the
-- Pause key's sequence.
pub record IsReady (y : Ps2) : Type 0 where
  pub machine : IsSane y.machine
  pub plane : y.scancode_plane ≤ 1
  pub ignore : y.ignore_next ≤ 2

Said-IsSane : (w w' : Machine) → IsSane w → Said w w' → IsSane w'
Said-IsSane w w' ok said = record {
  modifiers = omega (arith, said.modifiers, ok.modifiers);
  queue = omega (arith, said.queue_idx, ok.queue);
  cursor = said.cursor;
}

warn_unknown-IsSane :
    (scancode : ℕ) (w : Machine) → scancode < 256 → IsSane w → Ends (warn_unknown scancode w) IsSane
warn_unknown-IsSane scancode w h ok =
    let (w', e, said) =
      say_pieces-Said (bytes_of "warn: ps/2: unknown scancode: ")
        (hex_byte scancode ∷ literal 10 ∷ []) w refl
        (hex_byte-IsPiece scancode h, (newline-IsPiece, tt)) ok.cursor in
    (w', e, Said-IsSane w w' ok said)

report-IsSane :
    (release : Bool) (keycode : ℕ) (w : Machine) → IsSane w → IsSane (report release keycode w)
report-IsSane true keycode w ok =
    let fits = Fits-keys keycode w ok.queue in
    record {
      modifiers = (modifiers-byte keycode w ok.modifiers).1;
      queue = fits.1;
      cursor = omega (arith, fits.3, ok.cursor);
    }
report-IsSane false keycode w ok =
    let fits = Fits-keys keycode w ok.queue in
    record {
      modifiers = (modifiers-byte keycode w ok.modifiers).0;
      queue = fits.0;
      cursor = omega (arith, fits.2, ok.cursor);
    }

-- What a scancode does once its keycode is known.
known-Ends :
    (release : Bool) (keycode scancode : ℕ) (w : Machine)
    → scancode < 256
    → IsSane w
    → Ends
        (if keycode == 0xff
          then warn_unknown scancode w
          else if keycode == 0xfe
          then some w
          else some (report release keycode w))
        IsSane
known-Ends release keycode scancode w h ok =
    Ends-if (keycode == 0xff) (λ _. warn_unknown-IsSane scancode w h ok)
      (λ _.
        Ends-if (keycode == 0xfe) (λ _. (w, refl, ok))
          (λ _. (report release keycode w, refl, report-IsSane release keycode w ok)))

receive2-IsReady :
    (scancode : ℕ) (y : Ps2) → scancode < 256 → IsReady y → Ends (receive2 scancode y) IsReady
unfolding receive2
receive2-IsReady scancode y h ok =
    let keycode = scs2_keycode y.scancode_plane scancode in
    let (k, ignore) = in_sequence y.ignore_next keycode in
    let less : ignore ≤ 2 = unfold in_sequence in ground (arith, ok.ignore) in
    Ends-if (scancode == 0xf0)
      (λ _. (
        record y { release_next = true },
        refl,
        record { machine = ok.machine; plane = ok.plane; ignore = ok.ignore },
      ))
      (λ _.
        Ends-if (scancode == 0xe0)
          (λ _. (
            record y { scancode_plane = 1 },
            refl,
            record { machine = ok.machine; plane = omega arith; ignore = ok.ignore },
          ))
          (λ _.
            Ends-if (scancode == 0xe1)
              (λ _. (
                record y { ignore_next = 2 },
                refl,
                record { machine = ok.machine; plane = ok.plane; ignore = omega arith },
              ))
              (λ _.
                Ends-bind (known-Ends y.release_next k scancode y.machine h ok.machine) (λ w sane. (
                  record y {
                    machine = w;
                    ignore_next = ignore;
                    release_next = false;
                    scancode_plane = 0;
                  },
                  refl,
                  record { machine = sane; plane = omega arith; ignore = less },
                )))))

receive3-IsReady :
    (scancode : ℕ) (y : Ps2) → scancode < 256 → IsReady y → Ends (receive3 scancode y) IsReady
unfolding receive3
receive3-IsReady scancode y h ok =
    let keycode = scs3_keycode scancode in
    Ends-if (scancode == 0xf0)
      (λ _. (
        record y { release_next = true },
        refl,
        record { machine = ok.machine; plane = ok.plane; ignore = ok.ignore },
      ))
      (λ _.
        Ends-bind
          (Ends-if (keycode == 0xff) (λ _. warn_unknown-IsSane scancode y.machine h ok.machine)
            (λ _. (
              report y.release_next keycode y.machine,
              refl,
              report-IsSane y.release_next keycode y.machine ok.machine,
            )))
          (λ w sane. (
            record y { machine = w; release_next = false },
            refl,
            record { machine = sane; plane = ok.plane; ignore = ok.ignore },
          )))

receive-IsReady :
    (scancode : ℕ) (y : Ps2) → scancode < 256 → IsReady y → Ends (receive scancode y) IsReady
unfolding receive
receive-IsReady scancode y h ok =
    Ends-if (y.scancode_set == 3) (λ _. receive3-IsReady scancode y h ok)
      (λ _.
        Ends-if (y.scancode_set == 2) (λ _. receive2-IsReady scancode y h ok)
          (λ _.
            Ends-bind
              (say_text-Said (bytes_of "info: ps/2: scancode set not yet supported\n") y.machine
                refl ok.machine.cursor)
              (λ w said. (
                record y { machine = w },
                refl,
                record {
                  machine = Said-IsSane y.machine w ok.machine said;
                  plane = ok.plane;
                  ignore = ok.ignore;
                },
              ))))

set_bus-IsReady : (bus : Bus) (y : Ps2) → IsReady y → IsReady (set_bus bus y)
set_bus-IsReady bus y ok = record {
  machine = record {
    modifiers = ok.machine.modifiers;
    queue = ok.machine.queue;
    cursor = ok.machine.cursor;
  };
  plane = ok.plane;
  ignore = ok.ignore;
}

-- Whatever byte the hardware gives, the keyboard's interrupt handler runs to its end and keeps the
-- state within its bounds: the modifiers a byte, the queue within its array, the cursor on the
-- screen, the plane a row of the table, the codes left of a sequence at most two. Its last bus
-- event is the end of interrupt to the first controller.
pub ps2_key_pressed-IsReady :
    (hw : Hardware) (y : Ps2)
    → IsReady y
    → Ends
        (ps2_key_pressed hw y)
        (λ y'. IsReady y' × ((bus : Bus) × (y'.machine.bus ≡ wrote 0x20 0x20 ∷ bus)))
unfolding ps2_key_pressed pic_eoi outb
ps2_key_pressed-IsReady hw y ok =
    let (scancode, bus) = inb hw 0x60 y.machine.bus in
    let byte : scancode < 256 = unfold inb in omega arith in
    Ends-bind (receive-IsReady scancode (set_bus bus y) byte (set_bus-IsReady bus y ok)) (λ y' ok'.
      (
        set_bus (pic_eoi 1 y'.machine.bus) y',
        refl,
        (set_bus-IsReady (pic_eoi 1 y'.machine.bus) y' ok', (y'.machine.bus, refl)),
      ))
