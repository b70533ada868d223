-- ===== src/Kernel/Ps2/Controller/Setup.antt =====
-- That the setup of kernel/arch/i686/drivers/ps2_kb.c ends, and with what.
use Prim.Native.Nat.{bit_or}
use oldasternix.Prelude.{
  ℕ, ◌≤◌, ◌<◌, ◌≡◌, refl, Bool, true, false, not, some, ◌==◌, if◌then◌else◌, arith, Ends, Ends-bind,
  Ends-if, ◌>>=◌, ◌⊎◌, inl, inr, ap, ◌∙◌,
}
use oldasternix.Prelude.Text.{bytes_of}
use oldasternix.Kernel.Interrupts.{set_isr, pic_clear_mask}
use oldasternix.Kernel.Machine.{Machine}
use oldasternix.Kernel.Ports.{Hardware, outb}
use oldasternix.Kernel.Ps2.{set_bus, ps2_kb_driversetup}
use oldasternix.Kernel.Ps2.Controller.{
  test_controller, reset_devices, choose_scancode_set, enable_keyboard, controller_setup, reset,
  ack, controller_self_test, controller_self_test_passed, self_test_passed, enable_irq1,
  enable_irq2, translate, disable1, disable2, enable1,
}
use oldasternix.Kernel.Ps2.Controller.Replies.{keys, awaits_config, awaited, owes}
use oldasternix.Kernel.Ps2.Controller.Waiting.{Prompt, Patient}
use oldasternix.Kernel.Ps2.Controller.Sending.{send_dev_command1-Ends}
use oldasternix.Kernel.Ps2.Controller.Scancodes.{Calm, Chosen, choose_scancode_set-Chosen}
use oldasternix.Kernel.Ps2.State.{Ps2}
use oldasternix.Kernel.Ps2.Controller.Commands.{
  On, say_text-Keeps, command-On, answer-With, owes-reset, cfg_clear-Ends, cfg_set-Ends,
}

-- How the setup ends: with the handler in the interrupt table, its line unmasked and a scancode
-- set from 1 to 3, or, when `controller_setup` failed, without a change to the table.
abbrev pub Installed : Hardware → ℕ → ℕ → Ps2 → Ps2 → Type 0
Installed hw fuel stub y y' =
    (y'.machine.cursor < 2000)
    × ((y1 : Ps2) × (((controller_setup hw fuel y ≡ some (true, y1))
            × (y'.interrupts ≡ set_isr 0x21 stub y.interrupts)
            × (y'.machine.bus ≡ pic_clear_mask hw 1 y1.machine.bus)
            × (1 ≤ y'.scancode_set)
            × (y'.scancode_set ≤ 3))
          ⊎ ((controller_setup hw fuel y ≡ some (false, y1)) × (y'.interrupts ≡ y.interrupts))))

module _ (hw : Hardware) (fuel n : ℕ) (prompt : Prompt hw fuel) (patient : Patient hw n)
    (enough : n < fuel) where
  test_controller-On : (w : Machine) → On w → Ends (test_controller hw fuel w) (λ r. On r.1)
  unfolding test_controller owes keys outb
  test_controller-On w on =
      Ends-bind (command-On hw fuel n prompt patient enough controller_self_test w on)
        (λ w1 (on1, told).
          Ends-bind (answer-With hw fuel n prompt patient enough w1 on1 (ap awaited told))
            (λ r (_, on2, _).
              Ends-if (r.0 == controller_self_test_passed) (λ _. ((true, r.1), refl, on2))
                (λ _.
                  Ends-bind
                    (say_text-Keeps (bytes_of "err: ps/2: controller self test failed\n") r.1 refl
                      on2)
                    (λ w3 (on3, _). ((false, w3), refl, on3)))))

  reset_devices-Calm : (w : Machine) → Calm w → Ends (reset_devices hw fuel w) (λ r. Calm r.1)
  unfolding reset_devices
  reset_devices-Calm w (on, calm) =
      Ends-bind
        (send_dev_command1-Ends hw fuel n reset w.bus prompt patient enough (omega arith) calm)
        (λ r s.
          let w1 = record w { bus = r.1 } in
          Ends-if (not (r.0 == ack))
            (λ _.
              Ends-bind
                (say_text-Keeps (bytes_of "warn: ps/2: unable to reset devices\n") w1 refl on)
                (λ w2 (on2, same). ((true, w2), refl, (on2, ap awaits_config (same ∙ s.event)))))
            (λ acked.
              Ends-bind
                (answer-With hw fuel n prompt patient enough w1 on
                  (owes-reset hw fuel n prompt patient enough w.bus r s (ground (arith, acked))))
                (λ r' (_, on2, heard).
                  Ends-if (r'.0 == self_test_passed)
                    (λ _. ((true, r'.1), refl, (on2, ap awaits_config heard)))
                    (λ _.
                      Ends-bind
                        (say_text-Keeps (bytes_of "err: ps/2: device self test failed\n") r'.1 refl
                          on2)
                        (λ w3 (on3, same).
                          ((false, w3), refl, (on3, ap awaits_config (same ∙ heard))))))))

  enable_keyboard-On : (w : Machine) → On w → Ends (enable_keyboard hw fuel w) On
  unfolding enable_keyboard
  enable_keyboard-On w on =
      Ends-bind (cfg_set-Ends hw fuel n prompt patient enough enable_irq1 w.bus) (λ bus _.
        Ends-bind (command-On hw fuel n prompt patient enough enable1 (record w { bus = bus }) on)
          (λ w1 (on1, _).
            let (w2, e, (on2, _)) =
              say_text-Keeps (bytes_of "info: ps/2: setup successful\n") w1 refl on1 in
            (w2, e, on2)))

  -- The part of `controller_setup` behind its first command to clear flags.
  devices :
      (y : Ps2) (w : Machine)
      → Calm w
      → Ends
          (do
            (ok, w') ← reset_devices hw fuel w
            if not ok then some (false, record y { machine = w' }) else (do
              (ok, y) ← choose_scancode_set hw fuel (record y { machine = w' })
              if not ok then some (false, y) else (do
                w ← enable_keyboard hw fuel y.machine
                some (true, record y { machine = w }))))
          (Chosen y)
  devices y w on = Ends-bind (reset_devices-Calm w on) (λ r on1.
      Ends-if (not r.0)
        (λ _. ((false, record y { machine = r.1 }), refl, (on1.0, refl, λ e. ground (arith, e))))
        (λ _.
          Ends-bind
            (choose_scancode_set-Chosen hw fuel n prompt patient enough (record y { machine = r.1 })
              on1)
            (λ r' (on2, same, known).
              Ends-if (not r'.0)
                (λ failed. ((false, r'.1), refl, (on2, same, λ e. ground (arith, e))))
                (λ passed. Ends-bind (enable_keyboard-On r'.1.machine on2) (λ w3 on3. (
                  (true, record (r'.1) { machine = w3 }),
                  refl,
                  (on3, same, λ _. known (ground (arith, passed))),
                ))))))

  controller_setup-Chosen : (y : Ps2) → On y.machine → Ends (controller_setup hw fuel y) (Chosen y)
  unfolding controller_setup
  controller_setup-Chosen y on = Ends-bind (test_controller-On y.machine on) (λ r on1.
      Ends-if (not r.0)
        (λ _. ((false, record y { machine = r.1 }), refl, (on1, refl, λ e. ground (arith, e))))
        (λ _.
          Ends-bind (command-On hw fuel n prompt patient enough disable1 r.1 on1) (λ w2 (on2, _).
            Ends-bind (command-On hw fuel n prompt patient enough disable2 w2 on2) (λ w3 (on3, _).
              Ends-bind
                (cfg_clear-Ends hw fuel n prompt patient enough
                  (bit_or (bit_or enable_irq1 enable_irq2) translate) w3.bus)
                (λ bus calm. devices y (record w3 { bus = bus }) (on3, calm))))))

  install :
      (stub : ℕ) (y : Ps2) (ok : Bool) (y1 : Ps2)
      → controller_setup hw fuel y ≡ some (ok, y1)
      → Chosen y (ok, y1)
      → Ends (ps2_kb_driversetup fuel hw stub y) (Installed hw fuel stub y)
  unfolding ps2_kb_driversetup
  install stub y true y1 e (on, same, known) =
      let y2 = record y1 { interrupts = set_isr 0x21 stub (y1.interrupts) } in
      (
        set_bus (pic_clear_mask hw 1 y2.machine.bus) y2,
        rw e,
        (on, (y1, inl (e, ap (set_isr 0x21 stub) same, refl, (known refl).0, (known refl).1))),
      )
  install stub y false y1 e (on, same, known) =
      let (w, e', (on', _)) =
        say_text-Keeps (bytes_of "FATAL: ps/2: keyboard will not be available\n") y1.machine refl
          on in
      (record y1 { machine = w }, rw (e, e'), (on', (y1, inr (e, same))))

  -- The setup of the driver ends. The controller takes a byte within fewer polls than the fuel;
  -- where it owes a byte, it gives one within as many; the device asks for repeats fewer times than
  -- the fuel. A byte is owed behind the controller's commands for its configuration and its self
  -- test, behind a byte to the keyboard, and behind the acknowledgement of a reset or of the query
  -- for the scancode set. Then either the handler stands at entry 0x21 of the interrupt table, the
  -- keyboard's line was unmasked last and the scancode set is from 1 to 3, or `controller_setup`
  -- failed and the interrupt table is as before. The cursor is on the screen, before and after.
  pub ps2_kb_driversetup-Installed :
      (stub : ℕ) (y : Ps2)
      → y.machine.cursor < 2000
      → Ends (ps2_kb_driversetup fuel hw stub y) (Installed hw fuel stub y)
  ps2_kb_driversetup-Installed stub y on =
      let (r, e, chosen) = controller_setup-Chosen y on in install stub y r.0 r.1 e chosen
