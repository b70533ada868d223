-- ===== src/Kernel/Ps2/Controller.antt =====
-- The keyboard controller: the polling loops, commands and the setup of
-- kernel/arch/i686/drivers/ps2_kb.c. Each loop that waits for the hardware takes fuel, and `none`
-- is that it still waits.
pub mod Replies
pub mod Waiting
mod Sending
mod Commands
mod Scancodes
pub mod Setup
mod Tests
use Prim.Native.Nat.{bit_and, bit_or}
use oldasternix.Prelude.{
  ◌>>=◌, ℕ, zero, suc, ◌+◌, ◌-◌, Bool, true, false, not, ◌||◌, Option, none, some, List, [], ◌∷◌,
  ◌==◌, ltb, if◌then◌else◌,
}
use oldasternix.Prelude.Text.{bytes_of}
use oldasternix.Prelude.Word.{u8}
use oldasternix.Kernel.Machine.{Machine}
use oldasternix.Kernel.Ports.{Bus, Hardware, outb, inb}
use oldasternix.Kernel.Ps2.State.{Ps2}
use oldasternix.Libc.Stdio.{say, Arg, word, printf}

abbrev pub ps2_kb_data : ℕ
ps2_kb_data = 0x60

abbrev pub ps2_kb_cmd : ℕ
ps2_kb_cmd = 0x64

abbrev pub ps2_kb_status : ℕ
ps2_kb_status = 0x64

abbrev pub output_buffer_status : ℕ
output_buffer_status = 1

abbrev pub input_buffer_status : ℕ
input_buffer_status = 2

abbrev pub enable_irq1 : ℕ
enable_irq1 = 1

abbrev pub enable_irq2 : ℕ
enable_irq2 = 2

abbrev pub translate : ℕ
translate = 64

abbrev pub getconfig : ℕ
getconfig = 0x20

abbrev pub setconfig : ℕ
setconfig = 0x60

abbrev pub disable2 : ℕ
disable2 = 0xa7

abbrev pub controller_self_test : ℕ
controller_self_test = 0xaa

abbrev pub disable1 : ℕ
disable1 = 0xad

abbrev pub enable1 : ℕ
enable1 = 0xae

abbrev pub controller_self_test_passed : ℕ
controller_self_test_passed = 0x55

abbrev pub setscancodeset : ℕ
setscancodeset = 0xf0

abbrev pub reset : ℕ
reset = 0xff

abbrev pub self_test_passed : ℕ
self_test_passed = 0xaa

abbrev pub ack : ℕ
ack = 0xfa

abbrev pub resend : ℕ
resend = 0xfe

module _ (hw : Hardware) where
  pub wait_out : ℕ → ℕ → ℕ → Bus → Option Bus
  wait_out zero port val bus = none
  wait_out (suc f) port val bus =
      let (status, bus) = inb hw ps2_kb_status bus in
      let rest = wait_out f port val bus in
      if bit_and status input_buffer_status == 0 then some (outb port val bus) else rest

  pub wait_in : ℕ → Bus → Option (ℕ × Bus)
  wait_in zero bus = none
  wait_in (suc f) bus =
      let (status, bus) = inb hw ps2_kb_status bus in
      let rest = wait_in f bus in
      if bit_and status output_buffer_status == 0 then rest else some (inb hw ps2_kb_data bus)

  -- The loop of `send_dev_command1`, with the rounds left; `fuel` is for the waits.
  pub send_loop : ℕ → ℕ → ℕ → Bus → Option (ℕ × Bus)
  unfolding wait_out wait_in
  send_loop zero fuel command bus = none
  send_loop (suc f) fuel command bus = do
    bus ← wait_out fuel ps2_kb_data command bus
    (status, bus) ← wait_in fuel bus
    elim (status == resend) [ true ↦ send_loop f fuel command bus | false ↦ some (status, bus) ]

  module _ (fuel : ℕ) where
    pub send_dev_command1 : ℕ → Bus → Option (ℕ × Bus)
    unfolding send_loop
    send_dev_command1 command bus = send_loop fuel fuel command bus

    pub send_dev_command2 : ℕ → ℕ → Machine → Option (ℕ × Machine)
    unfolding send_dev_command1
    send_dev_command2 command arg w = do
      (status, bus) ← send_dev_command1 command w.bus
      let w = record w { bus = bus }
      w ←
          if status == ack
          then some w
          else say (bytes_of "err: ps/2: first byte not ACKed: %02X %02X\n")
              (word command ∷ word arg ∷ []) w
      (status, bus) ← send_dev_command1 arg w.bus
      some (status, record w { bus = bus })

    pub cfg_set : ℕ → Bus → Option Bus
    unfolding wait_out wait_in
    cfg_set flag bus = do
      bus ← wait_out fuel ps2_kb_cmd getconfig bus
      (config, bus) ← wait_in fuel bus
      bus ← wait_out fuel ps2_kb_cmd setconfig bus
      wait_out fuel ps2_kb_data (bit_or config flag) bus

    pub cfg_clear : ℕ → Bus → Option Bus
    unfolding wait_out wait_in
    cfg_clear flag bus = do
      bus ← wait_out fuel ps2_kb_cmd getconfig bus
      (config, bus) ← wait_in fuel bus
      bus ← wait_out fuel ps2_kb_cmd setconfig bus
      wait_out fuel ps2_kb_data (bit_and config (255 - flag)) bus

    -- A command to the controller, and one whose answer is read.
    abbrev pub command : ℕ → Machine → Option Machine
    command c w = do bus ← wait_out fuel ps2_kb_cmd c w.bus; some (record w { bus = bus })

    abbrev pub answer : Machine → Option (ℕ × Machine)
    answer w = do (x, bus) ← wait_in fuel w.bus; some (x, record w { bus = bus })

    -- The parts of `controller_setup`: the result `false` returns from it.
    pub test_controller : Machine → Option (Bool × Machine)
    unfolding wait_out wait_in
    test_controller w = do
      w ← command controller_self_test w
      (response, w) ← answer w
      if response == controller_self_test_passed then some (true, w) else (do
        w ← say (bytes_of "err: ps/2: controller self test failed\n") [] w
        some (false, w))

    pub reset_devices : Machine → Option (Bool × Machine)
    unfolding send_dev_command1 wait_in
    reset_devices w = do
      (response, bus) ← send_dev_command1 reset w.bus
      let w = record w { bus = bus }
      if not (response == ack)
          then (do w ← say (bytes_of "warn: ps/2: unable to reset devices\n") [] w; some (true, w))
          else (do
            (result, w) ← answer w
            if result == self_test_passed then some (true, w) else (do
              w ← say (bytes_of "err: ps/2: device self test failed\n") [] w
              some (false, w)))

    pub choose_scancode_set : Ps2 → Option (Bool × Ps2)
    unfolding send_dev_command2 wait_in
    choose_scancode_set y = do
      (response, w) ← send_dev_command2 setscancodeset 3 y.machine
      w ←
          if response == ack
          then some w
          else say (bytes_of "warn: ps/2: unable to set scancode set\n") [] w
      (response, w) ← send_dev_command2 setscancodeset 0 w
      if not (response == ack)
          then (do
            w ← say (bytes_of "err: ps/2: failed to determine scancode set\n") [] w
            some (false, record y { machine = w }))
          else (do
            (set, w) ← answer w
            let y = record y { machine = w; scancode_set = set }
            if ltb set 1 || ltb 3 set
                then (do
                  w ←
                      say (bytes_of "err: ps/2: unknown scancode set: %d\n") (word set ∷ [])
                        y.machine
                  some (false, record y { machine = w }))
                else (do
                  w ← say (bytes_of "info: ps/2: using scancode set %d\n") (word set ∷ []) y.machine
                  some (true, record y { machine = w })))

    pub enable_keyboard : Machine → Option Machine
    unfolding cfg_set wait_out
    enable_keyboard w = do
      bus ← cfg_set enable_irq1 w.bus
      w ← command enable1 (record w { bus = bus })
      say (bytes_of "info: ps/2: setup successful\n") [] w

    pub controller_setup : Ps2 → Option (Bool × Ps2)
    unfolding test_controller cfg_clear reset_devices choose_scancode_set enable_keyboard
    controller_setup y = do
      (ok, w) ← test_controller y.machine
      if not ok then some (false, record y { machine = w }) else (do
        w ← command disable1 w
        w ← command disable2 w
        bus ← cfg_clear (bit_or (bit_or enable_irq1 enable_irq2) translate) w.bus
        (ok, w) ← reset_devices (record w { bus = bus })
        if not ok then some (false, record y { machine = w }) else (do
          (ok, y) ← choose_scancode_set (record y { machine = w })
          if not ok
              then some (false, y)
              else (do w ← enable_keyboard y.machine; some (true, record y { machine = w }))))
