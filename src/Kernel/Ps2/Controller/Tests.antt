-- ===== src/Kernel/Ps2/Controller/Tests.antt =====
-- The theorems on the keyboard controller at concrete hardware.
use Prim.Native.Nat.{bit_and}
use oldasternix.Prelude.{
  Bool, Option, ◌>>=◌, ℕ, suc, ◌≡◌, ◌≢◌, refl, true, false, Option, some, none, [], ◌∷◌, ◌==◌,
  if◌then◌else◌, arith, Ends,
}
use oldasternix.Prelude.Word.{u8}
use oldasternix.Kernel.Interrupts.{Interrupts, base_entry}
use oldasternix.Kernel.Machine.{Machine, at_boot}
use oldasternix.Kernel.Ports.{Hardware, Bus, wrote, read, inb, outb}
use oldasternix.Kernel.Ps2.{ps2_kb_driversetup}
use oldasternix.Kernel.Ps2.Controller.{test_controller, wait_out}
use oldasternix.Kernel.Ps2.Controller.Replies.{owes, keys}
use oldasternix.Kernel.Ps2.Controller.Setup.{Installed, ps2_kb_driversetup-Installed}
use oldasternix.Kernel.Ps2.Controller.Waiting.{polls, Prompt, Patient, wait_out-polls}
use oldasternix.Kernel.Ps2.Decode.{idle}
use oldasternix.Kernel.Ps2.State.{Ps2}

abbrev start : Machine
start = at_boot (λ a. 65) 10_000 753_664

abbrev table : Interrupts
table = record { idt = λ _. base_entry; idtr_size = 0; idtr_base = 0; loaded = none }

-- A controller that is ready at every second poll; the device answers each byte with an
-- acknowledgement.
abbrev answers_ack : Hardware
answers_ack [] port = 0
answers_ack (wrote p v ∷ bus) port = if port == 0x60 then 0xfa else 0
answers_ack (read p v ∷ bus) port = if port == 0x60 then 0xfa else 1

wait_out-polls_example :
    wait_out answers_ack 5 0x60 0xff [] ≡ some (outb 0x60 0xff (polls answers_ack 1 []))
wait_out-polls_example =
    wait_out-polls answers_ack 5 0 0x60 0xff [] ((λ i l. absurd (omega arith)), refl)

-- A keyboard that supports scancode set 2: what was last written to it, and how many bytes it has
-- answered since.
abbrev last : Bus → ℕ × ℕ
last [] = (0, 0)
last (wrote p v ∷ bus) = (v, 0)
last (read p v ∷ bus) = let (w, k) = last bus in (w, if p == 0x60 then suc k else k)

abbrev reply : ℕ → ℕ → ℕ
reply v k = if v == 0xaa then 0x55 else if k == 0 then 0xfa else if v == 0xff then 0xaa else 2

-- The controller has a byte to give when one is owed, and at no other time.
abbrev keyboard : Hardware
keyboard bus port =
    if port == 0x64 then (if owes bus then 1 else 0) else reply (last bus).0 (last bus).1

keyboard-Prompt : Prompt keyboard 3
keyboard-Prompt bus = (
  (0, omega arith, ((λ i l. absurd (omega arith)), empty (owes bus))),
  λ owed. (0, omega arith, ((λ i l. absurd (omega arith)), rw owed refl)),
)
  where
    empty : (b : Bool) → (bit_and (u8 (if b then 1 else 0)) 2 == 0) ≡ true
    empty true = refl
    empty false = refl

reply-other : (v k : ℕ) → u8 (reply v k) ≢ 0xfe
reply-other v k = ground arith

keyboard-Patient : Patient keyboard 1
keyboard-Patient bus e = absurd (reply-other (last bus).0 (last bus).1 e)

abbrev driver : Ps2
driver = idle 0 start table

abbrev passed : Bool × Machine → Option Bool
passed (ok, w) = some ok

-- The controller of this keyboard passes its self test.
self_test_passes : (test_controller keyboard 3 start >>= passed) ≡ some true
unfolding test_controller inb outb owes keys
self_test_passes = refl

ps2_kb_driversetup-Installed_example :
    Ends (ps2_kb_driversetup 3 keyboard 0xc0101234 driver) (Installed keyboard 3 0xc0101234 driver)
ps2_kb_driversetup-Installed_example =
    ps2_kb_driversetup-Installed keyboard 3 1 keyboard-Prompt keyboard-Patient (omega arith)
      0xc0101234 driver (omega arith)
