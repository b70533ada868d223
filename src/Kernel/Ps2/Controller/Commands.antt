-- ===== src/Kernel/Ps2/Controller/Commands.antt =====
-- That the commands of kernel/arch/i686/drivers/ps2_kb.c end, and keep the cursor on the screen.
use Prim.Native.Nat.{bit_and, bit_or}
use oldasternix.Prelude.{
  ◌-◌, ℕ, ◌<◌, ◌≡◌, refl, sym, ap, ◌∙◌, true, false, List, [], ◌∷◌, ◌++◌, ◌==◌, arith, Ends,
  Ends-bind, Ends-if, inr,
}
use oldasternix.Prelude.Text.{bytes_of}
use oldasternix.Kernel.Machine.{Machine}
use oldasternix.Kernel.Ports.{Bus, Hardware, read, outb}
use oldasternix.Kernel.Ps2.Controller.{
  ps2_kb_data, ps2_kb_cmd, send_dev_command2, cfg_set, cfg_clear, command, answer, ack, getconfig,
  setconfig, setscancodeset, reset,
}
use oldasternix.Kernel.Ps2.Controller.Replies.{
  keys, keys-off_screen, awaits_config, last_command, awaited, owes,
}
use oldasternix.Kernel.Ps2.Controller.Waiting.{Prompt, Patient, wait_out-Ends, wait_in-Ends}
use oldasternix.Kernel.Ps2.Controller.Sending.{Sent, send_dev_command1-Ends}
use oldasternix.Libc.Stdio.Messages.{
  Said, plain, say_pieces-Said, say_text-Said, hex_byte, hex_byte-IsPiece, space-IsPiece,
  newline-IsPiece,
}
use oldasternix.Libc.Stdio.{say, word}
use oldasternix.Libc.Stdio.Pieces.{literal, signed}

abbrev pub On : Machine → Type 0
On w = w.cursor < 2000

-- Nothing is said to the keyboard.
abbrev pub Keeps : Machine → Machine → Type 0
Keeps w w' = On w' × (keys w'.bus ≡ keys w.bus)

Said-Keeps : (w w' : Machine) → Said w w' → Keeps w w'
Said-Keeps w w' said =
    (said.cursor, sym (keys-off_screen w'.bus) ∙ ap keys said.bus ∙ keys-off_screen w.bus)

pub say_text-Keeps :
    (s : List ℕ) (w : Machine) → plain s ≡ true → On w → Ends (say s [] w) (Keeps w)
say_text-Keeps s w h on =
    let (w', e, said) = say_text-Said s w h on in (w', e, Said-Keeps w w' said)

say-not_acked-Keeps :
    (c arg : ℕ) (w : Machine)
    → c < 256
    → arg < 256
    → On w
    → Ends
        (say (bytes_of "err: ps/2: first byte not ACKed: %02X %02X\n") (word c ∷ word arg ∷ []) w)
        (Keeps w)
say-not_acked-Keeps c arg w hc ha on =
    let (w', e, said) =
      say_pieces-Said (bytes_of "err: ps/2: first byte not ACKed: ")
        (hex_byte c ∷ literal b' ' ∷ hex_byte arg ∷ literal 10 ∷ []) w refl
        (hex_byte-IsPiece c hc, (space-IsPiece, (hex_byte-IsPiece arg ha, (newline-IsPiece, tt))))
        on in
    (w', e, Said-Keeps w w' said)

-- A message that ends in a number.
pub say_number-On :
    (s : List ℕ) (x : ℕ) (w : Machine)
    → plain s ≡ true
    → x < 256
    → On w
    → Ends (say (s ++ bytes_of "%d\n") (word x ∷ []) w) On
say_number-On s x w h small on =
    let (w', e, said) =
      say_pieces-Said s (signed (record { zeros = false; width = [] }) x ∷ literal 10 ∷ []) w h
        (((tt, omega arith, inr tt), omega arith), (newline-IsPiece, tt)) on in
    (w', e, said.cursor)

-- The controller is prompt, and the device asks for fewer repeats than the fuel allows.
module _ (hw : Hardware) (fuel n : ℕ) (prompt : Prompt hw fuel) (patient : Patient hw n)
    (enough : n < fuel) where
  pub command-On :
      (c : ℕ) (w : Machine)
      → On w
      → Ends (command hw fuel c w) (λ w'. On w' × (keys w'.bus ≡ keys (outb ps2_kb_cmd c w.bus)))
  command-On c w on =
      Ends-bind (wait_out-Ends hw fuel ps2_kb_cmd c w.bus prompt)
        (λ bus (_, told). (record w { bus = bus }, refl, (on, told)))

  pub answer-With :
      (w : Machine)
      → On w
      → owes w.bus ≡ true
      → Ends
          (answer hw fuel w)
          (λ r. (r.0 < 256) × On r.1 × (keys r.1.bus ≡ read ps2_kb_data r.0 ∷ keys w.bus))
  answer-With w on owed =
      Ends-bind (wait_in-Ends hw fuel w.bus prompt owed) (λ r (b, value, events, kept, heard).
        ((r.0, record w { bus = r.1 }), refl, (omega (arith, value), on, heard)))

  -- Behind the acknowledgement of a reset, or of the argument 0 of the query, a byte is owed.
  pub owes-reset : (bus : Bus) (r : ℕ × Bus) → Sent hw reset bus r → r.0 ≡ ack → owes r.1 ≡ true
  unfolding owes
  owes-reset bus r s acked = rw (s.event, acked, s.calm) refl

  pub owes-query :
      (bus : Bus) (r : ℕ × Bus)
      → Sent hw 0 bus r
      → last_command (keys bus) ≡ setscancodeset
      → r.0 ≡ ack
      → owes r.1 ≡ true
  unfolding owes
  owes-query bus r s asked acked =
      let last : last_command s.before ≡ setscancodeset =
        sym (ap last_command s.event) ∙ s.command ∙ asked in
      rw (s.event, acked, s.calm, last) refl

  -- What is known when the keyboard has answered both bytes.
  abbrev pub SentBoth : ℕ → ℕ → ℕ × Machine → Type 0
  SentBoth c arg r =
      On r.1 × ((b : Bus) × (last_command (keys b) ≡ c) × Sent hw arg b (r.0, r.1.bus))

  pub send_dev_command2-SentBoth :
      (c arg : ℕ) (w : Machine)
      → c < 256
      → arg < 256
      → (c == 0) ≡ false
      → awaits_config (keys w.bus) ≡ false
      → On w
      → Ends (send_dev_command2 hw fuel c arg w) (SentBoth c arg)
  unfolding send_dev_command2
  send_dev_command2-SentBoth c arg w hc ha real calm on =
      Ends-bind (send_dev_command1-Ends hw fuel n c w.bus prompt patient enough hc calm) (λ r s.
        let w1 = record w { bus = r.1 } in
        let last : last_command (keys r.1) ≡ c = s.command ∙ rw real refl in
        Ends-bind {P = Keeps w1}
          (Ends-if (r.0 == ack) (λ _. (w1, refl, (on, refl)))
            (λ _. say-not_acked-Keeps c arg w1 hc ha on))
          (λ w2 (on2, same).
            Ends-bind
              (send_dev_command1-Ends hw fuel n arg w2.bus prompt patient enough ha
                (ap awaits_config (same ∙ s.event)))
              (λ r' s'. (
                (r'.0, record w2 { bus = r'.1 }),
                refl,
                (on2, (w2.bus, ap last_command same ∙ last, s')),
              ))))

  -- The configuration is asked for, answered and written.
  pub cfg_clear-Ends :
      (flag : ℕ) (bus : Bus)
      → Ends (cfg_clear hw fuel flag bus) (λ b. awaits_config (keys b) ≡ false)
  unfolding cfg_clear owes keys outb
  cfg_clear-Ends flag bus =
      Ends-bind (wait_out-Ends hw fuel ps2_kb_cmd getconfig bus prompt) (λ bus1 (_, told).
        Ends-bind (wait_in-Ends hw fuel bus1 prompt (ap awaited told)) (λ r _.
          Ends-bind (wait_out-Ends hw fuel ps2_kb_cmd setconfig r.1 prompt) (λ bus2 _.
            let (b, e, (_, told')) =
              wait_out-Ends hw fuel ps2_kb_data (bit_and r.0 (255 - flag)) bus2 prompt in
            (b, e, ap awaits_config told'))))

  pub cfg_set-Ends : (flag : ℕ) (bus : Bus) → Ends (cfg_set hw fuel flag bus) (λ _. Unit {0})
  unfolding cfg_set owes keys outb
  cfg_set-Ends flag bus =
      Ends-bind (wait_out-Ends hw fuel ps2_kb_cmd getconfig bus prompt) (λ bus1 (_, told).
        Ends-bind (wait_in-Ends hw fuel bus1 prompt (ap awaited told)) (λ r _.
          Ends-bind (wait_out-Ends hw fuel ps2_kb_cmd setconfig r.1 prompt) (λ bus2 _.
            let (b, e, _) = wait_out-Ends hw fuel ps2_kb_data (bit_or r.0 flag) bus2 prompt in
            (b, e, tt))))
