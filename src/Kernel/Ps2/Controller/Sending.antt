-- ===== src/Kernel/Ps2/Controller/Sending.antt =====
-- Bytes to the keyboard and its answers: `send_dev_command1` of
-- kernel/arch/i686/drivers/ps2_kb.c.
use oldasternix.Prelude.{
  ℕ, zero, suc, ◌<◌, ◌≡◌, refl, true, false, ◌∷◌, ◌==◌, arith, ◌+◌, inl, inr, sym, ap, ◌∙◌,
  Bool-cases, Ends, Ends-bind,
}
use oldasternix.Prelude.Word.{u8}
use oldasternix.Kernel.Ports.{Bus, Hardware, wrote, read, outb}
use oldasternix.Kernel.Ps2.Controller.{ps2_kb_data, resend, send_loop, send_dev_command1}
use oldasternix.Kernel.Ps2.Controller.Replies.{keys, awaits_config, last_command, latest, owes}
use oldasternix.Kernel.Ps2.Controller.Waiting.{
  Prompt, Patient, resends, wait_out-Ends, wait_in-Ends,
}

module _ (hw : Hardware) where
  -- What is known when the keyboard has answered the byte `c`.
  pub record Sent (c : ℕ) (bus : Bus) (r : ℕ × Bus) : Type 0 where
    pub value : r.0 < 256
    pub before : Bus
    pub event : keys r.1 ≡ read ps2_kb_data r.0 ∷ wrote ps2_kb_data c ∷ before
    pub calm : awaits_config before ≡ false
    pub command : last_command (keys r.1) ≡ latest c (last_command (keys bus))

  -- One round of the loop: the byte is written, and an answer is owed.
  keys-outb :
      (c : ℕ) (bus : Bus) → c < 256 → keys (outb ps2_kb_data c bus) ≡ wrote ps2_kb_data c ∷ keys bus
  unfolding outb keys
  keys-outb c bus small = let byte : u8 c ≡ c = omega arith in rw byte refl

  owes-wrote :
      (c : ℕ) (bus bus1 : Bus)
      → keys bus1 ≡ wrote ps2_kb_data c ∷ keys bus
      → awaits_config (keys bus) ≡ false
      → owes bus1 ≡ true
  unfolding owes
  owes-wrote c bus bus1 sent calm = rw (sent, calm) refl

  last_command-answered :
      (c : ℕ) (bus : Bus) (r : ℕ × Bus)
      → keys r.1 ≡ read ps2_kb_data r.0 ∷ wrote ps2_kb_data c ∷ keys bus
      → awaits_config (keys bus) ≡ false
      → last_command (keys r.1) ≡ latest c (last_command (keys bus))
  last_command-answered c bus r event calm = rw (event, calm) (ground arith)

  again-Sent :
      (c : ℕ) (bus : Bus) (r r' : ℕ × Bus)
      → last_command (keys r.1) ≡ latest c (last_command (keys bus))
      → Sent c r.1 r'
      → Sent c bus r'
  again-Sent c bus r r' last s = record {
    value = s.value;
    before = s.before;
    event = s.event;
    calm = s.calm;
    command = s.command ∙ ground (arith, last);
  }

  send_loop-Ends :
      (f fuel n c : ℕ) (bus : Bus)
      → Prompt hw fuel
      → Patient hw n
      → c < 256
      → awaits_config (keys bus) ≡ false
      → 0 < f
      → n < f + resends bus
      → Ends (send_loop hw f fuel c bus) (Sent c bus)
  unfolding send_loop resends
  send_loop-Ends zero fuel n c bus prompt patient small calm some_left h = absurd (omega arith)
  send_loop-Ends (suc f) fuel n c bus prompt patient small calm some_left h =
      Ends-bind (wait_out-Ends hw fuel ps2_kb_data c bus prompt) (λ bus1 (same, told).
        let sent : keys bus1 ≡ wrote ps2_kb_data c ∷ keys bus = told ∙ keys-outb c bus small in
        Ends-bind (wait_in-Ends hw fuel bus1 prompt (owes-wrote c bus bus1 sent calm))
          (λ r (b, value, events, kept, heard).
            let event : keys r.1 ≡ read ps2_kb_data r.0 ∷ wrote ps2_kb_data c ∷ keys bus =
              heard ∙ ap (λ e. read ps2_kb_data r.0 ∷ e) sent in
            let last = last_command-answered c bus r event calm in
            elim (Bool-cases (r.0 == resend)) [
              | inl again ↦
                  let asked : r.0 ≡ resend = ground arith in
                  let counted : resends r.1 ≡ suc (resends b) = ap resends events ∙ (rw again) in
                  let early : resends b < n = patient b (sym value ∙ asked) in
                  let (r', e, s) =
                    send_loop-Ends f fuel n c r.1 prompt patient small (ap awaits_config event)
                      (omega arith) (omega arith) in
                  rw again (r', e, again-Sent c bus r r' last s)
              | inr done ↦ rw done (
                r,
                refl,
                record {
                  value = omega (arith, value);
                  before = keys bus;
                  event = event;
                  calm = calm;
                  command = last;
                },
              )
            ]))

  pub send_dev_command1-Ends :
      (fuel n c : ℕ) (bus : Bus)
      → Prompt hw fuel
      → Patient hw n
      → n < fuel
      → c < 256
      → awaits_config (keys bus) ≡ false
      → Ends (send_dev_command1 hw fuel c bus) (Sent c bus)
  unfolding send_dev_command1
  send_dev_command1-Ends fuel n c bus prompt patient enough small calm =
      send_loop-Ends fuel fuel n c bus prompt patient small calm (omega arith) (omega arith)
