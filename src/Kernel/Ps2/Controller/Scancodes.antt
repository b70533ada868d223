-- ===== src/Kernel/Ps2/Controller/Scancodes.antt =====
-- The choice of a scancode set, kernel/arch/i686/drivers/ps2_kb.c.
use oldasternix.Prelude.{
  ℕ, ◌≤◌, ◌<◌, ◌≡◌, refl, Bool, true, false, not, ◌||◌, some, [], ◌∷◌, ◌==◌, ltb, if◌then◌else◌,
  arith, Ends, Ends-bind, Ends-if, ◌>>=◌, ap, ◌∙◌,
}
use oldasternix.Prelude.Text.{bytes_of}
use oldasternix.Kernel.Machine.{Machine}
use oldasternix.Kernel.Ports.{Hardware}
use oldasternix.Kernel.Ps2.Controller.{
  choose_scancode_set, ack, setscancodeset, send_dev_command2, answer,
}
use oldasternix.Kernel.Ps2.Controller.Replies.{keys, awaits_config}
use oldasternix.Kernel.Ps2.Controller.Waiting.{Prompt, Patient}
use oldasternix.Kernel.Ps2.State.{Ps2}
use oldasternix.Libc.Stdio.{say, word}
use oldasternix.Kernel.Ps2.Controller.Commands.{
  On, Keeps, say_text-Keeps, say_number-On, answer-With, owes-query, send_dev_command2-SentBoth,
}

-- The cursor is on the screen, and no configuration is due.
abbrev pub Calm : Machine → Type 0
Calm w = On w × (awaits_config (keys w.bus) ≡ false)

-- What the setup leaves, when it starts from `y`.
abbrev pub Chosen : Ps2 → Bool × Ps2 → Type 0
Chosen y (ok, y') =
    On y'.machine
    × (y'.interrupts ≡ y.interrupts)
    × (ok ≡ true → (1 ≤ y'.scancode_set) × (y'.scancode_set ≤ 3))

module _ (hw : Hardware) (fuel n : ℕ) (prompt : Prompt hw fuel) (patient : Patient hw n)
    (enough : n < fuel) where
  -- The end of `choose_scancode_set`, once the keyboard told the set.
  set_known :
      (y : Ps2) (set : ℕ) (w : Machine)
      → set < 256
      → On w
      → let y1 = record y { machine = w; scancode_set = set } in
        Ends
          (if ltb set 1 || ltb 3 set
            then (do
              w' ← say (bytes_of "err: ps/2: unknown scancode set: %d\n") (word set ∷ []) w
              some (false, record y1 { machine = w' }))
            else (do
              w' ← say (bytes_of "info: ps/2: using scancode set %d\n") (word set ∷ []) w
              some (true, record y1 { machine = w' })))
          (Chosen y)
  set_known y set w small on =
      let y1 = record y { machine = w; scancode_set = set } in
      Ends-if (ltb set 1 || ltb 3 set)
        (λ _.
          Ends-bind
            (say_number-On (bytes_of "err: ps/2: unknown scancode set: ") set w refl small on)
            (λ w' on'.
              ((false, record y1 { machine = w' }), refl, (on', refl, λ e. ground (arith, e)))))
        (λ known.
          Ends-bind (say_number-On (bytes_of "info: ps/2: using scancode set ") set w refl small on)
            (λ w' on'. (
              (true, record y1 { machine = w' }),
              refl,
              (on', refl, λ _. (ground (arith, known), ground (arith, known))),
            )))

  -- The query for the scancode set, and what follows.
  ask_set :
      (y : Ps2) (w : Machine)
      → Calm w
      → Ends
          (do
            (response, w) ← send_dev_command2 hw fuel setscancodeset 0 w
            if not (response == ack)
                then (do
                  w ← say (bytes_of "err: ps/2: failed to determine scancode set\n") [] w
                  some (false, record y { machine = w }))
                else (do
                  (set, w) ← answer hw fuel w
                  let y = record y { machine = w; scancode_set = set }
                  if ltb set 1 || ltb 3 set
                      then (do
                        w ←
                            say
                              (bytes_of "err: ps/2: unknown scancode set: %d\n")
                              (word set ∷ [])
                              y.machine
                        some (false, record y { machine = w }))
                      else (do
                        w ←
                            say
                              (bytes_of "info: ps/2: using scancode set %d\n")
                              (word set ∷ [])
                              y.machine
                        some (true, record y { machine = w }))))
          (Chosen y)
  ask_set y w (on, calm) =
      Ends-bind
        (send_dev_command2-SentBoth hw fuel n prompt patient enough setscancodeset 0 w (omega arith)
          (omega arith) refl calm on)
        (λ r (on3, (b, asked, s)).
          Ends-if (not (r.0 == ack))
            (λ _.
              Ends-bind
                (say_text-Keeps (bytes_of "err: ps/2: failed to determine scancode set\n") r.1 refl
                  on3)
                (λ w4 (on4, _).
                  ((false, record y { machine = w4 }), refl, (on4, refl, λ e. ground (arith, e)))))
            (λ acked.
              let owed =
                owes-query hw fuel n prompt patient enough b (r.0, r.1.bus) s asked
                  (ground (arith, acked)) in
              Ends-bind (answer-With hw fuel n prompt patient enough r.1 on3 owed)
                (λ a (small, on4, _). set_known y a.0 a.1 small on4)))

  pub choose_scancode_set-Chosen :
      (y : Ps2) → Calm y.machine → Ends (choose_scancode_set hw fuel y) (Chosen y)
  unfolding choose_scancode_set
  choose_scancode_set-Chosen y (on, calm) =
      Ends-bind
        (send_dev_command2-SentBoth hw fuel n prompt patient enough setscancodeset 3 y.machine
          (omega arith) (omega arith) refl calm on)
        (λ r (on1, (b, _, s)).
          Ends-bind {P = Keeps r.1}
            (Ends-if (r.0 == ack) (λ _. (r.1, refl, (on1, refl)))
              (λ _.
                say_text-Keeps (bytes_of "warn: ps/2: unable to set scancode set\n") r.1 refl on1))
            (λ w2 (on2, same). ask_set y w2 (on2, ap awaits_config (same ∙ s.event))))
