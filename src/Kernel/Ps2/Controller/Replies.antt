-- ===== src/Kernel/Ps2/Controller/Replies.antt =====
-- Which bytes the keyboard and its controller owe the driver of kernel/arch/i686/drivers/ps2_kb.c:
-- answers to what was written to them.
use oldasternix.Prelude.{
  ℕ, ◌≡◌, refl, Bool, false, ◌&&◌, ◌||◌, not, [], ◌∷◌, ◌==◌, if◌then◌else◌, arith,
}
use oldasternix.Kernel.Ports.{Bus, wrote, read}
use oldasternix.Kernel.Ps2.Controller.{
  ps2_kb_data, ps2_kb_cmd, getconfig, setconfig, controller_self_test, setscancodeset, reset, ack,
}
use oldasternix.Libc.Stdio.Show.{off_screen}

-- What passed at the data port, and the commands to the controller, newest first.
unfoldable pub keys : Bus → Bus
keys [] = []
keys (wrote port v ∷ bus) =
    let rest = keys bus in
    if port == ps2_kb_data || (port == ps2_kb_cmd) then wrote port v ∷ rest else rest
keys (read port v ∷ bus) =
    let rest = keys bus in if port == ps2_kb_data then read port v ∷ rest else rest

-- The next byte for the data port is the controller's configuration.
abbrev pub awaits_config : Bus → Bool
awaits_config (wrote port v ∷ _) = port == ps2_kb_cmd && (v == setconfig)
awaits_config _ = false

-- The last command to the keyboard. Zero is no command of the keyboard's: it is the argument of one.
abbrev pub last_command : Bus → ℕ
last_command [] = 0
last_command (wrote port v ∷ bus) =
    let earlier = last_command bus in
    if port == ps2_kb_cmd then 0 else if v == 0 || awaits_config bus then earlier else v
last_command (read port v ∷ bus) = last_command bus

-- What it is behind a byte to the keyboard.
abbrev pub latest : ℕ → ℕ → ℕ
latest c earlier = if c == 0 then earlier else c

-- The keyboard sends a byte more behind its acknowledgement of a reset, and of the query for the
-- scancode set.
abbrev pub promises : Bus → Bool
promises (wrote port v ∷ bus) =
    port == ps2_kb_data
    && not (awaits_config bus)
    && (v == reset || (v == 0 && (last_command bus == setscancodeset)))
promises _ = false

-- The controller answers two of its commands, and the keyboard every byte that it gets.
abbrev pub awaited : Bus → Bool
awaited [] = false
awaited (wrote port v ∷ bus) =
    if port == ps2_kb_cmd
    then v == getconfig || (v == controller_self_test)
    else not (awaits_config bus)
awaited (read port v ∷ bus) = v == ack && promises bus

unfoldable pub owes : Bus → Bool
unfolding keys
owes bus = awaited (keys bus)

pub keys-off_screen : (bus : Bus) → keys (off_screen bus) ≡ keys bus
unfolding keys off_screen
keys-off_screen [] = refl
keys-off_screen (wrote port v ∷ bus) = ground (arith, keys-off_screen bus)
keys-off_screen (read port v ∷ bus) = ground (arith, keys-off_screen bus)
