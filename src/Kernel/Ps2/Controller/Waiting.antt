-- ===== src/Kernel/Ps2/Controller/Waiting.antt =====
-- The polling loops of kernel/arch/i686/drivers/ps2_kb.c.
use Prim.Native.Nat.{bit_and}
use oldasternix.Prelude.{
  ℕ, zero, suc, ◌<◌, ◌≡◌, refl, Bool, true, false, not, none, some, ◌∷◌, ◌==◌, ltb, if◌then◌else◌,
  arith, ap, Ends, ◌&&◌, ◌||◌, [],
}
use oldasternix.Prelude.Word.{u8, u16}
use oldasternix.Kernel.Ports.{Bus, Hardware, wrote, read, outb, inb}
use oldasternix.Kernel.Ps2.Controller.{
  wait_out, wait_in, ps2_kb_data, resend, ps2_kb_cmd, input_buffer_status, output_buffer_status,
}
use oldasternix.Kernel.Ps2.Controller.Replies.{keys, owes}

-- How often the device asked for a byte again.
unfoldable pub resends : Bus → ℕ
resends [] = 0
resends (wrote port value ∷ bus) = resends bus
resends (read port value ∷ bus) =
    if (port == ps2_kb_data) && (value == resend) then suc (resends bus) else resends bus

module _ (hw : Hardware) where
  -- The status byte that the next poll reads, and the bus after `k` polls.
  abbrev pub status : Bus → ℕ
  status bus = u8 (hw bus 0x64)

  abbrev pub polls : ℕ → Bus → Bus
  polls zero bus = bus
  polls (suc k) bus = polls k (read 0x64 (status bus) ∷ bus)

  -- The controller takes a byte, and has one to give.
  abbrev pub takes : Bus → Bool
  takes bus = bit_and (status bus) input_buffer_status == 0

  abbrev pub gives : Bus → Bool
  gives bus = not (bit_and (status bus) output_buffer_status == 0)

  -- Poll `k` is the first one that finds the controller ready.
  abbrev pub First : (Bus → Bool) → ℕ → Bus → Type 0
  First ready k bus = ((i : ℕ) → i < k → ready (polls i bus) ≡ false) × (ready (polls k bus) ≡ true)

  later :
      (ready : Bus → Bool) (k : ℕ) (bus : Bus)
      → First ready (suc k) bus
      → First ready k (polls 1 bus)
  later ready k bus (busy, now) = (λ i l. busy (suc i) (omega arith), now)

  -- If poll `k` (from 0) is the first that finds the input buffer empty, `wait_out` runs to its end
  -- with more fuel than `k` and writes the byte to the port directly behind that poll; with less
  -- fuel it still waits.
  pub wait_out-polls :
      (fuel k port val : ℕ) (bus : Bus)
      → First takes k bus
      → wait_out hw fuel port val bus
        ≡ (if ltb k fuel then some (outb port val (polls (suc k) bus)) else none)
  unfolding wait_out inb
  wait_out-polls zero k port val bus first = ground arith
  wait_out-polls (suc f) zero port val bus first = ground (arith, first.1)
  wait_out-polls (suc f) (suc k) port val bus first =
      ground (arith, first.0 0, wait_out-polls f k port val (polls 1 bus) (later takes k bus first))

  -- If poll `k` (from 0) is the first that finds the output buffer full, `wait_in` runs to its end
  -- with more fuel than `k` and returns the byte that it reads from the data port directly behind
  -- that poll; with less fuel it still waits.
  pub wait_in-polls :
      (fuel k : ℕ) (bus : Bus)
      → First gives k bus
      → wait_in hw fuel bus
        ≡ (if ltb k fuel then some (inb hw ps2_kb_data (polls (suc k) bus)) else none)
  unfolding wait_in inb
  wait_in-polls zero k bus first = ground arith
  wait_in-polls (suc f) zero bus first = ground (arith, first.1)
  wait_in-polls (suc f) (suc k) bus first =
      ground (arith, first.0 0, wait_in-polls f k (polls 1 bus) (later gives k bus first))

  -- At whatever moment the driver has a byte to write, fewer than `n` polls of the controller say
  -- "not yet"; and so when it waits for a byte that it is owed.
  abbrev pub Prompt : ℕ → Type 0
  Prompt n =
      (bus : Bus)
      → ((k : ℕ) × (k < n) × First takes k bus)
        × (owes bus ≡ true → (k : ℕ) × (k < n) × First gives k bus)

  resends-polls : (k : ℕ) (bus : Bus) → resends (polls k bus) ≡ resends bus
  unfolding resends
  resends-polls zero bus = refl
  resends-polls (suc k) bus = resends-polls k (read 0x64 (status bus) ∷ bus)

  keys-polls : (k : ℕ) (bus : Bus) → keys (polls k bus) ≡ keys bus
  unfolding keys
  keys-polls zero bus = refl
  keys-polls (suc k) bus = keys-polls k (read 0x64 (status bus) ∷ bus)

  pub wait_out-Ends :
      (fuel port val : ℕ) (bus : Bus)
      → Prompt fuel
      → Ends
          (wait_out hw fuel port val bus)
          (λ bus'. (resends bus' ≡ resends bus) × (keys bus' ≡ keys (outb port val bus)))
  unfolding outb resends keys
  wait_out-Ends fuel port val bus prompt =
      let (k, l, first) = (prompt bus).0 in
      let in_time : ltb k fuel ≡ true = ground arith in
      (
        outb port val (polls (suc k) bus),
        rw (wait_out-polls fuel k port val bus first, in_time),
        (
          resends-polls (suc k) bus,
          ap
              (λ e.
                if u16 port == ps2_kb_data || (u16 port == ps2_kb_cmd)
                then wrote (u16 port) (u8 val) ∷ e
                else e)
              (keys-polls (suc k) bus),
        ),
      )

  -- What is read is an answer of the data port.
  pub wait_in-Ends :
      (fuel : ℕ) (bus : Bus)
      → Prompt fuel
      → owes bus ≡ true
      → Ends (wait_in hw fuel bus) (λ r.
        (b : Bus) × (r.0 ≡ u8 (hw b ps2_kb_data))
        × (r.1 ≡ read ps2_kb_data r.0 ∷ b)
        × (resends b ≡ resends bus)
        × (keys r.1 ≡ read ps2_kb_data r.0 ∷ keys bus))
  unfolding inb keys
  wait_in-Ends fuel bus prompt owed =
      let (k, l, first) = (prompt bus).1 owed in
      let in_time : ltb k fuel ≡ true = ground arith in
      let b = polls (suc k) bus in
      (
        inb hw ps2_kb_data b,
        rw (wait_in-polls fuel k bus first, in_time),
        (
          b,
          refl,
          refl,
          resends-polls (suc k) bus,
          ap (λ e. read ps2_kb_data (u8 (hw b ps2_kb_data)) ∷ e) (keys-polls (suc k) bus),
        ),
      )

  -- The device asks at most `n` times in all that a byte be sent again.
  abbrev pub Patient : ℕ → Type 0
  Patient n = (bus : Bus) → u8 (hw bus ps2_kb_data) ≡ resend → resends bus < n
