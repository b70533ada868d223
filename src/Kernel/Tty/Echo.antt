-- ===== src/Kernel/Tty/Echo.antt =====
-- The console read and written in turn: what is typed appears on the display.
use oldasternix.Prelude.{
  ℕ, zero, suc, ◌+◌, ◌-◌, ◌≤◌, ◌<◌, ◌^◌, ◌≡◌, refl, ap, ◌∙◌, ◌⊎◌, false, ltb, min, if◌then◌else◌,
  arith, take, drop, ◌*◌,
}
use oldasternix.Prelude.Int.{pos}
use oldasternix.Libc.Memory.{bytes, bytes_ext}
use oldasternix.Libc.Block.{memcpy, memcpy_lem, memmove_lem, within}
use oldasternix.Kernel.Console.{tty_putchar, write_loop, vconsole_write}
use oldasternix.Kernel.Console.Bounds.{
  tty_putchar-outside, keyboard-tty_putchar, input_queue-tty_putchar, vga_buffer-tty_putchar,
}
use oldasternix.Kernel.Console.Typing.{
  Screen, Displays, type_text, AllAscii, vconsole_write-type_text,
}
use oldasternix.Kernel.Keyboard.{queue_len, vconsole_read}
use oldasternix.Kernel.Keyboard.Queue.{contents, Fits, vconsole_read-take}
use oldasternix.Kernel.Machine.{Machine}

-- The queue, the VGA buffer and the buffer of `n` bytes do not meet.
pub record Separate (buf n : ℕ) (w : Machine) : Type 0 where
  pub queue_buf : (buf + n ≤ w.input_queue) ⊎ (w.input_queue + queue_len ≤ buf)
  pub vga_buf : (buf + n ≤ w.vga_buffer) ⊎ (w.vga_buffer + 4000 ≤ buf)
  pub vga_queue : (w.input_queue + queue_len ≤ w.vga_buffer) ⊎ (w.vga_buffer + 4000 ≤ w.input_queue)

vconsole_read-outside :
    (buf n x : ℕ) (w : Machine)
    → Fits w
    → Separate buf n w
    → within buf n x ≡ false
    → within w.input_queue queue_len x ≡ false
    → (vconsole_read buf n w).1.memory x ≡ w.memory x
unfolding vconsole_read
vconsole_read-outside buf n x w fits apart out out' =
    let q = w.input_queue in
    let k = min n w.queue_idx in
    let count : (if ltb w.queue_idx n then w.queue_idx else n) ≡ k = ground arith in
    let m1 = memcpy w.memory buf q k in
    rw count (
      ground (
        arith,
        apart.queue_buf,
        memmove_lem m1 q (q + k) (w.queue_idx - k) x,
        memcpy_lem w.memory buf q k x,
      ))

-- Reading the console does not touch the display.
Displays-vconsole_read :
    (buf n : ℕ) (w : Machine) (s : Screen)
    → Fits w
    → Separate buf n w
    → Displays w s
    → Displays (vconsole_read buf n w).1 s
unfolding vconsole_read
Displays-vconsole_read buf n w s fits apart d =
    let same = λ (x : ℕ). vconsole_read-outside buf n x w fits apart in
    record {
      cells = λ i l. ground (
        arith,
        apart.vga_buf,
        apart.vga_queue,
        d.cells i l,
        same (w.vga_buffer + 2 * i),
        same (w.vga_buffer + 2 * i + 1),
      );
      place = d.place;
      inside = d.inside;
    }

-- Writing to the console leaves the queue's place and length, and what is not in the VGA buffer.
queue-write_loop :
    (n buf : ℕ) (w : Machine)
    → ((write_loop n buf w).input_queue ≡ w.input_queue)
      × ((write_loop n buf w).queue_idx ≡ w.queue_idx)
      × ((write_loop n buf w).vga_buffer ≡ w.vga_buffer)
unfolding write_loop
queue-write_loop zero buf w = (refl, refl, refl)
queue-write_loop (suc n) buf w =
    let ch = w.memory buf in
    let (queue, idx, vga) = queue-write_loop n (buf + 1) (tty_putchar ch w) in
    (
      queue ∙ input_queue-tty_putchar ch w,
      idx ∙ (keyboard-tty_putchar ch w).1,
      vga ∙ vga_buffer-tty_putchar ch w,
    )

write_loop-outside :
    (n buf x : ℕ) (w : Machine)
    → w.cursor < 2000
    → within w.vga_buffer 4000 x ≡ false
    → (write_loop n buf w).memory x ≡ w.memory x
unfolding write_loop
write_loop-outside zero buf x w on out = refl
write_loop-outside (suc n) buf x w on out =
    let ch = w.memory buf in
    let (same, vga, on') = tty_putchar-outside ch x w on out in
    write_loop-outside n (buf + 1) x (tty_putchar ch w) on' (ap (λ v. within v 4000 x) vga ∙ out)
    ∙ same

contents-vconsole_write :
    (n buf m : ℕ) (w : Machine)
    → w.cursor < 2000
    → Fits w
    → Separate buf m w
    → let w' = (vconsole_write buf n w).1 in
      (contents w' ≡ contents w) × (w'.queue_idx ≡ w.queue_idx) × Separate buf m w'
unfolding vconsole_write
contents-vconsole_write n buf m w on fits apart =
    let v = write_loop n buf w in
    let q = w.input_queue in
    let kept = λ (i : ℕ) (l : i < w.queue_idx).
      write_loop-outside n buf (q + i) w on (ground (arith, apart.vga_queue)) in
    let (queue, idx, vga) = queue-write_loop n buf w in
    (
      ap (λ p. bytes v.memory p v.queue_idx) queue
          ∙ ap (bytes v.memory q) idx
          ∙ bytes_ext v.memory w.memory q q w.queue_idx kept,
      idx,
      record {
        queue_buf = rw queue apart.queue_buf;
        vga_buf = rw vga apart.vga_buf;
        vga_queue = rw (queue, vga) apart.vga_queue;
      },
    )

-- What `vconsole_read` takes from the queue, at most `n` characters, and `vconsole_write` prints
-- from the same buffer.
pub vconsole_write-read :
    (buf n : ℕ) (w : Machine) (s : Screen)
    → Fits w
    → n < 2 ^ 31
    → Separate buf n w
    → AllAscii (take n (contents w))
    → Displays w s
    → let (r, w1) = vconsole_read buf n w in
      let (r', w2) = vconsole_write buf (min n w.queue_idx) w1 in
      (r ≡ pos (min n w.queue_idx))
      × (r' ≡ pos (min n w.queue_idx))
      × (contents w2 ≡ drop n (contents w))
      × Displays w2 (type_text (take n (contents w)) s)
      × Fits w2
      × Separate buf n w2
unfolding vconsole_read
vconsole_write-read buf n w s fits small apart ascii d =
    let k = min n w.queue_idx in
    let w1 = (vconsole_read buf n w).1 in
    let (count, got, left, fits1) = vconsole_read-take buf n w fits small apart.queue_buf in
    let d1 = Displays-vconsole_read buf n w s fits apart d in
    let apart1 : Separate buf n w1 = record {
      queue_buf = apart.queue_buf;
      vga_buf = apart.vga_buf;
      vga_queue = apart.vga_queue;
    } in
    let (count', shown) =
      vconsole_write-type_text k buf w1 s (omega arith) (rw got ascii)
        (ground (arith, apart.vga_buf)) d1 in
    let (same, idx, apart2) =
      contents-vconsole_write k buf n w1 (omega (arith, d1.place, d1.inside)) fits1 apart1 in
    (count, count', same ∙ left, rw got at shown, omega (arith, idx, fits1), apart2)
