-- ===== src/Kernel/Ports/Device.antt =====
-- `/dev/port`: `port_read` and `port_write`.
use oldasternix.Prelude.{
  ℕ, zero, suc, ◌+◌, ◌-◌, ◌≤◌, ◌<◌, ◌≡◌, refl, ap₂, List, [], ◌∷◌, ◌++◌, min, ltb, if◌then◌else◌,
  arith,
}
use oldasternix.Prelude.Int.{ℤ, pos, neg}
use oldasternix.Prelude.Word.{u8, u16}
use mathlib.Core.List.{append_assoc}
use oldasternix.Kernel.Errno.{efault}
use oldasternix.Kernel.Ports.{Bus, Hardware, wrote, read, outb, inb}
use oldasternix.Libc.Memory.{Memory, poke, bytes}

-- `newn` of both functions: the count, cut at the end of the bus, in a `uint16_t`.
abbrev pub port_count : ℕ → ℕ → ℕ
port_count off n = let newn = u16 (65535 - off + 1) in if ltb newn n then newn else u16 n

-- The loop of `port_read`, with the rounds left.
pub port_read_loop : Hardware → ℕ → ℕ → ℕ → Memory × Bus → Memory × Bus
port_read_loop hw zero off buf s = s
port_read_loop hw (suc k) off buf (m, bus) =
    let (v, bus') = inb hw off bus in port_read_loop hw k (off + 1) (buf + 1) (poke m buf v, bus')

pub port_read : Hardware → ℕ → ℕ → ℕ → Memory × Bus → ℤ × (Memory × Bus)
unfolding port_read_loop
port_read hw off buf n s =
    if ltb 65535 off
    then (neg efault, s)
    else (pos (port_count off n), port_read_loop hw (port_count off n) off buf s)

-- The loop of `port_write`, with the rounds left.
pub port_write_loop : ℕ → ℕ → ℕ → Memory → Bus → Bus
port_write_loop zero off buf m bus = bus
port_write_loop (suc k) off buf m bus =
    port_write_loop k (off + 1) (buf + 1) m (outb off (m buf) bus)

pub port_write : ℕ → ℕ → ℕ → Memory → Bus → ℤ × Bus
unfolding port_write_loop
port_write off buf n m bus =
    if ltb 65535 off
    then (neg efault, bus)
    else (pos (port_count off n), port_write_loop (port_count off n) off buf m bus)

-- The writes of `k` bytes to the ports from `off` on, newest first.
pub writes : Memory → ℕ → ℕ → ℕ → Bus
writes m off buf zero = []
writes m off buf (suc k) = writes m (off + 1) (buf + 1) k ++ wrote off (u8 (m buf)) ∷ []

port_count_lem : (off n : ℕ) → 0 < off → off < 65536 → port_count off n ≡ min (65536 - off) n
port_count_lem off n h lt = ground arith

port_write_loop_lem :
    (k off buf : ℕ) (m : Memory) (bus : Bus)
    → off + k ≤ 65536
    → port_write_loop k off buf m bus ≡ writes m off buf k ++ bus
unfolding port_write_loop writes outb
port_write_loop_lem zero off buf m bus h = refl
port_write_loop_lem (suc k) off buf m bus h = ground (
  arith,
  port_write_loop_lem k (off + 1) (buf + 1) m (wrote (u16 off) (u8 (m buf)) ∷ bus),
  append_assoc (writes m (off + 1) (buf + 1) k) (wrote off (u8 (m buf)) ∷ []) bus,
)

-- From any port but port 0, `port_write` writes the bytes one after another to consecutive ports,
-- stops behind the last port and returns how many it wrote.
pub port_write-writes :
    (off buf n : ℕ) (m : Memory) (bus : Bus)
    → 0 < off
    → off < 65536
    → let k = min (65536 - off) n in port_write off buf n m bus ≡ (pos k, writes m off buf k ++ bus)
unfolding port_write
port_write-writes off buf n m bus h lt =
    ground (arith, port_count_lem off n, port_write_loop_lem (min (65536 - off) n) off buf m bus)

-- At port 0 the number of ports that are left wraps to 0 in a `uint16_t`: `port_read` and
-- `port_write` return 0 and transfer nothing.
pub port_zero :
    (hw : Hardware) (buf n : ℕ) (m : Memory) (bus : Bus)
    → (port_read hw 0 buf n (m, bus) ≡ (pos 0, (m, bus)))
      × (port_write 0 buf n m bus ≡ (pos 0, bus))
unfolding port_read port_write port_read_loop port_write_loop
port_zero hw buf n m bus = ground arith

-- Behind the last port both fail with EFAULT and do nothing.
pub port_fault :
    (hw : Hardware) (off buf n : ℕ) (m : Memory) (bus : Bus)
    → 65535 < off
    → (port_read hw off buf n (m, bus) ≡ (neg efault, (m, bus)))
      × (port_write off buf n m bus ≡ (neg efault, bus))
unfolding port_read port_write
port_fault hw off buf n m bus h = ground arith

-- What `inb` answers at `k` ports in turn.
pub answers : Hardware → ℕ → ℕ → Bus → List ℕ
answers hw off zero bus = []
answers hw off (suc k) bus = let (v, bus') = inb hw off bus in v ∷ answers hw (off + 1) k bus'

port_read_loop-outside :
    (hw : Hardware) (k off buf x : ℕ) (m : Memory) (bus : Bus)
    → x < buf
    → (port_read_loop hw k off buf (m, bus)).0 x ≡ m x
unfolding port_read_loop inb poke
port_read_loop-outside hw zero off buf x m bus h = refl
port_read_loop-outside hw (suc k) off buf x m bus h = ground (
  arith,
  port_read_loop-outside hw k (off + 1) (buf + 1) x (poke m buf (u8 (hw bus (u16 off))))
      (read (u16 off) (u8 (hw bus (u16 off))) ∷ bus),
)

port_read_loop-answers :
    (hw : Hardware) (k off buf : ℕ) (m : Memory) (bus : Bus)
    → bytes (port_read_loop hw k off buf (m, bus)).0 buf k ≡ answers hw off k bus
unfolding port_read_loop inb poke bytes answers
port_read_loop-answers hw zero off buf m bus = refl
port_read_loop-answers hw (suc k) off buf m bus =
    let v = u8 (hw bus (u16 off)) in
    let bus' = read (u16 off) v ∷ bus in
    ap₂ ◌∷◌
      (ground (arith, port_read_loop-outside hw k (off + 1) (buf + 1) buf (poke m buf v) bus'))
      (port_read_loop-answers hw k (off + 1) (buf + 1) (poke m buf v) bus')

-- From any port but port 0, `port_read` reads consecutive ports in order into the buffer, stops
-- behind the last port and returns how many it read.
pub port_read-answers :
    (hw : Hardware) (off buf n : ℕ) (m : Memory) (bus : Bus)
    → 0 < off
    → off < 65536
    → let k = min (65536 - off) n in
      let (r, (m', _)) = port_read hw off buf n (m, bus) in
      (r ≡ pos k) × (bytes m' buf k ≡ answers hw off k bus)
unfolding port_read
port_read-answers hw off buf n m bus h lt =
    ground
      (arith, port_count_lem off n, port_read_loop-answers hw (min (65536 - off) n) off buf m bus)
