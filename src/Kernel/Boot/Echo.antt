-- ===== src/Kernel/Boot/Echo.antt =====
-- The last loop of `hlinit`, kernel/arch/i686/boot/boot1.c.
use Prim.Native.Nat.{bit_and}
use oldasternix.Prelude.{
  ℕ, zero, suc, ◌+◌, ◌*◌, ◌≡◌, refl, sym, ap, ◌∙◌, true, some, List, [], ◌∷◌, ◌++◌, take-add,
  drop-add, arith, take, drop, min, Ends, Ends-bind,
}
use oldasternix.Kernel.Boot.{echo_round, echo}
use oldasternix.Kernel.Boot.State.{Given, Kernel, machine_of, system_of, with_system}
use oldasternix.Kernel.Console.Typing.{Screen, Displays, type_text, AllAscii}
use oldasternix.Kernel.Console.{vconsole_write}
use oldasternix.Kernel.Device.{dev, chr_tty}
use oldasternix.Kernel.Drivers.{empty}
use oldasternix.Kernel.Initcalls.{Initcall, tty, contains, initcall_tables}
use oldasternix.Kernel.Keyboard.{vconsole_read}
use oldasternix.Kernel.Keyboard.Queue.{contents, Fits}
use oldasternix.Kernel.Machine.{Machine}
use oldasternix.Kernel.Ports.{Hardware}
use oldasternix.Kernel.Tmpfs.{Inode, it_chr, it_type}
use oldasternix.Kernel.Tmpfs.Calls.{System, tmpfs_read, tmpfs_write}
use oldasternix.Libc.Stdio.Show.{type_text-append}
use oldasternix.Prelude.Int.{pos}
use oldasternix.Kernel.Tmpfs.Devices.{tmpfs_console}
use oldasternix.Kernel.Tty.Echo.{Separate, vconsole_write-read}

AllAscii-split : (xs ys : List ℕ) → AllAscii (xs ++ ys) → AllAscii xs × AllAscii ys
AllAscii-split [] ys all = (tt, all)
AllAscii-split (x ∷ xs) ys (small, all) = let (a, b) = AllAscii-split xs ys all in ((small, a), b)

-- The inode at `p` is the console, by a driver that boot registered.
pub record HasConsole (hw : Hardware) (cs : List Initcall) (p : ℕ) (k : Kernel) : Type 0 where
  pub inode : Inode
  pub tables : k.tables ≡ initcall_tables hw cs (empty Machine)
  pub registered : contains tty cs ≡ true
  pub holds : k.store p ≡ some inode
  pub kind : bit_and inode.mode it_type ≡ it_chr
  pub number : inode.dev_type ≡ dev chr_tty 0

-- What an echo keeps: the queue within its array, and the buffer apart.
pub record IsQuiet (given : Given) (w : Machine) : Type 0 where
  pub fits : Fits w
  pub apart : Separate given.line_buf 10 w

module _ (hw : Hardware) (fuel : ℕ) (given : Given) (cs : List Initcall) (p : ℕ) where
  echo_round-types :
      (k : Kernel) (s : Screen)
      → HasConsole hw cs p k
      → IsQuiet given (machine_of k)
      → AllAscii (take 10 (contents (machine_of k)))
      → Displays (machine_of k) s
      → Ends (echo_round hw fuel given p k) (λ k'.
        HasConsole hw cs p k'
        × IsQuiet given (machine_of k')
        × (contents (machine_of k') ≡ drop 10 (contents (machine_of k)))
        × Displays (machine_of k') (type_text (take 10 (contents (machine_of k))) s))
  unfolding echo_round
  echo_round-types k s console quiet ascii shown =
      let w = machine_of k in
      let n = min 10 w.queue_idx in
      let w1 = (vconsole_read given.line_buf 10 w).1 in
      let w2 = (vconsole_write given.line_buf n w1).1 in
      let y1 : System = record { store = k.store; machine = w1 } in
      let calls = λ (m : ℕ) (y : System).
        tmpfs_console hw cs given.fresh p 0 given.line_buf m y console.inode console.registered in
      let (count, count', left, shown', fits', apart') =
        vconsole_write-read given.line_buf 10 w s quiet.fits (omega arith) quiet.apart ascii
          shown in
      let y2 : System = record { store = k.store; machine = w2 } in
      let read : tmpfs_read k.tables p 0 given.line_buf 10 (system_of k) ≡ some (pos n, y1) =
        ap (λ t. tmpfs_read t p 0 given.line_buf 10 (system_of k)) console.tables
        ∙ (calls 10 (system_of k) console.holds console.kind console.number).1
        ∙ ap (λ r. some (r, y1)) count in
      let wrote : tmpfs_write k.tables given.fresh p 0 given.line_buf n y1 ≡ some (pos n, y2) =
        ap (λ t. tmpfs_write t given.fresh p 0 given.line_buf n y1) console.tables
        ∙ (calls n y1 console.holds console.kind console.number).0
        ∙ ap (λ r. some (r, y2)) count' in
      (
        with_system y2 k,
        rw (read, wrote),
        (
          record {
            inode = console.inode;
            tables = console.tables;
            registered = console.registered;
            holds = console.holds;
            kind = console.kind;
            number = console.number;
          },
          record { fits = fits'; apart = apart' },
          left,
          shown',
        ),
      )

  -- The last loop of `hlinit`, for any number of rounds: it runs to its end, types the oldest
  -- characters of the keyboard queue, ten for each round or as many as there are, on the display,
  -- and the others wait on in order. The inode is the console, the terminal's initcall is among
  -- those that ran, the queue fits its array, queue, VGA buffer and input line do not meet, and the
  -- characters that are typed are ASCII. The display showed a screen before, with the cursor on it.
  pub echo-types :
      (rounds : ℕ) (k : Kernel) (s : Screen)
      → HasConsole hw cs p k
      → IsQuiet given (machine_of k)
      → AllAscii (take (rounds * 10) (contents (machine_of k)))
      → Displays (machine_of k) s
      → Ends (echo hw fuel given rounds p k) (λ k'.
        (contents (machine_of k') ≡ drop (rounds * 10) (contents (machine_of k)))
        × Displays (machine_of k') (type_text (take (rounds * 10) (contents (machine_of k))) s))
  unfolding echo
  echo-types zero k s console quiet ascii shown = (k, refl, (refl, unfold type_text in shown))
  echo-types (suc rounds) k s console quiet ascii shown =
      let typed = contents (machine_of k) in
      let count : suc rounds * 10 ≡ 10 + rounds * 10 = omega arith in
      let split : take (suc rounds * 10) typed
          ≡ take 10 typed ++ take (rounds * 10) (drop 10 typed) =
        ap (λ m. take m typed) count ∙ take-add 10 (rounds * 10) typed in
      let (first, more) = AllAscii-split (take 10 typed) _ (rw split at ascii) in
      Ends-bind (echo_round-types k s console quiet first shown)
        (λ k1 (console1, quiet1, left1, shown1).
          let (k2, e, (left2, shown2)) =
            echo-types rounds k1 (type_text (take 10 typed) s) console1 quiet1 (rw left1 more)
              shown1 in
          (
            k2,
            e,
            (
              left2
                  ∙ ap (drop (rounds * 10)) left1
                  ∙ sym (ap (λ m. drop m typed) count ∙ drop-add 10 (rounds * 10) typed),
              rw (split, type_text-append (take 10 typed) (take (rounds * 10) (drop 10 typed)) s)
                  (rw left1 at shown2),
            ),
          ))
