-- ===== src/Kernel/Boot/Started.antt =====
-- The initcalls of `hlinit`, kernel/arch/i686/boot/boot1.c: all of them run, and leave the drivers.
use oldasternix.Prelude.{
  ℕ, ◌<◌, ◌≡◌, ◌≢◌, refl, ap, ◌∙◌, inl, inr, List, [], ◌∷◌, ◌++◌, map, true, arith, Ends, Ends-if,
  Ends-bind,
}
use oldasternix.Kernel.Boot.{number_taken, run_initcall, boot_initcalls}
use oldasternix.Kernel.Boot.State.{
  BootCall, driver, keyboard, Given, Kernel, machine_of, with_machine, ps2_of, with_ps2,
}
use oldasternix.Kernel.Drivers.{empty}
use oldasternix.Kernel.Initcalls.{
  Initcall, memdev, tty, ramdisk, register, initcall_tables, char_slot, block_slot,
  initcall_tables-slots,
}
use oldasternix.Kernel.Interrupts.Table.{set_isr-other}
use oldasternix.Kernel.Machine.{Machine}
use oldasternix.Kernel.Ports.{Hardware}
use oldasternix.Kernel.Ps2.Controller.Setup.{Installed, ps2_kb_driversetup-Installed}
use oldasternix.Kernel.Ps2.Controller.Waiting.{Prompt, Patient}
use oldasternix.Kernel.Ps2.State.{Ps2}
use oldasternix.Kernel.Device.{chr_memdev, chr_tty, blk_ramdisk}
use oldasternix.Libc.Stdio.{say}
use oldasternix.Libc.Stdio.Messages.{plain, AllPieces-text, say_pieces-Said, newline-IsPiece}
use oldasternix.Libc.Stdio.Pieces.{
  Piece, literal, signed, pointer, no_field, spell_all, arguments, IsPiece, AllPieces,
}
use oldasternix.Prelude.Text.{bytes_of}
use oldasternix.Prelude.Word.{u32}

-- The initcalls that register drivers.
abbrev pub drivers : List BootCall → List Initcall
drivers [] = []
drivers (driver c ∷ cs) = c ∷ drivers cs
drivers (keyboard ∷ cs) = drivers cs

-- What the initcalls leave: the tables of drivers, the files, the cursor on the screen, and every
-- gate but the keyboard's.
pub record Started (hw : Hardware) (cs : List BootCall) (k k' : Kernel) : Type 0 where
  pub tables : k'.tables ≡ initcall_tables hw (drivers cs) k.tables
  pub store : k'.store ≡ k.store
  pub cursor : (machine_of k').cursor < 2000
  pub gates : (i : ℕ) → i ≢ 0x21 → k'.interrupts.idt i ≡ k.interrupts.idt i

Installed-gates :
    (hw : Hardware) (fuel stub : ℕ) (y y' : Ps2)
    → Installed hw fuel stub y y'
    → (i : ℕ) → i ≢ 0x21
    → y'.interrupts.idt i ≡ y.interrupts.idt i
Installed-gates hw fuel stub y y' (on, (y1, inl set)) i other =
    ap (λ t. t.idt i) set.1 ∙ set_isr-other 0x21 stub i y.interrupts other
Installed-gates hw fuel stub y y' (on, (y1, inr kept)) i other = ap (λ t. t.idt i) kept.1

module _ (hw : Hardware) (fuel : ℕ) (given : Given) (n : ℕ) (prompt : Prompt hw fuel)
    (patient : Patient hw n) (enough : n < fuel) where
  pointers-IsPiece : (x : ℕ) → IsPiece (pointer no_field (u32 x))
  pointers-IsPiece x = ((tt, omega arith, inr tt), omega arith)

  -- The two addresses behind the kind of the driver.
  abbrev holders : ℕ → List Piece
  holders x =
      map literal (bytes_of "\tdriver 1: ")
      ++ pointer no_field (u32 x)
        ∷ (map literal (bytes_of "\n\tdriver 2: ") ++ pointer no_field (u32 x) ∷ literal 10 ∷ [])

  holders-AllPieces : (x : ℕ) → AllPieces (holders x)
  holders-AllPieces x =
      AllPieces-text (bytes_of "\tdriver 1: ")
        (pointer no_field (u32 x)
          ∷ (map literal (bytes_of "\n\tdriver 2: ") ++ pointer no_field (u32 x) ∷ literal 10 ∷ []))
        refl
        (
          pointers-IsPiece x,
          AllPieces-text (bytes_of "\n\tdriver 2: ") (pointer no_field (u32 x) ∷ literal 10 ∷ [])
              refl (pointers-IsPiece x, (newline-IsPiece, tt)),
        )

  say_taken :
      (kind : List ℕ) (n x : ℕ) (w : Machine)
      → plain kind ≡ true
      → n < 256
      → w.cursor < 2000
      → let ps = signed no_field n ∷ (map literal kind ++ holders x) in
        Ends
          (say (bytes_of "err: device number taken: " ++ spell_all ps) (arguments ps) w)
          (λ w'. w'.cursor < 2000)
  say_taken kind n x w h small on =
      let (w', e, said) =
        say_pieces-Said (bytes_of "err: device number taken: ")
          (signed no_field n ∷ (map literal kind ++ holders x)) w refl
          (
            ((tt, omega arith, inr tt), omega arith),
            AllPieces-text kind (holders x) h (holders-AllPieces x),
          )
          on in
      (w', e, said.cursor)

  number_taken-Ends :
      (c : Initcall) (w : Machine)
      → w.cursor < 2000
      → Ends (number_taken given c w) (λ w'. w'.cursor < 2000)
  unfolding number_taken
  number_taken-Ends memdev w on =
      say_taken (bytes_of " char\n") chr_memdev (given.driver_at memdev) w refl (omega arith) on
  number_taken-Ends tty w on =
      say_taken (bytes_of " char\n") chr_tty (given.driver_at tty) w refl (omega arith) on
  number_taken-Ends ramdisk w on =
      say_taken (bytes_of " block\n") blk_ramdisk (given.driver_at ramdisk) w refl (omega arith) on

  run_initcall-Started :
      (c : BootCall) (k : Kernel)
      → (machine_of k).cursor < 2000
      → Ends (run_initcall hw fuel given c k) (Started hw (c ∷ []) k)
  unfolding run_initcall initcall_tables
  run_initcall-Started (driver c) k on =
      Ends-bind {P = λ w. w.cursor < 2000}
        (Ends-if (register hw c k.tables).1 (λ _. number_taken-Ends c (machine_of k) on)
          (λ _. (machine_of k, refl, on)))
        (λ w on'. (
          with_machine w (record k { tables = (register hw c k.tables).0 }),
          refl,
          record { tables = refl; store = refl; cursor = on'; gates = λ i other. refl },
        ))
  run_initcall-Started keyboard k on =
      Ends-bind
        (ps2_kb_driversetup-Installed hw fuel n prompt patient enough given.key_stub (ps2_of k) on)
        (λ y installed. (
          with_ps2 y k,
          refl,
          record {
            tables = refl;
            store = refl;
            cursor = installed.0;
            gates = Installed-gates hw fuel given.key_stub (ps2_of k) y installed;
          },
        ))

  boot_initcalls-Started :
      (cs : List BootCall) (k : Kernel)
      → (machine_of k).cursor < 2000
      → Ends (boot_initcalls hw fuel given cs k) (Started hw cs k)
  unfolding boot_initcalls initcall_tables
  boot_initcalls-Started [] k on =
      (k, refl, record { tables = refl; store = refl; cursor = on; gates = λ i other. refl })
  boot_initcalls-Started (c ∷ cs) k on = Ends-bind (run_initcall-Started c k on) (λ k1 first.
      let (k2, e, rest) = boot_initcalls-Started cs k1 first.cursor in
      (
        k2,
        e,
        record {
          tables = tables c k1 k2 first rest;
          store = rest.store ∙ first.store;
          cursor = rest.cursor;
          gates = λ i other. rest.gates i other ∙ first.gates i other;
        },
      ))
    where
      tables :
          (c : BootCall) (k1 k2 : Kernel)
          → Started hw (c ∷ []) k k1
          → Started hw cs k1 k2
          → k2.tables ≡ initcall_tables hw (drivers (c ∷ cs)) k.tables
      tables (driver c) k1 k2 first rest =
          rest.tables ∙ ap (initcall_tables hw (drivers cs)) first.tables
      tables keyboard k1 k2 first rest =
          rest.tables ∙ ap (initcall_tables hw (drivers cs)) first.tables

  -- All initcalls of boot run, in whatever order and however often each stands in it, the setup of
  -- the PS/2 driver and the messages on a number that is taken included, from empty tables of
  -- drivers: the loop over them ends. Each driver that they register stands at its own major and
  -- every other slot of both tables is empty; the files are as before, every entry of the interrupt
  -- table but the keyboard's is as before, and the cursor is on the screen, as before. The
  -- controller takes a byte, and gives one where it owes one, within fewer polls than the fuel, and
  -- the device asks for repeats fewer times than the fuel.
  pub boot_initcalls-slots :
      (cs : List BootCall) (k : Kernel)
      → k.tables ≡ empty Machine
      → (machine_of k).cursor < 2000
      → Ends (boot_initcalls hw fuel given cs k) (λ k'.
        ((i : ℕ)
          → (k'.tables.char_drivers i ≡ char_slot hw (drivers cs) i)
            × (k'.tables.block_drivers i ≡ block_slot hw (drivers cs) i))
        × (k'.store ≡ k.store)
        × ((machine_of k').cursor < 2000)
        × ((i : ℕ) → i ≢ 0x21 → k'.interrupts.idt i ≡ k.interrupts.idt i))
  boot_initcalls-slots cs k none on =
      let (k', e, s) = boot_initcalls-Started cs k on in
      let tables : k'.tables ≡ initcall_tables hw (drivers cs) (empty Machine) =
        s.tables ∙ ap (initcall_tables hw (drivers cs)) none in
      (
        k',
        e,
        (
          λ i.
              let slots = initcall_tables-slots hw (drivers cs) i in
              (
                ap (λ t. t.char_drivers i) tables ∙ slots.0,
                ap (λ t. t.block_drivers i) tables ∙ slots.1,
              ),
          s.store,
          s.cursor,
          s.gates,
        ),
      )
