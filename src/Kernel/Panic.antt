-- ===== src/Kernel/Panic.antt =====
-- kernel/panic.c. `halt_loop` is assembly, from which nothing returns: the result of `panic` is the
-- state in which the processor halts. The loop over the callers takes fuel, and `none` is that it
-- ran out.
use oldasternix.Prelude.{
  ◌>>=◌, ℕ, zero, suc, ◌<◌, arith, Option, none, some, List, [], ◌∷◌, ◌==◌, if◌then◌else◌, Ends,
}
use oldasternix.Prelude.Text.{bytes_of}
use oldasternix.Kernel.Machine.{Machine}
use oldasternix.Libc.Stdio.{Arg, word, say, vprintf}
use oldasternix.Libc.Stdio.Pieces.{Piece, AllPieces, spell_all, arguments, output_all}
use oldasternix.Libc.Stdio.Print.{vprintf-pieces}
use oldasternix.Libc.Stdio.Show.{Prints}

-- The result, and what stands behind the pointer, which is not written.
pub panic_unwind : ℕ → ℕ × ℕ
panic_unwind unwind_ptr = (0, unwind_ptr)

pub unwind_loop : ℕ → ℕ → Machine → Option Machine
unfolding panic_unwind
unwind_loop zero unwind_ptr w = none
unwind_loop (suc k) unwind_ptr w =
    let (more, unwind_ptr) = panic_unwind unwind_ptr in
    if more == 0
    then some w
    else (do w ← say (bytes_of "\tat %p\n") (word unwind_ptr ∷ []) w; unwind_loop k unwind_ptr w)

-- `unwind_ptr` is what its place on the stack held before.
pub panic : ℕ → ℕ → List ℕ → List Arg → Machine → Option Machine
unfolding unwind_loop
panic fuel unwind_ptr format args w = do
  (_, w) ← vprintf format args w
  unwind_loop fuel unwind_ptr w

-- A panic prints its message, whatever its pieces are, and no caller.
pub panic-pieces :
    (fuel unwind_ptr : ℕ) (ps : List Piece) (w : Machine)
    → 0 < fuel
    → AllPieces ps
    → Ends (panic fuel unwind_ptr (spell_all ps) (arguments ps) w) (Prints w (output_all ps))
unfolding panic unwind_loop panic_unwind
panic-pieces zero unwind_ptr ps w enough all = absurd (omega arith)
panic-pieces (suc fuel) unwind_ptr ps w enough all =
    let (w', e, p) = vprintf-pieces ps w all in (w', rw e, p)
