-- ===== src/Libc/Stdio/Tests.antt =====
-- The theorems on formatted output at concrete arguments, and runs of `printf`.
use oldasternix.Prelude.{
  ◌≡◌, ◌≤◌, ◌<◌, ◌^◌, refl, inl, inr, true, false, some, List, [], ◌∷◌, length, arith,
}
use oldasternix.Prelude.Text.{bytes_of}
use oldasternix.Prelude.Word.{to_int}
use oldasternix.Libc.Memory.{bytes}
use oldasternix.Libc.Stdio.{word, text, digits, printf, show}
use oldasternix.Libc.Stdio.Digits.{value, digits-value}
use oldasternix.Libc.Stdio.Pieces.{
  Piece, literal, percent, string, signed, unsigned, upper_hex, output, output_all, AllPieces,
}
use oldasternix.Libc.Stdio.Print.{printf-pieces}
use oldasternix.Libc.Stdio.Show.{Prints, vconsole_write-show}
use oldasternix.Kernel.Console.{vconsole_write}
use oldasternix.Kernel.Machine.{Machine, at_boot}

abbrev start : Machine
start = at_boot (λ a. 65) 10_000 753_664

-- "%04X:%d %s%%\n" of 4094, -7 and "ok".
abbrev pieces : List Piece
pieces =
    unsigned upper_hex (record { zeros = true; width = b'4' ∷ [] }) 4094
    ∷ literal b':'
    ∷ signed (record { zeros = false; width = [] }) 4294967289
    ∷ literal b' '
    ∷ string (bytes_of "ok")
    ∷ percent
    ∷ literal 10
    ∷ []

pieces-AllPieces : AllPieces pieces
pieces-AllPieces = (
  (((omega arith, omega arith, tt), omega arith, inl refl), omega arith),
  (
    (omega arith, omega arith),
    (
      ((tt, omega arith, inr tt), omega arith),
      (
        (omega arith, omega arith),
        ((omega arith, (omega arith, tt)), (tt, ((omega arith, omega arith), tt))),
      ),
    ),
  ),
)

pieces_output : output_all pieces ≡ bytes_of "0FFE:-7 ok%\n"
unfolding output digits
pieces_output = refl

short : length (output_all pieces) < 2 ^ 31
short = rw pieces_output (omega arith)

printf-pieces_example :
    (w' : Machine) × (printf
        (bytes_of "%04X:%d %s%%\n")
        (word 4094 ∷ word 4294967289 ∷ text (bytes_of "ok") ∷ [])
        start
      ≡ some (length (output_all pieces), w'))
    × Prints start (output_all pieces) w'
printf-pieces_example = printf-pieces pieces start pieces-AllPieces short

digits-value_example :
    (value 16 97 (digits 48879 16 97) ≡ 48879) × (length (digits 48879 16 97) ≤ 11)
digits-value_example =
    digits-value 48879 16 97 (omega arith) (omega arith) (inr (omega arith)) (omega arith)

vconsole_write-show_example :
    vconsole_write 500 3 start ≡ (to_int 3, show (bytes start.memory 500 3) start)
vconsole_write-show_example = vconsole_write-show 3 500 start (inl (omega arith)) (omega arith)
