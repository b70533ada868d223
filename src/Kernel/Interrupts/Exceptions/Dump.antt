-- ===== src/Kernel/Interrupts/Exceptions/Dump.antt =====
-- What the handlers of exceptions print.
use oldasternix.Prelude.{
  ℕ, ◌<◌, ◌≡◌, refl, ◌^◌, inl, Bool, true, ◌&&◌, some, List, [], ◌∷◌, ◌++◌, ltb, map, length, zero,
  suc, arith, Ends,
}
use oldasternix.Prelude.Text.{bytes_of}
use oldasternix.Kernel.Console.Typing.{AllAscii}
use oldasternix.Kernel.Interrupts.Exceptions.{
  Registers, ErrorRegisters, exceptions, element, exception_code, exception_no_code,
}
use oldasternix.Kernel.Machine.{Machine}
use oldasternix.Kernel.Panic.{panic-pieces}
use oldasternix.Libc.Stdio.Messages.{plain, AllPieces-text}
use oldasternix.Libc.Stdio.Pieces.{
  Piece, literal, percent, string, unsigned, lower_hex, IsPiece, AllPieces, output_all,
}
use oldasternix.Libc.Stdio.Show.{Prints}

-- A number with eight hexadecimal digits.
abbrev pub hex_word : ℕ → Piece
hex_word x = unsigned lower_hex (record { zeros = true; width = b'8' ∷ [] }) x

hex_word-IsPiece : (x : ℕ) → x < 2 ^ 32 → IsPiece (hex_word x)
hex_word-IsPiece x h = (((omega arith, omega arith, tt), omega arith, inl refl), h)

-- A text, a number and a character behind it.
abbrev pub labelled : List ℕ → ℕ → ℕ → List Piece → List Piece
labelled s x c ps = map literal s ++ hex_word x ∷ literal c ∷ ps

-- Registers by their names, each with its value and what follows it. The name stands behind a
-- percent sign.
abbrev pub register_lines : List (List ℕ × ℕ × ℕ) → List Piece
register_lines [] = []
register_lines ((s, x, c) ∷ ls) = percent ∷ labelled s x c (register_lines ls)

-- The general registers in the order of the dump, and the flags.
abbrev pub Values : Type 0
Values = ℕ × ℕ × ℕ × ℕ × ℕ × ℕ × ℕ × ℕ × ℕ

abbrev pub dump_lines : Values → List (List ℕ × ℕ × ℕ)
dump_lines (eax, ebx, ecx, edx, ebp, esp, esi, edi, eflags) =
    (bytes_of "eax = ", eax, 9)
    ∷ (bytes_of "ebx = ", ebx, 10)
    ∷ (bytes_of "ecx = ", ecx, 9)
    ∷ (bytes_of "edx = ", edx, 10)
    ∷ (bytes_of "ebp = ", ebp, 9)
    ∷ (bytes_of "esp = ", esp, 10)
    ∷ (bytes_of "esi = ", esi, 9)
    ∷ (bytes_of "edi = ", edi, 10)
    ∷ (bytes_of "eflags = ", eflags, 10)
    ∷ []

abbrev pub register_dump : Values → List Piece
register_dump v = map literal (bytes_of "Register dump:\n") ++ register_lines (dump_lines v)

abbrev pub titled : List ℕ → List Piece → List Piece
titled name ps = map literal (bytes_of "An exception occured: ") ++ string name ∷ literal 10 ∷ ps

abbrev pub general : Registers → Values
general r = (r.eax, r.ebx, r.ecx, r.edx, r.ebp, r.esp, r.esi, r.edi, r.eflags)

abbrev pub general_of_error : ErrorRegisters → Values
general_of_error r = (r.eax, r.ebx, r.ecx, r.edx, r.ebp, r.esp, r.esi, r.edi, r.eflags)

-- Each register holds a 32-bit word.
abbrev pub HoldWords : List (List ℕ × ℕ × ℕ) → Type 0
HoldWords [] = Unit {0}
HoldWords ((s, x, c) ∷ ls) = (x < 2 ^ 32) × HoldWords ls

abbrev pub AreWords : Values → Type 0
AreWords v = HoldWords (dump_lines v)

control-IsPiece : (c : ℕ) → c < 32 → IsPiece (literal c)
control-IsPiece c h = (omega arith, omega arith)

labelled-AllPieces :
    (s : List ℕ) (x c : ℕ) (ps : List Piece)
    → plain s ≡ true
    → c < 32
    → x < 2 ^ 32
    → AllPieces ps
    → AllPieces (labelled s x c ps)
labelled-AllPieces s x c ps p h l all =
    AllPieces-text s (hex_word x ∷ literal c ∷ ps) p
      (hex_word-IsPiece x l, (control-IsPiece c h, all))

-- The texts and separators around the numbers.
abbrev well_spelled : List (List ℕ × ℕ × ℕ) → Bool
well_spelled [] = true
well_spelled ((s, x, c) ∷ ls) = plain s && ltb c 32 && well_spelled ls

register_lines-AllPieces :
    (ls : List (List ℕ × ℕ × ℕ))
    → well_spelled ls ≡ true
    → HoldWords ls
    → AllPieces (register_lines ls)
register_lines-AllPieces [] h words = tt
register_lines-AllPieces ((s, x, c) ∷ ls) h (word, words) = (
  tt,
  labelled-AllPieces s x c (register_lines ls) (ground (arith, h)) (ground (arith, h)) word
      (register_lines-AllPieces ls (ground (arith, h)) words),
)

register_dump-AllPieces : (v : Values) → AreWords v → AllPieces (register_dump v)
register_dump-AllPieces v words =
    AllPieces-text (bytes_of "Register dump:\n") (register_lines (dump_lines v)) refl
      (register_lines-AllPieces (dump_lines v) refl words)

titled-AllPieces :
    (name : List ℕ) (ps : List Piece) → AllAscii name → AllPieces ps → AllPieces (titled name ps)
titled-AllPieces name ps text all =
    AllPieces-text (bytes_of "An exception occured: ") (string name ∷ literal 10 ∷ ps) refl
      (text, (control-IsPiece 10 (omega arith), all))

-- The names of the exceptions are ASCII, and there are 32 of them.
abbrev ascii : List ℕ → Bool
ascii [] = true
ascii (c ∷ s) = ltb c 128 && ascii s

AllAscii-ascii : (s : List ℕ) → ascii s ≡ true → AllAscii s
AllAscii-ascii [] h = tt
AllAscii-ascii (c ∷ s) h = (ground arith, AllAscii-ascii s (ground arith))

abbrev all_ascii : List (List ℕ) → Bool
all_ascii [] = true
all_ascii (s ∷ ss) = ascii s && all_ascii ss

element-AllAscii :
    (ss : List (List ℕ)) (i : ℕ)
    → all_ascii ss ≡ true
    → i < length ss
    → Ends (element ss i) AllAscii
element-AllAscii [] i h l = absurd (omega arith)
element-AllAscii (s ∷ ss) zero h l = (s, refl, AllAscii-ascii s (ground arith))
element-AllAscii (s ∷ ss) (suc i) h l = element-AllAscii ss i (ground arith) (omega arith)

module _ (fuel unwind_ptr error : ℕ) (w : Machine) (enough : 0 < fuel) (known : error < 32) where
  -- For each exception number below 32, the handler of exceptions with an error code prints the
  -- exception's name, the error code and the nine registers, each under its own name with eight
  -- hexadecimal digits, and halts. The code and the registers are 32-bit words, and there is fuel
  -- for a round of unwinding.
  pub exception_code-dump :
      (r : ErrorRegisters)
      → AreWords (general_of_error r)
      → r.error_code < 2 ^ 32
      → (name : List ℕ) × (element exceptions error ≡ some name)
        × Ends (exception_code fuel unwind_ptr error r w) (
            Prints w (
              output_all (
                titled name (
                  labelled
                    (bytes_of "Error code: ")
                    r.error_code
                    10
                    (register_dump (general_of_error r))))))
  unfolding exception_code
  exception_code-dump r words code =
      let (name, e, text) = element-AllAscii exceptions error refl known in
      let dump = register_dump (general_of_error r) in
      let body = labelled (bytes_of "Error code: ") r.error_code 10 dump in
      let all =
        labelled-AllPieces (bytes_of "Error code: ") r.error_code 10 dump refl (omega arith) code
          (register_dump-AllPieces (general_of_error r) words) in
      let (w', e', p) =
        panic-pieces fuel unwind_ptr (titled name body) w enough
          (titled-AllPieces name body text all) in
      (name, e, (w', rw e e', p))

  -- The same without an error code.
  pub exception_no_code-dump :
      (r : Registers)
      → AreWords (general r)
      → (name : List ℕ) × (element exceptions error ≡ some name)
        × Ends
            (exception_no_code fuel unwind_ptr error r w)
            (Prints w (output_all (titled name (register_dump (general r)))))
  unfolding exception_no_code
  exception_no_code-dump r words =
      let (name, e, text) = element-AllAscii exceptions error refl known in
      let dump = register_dump (general r) in
      let (w', e', p) =
        panic-pieces fuel unwind_ptr (titled name dump) w enough
          (titled-AllPieces name dump text (register_dump-AllPieces (general r) words)) in
      (name, e, (w', rw e e', p))
