-- ===== src/Libc/Stdio/Print.antt =====
-- `printf` of libc/stdio.c against a description of formats by their pieces.
use oldasternix.Prelude.{
  ℕ, zero, suc, ◌+◌, ◌-◌, ◌*◌, ◌^◌, ◌≤◌, ◌<◌, ◌≡◌, refl, ap, ◌∙◌, ◌⊎◌, inl, inr, false, some, List,
  [], ◌∷◌, ◌++◌, ◌==◌, leb, ◌&&◌, length, length-append, arith,
}
use mathlib.Core.List.{append_assoc}
use oldasternix.Prelude.Word.{u32}
use oldasternix.Libc.Stdio.{
  Arg, word, text, show, putchar, convert, read_flag, read_width, vprintf_loop, vprintf, printf,
}
use oldasternix.Libc.Stdio.Show.{Prints, Prints-append, Prints-nothing, show-Prints, putchar-Prints}
use oldasternix.Kernel.Machine.{Machine}
use oldasternix.Libc.Stdio.Pieces.{
  Field, no_field, Base, decimal, octal, lower_hex, upper_hex, Piece, literal, percent, string,
  character, signed, unsigned, pointer, letter, spell_field, spell, argument, width_value, filler,
  numeral, output, spell_all, arguments, output_all, AllDigits, FirstNotZero, IsField, IsPiece,
  AllPieces,
}
use oldasternix.Libc.Stdio.Convert.{Converts, unsigned-Converts, signed-Converts, pointer-Converts}

-- One round of the loop at the piece `p`.
abbrev Round : ℕ → Piece → List ℕ → List Arg → ℕ → Machine → Type 0
Round f p rest args n w =
    (w' : Machine) × (vprintf_loop (suc f) (spell p ++ rest) (argument p ++ args) n w
      ≡ vprintf_loop f rest args (u32 (n + length (output p))) w')
    × Prints w (output p) w'

parsed-Round :
    (f c m fill : ℕ) (format behind rest : List ℕ) (given args : List Arg) (n : ℕ) (w : Machine)
    (out : List ℕ)
    → read_flag format ≡ (fill, behind)
    → read_width 0 behind ≡ (m, c ∷ rest)
    → Converts c m fill given args n w out
    → (w' : Machine) × (vprintf_loop (suc f) (b'%' ∷ format) given n w
        ≡ vprintf_loop f rest args (u32 (n + length out)) w')
      × Prints w out w'
unfolding vprintf_loop
parsed-Round f c m fill format behind rest given args n w out flag width (w', e, p) =
    (w', ground (arith, flag, width, e), p)

read_flag_lem :
    (f : Field) (c : ℕ) (rest : List ℕ)
    → IsField f
    → (c == b'0') ≡ false
    → read_flag (spell_field f ++ c ∷ rest) ≡ (filler f, f.width ++ c ∷ rest)
unfolding read_flag
read_flag_lem f c rest (_, _, inl zeros) z = rw zeros refl
read_flag_lem f c rest (_, _, inr first) z = ground (arith, by_width f.width first)
  where
    by_width : (cs : List ℕ) → FirstNotZero cs → read_flag (cs ++ c ∷ rest) ≡ (b' ', cs ++ c ∷ rest)
    by_width [] h = ground arith
    by_width (d ∷ cs) h = ground arith

width_value-above : (n : ℕ) (cs : List ℕ) → n ≤ width_value n cs
width_value-above n [] = omega arith
width_value-above n (d ∷ cs) = omega (arith, width_value-above (n * 10 + (d - b'0')) cs)

read_width_lem :
    (n c : ℕ) (cs rest : List ℕ)
    → AllDigits cs
    → width_value n cs < 2 ^ 31
    → (leb b'0' c && leb c b'9') ≡ false
    → read_width n (cs ++ c ∷ rest) ≡ (width_value n cs, c ∷ rest)
unfolding read_width
read_width_lem n c [] rest h fits l = ground arith
read_width_lem n c (d ∷ cs) rest h fits l =
    let less = width_value-above (n * 10 + (d - b'0')) cs in
    let whole : u32 (n * 10 + (d - b'0')) ≡ n * 10 + (d - b'0') = omega (arith, less, fits) in
    ground (arith, whole, read_width_lem (n * 10 + (d - b'0')) c cs rest h.2 fits l)

field-Round :
    (k : ℕ) (fl : Field) (c : ℕ) (rest : List ℕ) (given args : List Arg) (n : ℕ) (w : Machine)
    (out : List ℕ)
    → IsField fl
    → (b'9' < c) ⊎ (c < b'0')
    → Converts c (width_value 0 fl.width) (filler fl) given args n w out
    → (w' : Machine) × (vprintf_loop (suc k) (b'%' ∷ (spell_field fl ++ c ∷ []) ++ rest) given n w
        ≡ vprintf_loop k rest args (u32 (n + length out)) w')
      × Prints w out w'
field-Round k fl c rest given args n w out h letter con =
    rw (append_assoc (spell_field fl) (c ∷ []) rest) (
      parsed-Round k c (width_value 0 fl.width) (filler fl) (spell_field fl ++ c ∷ rest)
        (fl.width ++ c ∷ rest) rest given args n w out (read_flag_lem fl c rest h (ground arith))
        (read_width_lem 0 c fl.width rest h.0 h.1 (ground arith)) con)

piece-Round :
    (k : ℕ) (p : Piece) (rest : List ℕ) (args : List Arg) (n : ℕ) (w : Machine)
    → IsPiece p
    → Round k p rest args n w
unfolding vprintf_loop convert output
piece-Round k (literal c) rest args n w h =
    let other : (c == b'%') ≡ false = ground arith in
    (putchar c w, rw (other, vprintf_loop), putchar-Prints c w h.1)
piece-Round k percent rest args n w h =
    field-Round k no_field b'%' rest args args n w (b'%' ∷ []) (tt, omega arith, inr tt)
      (omega arith) (putchar b'%' w, refl, putchar-Prints b'%' w (omega arith))
piece-Round k (string s) rest args n w h =
    field-Round k no_field b's' rest (text s ∷ args) args n w s (tt, omega arith, inr tt)
      (omega arith) (show s w, refl, show-Prints s w h)
piece-Round k (character c) rest args n w h =
    field-Round k no_field b'c' rest (word c ∷ args) args n w (c ∷ []) (tt, omega arith, inr tt)
      (omega arith) (putchar c w, refl, putchar-Prints c w h)
piece-Round k (signed f x) rest args n w h =
    field-Round k f b'd' rest (word x ∷ args) args n w (output (signed f x)) h.0 (omega arith)
      (signed-Converts f x args n w h.1 h.0.1)
piece-Round k (pointer f x) rest args n w h =
    field-Round k f b'p' rest (word x ∷ args) args n w (output (pointer f x)) h.0 (omega arith)
      (pointer-Converts f x args n w h.0.1)
piece-Round k (unsigned b f x) rest args n w h =
    field-Round k f (letter b) rest (word x ∷ args) args n w (numeral b f x) h.0 (is_letter b)
      (unsigned-Converts b f x args n w h.0.1)
  where
    is_letter : (b : Base) → (b'9' < letter b) ⊎ (letter b < b'0')
    is_letter decimal = inl (omega arith)
    is_letter octal = inl (omega arith)
    is_letter lower_hex = inl (omega arith)
    is_letter upper_hex = inl (omega arith)

length-spell : (p : Piece) → 0 < length (spell p)
length-spell (literal c) = omega arith
length-spell percent = omega arith
length-spell (string s) = omega arith
length-spell (character c) = omega arith
length-spell (signed f x) = omega arith
length-spell (unsigned b f x) = omega arith
length-spell (pointer f x) = omega arith

vprintf_loop-pieces :
    (f : ℕ) (ps : List Piece) (n : ℕ) (w : Machine)
    → length (spell_all ps) < f
    → AllPieces ps
    → n < 2 ^ 32
    → (w' : Machine) × (vprintf_loop f (spell_all ps) (arguments ps) n w
        ≡ some (u32 (n + length (output_all ps)), w'))
      × Prints w (output_all ps) w'
vprintf_loop-pieces zero ps n w fuel h int = absurd (omega arith)
vprintf_loop-pieces (suc f) [] n w fuel h int =
    (w, unfold vprintf_loop in ap (λ k. some (k, w)) (omega arith), Prints-nothing w)
vprintf_loop-pieces (suc f) (p ∷ ps) n w fuel h int =
    let (w1, e1, p1) = piece-Round f p (spell_all ps) (arguments ps) n w h.0 in
    let shorter : length (spell_all ps) < f =
      omega (arith, length-spell p, length-append (spell p) (spell_all ps)) in
    let (w2, e2, p2) =
      vprintf_loop-pieces f ps (u32 (n + length (output p))) w1 shorter h.1 (omega arith) in
    let count : u32 (u32 (n + length (output p)) + length (output_all ps))
        ≡ u32 (n + length (output_all (p ∷ ps))) =
      omega (arith, length-append (output p) (output_all ps)) in
    (
      w2,
      e1 ∙ e2 ∙ ap (λ k. some (k, w2)) count,
      Prints-append (output p) (output_all ps) w w1 w2 p1 p2,
    )

pub vprintf-pieces :
    (ps : List Piece) (w : Machine)
    → AllPieces ps
    → (w' : Machine) × (vprintf (spell_all ps) (arguments ps) w
        ≡ some (u32 (length (output_all ps)), w'))
      × Prints w (output_all ps) w'
unfolding vprintf
vprintf-pieces ps w h =
    let (w', e, p) =
      vprintf_loop-pieces (length (spell_all ps) + 1) ps 0 w (omega arith) h (omega arith) in
    (w', e ∙ ap (λ k. some (u32 k, w')) (omega arith), p)

-- `printf` against a description of its format: for pieces (characters, `%%`, `%s`, `%c`, `%d`, and
-- `%u`, `%o`, `%x`, `%X`, `%p` with an optional flag '0' and width), a call with the format that
-- spells them and their arguments runs to its end, returns the length of the pieces' output and
-- types that output on the display; the keyboard's state stays, and nothing else happens on the
-- bus. Characters and texts are ASCII, numbers are 32-bit words, widths are digits that stand for
-- less than 2^31 and do not look like the flag, and the output is shorter than 2^31 characters.
pub printf-pieces :
    (ps : List Piece) (w : Machine)
    → AllPieces ps
    → length (output_all ps) < 2 ^ 31
    → (w' : Machine) × (printf (spell_all ps) (arguments ps) w ≡ some (length (output_all ps), w'))
      × Prints w (output_all ps) w'
unfolding printf
printf-pieces ps w h short =
    let (w', e, p) = vprintf-pieces ps w h in (w', e ∙ ap (λ k. some (k, w')) (omega arith), p)
