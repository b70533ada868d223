-- ===== src/Libc/Stdio/Convert.antt =====
-- The conversions of numbers in `vprintf` of libc/stdio.c.
use oldasternix.Prelude.{
  ℕ, zero, suc, ◌+◌, ◌-◌, ◌^◌, ◌<◌, ◌≡◌, refl, sym, ap, ap₂, ◌∙◌, inl, inr, Bool-cases, some, List,
  [], ◌∷◌, true, ltb, if◌then◌else◌, length, length-append, replicate, arith,
}
use mathlib.Core.List.{reverse, reverse-append}
use oldasternix.Prelude.Word.{u32}
use oldasternix.Libc.Stdio.{Arg, word, digits, show, puts, putchar, put_all, putiradix, convert}
use oldasternix.Libc.Stdio.Digits.{digits-AllAscii}
use oldasternix.Libc.Stdio.Show.{
  Prints, Prints-append, show-Prints, putchar-Prints, put_all-Prints, AllAscii-replicate,
  AllAscii-reverse,
}
use oldasternix.Kernel.Machine.{Machine}
use oldasternix.Kernel.Console.Typing.{AllAscii}
use oldasternix.Libc.Stdio.Pieces.{
  Field, Base, decimal, octal, lower_hex, upper_hex, signed, pointer, letter, width_value,
  base_number, ten_digit, filler, numeral, output,
}

length-reverse : (xs : List ℕ) → length (reverse xs) ≡ length xs
length-reverse [] = refl
length-reverse (x ∷ xs) =
    ap length (reverse-append (x ∷ []) xs)
    ∙ omega (arith, length-append (reverse xs) (x ∷ []), length-reverse xs)

length-replicate : (n c : ℕ) → length (replicate n c) ≡ n
length-replicate zero c = refl
length-replicate (suc n) c = ap suc (length-replicate n c)

digits-ascii : (b : Base) (x : ℕ) → AllAscii (reverse (digits x (base_number b) (ten_digit b)))
digits-ascii decimal x =
    AllAscii-reverse _ (digits-AllAscii x 10 0 (omega arith) (omega arith) (omega arith))
digits-ascii octal x =
    AllAscii-reverse _ (digits-AllAscii x 8 0 (omega arith) (omega arith) (omega arith))
digits-ascii lower_hex x =
    AllAscii-reverse _ (digits-AllAscii x 16 97 (omega arith) (omega arith) (omega arith))
digits-ascii upper_hex x =
    AllAscii-reverse _ (digits-AllAscii x 16 65 (omega arith) (omega arith) (omega arith))

filler-ascii : (f : Field) → filler f < 128
filler-ascii f = ground arith

field_length : (m k : ℕ) → (if ltb k m then m else k) ≡ m - k + k
field_length m k = ground arith

abbrev put_field : Base → Field → ℕ → Machine → ℕ × Machine
put_field b f x w = putiradix x (base_number b) (ten_digit b) (width_value 0 f.width) (filler f) w

putiradix-Prints :
    (b : Base) (f : Field) (x : ℕ) (w : Machine)
    → width_value 0 f.width < 2 ^ 31
    → let (k, w') = put_field b f x w in (k ≡ length (numeral b f x)) × Prints w (numeral b f x) w'
unfolding putiradix numeral
putiradix-Prints b f x w small =
    let ds = digits x (base_number b) (ten_digit b) in
    let m = width_value 0 f.width in
    let fits : ltb m (2 ^ 31) ≡ true = ground arith in
    let pad = replicate (m - length ds) (filler f) in
    let w1 = put_all pad w in
    let same : m - length (reverse ds) ≡ m - length ds = ap (λ t. m - t) (length-reverse ds) in
    rw (fits, same)
      (
        field_length m (length ds)
            ∙ ap₂ ◌+◌ (sym (length-replicate (m - length ds) (filler f))) (sym (length-reverse ds))
            ∙ sym (length-append pad (reverse ds)),
        Prints-append pad (reverse ds) w w1 (put_all (reverse ds) w1)
            (put_all-Prints pad w (AllAscii-replicate _ (filler f) (filler-ascii f)))
            (put_all-Prints (reverse ds) w1 (digits-ascii b x)),
      )

-- A conversion that takes its argument, if any, and prints `out`.
abbrev pub Converts : ℕ → ℕ → ℕ → List Arg → List Arg → ℕ → Machine → List ℕ → Type 0
Converts c m fill given args n w out =
    (w' : Machine) × (convert c m fill given n w ≡ some (u32 (n + length out), args, w'))
    × Prints w out w'

pub unsigned-Converts :
    (b : Base) (f : Field) (x : ℕ) (args : List Arg) (n : ℕ) (w : Machine)
    → width_value 0 f.width < 2 ^ 31
    → Converts
        (letter b)
        (width_value 0 f.width)
        (filler f)
        (word x ∷ args)
        args
        n
        w
        (numeral b f x)
unfolding convert
unsigned-Converts decimal f x args n w small =
    let w' = (put_field decimal f x w).1 in
    let (e, p) = putiradix-Prints decimal f x w small in
    (w', ap (λ k. some (u32 (n + k), args, w')) e, p)
unsigned-Converts octal f x args n w small =
    let w' = (put_field octal f x w).1 in
    let (e, p) = putiradix-Prints octal f x w small in
    (w', ap (λ k. some (u32 (n + k), args, w')) e, p)
unsigned-Converts lower_hex f x args n w small =
    let w' = (put_field lower_hex f x w).1 in
    let (e, p) = putiradix-Prints lower_hex f x w small in
    (w', ap (λ k. some (u32 (n + k), args, w')) e, p)
unsigned-Converts upper_hex f x args n w small =
    let w' = (put_field upper_hex f x w).1 in
    let (e, p) = putiradix-Prints upper_hex f x w small in
    (w', ap (λ k. some (u32 (n + k), args, w')) e, p)

pub signed-Converts :
    (f : Field) (x : ℕ) (args : List Arg) (n : ℕ) (w : Machine)
    → x < 2 ^ 32
    → width_value 0 f.width < 2 ^ 31
    → Converts b'd'
        (width_value 0 f.width)
        (filler f)
        (word x ∷ args)
        args
        n
        w
        (output (signed f x))
unfolding convert output
signed-Converts f x args n w h small = elim (Bool-cases (ltb x (2 ^ 31))) [
  | inl positive ↦
      let w' = (put_field decimal f x w).1 in
      let (e, p) = putiradix-Prints decimal f x w small in
      rw positive (w', ap (λ k. some (u32 (n + k), args, w')) e, p)
  | inr negative ↦
      let y = 2 ^ 32 - x in
      let word_size : u32 y ≡ y = ground arith in
      let w1 = putchar b'-' w in
      let (e, p) = putiradix-Prints decimal f y w1 small in
      let w' = (put_field decimal f y w1).1 in
      let counted : u32 (u32 (n + 1) + length (numeral decimal f y))
          ≡ u32 (n + suc (length (numeral decimal f y))) =
        omega arith in
      rw negative (
        rw word_size (
          w',
          ap (λ k. some (u32 (u32 (n + 1) + k), args, w')) e ∙ ap (λ k. some (k, args, w')) counted,
          Prints-append (b'-' ∷ []) (numeral decimal f y) w w1 w'
              (putchar-Prints b'-' w (omega arith)) p,
        ))
]

pub pointer-Converts :
    (f : Field) (x : ℕ) (args : List Arg) (n : ℕ) (w : Machine)
    → width_value 0 f.width < 2 ^ 31
    → Converts b'p'
        (width_value 0 f.width)
        (filler f)
        (word x ∷ args)
        args
        n
        w
        (output (pointer f x))
unfolding convert output puts
pointer-Converts f x args n w small =
    let w1 = show (b'0' ∷ b'x' ∷ []) w in
    let (e, p) = putiradix-Prints lower_hex f x w1 small in
    let w' = (put_field lower_hex f x w1).1 in
    let counted : u32 (u32 (n + 2) + length (numeral lower_hex f x))
        ≡ u32 (n + suc (suc (length (numeral lower_hex f x)))) =
      omega arith in
    (
      w',
      ap (λ k. some (u32 (u32 (n + 2) + k), args, w')) e ∙ ap (λ k. some (k, args, w')) counted,
      Prints-append (b'0' ∷ b'x' ∷ []) (numeral lower_hex f x) w w1 w'
          (show-Prints (b'0' ∷ b'x' ∷ []) w (omega arith, (omega arith, tt))) p,
    )
