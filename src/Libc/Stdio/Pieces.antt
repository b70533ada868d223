-- ===== src/Libc/Stdio/Pieces.antt =====
-- Formats described by their pieces: how a piece is spelled, what arguments it takes and what it
-- prints.
use oldasternix.Prelude.{
  ℕ, ◌+◌, ◌-◌, ◌*◌, ◌^◌, ◌≤◌, ◌<◌, ◌≡◌, ◌≢◌, ◌⊎◌, Bool, true, false, List, [], ◌∷◌, ◌++◌, ltb,
  if◌then◌else◌, length, replicate,
}
use mathlib.Core.List.{reverse}
use oldasternix.Libc.Stdio.{Arg, word, text, digits}
use oldasternix.Kernel.Console.Typing.{AllAscii}

-- What stands between '%' and the letter: whether the flag '0' is there, and the width's digits.
pub record Field : Type 0 where
  pub zeros : Bool
  pub width : List ℕ

abbrev pub no_field : Field
no_field = record { zeros = false; width = [] }

pub data Base : Type 0 where
  decimal octal lower_hex upper_hex : Base

pub data Piece : Type 0 where
  literal : ℕ → Piece
  percent : Piece
  string : List ℕ → Piece
  character : ℕ → Piece
  signed : Field → ℕ → Piece
  unsigned : Base → Field → ℕ → Piece
  pointer : Field → ℕ → Piece

-- The format that asks for a piece.
abbrev pub letter : Base → ℕ
letter decimal = b'u'
letter octal = b'o'
letter lower_hex = b'x'
letter upper_hex = b'X'

abbrev pub spell_field : Field → List ℕ
spell_field f = if f.zeros then b'0' ∷ f.width else f.width

abbrev pub spell : Piece → List ℕ
spell (literal c) = c ∷ []
spell percent = b'%' ∷ b'%' ∷ []
spell (string s) = b'%' ∷ b's' ∷ []
spell (character c) = b'%' ∷ b'c' ∷ []
spell (signed f x) = b'%' ∷ (spell_field f ++ b'd' ∷ [])
spell (unsigned b f x) = b'%' ∷ (spell_field f ++ letter b ∷ [])
spell (pointer f x) = b'%' ∷ (spell_field f ++ b'p' ∷ [])

abbrev pub argument : Piece → List Arg
argument (string s) = text s ∷ []
argument (character c) = word c ∷ []
argument (signed f x) = word x ∷ []
argument (unsigned b f x) = word x ∷ []
argument (pointer f x) = word x ∷ []
argument _ = []

-- The number that the width's digits stand for.
abbrev pub width_value : ℕ → List ℕ → ℕ
width_value n [] = n
width_value n (c ∷ cs) = width_value (n * 10 + (c - b'0')) cs

abbrev pub base_number : Base → ℕ
base_number decimal = 10
base_number octal = 8
base_number _ = 16

abbrev pub ten_digit : Base → ℕ
ten_digit lower_hex = b'a'
ten_digit upper_hex = b'A'
ten_digit _ = 0

abbrev pub filler : Field → ℕ
filler f = if f.zeros then b'0' else b' '

-- A number, filled up on the left to the width.
unfoldable pub numeral : Base → Field → ℕ → List ℕ
numeral b f x =
    let ds = reverse (digits x (base_number b) (ten_digit b)) in
    replicate (width_value 0 f.width - length ds) (filler f) ++ ds

-- What a piece prints. A number with its top bit set is negative for `%d`; the sign comes in front
-- of the field.
unfoldable pub output : Piece → List ℕ
unfolding numeral
output (literal c) = c ∷ []
output percent = b'%' ∷ []
output (string s) = s
output (character c) = c ∷ []
output (signed f x) =
    if ltb x (2 ^ 31) then numeral decimal f x else b'-' ∷ numeral decimal f (2 ^ 32 - x)
output (unsigned b f x) = numeral b f x
output (pointer f x) = b'0' ∷ b'x' ∷ numeral lower_hex f x

abbrev pub spell_all : List Piece → List ℕ
spell_all [] = []
spell_all (p ∷ ps) = spell p ++ spell_all ps

abbrev pub arguments : List Piece → List Arg
arguments [] = []
arguments (p ∷ ps) = argument p ++ arguments ps

abbrev pub output_all : List Piece → List ℕ
output_all [] = []
output_all (p ∷ ps) = output p ++ output_all ps

abbrev pub AllDigits : List ℕ → Type 0
AllDigits [] = Unit {0}
AllDigits (c ∷ cs) = (b'0' ≤ c) × (c ≤ b'9') × AllDigits cs

abbrev pub FirstNotZero : List ℕ → Type 0
FirstNotZero [] = Unit {0}
FirstNotZero (c ∷ cs) = c ≢ b'0'

-- The width is made of digits, fits an `int`, and does not look like the flag where the flag is not
-- there.
abbrev pub IsField : Field → Type 0
IsField f =
    AllDigits f.width × (width_value 0 f.width < 2 ^ 31) × ((f.zeros ≡ true) ⊎ FirstNotZero f.width)

-- Literals and texts are ASCII, and numbers are 32-bit words.
abbrev pub IsPiece : Piece → Type 0
IsPiece (literal c) = (c ≢ b'%') × (c < 128)
IsPiece percent = Unit {0}
IsPiece (string s) = AllAscii s
IsPiece (character c) = c < 128
IsPiece (signed f x) = IsField f × (x < 2 ^ 32)
IsPiece (unsigned b f x) = IsField f × (x < 2 ^ 32)
IsPiece (pointer f x) = IsField f × (x < 2 ^ 32)

abbrev pub AllPieces : List Piece → Type 0
AllPieces [] = Unit {0}
AllPieces (p ∷ ps) = IsPiece p × AllPieces ps
