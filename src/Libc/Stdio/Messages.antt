-- ===== src/Libc/Stdio/Messages.antt =====
-- What printing a message of a driver leaves as it is.
use oldasternix.Prelude.{
  inl, ℕ, ◌<◌, ◌≡◌, refl, ap, Bool, true, not, ◌&&◌, List, [], ◌∷◌, map, ◌++◌, ◌==◌, ltb, arith,
  Ends,
}
use oldasternix.Kernel.Console.Screen.{cell}
use oldasternix.Kernel.Machine.{Machine}
use oldasternix.Libc.Stdio.{say, printf}
use mathlib.Core.List.{append-nil}
use oldasternix.Libc.Stdio.Pieces.{
  IsPiece, unsigned, upper_hex, Piece, literal, spell_all, arguments, AllPieces,
}
use oldasternix.Libc.Stdio.Print.{vprintf-pieces}
use oldasternix.Libc.Stdio.Show.{off_screen}

-- What the driver's messages leave as it is, and that the cursor stays on the screen.
pub record Said (w w' : Machine) : Type 0 where
  pub modifiers : w'.modifiers ≡ w.modifiers
  pub queue_idx : w'.queue_idx ≡ w.queue_idx
  pub cursor : w'.cursor < 2000
  pub bus : off_screen w'.bus ≡ off_screen w.bus

say-Said :
    (ps : List Piece) (w : Machine)
    → AllPieces ps
    → w.cursor < 2000
    → Ends (say (spell_all ps) (arguments ps) w) (Said w)
unfolding printf
say-Said ps w h on =
    let (w', e, p) = vprintf-pieces ps w h in
    let shown =
      p.shows (record { at = cell w; cursor = w.cursor })
        (record { cells = λ i l. refl; place = refl; inside = on }) in
    (
      w',
      rw e,
      record {
        modifiers = p.modifiers;
        queue_idx = p.queue_idx;
        cursor = omega (arith, shown.place, shown.inside);
        bus = p.bus;
      },
    )

-- Every character stands for itself.
abbrev pub plain : List ℕ → Bool
plain [] = true
plain (c ∷ s) = not (c == b'%') && ltb c 128 && plain s

pub AllPieces-text :
    (s : List ℕ) (ps : List Piece) → plain s ≡ true → AllPieces ps → AllPieces (map literal s ++ ps)
AllPieces-text [] ps h all = all
AllPieces-text (c ∷ s) ps h all =
    ((ground arith, ground arith), AllPieces-text s ps (ground arith) all)

spell_all-text :
    (s : List ℕ) (ps : List Piece)
    → (spell_all (map literal s ++ ps) ≡ s ++ spell_all ps)
      × (arguments (map literal s ++ ps) ≡ arguments ps)
spell_all-text [] ps = (refl, refl)
spell_all-text (c ∷ s) ps =
    let (spelled, given) = spell_all-text s ps in (ap (λ t. c ∷ t) spelled, given)

-- A message that starts with a text.
pub say_pieces-Said :
    (s : List ℕ) (ps : List Piece) (w : Machine)
    → plain s ≡ true
    → AllPieces ps
    → w.cursor < 2000
    → Ends (say (s ++ spell_all ps) (arguments ps) w) (Said w)
say_pieces-Said s ps w h all on =
    let (spelled, given) = spell_all-text s ps in
    let ends = say-Said (map literal s ++ ps) w (AllPieces-text s ps h all) on in
    rw (spelled, given) at ends

pub say_text-Said :
    (s : List ℕ) (w : Machine) → plain s ≡ true → w.cursor < 2000 → Ends (say s [] w) (Said w)
say_text-Said s w h on = rw (append-nil s) at (say_pieces-Said s [] w h tt on)

-- A byte printed by "%02X".
abbrev pub hex_byte : ℕ → Piece
hex_byte x = unsigned upper_hex (record { zeros = true; width = b'2' ∷ [] }) x

pub hex_byte-IsPiece : (x : ℕ) → x < 256 → IsPiece (hex_byte x)
hex_byte-IsPiece x h = (((omega arith, omega arith, tt), omega arith, inl refl), omega arith)

-- The characters between and behind the numbers.
pub space-IsPiece : IsPiece (literal b' ')
space-IsPiece = (omega arith, omega arith)

pub newline-IsPiece : IsPiece (literal 10)
newline-IsPiece = (omega arith, omega arith)
