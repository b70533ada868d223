-- ===== src/Kernel/Ps2/Decode.antt =====
-- The interrupt handler of kernel/arch/i686/drivers/ps2_kb.c against a description of the scancode
-- sets by the sequences that a keyboard sends for a key.
use oldasternix.Prelude.{
  ℕ, ◌≡◌, ◌≢◌, refl, ap, ◌∙◌, inl, inr, Bool, true, false, Bool-cases, Option, some, ◌>>=◌, List,
  [], ◌∷◌, ◌++◌, ◌==◌, if◌then◌else◌, arith,
}
use oldasternix.Kernel.Interrupts.{Interrupts}
use oldasternix.Kernel.Machine.{Machine}
use oldasternix.Kernel.Ps2.{report, in_sequence, receive, receive2, receive3}
use oldasternix.Kernel.Ps2.Keycodes.{
  plain_codes, extended_codes, scs2_keycode, scs3_keycodes, scs3_keycode,
}
use oldasternix.Kernel.Ps2.State.{Ps2}

-- A key by the last scancode of its sequence; Pause and Print Screen have sequences of their own.
pub data Key : Type 0 where
  plain extended : ℕ → Key
  pause print_screen : Key

pub record Stroke : Type 0 where
  pub key : Key
  pub up : Bool

-- Scancode set 2: what the keyboard sends.
pub codes2 : Key → Bool → List ℕ
codes2 (plain c) false = c ∷ []
codes2 (plain c) true = 0xf0 ∷ c ∷ []
codes2 (extended c) false = 0xe0 ∷ c ∷ []
codes2 (extended c) true = 0xe0 ∷ 0xf0 ∷ c ∷ []
codes2 pause false = 0xe1 ∷ 0x14 ∷ 0x77 ∷ []
codes2 pause true = 0xe1 ∷ 0xf0 ∷ 0x14 ∷ 0xf0 ∷ 0x77 ∷ []
codes2 print_screen false = 0xe0 ∷ 0x12 ∷ 0xe0 ∷ 0x7c ∷ []
codes2 print_screen true = 0xe0 ∷ 0xf0 ∷ 0x7c ∷ 0xe0 ∷ 0xf0 ∷ 0x12 ∷ []

abbrev pub keycode2 : Key → ℕ
keycode2 (plain c) = scs2_keycode 0 c
keycode2 (extended c) = scs2_keycode 1 c
keycode2 pause = 0x0f
keycode2 print_screen = 0x0d

-- The scancode has a keycode of its own.
abbrev pub Known : ℕ → Type 0
Known keycode = (keycode ≢ 0xff) × (keycode ≢ 0xfe)

abbrev pub AllKnown : List Stroke → Type 0
AllKnown [] = Unit {0}
AllKnown (s ∷ strokes) = Known (keycode2 s.key) × AllKnown strokes

abbrev pub codes2_all : List Stroke → List ℕ
codes2_all [] = []
codes2_all (s ∷ strokes) = codes2 s.key s.up ++ codes2_all strokes

-- The keys as kernel/drivers/kb.c is told of them.
abbrev pub perform : List Stroke → Machine → Machine
perform [] w = w
perform (s ∷ strokes) w = perform strokes (report s.up (keycode2 s.key) w)

-- The handler's `switch` on scancodes one after another.
abbrev pub receive_all : List ℕ → Ps2 → Option Ps2
receive_all [] y = some y
receive_all (c ∷ codes) y = receive c y >>= receive_all codes

abbrev within : ℕ → Bool → ℕ → Machine → Interrupts → Ps2
within set release plane w t = record {
  machine = w;
  interrupts = t;
  scancode_set = set;
  release_next = release;
  ignore_next = 0;
  scancode_plane = plane;
}

-- The driver between two keys.
abbrev pub idle : ℕ → Machine → Interrupts → Ps2
idle set w t = within set false 0 w t

-- The three scancodes that change the handler's state have no keycode.
special-unknown :
    (plane : ℕ)
    → (scs2_keycode plane 0xf0 ≡ 0xff)
      × (scs2_keycode plane 0xe0 ≡ 0xff)
      × (scs2_keycode plane 0xe1 ≡ 0xff)
unfolding scs2_keycode plain_codes extended_codes
special-unknown plane = elim (Bool-cases (plane == 0)) [
  | inl first ↦ rw first (refl, refl, refl)
  | inr second ↦ rw second (refl, refl, refl)
]

not_special : (plane c : ℕ) → Known (scs2_keycode plane c) → (c ≢ 0xf0) × (c ≢ 0xe0) × (c ≢ 0xe1)
not_special plane c known =
    let (f0, e0, e1) = special-unknown plane in
    let same = λ (x : ℕ) (e : c ≡ x). ap (scs2_keycode plane) e in
    (
      λ e. known.0 (same 0xf0 e ∙ f0),
      λ e. known.0 (same 0xe0 e ∙ e0),
      λ e. known.0 (same 0xe1 e ∙ e1),
    )

receive-Known :
    (release : Bool) (plane c : ℕ) (w : Machine) (t : Interrupts)
    → Known (scs2_keycode plane c)
    → receive c (within 2 release plane w t)
      ≡ some (idle 2 (report release (scs2_keycode plane c) w) t)
unfolding receive receive2 in_sequence
receive-Known release plane c w t known =
    let (a, b, d) = not_special plane c known in
    let ff : (scs2_keycode plane c == 0xff) ≡ false = ground (arith, known) in
    let fe : (scs2_keycode plane c == 0xfe) ≡ false = ground (arith, known) in
    let f0 : (c == 0xf0) ≡ false = ground arith in
    let e0 : (c == 0xe0) ≡ false = ground arith in
    let e1 : (c == 0xe1) ≡ false = ground arith in rw (f0, e0, e1, ff, fe)

-- A code that only changes the handler's state.
receive-prefix :
    (release : Bool) (plane : ℕ) (w : Machine) (t : Interrupts)
    → (receive 0xf0 (within 2 release plane w t) ≡ some (within 2 true plane w t))
      × (receive 0xe0 (within 2 release plane w t) ≡ some (within 2 release 1 w t))
unfolding receive receive2
receive-prefix release plane w t = (refl, refl)

receive_all-stroke :
    (key : Key) (up : Bool) (rest : List ℕ) (w : Machine) (t : Interrupts)
    → Known (keycode2 key)
    → receive_all (codes2 key up ++ rest) (idle 2 w t)
      ≡ receive_all rest (idle 2 (report up (keycode2 key) w) t)
unfolding codes2
receive_all-stroke (plain c) false rest w t known = rw (receive-Known false 0 c w t known)
receive_all-stroke (plain c) true rest w t known =
    rw ((receive-prefix false 0 w t).0, receive-Known true 0 c w t known)
receive_all-stroke (extended c) false rest w t known =
    rw ((receive-prefix false 0 w t).1, receive-Known false 1 c w t known)
receive_all-stroke (extended c) true rest w t known = rw (
  (receive-prefix false 0 w t).1,
  (receive-prefix false 1 w t).0,
  receive-Known true 1 c w t known,
)
receive_all-stroke pause false rest w t known =
    unfold receive receive2 in_sequence scs2_keycode plain_codes extended_codes in refl
receive_all-stroke pause true rest w t known =
    unfold receive receive2 in_sequence scs2_keycode plain_codes extended_codes in refl
receive_all-stroke print_screen false rest w t known =
    unfold receive receive2 in_sequence scs2_keycode plain_codes extended_codes in refl
receive_all-stroke print_screen true rest w t known =
    unfold receive receive2 in_sequence scs2_keycode plain_codes extended_codes in refl

-- In scancode set 2, the sequences that a keyboard sends for presses and releases of keys, one key
-- after another, make the handler report exactly those presses and releases in order with their
-- keycodes, and leave it between two keys again: plain keys, keys behind the prefix 0xe0, Pause and
-- Print Screen. The keys have a keycode in the tables.
pub receive_all-perform :
    (strokes : List Stroke) (w : Machine) (t : Interrupts)
    → AllKnown strokes
    → receive_all (codes2_all strokes) (idle 2 w t) ≡ some (idle 2 (perform strokes w) t)
receive_all-perform [] w t known = refl
receive_all-perform (s ∷ strokes) w t known =
    receive_all-stroke s.key s.up (codes2_all strokes) w t known.0
    ∙ receive_all-perform strokes (report s.up (keycode2 s.key) w) t known.1

-- Scancode set 3: each key has one scancode.
pub record Stroke3 : Type 0 where
  pub code : ℕ
  pub up : Bool

abbrev pub codes3_all : List Stroke3 → List ℕ
codes3_all [] = []
codes3_all (s ∷ strokes) = (if s.up then 0xf0 ∷ s.code ∷ [] else s.code ∷ []) ++ codes3_all strokes

abbrev pub AllKnown3 : List Stroke3 → Type 0
AllKnown3 [] = Unit {0}
AllKnown3 (s ∷ strokes) = (scs3_keycode s.code ≢ 0xff) × AllKnown3 strokes

abbrev pub perform3 : List Stroke3 → Machine → Machine
perform3 [] w = w
perform3 (s ∷ strokes) w = perform3 strokes (report s.up (scs3_keycode s.code) w)

receive-Known3 :
    (release : Bool) (c : ℕ) (w : Machine) (t : Interrupts)
    → scs3_keycode c ≢ 0xff
    → receive c (within 3 release 0 w t) ≡ some (idle 3 (report release (scs3_keycode c) w) t)
unfolding receive receive3
receive-Known3 release c w t known =
    let unmapped : scs3_keycode 0xf0 ≡ 0xff = unfold scs3_keycode scs3_keycodes in refl in
    let other : c ≢ 0xf0 = λ e. known (ap scs3_keycode e ∙ unmapped) in
    let ff : (scs3_keycode c == 0xff) ≡ false = ground (arith, known) in
    let f0 : (c == 0xf0) ≡ false = ground arith in rw (f0, ff)

receive_all-stroke3 :
    (c : ℕ) (up : Bool) (rest : List ℕ) (w : Machine) (t : Interrupts)
    → scs3_keycode c ≢ 0xff
    → receive_all ((if up then 0xf0 ∷ c ∷ [] else c ∷ []) ++ rest) (idle 3 w t)
      ≡ receive_all rest (idle 3 (report up (scs3_keycode c) w) t)
receive_all-stroke3 c false rest w t known = rw (receive-Known3 false c w t known)
receive_all-stroke3 c true rest w t known =
    let released : receive 0xf0 (idle 3 w t) ≡ some (within 3 true 0 w t) =
      unfold receive receive3 in refl in
    rw (released, receive-Known3 true c w t known)

-- In scancode set 3, the sequences for presses and releases of keys with a known scancode make the
-- handler report exactly those presses and releases in order with their keycodes, and leave it
-- between two keys again.
pub receive_all-perform3 :
    (strokes : List Stroke3) (w : Machine) (t : Interrupts)
    → AllKnown3 strokes
    → receive_all (codes3_all strokes) (idle 3 w t) ≡ some (idle 3 (perform3 strokes w) t)
receive_all-perform3 [] w t known = refl
receive_all-perform3 (s ∷ strokes) w t known =
    receive_all-stroke3 s.code s.up (codes3_all strokes) w t known.0
    ∙ receive_all-perform3 strokes (report s.up (scs3_keycode s.code) w) t known.1
