-- ===== src/Kernel/Keyboard/Modifiers.antt =====
-- The modifier byte of kernel/drivers/kb.c, and the keys that change it.
use oldasternix.Prelude.{
  ℕ, ◌<◌, ◌^◌, ltb, xor, ◌≡◌, refl, Bool, true, false, not, ◌&&◌, ◌||◌, ◌==◌, if◌then◌else◌, arith,
}
use oldasternix.Prelude.Bits.{all_below, all_below-elim}
use oldasternix.Kernel.Machine.{Machine}
use oldasternix.Kernel.Keyboard.{
  get_mod, set_mod, kb_get_mod, kb_set_mod, kb_key_pressed, kb_key_released, key_typed, enqueue,
  lshift, rshift, lctrl, rctrl, lalt, ralt, caps,
}

-- The keys that have a flag of their own.
pub data ModKey : Type 0 where
  left_shift right_shift left_ctrl right_ctrl left_alt right_alt : ModKey

abbrev pub flag : ModKey → ℕ
flag left_shift = lshift
flag right_shift = rshift
flag left_ctrl = lctrl
flag right_ctrl = rctrl
flag left_alt = lalt
flag right_alt = ralt

abbrev pub keycode : ModKey → ℕ
keycode left_shift = 0x80
keycode right_shift = 0x8b
keycode left_ctrl = 0xa0
keycode right_ctrl = 0xa7
keycode left_alt = 0xa2
keycode right_alt = 0xa4

abbrev pub index : ModKey → ℕ
index left_shift = 0
index right_shift = 1
index left_ctrl = 2
index right_ctrl = 3
index left_alt = 4
index right_alt = 5

abbrev agree : Bool → Bool → Bool
agree a b = not (xor a b)

agree→eq : (a b : Bool) → agree a b ≡ true → a ≡ b
agree→eq a b h = ground arith

-- Setting flag `i` to `v` in the byte `x`, and reading flag `j` of the result.
abbrev set_get : ℕ → ℕ → ℕ → Bool → Bool
set_get x i j v =
    agree (get_mod (set_mod x (2 ^ i) v) (2 ^ j)) (if i == j then v else get_mod x (2 ^ j))
    && ltb (set_mod x (2 ^ i) v) 256

set_get_table :
    all_below 256
      (λ x. all_below 7 (λ i. all_below 7 (λ j. set_get x i j true && set_get x i j false)))
    ≡ true
unfolding all_below get_mod set_mod
set_get_table = refl

set_get_row :
    (x i j : ℕ) → x < 256 → i < 7 → j < 7 → (set_get x i j true && set_get x i j false) ≡ true
set_get_row x i j hx hi hj =
    all_below-elim 7 (λ j. set_get x i j true && set_get x i j false) j
      (all_below-elim 7 (λ i. all_below 7 (λ j. set_get x i j true && set_get x i j false)) i
        (all_below-elim 256
          (λ x. all_below 7 (λ i. all_below 7 (λ j. set_get x i j true && set_get x i j false))) x
          set_get_table hx)
        hi)
      hj

pub get_mod-set_mod :
    (x i j : ℕ) (v : Bool)
    → x < 256
    → i < 7
    → j < 7
    → (get_mod (set_mod x (2 ^ i) v) (2 ^ j) ≡ (if i == j then v else get_mod x (2 ^ j)))
      × (set_mod x (2 ^ i) v < 256)
get_mod-set_mod x i j true hx hi hj = ground (arith, set_get_row x i j hx hi hj)
get_mod-set_mod x i j false hx hi hj = ground (arith, set_get_row x i j hx hi hj)

flag-pow : (k : ModKey) → flag k ≡ 2 ^ index k
flag-pow left_shift = refl
flag-pow right_shift = refl
flag-pow left_ctrl = refl
flag-pow right_ctrl = refl
flag-pow left_alt = refl
flag-pow right_alt = refl

index-lt6 : (k : ModKey) → index k < 6
index-lt6 left_shift = omega arith
index-lt6 right_shift = omega arith
index-lt6 left_ctrl = omega arith
index-lt6 right_ctrl = omega arith
index-lt6 left_alt = omega arith
index-lt6 right_alt = omega arith

kb_key_pressed-mod :
    (j : ModKey) (w : Machine) → kb_key_pressed (keycode j) w ≡ kb_set_mod (flag j) true w
unfolding kb_key_pressed
kb_key_pressed-mod left_shift w = refl
kb_key_pressed-mod right_shift w = refl
kb_key_pressed-mod left_ctrl w = refl
kb_key_pressed-mod right_ctrl w = refl
kb_key_pressed-mod left_alt w = refl
kb_key_pressed-mod right_alt w = refl

kb_key_released-mod :
    (j : ModKey) (w : Machine) → kb_key_released (keycode j) w ≡ kb_set_mod (flag j) false w
unfolding kb_key_released
kb_key_released-mod left_shift w = refl
kb_key_released-mod right_shift w = refl
kb_key_released-mod left_ctrl w = refl
kb_key_released-mod right_ctrl w = refl
kb_key_released-mod left_alt w = refl
kb_key_released-mod right_alt w = refl

get_mod-flag :
    (j k : ModKey) (x : ℕ) (v : Bool)
    → x < 256
    → get_mod (set_mod x (flag j) v) (flag k)
      ≡ (if index j == index k then v else get_mod x (flag k))
get_mod-flag j k x v h =
    rw (flag-pow j, flag-pow k)
      (get_mod-set_mod x (index j) (index k) v h (omega (arith, index-lt6 j))
        (omega (arith, index-lt6 k))).0

-- With a byte of modifiers, pressing one of the six modifier keys makes its own flag read true,
-- releasing it makes it read false, and the flags of the other five read as before; nothing else of
-- the machine changes.
pub kb_get_mod-key :
    (j k : ModKey) (w : Machine)
    → w.modifiers < 256
    → let down = kb_key_pressed (keycode j) w in
      let up = kb_key_released (keycode j) w in
      let same = index j == index k in
      (kb_get_mod (flag k) down ≡ (same || kb_get_mod (flag k) w))
      × (kb_get_mod (flag k) up ≡ (not same && kb_get_mod (flag k) w))
      × (record down { modifiers = w.modifiers } ≡ w)
      × (record up { modifiers = w.modifiers } ≡ w)
unfolding kb_get_mod kb_set_mod
kb_get_mod-key j k w h =
    rw (kb_key_pressed-mod j w, kb_key_released-mod j w)
      (
        ground (arith, get_mod-flag j k w.modifiers true),
        ground (arith, get_mod-flag j k w.modifiers false),
        refl,
        refl,
      )

-- With a byte of modifiers, pressing caps lock toggles its flag and leaves the flags of the
-- modifier keys alone, and releasing it does nothing.
pub kb_get_mod-caps :
    (w : Machine)
    → w.modifiers < 256
    → let down = kb_key_pressed 0x60 w in
      (kb_get_mod caps down ≡ not (kb_get_mod caps w))
      × (kb_key_released 0x60 w ≡ w)
      × ((k : ModKey) → kb_get_mod (flag k) down ≡ kb_get_mod (flag k) w)
unfolding kb_get_mod kb_set_mod kb_key_pressed kb_key_released
kb_get_mod-caps w h =
    let new = not (get_mod w.modifiers caps) in
    (
      (get_mod-set_mod w.modifiers 6 6 new h (omega arith) (omega arith)).0,
      refl,
      λ k.
          rw (flag-pow k)
            (ground (arith, index-lt6 k, get_mod-set_mod w.modifiers 6 (index k) new h)),
    )

-- Every key press and release keeps the modifiers a byte.
pub modifiers-byte :
    (code : ℕ) (w : Machine)
    → w.modifiers < 256
    → ((kb_key_pressed code w).modifiers < 256) × ((kb_key_released code w).modifiers < 256)
unfolding kb_key_pressed kb_key_released kb_set_mod set_mod key_typed enqueue
modifiers-byte code w h = ground arith
