-- ===== src/Libc/Strings.antt =====
-- The string functions of libc/string.c. A walk along a string takes fuel, one for each byte up to
-- the zero byte: `none` is that it ran out. A null pointer is an inner `none`.
pub mod Copy
pub mod Scan
mod Tests
use oldasternix.Prelude.{
  ◌>>=◌, ℕ, zero, suc, ◌+◌, ◌-◌, ◌≡◌, ◌≢◌, Bool, true, false, not, ◌&&◌, Option, none, some, List,
  [], ◌∷◌, ◌==◌, if◌then◌else◌,
}
use oldasternix.Prelude.Int.{ℤ, pos, ◌-ℤ◌, eq_ℤ}
use oldasternix.Prelude.Word.{u32, schar}
use oldasternix.Libc.Memory.{Memory, poke}

-- At `p` stand the nonzero bytes `xs`, and then a zero byte.
abbrev pub IsCString : Memory → ℕ → List ℕ → Type 0
IsCString m p [] = m p ≡ 0
IsCString m p (x ∷ xs) = (m p ≡ x) × (x ≢ 0) × IsCString m (p + 1) xs

pub seek_end : ℕ → Memory → ℕ → Option ℕ
seek_end zero m s = none
seek_end (suc f) m s = let rest = seek_end f m (s + 1) in if m s == 0 then some s else rest

pub strcpy_loop : ℕ → Memory → ℕ → ℕ → Option Memory
strcpy_loop zero m dest src = none
strcpy_loop (suc f) m dest src =
    let m' = poke m dest (m src) in
    let rest = strcpy_loop f m' (dest + 1) (src + 1) in if m src == 0 then some m' else rest

-- The new memory; the pointer that `strcpy` returns is `dest`.
pub strcpy : ℕ → Memory → ℕ → ℕ → Option (Memory × ℕ)
unfolding strcpy_loop
strcpy f m dest src = do m' ← strcpy_loop f m dest src; some (m', dest)

pub strncpy_loop : Memory → ℕ → ℕ → ℕ → Memory
strncpy_loop m dest src zero = poke m dest 0
strncpy_loop m dest src (suc n) =
    let m' = poke m dest (m src) in
    let rest = strncpy_loop m' (dest + 1) (src + 1) n in
    if m src == 0 then poke m' (dest + 1) 0 else rest

pub strncpy : Memory → ℕ → ℕ → ℕ → Memory × ℕ
unfolding strncpy_loop
strncpy m dest src n = (strncpy_loop m dest src n, dest)

pub strcat : ℕ → Memory → ℕ → ℕ → Option (Memory × ℕ)
unfolding seek_end strcpy
strcat f m dest src = do end ← seek_end f m dest; (m', _) ← strcpy f m end src; some (m', dest)

pub strncat : ℕ → Memory → ℕ → ℕ → ℕ → Option (Memory × ℕ)
unfolding seek_end strncpy
strncat f m dest src n = do end ← seek_end f m dest; some ((strncpy m end src n).0, dest)

pub strlen_loop : ℕ → Memory → ℕ → ℕ → Option ℕ
strlen_loop zero m s n = none
strlen_loop (suc f) m s n =
    let rest = strlen_loop f m (s + 1) (u32 (n + 1)) in if m s == 0 then some n else rest

pub strlen : ℕ → Memory → ℕ → Option ℕ
unfolding strlen_loop
strlen f m s = strlen_loop f m s 0

pub strcmp : ℕ → Memory → ℕ → ℕ → Option ℤ
strcmp zero m lhs rhs = none
strcmp (suc f) m lhs rhs =
    let rest = strcmp f m (lhs + 1) (rhs + 1) in
    if not (m lhs == 0) && not (m rhs == 0) && (m lhs == m rhs)
    then rest
    else some (schar (m rhs) -ℤ schar (m lhs))

-- The do-while loop of `strncmp`, with `n` more bytes after the current ones.
pub strncmp_from : Memory → ℕ → ℕ → ℕ → ℤ
strncmp_from m lhs rhs zero = schar (m rhs) -ℤ schar (m lhs)
strncmp_from m lhs rhs (suc n) =
    let rest = strncmp_from m (lhs + 1) (rhs + 1) n in
    if not (m lhs == 0) && not (m rhs == 0) && (m lhs == m rhs)
    then rest
    else schar (m rhs) -ℤ schar (m lhs)

pub strncmp : Memory → ℕ → ℕ → ℕ → ℤ
unfolding strncmp_from
strncmp m lhs rhs zero = pos 0
strncmp m lhs rhs (suc n) = strncmp_from m lhs rhs n

pub strchr : ℕ → Memory → ℕ → ℤ → Option (Option ℕ)
strchr zero m s ch = none
strchr (suc f) m s ch =
    let rest = strchr f m (s + 1) ch in
    if eq_ℤ (schar (m s)) ch then some (some s) else if m s == 0 then some none else rest

-- The backward loop of `strrchr`.
pub strrchr_loop : ℕ → Memory → ℕ → ℤ → Option (Option ℕ)
strrchr_loop zero m s ch = none
strrchr_loop (suc f) m s ch =
    let rest = strrchr_loop f m (s - 1) ch in
    if eq_ℤ (schar (m s)) ch then some (some s) else if m s == 0 then some none else rest

pub strrchr : ℕ → Memory → ℕ → ℤ → Option (Option ℕ)
unfolding seek_end strrchr_loop
strrchr f m s ch = do end ← seek_end f m s; strrchr_loop f m end ch

-- The loop that `strspn` (`keep` is true) and `strcspn` share.
pub span_loop : Bool → ℕ → Memory → ℕ → ℕ → ℕ → Option ℕ
span_loop keep zero m dest src n = none
span_loop keep (suc f) m dest src n =
    let rest = span_loop keep f m (dest + 1) src (u32 (n + 1)) in
    if m dest == 0 then some n else (do
      found ← strchr (suc f) m src (schar (m dest))
      elim found [ none ↦ if keep then some n else rest | some _ ↦ if keep then rest else some n ])

pub strspn : ℕ → Memory → ℕ → ℕ → Option ℕ
unfolding span_loop
strspn f m dest src = span_loop true f m dest src 0

pub strcspn : ℕ → Memory → ℕ → ℕ → Option ℕ
unfolding span_loop
strcspn f m dest src = span_loop false f m dest src 0

pub strpbrk : ℕ → Memory → ℕ → ℕ → Option (Option ℕ)
unfolding strcspn
strpbrk f m dest breakset = do
  n ← strcspn f m dest breakset
  some (if m (dest + n) == 0 then none else some (dest + n))

pub strstr_loop : ℕ → Memory → ℕ → ℕ → ℕ → Option (Option ℕ)
strstr_loop zero m dest src n = none
strstr_loop (suc f) m dest src n =
    let rest = strstr_loop f m (dest + 1) src n in
    if m dest == 0
    then some none
    else if eq_ℤ (strncmp m dest src n) (pos 0)
    then some (some dest)
    else rest

pub strstr : ℕ → Memory → ℕ → ℕ → Option (Option ℕ)
unfolding strlen strstr_loop strncmp
strstr f m dest src = do n ← strlen f m src; strstr_loop f m dest src n
