-- ===== src/Kernel/Keyboard/Queue.antt =====
-- The input queue of kernel/drivers/kb.c as a list of characters.
use oldasternix.Prelude.{
  ℕ, zero, suc, ◌+◌, ◌-◌, ◌≤◌, ◌<◌, ◌≡◌, sym, ◌∙◌, ap, ap₂, ◌⊎◌, inl, inr, Bool-cases, leb, ltb,
  List, [], ◌∷◌, ◌++◌, min, ◌^◌, if◌then◌else◌, arith, take, drop,
}
use oldasternix.Prelude.Int.{pos}
use oldasternix.Libc.Memory.{Memory, poke, bytes, bytes_ext}
use oldasternix.Libc.Block.{memcpy, memmove, memcpy_lem, memmove_lem}
use oldasternix.Kernel.Machine.{Machine}
use oldasternix.Kernel.Keyboard.{
  queue_len, enqueue, vconsole_read, kb_key_pressed, kb_key_released, kb_set_mod, key_typed,
}

-- The characters that wait, oldest first.
abbrev pub contents : Machine → List ℕ
contents w = bytes w.memory w.input_queue w.queue_idx

bytes-take : (m : Memory) (p n k : ℕ) → take n (bytes m p k) ≡ bytes m p (min n k)
unfolding bytes
bytes-take m p zero k = ground (arith, (let e : min 0 k ≡ 0 = omega arith in e))
bytes-take m p (suc n) zero = ground arith
bytes-take m p (suc n) (suc k) =
    let e : min (suc n) (suc k) ≡ suc (min n k) = omega arith in
    rw e (ap (λ t. m p ∷ t) (bytes-take m (p + 1) n k))

bytes-drop : (m : Memory) (p n k : ℕ) → drop n (bytes m p k) ≡ bytes m (p + min n k) (k - min n k)
unfolding bytes
bytes-drop m p zero k =
    let e : p + min 0 k ≡ p = omega arith in let e' : k - min 0 k ≡ k = omega arith in rw (e, e')
bytes-drop m p (suc n) zero = let e : 0 - min (suc n) 0 ≡ 0 = omega arith in rw e
bytes-drop m p (suc n) (suc k) =
    let e : p + min (suc n) (suc k) ≡ p + 1 + min n k = omega arith in
    let e' : suc k - min (suc n) (suc k) ≡ k - min n k = omega arith in
    rw (e, e') (bytes-drop m (p + 1) n k)

bytes-snoc : (m : Memory) (p n : ℕ) → bytes m p (n + 1) ≡ bytes m p n ++ m (p + n) ∷ []
unfolding bytes
bytes-snoc m p zero = ground arith
bytes-snoc m p (suc n) =
    let e : suc n + 1 ≡ suc (n + 1) = omega arith in
    let e' : p + suc n ≡ p + 1 + n = omega arith in
    rw (e, e') (ap (λ t. m p ∷ t) (bytes-snoc m (p + 1) n))

bytes-poke : (m : Memory) (p n v : ℕ) → bytes (poke m (p + n) v) p (n + 1) ≡ bytes m p n ++ v ∷ []
unfolding poke
bytes-poke m p n v =
    bytes-snoc (poke m (p + n) v) p n
    ∙ ap₂ (λ xs x. xs ++ x ∷ []) (bytes_ext (poke m (p + n) v) m p p n (λ i l. ground arith))
        (ground arith)

-- What is left of a full queue of `n + 1` characters when it moves up by one.
bytes-shift :
    (m : Memory) (p n : ℕ) → bytes (memmove m p (p + 1) n) p n ≡ drop 1 (bytes m p (n + 1))
bytes-shift m p n =
    bytes_ext (memmove m p (p + 1) n) m p (p + 1) n
      (λ i l. ground (arith, memmove_lem m p (p + 1) n (p + i)))
    ∙ sym (bytes-drop m p 1 (n + 1) ∙ ends)
  where
    ends : bytes m (p + min 1 (n + 1)) (n + 1 - min 1 (n + 1)) ≡ bytes m (p + 1) n
    ends =
        let e : min 1 (n + 1) ≡ 1 = omega arith in
        let e' : n + 1 - 1 ≡ n = omega arith in rw (e, e')

-- The queue fits its array.
abbrev pub Fits : Machine → Type 0
Fits w = w.queue_idx ≤ queue_len

-- `vconsole_read` moves the oldest characters of the queue, at most `n`, to the buffer and returns
-- their number; the others wait on in order, and the queue still fits its array. The queue fits
-- before, the buffer does not meet the queue, and `n` is below 2^31.
pub vconsole_read-take :
    (buf n : ℕ) (w : Machine)
    → Fits w
    → n < 2 ^ 31
    → (buf + n ≤ w.input_queue) ⊎ (w.input_queue + queue_len ≤ buf)
    → let (r, w') = vconsole_read buf n w in
      let k = min n w.queue_idx in
      (r ≡ pos k)
      × (bytes w'.memory buf k ≡ take n (contents w))
      × (contents w' ≡ drop n (contents w))
      × Fits w'
unfolding vconsole_read
vconsole_read-take buf n w fits small apart =
    let q = w.input_queue in
    let len = w.queue_idx in
    let k = min n len in
    let count : (if ltb len n then len else n) ≡ k = ground arith in
    let m1 = memcpy w.memory buf q k in
    let m2 = memmove m1 q (q + k) (len - k) in
    let got : bytes m2 buf k ≡ bytes w.memory q k = bytes_ext m2 w.memory buf q k (λ i l. ground (
      arith,
      memmove_lem m1 q (q + k) (len - k) (buf + i),
      memcpy_lem w.memory buf q k (buf + i),
    )) in
    let left : bytes m2 q (len - k) ≡ bytes w.memory (q + k) (len - k) =
      bytes_ext m2 w.memory q (q + k) (len - k) (λ i l. ground (
        arith,
        memmove_lem m1 q (q + k) (len - k) (q + i),
        memcpy_lem w.memory buf q k (q + k + i),
      )) in
    let gone : drop n (contents w) ≡ bytes w.memory (q + k) (len - k) =
      bytes-drop w.memory q n len in
    rw count (ground arith, got ∙ sym (bytes-take w.memory q n len), left ∙ sym gone, omega arith)

-- A typed character goes behind the queue; a full queue first loses its oldest character. A queue
-- that fits its array of 256 characters still does.
pub enqueue-append :
    (ch : ℕ) (w : Machine)
    → Fits w
    → (contents (enqueue ch w)
        ≡ (if leb queue_len w.queue_idx then drop 1 (contents w) else contents w) ++ ch ∷ [])
      × Fits (enqueue ch w)
unfolding enqueue
enqueue-append ch w fits = elim (Bool-cases (leb queue_len w.queue_idx)) [
  | inl full ↦
      let n = w.queue_idx - 1 in
      let e : w.queue_idx ≡ n + 1 = ground arith in
      let m = memmove w.memory w.input_queue (w.input_queue + 1) n in
      ground (
        arith,
        bytes-poke m w.input_queue n ch,
        bytes-shift w.memory w.input_queue n,
        ap (λ t. bytes w.memory w.input_queue t) e,
      )
  | inr room ↦ ground (arith, bytes-poke w.memory w.input_queue w.queue_idx ch)
]

-- Every key press and release keeps the queue within its array, and the cursor where it is.
pub Fits-keys :
    (code : ℕ) (w : Machine)
    → Fits w
    → Fits (kb_key_pressed code w)
      × Fits (kb_key_released code w)
      × ((kb_key_pressed code w).cursor ≡ w.cursor)
      × ((kb_key_released code w).cursor ≡ w.cursor)
unfolding kb_key_pressed kb_key_released kb_set_mod key_typed enqueue
Fits-keys code w fits = ground arith
