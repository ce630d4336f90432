-- ===== src/Base/Copy.antt =====
-- Go's `copy` and writes at an offset into a byte slice.
use Prim.Native.Nat.{ℕ, zero, suc, ◌+◌, ◌≤◌}
use mathlib.Core.Path.{◌≡◌, refl, ap, sym, ◌∙◌}
use mathlib.Core.List.{List, [], ◌∷◌, ◌++◌}
use native.Mathlib.Omega.{arith}
use zero_feed.Base.Lists.{length, length-drop, take, drop, set, replicate}

-- `copy(dst, src)`: as many bytes as both hold.
unfoldable pub copy : List ℕ → List ℕ → List ℕ
copy [] src = []
copy (d ∷ dst) [] = d ∷ dst
copy (d ∷ dst) (s ∷ src) = s ∷ copy dst src

-- `copy(dst[i:], src)`
unfoldable pub copy_at : ℕ → List ℕ → List ℕ → List ℕ
copy_at zero dst src = copy dst src
copy_at (suc i) [] src = []
copy_at (suc i) (d ∷ dst) src = d ∷ copy_at i dst src

-- `crypto.ZeroBytes`: each byte is overwritten with 0.
unfoldable pub zero_bytes : List ℕ → List ℕ
zero_bytes [] = []
zero_bytes (b ∷ bs) = 0 ∷ zero_bytes bs

pub copy_lem :
    (dst src : List ℕ) → length src ≤ length dst → copy dst src ≡ src ++ drop (length src) dst
unfolding copy
copy_lem [] [] h = refl
copy_lem [] (s ∷ src) h = elim h [ ]
copy_lem (d ∷ dst) [] h = refl
copy_lem (d ∷ dst) (s ∷ src) h = ap (λ l. s ∷ l) (copy_lem dst src (omega arith))

-- A copy that starts where a known prefix ends, and fits, replaces what follows.
pub copy_at-append :
    (i : ℕ) (front dst src : List ℕ)
    → length front ≡ i
    → length src ≤ length dst
    → copy_at i (front ++ dst) src ≡ front ++ (src ++ drop (length src) dst)
unfolding copy_at
copy_at-append zero [] dst src e h = copy_lem dst src h
copy_at-append zero (x ∷ front) dst src e h = absurd (omega arith)
copy_at-append (suc i) [] dst src e h = absurd (omega arith)
copy_at-append (suc i) (x ∷ front) dst src e h =
    ap (λ l. x ∷ l) (copy_at-append i front dst src (omega arith) h)

pub zero_bytes_lem : (bs : List ℕ) → zero_bytes bs ≡ replicate (length bs) 0
unfolding zero_bytes
zero_bytes_lem [] = refl
zero_bytes_lem (b ∷ bs) = ap (λ l. 0 ∷ l) (zero_bytes_lem bs)

-- A source that is too long is cut.
pub copy_cut : (dst src : List ℕ) → length dst ≤ length src → copy dst src ≡ take (length dst) src
unfolding copy
copy_cut [] src h = refl
copy_cut (d ∷ dst) [] h = elim h [ ]
copy_cut (d ∷ dst) (s ∷ src) h = ap (λ l. s ∷ l) (copy_cut dst src (omega arith))

pub copy_at-cut :
    (i : ℕ) (front dst src : List ℕ)
    → length front ≡ i
    → length dst ≤ length src
    → copy_at i (front ++ dst) src ≡ front ++ take (length dst) src
unfolding copy_at
copy_at-cut zero [] dst src e h = copy_cut dst src h
copy_at-cut zero (x ∷ front) dst src e h = absurd (omega arith)
copy_at-cut (suc i) [] dst src e h = absurd (omega arith)
copy_at-cut (suc i) (x ∷ front) dst src e h =
    ap (λ l. x ∷ l) (copy_at-cut i front dst src (omega arith) h)

pub set-append :
    (i : ℕ) (front dst : List ℕ) (v : ℕ)
    → length front ≡ i
    → 1 ≤ length dst
    → set (front ++ dst) i v ≡ front ++ (v ∷ drop 1 dst)
set-append zero [] [] v e h = elim h [ ]
set-append zero [] (d ∷ dst) v e h = refl
set-append zero (x ∷ front) dst v e h = absurd (omega arith)
set-append (suc i) [] dst v e h = absurd (omega arith)
set-append (suc i) (x ∷ front) dst v e h =
    ap (λ l. x ∷ l) (set-append i front dst v (omega arith) h)

drop-nil : (n : ℕ) → drop {A = ℕ} n [] ≡ []
drop-nil zero = refl
drop-nil (suc n) = refl

pub drop-drop : (n m k : ℕ) (xs : List ℕ) → n + m ≡ k → drop m (drop n xs) ≡ drop k xs
drop-drop zero m k xs e = let e' : m ≡ k = omega arith in ap (λ j. drop j xs) e'
drop-drop (suc n) m k [] e = drop-nil m ∙ sym (drop-nil k)
drop-drop (suc n) m zero (x ∷ xs) e = absurd (omega arith)
drop-drop (suc n) m (suc k) (x ∷ xs) e = drop-drop n m k xs (omega arith)

-- One more field written into a buffer whose front is done.
module _ (i j : ℕ) (front buf : List ℕ) (done : length front ≡ i) where
  pub copy_at-drop :
      (src : List ℕ)
      → i + length src ≡ j
      → j ≤ length buf
      → copy_at i (front ++ drop i buf) src ≡ front ++ (src ++ drop j buf)
  copy_at-drop src e h =
      copy_at-append i front (drop i buf) src done (omega (arith, length-drop i buf))
      ∙ ap (λ l. front ++ (src ++ l)) (drop-drop i (length src) j buf e)

  pub set-drop :
      (v : ℕ)
      → i + 1 ≡ j
      → j ≤ length buf
      → set (front ++ drop i buf) i v ≡ front ++ (v ∷ drop j buf)
  set-drop v e h =
      set-append i front (drop i buf) v done (omega (arith, length-drop i buf))
      ∙ ap (λ l. front ++ (v ∷ l)) (drop-drop i 1 j buf e)
