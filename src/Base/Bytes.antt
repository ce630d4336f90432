-- ===== src/Base/Bytes.antt =====
-- `encoding/binary.BigEndian`: the `n` low bytes of a number, highest first.
use Prim.Native.Nat.{ℕ, zero, suc, ◌+◌, ◌*◌, ◌/◌, ◌%◌, ◌^◌, ◌<◌}
use mathlib.Core.Path.{◌≡◌, refl, ap}
use mathlib.Core.List.{List, [], ◌∷◌, ◌++◌}
use native.Mathlib.Omega.{arith}
use native.Mathlib.Nat.{pow-suc}
use zero_feed.Base.Lists.{length, length-append, All}

abbrev pub IsByte : ℕ → Type 0
IsByte b = b < 256

-- PutUint16, PutUint32 and PutUint64 at n = 2, 4, 8.
unfoldable pub put_be : ℕ → ℕ → List ℕ
put_be zero v = []
put_be (suc n) v = put_be n (v / 256) ++ (v % 256 ∷ [])

get_be_from : ℕ → List ℕ → ℕ
get_be_from acc [] = acc
get_be_from acc (b ∷ bs) = get_be_from (acc * 256 + b) bs

-- Uint16, Uint32 and Uint64.
unfoldable pub get_be : List ℕ → ℕ
unfolding get_be_from
get_be bs = get_be_from 0 bs

get_be_from-snoc :
    (acc : ℕ) (bs : List ℕ) (b : ℕ)
    → get_be_from acc (bs ++ (b ∷ [])) ≡ get_be_from acc bs * 256 + b
unfolding get_be_from
get_be_from-snoc acc [] b = refl
get_be_from-snoc acc (c ∷ bs) b = get_be_from-snoc (acc * 256 + c) bs b

-- A number that fits is read back.
pub get_be-put_be : (n v : ℕ) → v < 256 ^ n → get_be (put_be n v) ≡ v
unfolding get_be put_be
get_be-put_be zero v h = omega arith
get_be-put_be (suc n) v h = omega (
  arith,
  get_be_from-snoc 0 (put_be n (v / 256)) (v % 256),
  get_be-put_be n (v / 256) (omega (arith, pow-suc 256 n)),
)

pub length-put_be : (n v : ℕ) → length (put_be n v) ≡ n
unfolding put_be
length-put_be zero v = refl
length-put_be (suc n) v =
    omega (arith, length-append (put_be n (v / 256)) (v % 256 ∷ []), length-put_be n (v / 256))

All-snoc : (bs : List ℕ) (b : ℕ) → All IsByte bs → b < 256 → All IsByte (bs ++ (b ∷ []))
All-snoc [] b h k = (k, tt)
All-snoc (c ∷ bs) b h k = (h.0, All-snoc bs b h.1 k)

pub put_be-IsByte : (n v : ℕ) → All IsByte (put_be n v)
unfolding put_be
put_be-IsByte zero v = tt
put_be-IsByte (suc n) v =
    All-snoc (put_be n (v / 256)) (v % 256) (put_be-IsByte n (v / 256)) (omega arith)

-- One more byte at the end is one more digit.
get_be-snoc : (bs : List ℕ) (b : ℕ) → get_be (bs ++ (b ∷ [])) ≡ get_be bs * 256 + b
unfolding get_be
get_be-snoc bs b = get_be_from-snoc 0 bs b

-- A list is empty, or ends in an element.
snoc_cases :
    (n : ℕ) (bs : List ℕ)
    → length bs ≡ suc n
    → (cs : List ℕ) × (c : ℕ) × (bs ≡ cs ++ (c ∷ [])) × (length cs ≡ n)
snoc_cases n [] e = absurd (omega arith)
snoc_cases zero (b ∷ []) e = ([], b, refl, refl)
snoc_cases zero (b ∷ c ∷ bs) e = absurd (omega arith)
snoc_cases (suc n) (b ∷ bs) e =
    let (cs, c, p, q) = snoc_cases n bs (omega arith) in (b ∷ cs, c, ap (λ l. b ∷ l) p, ap suc q)

All-init : (bs : List ℕ) (b : ℕ) → All IsByte (bs ++ (b ∷ [])) → All IsByte bs × (b < 256)
All-init [] b h = (tt, h.0)
All-init (c ∷ bs) b h = let (k, l) = All-init bs b h.1 in ((h.0, k), l)

-- Bytes that are read as a number are written back.
pub put_be-get_be :
    (n : ℕ) (bs : List ℕ) → length bs ≡ n → All IsByte bs → put_be n (get_be bs) ≡ bs
unfolding put_be
put_be-get_be zero [] e h = refl
put_be-get_be zero (b ∷ bs) e h = absurd (omega arith)
put_be-get_be (suc n) bs e h =
    let (cs, c, p, q) = snoc_cases n bs e in
    let (hcs, hc) = All-init cs c (rw p at h) in
    let high : (get_be cs * 256 + c) / 256 ≡ get_be cs = omega arith in
    let low : (get_be cs * 256 + c) % 256 ≡ c = omega arith in
    rw (p, get_be-snoc, high, low, put_be-get_be n cs q hcs)
