-- ===== src/Cli/Sizes/Units.antt =====
-- What parseByteSize of main.go makes of a number with a unit.
use zero_feed.Base.{
  ℕ, zero, suc, ◌-◌, ◌*◌, ◌%◌, ◌^◌, ◌≤◌, ◌≡◌, refl, sym, ap, ◌∙◌, inl, inr, Bool, true, false, ◌&&◌,
  ◌||◌, [], ◌∷◌, ◌++◌, length, drop, ltb, leb, ◌==◌, if◌then◌else◌, Bool-cases, All, All-append,
  length-append, take-append, drop-append, bytes_equal, bytes_equal_refl, bytes_equal_sound,
  has_suffix, codes, append_assoc, append-nil, arith,
}
use zero_feed.Feed.Invite.{Bytes, is_empty}
use zero_feed.Cli.Shell.{Shell}
use zero_feed.Cli.Sizes.{
  trim_suffix, is_digit, take_digits, value_from, scan_uint, scaled, trim_unit, ends_in, size_of,
  parse_byte_size,
}

drop-append_le : (n : ℕ) (t s : Bytes) → n ≤ length t → drop n (t ++ s) ≡ drop n t ++ s
drop-append_le zero t s h = refl
drop-append_le (suc n) [] s h = absurd (omega arith)
drop-append_le (suc n) (c ∷ t) s h = drop-append_le n t s (omega arith)

last : ℕ → Bytes → ℕ
last d [] = d
last d (c ∷ s) = last c s

last-append : (d : ℕ) (s : Bytes) (x : ℕ) → last d (s ++ x ∷ []) ≡ x
unfolding last
last-append d [] x = refl
last-append d (c ∷ s) x = last-append c s x

-- A text whose last byte is another one has not the suffix.
has_suffix-last :
    (t : Bytes) (x : ℕ) (suffix : Bytes) (y : ℕ)
    → (x == y) ≡ false
    → has_suffix (t ++ x ∷ []) (suffix ++ y ∷ []) ≡ false
has_suffix-last t x suffix y h =
    elim (Bool-cases (leb (length (suffix ++ y ∷ [])) (length (t ++ x ∷ [])))) [
      | inr e ↦ rw e refl
      | inl e ↦
          let n = length (t ++ x ∷ []) - length (suffix ++ y ∷ []) in
          let small : n ≤ length t =
            omega (arith, length-append {0} t (x ∷ []), length-append {0} suffix (y ∷ [])) in
          elim (Bool-cases (bytes_equal (drop n (t ++ x ∷ [])) (suffix ++ y ∷ []))) [
            | inr k ↦ rw (e, k) refl
            | inl k ↦
                let same : drop n t ++ x ∷ [] ≡ suffix ++ y ∷ [] =
                  sym (drop-append_le n t (x ∷ []) small)
                  ∙ bytes_equal_sound (drop n (t ++ x ∷ [])) (suffix ++ y ∷ []) k in
                let e' : x ≡ y =
                  sym (last-append 0 (drop n t) x) ∙ ap (last 0) same ∙ last-append 0 suffix y in
                absurd (ground arith)
          ]
    ]

has_suffix-append : (t suffix : Bytes) → has_suffix (t ++ suffix) suffix ≡ true
has_suffix-append t suffix =
    let long : leb (length suffix) (length (t ++ suffix)) ≡ true =
      ground (arith, length-append t suffix) in
    let n : length (t ++ suffix) - length suffix ≡ length t =
      omega (arith, length-append {0} t suffix) in
    rw (long, n, drop-append (length t) t suffix refl, bytes_equal_refl suffix) refl

trim_suffix-append : (t suffix : Bytes) → trim_suffix (t ++ suffix) suffix ≡ t
unfolding trim_suffix
trim_suffix-append t suffix =
    let n : length (t ++ suffix) - length suffix ≡ length t =
      omega (arith, length-append {0} t suffix) in
    rw (has_suffix-append t suffix, n) (take-append (length t) t suffix refl)

trim_suffix-last :
    (t : Bytes) (x : ℕ) (suffix : Bytes) (y : ℕ)
    → (x == y) ≡ false
    → trim_suffix (t ++ x ∷ []) (suffix ++ y ∷ []) ≡ t ++ x ∷ []
unfolding trim_suffix
trim_suffix-last t x suffix y h = rw (has_suffix-last t x suffix y h) refl

-- The units that the flag knows, as they are written, and what they stand for.
pub data SizeUnit : Type 0 where
  none_given kilo kilobytes mega megabytes giga gigabytes : SizeUnit

abbrev pub unit_text : SizeUnit → Bytes
unit_text none_given = []
unit_text kilo = codes "K"
unit_text kilobytes = codes "KB"
unit_text mega = codes "M"
unit_text megabytes = codes "MB"
unit_text giga = codes "G"
unit_text gigabytes = codes "GB"

abbrev pub unit_size : SizeUnit → ℕ
unit_size none_given = 1
unit_size kilo = 1024
unit_size kilobytes = 1024
unit_size mega = 1024 ^ 2
unit_size megabytes = 1024 ^ 2
unit_size giga = 1024 ^ 3
unit_size gigabytes = 1024 ^ 3

abbrev pub IsDigit : ℕ → Type 0
IsDigit c = is_digit c ≡ true

take_digits-all : (s : Bytes) → All IsDigit s → take_digits s ≡ s
unfolding take_digits
take_digits-all [] h = refl
take_digits-all (c ∷ s) h = rw (h.0, take_digits-all s h.1) refl

-- The number that decimal digits write, if it has 64 bits, and else 0.
abbrev pub read_number : Bytes → ℕ
read_number digits = if ltb (value_from 0 digits) (2 ^ 64) then value_from 0 digits else 0

ends_in-last :
    (t : Bytes) (x w y z : ℕ)
    → (x == y) ≡ false
    → (x == z) ≡ false
    → ends_in (t ++ x ∷ []) (y ∷ []) (w ∷ z ∷ []) ≡ false
unfolding ends_in
ends_in-last t x w y z hy hz =
    rw (has_suffix-last t x [] y hy, has_suffix-last t x (w ∷ []) z hz) refl

ends_in-short : (t short long : Bytes) → ends_in (t ++ short) short long ≡ true
unfolding ends_in
ends_in-short t short long = rw (has_suffix-append t short) refl

and_false : (b : Bool) → (b && false) ≡ false
and_false true = refl
and_false false = refl

-- Another unit with a B.
ends_in-other :
    (t : Bytes) (x y z w : ℕ)
    → (y == z) ≡ false
    → (x == w) ≡ false
    → ends_in (t ++ (x ∷ y ∷ [])) (z ∷ []) (w ∷ y ∷ []) ≡ false
unfolding ends_in bytes_equal
ends_in-other t x y z w hz hw =
    let assoc : (t ++ x ∷ []) ++ y ∷ [] ≡ t ++ (x ∷ y ∷ []) = append_assoc t (x ∷ []) (y ∷ []) in
    let short : has_suffix (t ++ (x ∷ y ∷ [])) (z ∷ []) ≡ false =
      ap (λ r. has_suffix r (z ∷ [])) (sym assoc) ∙ has_suffix-last (t ++ x ∷ []) y [] z hz in
    let n : length (t ++ (x ∷ y ∷ [])) - 2 ≡ length t =
      omega (arith, length-append {0} t (x ∷ y ∷ [])) in
    let long : bytes_equal (drop (length (t ++ (x ∷ y ∷ [])) - 2) (t ++ (x ∷ y ∷ []))) (w ∷ y ∷ [])
        ≡ false =
      rw (n, drop-append (length t) t (x ∷ y ∷ []) refl, hw) refl in
    rw (short, long) (and_false _)

or_true : (b : Bool) → (b || true) ≡ true
or_true true = refl
or_true false = refl

ends_in-long : (t short long : Bytes) → ends_in (t ++ long) short long ≡ true
unfolding ends_in
ends_in-long t short long =
    ap (λ b. has_suffix (t ++ long) short || b) (has_suffix-append t long) ∙ or_true _

trim_unit-none :
    (t : Bytes) (x w y z : ℕ)
    → (x == y) ≡ false
    → (x == z) ≡ false
    → trim_unit (t ++ x ∷ []) (w ∷ z ∷ []) (y ∷ []) ≡ t ++ x ∷ []
unfolding trim_unit
trim_unit-none t x w y z hy hz =
    ap (λ r. trim_suffix r (y ∷ [])) (trim_suffix-last t x (w ∷ []) z hz)
    ∙ trim_suffix-last t x [] y hy

trim_unit-short :
    (t : Bytes) (w y z : ℕ) → (y == z) ≡ false → trim_unit (t ++ y ∷ []) (w ∷ z ∷ []) (y ∷ []) ≡ t
unfolding trim_unit
trim_unit-short t w y z h =
    ap (λ r. trim_suffix r (y ∷ [])) (trim_suffix-last t y (w ∷ []) z h)
    ∙ trim_suffix-append t (y ∷ [])

trim_unit-long :
    (t : Bytes) (x w y z : ℕ)
    → (x == y) ≡ false
    → trim_unit ((t ++ x ∷ []) ++ (w ∷ z ∷ [])) (w ∷ z ∷ []) (y ∷ []) ≡ t ++ x ∷ []
unfolding trim_unit
trim_unit-long t x w y z h =
    ap (λ r. trim_suffix r (y ∷ [])) (trim_suffix-append (t ++ x ∷ []) (w ∷ z ∷ []))
    ∙ trim_suffix-last t x [] y h

first : Bytes → ℕ
first [] = 0
first (c ∷ s) = c

value_from-zero :
    (s : Bytes) (d : ℕ) (rest : Bytes)
    → (s ++ d ∷ []) ++ rest ≡ codes "0"
    → read_number (s ++ d ∷ []) ≡ 0
unfolding value_from first
value_from-zero [] d rest e = let e' : d ≡ b'0' = ap first e in rw e' refl
value_from-zero (c ∷ []) d rest e = absurd (omega (arith, ap length e))
value_from-zero (c ∷ b ∷ s) d rest e = absurd (omega (arith, ap length e))

is_empty-last : (s : Bytes) (d : ℕ) → is_empty (s ++ d ∷ []) ≡ false
is_empty-last [] d = refl
is_empty-last (c ∷ s) d = refl

is_empty-number : (s : Bytes) (d : ℕ) (rest : Bytes) → is_empty ((s ++ d ∷ []) ++ rest) ≡ false
is_empty-number [] d rest = refl
is_empty-number (c ∷ s) d rest = refl

size_of-zero : size_of (codes "0") ≡ 0
unfolding size_of bytes_equal
size_of-zero = refl

module _ (s : Bytes) (d : ℕ) (hs : All IsDigit s) (hd : IsDigit d) where
  abbrev number : Bytes
  number = s ++ d ∷ []

  -- A byte that is no digit is not the last digit.
  apart : (y : ℕ) → is_digit y ≡ false → (d == y) ≡ false
  apart y h = elim (Bool-cases (d == y)) [
    | inr e ↦ e
    | inl e ↦
        let e' : d ≡ y = ground arith in let k : true ≡ false = sym hd ∙ ap is_digit e' ∙ h in cc
  ]

  no_unit : (w y : ℕ) → is_digit y ≡ false → ends_in number (y ∷ []) (w ∷ b'B' ∷ []) ≡ false
  no_unit w y h = ends_in-last s d w y b'B' (apart y h) (apart b'B' refl)

  scaled-number : (mult : ℕ) → scaled number mult ≡ read_number number * mult % 2 ^ 64
  unfolding scaled scan_uint
  scaled-number mult =
      let digits : take_digits number ≡ number =
        take_digits-all number (All-append IsDigit s (d ∷ []) hs (hd, tt)) in
      let filled : is_empty number ≡ false = is_empty-last s d in rw (digits, filled) refl

  size_of-unit :
      (u : SizeUnit)
      → bytes_equal (number ++ unit_text u) (codes "0") ≡ false
      → size_of (number ++ unit_text u) ≡ read_number number * unit_size u % 2 ^ 64
  unfolding size_of
  size_of-unit none_given z = rw append-nil (
      rw
        (
          is_empty-last s d,
          rw append-nil at z,
          no_unit b'G' b'G' refl,
          no_unit b'M' b'M' refl,
          no_unit b'K' b'K' refl,
        )
        (scaled-number 1))
  size_of-unit kilo z =
      rw
        (
          is_empty-number s d (codes "K"),
          z,
          ends_in-last number b'K' b'G' b'G' b'B' refl refl,
          ends_in-last number b'K' b'M' b'M' b'B' refl refl,
          ends_in-short number (codes "K") (codes "KB"),
          trim_unit-short number b'K' b'K' b'B' refl,
        )
        (scaled-number (1024))
  size_of-unit kilobytes z =
      rw
        (
          is_empty-number s d (codes "KB"),
          z,
          ends_in-other number b'K' b'B' b'G' b'G' refl refl,
          ends_in-other number b'K' b'B' b'M' b'M' refl refl,
          ends_in-long number (codes "K") (codes "KB"),
          trim_unit-long s d b'K' b'K' b'B' (apart b'K' refl),
        )
        (scaled-number (1024))
  size_of-unit mega z =
      rw
        (
          is_empty-number s d (codes "M"),
          z,
          ends_in-last number b'M' b'G' b'G' b'B' refl refl,
          ends_in-short number (codes "M") (codes "MB"),
          trim_unit-short number b'M' b'M' b'B' refl,
        )
        (scaled-number (1024 * 1024))
  size_of-unit megabytes z =
      rw
        (
          is_empty-number s d (codes "MB"),
          z,
          ends_in-other number b'M' b'B' b'G' b'G' refl refl,
          ends_in-long number (codes "M") (codes "MB"),
          trim_unit-long s d b'M' b'M' b'B' (apart b'M' refl),
        )
        (scaled-number (1024 * 1024))
  size_of-unit giga z =
      rw
        (
          is_empty-number s d (codes "G"),
          z,
          ends_in-short number (codes "G") (codes "GB"),
          trim_unit-short number b'G' b'G' b'B' refl,
        )
        (scaled-number (1024 * 1024 * 1024))
  size_of-unit gigabytes z =
      rw
        (
          is_empty-number s d (codes "GB"),
          z,
          ends_in-long number (codes "G") (codes "GB"),
          trim_unit-long s d b'G' b'G' b'B' (apart b'G' refl),
        )
        (scaled-number (1024 * 1024 * 1024))

  size_of-number :
      (u : SizeUnit) → size_of (number ++ unit_text u) ≡ read_number number * unit_size u % 2 ^ 64
  size_of-number u = elim (Bool-cases (bytes_equal (number ++ unit_text u) (codes "0"))) [
    | inr z ↦ size_of-unit u z
    | inl z ↦
        let zero_text = bytes_equal_sound (number ++ unit_text u) (codes "0") z in
        let zero_value : 0 ≡ read_number number =
          sym (value_from-zero s d (unit_text u) zero_text) in
        let zero_times : 0 ≡ 0 * unit_size u % 2 ^ 64 = omega arith in
        ap size_of zero_text
        ∙ size_of-zero
        ∙ zero_times
        ∙ ap (λ n. n * unit_size u % 2 ^ 64) zero_value
  ]

-- For a text that in upper case and trimmed is a decimal number followed by no unit or by one of
-- K, KB, M, MB, G and GB, parseByteSize gives the number times the unit modulo 2 ^ 64, and 0 if
-- the number has more than 64 bits.
pub parse_byte_size-number :
    (shell : Shell) (raw s : Bytes) (d : ℕ) (u : SizeUnit)
    → All IsDigit s
    → IsDigit d
    → shell.texts.trim_space (shell.to_upper raw) ≡ (s ++ d ∷ []) ++ unit_text u
    → parse_byte_size shell raw ≡ read_number (s ++ d ∷ []) * unit_size u % 2 ^ 64
unfolding parse_byte_size
parse_byte_size-number shell raw s d u hs hd e = ap size_of e ∙ size_of-number s d hs hd u
