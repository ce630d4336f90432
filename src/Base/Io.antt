-- ===== src/Base/Io.antt =====
-- The standard library's readers and writers: what a connection has sent and will send.
use Prim.Native.Nat.{ℕ, ◌+◌, ◌≤◌}
use mathlib.Core.Path.{◌≡◌}
use mathlib.Core.Bool.{Bool}
use mathlib.Core.List.{List, [], ◌∷◌, ◌++◌}
use native.Mathlib.Omega.{arith}
use zero_feed.Base.Tests.{leb, if◌then◌else◌, le→leb}
use zero_feed.Base.Lists.{
  length, length-append, length-take, length-drop, take, drop, take-append, drop-append,
  take-append-drop,
}
use zero_feed.Base.Results.{Result, ok, err}

-- `broken` is any other error of the connection.
pub data IoError : Type 0 where
  eof unexpected_eof timeout broken : IoError

-- The bytes that are still to come, and the error that follows them.
pub record Reader : Type 0 where
  pub bytes : List ℕ
  pub final : IoError

-- The error of a read that found only `got`: EOF after some bytes is ErrUnexpectedEOF.
unfoldable pub short_read : List ℕ → IoError → IoError
short_read [] e = e
short_read (b ∷ bs) eof = unexpected_eof
short_read (b ∷ bs) e = e

-- `io.ReadFull` into a slice of n bytes.
unfoldable pub read_full : ℕ → Reader → Result IoError (List ℕ) × Reader
unfolding short_read
read_full n r =
    if leb n (length r.bytes)
    then (ok (take n r.bytes), record r { bytes = drop n r.bytes })
    else (err (short_read r.bytes r.final), record r { bytes = [] })

-- A connection's write side: the slices given to `Write`, and whether it still takes them.
pub record Writer : Type 0 where
  pub writes : List (List ℕ)
  pub open_ : Bool

-- A read of n bytes takes a prefix of length n.
pub read_full-append :
    (n : ℕ) (xs ys : List ℕ) (e : IoError)
    → length xs ≡ n
    → read_full n (record { bytes = xs ++ ys; final = e })
      ≡ (ok xs, record { bytes = ys; final = e })
unfolding read_full
read_full-append n xs ys e h = rw (
  le→leb n (length (xs ++ ys)) (omega (arith, length-append xs ys)),
  take-append n xs ys h,
  drop-append n xs ys h,
)

-- A read takes no more than it asks for.
pub read_full-bounded : (n : ℕ) (r : Reader) → length r.bytes ≤ length (read_full n r).1.bytes + n
unfolding read_full
read_full-bounded n r = ground (arith, length-drop n r.bytes)

-- What a read that succeeds took stands at the front of the stream.
pub read_full-ok :
    (n : ℕ) (r : Reader) {xs : List ℕ} {r' : Reader}
    → read_full n r ≡ (ok xs, r')
    → (r.bytes ≡ xs ++ r'.bytes) × (length xs ≡ n) × (r'.final ≡ r.final)
unfolding read_full
read_full-ok n r h = ground (arith, take-append-drop n r.bytes, length-take n r.bytes)
