-- ===== src/Feed/Progress.antt =====
-- pkg/feed/progress.go: the unit of FormatBytes, and when the bar is drawn. What is drawn goes
-- through floating point numbers and is left out; the quotient b / div is the number before the unit.
use zero_feed.Base.{
  ℕ, zero, suc, ◌+◌, ◌*◌, ◌/◌, ◌^◌, ◌≤◌, ◌<◌, Bool, ◌||◌, Option, none, some, ltb, leb, ◌==◌,
  if◌then◌else◌, arith,
}

-- `for n := b / unit; n >= unit; n /= unit`, in at most `fuel` rounds: the divisor and the exponent.
unfoldable pub unit_loop : ℕ → ℕ → ℕ → ℕ → ℕ × ℕ
unit_loop zero n div exp = (div, exp)
unit_loop (suc fuel) n div exp =
    let rest = unit_loop fuel (n / 1024) (div * 1024) (suc exp) in
    if ltb n 1024 then (div, exp) else rest

-- `none` for bytes without a unit. A count of an int64 needs five rounds.
unfoldable pub unit_of : ℕ → Option (ℕ × ℕ)
unfolding unit_loop
unit_of b = if ltb b 1024 then none else some (unit_loop 6 (b / 1024) 1024 0)

pub record ProgressBar : Type 0 where
  pub total_bytes : ℕ
  pub curr_bytes : ℕ
  pub last_render : ℕ
  pub quiet : Bool
  pub renders : ℕ

unfoldable pub new_progress_bar : ℕ → Bool → ProgressBar
new_progress_bar total quiet = record {
  total_bytes = total;
  curr_bytes = 0;
  last_render = 0;
  quiet = quiet;
  renders = 0;
}

unfoldable pub render : ProgressBar → ProgressBar
render p = record p { renders = suc p.renders }

-- At most every 100 ms, and at the end.
unfoldable pub add : ℕ → ℕ → ProgressBar → ProgressBar
unfolding render
add n now p =
    let curr = p.curr_bytes + n in
    if p.quiet || p.total_bytes == 0
    then p
    else if leb (p.last_render + 10 ^ 8) now || leb p.total_bytes curr
    then record (render (record p { curr_bytes = curr })) { last_render = now }
    else record p { curr_bytes = curr }

unfoldable pub finish : ProgressBar → ProgressBar
unfolding render
finish p = if p.quiet then p else render (record p { curr_bytes = p.total_bytes })

-- The loop ends by its test at an index of the six letters KMGTPE, and the divisor is the largest
-- power of 1024 that is not above the count.
pub unit_loop-bounds :
    (b : ℕ)
    → 1024 ≤ b
    → b < 2 ^ 63
    → let r = unit_loop 6 (b / 1024) 1024 0 in (r.1 < 6) × (r.0 ≤ b) × (b < r.0 * 1024)
unfolding unit_loop
unit_loop-bounds b l h = (ground arith, ground arith, ground arith)
