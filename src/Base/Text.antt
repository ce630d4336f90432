-- ===== src/Base/Text.antt =====
-- Strings as their bytes: HasPrefix and HasSuffix, and the functions that depend on Unicode as parameters.
use Prim.Native.Nat.{ℕ, ◌-◌}
use Prim.Native.Char.{code}
use Prim.Native.String.{String}
use mathlib.Core.Bool.{Bool, ◌&&◌}
use mathlib.Core.List.{List, [], ◌∷◌}
use zero_feed.Base.Tests.{leb}
use zero_feed.Base.Lists.{length, take, drop, bytes_equal}

-- `split_commas` is `strings.Split` at a comma.
pub record Strings : Type 0 where
  pub to_lower : List ℕ → List ℕ
  pub trim_space : List ℕ → List ℕ
  pub equal_fold : List ℕ → List ℕ → Bool
  pub split_commas : List ℕ → List (List ℕ)

abbrev pub has_prefix : List ℕ → List ℕ → Bool
has_prefix s prefix = bytes_equal (take (length prefix) s) prefix

abbrev pub has_suffix : List ℕ → List ℕ → Bool
has_suffix s suffix =
    leb (length suffix) (length s) && bytes_equal (drop (length s - length suffix) s) suffix

-- The bytes of an ASCII literal.
abbrev pub codes : String → List ℕ
codes String.[] = []
codes (String.◌∷◌ c s) = code c ∷ codes s
