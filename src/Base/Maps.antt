-- ===== src/Base/Maps.antt =====
-- Go's maps with keys that are byte strings. The order of entries is not observable.
use Prim.Native.Nat.{ℕ, ◌+◌}
use mathlib.Core.Path.{◌≡◌, refl}
use mathlib.Core.Logic.{◌↔◌}
use mathlib.Core.Bool.{Bool, true}
use mathlib.Core.Option.{Option, none, some}
use mathlib.Core.List.{List, [], ◌∷◌}
use native.Mathlib.Omega.{arith}
use zero_feed.Base.Tests.{if◌then◌else◌}
use zero_feed.Base.Lists.{length, bytes_equal, bytes_equal_refl, bytes_equal_sound}

abbrev pub Key : Type 0
Key = List ℕ

abbrev pub Dict {ℓ} : Type ℓ → Type ℓ
Dict V = List (Key × V)

pub key_iff : (j k : Key) → (bytes_equal j k ≡ true) ↔ (j ≡ k)
key_iff j k = (bytes_equal_sound j k, λ e. rw e (bytes_equal_refl k))

module _ {ℓ} {V : Type ℓ} where
  -- `m[k]`
  unfoldable pub lookup : Key → Dict V → Option V
  lookup k [] = none
  lookup k ((j, v) ∷ m) = if bytes_equal j k then some v else lookup k m

  -- `delete(m, k)`
  unfoldable pub delete : Key → Dict V → Dict V
  delete k [] = []
  delete k ((j, v) ∷ m) = let rest = delete k m in if bytes_equal j k then rest else (j, v) ∷ rest

  -- `m[k] = v`
  unfoldable pub insert : Key → V → Dict V → Dict V
  unfolding delete
  insert k v m = (k, v) ∷ delete k m

  -- `for k, v := range m { if drop(v) { delete(m, k) } }`
  unfoldable pub delete_if : (V → Bool) → Dict V → Dict V
  delete_if drop [] = []
  delete_if drop ((j, v) ∷ m) =
      let rest = delete_if drop m in if drop v then rest else (j, v) ∷ rest

  -- No key stands twice.
  abbrev pub IsDistinct : Dict V → Type ℓ
  IsDistinct [] = Unit
  IsDistinct ((j, v) ∷ m) = (lookup j m ≡ none) × IsDistinct m

  pub lookup-delete :
      (k j : Key) (m : Dict V)
      → lookup j (delete k m) ≡ (if bytes_equal k j then none else lookup j m)
  unfolding lookup delete
  lookup-delete k j [] = ground arith
  lookup-delete k j ((i, v) ∷ m) =
      ground (arith, lookup-delete k j m, key_iff i k, key_iff i j, key_iff k j)

  pub lookup-insert :
      (k j : Key) (v : V) (m : Dict V)
      → lookup j (insert k v m) ≡ (if bytes_equal k j then some v else lookup j m)
  unfolding lookup insert
  lookup-insert k j v m = ground (arith, lookup-delete k j m)

  absent-delete_if :
      (k : Key) (drop : V → Bool) (m : Dict V)
      → lookup k m ≡ none
      → lookup k (delete_if drop m) ≡ none
  unfolding lookup delete_if
  absent-delete_if k drop [] h = refl
  absent-delete_if k drop ((i, v) ∷ m) h = ground (arith, absent-delete_if k drop m)

  -- What a key holds after the loop: nothing, if its value was dropped.
  pub lookup-delete_if :
      (k : Key) (drop : V → Bool) (m : Dict V)
      → IsDistinct m
      → lookup k (delete_if drop m)
        ≡ elim (lookup k m) [ none ↦ none | some v ↦ if drop v then none else some v ]
  unfolding lookup delete_if
  lookup-delete_if k drop [] d = refl
  lookup-delete_if k drop ((i, v) ∷ m) d =
      ground (arith, lookup-delete_if k drop m d.1, key_iff i k, absent-delete_if k drop m)

  pub delete-IsDistinct : (k : Key) (m : Dict V) → IsDistinct m → IsDistinct (delete k m)
  unfolding delete
  delete-IsDistinct k [] d = tt
  delete-IsDistinct k ((i, v) ∷ m) d =
      ground (arith, delete-IsDistinct k m d.1, lookup-delete k i m)

  pub insert-IsDistinct : (k : Key) (v : V) (m : Dict V) → IsDistinct m → IsDistinct (insert k v m)
  unfolding insert
  insert-IsDistinct k v m d =
      (rw (lookup-delete k k m, bytes_equal_refl k), delete-IsDistinct k m d)

  pub delete_if-IsDistinct :
      (drop : V → Bool) (m : Dict V) → IsDistinct m → IsDistinct (delete_if drop m)
  unfolding delete_if
  delete_if-IsDistinct drop [] d = tt
  delete_if-IsDistinct drop ((i, v) ∷ m) d =
      ground (arith, delete_if-IsDistinct drop m d.1, absent-delete_if i drop m)

  delete-absent : (k : Key) (m : Dict V) → lookup k m ≡ none → delete k m ≡ m
  unfolding lookup delete
  delete-absent k [] h = refl
  delete-absent k ((i, v) ∷ m) h = ground (arith, delete-absent k m)

  -- Deleting a key that is there takes one entry.
  pub length-delete :
      (k : Key) (m : Dict V) {v : V}
      → IsDistinct m
      → lookup k m ≡ some v
      → length (delete k m) + 1 ≡ length m
  unfolding lookup delete
  length-delete k [] d h = cc
  length-delete k ((i, w) ∷ m) {v} d h =
      ground (arith, key_iff i k, delete-absent k m, length-delete k m {v = v} d.1)

  pub length-insert :
      (k : Key) (v : V) (m : Dict V) → lookup k m ≡ none → length (insert k v m) ≡ length m + 1
  unfolding insert
  length-insert k v m h = ground (arith, delete-absent k m h)
