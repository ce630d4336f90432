-- ===== src/Feed/Sanitize/Removal.antt =====
-- What the terminal filter of pkg/feed/subscriber.go lets through.
use zero_feed.Base.{
  ℕ, zero, suc, ◌-◌, ◌≡◌, refl, ap, ◌∙◌, Bool, not, true, false, Bool-cases, inl, inr, ◌&&◌, List,
  [], ◌∷◌, take, ◌||◌, leb, ◌==◌, if◌then◌else◌, All, arith,
}
use zero_feed.Feed.Sanitize.{
  esc, is_tail, second_of, tail_count, begins_with_tails, tail_size, is_control, after_escape,
  match_size, replace_all, sanitize_text_output,
}

-- A tab, a line feed, a carriage return, or what is no ASCII control character.
abbrev pub IsPlain : ℕ → Type 0
IsPlain b = (b == 0x09 || b == 0x0A || b == 0x0D || (leb 0x20 b && not (b == 0x7F))) ≡ true

plain-other : (b : ℕ) → IsPlain b → is_control b ≡ false
unfolding is_control
plain-other b h = ground arith

other-IsPlain : (b : ℕ) → is_control b ≡ false → IsPlain b
unfolding is_control
other-IsPlain b h = ground arith

tail-IsPlain : (b : ℕ) → is_tail b ≡ true → IsPlain b
unfolding is_tail
tail-IsPlain b h = ground arith

tails-IsPlain :
    (n : ℕ) (bytes : List ℕ) → begins_with_tails n bytes ≡ true → All IsPlain (take n bytes)
unfolding begins_with_tails
tails-IsPlain zero bytes h = tt
tails-IsPlain (suc n) [] h = absurd cc
tails-IsPlain (suc n) (b ∷ bytes) h =
    (tail-IsPlain b (ground arith), tails-IsPlain n bytes (ground arith))

rune_tails-IsPlain :
    (first n b : ℕ) (bytes : List ℕ) (valid : Bool)
    → (second_of first b && begins_with_tails (n - 1) bytes) ≡ valid
    → All IsPlain (take (if valid then n else 0) (b ∷ bytes))
unfolding second_of
rune_tails-IsPlain first n b bytes false e = tt
rune_tails-IsPlain first zero b bytes true e = tt
rune_tails-IsPlain first (suc n) b bytes true e =
    (tail-IsPlain b (ground arith), tails-IsPlain n bytes (ground arith))

-- The rest of a rune holds no control character.
pub tail_size-IsPlain : (b : ℕ) (bytes : List ℕ) → All IsPlain (take (tail_size b bytes) bytes)
unfolding tail_size
tail_size-IsPlain b [] = tt
tail_size-IsPlain b (c ∷ bytes) = rune_tails-IsPlain b (tail_count b) c bytes _ refl

match_size-plain : (b : ℕ) (bytes : List ℕ) → is_control b ≡ false → match_size b bytes ≡ 0
unfolding match_size
match_size-plain b bytes h = rw h refl

match_size-control :
    (b : ℕ) (bytes : List ℕ)
    → is_control b ≡ true
    → match_size b bytes ≡ suc (if b == esc then after_escape bytes else 0)
unfolding match_size
match_size-control b bytes h = rw h refl

pub replace_all_plain :
    (b : ℕ) (bytes : List ℕ)
    → IsPlain b
    → replace_all true 0 (b ∷ bytes) ≡ b ∷ replace_all true (tail_size b bytes) bytes
unfolding replace_all
replace_all_plain b bytes h = rw (match_size-plain b bytes (plain-other b h)) refl

pub replace_all_control :
    (b : ℕ) (bytes : List ℕ)
    → is_control b ≡ true
    → replace_all true 0 (b ∷ bytes)
      ≡ replace_all false (if b == esc then after_escape bytes else 0) bytes
unfolding replace_all
replace_all_control b bytes h =
    let n = if b == esc then after_escape bytes else 0 in
    let matches : (suc n == 0) ≡ false = ground arith in
    let rest : suc n - 1 ≡ n = omega arith in rw (match_size-control b bytes h, matches, rest) refl

pub replace_all_here :
    (keep : Bool) (bytes : List ℕ) → replace_all keep 0 bytes ≡ replace_all true 0 bytes
unfolding replace_all
replace_all_here keep [] = refl
replace_all_here keep (b ∷ bytes) = refl

-- Matches and kept runes alike leave nothing that the expression matches.
replace_all-IsPlain :
    (keep : Bool) (n : ℕ) (bytes : List ℕ)
    → (keep ≡ true → All IsPlain (take n bytes))
    → All IsPlain (replace_all keep n bytes)
unfolding replace_all
replace_all-IsPlain keep n [] h = tt
replace_all-IsPlain false (suc n) (b ∷ bytes) h = replace_all-IsPlain false n bytes (λ e. absurd cc)
replace_all-IsPlain true (suc n) (b ∷ bytes) h =
    ((h refl).0, replace_all-IsPlain true n bytes (λ e. (h refl).1))
replace_all-IsPlain keep zero (b ∷ bytes) h =
    elim (Bool-cases (is_control b)) as (λ c. All IsPlain (replace_all keep 0 (b ∷ bytes))) [
      | inl e ↦
          rw (replace_all_control b bytes e) (replace_all-IsPlain false _ bytes (λ f. absurd cc))
      | inr e ↦ rw (replace_all_plain b bytes (other-IsPlain b e)) (
        other-IsPlain b e,
        replace_all-IsPlain true (tail_size b bytes) bytes (λ f. tail_size-IsPlain b bytes),
      )
    ]

replace_all_unchanged :
    (n : ℕ) (bytes : List ℕ) → All IsPlain bytes → replace_all true n bytes ≡ bytes
unfolding replace_all
replace_all_unchanged n [] h = refl
replace_all_unchanged (suc n) (b ∷ bytes) h = ap (λ l. b ∷ l) (replace_all_unchanged n bytes h.1)
replace_all_unchanged zero (b ∷ bytes) h =
    replace_all_plain b bytes h.0
    ∙ ap (λ l. b ∷ l) (replace_all_unchanged (tail_size b bytes) bytes h.1)

-- C
pub sanitize_text_output-IsPlain : (bytes : List ℕ) → All IsPlain (sanitize_text_output bytes)
unfolding sanitize_text_output
sanitize_text_output-IsPlain bytes = replace_all-IsPlain true 0 bytes (λ e. tt)

pub sanitize_text_output-plain :
    (bytes : List ℕ) → All IsPlain bytes → sanitize_text_output bytes ≡ bytes
unfolding sanitize_text_output
sanitize_text_output-plain = replace_all_unchanged 0
