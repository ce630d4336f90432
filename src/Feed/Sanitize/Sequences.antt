-- ===== src/Feed/Sanitize/Sequences.antt =====
-- The escape sequences that the terminal filter of pkg/feed/subscriber.go takes out of a text.
use zero_feed.Base.{
  ℕ, zero, suc, ◌≤◌, ◌≡◌, refl, ap, ◌∙◌, true, false, List, [], ◌∷◌, ◌++◌, length, take, ◌||◌, ◌==◌,
  All, arith,
}
use zero_feed.Feed.Sanitize.{
  esc, bel, csi_end, osc_end, tail_size, after_escape, matched, within, replace_all,
  sanitize_text_output,
}
use zero_feed.Feed.Sanitize.Removal.{
  IsPlain, tail_size-IsPlain, sanitize_text_output-plain, replace_all_plain, replace_all_control,
  replace_all_here,
}

-- A match that begins with an escape is gone, and nothing else.
within_tails :
    (n : ℕ) (text bytes : List ℕ) → All IsPlain (take n (text ++ (esc ∷ bytes))) → n ≤ length text
within_tails zero text bytes h = omega arith
within_tails (suc n) [] bytes h = absurd cc
within_tails (suc n) (b ∷ text) bytes h = let rest = within_tails n text bytes h.1 in omega arith

replace_all-escape :
    (n : ℕ) (text bytes : List ℕ)
    → All IsPlain text
    → n ≤ length text
    → replace_all true n (text ++ (esc ∷ bytes))
      ≡ text ++ replace_all false (after_escape bytes) bytes
unfolding replace_all
replace_all-escape zero [] bytes h k = replace_all_control esc bytes refl
replace_all-escape (suc n) [] bytes h k = elim k [ ]
replace_all-escape zero (b ∷ text) bytes h k =
    let all = text ++ (esc ∷ bytes) in
    let inside = within_tails (tail_size b all) text bytes (tail_size-IsPlain b all) in
    replace_all_plain b all h.0
    ∙ ap (λ l. b ∷ l) (replace_all-escape (tail_size b all) text bytes h.1 inside)
replace_all-escape (suc n) (b ∷ text) bytes h k =
    ap (λ l. b ∷ l) (replace_all-escape n text bytes h.1 (omega arith))

replace_all-skip :
    (inner : List ℕ) (final : ℕ) (bytes : List ℕ)
    → replace_all false (suc (length inner)) (inner ++ (final ∷ bytes)) ≡ replace_all true 0 bytes
unfolding replace_all
replace_all-skip [] final bytes = replace_all_here false bytes
replace_all-skip (b ∷ inner) final bytes = replace_all-skip inner final bytes

replace_all-match :
    (first final : ℕ) (text inner bytes : List ℕ)
    → All IsPlain text
    → after_escape (first ∷ (inner ++ (final ∷ bytes))) ≡ suc (suc (length inner))
    → sanitize_text_output (text ++ (esc ∷ first ∷ (inner ++ (final ∷ bytes))))
      ≡ text ++ sanitize_text_output bytes
unfolding sanitize_text_output replace_all
replace_all-match first final text inner bytes h e =
    let all = first ∷ (inner ++ (final ∷ bytes)) in
    replace_all-escape 0 text all h (omega arith)
    ∙ ap (λ n. text ++ replace_all false n all) e
    ∙ ap (λ l. text ++ l) (replace_all-skip inner final bytes)

-- The parameters of a control sequence, its last letter, and the title of a command to the terminal.
abbrev pub IsParameter : ℕ → Type 0
IsParameter b = (within b'0' b'9' b || b == b';') ≡ true

abbrev pub IsLetter : ℕ → Type 0
IsLetter b = (within b'A' b'Z' b || within b'a' b'z' b) ≡ true

abbrev pub IsTitle : ℕ → Type 0
IsTitle b = (b == bel || b == esc) ≡ false

matched_lem : (n : ℕ) → matched 1 (suc n) ≡ suc (suc n)
matched_lem n = ground arith

parameter-other : (b : ℕ) → IsParameter b → (within b'A' b'Z' b || within b'a' b'z' b) ≡ false
parameter-other b h = ground arith

csi_end_lem :
    (params : List ℕ) (final : ℕ) (bytes : List ℕ)
    → All IsParameter params
    → IsLetter final
    → csi_end (params ++ (final ∷ bytes)) ≡ suc (length params)
unfolding csi_end
csi_end_lem [] final bytes h l = rw l refl
csi_end_lem (b ∷ params) final bytes h l =
    rw (parameter-other b h.0, h.0, csi_end_lem params final bytes h.1 l)
      (matched_lem (length params))

-- A character of the title is passed over.
osc_end_title :
    (b c : ℕ) (bytes : List ℕ)
    → IsTitle b
    → osc_end (b ∷ c ∷ bytes) ≡ matched 1 (osc_end (c ∷ bytes))
unfolding osc_end
osc_end_title b c bytes h = ground arith

osc_end-bel : (bytes : List ℕ) → osc_end (bel ∷ bytes) ≡ 1
unfolding osc_end
osc_end-bel [] = refl
osc_end-bel (c ∷ bytes) = refl

osc_end_lem :
    (title bytes : List ℕ)
    → All IsTitle title
    → osc_end (title ++ (bel ∷ bytes)) ≡ suc (length title)
osc_end_lem [] bytes h = osc_end-bel bytes
osc_end_lem (b ∷ []) bytes h = osc_end_title b bel bytes h.0 ∙ ap (matched 1) (osc_end-bel bytes)
osc_end_lem (b ∷ c ∷ title) bytes h =
    osc_end_title b c (title ++ (bel ∷ bytes)) h.0
    ∙ ap (matched 1) (osc_end_lem (c ∷ title) bytes h.1)
    ∙ matched_lem (suc (length title))

after_escape-csi :
    (n : ℕ) (bytes : List ℕ) → csi_end bytes ≡ suc n → after_escape (b'[' ∷ bytes) ≡ suc (suc n)
unfolding after_escape
after_escape-csi n bytes e = rw e (ground arith)

after_escape-osc :
    (n : ℕ) (bytes : List ℕ) → osc_end bytes ≡ suc n → after_escape (b']' ∷ bytes) ≡ suc (suc n)
unfolding after_escape
after_escape-osc n bytes e = rw e (ground arith)

-- A text of bytes that are no ASCII control characters but tabs, line feeds and carriage returns
-- passes the filter unchanged; a control sequence after it, which is an escape and [ with digits
-- and semicolons and a letter, is taken out whole, and so is a command to the terminal, an escape
-- and ] with bytes that are neither BEL nor an escape, and BEL; what follows is filtered as if it
-- stood alone.
pub sanitize_text_output-sequences :
    (text params title bytes : List ℕ) (final : ℕ)
    → All IsPlain text
    → All IsParameter params
    → IsLetter final
    → All IsTitle title
    → (sanitize_text_output text ≡ text)
      × (sanitize_text_output (text ++ (esc ∷ b'[' ∷ (params ++ (final ∷ bytes))))
          ≡ text ++ sanitize_text_output bytes)
      × (sanitize_text_output (text ++ (esc ∷ b']' ∷ (title ++ (bel ∷ bytes))))
          ≡ text ++ sanitize_text_output bytes)
sanitize_text_output-sequences text params title bytes final ht hp hf hi = (
  sanitize_text_output-plain text ht,
  replace_all-match b'[' final text params bytes ht (
      after_escape-csi (length params) (params ++ (final ∷ bytes))
        (csi_end_lem params final bytes hp hf)),
  replace_all-match b']' bel text title bytes ht
      (after_escape-osc (length title) (title ++ (bel ∷ bytes)) (osc_end_lem title bytes hi)),
)
