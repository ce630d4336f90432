-- ===== src/Feed/Invite/Escapes.antt =====
-- Laws of the escapes and searches that pkg/feed/invite.go uses.
use zero_feed.Base.{
  ℕ, ◌+◌, ◌*◌, ◌/◌, ◌%◌, ◌<◌, ◌≡◌, refl, ap, ◌∙◌, inl, inr, Bool, true, false, ◌&&◌, ◌||◌, not,
  none, some, List, [], ◌∷◌, ◌++◌, ltb, ◌==◌, Bool-cases, All, All-append, IsByte, bytes_equal,
  arith,
}
use zero_feed.Feed.Invite.Url.{
  is_unreserved, hex_digit, escape_byte, query_escape, unhex, prepend, unplus, query_unescape,
  cut_byte, cut_text, contains_byte, has_control, split_byte,
}

-- A byte that neither ends a parameter of a query nor the query, and is no space or control.
abbrev pub is_query_byte : ℕ → Bool
is_query_byte c = ltb 32 c && ltb c 127 && not (c == b'&') && not (c == b'#') && not (c == b';')

abbrev pub IsQueryByte : ℕ → Type 0
IsQueryByte c = is_query_byte c ≡ true

-- Such a byte that stands for itself in a query.
abbrev pub is_plain_byte : ℕ → Bool
is_plain_byte c = is_query_byte c && not (c == b'%') && not (c == b'+')

abbrev pub IsPlainByte : ℕ → Type 0
IsPlainByte c = is_plain_byte c ≡ true

-- A byte of a URI before its fragment.
abbrev pub is_uri_byte : ℕ → Bool
is_uri_byte c = ltb 32 c && ltb c 127 && not (c == b'#')

abbrev pub IsUriByte : ℕ → Type 0
IsUriByte c = is_uri_byte c ≡ true

hex_digit-IsQueryByte : (n : ℕ) → n < 16 → IsQueryByte (hex_digit n)
unfolding hex_digit
hex_digit-IsQueryByte n h = ground arith

unreserved-IsQueryByte : (c : ℕ) → is_unreserved c ≡ true → IsQueryByte c
unfolding is_unreserved
unreserved-IsQueryByte c h = ground arith

escape_byte-All : (c : ℕ) → c < 256 → All IsQueryByte (escape_byte c)
unfolding escape_byte
escape_byte-All c h = elim (Bool-cases (c == b' ')) [
  | inl e ↦ rw e (refl, tt)
  | inr e ↦ rw e (elim (Bool-cases (is_unreserved c)) [
    | inl u ↦ rw u (unreserved-IsQueryByte c u, tt)
    | inr u ↦ rw u (
      refl,
      (
        hex_digit-IsQueryByte (c / 16) (omega arith),
        (hex_digit-IsQueryByte (c % 16) (omega arith), tt),
      ),
    )
  ])
]

pub query_escape-All : (s : List ℕ) → All IsByte s → All IsQueryByte (query_escape s)
unfolding query_escape
query_escape-All [] h = tt
query_escape-All (c ∷ s) h =
    All-append IsQueryByte (escape_byte c) (query_escape s) (escape_byte-All c h.0)
      (query_escape-All s h.1)

unescape-plain :
    (c : ℕ) (s : List ℕ)
    → (c == b'%') ≡ false
    → query_unescape (c ∷ s) ≡ prepend (unplus c) (query_unescape s)
unfolding query_unescape
unescape-plain c [] h = rw h refl
unescape-plain c (d ∷ []) h = rw h refl
unescape-plain c (d ∷ e ∷ s) h = rw h refl

unhex-hex_digit : (n : ℕ) → n < 16 → unhex (hex_digit n) ≡ some n
unfolding unhex hex_digit
unhex-hex_digit n h = ground arith

unescape-hex :
    (c : ℕ) (s : List ℕ)
    → c < 256
    → query_unescape (b'%' ∷ hex_digit (c / 16) ∷ hex_digit (c % 16) ∷ s)
      ≡ prepend c (query_unescape s)
unfolding query_unescape
unescape-hex c s h =
    let e : c / 16 * 16 + c % 16 ≡ c = omega arith in
    rw (unhex-hex_digit (c / 16) (omega arith), unhex-hex_digit (c % 16) (omega arith))
      (ap (λ b. prepend b (query_unescape s)) e)

unescape-unreserved :
    (c : ℕ) (s : List ℕ)
    → is_unreserved c ≡ true
    → query_unescape (c ∷ s) ≡ prepend c (query_unescape s)
unfolding is_unreserved
unescape-unreserved c s u =
    let e : (c == b'%') ≡ false = ground arith in
    let k : unplus c ≡ c = ground arith in
    unescape-plain c s e ∙ ap (λ b. prepend b (query_unescape s)) k

unescape-escape_byte :
    (c : ℕ) (s : List ℕ)
    → c < 256
    → query_unescape (escape_byte c ++ s) ≡ prepend c (query_unescape s)
unfolding escape_byte
unescape-escape_byte c s h = elim (Bool-cases (c == b' ')) [
  | inl e ↦
      let e' : b' ' ≡ c = ground arith in
      rw e (unescape-plain b'+' s refl ∙ ap (λ b. prepend b (query_unescape s)) e')
  | inr e ↦ rw e (elim (Bool-cases (is_unreserved c)) [
    | inl u ↦ rw u (unescape-unreserved c s u)
    | inr u ↦ rw u (unescape-hex c s h)
  ])
]

-- What QueryEscape wrote QueryUnescape reads back.
pub query_unescape-query_escape :
    (s : List ℕ) → All IsByte s → query_unescape (query_escape s) ≡ some s
unfolding query_escape
query_unescape-query_escape [] h = unfold query_unescape in refl
query_unescape-query_escape (c ∷ s) h =
    unescape-escape_byte c (query_escape s) h.0 ∙ ap (prepend c) (query_unescape-query_escape s h.1)

pub query_unescape-IsPlain : (s : List ℕ) → All IsPlainByte s → query_unescape s ≡ some s
query_unescape-IsPlain [] h = unfold query_unescape in refl
query_unescape-IsPlain (c ∷ s) h =
    let p = h.0 in
    let e : (c == b'%') ≡ false = ground arith in
    let k : unplus c ≡ c = ground arith in
    unescape-plain c s e
    ∙ ap (prepend (unplus c)) (query_unescape-IsPlain s h.1)
    ∙ ap (λ b. some (b ∷ s)) k

abbrev pub Avoids : ℕ → List ℕ → Type 0
Avoids b = All (λ c. (c == b) ≡ false)

absurd_bool {ℓ} : {A : Type ℓ} {b : Bool} → b ≡ false → b ≡ true → A
absurd_bool e h = cc

query_byte-ne : (b c : ℕ) → is_query_byte b ≡ false → IsQueryByte c → (c == b) ≡ false
query_byte-ne b c e h = elim (Bool-cases (c == b)) [
  | inl k ↦ let e' : c ≡ b = ground arith in absurd_bool (ap is_query_byte e' ∙ e) h
  | inr k ↦ k
]

pub query_byte-Avoids :
    (b : ℕ) (s : List ℕ) → is_query_byte b ≡ false → All IsQueryByte s → Avoids b s
query_byte-Avoids b [] e h = tt
query_byte-Avoids b (c ∷ s) e h = (query_byte-ne b c e h.0, query_byte-Avoids b s e h.1)

pub cut_byte-absent : (b : ℕ) (s : List ℕ) → Avoids b s → cut_byte b s ≡ (s, [])
unfolding cut_byte
cut_byte-absent b [] h = refl
cut_byte-absent b (c ∷ s) h = rw (h.0, cut_byte-absent b s h.1) refl

pub contains_byte-absent : (b : ℕ) (s : List ℕ) → Avoids b s → contains_byte b s ≡ false
unfolding contains_byte
contains_byte-absent b [] h = refl
contains_byte-absent b (c ∷ s) h = rw (h.0, contains_byte-absent b s h.1) refl

control_byte : (c : ℕ) → IsUriByte c → (ltb c 32 || c == 127) ≡ false
control_byte c h = ground arith

pub has_control-absent : (s : List ℕ) → All IsUriByte s → has_control s ≡ false
unfolding has_control
has_control-absent [] h = refl
has_control-absent (c ∷ s) h =
    let e : (ltb c 32 || c == 127) ≡ false = control_byte c h.0 in
    let k : ltb c 32 ≡ false = ground arith in
    let l : (c == 127) ≡ false = ground arith in rw (k, l, has_control-absent s h.1) refl

pub cut_text-absent : (b : ℕ) (text s : List ℕ) → Avoids b s → cut_text (b ∷ text) s ≡ none
unfolding cut_text bytes_equal
cut_text-absent b text [] h = refl
cut_text-absent b text (c ∷ s) h = rw (h.0, cut_text-absent b text s h.1) refl

-- A text up to its first separator.
pub split_byte-append :
    (b : ℕ) (s t : List ℕ) → Avoids b s → split_byte b (s ++ (b ∷ t)) ≡ s ∷ split_byte b t
unfolding split_byte
split_byte-append b [] t h = ground arith
split_byte-append b (c ∷ s) t h = rw (h.0, split_byte-append b s t h.1) refl

pub split_byte-absent : (b : ℕ) (s : List ℕ) → Avoids b s → split_byte b s ≡ s ∷ []
unfolding split_byte
split_byte-absent b [] h = refl
split_byte-absent b (c ∷ s) h = rw (h.0, split_byte-absent b s h.1) refl
