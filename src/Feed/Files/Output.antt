-- ===== src/Feed/Files/Output.antt =====
-- What reaches the terminal in `SubscribeStream` of pkg/feed/subscriber.go.
use zero_feed.Base.{
  ℕ, ◌≡◌, refl, ap, sym, ◌∙◌, ◌++◌, append-nil, append_assoc, ◌⊎◌, inl, inr, Bool, true, false,
  ◌||◌, Option, none, some, List, [], ◌∷◌, leb, ltb, length, ◌==◌, if◌then◌else◌, if_elim, All,
  All-append,
}
use zero_feed.Protocol.Messages.{tag_text, tag_file_start, tag_file_chunk, tag_file_end}
use zero_feed.Feed.Sanitize.{sanitize_text_output}
use zero_feed.Feed.Sanitize.Removal.{IsPlain, sanitize_text_output-IsPlain}
use zero_feed.Feed.Files.{
  FileHeader, ActiveFile, Downloads, Outside, write_chunk, handle_file_chunk, create_file,
  start_file, end_file, handle_file_end, handle_plaintext, handle_plaintexts,
}

abbrev pub is_file_tag : ℕ → Bool
is_file_tag b = b == tag_file_start || b == tag_file_chunk || b == tag_file_end

-- What a payload shows: a text as the filter leaves it, nothing if it is of a file, and as it came
-- if its first byte is no tag.
abbrev pub shown : List ℕ → List (List ℕ)
shown [] = []
shown (tag ∷ bytes) =
    if tag == tag_text
    then sanitize_text_output bytes ∷ []
    else if is_file_tag tag
    then []
    else (tag ∷ bytes) ∷ []

abbrev pub shown_all : List (List ℕ) → List (List ℕ)
shown_all [] = []
shown_all (payload ∷ payloads) = shown payload ++ shown_all payloads

abbrev pub IsUntagged : List ℕ → Type 0
IsUntagged [] = ⊥
IsUntagged (b ∷ bytes) = (b == tag_text || is_file_tag b) ≡ false

abbrev pub IsOneOf : List (List ℕ) → List ℕ → Type 0
IsOneOf [] out = ⊥
IsOneOf (payload ∷ payloads) out = (out ≡ payload) ⊎ IsOneOf payloads out

-- An output without a control character, or one of the payloads, whose first byte is no tag.
abbrev pub IsClean : List (List ℕ) → List ℕ → Type 0
IsClean payloads out = All IsPlain out ⊎ (IsUntagged out × IsOneOf payloads out)

later-IsClean :
    (payload : List ℕ) (payloads outs : List (List ℕ))
    → All (IsClean payloads) outs
    → All (IsClean (payload ∷ payloads)) outs
later-IsClean payload payloads [] h = tt
later-IsClean payload payloads (out ∷ outs) (inl p, h) =
    (inl p, later-IsClean payload payloads outs h)
later-IsClean payload payloads (out ∷ outs) (inr (u, p), h) =
    (inr (u, inr p), later-IsClean payload payloads outs h)

shown_cases :
    (P : List (List ℕ) → Type 0) (text file : Bool) (x y : List ℕ)
    → P (x ∷ [])
    → P []
    → ((text || file) ≡ false → P (y ∷ []))
    → P (if text then x ∷ [] else if file then [] else y ∷ [])
shown_cases P true file x y hx hn hy = hx
shown_cases P false true x y hx hn hy = hn
shown_cases P false false x y hx hn hy = hy refl

shown-IsClean :
    (payload : List ℕ) (payloads : List (List ℕ))
    → All (IsClean (payload ∷ payloads)) (shown payload)
shown-IsClean [] payloads = tt
shown-IsClean (tag ∷ bytes) payloads =
    shown_cases (All (IsClean ((tag ∷ bytes) ∷ payloads))) (tag == tag_text) (is_file_tag tag)
      (sanitize_text_output bytes) (tag ∷ bytes) (inl (sanitize_text_output-IsPlain bytes), tt) tt
      (λ e. (inr (e, inl refl), tt))

shown_all-IsClean : (payloads : List (List ℕ)) → All (IsClean payloads) (shown_all payloads)
shown_all-IsClean [] = tt
shown_all-IsClean (payload ∷ payloads) =
    All-append (IsClean (payload ∷ payloads)) (shown payload) (shown_all payloads)
      (shown-IsClean payload payloads)
      (later-IsClean payload payloads (shown_all payloads) (shown_all-IsClean payloads))

-- The output after each of the five branches of the switch.
switched :
    (text start chunk end : Bool) (t s c e u : Downloads) (before x y : List (List ℕ))
    → t.output ≡ before ++ x
    → s.output ≡ before
    → c.output ≡ before
    → e.output ≡ before
    → u.output ≡ before ++ y
    → (if text then t else if start then s else if chunk then c else if end then e else u).output
      ≡ before ++ (if text then x else if start || chunk || end then [] else y)
switched true start chunk end t s c e u before x y ht hs hc he hu = ht
switched false true chunk end t s c e u before x y ht hs hc he hu = hs ∙ sym (append-nil before)
switched false false true end t s c e u before x y ht hs hc he hu = hc ∙ sym (append-nil before)
switched false false false true t s c e u before x y ht hs hc he hu = he ∙ sym (append-nil before)
switched false false false false t s c e u before x y ht hs hc he hu = hu

-- The handlers of files print nothing on the output.
write_chunk-output :
    (id chunk : List ℕ) (af : Option ActiveFile) (d : Downloads)
    → (write_chunk id chunk af d).output ≡ d.output
unfolding write_chunk
write_chunk-output id chunk none d = refl
write_chunk-output id chunk (some af) d = refl

handle_file_chunk-output :
    (bytes : List ℕ) (d : Downloads) → (handle_file_chunk bytes d).output ≡ d.output
unfolding handle_file_chunk
handle_file_chunk-output bytes d =
    if_elim {A = Downloads} (λ r. r.output ≡ d.output) (ltb 16 (length bytes)) _ _
      (write_chunk-output _ _ _ d) refl

module _ (o : Outside) where
  start_file-output : (h : Option FileHeader) (d : Downloads) → (start_file o h d).output ≡ d.output
  unfolding start_file create_file
  start_file-output none d = refl
  start_file-output (some h) d =
      if_elim {A = Downloads} (λ r. r.output ≡ d.output) (length h.transfer_id == 0) _ _ refl
        (if_elim {A = Downloads} (λ r. r.output ≡ d.output) (o.creates _) _ _ refl refl)

  end_file-output :
      (id : List ℕ) (af : Option ActiveFile) (d : Downloads)
      → (end_file o id af d).output ≡ d.output
  unfolding end_file
  end_file-output id none d = refl
  end_file-output id (some af) d = refl

  handle_file_end-output :
      (bytes : List ℕ) (d : Downloads) → (handle_file_end o bytes d).output ≡ d.output
  unfolding handle_file_end
  handle_file_end-output bytes d =
      if_elim {A = Downloads} (λ r. r.output ≡ d.output) (leb 16 (length bytes)) _ _
        (end_file-output _ _ d) refl

  handle_plaintext-output :
      (payload : List ℕ) (d : Downloads)
      → (handle_plaintext o payload d).output ≡ d.output ++ shown payload
  unfolding handle_plaintext
  handle_plaintext-output [] d = sym (append-nil d.output)
  handle_plaintext-output (tag ∷ bytes) d =
      switched (tag == tag_text) (tag == tag_file_start) (tag == tag_file_chunk)
        (tag == tag_file_end) _ _ _ _ _ d.output (sanitize_text_output bytes ∷ [])
        ((tag ∷ bytes) ∷ []) refl (start_file-output (o.unmarshal bytes) d)
        (handle_file_chunk-output bytes d) (handle_file_end-output bytes d) refl

  handle_plaintexts-output :
      (plaintexts : List (List ℕ)) (d : Downloads)
      → (handle_plaintexts o plaintexts d).output ≡ d.output ++ shown_all plaintexts
  unfolding handle_plaintexts
  handle_plaintexts-output [] d = sym (append-nil d.output)
  handle_plaintexts-output (payload ∷ plaintexts) d =
      handle_plaintexts-output plaintexts (handle_plaintext o payload d)
      ∙ ap (λ out. out ++ shown_all plaintexts) (handle_plaintext-output payload d)
      ∙ append_assoc d.output (shown payload) (shown_all plaintexts)

  -- Whatever payloads a subscriber handles, its output grows by exactly what they show, in their
  -- order: a payload with the tag of a text shows its text as the filter leaves it, one with a tag
  -- of a file nothing, and any other that is not empty shows itself. Each entry so shown has no
  -- ASCII control character but tabs, line feeds and carriage returns, or is one of the payloads,
  -- whose first byte is no tag.
  pub handle_plaintexts-IsClean :
      (plaintexts : List (List ℕ)) (d : Downloads)
      → ((handle_plaintexts o plaintexts d).output ≡ d.output ++ shown_all plaintexts)
        × All (IsClean plaintexts) (shown_all plaintexts)
  handle_plaintexts-IsClean plaintexts d =
      (handle_plaintexts-output plaintexts d, shown_all-IsClean plaintexts)
