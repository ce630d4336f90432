-- ===== src/Feed/Sanitize/Tests.antt =====
-- The terminal filter on the inputs of pkg/feed/sanitize_test.go.
use zero_feed.Base.{◌≡◌, refl, ◌∷◌, ◌++◌, codes}
use zero_feed.Feed.Sanitize.Sequences.{sanitize_text_output-sequences}
use zero_feed.Feed.Sanitize.{esc, bel, sanitize_text_output}

sanitize_title :
    sanitize_text_output (esc ∷ codes "]0;EVIL TITLE" ++ (bel ∷ codes "visible")) ≡ codes "visible"
unfolding sanitize_text_output
sanitize_title = refl

sanitize_mixed :
    sanitize_text_output (
      esc ∷ codes "[31mRED"
      ++ (esc ∷ codes "[0m" ++ (esc ∷ codes "]0;pwned" ++ (bel ∷ codes "clean"))))
    ≡ codes "REDclean"
unfolding sanitize_text_output
sanitize_mixed = refl

sanitize_st :
    sanitize_text_output (esc ∷ codes "]2;EVIL" ++ (esc ∷ codes "\\visible")) ≡ codes "visible"
unfolding sanitize_text_output
sanitize_st = refl

sanitize_bare :
    sanitize_text_output (codes "a" ++ (esc ∷ codes "cb\r\n\t" ++ (0x7F ∷ codes "c")))
    ≡ codes "ab\r\n\tc"
unfolding sanitize_text_output
sanitize_bare = refl

-- The encoding of U+009B, another introducer of control sequences, and the mark of a private mode are kept.
sanitize_c1 : sanitize_text_output (0xC2 ∷ 0x9B ∷ codes "2J") ≡ 0xC2 ∷ 0x9B ∷ codes "2J"
unfolding sanitize_text_output
sanitize_c1 = refl

sanitize_private : sanitize_text_output (esc ∷ codes "[?25l") ≡ codes "?25l"
unfolding sanitize_text_output
sanitize_private = refl

sanitize_text_output-sequences_example :
    (sanitize_text_output (codes "a") ≡ codes "a")
    × (sanitize_text_output (codes "a" ++ (esc ∷ b'[' ∷ (codes "1;31" ++ (b'm' ∷ codes "b"))))
        ≡ codes "a" ++ sanitize_text_output (codes "b"))
    × (sanitize_text_output (codes "a" ++ (esc ∷ b']' ∷ (codes "0;hi" ++ (bel ∷ codes "b"))))
        ≡ codes "a" ++ sanitize_text_output (codes "b"))
sanitize_text_output-sequences_example =
    sanitize_text_output-sequences (codes "a") (codes "1;31") (codes "0;hi") (codes "b") b'm'
      (refl, tt) (refl, (refl, (refl, (refl, tt)))) refl (refl, (refl, (refl, (refl, tt))))
