-- ===== src/Feed/Invite/Query.antt =====
-- The parameters of an invite's URI, written by ToURI and read by ParseQuery (pkg/feed/invite.go).
use zero_feed.Base.{
  ℕ, ◌≡◌, refl, ap, ◌∙◌, Bool, true, false, ◌&&◌, not, some, List, [], ◌∷◌, ◌++◌, append_assoc, ltb,
  ◌==◌, if◌then◌else◌, All, All-append, IsByte, bytes_equal, bytes_equal_refl, codes, ok, arith,
}
use zero_feed.Feed.Invite.{
  Bytes, Invite, is_empty, optional, join_params, link_mark, linked, invite_of_query,
}
use zero_feed.Feed.Invite.Url.{
  query_unescape, cut_byte, contains_text, split_byte, parse_part, parse_parts, get, entry_of,
}
use zero_feed.Feed.Invite.Escapes.{
  is_plain_byte, IsQueryByte, IsPlainByte, IsUriByte, Avoids, query_byte-Avoids,
  query_unescape-IsPlain, contains_byte-absent, cut_text-absent, split_byte-append,
  split_byte-absent,
}

-- An ASCII byte that is no space and no control.
abbrev pub is_graphic : ℕ → Bool
is_graphic c = ltb 32 c && ltb c 127

abbrev pub IsGraphic : ℕ → Type 0
IsGraphic c = is_graphic c ≡ true

pub plain-query : (s : Bytes) → All IsPlainByte s → All IsQueryByte s
plain-query [] h = tt
plain-query (c ∷ s) h = let p = h.0 in (ground arith, plain-query s h.1)

pub query-IsGraphic : (s : Bytes) → All IsQueryByte s → All IsGraphic s
query-IsGraphic [] h = tt
query-IsGraphic (c ∷ s) h = let p = h.0 in (ground arith, query-IsGraphic s h.1)

-- The name of a parameter.
pub record IsKey (key : Bytes) : Type 0 where
  pub plain : All IsPlainByte key
  pub unequal : Avoids b'=' key

unfoldable pub all : (ℕ → Bool) → Bytes → Bool
all p [] = true
all p (c ∷ s) = p c && all p s

pub all_sound : (p : ℕ → Bool) (s : Bytes) → all p s ≡ true → All (λ c. p c ≡ true) s
unfolding all
all_sound p [] h = tt
all_sound p (c ∷ s) h = (ground arith, all_sound p s (ground arith))

pub all-Avoids : (b : ℕ) (s : Bytes) → all (λ c. not (c == b)) s ≡ true → Avoids b s
unfolding all
all-Avoids b [] h = tt
all-Avoids b (c ∷ s) h = (ground arith, all-Avoids b s (ground arith))

pub tests-IsKey :
    (key : Bytes) → all is_plain_byte key ≡ true → all (λ c. not (c == b'=')) key ≡ true → IsKey key
tests-IsKey key h k = record {
  plain = all_sound is_plain_byte key h;
  unequal = all-Avoids b'=' key k;
}

pub cut_byte-append : (b : ℕ) (s t : Bytes) → Avoids b s → cut_byte b (s ++ (b ∷ t)) ≡ (s, t)
unfolding cut_byte
cut_byte-append b [] t h = ground arith
cut_byte-append b (c ∷ s) t h = rw (h.0, cut_byte-append b s t h.1) refl

pub parse_part_lem :
    (key raw value : Bytes)
    → IsKey key
    → All IsQueryByte raw
    → query_unescape raw ≡ some value
    → parse_part (key ++ (b'=' ∷ raw)) ≡ (key, value) ∷ []
unfolding parse_part
parse_part_lem [] raw value k h e =
    rw (contains_byte-absent b';' raw (query_byte-Avoids b';' raw refl h))
      (ap (λ v. entry_of (some []) v) e)
parse_part_lem (c ∷ key) raw value k h e =
    let absent = contains_byte-absent b';' ((c ∷ key) ++ (b'=' ∷ raw)) (
      query_byte-Avoids b';' ((c ∷ key) ++ (b'=' ∷ raw)) refl (
        All-append IsQueryByte (c ∷ key) (b'=' ∷ raw) (plain-query (c ∷ key) k.plain) (refl, h))) in
    rw
      (
        absent,
        cut_byte-append b'=' (c ∷ key) raw k.unequal,
        query_unescape-IsPlain (c ∷ key) k.plain,
        e,
      )
      refl

abbrev pub entries : Bytes → Bytes → List (Bytes × Bytes)
entries key value = if is_empty value then [] else (key, value) ∷ []

pub optional_lem :
    (key value raw : Bytes)
    → IsKey key
    → All IsQueryByte raw
    → query_unescape raw ≡ some value
    → (rest : List Bytes)
    → parse_parts (optional (key ++ (b'=' ∷ [])) value raw ++ rest)
      ≡ entries key value ++ parse_parts rest
unfolding optional parse_parts
optional_lem key [] raw k h e rest = refl
optional_lem key (c ∷ value) raw k h e rest =
    ap (λ p. parse_part p ++ parse_parts rest) (append_assoc key (b'=' ∷ []) raw)
    ∙ ap (λ l. l ++ parse_parts rest) (parse_part_lem key raw (c ∷ value) k h e)

pub optional-Avoids :
    (key value raw : Bytes)
    → IsKey key
    → All IsQueryByte raw
    → All (Avoids b'&') (optional (key ++ (b'=' ∷ [])) value raw)
unfolding optional
optional-Avoids key [] raw k h = tt
optional-Avoids key (c ∷ value) raw k h = (
  query_byte-Avoids b'&' _ refl (
      All-append IsQueryByte (key ++ (b'=' ∷ [])) raw
        (All-append IsQueryByte key (b'=' ∷ []) (plain-query key k.plain) (refl, tt)) h),
  tt,
)

pub split-join :
    (p : Bytes) (ps : List Bytes)
    → All (Avoids b'&') (p ∷ ps)
    → split_byte b'&' (join_params (p ∷ ps)) ≡ p ∷ ps
unfolding join_params
split-join p [] h = split_byte-absent b'&' p h.0
split-join p (q ∷ ps) h =
    split_byte-append b'&' p (join_params (q ∷ ps)) h.0 ∙ ap (λ l. p ∷ l) (split-join q ps h.1)

pub get-skip :
    (key j value : Bytes) (rest : List (Bytes × Bytes))
    → bytes_equal key j ≡ false
    → get j (entries key value ++ rest) ≡ get j rest
unfolding get
get-skip key j [] rest e = refl
get-skip key j (c ∷ value) rest e = rw e refl

pub get-hit :
    (key value : Bytes) (rest : List (Bytes × Bytes))
    → get key rest ≡ []
    → get key (entries key value ++ rest) ≡ value
unfolding get
get-hit key [] rest e = e
get-hit key (c ∷ value) rest e = rw (bytes_equal_refl key) refl

abbrev pub entries_of : Invite → List (Bytes × Bytes)
entries_of i =
    entries (codes "code") i.channel_code
    ++ (entries (codes "relay") i.relay_addr
        ++ (entries (codes "transport") i.transport_mode
            ++ (entries (codes "fingerprint") i.spki_fingerprint ++ [])))

pub get-fingerprint :
    (f : Bytes) → get (codes "fingerprint") (entries (codes "fingerprint") f ++ []) ≡ f
get-fingerprint f = get-hit (codes "fingerprint") f [] (unfold get in refl)

pub invite_of_query-entries :
    (i : Invite) → is_empty i.channel_code ≡ false → invite_of_query (entries_of i) ≡ ok i
unfolding invite_of_query bytes_equal
invite_of_query-entries i coded =
    let c = codes "code" in
    let r = codes "relay" in
    let t = codes "transport" in
    let f = codes "fingerprint" in
    let after_transport = entries f i.spki_fingerprint ++ [] in
    let after_relay = entries t i.transport_mode ++ after_transport in
    let after_code = entries r i.relay_addr ++ after_relay in
    let none_of =
      λ (key : Bytes) (e : bytes_equal f key ≡ false). get-skip f key i.spki_fingerprint [] e in
    let got_code : get c (entries_of i) ≡ i.channel_code = get-hit c i.channel_code after_code (
      get-skip r c i.relay_addr after_relay refl
      ∙ get-skip t c i.transport_mode after_transport refl
      ∙ get-skip f c i.spki_fingerprint [] refl
      ∙ unfold get in refl) in
    let got_relay : get r (entries_of i) ≡ i.relay_addr =
      get-skip c r i.channel_code after_code refl
      ∙ get-hit r i.relay_addr after_relay (
          get-skip t r i.transport_mode after_transport refl
          ∙ get-skip f r i.spki_fingerprint [] refl
          ∙ unfold get in refl) in
    let got_transport : get t (entries_of i) ≡ i.transport_mode =
      get-skip c t i.channel_code after_code refl
      ∙ get-skip r t i.relay_addr after_relay refl
      ∙ get-hit t i.transport_mode after_transport
          (get-skip f t i.spki_fingerprint [] refl ∙ unfold get in refl) in
    let got_fingerprint : get f (entries_of i) ≡ i.spki_fingerprint =
      get-skip c f i.channel_code after_code refl
      ∙ get-skip r f i.relay_addr after_relay refl
      ∙ get-skip t f i.transport_mode after_transport refl
      ∙ get-fingerprint i.spki_fingerprint in
    rw (got_code, got_relay, got_transport, got_fingerprint, coded) refl

pub code-IsKey : IsKey (codes "code")
unfolding all
code-IsKey = tests-IsKey (codes "code") refl refl

pub relay-IsKey : IsKey (codes "relay")
unfolding all
relay-IsKey = tests-IsKey (codes "relay") refl refl

pub transport-IsKey : IsKey (codes "transport")
unfolding all
transport-IsKey = tests-IsKey (codes "transport") refl refl

pub fingerprint-IsKey : IsKey (codes "fingerprint")
unfolding all
fingerprint-IsKey = tests-IsKey (codes "fingerprint") refl refl

pub split-params :
    (key value raw : Bytes) (rest : List Bytes)
    → is_empty value ≡ false
    → All (Avoids b'&') (optional key value raw ++ rest)
    → split_byte b'&' (join_params (optional key value raw ++ rest))
      ≡ optional key value raw ++ rest
unfolding optional
split-params key [] raw rest e h = cc
split-params key (c ∷ value) raw rest e h = split-join (key ++ raw) rest h

pub contains_text-absent :
    (b : ℕ) (text s : Bytes) → Avoids b s → contains_text (b ∷ text) s ≡ false
unfolding contains_text
contains_text-absent b text s h = rw (cut_text-absent b text s h, contains_text) refl

pub linked-some :
    (front back raw t : Bytes)
    → contains_text link_mark back ≡ false
    → query_unescape back ≡ some t
    → linked (some (front, back)) raw ≡ t
unfolding linked
linked-some front back raw t h e = rw (h, e) refl

pub query-uri : (s : Bytes) → All IsQueryByte s → All IsUriByte s
query-uri [] h = tt
query-uri (c ∷ s) h = let p = h.0 in (ground arith, query-uri s h.1)

pub uri-IsGraphic : (s : Bytes) → All IsUriByte s → All IsGraphic s
uri-IsGraphic [] h = tt
uri-IsGraphic (c ∷ s) h = let p = h.0 in (ground arith, uri-IsGraphic s h.1)

pub uri-bytes : (s : Bytes) → All IsUriByte s → All IsByte s
uri-bytes [] h = tt
uri-bytes (c ∷ s) h = let p = h.0 in (ground arith, uri-bytes s h.1)

pub uri_byte-Avoids : (s : Bytes) → All IsUriByte s → Avoids b'#' s
uri_byte-Avoids [] h = tt
uri_byte-Avoids (c ∷ s) h = let p = h.0 in (ground arith, uri_byte-Avoids s h.1)

pub optional-uri :
    (key value raw : Bytes)
    → IsKey key
    → All IsQueryByte raw
    → All (All IsUriByte) (optional (key ++ (b'=' ∷ [])) value raw)
unfolding optional
optional-uri key [] raw k h = tt
optional-uri key (c ∷ value) raw k h = (
  query-uri _ (
      All-append IsQueryByte (key ++ (b'=' ∷ [])) raw
        (All-append IsQueryByte key (b'=' ∷ []) (plain-query key k.plain) (refl, tt)) h),
  tt,
)

pub join-All : (P : ℕ → Type 0) (ps : List Bytes) → All (All P) ps → P b'&' → All P (join_params ps)
unfolding join_params
join-All P [] h amp = tt
join-All P (p ∷ []) h amp = h.0
join-All P (p ∷ (q ∷ ps)) h amp =
    All-append P p (b'&' ∷ join_params (q ∷ ps)) h.0 (amp, join-All P (q ∷ ps) h.1 amp)
