-- ===== src/Feed/Files/Transfer.antt =====
-- A file that passes from `SendFile` to the subscriber's downloads.
use zero_feed.Base.{
  ℕ, ◌<◌, ◌≡◌, refl, ap, ap₂, sym, ◌∙◌, true, false, none, some, List, [], ◌∷◌, ◌++◌, length, take,
  take_all, leb, ◌==◌, bytes_equal, bytes_equal_refl, lookup, insert, lookup-delete, arith,
}
use mathlib.Core.Path.{subst}
use mathlib.Core.List.{map}
use zero_feed.Protocol.Messages.{tag_file_start, tag_file_end}
use zero_feed.Feed.Files.{
  FileHeader, ActiveFile, Report, verified, Downloads, Outside, clean_name, create_file, start_file,
  check_file, end_file, handle_file_end, handle_plaintext, handle_plaintexts, chunk_size_of, chunks,
  chunk_payload, header_of, file_payloads,
}
use zero_feed.Feed.Files.Chunks.{Receiving, lookup-insert_same, handle_chunks}

module _ (o : Outside) (id name : List ℕ) (header : FileHeader) (reports : List Report)
    (id_sized : length id ≡ 16) where
  -- The first payload opens the file, and the last closes and checks it.
  handle_start :
      (d : Downloads)
      → o.unmarshal (o.marshal header) ≡ some header
      → header.transfer_id ≡ id
      → clean_name (o.base header.filename) ≡ name
      → o.creates name ≡ true
      → d.reports ≡ reports
      → Receiving id name header [] reports
          (handle_plaintext o (tag_file_start ∷ o.marshal header) d)
  unfolding handle_plaintext start_file create_file
  handle_start d hu hi hn hc hr =
      let used : (length header.transfer_id == 0) ≡ false = ground (arith, ap length hi) in
      let af : ActiveFile = record {
        filename = name;
        size = header.file_size;
        received = 0;
        chunk_count = 0;
        header = header;
      } in
      let opened : Downloads = record d {
        files = insert name [] d.files;
        active = insert id af d.active;
      } in
      let named : start_file o (some header) d ≡ create_file o name header d =
        rw used (ap (λ n. create_file o n header d) hn) in
      let made : create_file o name header d ≡ opened =
        rw hc (ap (λ i. record opened { active = insert i af d.active }) hi) in
      let e : handle_plaintext o (tag_file_start ∷ o.marshal header) d ≡ opened =
        ap (λ h. start_file o h d) hu ∙ named ∙ made in
      subst (Receiving id name header [] reports) (sym e) (record {
        count = 0;
        is_active = lookup-insert_same id af d.active;
        has_content = lookup-insert_same name [] d.files;
        has_reports = hr;
      })

  -- What is left of a transfer that is over.
  abbrev Received : List ℕ → Downloads → Type 0
  Received content d =
      (lookup name d.files ≡ some content)
      × (lookup id d.active ≡ none)
      × (d.reports ≡ reports ++ (verified name (length content) header.sha256 ∷ []))

  handle_end :
      (content : List ℕ) (d : Downloads)
      → header.sha256 ≡ o.checksum content
      → 0 < length header.sha256
      → Receiving id name header content reports d
      → Received content (handle_plaintext o (tag_file_end ∷ id) d)
  unfolding handle_plaintext handle_file_end end_file check_file
  handle_end content d hs hl r =
      let af : ActiveFile = record {
        filename = name;
        size = header.file_size;
        received = length content;
        chunk_count = r.count;
        header = header;
      } in
      let long : leb 16 (length id) ≡ true = ground (arith, id_sized) in
      let whole : take 16 id ≡ id = take_all 16 id (omega (arith, id_sized)) in
      let known : (length header.sha256 == 0) ≡ false = ground (arith, hl) in
      let same : bytes_equal (o.checksum content) header.sha256 ≡ true =
        ap (bytes_equal (o.checksum content)) hs ∙ bytes_equal_refl (o.checksum content) in
      let e : handle_plaintext o (tag_file_end ∷ id) d ≡ end_file o id (some af) d =
        rw (long, whole) (ap (λ l. end_file o id l d) r.is_active) in
      let report : check_file o af (lookup name d.files)
          ≡ verified name (length content) header.sha256 ∷ [] =
        ap (check_file o af) r.has_content
        ∙ rw same (ap (λ l. verified name (length content) l ∷ []) (sym hs)) in
      let reported : (end_file o id (some af) d).reports
          ≡ reports ++ (verified name (length content) header.sha256 ∷ []) =
        rw known (ap₂ (λ l m. l ++ m) r.has_reports report) in
      subst (Received content) (sym e)
        (r.has_content, rw (lookup-delete id id d.active, bytes_equal_refl id), reported)

handle_plaintexts-append :
    (o : Outside) (xs ys : List (List ℕ)) (d : Downloads)
    → handle_plaintexts o (xs ++ ys) d ≡ handle_plaintexts o ys (handle_plaintexts o xs d)
unfolding handle_plaintexts
handle_plaintexts-append o [] ys d = refl
handle_plaintexts-append o (x ∷ xs) ys d = handle_plaintexts-append o xs ys (handle_plaintext o x d)

chunk_size_positive : (size : ℕ) → 0 < chunk_size_of size
unfolding chunk_size_of
chunk_size_positive size = ground arith

-- If the header survives its encoding, the identifier has 16 bytes, the name can be created and
-- the checksum is not empty, then the subscriber that handles what SendFile publishes for a file
-- has a download with exactly the file's content, whatever the size and the chunks, under the
-- cleaned base name, has closed the transfer, and has reported it as verified.
pub handle_plaintexts-file_payloads :
    (o : Outside) (id path content : List ℕ) (d : Downloads)
    → length id ≡ 16
    → o.unmarshal (o.marshal (header_of o id path content)) ≡ some (header_of o id path content)
    → o.creates (clean_name (o.base (header_of o id path content).filename)) ≡ true
    → 0 < length (o.checksum content)
    → let name = clean_name (o.base (header_of o id path content).filename) in
      let d' = handle_plaintexts o (file_payloads o id path content) d in
      (lookup name d'.files ≡ some content)
      × (lookup id d'.active ≡ none)
      × (d'.reports ≡ d.reports ++ (verified name (length content) (o.checksum content) ∷ []))
unfolding header_of file_payloads handle_plaintexts
handle_plaintexts-file_payloads o id path content d hi hu hc hl =
    let header = header_of o id path content in
    let name = clean_name (o.base header.filename) in
    let size = chunk_size_of (length content) in
    let parts = map (chunk_payload id) (chunks (length content) size content) in
    let d1 = handle_plaintext o (tag_file_start ∷ o.marshal header) d in
    let opened = handle_start o id name header d.reports hi d hu refl refl hc refl in
    let written =
      handle_chunks o id name header d.reports hi (length content) size [] content d1
        (chunk_size_positive (length content)) (omega arith) opened in
    subst
      (λ e.
        (lookup name e.files ≡ some content)
        × (lookup id e.active ≡ none)
        × (e.reports ≡ d.reports ++ (verified name (length content) (o.checksum content) ∷ [])))
      (sym (handle_plaintexts-append o parts ((tag_file_end ∷ id) ∷ []) d1))
      (handle_end o id name header d.reports hi content (handle_plaintexts o parts d1) refl hl
        written)
