-- ===== src/Feed/Files/Chunks.antt =====
-- The chunks of a file in the subscriber's switch over the tags, of pkg/feed/subscriber.go.
use zero_feed.Base.{
  ℕ, zero, suc, ◌+◌, ◌-◌, ◌≤◌, ◌<◌, ◌≡◌, refl, ap, ap₂, sym, ◌∙◌, true, some, List, [], ◌∷◌, ◌++◌,
  append-nil, append_assoc, nil_of_length, length, length-append, length-take, length-drop, take,
  drop, take-append, drop-append, take_all, drop_all, take-append-drop, Bool-cases, inl, inr, ltb,
  ◌==◌, if◌then◌else◌, bytes_equal_refl, Key, Dict, lookup, insert, lookup-insert, arith,
}
use mathlib.Core.Path.{subst}
use mathlib.Core.List.{map}
use zero_feed.Feed.Files.{
  FileHeader, ActiveFile, Report, Downloads, Outside, write_at, content_of, write_chunk,
  handle_file_chunk, handle_plaintext, handle_plaintexts, chunks, chunk_payload,
}

pub lookup-insert_same :
    {V : Type 0} (k : Key) (v : V) (m : Dict V) → lookup k (insert k v m) ≡ some v
lookup-insert_same k v m = rw (lookup-insert k k v m, bytes_equal_refl k)

-- A write at the end of a file.
write_at_end : (content chunk : List ℕ) → write_at (length content) chunk content ≡ content ++ chunk
unfolding write_at
write_at_end content chunk =
    let none_lacks : length content - length content ≡ 0 = omega arith in
    rw (
      take_all (length content) content (omega arith),
      none_lacks,
      drop_all (length content + length chunk) content (omega arith),
      append-nil content,
      append-nil (content ++ chunk),
    )

-- An open transfer: what came of the file, and what is reported so far.
pub record Receiving (id name : List ℕ) (header : FileHeader) (content : List ℕ)
    (reports : List Report) (d : Downloads) : Type 0 where
  pub count : ℕ
  pub is_active :
      lookup id d.active
      ≡ some (record {
        filename = name;
        size = header.file_size;
        received = length content;
        chunk_count = count;
        header = header;
      })
  pub has_content : lookup name d.files ≡ some content
  pub has_reports : d.reports ≡ reports

module _ (o : Outside) (id name : List ℕ) (header : FileHeader) (reports : List Report)
    (id_sized : length id ≡ 16) where
  handle_file_chunk_lem :
      (chunk : List ℕ) (d : Downloads)
      → 0 < length chunk
      → handle_plaintext o (chunk_payload id chunk) d ≡ write_chunk id chunk (lookup id d.active) d
  unfolding handle_plaintext handle_file_chunk
  handle_file_chunk_lem chunk d h =
      let long : ltb 16 (length (id ++ chunk)) ≡ true =
        ground (arith, length-append id chunk, id_sized) in
      rw (long, take-append 16 id chunk id_sized, drop-append 16 id chunk id_sized)

  write_chunk-Receiving :
      (content chunk : List ℕ) (d : Downloads) (af : ActiveFile)
      → af.filename ≡ name
      → af.received ≡ length content
      → af.size ≡ header.file_size
      → af.header ≡ header
      → lookup name d.files ≡ some content
      → d.reports ≡ reports
      → Receiving id name header (content ++ chunk) reports (write_chunk id chunk (some af) d)
  unfolding write_chunk
  write_chunk-Receiving content chunk d af en er es eh hc hr =
      let now : af.received + length chunk ≡ length (content ++ chunk) =
        omega (arith, length-append content chunk) in
      let written : write_at af.received chunk (content_of (lookup af.filename d.files))
          ≡ content ++ chunk =
        ap₂ (λ n c. write_at n chunk c) er
          (ap (λ l. content_of (lookup l d.files)) en ∙ ap content_of hc)
        ∙ write_at_end content chunk in
      record {
        count = af.chunk_count + 1;
        is_active =
            lookup-insert_same id
              (record af {
                received = af.received + length chunk;
                chunk_count = af.chunk_count + 1;
              })
              d.active
            ∙ ap some (
                ap₂
                  (λ n l. record {
                    filename = n;
                    size = af.size;
                    received = l;
                    chunk_count = af.chunk_count + 1;
                    header = af.header;
                  })
                  en now
                ∙ ap₂
                    (λ n l. record {
                      filename = name;
                      size = n;
                      received = length (content ++ chunk);
                      chunk_count = af.chunk_count + 1;
                      header = l;
                    })
                    es eh);
        has_content =
            ap
              (λ n. lookup name (
                insert n (write_at af.received chunk (content_of (lookup af.filename d.files)))
                  d.files))
              en
            ∙ lookup-insert_same name
                (write_at af.received chunk (content_of (lookup af.filename d.files))) d.files
            ∙ ap some written;
        has_reports = hr;
      }

  handle_chunk :
      (content chunk : List ℕ) (d : Downloads)
      → 0 < length chunk
      → Receiving id name header content reports d
      → Receiving id name header
          (content ++ chunk)
          reports
          (handle_plaintext o (chunk_payload id chunk) d)
  handle_chunk content chunk d h r =
      subst (Receiving id name header (content ++ chunk) reports)
        (sym (handle_file_chunk_lem chunk d h ∙ ap (λ l. write_chunk id chunk l d) r.is_active))
        (write_chunk-Receiving content chunk d _ refl refl refl refl r.has_content r.has_reports)

  pub handle_chunks :
      (reads size : ℕ) (content rest : List ℕ) (d : Downloads)
      → 0 < size
      → length rest ≤ reads
      → Receiving id name header content reports d
      → Receiving id name header
          (content ++ rest)
          reports
          (handle_plaintexts o (map (chunk_payload id) (chunks reads size rest)) d)
  unfolding handle_plaintexts chunks
  handle_chunks zero size content rest d hs hr r =
      subst (λ l. Receiving id name header l reports d)
        (sym (append-nil content) ∙ ap (λ l. content ++ l) (sym (nil_of_length rest (omega arith))))
        r
  handle_chunks (suc reads) size content rest d hs hr r = elim (Bool-cases (length rest == 0)) [
    | inl done ↦
        let empty : rest ≡ [] = nil_of_length rest (ground arith) in
        subst
          (λ b. Receiving id name header (content ++ rest) reports (
            handle_plaintexts o
              (map (chunk_payload id)
                (if b then [] else take size rest ∷ chunks reads size (drop size rest)))
              d))
          (sym done)
          (subst (λ l. Receiving id name header l reports d)
            (sym (append-nil content) ∙ ap (λ l. content ++ l) (sym empty)) r)
    | inr more ↦
        let chunk = take size rest in
        let left = drop size rest in
        let some_bytes : 0 < length chunk = ground (arith, length-take size rest) in
        let fewer : length left ≤ reads = ground (arith, length-drop size rest) in
        subst
          (λ b. Receiving id name header (content ++ rest) reports (
            handle_plaintexts o
              (map (chunk_payload id) (if b then [] else chunk ∷ chunks reads size left)) d))
          (sym more)
          (subst
            (λ l. Receiving id name header l reports (
              handle_plaintexts o (map (chunk_payload id) (chunks reads size left))
                (handle_plaintext o (chunk_payload id chunk) d)))
            (append_assoc content chunk left ∙ ap (λ l. content ++ l) (take-append-drop size rest))
            (handle_chunks reads size (content ++ chunk) left
              (handle_plaintext o (chunk_payload id chunk) d) hs fewer
              (handle_chunk content chunk d some_bytes r)))
  ]
