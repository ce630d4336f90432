-- ===== src/Feed/Files.antt =====
-- The transfer of files: `SendFile` of pkg/feed/publisher.go, and the switch over the tags in `SubscribeStream` of
-- pkg/feed/subscriber.go.
pub mod Chunks
pub mod Transfer
pub mod Output
mod Tests
use zero_feed.Base.{
  ℕ, zero, suc, ◌+◌, ◌-◌, ◌*◌, ◌%◌, Bool, ◌||◌, Option, none, some, List, [], ◌∷◌, ◌++◌, length,
  take, drop, replicate, ltb, leb, ◌==◌, if◌then◌else◌, bytes_equal, Key, Dict, lookup, insert,
  delete, ℤ, pos, Result, ok, err,
}
use mathlib.Core.List.{map}
use zero_feed.Protocol.Messages.{tag_text, tag_file_start, tag_file_chunk, tag_file_end}
use zero_feed.Crypto.Cipher.{Primitives}
use zero_feed.Feed.Sanitize.{sanitize_text_output}
use zero_feed.Feed.Publisher.{PublisherEngine, PublishError, Input, publish_payload, unless_failed}

pub record FileHeader : Type 0 where
  pub transfer_id : List ℕ
  pub filename : List ℕ
  pub file_size : ℤ
  pub sha256 : List ℕ

-- Where the next bytes of an open file go is `received`.
pub record ActiveFile : Type 0 where
  pub filename : List ℕ
  pub size : ℤ
  pub received : ℕ
  pub chunk_count : ℕ
  pub header : FileHeader

-- What is printed at the end of a transfer.
pub data Report : Type 0 where
  mismatch : List ℕ → List ℕ → List ℕ → Report
  verified : List ℕ → ℕ → List ℕ → Report
  saved : List ℕ → ℕ → Report

-- `files` are the contents in ./downloads, `output` is what the output writer and the callback got, and
-- `acks` are the transfers that were acknowledged.
pub record Downloads : Type 0 where
  pub files : Dict (List ℕ)
  pub active : Dict ActiveFile
  pub output : List (List ℕ)
  pub acks : List (List ℕ)
  pub reports : List Report

-- `encoding/json` on headers, `filepath.Base`, whether `os.Create` gives a file, and SHA-256 in
-- hexadecimal.
pub record Outside : Type 0 where
  pub marshal : FileHeader → List ℕ
  pub unmarshal : List ℕ → Option FileHeader
  pub base : List ℕ → List ℕ
  pub creates : List ℕ → Bool
  pub checksum : List ℕ → List ℕ

abbrev pub chunk_id_size : ℕ
chunk_id_size = 16

abbrev pub received_file : List ℕ
received_file =
    b'r' ∷ b'e' ∷ b'c' ∷ b'e' ∷ b'i' ∷ b'v' ∷ b'e' ∷ b'd' ∷ b'_' ∷ b'f' ∷ b'i' ∷ b'l' ∷ b'e' ∷ []

-- A base name that is a folder is replaced.
unfoldable pub clean_name : List ℕ → List ℕ
clean_name name =
    if bytes_equal name (b'.' ∷ []) || bytes_equal name (b'/' ∷ []) then received_file else name

-- A write at an offset; what the file lacks before it reads as zeros.
unfoldable pub write_at : ℕ → List ℕ → List ℕ → List ℕ
write_at offset chunk content =
    (take offset content ++ replicate (offset - length content) 0)
    ++ chunk
    ++ drop (offset + length chunk) content

abbrev pub content_of : Option (List ℕ) → List ℕ
content_of none = []
content_of (some content) = content

-- Files that are open take what is written to them.
unfoldable pub write_chunk : List ℕ → List ℕ → Option ActiveFile → Downloads → Downloads
unfolding write_at
write_chunk id chunk none d = d
write_chunk id chunk (some af) d =
    let count = af.chunk_count + 1 in
    let content = write_at af.received chunk (content_of (lookup af.filename d.files)) in
    record d {
      files = insert af.filename content d.files;
      active =
          insert id (record af { received = af.received + length chunk; chunk_count = count })
            d.active;
      acks = if count % 16 == 0 then d.acks ++ (id ∷ []) else d.acks;
    }

unfoldable pub handle_file_chunk : List ℕ → Downloads → Downloads
unfolding write_chunk
handle_file_chunk bytes d =
    let id = take chunk_id_size bytes in
    if ltb chunk_id_size (length bytes)
    then write_chunk id (drop chunk_id_size bytes) (lookup id d.active) d
    else d

module _ (o : Outside) where
  unfoldable pub create_file : List ℕ → FileHeader → Downloads → Downloads
  create_file name header d =
      let af : ActiveFile = record {
        filename = name;
        size = header.file_size;
        received = 0;
        chunk_count = 0;
        header = header;
      } in
      if o.creates name
      then record d {
        files = insert name [] d.files;
        active = insert header.transfer_id af d.active;
      }
      else d

  unfoldable pub start_file : Option FileHeader → Downloads → Downloads
  unfolding create_file clean_name
  start_file none d = d
  start_file (some header) d =
      if length header.transfer_id == 0
      then d
      else create_file (clean_name (o.base header.filename)) header d

  -- The report, by the file's content if it can be opened.
  unfoldable pub check_file : ActiveFile → Option (List ℕ) → List Report
  check_file af none = []
  check_file af (some content) =
      if bytes_equal (o.checksum content) af.header.sha256
      then verified af.filename af.received (o.checksum content) ∷ []
      else mismatch af.filename af.header.sha256 (o.checksum content) ∷ []

  unfoldable pub end_file : List ℕ → Option ActiveFile → Downloads → Downloads
  unfolding check_file
  end_file id none d = d
  end_file id (some af) d =
      let report =
        if length af.header.sha256 == 0
        then saved af.filename af.received ∷ []
        else check_file af (lookup af.filename d.files) in
      record d {
        active = delete id d.active;
        acks = d.acks ++ (id ∷ []);
        reports = d.reports ++ report;
      }

  unfoldable pub handle_file_end : List ℕ → Downloads → Downloads
  unfolding end_file
  handle_file_end bytes d =
      let id = take chunk_id_size bytes in
      if leb chunk_id_size (length bytes) then end_file id (lookup id d.active) d else d

  -- The switch over the tags. A payload with another first byte is an untagged text.
  unfoldable pub handle_plaintext : List ℕ → Downloads → Downloads
  unfolding start_file handle_file_chunk handle_file_end
  handle_plaintext [] d = d
  handle_plaintext (tag ∷ bytes) d =
      if tag == tag_text
      then record d { output = d.output ++ (sanitize_text_output bytes ∷ []) }
      else if tag == tag_file_start
      then start_file (o.unmarshal bytes) d
      else if tag == tag_file_chunk
      then handle_file_chunk bytes d
      else if tag == tag_file_end
      then handle_file_end bytes d
      else record d { output = d.output ++ ((tag ∷ bytes) ∷ []) }

  unfoldable pub handle_plaintexts : List (List ℕ) → Downloads → Downloads
  unfolding handle_plaintext
  handle_plaintexts [] d = d
  handle_plaintexts (plaintext ∷ plaintexts) d =
      handle_plaintexts plaintexts (handle_plaintext plaintext d)

unfoldable pub chunk_size_of : ℕ → ℕ
chunk_size_of size =
    if leb (100 * 1024 * 1024) size
    then 524288
    else if leb (10 * 1024 * 1024) size
    then 131072
    else 32768

-- The reads of a file, each as long as the buffer but the last; a read gives a byte at least, so as many as
-- bytes are enough.
unfoldable pub chunks : ℕ → ℕ → List ℕ → List (List ℕ)
chunks zero size content = []
chunks (suc reads) size content =
    let rest = chunks reads size (drop size content) in
    if length content == 0 then [] else take size content ∷ rest

abbrev pub chunk_payload : List ℕ → List ℕ → List ℕ
chunk_payload id chunk = tag_file_chunk ∷ id ++ chunk

-- `id` is the transfer's identifier, 16 hexadecimal digits.
unfoldable pub header_of : Outside → List ℕ → List ℕ → List ℕ → FileHeader
header_of o id path content = record {
  transfer_id = id;
  filename = o.base path;
  file_size = pos (length content);
  sha256 = o.checksum content;
}

-- What `SendFile` publishes, in its order.
unfoldable pub file_payloads : Outside → List ℕ → List ℕ → List ℕ → List (List ℕ)
unfolding chunks chunk_size_of header_of
file_payloads o id path content =
    (tag_file_start ∷ o.marshal (header_of o id path content))
    ∷ (map (chunk_payload id) (chunks (length content) (chunk_size_of (length content)) content)
        ++ ((tag_file_end ∷ id) ∷ []))

-- The publishing, which ends at the first error; each payload has its time and its buffers. The waits for
-- acknowledgements only delay it.
module _ (prims : Primitives) where
  unfoldable pub publish_all :
      List Input → PublisherEngine → Result PublishError (Unit {0}) × PublisherEngine
  publish_all [] p = (ok tt, p)
  publish_all (i ∷ inputs) p =
      let first = publish_payload prims i.now i.salt i.pooled i.payload p in
      unless_failed prims first (publish_all inputs first.1)

  unfoldable pub send_file :
      Outside
      → (List ℕ → Input)
      → List ℕ
      → List ℕ
      → List ℕ
      → PublisherEngine
      → Result PublishError (Unit {0}) × PublisherEngine
  unfolding publish_all file_payloads
  send_file o turn id path content p = publish_all (map turn (file_payloads o id path content)) p
