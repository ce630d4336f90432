-- ===== src/Feed/Files/Tests.antt =====
-- The transfer of a file at a concrete input.
use zero_feed.Base.{
  ℕ, ◌≡◌, refl, true, none, some, Option, List, [], ◌∷◌, ◌++◌, take, drop, replicate, lookup, ℤ,
  pos, negsuc, arith, All, codes,
}
use zero_feed.Protocol.Messages.{tag_text}
use zero_feed.Feed.Files.{
  FileHeader, Downloads, Outside, verified, header_of, clean_name, file_payloads, handle_plaintexts,
}
use zero_feed.Feed.Sanitize.{sanitize_text_output}
use zero_feed.Feed.Files.Output.{IsClean, shown_all, handle_plaintexts-IsClean}
use zero_feed.Feed.Files.Transfer.{handle_plaintexts-file_payloads}

-- A header is its size, the identifier and the name.
abbrev encoded_size : ℤ → ℕ
encoded_size (pos n) = n
encoded_size (negsuc n) = 0

abbrev decoded : List ℕ → Option FileHeader
decoded [] = none
decoded (n ∷ bytes) = some (record {
  transfer_id = take 16 bytes;
  filename = drop 16 bytes;
  file_size = pos n;
  sha256 = 7 ∷ [];
})

abbrev outside : Outside
outside = record {
  marshal = λ h. encoded_size h.file_size ∷ h.transfer_id ++ h.filename;
  unmarshal = decoded;
  base = λ name. name;
  creates = λ name. true;
  checksum = λ content. 7 ∷ [];
}

abbrev no_downloads : Downloads
no_downloads = record { files = []; active = []; output = []; acks = []; reports = [] }

abbrev id : List ℕ
id = replicate 16 b'f'

abbrev name : List ℕ
name = b'a' ∷ b'b' ∷ []

abbrev content : List ℕ
content = 1 ∷ 2 ∷ 3 ∷ []

handle_plaintexts-file_payloads_example :
    let d' = handle_plaintexts outside (file_payloads outside id name content) no_downloads in
    (lookup (clean_name name) d'.files ≡ some content)
    × (lookup id d'.active ≡ none)
    × (d'.reports ≡ verified (clean_name name) 3 (7 ∷ []) ∷ [])
unfolding header_of
handle_plaintexts-file_payloads_example =
    handle_plaintexts-file_payloads outside id name content no_downloads refl refl refl
      (omega arith)

abbrev shown_payloads : List (List ℕ)
shown_payloads = (tag_text ∷ 0x1B ∷ codes "[0mhi") ∷ (b'h' ∷ 0x1B ∷ []) ∷ []

handle_plaintexts-IsClean_example :
    ((handle_plaintexts outside shown_payloads no_downloads).output
      ≡ codes "hi" ∷ (b'h' ∷ 0x1B ∷ []) ∷ [])
    × All (IsClean shown_payloads) (shown_all shown_payloads)
unfolding sanitize_text_output
handle_plaintexts-IsClean_example = handle_plaintexts-IsClean outside shown_payloads no_downloads
