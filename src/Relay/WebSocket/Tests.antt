-- ===== src/Relay/WebSocket/Tests.antt =====
-- The theorems of the frames at concrete inputs.
use zero_feed.Base.{
  ℕ, ◌≡◌, refl, some, true, bytes_equal, Strings, List, [], ◌∷◌, ◌++◌, eof, ok, arith,
}
use zero_feed.Relay.WebSocket.{read}
use zero_feed.Relay.WebSocket.Frames.{wire}
use zero_feed.Relay.WebSocket.Reads.{Ping, conn_of, pings_wire, read-wire}
use zero_feed.Relay.WebSocket.Origins.{is_known_origin}

-- A masked ping, and then a masked text of three bytes, of which two are read.
abbrev pings : List Ping
pings = (some (1 ∷ 2 ∷ 3 ∷ 4 ∷ []), b'p' ∷ []) ∷ []

abbrev text : List ℕ
text = b'a' ∷ b'b' ∷ b'c' ∷ []

abbrev key : List ℕ
key = 9 ∷ 8 ∷ 7 ∷ 6 ∷ []

read-wire_example :
    read 2 (conn_of (pings_wire pings ++ (wire 1 (some key) text ++ (5 ∷ []))) eof [] [])
    ≡ (ok (b'a' ∷ b'b' ∷ []), conn_of (5 ∷ []) eof (b'c' ∷ []) ((0x8A ∷ 1 ∷ b'p' ∷ []) ∷ []))
read-wire_example =
    read-wire 2 pings 1 (some key) text (5 ∷ []) eof [] ((refl, (omega arith, tt), omega arith), tt)
      (omega arith) (refl, (omega arith, (omega arith, (omega arith, tt))), omega arith)

-- Strings in lower case, without spaces and commas.
abbrev plain : Strings
plain = record {
  to_lower = λ s. s;
  trim_space = λ s. s;
  equal_fold = bytes_equal;
  split_commas = λ s. s ∷ [];
}

-- "http://localhost.e" is not the local host, but it is allowed.
prefix_allowed :
    is_known_origin plain
      (b'h' ∷ b't' ∷ b't' ∷ b'p' ∷ b':' ∷ b'/' ∷ b'/' ∷ b'l' ∷ b'o' ∷ b'c' ∷ b'a' ∷ b'l' ∷ b'h'
        ∷ b'o' ∷ b's' ∷ b't' ∷ b'.' ∷ b'e' ∷ [])
      []
    ≡ true
unfolding is_known_origin bytes_equal
prefix_allowed = refl
