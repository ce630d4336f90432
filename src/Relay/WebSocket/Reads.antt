-- ===== src/Relay/WebSocket/Reads.antt =====
-- What `Read` of pkg/relay/websocket.go makes of a stream of frames, and of what `Write` sent.
use zero_feed.Base.{
  ℕ, zero, suc, ◌+◌, ◌%◌, ◌≤◌, ◌<◌, ◌≡◌, refl, ap, ap₂, sym, ◌∙◌, Bool, true, false, Option, none,
  some, List, [], ◌∷◌, ◌++◌, length, take, drop, take_all, drop_all, append-nil, All, IsByte,
  append_assoc, length-append, leb, ◌==◌, ◌||◌, if◌then◌else◌, Result, ok, IoError, Reader, put_be,
  arith,
}
use zero_feed.Relay.WebSocket.{
  WsError, max_ws_payload, Frame, WsConn, pong, write_through, take_payload, send_pong, is_data,
  after_frame, fill, handed, read, ws_frame, write,
}
use zero_feed.Relay.WebSocket.Frames.{IsMask, wire, read_frame_lem}

-- What a peer sends before a data frame: pings, each with its mask and its payload.
abbrev pub Ping : Type 0
Ping = Option (List ℕ) × List ℕ

abbrev pub IsPayload : ℕ → Ping → Type 0
IsPayload limit (mask, payload) = IsMask mask × All IsByte payload × (length payload ≤ limit)

-- The length of the payload fits 16 bits, as that of a control frame does by far.
abbrev pub IsPing : Ping → Type 0
IsPing = IsPayload 65535

abbrev pub pings_wire : List Ping → List ℕ
pings_wire [] = []
pings_wire ((mask, payload) ∷ pings) = wire 0x9 mask payload ++ pings_wire pings

-- The frames of RFC 6455 that answer them: opcode 10, no mask, and the same payload.
abbrev pub pongs : List Ping → List (List ℕ)
pongs [] = []
pongs ((mask, payload) ∷ pings) = wire 0xA none payload ∷ pongs pings

pong_bytes :
    (small middle : Bool) (n : ℕ) (two eight p : List ℕ)
    → (small ≡ true → n % 256 ≡ n)
    → (small ≡ false → middle ≡ true)
    → 138 ∷ ((if small then n % 256 ∷ [] else 126 ∷ two) ++ p)
      ≡ 138
        ∷ (if small then n else if middle then 126 else 127)
        ∷ ((if small then [] else if middle then two else eight) ++ p)
pong_bytes true middle n two eight p h k = ap (λ b. 138 ∷ b ∷ p) (h refl)
pong_bytes false true n two eight p h k = refl
pong_bytes false false n two eight p h k = let e = k refl in absurd cc

pong_lem : (payload : List ℕ) → length payload ≤ 65535 → pong payload ≡ wire 0xA none payload
unfolding pong put_be
pong_lem payload h =
    let n = length payload in
    pong_bytes (leb n 125) (leb n 65535) n (put_be 2 n) (put_be 8 n) payload (λ e. ground arith)
      (λ e. ground arith)

long_wire :
    (opcode : ℕ) (mask : Option (List ℕ)) (payload : List ℕ) → 1 < length (wire opcode mask payload)
long_wire opcode none payload = omega arith
long_wire opcode (some key) payload = omega arith

-- A connection whose writes succeed.
abbrev pub conn_of : List ℕ → IoError → List ℕ → List (List ℕ) → WsConn
conn_of bytes e buf writes = record {
  reader = record { bytes = bytes; final = e };
  read_buf = buf;
  writer = record { writes = writes; open_ = true };
}

data_taken :
    (f : Frame) (again : WsConn → Result WsError (Unit {0}) × WsConn) (c : WsConn) (r : Reader)
    → f.opcode ≤ 2
    → after_frame again c (ok f, r) ≡ (ok tt, record c { reader = r; read_buf = f.payload })
unfolding after_frame take_payload is_data
data_taken f again c r h =
    let no_ping : (f.opcode == 9) ≡ false = ground arith in
    let taken : (f.opcode == 1 || f.opcode == 2 || f.opcode == 0) ≡ true = ground arith in
    rw (no_ping, taken)

ponged :
    (payload : List ℕ) (again : WsConn → Result WsError (Unit {0}) × WsConn) (bytes buf : List ℕ)
    (writes : List (List ℕ)) (e : IoError) (r : Reader)
    → length payload ≤ 65535
    → after_frame again
        (conn_of bytes e buf writes)
        (ok (record { opcode = 9; payload = payload }), r)
      ≡ again (record (conn_of bytes e buf (writes ++ (wire 0xA none payload ∷ []))) { reader = r })
unfolding after_frame send_pong write_through
ponged payload again bytes buf writes e r h =
    ap (λ f. again (record (conn_of bytes e buf (writes ++ (f ∷ []))) { reader = r }))
      (pong_lem payload h)

filled :
    (pings : List Ping) (opcode : ℕ) (mask : Option (List ℕ)) (payload rest : List ℕ) (e : IoError)
    (buf : List ℕ) (writes : List (List ℕ)) (rounds : ℕ)
    → All IsPing pings
    → opcode ≤ 2
    → IsPayload max_ws_payload (mask, payload)
    → length pings < rounds
    → fill rounds (conn_of (pings_wire pings ++ (wire opcode mask payload ++ rest)) e buf writes)
      ≡ (ok tt, conn_of rest e payload (writes ++ pongs pings))
unfolding fill
filled pings opcode mask payload rest e buf writes zero hp ho hd h = elim h [ ]
filled [] opcode mask payload rest e buf writes (suc rounds) hp ho hd h =
    let c = conn_of (wire opcode mask payload ++ rest) e buf writes in
    let r : Reader = record { bytes = rest; final = e } in
    ap (after_frame (fill rounds) c) (
      read_frame_lem opcode mask payload rest e (omega arith) (λ k. absurd (omega arith)) hd.0 hd.1
        hd.2)
    ∙ data_taken (record { opcode = opcode; payload = payload }) (fill rounds) c r ho
    ∙ ap (λ l. (ok tt, conn_of rest e payload l)) (sym (append-nil writes))
filled ((m, b) ∷ pings) opcode mask payload rest e buf writes (suc rounds) hp ho hd h =
    let more = pings_wire pings ++ (wire opcode mask payload ++ rest) in
    let c = conn_of (wire 9 m b ++ more) e buf writes in
    ap (λ l. fill (suc rounds) (conn_of l e buf writes))
      (append_assoc (wire 9 m b) (pings_wire pings) (wire opcode mask payload ++ rest))
    ∙ ap (after_frame (fill rounds) c) (
        read_frame_lem 9 m b more e (omega arith) (λ k. absurd (omega arith)) hp.0.0 hp.0.1
          (omega (arith, hp.0.2)))
    ∙ ponged b (fill rounds) (wire 9 m b ++ more) buf writes e (record { bytes = more; final = e })
        hp.0.2
    ∙ filled pings opcode mask payload rest e buf (writes ++ (wire 0xA none b ∷ [])) rounds hp.1 ho
        hd (omega arith)
    ∙ ap (λ l. (ok tt, conn_of rest e payload l))
        (append_assoc writes (wire 0xA none b ∷ []) (pongs pings))

enough_rounds :
    (pings : List Ping) (rest : List ℕ) → length pings < length (pings_wire pings ++ rest) + 1
enough_rounds [] rest = omega arith
enough_rounds ((m, b) ∷ pings) rest =
    let more = wire 9 m b ++ pings_wire pings in
    omega (
      arith,
      length-append more rest,
      length-append (wire 9 m b) (pings_wire pings),
      length-append (pings_wire pings) rest,
      long_wire 9 m b,
      enough_rounds pings rest,
    )

-- A connection with nothing buffered, whose writes succeed, gets any number of pings of at most
-- 65535 bytes and then a text, binary or continuation frame of at most 64 MB, all of bytes and
-- each with or without a mask: Read passes the pings over and writes for each, in their order, a
-- pong frame of RFC 6455 with the same payload, gives the first bytes of the frame's payload, as
-- many as its slice takes, and keeps the others, and what follows the frame is still to come.
pub read-wire :
    (size : ℕ) (pings : List Ping) (opcode : ℕ) (mask : Option (List ℕ)) (payload rest : List ℕ)
    (e : IoError) (writes : List (List ℕ))
    → All IsPing pings
    → opcode ≤ 2
    → IsPayload max_ws_payload (mask, payload)
    → read size (conn_of (pings_wire pings ++ (wire opcode mask payload ++ rest)) e [] writes)
      ≡ (ok (take size payload), conn_of rest e (drop size payload) (writes ++ pongs pings))
unfolding read handed
read-wire size pings opcode mask payload rest e writes hp ho hd =
    let bytes = pings_wire pings ++ (wire opcode mask payload ++ rest) in
    ap (handed size) (
      filled pings opcode mask payload rest e [] writes (length bytes + 1) hp ho hd
        (enough_rounds pings (wire opcode mask payload ++ rest)))

header_bytes :
    (small middle : Bool) (n : ℕ) (two eight p : List ℕ)
    → (0x82 ∷ (if small then n ∷ [] else if middle then 126 ∷ two else 127 ∷ eight)) ++ p
      ≡ 130
          ∷ (if small then n else if middle then 126 else 127)
          ∷ (if small then [] else if middle then two else eight)
        ++ p
header_bytes true middle n two eight p = refl
header_bytes false true n two eight p = refl
header_bytes false false n two eight p = refl

-- What Write sends for at most 64 MB of bytes, on a connection that takes them, is what Read of a
-- peer that has nothing buffered takes: reading once into a slice that is large enough gives the
-- bytes, and what follows is still to come.
pub read-write :
    (p rest : List ℕ) (e : IoError) (buf : List ℕ) (writes : List (List ℕ)) (later : List ℕ)
    (answers : List (List ℕ)) (size : ℕ)
    → All IsByte p
    → length p ≤ max_ws_payload
    → length p ≤ size
    → (frame : List ℕ) × (write p (conn_of rest e buf writes)
        ≡ (ok (length p), conn_of rest e buf (writes ++ (frame ∷ []))))
      × (read size (conn_of (frame ++ later) e [] answers) ≡ (ok p, conn_of later e [] answers))
unfolding write ws_frame
read-write p rest e buf writes later answers size hb hn h = (
  wire 2 none p,
  ap (λ f. (ok (length p), conn_of rest e buf (writes ++ (f ∷ []))))
      (header_bytes (leb (length p) 125) (leb (length p) 65535) (length p) (put_be 2 (length p))
        (put_be 8 (length p)) p),
  read-wire size [] 2 none p later e answers tt (omega arith) (tt, hb, hn)
      ∙ ap (λ l. (ok (take size p), conn_of later e (drop size p) l)) (append-nil answers)
      ∙ ap₂ (λ bs kept. (ok bs, conn_of later e kept answers)) (take_all size p h)
          (drop_all size p h),
)
