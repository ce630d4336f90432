-- ===== src/Lib.antt =====
-- ZeroFeed sends a stream of messages and files from a publisher to subscribers through a relay that
-- sees only encrypted frames. This library models the core of it.
--
-- The parts and the files:
--   Protocol   pkg/protocol: the constants, the envelope and the header (Messages), `Encode` and
--              `DecodeWithMax` (Frame), `PadPayload` and `UnpadPayload` (Padding).
--   Crypto     pkg/crypto: `HKDFSHA256` (Hkdf), `Cipher`, the nonces and the wrapping of session keys
--              of cipher.go (Cipher), and the key exchange of pake.go (Pake). AES-GCM and HMAC are the
--              record Primitives, X25519, ML-KEM-768, Argon2id and SHA-256 the record PakePrimitives,
--              with the documented laws in IsLawful and IsLawfulPake; Toy has primitives that are lawful.
--              Memzero is the registry of buffers and wipers of memzero.go, over the memory; Badges has
--              `DeriveKey` and the short authentication strings.
--   Feed       pkg/feed: the replay buffer of ringbuffer.go (Ring), the publisher of publisher.go
--              (Publisher) and the subscriber of subscriber.go (Subscriber). Handshake has the
--              engines' constructors, `Connect`, `CompleteHandshake` of both sides, `reconnectLoop`
--              and the loop of `handleSyncRequests` (Requests), and the steps of a running publisher
--              in any order (Running); Stream follows frames from the one to the other, and has the
--              loop of `SubscribeStream` over its connections (Rounds); Files is the transfer of
--              files, with the subscriber's switch over the tags, and Sanitize the filter that its
--              texts pass; Dial is `DialRelayWithPin` of session_id.go and the choice of a relay in
--              relay_list.go; Invite has the texts of invite.go, with what they use of net/url (Url),
--              and Progress is the unit of a size in progress.go.
--   Relay      pkg/relay: the bans of ratelimit.go (RateLimit), the connections and sessions of session.go
--              (Session), and the server of server.go (Server): its map of sessions (Sessions), the first
--              frame of a connection and the loops (Handle), and the steps of all goroutines (Events).
--              Limit is the limit on active connections. Proxy is the header of proxy_proto.go, and
--              WebSocket the frames of websocket.go.
--   Cli        main.go: the passphrase and the relay of a command (Shell), the channel codes (Codes), the
--              sizes (Sizes), `runPublish` and `runSubscribe` as the calls that they make of the engines
--              (Sessions), `runMain`, `runInvite` and `runJoin` (Sharing), and `runRelay` (Relays). Logger
--              is the configuration in pkg/logger/logger.go.
--   Base       numbers, lists, byte strings, maps, and the readers and writers of the standard library.
--
-- How they interact: both engines derive a key from the passphrase in an exchange through the relay,
-- and the publisher gives the subscriber its master key wrapped under it. The publisher pads a tagged
-- payload, encrypts it under a nonce of its sequence number with the frame's header as additional
-- data, and sends the frame; the relay's server decodes it and puts it in the queue of every
-- subscriber of the session; a subscriber decodes it, decrypts it, drops numbers that are not new, and
-- delivers the payload, which is a text or a part of a file. A reconnected subscriber asks for what
-- came after its last number, which the publisher replays from its ring. The command line chooses the
-- code and the relay, shares them as an invite, and drives the engines.
--
-- State is passed explicitly: an operation takes the record of its component and gives the new one.
-- The relay's connections and sessions are shared, so they are references into stores (Conns, and the
-- field heap of Server), and a session that left the map lives on there. Methods under a mutex are
-- one step; goroutines are sequences of steps in any order (Events, Running). Times are nanoseconds given as
-- arguments, as are random bytes and the contents of pooled buffers. Bytes are natural numbers below
-- 256, and machine integers keep their wrap-around.
--
-- Bounds and fuel: `Hkdf.expand` has as many rounds as bytes are asked for, which is enough because a
-- round adds 32 bytes; `WebSocket.fill` has one round more than there are bytes to read, which is
-- enough because a frame takes a byte at least; `Files.chunks` has as many rounds as the file has
-- bytes; `reconnect_loop` counts its retries down, as the source does from ten;
-- `Progress.unit_loop` has six rounds, which are enough for 63 bits; `Codes.decimal_steps` has the
-- digits of the largest number that it is given; every other loop recurses on the data that it goes
-- through, as the loop over a subscriber's connections does on what they bring.
--
-- Not modelled: sockets, TLS, QUIC, HTTP, the terminal, signals and the file system, which are input and
-- output and come in as arguments that say how they answer; what is drawn or printed for a person, the
-- lines of the log and the text of the metrics; the locking of memory by system calls; the browser
-- client, which binds JavaScript; and the parsing of flags, which the standard library does.
mod Base
pub mod Protocol
pub mod Feed
pub mod Relay
pub mod Crypto
pub mod Cli
