-- ===== src/Lib.antt =====
-- USMP, the secure messaging protocol of this Python package (src/usmp): frames with a checksum,
-- authenticated encryption with directional keys, sessions with sequence numbers, fragmentation,
-- replay protection and in-band rekeying, over TCP and UDP.
--
-- The parts and their files:
--   Prelude    shared names, Boolean tests on numbers, lists, texts, and the bits of a number.
--   Errors     src/usmp/errors.py: the exception classes; a fallible function returns a `Result`,
--              whose error is the class of the exception, without its message. `Errors.Hierarchy`
--              relates the tests of `except` clauses to the class tree.
--   Types      src/usmp/types.py: `PacketType`, `USMPFrame`, `SessionInfo` and the constants;
--              `Types.Printed` has their string forms.
--   Bytes      bytes as numbers below 256, and `struct.pack` and `unpack_from` for the formats
--              that the code uses.
--   Crc, Frame src/usmp/_frame.py: `crc16`, `compute_frame_crc`, `encode_frame`, `decode_frame`
--              and `read_frame` on a stream that has been received whole.
--   Crypto     src/usmp/_crypto.py: key schedules, additional data, `encrypt` and `decrypt`. The
--              `cryptography` package is the record `Primitives`; what the theorems assume of it
--              is in `Crypto.Laws`, and `Crypto.Model` has functions that meet it.
--   Window     the replay window of `recv` in src/usmp/_session.py; `Abstract` relates it to a set
--              of numbers, a quotient of the lists of them.
--   Transport  src/usmp/transport/base.py as a session sees it: the bytes that went out, the
--              outcome of each write to come, and the calls it was told of. `write_frame` encodes
--              a frame and transmits it. `Tcp` has `TCPTransport` of src/usmp/transport/tcp.py,
--              `Carry` is about frames from one to another, and `Registry` has the table of
--              src/usmp/transport/__init__.py.
--   Session    src/usmp/_session.py: `State` has the fields of `USMPSession`, `Send` has `send`,
--              `ping`, `rekey`, `bye` and `_send_encrypted_locked`, `Recv` has the turns of the
--              loop of `recv` and the loop. A method takes a session to a result and the session
--              that follows, also when it raises. `Nonce`, `Kept` and `Steps` are about the numbers
--              used, `Packet`, `Turn`, `Exchange` and `Deliver` about a message from `send` to
--              `recv`, `Authentic`, `Drop` and `Accept` about the packets that `recv` takes,
--              `Once` about copies of a packet, `Piece` and `Whole` about the packets of a message
--              among noise, and `Lossy` about a packet over `Udp`.
--   Handshake  src/usmp/_handshake.py: `Limiter` has `record_failed_handshake` and the test of a
--              lockout, on the table of failed handshakes, `Psk` the resolution of the pre-shared
--              key, `Server` and `Client` the two functions, over the state of `State`: the link,
--              what the reads to come will be, and the table. `Setting`, `Honest` and `Agree` are
--              about a handshake over a network that delivers and the sessions after it, `Runs`,
--              `Proof` and `Verified` about what a server that returns has seen.
--   Udp        src/usmp/transport/udp.py: `Stream` has the state of `UDPStream` and its
--              receiving side, `Send` the sending one, `Read` its `read_frame`. `Buffer` and
--              `Queue` are about what `feed_packet` keeps, `Ack` and `Reply` about what it takes
--              for an acknowledgement, `Drain` and `Deliver` about the retransmission, `Lost`
--              about frames that are acknowledged and not kept, `Network`, `Meet` and `Resend`
--              about a sender and a receiver over a network that loses datagrams, `Copies` about reading
--              the copies of a datagram. `Timing` has the estimate of the round trip and the
--              timeouts, over a record of float operations.
--   Server     src/usmp/_server.py and the listener of src/usmp/transport/udp.py: `Setup` has the
--              constructor, `Lifecycle` and `Shutdown` have `on_session`, `stop` and `serve`,
--              `Watchdog` has `_watchdog`, `Bucket` has `_allow_udp_cookie`, `Listener` and `Stop`
--              have `_handle_udp_datagram` and `stop` of the listener, `Connect` the stages of
--              `_on_transport_connect` that change the server, and `Handle` the whole call, with
--              the handshake, the session handler and the `except` clauses. Streams are handles
--              into a list of `Udp.Stream.Stream`. `Admit` and `Start` are about the datagrams
--              that start a handshake, `Live`, `Sound` and `Run` about the counters over any run,
--              `Held` and `Turns` about the dictionaries of streams, `Idle` about both when nothing
--              is connected, `Balance`, `Expire`, `Owned` and `Release` about a whole call, `Rate`
--              about the bucket.
--   Client     src/usmp/_client.py: `connect`, `disconnect` and the calls that need a session.
--              `Client.Deliver` composes the handshake with `send` and the server's `recv`.
--   Logging    src/usmp/_logging.py: the line of `ColoredFormatter.format`, and `setup_logging`.
--
-- A session's list `seals` is not in the code: it records each call of `encrypt`. The loop of
-- `send` runs on fuel 5: a message of at most 4 times 452 bytes needs at most 4 turns. `recv` runs
-- on the list of what the transport's reads come to, and one turn takes one of them; the handshake
-- reads from such a list as well. `drain` makes five attempts, and what arrives before the timeout
-- of each is an argument. Random bytes, private keys and the clock, in milliseconds, are arguments.
-- Numbers are natural numbers; the window keeps its mask of 64 bits, and a number too wide for its
-- field raises `struct.error` as in the code. Tokens of the bucket are in thousandths.
--
-- Not modelled: the sockets and the scheduling of asyncio, so connect, the start of the listeners,
-- the protocol classes, which pass calls on, and the signals; a task that is cancelled once it runs
-- ends like any other; `coerce_transport` and `get_extra_info`; the text of messages that are logged, which
-- nothing depends on; and what another task does between two awaits of one turn of `recv`, of one
-- call under the send lock or of one handshake. A name in the registry is ASCII. The transport of a
-- UDP session is a `Link` for the handshake and the session and a `Stream` for the listener and the
-- retransmission.
pub mod Prelude
pub mod Errors
pub mod Types
pub mod Bytes
pub mod Crc
pub mod Frame
pub mod Crypto
pub mod Window
pub mod Server
pub mod Transport
pub mod Session
pub mod Handshake
pub mod Udp
pub mod Client
pub mod Logging
