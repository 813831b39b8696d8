-- ===== src/Lib.antt =====
-- A model of anytls-x: the session layer that multiplexes streams over one TLS connection and shapes
-- the records it writes, with the detector that decides when a stream may move to a connection of its
-- own.
--
-- The parts, and where they are modelled:
--   session/frame.go, and the frame layout in session/session.go: Frame. A frame is a command byte, a
--     stream id in four bytes, a length in two, and the payload. Frame/Stream cuts an input into frames
--     the way recvLoop does: cmdSYN, cmdFIN, cmdHeartRequest and cmdHeartResponse are handled without
--     reading a payload, a padding scheme above maxPaddingSchemeLen is refused, and nothing is read
--     behind an alert with a text. The returns that depend on the session's state are recvLoop's, in
--     Session/Loop.
--   util/rand.go: Rand. FillRandom and FastIntn over numbered draws of math/rand/v2.
--   padding/padding.go: Padding. Padding/Parse is NewPaddingFactory with the parsers of its keys,
--     Padding/Defs the configuration, its defaults, and SamplePaddingLen.
--   session/record_shaper.go: Shaper. WriteData, WriteControl and WriteInitialFlush, the choice of a
--     padded size, the trailing waste frame and the idle frame.
--   util/string_map.go, and the strings and numbers of the standard library that it and the padding
--     scheme are read with: Text.
--   session/session.go and session/stream.go: Session. Session/Defs is the state,
--     Session/Write the writing half (Close, writeConn, writeControlFrame, writeDataFrame,
--     writeDataFrameSplit, writeDataFrameShaped, writeWindowUpdateWaste), Session/Settings the settings,
--     Session/Opening OpenStream, Session/Start the constructors and Run, Session/Streams the
--     methods of a stream, Session/Timers the SYNACK timer and the heartbeat, Session/Idling the idle
--     loop, and Session/Recv,
--     Session/Greet and Session/Loop recvLoop with a handler for each command.
--   session/client.go: Pool. Pool/Defs is the state, Pool/Hooks what a session runs when a stream or
--     the session itself dies, Pool/Calls CreateStream, openOn, getIdleSession, leastLoadedSession,
--     createSession, Close and Reset, Pool/Cleanup idleCleanup, Pool/Idle the skip list's interface.
--   session/migration_detect.go: Detector. Detector/Scanner is recordScanner, Detector/Machine
--     handshakeDetector.
--   session/migration.go, and Stream.migWrite: Migration. Migration/Registry is MigRegistry,
--     Migration/Defs streamMig, Migration/Accept MaybeAcceptCarrier, Migration/Moves the methods of a
--     streamMig in any order.
--   Base holds what all of them share, Tests the runs at concrete data.
--
-- How they interact: Pool calls Session and runs the hooks that the call recorded, in their order,
-- behind it: a session is closed from its own hook on, and no call that runs a hook marks its connection
-- broken after it. Session writes through Shaper, whose state it holds, to one connection; both draw
-- from Rand and lay frames out as Frame does. What the receiver of the peer sees is stated with
-- Frame/Stream. A line of a session is what the connection took and then what the session buffers.
--
-- Effects. Env is what the program asks of its surroundings: the generator, the clock, whether the
-- n-th Write of the connection fails and after how many bytes, and whether the n-th TryLock of the
-- connection's lock succeeds, and what Close of the connection answers; the World counts the calls
-- and keeps the bytes sent, the write deadline and whether the connection is shut. Where a theorem
-- needs the range of math/rand/v2, it takes IsRandom. A session is one thread of calls: connLock
-- and streamLock are held for the length of a call, so what is proved is proved for calls that do
-- not overlap. Hooks, new goroutines, signals to the migration part and the log lines for alerts
-- and padding updates are events, kept in order. The order in which Go ranges over the two entries
-- of the server's settings is an argument of the receiver, and so is NewPaddingFactory, which
-- Padding/Parse models over a checksum function. Migration stands apart from Session: migWrite is
-- an argument of Stream.Write, and a method of a streamMig is one step that records what it does
-- to the session, to a carrier and to the stream's pipe as acts, so that methods that overlap
-- outside writeMu and the Once bodies are not covered. What the stream's own teardown does besides
-- its carrier is in Session/Recv.
--
-- Bounds and fuel. Numbers are natural numbers; bytes and machine words are taken modulo their
-- width where the code converts (PutUint32, PutUint16, uint32) and where int64 can wrap around (the
-- idle threshold and interval, the window-update interval, the weights of the padding buckets). Loops recurse on their data where
-- they can. The loops of writeDataFrame, feed, recvLoop and the cut into frames recurse on fuel,
-- which is the length of their input, and for recvLoop one more: each round takes a byte at least.
-- The loop of writeDataFrameSplit recurses on the parts left.
--
-- Not modelled: pipes and their deadlines (a stream's reader takes what a pipe is handed while the
-- stream is alive and its pipe open), Stream.Read but for its tap, the deadline methods, waitCarrier,
-- the goroutines that wait for the timers (their rounds are modelled), the skip list, which is
-- third-party code and an interface here, and the service and client entry points.
pub mod Base
pub mod Env
pub mod Rand
pub mod Frame
pub mod Text
pub mod Padding
pub mod Shaper
pub mod Session
pub mod Pool
pub mod Detector
pub mod Migration
pub mod Tests
