-- ===== src/Lib.antt =====
-- RustEyes reminds its user to rest: it counts active time, shows breaks over the screen, and keeps
-- the breaks of several machines in step. This library models its core and states what makes it
-- correct.
--
-- The parts and how they interact. A backend samples the user's activity (src/activity.rs) and sends
-- runtime events. The runtime (src/runtime.rs) is one thread that takes one input after the other,
-- from the backend, the user interface and the peers. It credits active time to the break scheduler
-- (src/scheduler.rs), whose rounds of active time are numbered slots: a rule of interval n is due n
-- slots after it was last satisfied. A break that the scheduler hands out goes to the backend as a
-- command and to the peers as a message (src/sync_protocol.rs), which carries a MAC under the secret
-- that the peers share. The transport's worker (src/sync_transport/worker.rs) numbers and sends the
-- messages, checks those that arrive, and tells the runtime of events and of peers that come and go; a
-- tracker (src/sync_transport/connections.rs) reduces its connections to one for each peer, and
-- discovery (src/sync_discovery.rs) finds the peers of the local network. The backend shows the break:
-- src/x11_activity.rs with overlays of its own, src/macos_helper.rs through a helper process. The
-- schedule comes from the configuration (src/config.rs).
--
-- Which file models which part:
--   Common       the shared helpers: Boolean tests, lists, text, ordered maps, results, machine words
--   Config       src/config.rs: the configuration and its defaults; Config.Validate its validation
--   Scheduler    src/scheduler.rs: the data; Scheduler.Rules the rules and the schedule, Scheduler.Due
--                what is due and what comes next, Scheduler.Operations the operations, Scheduler.Synced
--                those on a peer's reports; the other children are about them
--   Protocol     src/sync_protocol.rs: the messages; Protocol.Hex hexadecimal text, Protocol.Messages
--                validation, Protocol.Wire the serde implementations, Protocol.Mac the comparison of
--                MACs, Protocol.Authentication encoding and decoding; the other children are about them
--   Activity     src/activity.rs: the poller and the deadline of a break
--   Transport    src/sync_transport.rs: its errors. Transport.Connections and its child Operations
--                src/sync_transport/connections.rs, Transport.Session src/sync_transport/session.rs,
--                Transport.Worker src/sync_transport/worker.rs with what it calls of
--                src/sync_transport_io.rs: the handlers of what arrives; Transport.Worker.Sending what
--                is sent and the loop; Transport.Delivery from one session to another worker; the
--                other children are about them
--   Discovery    src/sync_discovery.rs: what is advertised and what is accepted; its children are about
--                it
--   X11          src/x11_activity.rs: the state; X11.Break a pending and an active break, X11.Backend
--                samples and starts, X11.Commands the commands and the loop; the other children are
--                about them
--   Macos        src/macos_helper.rs: the state of MacOSHelperCore; Macos.Break an active break,
--                Macos.Core samples and ends, Macos.Commands the commands; the other children are
--                about them
--   Runtime      src/runtime.rs: the state of DaemonRuntime; Runtime.Idle IdleReset and
--                CombinedActivity, Runtime.Display what is shown, Runtime.Breaks the current break,
--                Runtime.Sync what comes from a peer, Runtime.Handlers the handlers of an input and the
--                loop
--   Tests        sample data, runs and examples
-- A definition has the name of the function that it models, and takes its receiver as its last or its
-- only argument and gives it back; what a function returns stands beside the new receiver.
--
-- Bounds and fuel. A duration is its number of nanoseconds, up to the largest that Rust's Duration
-- holds; slots and intervals are usize values of 64 bits, whose increment wraps around. The loop of
-- advance_active takes as fuel the rounds that fit into the credited time, and one round of that
-- time is left behind in every turn of the loop. The loops of the worker and of the X11 backend
-- recurse on the list of what they wait for. All else is structural recursion.
--
-- What a definition takes as an argument: the eight random bytes that choose a message, of which an
-- operation takes one draw; the wall clock, which an input reads once; whether the backend still
-- takes commands; the largest time that the platform's clock holds; the endpoints of connections,
-- with their equality. What the runtime sends is kept in a log for each channel. Codec stands for
-- serde_json, the derived serde implementations and HMAC-SHA256, and IsFaithful is what the code relies
-- on: what is written reads back and is UTF-8, and a MAC is 32 bytes; DiscoveryCodec does the same for
-- what is advertised. Network answers the worker's
-- sends, Display the X11 backend's calls of its overlay, of the idle query and of the lock command, and
-- Helper the calls of the helper process and of the lock command; each answers by the calls before. A
-- sample takes the two clock readings as an argument.
--
-- What is not modelled: threads and channels, whose choice among inputs is the order of a run's
-- inputs; files, the environment and YAML; the sockets, multicast DNS, and the start and the stop of
-- the transport; the drawing of the X11 overlay and its grabs; the line protocol of the helper process;
-- the lock command, the tray and the windows, which call the system; logging and the texts of errors.
pub mod Common
pub mod Config
pub mod Scheduler
pub mod Protocol
pub mod Activity
pub mod Discovery
pub mod Transport
pub mod X11
pub mod Macos
pub mod Runtime
pub mod Tests
