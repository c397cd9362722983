-- ===== src/Lib.antt =====
-- LockPing agent: a process on the user's computer that answers paired phones, through a relay,
-- with the lock state of the session, and locks it at their command. Paths are from the
-- repository's root.
--
-- How the parts interact. The relay client (internal/relay) keeps a WebSocket to the relay and
-- hands each envelope's sender and payload to the gateway (internal/gateway), the security
-- boundary. The gateway opens what a paired device sealed (internal/secure), decodes it
-- (internal/wire) and lets the core (internal/core) act on the session (internal/session); in
-- plaintext it takes pair requests only, against the pairing window that the config UI
-- (internal/webui) opened.
--
-- - Prelude: helpers; one definition for each notion that the parts share. Base64, Utf8 and
--   Json stand for what the code uses of encoding/base64, of conversions between strings and
--   runes, and of encoding/json; Rfc3339 for the times in JSON, in UTC, and Quote for the verb
--   %q.
-- - Wire: internal/wire/wire.go. Payload is the struct, a pointer field is an Option;
--   Codec.decode and Codec.encode are Decode and Encode.
-- - Session: internal/session. Controller is the interface over a state of the operating
--   system; Pick is pick.go and WinMap is winmap.go; Logind is the controller over the system
--   bus, Windows is wts_windows.go, the queue of its window procedure, and in Windows.Watch the
--   controller over the calls of Win32; Stub is stub_other.go; Watch is what the controllers
--   promise.
-- - Core: internal/core. Handle.handle is Core.Handle with status, lock and checkFreshness;
--   Nonce.add is nonceCache.add.
-- - Secure: internal/secure, one module for each file. Crypto is the cryptography that the
--   package calls: a parameter with laws (IsSound). DeviceFile is the text of devices.json;
--   Devices keeps the map and the file side by side.
-- - Gateway: internal/gateway/gateway.go. handle is Gateway.Handle, handle_sealed and
--   handle_pair_request its two ways; open_pairing and pairing are what the UI calls.
-- - Relay: internal/relay/client.go. Backoff, the frames and the connection (Conn), Handshake,
--   Serve, and Run with the reconnect loop, which keeps the trace of what the client did;
--   Run.Protocol says what may come when.
-- - Identity: internal/identity/identity.go. load is Load; File is the text of agent.json.
-- - Autostart: internal/autostart. Manager is the interface, IsSwitch what a client may rely
--   on; Systemd, Registry and Other are the platforms, the first two over systemctl and the
--   registry as parameters.
-- - Webui: internal/webui/webui.go. Host is the check of the Host header, Serve the mux, the
--   check of the token and the endpoints, Start its creation and end.
-- - Command: cmd/lockping-agent. Main is main and run with the commands; Start is runRelay up
--   to the connection, over the files of the agent; Connect is its relay client over the
--   gateway; Open is open.go over the answers that a desktop will give; Tray is tray.go, three
--   threads as a step relation.
-- - Tests: runs of the theorems at concrete inputs, with stand-ins for the parameters.
--
-- State is passed explicitly: an operation takes its state and returns the new one with its
-- result. An error is a text in Result or Option. The clock, the source of randomness and the
-- outcome of writing a file are arguments of the operation (Outside), one reading for each call
-- of the source: code that reads the clock twice gets two readings, and no order between them
-- is assumed unless a theorem says so. Times are whole nanoseconds as integers; the overflow of
-- a time.Duration, 292 years away, is not modelled. A map is an association list, so a loop
-- over a Go map has one of its possible orders here. Methods behind a mutex are single steps;
-- windows stand in a list and the gateway's pointer is an index into it, so that a request that
-- works with an older window marks that one.
--
-- Fuel. The reader of runes recurses on the length of the text, the JSON reader on twice the
-- length: each round takes a byte at least. The loop of openCompanion recurses on the attempts
-- that are left, twenty at first. The JSON reader stops at the nesting of 10000 that
-- encoding/json allows.
--
-- Not modelled: the calls of D-Bus, Win32, systemctl and the registry themselves, the flag
-- package, the console and the attributes of spawned processes, signals, the local time zone of
-- the times in the devices file, the rendering of the QR image, HTTP below the handler, and
-- logging.
pub mod Prelude
pub mod Base64
pub mod Utf8
pub mod Rfc3339
pub mod Quote
pub mod Json
pub mod Wire
pub mod Session
pub mod Core
pub mod Secure
pub mod Gateway
pub mod Relay
pub mod Autostart
pub mod Webui
pub mod Command
pub mod Identity
pub mod Tests
