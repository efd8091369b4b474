-- ===== src/Lib.antt =====
-- The control plane of dc-streaming-p2p: the central server that peers authenticate to, register
-- with, open sessions on and exchange signaling messages through. It carries no media.
--
-- Parts and files. Each part of the program is a tree of modules; the module named here holds the
-- state and the operations, one definition for each function of the source and helpers for its
-- branches, and its sisters hold the proofs.
--
-- - Session.Record, Session.Store, Session.Steps, Session.Ops: internal/session/session.go. The
--   `Store` keeps sessions with four indexes (pairs, live counter, rows per peer, order of the ended);
--   the functions named `…Locked` are Session.Steps, the exported methods Session.Ops. `Open` is
--   `open_session`, `settleLocked` is `settle`, `endedLocked` is `end_session`, `pairLocked` is
--   `find_pair`. Session.Invariant says what the indexes promise of the sessions, Session.Settling
--   gives the abstract view: what each session reads as at a time; Session.Reports describes `Report` by
--   a table of moves.
-- - Registry.Defs: internal/registry/registry.go, which peers can be reached.
-- - Auth.Limiter: internal/auth/limiter.go, the limit on failed authentications.
-- - Auth.Clients: internal/auth/clients.go, the configured clients and their secrets.
-- - Auth.Tokens: internal/auth/token.go, the tokens that a peer is given and shows. Auth.Tokens.Laws says
--   what is relied on of the JWT library, and Auth.Tokens.Sample is a small library that satisfies it.
-- - Signaling.Hub: internal/signaling/hub.go, one channel for each peer. It asks the session store
--   who the other peer of a session is (a parameter that may change the store's state, as that of
--   Central does), and tells the registry who comes and goes (events).
-- - Transport: the routes of internal/transport. Transport.Sessions, Transport.Peers and
--   Transport.Login hold those over the session store, the registry and the limiter, from
--   sessions.go, peers.go and auth.go, with the token check in front of them; Transport.Access
--   puts the issuer and the verifier behind them; Transport.Keys is the published key set,
--   Transport.Signal the signaling channel of signal.go, Transport.Relays the route of ice.go,
--   Transport.Requests the request identifiers and the recorder of middleware.go, Transport.Health
--   the health route of health.go. A request is what the handler reads of it; an answer is its
--   status with a code or a body; and where a session may end, the call that tells its peers.
-- - Config, Config.Load: internal/config/config.go, the settings, how they are read and what is checked
--   of them. Config.Checked says what settings without a problem are like.
-- - Ice: internal/ice/ice.go, the servers that a peer is given, with relay credentials that expire.
-- - Central: cmd/central/main.go. Central.Startup builds every part from the settings; Central has the
--   adapters by which the hub asks the session store for the far side of a session and the registry
--   learns of peers that hold a channel, Central.Facing and Central.Delivery say what the first comes to;
--   Central.Sweep is what happens when peers
--   expire; Central.Running is the server at work, a step relation over all that can happen to the
--   registry, the sessions and the hub.
-- - AuthClient: internal/authclient/client.go, the peer's side of authentication: it pins the server's
--   key before it sends a credential. AuthClient.Server and AuthClient.Credentials put
--   it together with the server's handlers.
-- - Base: texts and what is called of package strings, decimal numbers, maps, signed integers and
--   Boolean tests that they share.
--
-- How Go is read. A method that holds the lock from its first access to its last is one step, and the
-- state passes through it explicitly. It reads the clock once: the reading is an argument. Times and
-- durations are natural numbers of nanoseconds since a fixed moment; Go's saturation of a difference
-- beyond 292 years is left out, and a difference that would be negative is 0, which changes no test
-- since each compares with a duration that is not negative. A counter is a natural number: none comes
-- near 2^63, by the bounds below; the product in `trimLocked` is within an `int` for a MAX_SESSIONS
-- below 2^61, which is assumed. `Route` is the exception to one step for a method: it takes the hub's
-- lock in `allowed` and again in each `send`, and asks the session store between them, and is modelled
-- as if nothing came in between. The statuses that the recorder of middleware.go is given are final
-- ones or 101. A string is a list of its code points; its length is that of its
-- UTF-8. A map is an association list, and a range over it takes its keys in the list's order:
-- statements hold for every list, so for every iteration order. A pointer, an error or a comma-ok
-- result is an option or a result type. What other code answers is an argument: `newID`, which is
-- assumed to give an identifier that is not in use; the authorizer; SHA-256; whether a write on a
-- connection succeeds, or an upgrade; HMAC-SHA1; base64; what a server replies to the client; the JWT
-- library (`Jwt`); the environment, the files and the parsers of the settings (`Outside`). The laws that
-- a statement relies on are among its hypotheses. A duration or a whole number that was read is positive,
-- so that settings hold natural numbers.
--
-- Loops over lists and keys are structural. The one that is not, the eviction in `Failed`, runs on
-- fuel of one more than the number of records, which is enough since each round drops one.
--
-- Printing a number in decimal takes as many rounds as the number, which is enough since each divides by
-- ten.
--
-- Not modelled: the listener, its shutdown, the flags, the route table and the tickers of cmd/central and
-- internal/transport/server.go, the pings and the close frame of a channel, and the
-- decoding of JSON, which are input and output around calls of what is modelled, or libraries; the
-- rendering of settings and requests for the log; the browser's part.
pub mod Base
pub mod Session
pub mod Registry
pub mod Auth
pub mod Signaling
pub mod Transport
pub mod Config
pub mod Ice
pub mod Central
pub mod AuthClient
