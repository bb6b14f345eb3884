-- ===== src/Lib.antt =====
-- fips-exit-gate sells access to an exit gateway. A backend keeps accounts, paid entitlements and a
-- whitelist in a database, and works out from them the set of authorized addresses; an agent on each
-- exit node mirrors that set into an nftables set and meters the traffic of its members, and the
-- backend bills the metered bytes to the entitlements.
--
-- How the parts meet: the agent long-polls the backend with the revision it has seen (agent/agent.go
-- runSync, backend/api.go authz), gets the full set or the delta since that revision, and applies it
-- to the kernel in one atomic batch. It reports usage from a bounded buffer; an ack may carry
-- addresses to revoke at once. The same way it mirrors the table of WireGuard peers onto the node's
-- interface. Behind the gate a SOCKS5 proxy sends authorized clients to an upstream (dispatch), and a
-- captive portal answers the others (captive); customers log in with a signed challenge.
--
-- Files, and the code that each models:
--   Agent/State      agent/types.go, agent/state.go and the struct Agent of agent/agent.go
--   Agent/Host       the interface Firewall (agent/firewall.go) and withRuntime (agent/state.go)
--   Agent/Sync       applyAuthz, presentOnly and isMassRevoke of agent/agent.go, diffAuthorized of
--                    agent/usage.go; the proofs are in its children
--   Agent/Usage      computeDelta of agent/usage.go, collectAndBuffer, flushBuffer, applyRevocations
--                    and gcAcct of agent/agent.go
--   Agent/Grace      initLastAuthzOK, startupGrace, markAuthzOK and graceCheck of agent/agent.go
--   Agent/Loop       an iteration of runSync, and the back-off
--   Agent/Heartbeat  runHeartbeat and applyConfig of agent/agent.go
--   Agent/Wg         desiredPeers, diffPeers, SetPeers and applyWgPeers of agent/wg.go
--   Store/State      the tables of backend/store/migrations/
--   Store/Authz      backend/store/authz.go, CompactAuthzRevisions of backend/store/retention.go
--   Store/Whitelist  the rows behind backend/store/whitelist.go and backend/store/admin.go
--   Store/Accounts   the operations of both on accounts and invitations, and the operator's credits
--   Store/Purchases  backend/store/payments.go, backend/store/packages.go: purchases and webhooks
--   Store/Usage      backend/store/usage.go: reports, attribution and the draw on entitlements
--   Store/Retention  AggregateUsage of backend/store/retention.go
--   Store/Keys       the checks of backend/store/wg.go on WireGuard keys and endpoints
--   Store/Wg         the peer table and the address plan of backend/store/wg.go, and wgPeers
--                    of backend/api.go
--   Store/Exits      backend/store/nodes.go, and the announcements of backend/store/wg.go
--   Api              authz, writeAuthz and the drift check of heartbeat in backend/api.go
--   Gate             an agent and the backend together, over any run of both
--   Payments         backend/payments_handler.go and backend/reconciler.go
--   Login            backend/nostr/challenge.go, authVerify of backend/portal.go and
--                    backend/session.go
--   Npub             pkg/fipsaddr/npub.go: Bech32 and the checksum, keys and their text
--   MeshAddr         pkg/fipsaddr/fipsaddr.go: the mesh address of a key
--   AuthzHash        pkg/authzhash: the fingerprint of a set of addresses
--   Net              a connection, and the actions of a handshake on it
--   Dispatch         dispatch/socks.go, dispatch/route.go and handle of dispatch/main.go
--   Captive          captive/socks.go, and pkg/captivetoken
--   Base             shared names, Boolean tests, lists, sets and association lists
--   Examples         a host that can be run, and the theorems on concrete inputs
--
-- Conventions. Identifiers that the code only compares (addresses, accounts, keys) are numbers.
-- Instants are numbers too: nanoseconds in the agent, where 0 is Go's zero time, and
-- seconds in the backend. A Go map is a list of its members, read through
-- `contains` or `lookup`; nothing depends on its order. Counters and revisions are natural numbers: the code's are unsigned or never negative,
-- and their 64 bits are not reached. nft and the file system are a record of operations, `Host`, with
-- their documented behaviour as hypotheses: `IsHost` (what a call that succeeds did) and `IsReliable`
-- (nothing fails but a batch that deletes an absent member); Examples/Kernel is a host that has both.
--
-- A transaction of the database is a function of the tables, which it returns changed or, on an error,
-- leaves as they were; RecomputeAuthz serializes itself with a lock, and the reads of a set or a delta
-- see one snapshot. Loops over rows and samples are structural. The loop that delivers usage reports
-- takes the list of the backend's acks and stops where that list ends, which is the first call that
-- fails. The loop of consumeVolume runs on fuel, one more than there are entitlements: each turn ends
-- it or uses up one of them. Ids that the database gives out are arguments (`fresh`), and so is the
-- address that pkg/fipsaddr derives from an npub (`derive`)
-- and the hash that pkg/authzhash gives a set (`digest`).
--
-- Texts that the code takes apart (WireGuard keys and endpoints, challenges, SOCKS messages) are lists
-- of bytes. A connection is what its peer sends, what has been sent, and how many writes succeed; an
-- action on it stops at the first error. wg(8) is a record `WgIface` with `IsWgIface` as its
-- documented behaviour; Go's library functions on texts (trimming, base64, the text of an address, the
-- code that authenticates a challenge) are fields of `WgText`, `NetText`, `LoginText`,
-- `SessionText` and `TokenText`. The search for a free WireGuard slot makes the code's 64 attempts.
--
-- Not modelled: HTTP, JSON, SQL connections and notifications, nft's and wg's text formats, metrics,
-- logging, HTML pages, the rate limiter, which counts in float64, the relay of the proxies and the HTTP redirect of the captive portal, and the
-- clients of payment providers; they move data to and from the code above.
pub mod Base
pub mod Agent
pub mod Store
pub mod Api
pub mod Gate
pub mod Net
pub mod Dispatch
pub mod Captive
pub mod Login
pub mod Npub
pub mod MeshAddr
pub mod AuthzHash
pub mod Payments
pub mod Examples
