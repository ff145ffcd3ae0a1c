-- ===== src/Lib.antt =====
-- curtilage is a small server between the Frigate camera system and a household's apps. It takes
-- Frigate's messages from an MQTT broker, an engine turns them into events, a store keeps the
-- events and serves them page by page and as a live stream, and enrolled devices fetch them and
-- their media, which a cache on disk holds. This library models the Go packages under internal/
-- that decide what is said, kept and allowed.
--
-- The parts and how they meet. internal/frigate reads topics and payloads (Frigate,
-- Frigate/Topics). internal/policy has the engines, all of them an Observe that takes a message
-- and gives changes of events: Passthrough in policy.go (Policy for the events and who hears of
-- them, Policy/Passthrough, with the order of its changes in Policy/Passthrough/Lifetime),
-- Incidents in incidents.go (Policy/Activity for one incident and the event it makes,
-- Policy/Adjacency for the graph of the cameras, Policy/Incidents for the engine over any
-- messages, which hands what it does not fold to Passthrough), States in states.go
-- (Policy/States, with the beliefs over time in Policy/States/Belief and Policy/States/Settling),
-- and Occupancy in occupancy.go (Policy/Occupancy for the tracks and the ledgers,
-- Policy/Occupancy/Clock for a tick and for Multi, which joins the engines, with
-- Policy/Occupancy/Patience and Policy/Occupancy/Superseding for what a departure and a parked
-- object need).
--
-- internal/store/store.go takes the changes by Apply (Store: the state, the entries, Apply,
-- insert, remove and offer; Store/Order for the order of the entries; Store/Slice and Store/Index
-- for the slice and its map; Store/Pages and Store/Walk for List; Store/Retention for Prune;
-- Store/Revisions for History; Store/Watch and Store/Delivery for the subscribers; Store/Rebuild
-- for rebuild.go, which replays the recordings through an engine into the store). The slice is a
-- list, newest first; an entry's pointer is a number that the model allocates.
--
-- internal/devices keeps the enrolled devices and the admin passkeys (Devices, Devices/Pending,
-- Devices/Tokens, Devices/Calls for what later calls leave, and Devices/Passkeys),
-- internal/server/auth.go checks a call against them (Server/Auth, Server/Auth/Grounds),
-- internal/captoken signs and verifies media tokens (Captoken), and internal/mediacache holds the
-- cuts (MediaCache; a Fill is a start, a landing and an end, and MediaCache/Schedule lets any
-- other call come between them; the numbers of the uses, a uint64, have no bound here).
-- internal/webauthn verifies the ceremonies of a passkey (Cbor for the decoder, a monad of
-- readers that give back what they leave, with Cbor/Reads for what a reader has read; Webauthn,
-- Webauthn/Ceremonies). internal/house decides whom it answers (House/Caller) and has the admin
-- area, which puts the passkeys, the ceremonies and the registry together (House/Admin for its
-- sessions and challenges, House/Admin/Requests and House/Admin/Serve for the handlers,
-- House/Admin/Routes to prove something of every handler at once, House/Admin/Locked,
-- House/Admin/Opening and House/Admin/Replay for what they keep). internal/server/media.go serves
-- the cuts behind the tokens, from the cache where it can (Server/Media, Server/Media/Door,
-- Server/Media/Cuts, Server/Media/Files, Server/Media/Entitled), and warm.go fills it
-- (Server/Media/Sealing). internal/edl/edl.go chooses which camera a follow view shows when (Edl,
-- Edl/Reel). Strings has what the code uses of Go's strings and strconv, Prelude the shared
-- types, tests, lists, maps and the binary search of sort.Search. Examples runs the components at
-- concrete inputs.
--
-- How the source is read. A string or a byte slice is a list of bytes; an instant is a number of
-- nanoseconds since Go's zero time, so that 0 is IsZero; a Go map is an association list whose
-- order stands for the order of a range over it; the uint64 counters that are reported wrap at 2
-- ^ 64; a pixel is a whole number; an error is none or a flag. A body that runs under a lock is
-- one step. JSON, base64, SHA-256, HMAC, the signature schemes, addresses and nets, Frigate's
-- answers, random numbers and whether a write of a file succeeds are arguments. A request of the
-- admin area or of the media is one step, which reads the clock once.
--
-- Bounds and fuel. Binary search, the strings functions and the eviction loop recurse on the
-- length of what they work on, which each round makes smaller, so the fuel is never used up. A
-- walk through the pages gives nothing when its fuel is used up, and one more than the events
-- that are left to list is enough, because every page but an empty one lists an event. The loop
-- over a clip in internal/edl takes as many rounds as the clip has steps, and one, and a round
-- adds a step, so that its own test has ended it by then. The CBOR reader takes the nesting that
-- the source allows as its fuel, and refuses deeper data as the source does. The limits of the
-- source are kept: 2048 boxes, 64 revisions, a buffer of 256 changes, eight pending secrets, and
-- keys of 32 bytes.
--
-- Not modelled: MQTT, Frigate's HTTP client, ffmpeg and the stitched view, the HTML of the house
-- page, the protobuf mapping of the API, the files of the recordings, the goroutines of the
-- warmer, the wording of descriptions, metrics, configuration, fixtures, commands and generated
-- code: most of it is input and output.
mod Prelude
mod Strings
pub mod Frigate
pub mod Policy
pub mod Store
pub mod Devices
pub mod House
pub mod Server
pub mod MediaCache
pub mod Captoken
pub mod Cbor
pub mod Webauthn
pub mod Edl
pub mod Examples
