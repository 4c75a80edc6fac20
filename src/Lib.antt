-- ===== src/Lib.antt =====
-- V2ProDock keeps a set of xray instances serving, each through one upstream proxy of a pool that
-- it fetches from subscriptions. This library models the logic of the Go program under v2proxy/
-- that decides which upstream an instance serves, when it is given up, and which instance a
-- client reaches. Times and durations are natural numbers of nanoseconds, clock readings are
-- arguments, and a method that holds a mutex throughout is one step.
--
-- The parts, and the code that each models:
--   Base       lists, dictionaries, integers and Boolean tests that the parts share.
--   Breaker    `srcBreaker` of v2proxy/manager.go, which rests dead subscription sources.
--   Probe      v2proxy/healthcheck.go: verdicts, the probe set and the race between targets.
--   Pool       `ProxyConfig` and `orderByDPIRank` of v2proxy/subscription.go, `dedupConfigs`.
--   Ledger     `probeShared` of v2proxy/selector.go, which instances that start share.
--   Egress     `noteEgress` and `egressActive` of v2proxy/httpproxy.go.
--   Selector   `ProxySelector` of v2proxy/selector.go: an instance, its health and its evidence.
--   Sockets    the tables of /proc in v2proxy/selector.go, and the clients that they show.
--   Switch     `SwitchToNextExcluding` and what it calls.
--   Populate   `startShared` and `tryConfigs`, the search for a first upstream.
--   Manager    `ProxyManager` of v2proxy/manager.go: statuses and whom the others serve.
--   Upkeep     the health tick, `recoverInstance` and `reconcileActive` of v2proxy/manager.go.
--   Aggregate  v2proxy/aggregate.go and `pickBestBackend`: the failover of a client connection.
--   UrlCheck   the cache of v2proxy/urlcheck.go and the course of `CheckURL`.
--   UrlProbe   `runURLCheck` and `probePoolForURL`, one round of probing for a URL.
--   Ports      the stable ports of v2proxy/env.go.
--   Json       a `map[string]any` and its values.
--   Stdlib     what the parsers use of Go's standard library, as a record of functions.
--   CleanIp    v2proxy/cleanip.go: dialling a working address for a blocked one.
--   Link       the share links of v2proxy/subscription.go, and the outbounds they become.
--   Rank       `dpiRank` of v2proxy/subscription.go.
--   Fetch      the fetch and the merge of subscriptions, v2proxy/subscription.go.
--   Render     `renderXrayConfig` of v2proxy/selector.go, with the relay and the fragment carrier.
--   Bridge     v2proxy/httpproxy.go: connection slots, plain requests and the copy loops.
--   Watchdog   v2proxy/watchdog.go, and the round `HealthCheckAll` of v2proxy/manager.go.
--   UrlTarget  the guard on the targets of v2proxy/urlcheck.go.
--   Fixtures   the concrete upstreams and instances of the tests.
--
-- How they interact: a `Selector` instance holds a `Pool`; `Populate` and `Switch` move it to an
-- upstream by verdicts of `Probe`, the first under the claims of the `Ledger`, the second under
-- the exclusion that `Manager` collects; `Upkeep` calls both `Selector` and `Switch` and keeps the
-- statuses; `Aggregate` reads the statuses to route clients. `Fetch` makes a pool of the configs that
-- `Link` reads and `Rank` grades, `Render` writes the file that an instance starts xray with, and
-- `Watchdog` runs the ticks of `Upkeep` over all instances.
--
-- What is outside the program is a parameter: the exchange with a probe target, the start and
-- the binding of a child process, the reading of /proc, `slices.SortFunc` (with what it
-- promises: an ordered permutation), `net.DialTimeout` (which keeps its budget), `net.ParseIP`, the
-- public suffix list, and the functions of the records `Stdlib` and `TextTools`: net/url, base64, encoding/json,
-- numbers as text, the order of texts, and Unicode's cases and blanks. An instance takes the
-- answer of `Sockets` as a `Scan`. The order of a pool takes any rank; `Fetch` gives
-- it `dpiRank`.
-- While a switch searches, other methods may do anything to the instance; a race is a list of its
-- results in order of arrival; workers over one ledger are interleaved by a step relation.
--
-- Bounds: the eviction of the URL cache has the number of entries as fuel, and each round removes
-- one; the scan for a port has the number of ports left in its range as fuel, and the loops over
-- attempts and instances their number. All other loops follow a list.
--
-- Not modelled: the start-up of the manager and of the listeners, processes and sockets, the
-- API, configuration and logging, most of which are input and output, and the
-- parallel half of a refresh. The text that an error wraps, and log output, are left out.
pub mod Base
pub mod Breaker
pub mod Probe
pub mod Pool
pub mod Ledger
pub mod Egress
pub mod Selector
pub mod Sockets
pub mod Switch
pub mod Populate
pub mod Manager
pub mod Aggregate
pub mod Fixtures
pub mod Upkeep
pub mod Ports
pub mod UrlCheck
pub mod UrlProbe
pub mod Json
pub mod Stdlib
pub mod CleanIp
pub mod Link
pub mod Render
pub mod Rank
pub mod Bridge
pub mod Watchdog
pub mod UrlTarget
pub mod Fetch
