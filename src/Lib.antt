-- ===== src/Lib.antt =====
-- A model of the Go packages `simpleredis`, `backendbackoff`, `tokenbucket`, `windowcounter`,
-- `reclaim`, `iplookup` and `traefikemulator` of traefik-middleware-utilities, with the properties
-- that make them correct.
--
-- `simpleredis` is a Redis client. A command goes through `exec`, which borrows a socket from the
-- pool, writes the command and reads the reply on it, hands it back, and tries again where the error
-- allows it. `backendbackoff` admits or denies attempts at a backend for each key: failures use up a
-- credit, an empty credit opens the key for a cooldown, and then one probe decides. `tokenbucket`
-- refills a bucket for each key with time, in the process or by a script in Redis. `windowcounter`
-- counts hits in Redis in a sliding window, on each call or by flushes of a buffer. `iplookup` stores
-- CIDR prefixes in one radix tree for each address family and finds the longest one that covers an
-- address. `reclaim` keeps one value for each key while holders come and go, and for a grace after the
-- last one has gone, and publishes values to watchers under public names. `traefikemulator` constructs
-- a generation of routes for the tests.
--
--   Prelude            shared names, lists, integers, text and decimal numbers over the native ℕ
--   Float              the float64 operations that the packages use, and the laws asked of them
--   Keys               the maps from keys to entries that expire, which backendbackoff/allow.go and
--                      tokenbucket/memory.go keep below 65536 keys
--   Simpleredis.Errors simpleredis/simpleredis.go: the sentinel errors and the predicates on them
--   Simpleredis.Resp   simpleredis/resp.go: `readReply` and what it calls, and `writeCommand`
--   Simpleredis.Config simpleredis/config.go: `applyDefaults`
--   Simpleredis.Retry  simpleredis/commands_exec.go: `retryLimits`, `retryBackoff`, `shouldRetry`
--   Simpleredis.Exec   simpleredis/commands_exec.go: `exec` and its deadline
--   Simpleredis.Commands  simpleredis/commands.go, commands_eval.go and commands_msetex.go: the commands,
--                      over an `exec` that carries the server's state
--                      (Commands.Wire has what an engine does with the arguments it gets)
--   Simpleredis.Conn   simpleredis/resp.go `do`, simpleredis/commands_exec.go `runOnConn`
--   Simpleredis.Dial   simpleredis/pool.go: `dial`, with the AUTH and SELECT of a new socket
--   Simpleredis.Pool   simpleredis/pool.go: the idle list and the in-use turns; Pool.System has the
--                      interleavings of concurrent commands as steps, one for each critical section
--   Backendbackoff     backendbackoff/gate.go: Config (`resolveConfig`), Cooldown (`cooldownDuration`),
--                      Report (`New`); backendbackoff/allow.go: Gate (`Allow` and the key map), Report
--   Tokenbucket        tokenbucket/clock.go: Clock; lua.go: Script; memory.go: Memory; redis.go: Redis
--   Windowcounter      windowcounter/limiter.go: Sliding (`slidingAt`), Exact, Buffer (the windows and
--                      their flushes), Limiter (`Take`, `Peek`), Timers (the flush timer)
--   Reclaim            reclaim/table.go: Table (each section under the lock), System (the goroutines
--                      between those sections), Open (`Open`, `Peek`, `SetAlias`, `Reset`), with
--                      reclaim/opentyped.go; reclaim/alias.go: Values, Aliases
--   Traefikemulator    traefikemulator/emulator.go: `Apply`, `Stop`, `Handler`
--   Iplookup.Address   iplookup/tree.go: `bitAt`, `familyWalk`, `prefixWalk`
--   Iplookup.Tree      iplookup/tree.go: `insert`, `contains`, `remove`
--   Iplookup.Helper    iplookup/helper.go
--
-- A reader is the bytes that are still to come and the error behind them. What a socket, a context,
-- a clock or the peer answers is a value that the code's function takes, so each theorem holds for
-- every answer. Durations are integers of nanoseconds, and the shift of the backoff wraps at 64 bits.
-- Every loop recurs on the list, the number of bits or the number of attempts that the code walks,
-- so that no bound is assumed.
--
-- float64 is a record of operations. A theorem that needs a law of it, such as the exactness of whole
-- numbers up to 2^53, has the law as a hypothesis. The clock, the random sample and the order in which
-- Go walks a map are arguments.
--
-- A section of windowcounter that drops the lock has what Redis replies and what the other goroutines
-- do as arguments; the theorems on interleavings are about step relations whose steps are the locked
-- sections. Pointers to windows are places of a heap. In the same way the steps of `reclaim` are the
-- sections under its lock: a hook is what runs between two of them and may take any time, return or
-- panic, and a grace timer may fire at any time, also after it was stopped. Slots, ready channels and
-- alias entries are numbers in the order in which they are made.
--
-- `net.ParseCIDR`, `net.ParseIP`, `IP.String` and `strings.TrimSpace` are a parameter. A network is
-- what `ParseCIDR` promises: an address of four bytes, or of sixteen with the bits behind the mask
-- clear. Not modelled are logging, the goroutine that closes a socket when a context fires, the
-- poll of a context that has no Done channel, and the end-to-end probes. Reset of `reclaim`, which is
-- for tests and must not race an Open, is a function and not one of the steps.
pub mod Prelude
pub mod Float
pub mod Keys
pub mod Simpleredis
pub mod Backendbackoff
pub mod Reclaim
pub mod Tokenbucket
pub mod Windowcounter
pub mod Iplookup
pub mod Traefikemulator
