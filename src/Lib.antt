-- ===== src/Lib.antt =====
-- The queue processor of the zkCertificate registries: a Go program that watches registry contracts
-- on an EVM chain, and processes the operations (issuances and revocations of certificates) that
-- they queue, by sending the merkle tree updates that the contracts wait for.
--
-- The parts, and the files that model them:
-- * evm/ (package evm): the service that polls the chain for each monitored contract and publishes
--   the logs it finds. Evm.antt has `NewService` and the registrations, Evm/Types.antt the
--   service's state, Evm/Options.antt the options of evm/options.go, Evm/Scan.antt
--   `processContractEvents` and `updateContractBlock`, Evm/Listen.antt the rounds of
--   `listenForEvents`. The event bus is the list of the events published on it, in their order. A
--   map is an association list that is read and written by key; a round visits its entries in any
--   order, as the range clause does. Evm/Lifecycle.antt has `Start`, `Shutdown` and `GetChainID`,
--   with the contexts of the listeners; what a scan asks of the node is read off a client that
--   records its queries (Evm/Scan/Queries.antt).
-- * queueprocessor/ (package queueprocessor): each monitored registry has a loop that asks the
--   contract for the item at the queue's pointer and processes it. Processor/Types.antt has the
--   state, Processor/Nonce.antt `prepareTransactor` and `submitWithRetry`,
--   Processor/Operations.antt `processIssuance` and `processRevocation`, Processor/Queue.antt
--   `checkAndProcessRegistryQueue`, `processQueueItems`, `monitorRegistryQueue`,
--   `handleOperationQueued` and `GetQueueLength`.
--   Stateful code is in the state monad of Processor/Act.antt over the service, the transactions
--   sent, the log and the world. Processor/Lifecycle.antt has `Start`, `Shutdown` and
--   `SetCheckInterval`, with the loops and subscriptions that they make and end.
--   Processor/Loops.antt is the running service: the ticks of its loops and the events, in any order.
--   Processor/Interleave.antt is about all loops at once: they share the nonce, and the steps of
--   their calls of `submitWithRetry` interleave wherever the lock is free;
--   Processor/Nonce/LoopRuns.antt has the runs of one loop, with the transactions that it sends, and
--   Processor/Nonce/Interleaved.antt relates them to the function.
-- * logging/ (package logging): the wide event of each processed operation. Logging/Types.antt has
--   the event of logging/wide_event.go, Logging/Builder.antt the builder and the log line of
--   logging/builder.go, Logging/Sentry.antt `sendToSentry` and the three ways to end,
--   Logging/Builder/Reading.antt what can be read off the line, key by key. The processor
--   fills one event for each operation, and emits it once. Logging/Config.antt has
--   logging/config.go: the level and the handler of the log.
-- * sentry/ (package sentry): Sentry.antt has `CaptureWideEvent`, which takes the tags of a report
--   off the wide event of a failed operation, `CaptureError` and `RecoverAndCapture`.
-- * service/ (package service): Manager.antt has the manager, which starts the services in their
--   order and shuts them down all at once; the results of the `Shutdown` calls come in any order.
-- * server/ (package server): Server.antt has `NewRouter`, its options and `NewServer`, with chi's
--   mux as a parameter whose calls may panic (`Chi`), and what `Start` does when `ListenAndServe` returns.
-- * the entry of the program (main.go): App.antt has `main` up to the start of the services, from
--   the environment and the config file on, and the subscriber that turns a log of the listener
--   into an operation for the processor. Processor/Setup.antt has the processor's constructor and
--   `SetPrivateKey`. App/Services.antt has the services that `main` registers with the manager, and
--   App/Program.antt the whole program from `StartAll` on: the starts of the services, the rounds of
--   the listener, what the bus tells of the events, and the ticks of the processor's loops, in any
--   order. The bus, a library, is taken to tell the subscribers of each event once, in the order in
--   which they were published, at once or later.
-- * Base.antt has what they share: results, Boolean tests, maps, and integers (Base/Int.antt) with
--   the cast of Go to int64.
--
-- Integers: `big.Int` is ℤ, a non-negative number is ℕ, and the arithmetic of int64 and uint64 is
-- written out with its wrap-around. Code outside the repository is a parameter: the node is
-- `EthClient` (Evm/Types.antt), the environment is `Environment` (Processor/Setup.antt), and the
-- registry contract, the merkle proof service, the key, the clock, the random number source and `String` of `big.Int` are
-- `Backend` (Processor/Types.antt), each of functions on a world of its own. The theorems hold for
-- any of them; those on what is published take the hypothesis `IsFaithful` of Evm/Scan/Ledger.antt:
-- a query that the node answers gives the logs that the chain holds for the address and the blocks
-- asked for, block by block, and it may refuse any query. Those that promise progress take more:
-- a node that refuses no query (`IsAnswering` of Evm/Scan/Progress.antt), or contract, proof service
-- and node that answer as long as an item is due (`IsDueAlways` of Processor/Queue/Due.antt,
-- `IsAccepting` of Processor/Nonce/Accepting.antt).
--
-- Loops: the chunk loop of `processContractEvents` has one unit of fuel for each block that is left
-- to scan, which is enough as a chunk has at least one block; the results below say that it
-- returns. The attempts of `submitWithRetry` and the loops over lists are structural. `Listening`
-- and the ticks of `monitorRegistryQueue` stand for any number of turns of an endless loop.
--
-- Concurrency: the locks guard single steps of the models. The interleaving of the processor's
-- loops is modelled for the nonce, the state that they share and change; any other theorem on the
-- processor is about one loop's turn, or about turns one after the other, and one on the listener
-- about its rounds; in the whole program rounds, turns and events come in any order, each of them
-- as one step. What other loops and other programs do to the world during a turn is in the
-- calls of the world, which may change it in any way. A `Shutdown` that
-- waits is a relation with a case for each way in which the wait ends.
--
-- Not modelled: zkregistry/ (generated from the contract's ABI); the calls that only hand on to a
-- library: `Init` and `Flush` of sentry/, `SetDefaultLogger`, the registration of the signals and
-- the waiting for one, the HTTP server's own `Shutdown`; memory races on the fields that the code
-- reads without a lock. The panic of `time.NewTicker` for an interval that is not positive is in the
-- loop of one registry (`monitor_registry_queue`); where the loops of all registries run side by side
-- (Processor/Loops.antt, Processor/Lifecycle.antt, App/Program.antt), the interval is taken to be
-- positive, as the one of the constructors is. Of the log, the wide events and the errors of a shutdown are kept; other log lines are
-- left out, but not what they read from the node.
pub mod Base
pub mod Evm
pub mod Logging
pub mod Processor
pub mod Sentry
pub mod Manager
pub mod Server
pub mod App
