-- ===== src/Lib.antt =====
-- A model of nft-tracker, a service that follows the tokens of NFT contracts: its jobs, its reader
-- of the chain, its configuration.
--
-- The program. A contract that is registered (src/modules/contracts) gets a job that looks for its
-- first tokens. Jobs are rows of the table `tokens_jobs`; five services
-- (src/modules/tokens/tokens-jobs-*.service.ts) each execute the jobs of one type: they look for
-- minted tokens, fetch the metadata of a token, ask for its owner, upload its media, or refresh it
-- altogether, and some make further jobs. A processor (src/modules/tokens/queue) runs their methods
-- from a Bull queue: a schedule puts the jobs that are due into the queue, another resets the jobs
-- that were started and never ended, others look for tokens that lack something. A watcher
-- (src/modules/blockchain/evm) listens to new blocks and queues them; a worker reads the transfers
-- off a block and records them. Services look tokens up, keep the configuration and send webhooks.
--
-- The files.
--   Store: the rows (Entities: the entities of src/modules/tokens, src/modules/contracts), the shared
--     state (World: tables, the open transaction, the queue), methods as actions on it (Exec, with
--     `runTransaction` of src/common/helpers/transaction.helper.ts and `parallel` of radash), what
--     comes from outside (Env), the writes of the repositories (Tables). Below Exec stand the rules
--     for what an action keeps, how it ends, and when it returns.
--   Uri: the addresses of metadata (src/modules/blockchain/evm/utils, and formatTokenUri of
--     src/modules/blockchain/evm/providers/ERC721.provider.ts); Provider: the calls of a contract
--     (the same file), with what each answers for an error.
--   Contracts: src/modules/contracts/contract.service.ts.
--   Jobs: the services. Service is tokens-jobs.service.ts; Schedule the two methods that all five
--     share; VerifyMint, FetchMetadata, FetchOwnerAddress, UploadAsset, RefreshToken one service
--     each, a function for each method (`execute` of a service is `execute` of its module). Outcome,
--     Retry and Progress say how an execution ends. Double is the arithmetic of JavaScript numbers.
--   Transfers: src/modules/tokens/tokens-transfer.service.ts, which records an event of the chain.
--   Events: the queue of blocks in src/modules/blockchain/evm/evm-events.services.ts and the last
--     blocks, on a state of their own.
--   Evm: the providers of the chains (src/modules/blockchain/evm/evm.service.ts), with the default
--     addresses (Urls), blocks (Block) and the report on the providers (Health). Sockets is the
--     rest of evm-events.services.ts that concerns sockets, with the steps of a process; Logs is
--     evm-logs.service.ts, Format utils/format.ts, Topics the choice and the reading of logs,
--     SyncBlock a job of queue/evm-events-worker.processor.ts from its logs to the last block,
--     Watcher the start of queue/evm-events-watcher.processor.ts. Pool,
--     Listeners, Renewal and Readiness hold proofs.
--   Configuration: src/modules/configuration, the table and its copy in memory, with the texts that
--     it writes in Files. Action: methods on a
--     state of their own, which Configuration, Evm and Webhook are written with.
--   Cache, Iterator, Repeat: cache.helper.ts, iterator.helper.ts and queue.helper.ts of
--     src/common/helpers, the last with the schedules of the processors.
--   Tokens: src/modules/tokens/tokens.service.ts and its mapper, with the lists in pages in
--     Tokens/Pages. Webhook: src/modules/webhook. Auth: src/modules/auth/auth.service.ts.
--     Transformers: those of the columns, in src/modules/database/database.helpers.ts.
--   Shutdown: how the process ends (src/common/helpers/app.helpers.ts, src/main.ts). LoggerContext:
--     src/common/decorators/logger-context.decorator.ts. HttpException: the answers to requests that
--     fail (src/common/filters, src/common/exceptions), with the decoding of addresses in Percent.
--     Settings: src/config, src/common/helpers/connection.helper.ts and what is connected to with
--     the settings. Health: the reports of src/modules/health/health.controller.ts.
--   Migrations: the statements of src/modules/database/migrations, month by month, and what they do
--     to a schema; Valid, Revert and History say what reverting a migration leads back to.
--   Processor: src/modules/tokens/queue/tokens-job.processor.ts, `handle` with a case per handler.
--   Invariant: the writes of the program as one record of what a property of the tables must
--     withstand, and, service by service, the rules for it; Program is the program as steps of
--     handlers, transfers, registrations and lookups in any order.
--   Prelude: lists, texts and tests that all share. Tests: a small state to apply theorems to.
--
-- How it is modelled. A method is a function from the state to a result, or an error, and the next
-- state: what it wrote before it threw stays written, except in a transaction. A statement of a
-- repository commits at once; one of a query runner joins the transaction that is open, and shows
-- when that commits. Texts are lists of code units; a uuid and a token id are numbers, a date is
-- its milliseconds. A question to the outside (the clock, a uuid, the chain, a request, an upload)
-- is answered by a field of `Env`, by the number of questions asked before, so two answers need not
-- agree; nothing is assumed of the answers but what a theorem says. In the criteria of an update
-- a missing value matches no row; in those of a find it is no condition; a column without a value
-- is left out of an update, as in TypeORM.
--
-- Bounds. Functions with a counter for fuel (hexadecimal and decimal digits, the rounding of
-- doubles) start it at the number itself, which is more rounds than it has digits. The
-- loop over pages has a round for each row.
--
-- Not modelled. Bodies that run at the same time: `parallel` runs its bodies one after another, in
-- any order that `Env.order` chooses, and `Promise.all` in the order of its list; handlers do not
-- interleave. Errors of the database itself, the columns `updated_at` and `deleted_at`, logging,
-- and the removal of finished jobs from the queue. The texts of RPC errors: only whether their stack
-- says that the execution was reverted. `job.address!` on a job without an address is read as the
-- empty text. The transfers that a job of a block hands to `parallel` stand in a list until a step
-- takes them up. Cache entries do not expire, letters outside ASCII have no case, a thrown null does
-- not reach the listeners to errors, and the rows that are paged through do not change meanwhile. The entries of the configuration that the EVM services read are an argument of
-- theirs, not the table of Configuration. The web controllers, with most of their validators, have no
-- module here. What the packages joi, terminus and prom-client do with the
-- settings and the reports is a parameter. A schema has no rows: the migrations that only change rows
-- of the configurations are left out.
pub mod Prelude
pub mod Store
pub mod Uri
pub mod Webhook
pub mod Provider
pub mod Jobs
pub mod Action
pub mod Auth
pub mod Cache
pub mod Configuration
pub mod Evm
pub mod Contracts
pub mod Processor
pub mod Repeat
pub mod Events
pub mod Tokens
pub mod Transfers
pub mod Invariant
pub mod Iterator
pub mod Tests
pub mod Shutdown
pub mod LoggerContext
pub mod Percent
pub mod HttpException
pub mod Settings
pub mod Health
pub mod Migrations
pub mod Transformers
