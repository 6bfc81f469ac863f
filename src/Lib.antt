-- ===== src/Lib.antt =====
-- Mastermind, the control plane of a manager of 7 Days to Die servers (control-plane/src): a NestJS
-- service that keeps organisations, hosts, server instances, jobs and schedules in a database, hands jobs
-- to the agents on the hosts through BullMQ queues, and counts the runs of job batches.
--
-- The parts and their files:
--   Base         shared: tests, tables as lists of rows, integers, results, JavaScript strings
--   Schema       the rows of jobs, runs, batches and instances (control-plane/prisma/schema.prisma), JSON
--                objects and the spread of one over another
--   World        the state of the job services: tables, queues of the organisations, audit log, progress
--                events; `addJob` of control-plane/src/jobs/jobs-queue.service.ts
--   Runs         the status of a job run as a step relation
--   Batches      control-plane/src/batches/batches.service.ts: createBatch, recordJobRunStarted,
--                recordJobRunCompleted; Batches/Cancellation has cancelBatch; Batches/Tally says what the
--                counters should be
--   Queue        control-plane/src/jobs/jobs-queue.service.ts: getNextJobForHost
--   Jobs         control-plane/src/jobs/jobs.service.ts and the poll of agent-jobs.controller.ts: createJob;
--                Jobs/AgentCalls has markJobRunStarted, reportJobResult, reportJobProgress and the poll,
--                Jobs/Sweep failStaleRunningJobs, Jobs/PlayerSync reconcilePlayers, Jobs/Protection
--                enforceConnectionTools, and Jobs/PlayerReports and Jobs/Addresses the regular expressions
--                of both; Jobs/Lifecycle is the relation of all histories of the handlers of runs and those
--                of Batches; Jobs/Ending, Jobs/Reported and Jobs/Draining say when a batch ends;
--                Jobs/ReportSteps splits reportJobResult at its check
--   Cron         control-plane/src/scheduler/cron-next.ts: getNextCronRun; Cron/ExecutionWindow has
--                clampToExecutionWindow
--   Scheduler    control-plane/src/scheduler/scheduler.service.ts: the operations on schedules;
--                Scheduler/Fire has processScheduleFire, Scheduler/Worker handleWorkerFailure and
--                hydrateSchedules; Scheduler/History is the relation of all histories of the operations
--   Fleet        the tables of hosts, pairing tokens and server instances
--   Hosts        control-plane/src/hosts/hosts.service.ts
--   Pairing      control-plane/src/pairing/pairing.service.ts and agent-auth.guard.ts
--   Instances    control-plane/src/server-instances/server-instances.service.ts; Instances/Discovery has
--                upsertDiscovered7DtdInstance, Instances/Config the merge of configurations
--   Players      control-plane/src/players/player-identity.ts
--   Accounts     control-plane/src/auth/auth.service.ts: register, login and changePassword; Passwords
--                has makePasswordHash and verifyPassword
--   Discord      control-plane/src/discord: send and tryConsumeRateLimit; Discord/Window says what the limit
--                of one key is, Discord/Limit that the limiter's map keeps to it, Discord/Delivery how often
--                send posts
--   Alerts       control-plane/src/alerts: the rules; Alerts/Send has sendAlert and sendMatchingRules,
--                Alerts/Relay relayPlayerChat and testRule, Alerts/Format the formatter
--   Frigate      control-plane/src/frigate/frigate-webhook.controller.ts
--   Guards       control-plane/src/server-instances/guards: the checks before the users' endpoints
--   Organisations control-plane/src/orgs/orgs.service.ts: createOrg, createAccount, deleteAccount,
--                resetAccountPassword; Organisations/Settings has updateOrg and the integrations'
--                settings, Organisations/History the relation of all histories of the operations,
--                Organisations/Admission what the guards answer to a deleted account
--   Logs         control-plane/src/logs/logs.service.ts: Logs/Append has append, Logs/Chat parseChat,
--                Logs/Arrivals parsePlayers, Logs/Keywords matchKeywordAlerts and the keyword rules,
--                Logs/Moderation and Logs/Sanctions the moderation of chat, with the
--                settings of Logs/StoredSettings, Logs/Relays the Discord relay, Logs/Pruning retention
--                and listing; Logs/Patterns and Logs/PlayerLines are the regular expressions
--   HealthMonitor control-plane/src/health-monitor/health-monitor.service.ts
--   JsonValues   how JavaScript reads a JSON value of any shape
--   Examples     concrete states, and the theorems at them
--
-- How they interact: Scheduler and Jobs put jobs into the tables and queues of World; an agent's poll
-- claims a queued job (Queue), marks its run as started (Jobs) and moves the counters of its batch
-- (Batches); its report ends the run and moves the counters again. Pairing gives an agent the key by which
-- its requests are made for its host. A chunk of a server's log (Logs) is searched for keywords and read for
-- chat and for players who come and go; chat is moderated, which may queue a console job (World), and
-- relayed by Alerts, as are the players' comings and goings; Alerts sends through Discord.
-- The game's list of its players, which a job brings back (Jobs), changes the same rows of players, and may
-- queue jobs that kick or ban.
--
-- Conventions. Database ids are natural numbers, and `next_id` is the generator of fresh ones. Tables are
-- lists of rows in the order of creation. Times are milliseconds since the epoch; a handler reads the clock
-- once, as `now`. A handler is one step: awaits of two handlers do not interleave, but for those of
-- reportJobResult in Jobs/Races. Strings are lists of UTF-16 code units; letter case is ASCII's, and white
-- space that of Latin-1. JSON numbers are natural, and an ISO date string is its time. A handler that
-- throws returns `err` and no state. The counters of a batch are integers, since the database lets them
-- fall below zero.
--
-- Bounds: the search of Cron tries 366 * 24 * 60 minutes, as the code does; a step item of a cron field is
-- unrolled for as many rounds as its range has values, which covers every step of at least one.
--
-- Parameters, for code that is not in the repository: BullMQ's listing of jobs and its answers to a claim
-- (`QueueClient`) and to a removal, which call of the database or a queue is the first to fail in a fire
-- (`Fault`), local time (`Calendar`), the functions of the crypto and token libraries and the date format
-- (`Platform`, `Secrets`), what `fetch` answers and the URL parser (`Outside`), the country service
-- (`country_at`), and the encryption of keys.
--
-- Not modelled: deletion of upload files (recorded in `World.unlinked`), the point in reportJobResult at
-- which the player list is read (its calls are recorded in `World.syncs`), exceptions of
-- the steps of `append` in Logs, endpoints that only read and format rows, calls of language models, the
-- server tools of the players' controller, the Discord bot, the web client and the agent.
pub mod Base
pub mod Alerts
pub mod Accounts
pub mod Schema
pub mod World
pub mod Runs
pub mod Batches
pub mod Queue
pub mod Jobs
pub mod Cron
pub mod Discord
pub mod Fleet
pub mod Frigate
pub mod Guards
pub mod HealthMonitor
pub mod Hosts
pub mod Instances
pub mod JsonValues
pub mod Logs
pub mod Organisations
pub mod Pairing
pub mod Passwords
pub mod Players
pub mod Scheduler
pub mod Examples
