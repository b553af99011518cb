-- ===== src/Lib.antt =====
-- The agent platform: the store operations that move a task from creation to a verdict, the shared
-- memory, the credentials, closed projects and their members, the bounds on requests, and the handlers
-- of the HTTP layer with their authentication and rate limit.
--
-- An agent creates a task; another claims it under a lease of five minutes and keeps the claim alive by
-- heartbeats; a claim that lapses gives the task back. The claimer sends a RESULT message, which
-- submits the task and opens a verification job; a verifier of the creator leases the job, and its
-- verdict, accepted once, ends the task or leaves it for another attempt. Every call works on one
-- SQLite database, and what an agent sees is decided by one rule. A handler validates the request,
-- decides what the caller may do, and calls the stores; it is an action like theirs.
--
-- Table        SQL statements as functions on lists of rows
-- Errors       internal/model/errors.go
-- Db           internal/schema/schema.sql as records, and the monad of the store operations
-- Scope        internal/store/membership.go: visibleScopeSQL
-- Tasks        internal/store/tasks.go: Create, Get, List, Claim, Heartbeat, requeueExpiredAt
-- Paging       the cursors of internal/store/util.go, and the pages that follow one another
-- Queue        internal/store/verification_queue.go: claimVerificationAt, finishVerificationJob
-- Verification internal/store/tasks.go: Verify
-- Messages     internal/store/messages.go; internal/model/envelope.go
-- TaskLife     the task table under each of these operations
-- Service      sequences of calls of all of them
-- Agents       internal/store/agents.go
-- Knowledge    internal/store/knowledge.go
-- Artifacts    internal/store/artifacts.go; the validators of internal/model/knowledge.go
-- Escalations  internal/store/operator_requests.go
-- Credentials  internal/store/credentials.go
-- Members      internal/store/membership.go: the memberships of closed projects
-- Projects     internal/store/projects.go
-- Operator     internal/store/verification_operator.go
-- Limits       internal/model/limits.go
-- Requests     the Validate methods of internal/model: task.go, verification.go, membership.go,
--              project.go, operator.go, agent.go
-- Limiter      internal/httpapi/ratelimit.go: limiter.allow
-- Http         internal/httpapi: projects.go in Access, Notices, Seats, Departures and Transfers,
--              tasks.go in Tasks, memory.go in Memory, messages.go in Letters, middleware.go and
--              agents.go in Doors, operator.go, telegram.go and verification_alerts.go in Escalation
-- Runtime      internal/agent/agent.go: verifyJob
-- Tests        a small database on which the results are applied
--
-- A store operation is a function from the database to a result and a database. Statements outside a
-- transaction keep what they wrote when a later one fails; `atomically` is a transaction. A function of
-- the source is the definition of its name in lower case with underscores (claimVerificationAt is
-- `claim_verification`).
--
-- Conventions. An operation reads the clock once, as the argument `now`; the source may read it again
-- within the same call. Stored times are whole seconds, as RFC 3339 text in UTC orders them; the
-- limiter's are nanoseconds. The empty text in `lease_until` is 0, which every time has reached. The
-- identifiers that internal/idgen draws are arguments, and where a result needs them to be new it says
-- so. The JSON decoding of a RESULT's payload is the parameter `result_claim`, which gives the
-- `claim_id` of a payload that decodes. SHA-256 is the parameter `hash_token`. A free-form object in a
-- request is its number of entries and the size of its JSON; the comparison of a load with 0 and 1 is a
-- parameter of `validate_register`. The sums of `now` and a duration do not overflow. JSON columns hold
-- the value they encode. The bits of `ttl` are those of int64. An error of the source that is not an
-- APIError is `internal`, as the HTTP layer answers it. What an agent's process reaches beyond itself is
-- its argument `Outside`. Recursion is structural on the tables. The number of pages that a reader of
-- a list follows is bounded by one more than the rows of the table, which is proved to be enough; the
-- turns of `send_verification_alerts` are the ten of the source, given as an argument.
--
-- A handler is given its caller, the parts of the path, and what `decodeJSON` made of the body, and
-- returns the status and the body of the answer. It takes one clock reading for the whole request, in
-- `Ambient`, with the order in which `range` visits a map and what JSON gives. LIKE, JSON texts in a
-- search, the artifact URI policy, the byte length of a text and the comparison of a confidence with 0
-- and 1 are parameters. A second read of the inbox sees the state of the wake-up, an argument. The texts
-- that are sent to the operator are the constructors of `Notice`, and a command is its words.
--
-- Not modelled: failures of the driver and of I/O, the routing and the static pages of the HTTP layer,
-- the message bus, the agent runtime but for its verdicts, the MCP bridge, the Telegram API and the
-- parsing of its updates, the policy on artifact URIs and contents, the base64 text of a cursor (a
-- cursor is what it decodes to), and foreign keys.
pub mod Base
pub mod Table
pub mod Errors
pub mod Db
pub mod Scope
pub mod Tasks
pub mod Queue
pub mod Verification
pub mod Messages
pub mod TaskLife
pub mod Service
pub mod Limits
pub mod Requests
pub mod Agents
pub mod Artifacts
pub mod Escalations
pub mod Http
pub mod Runtime
pub mod Knowledge
pub mod Paging
pub mod Limiter
pub mod Operator
pub mod Credentials
pub mod Members
pub mod Projects
pub mod Tests
