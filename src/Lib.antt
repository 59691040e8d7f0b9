-- ===== src/Lib.antt =====
-- local-ai-proxy is an HTTP proxy in Go in front of language-model backends. Requests carry an API
-- key; they pass the rate limits, pay for tokens out of a credit account, and are routed to a node
-- that serves the model. This library models the parts whose state decides what is allowed, charged
-- and routed, and proves what makes them right.
--
-- The parts, and the files that model them:
--   RateLimit    internal/ratelimit. Tokens is the arithmetic of a token bucket, Limiter is Limiter
--                of ratelimit.go (Allow, Return, prune), Concurrency is ConcurrencyLimiter,
--                Config is ApplyConfigDefaultsAndCap, and Middleware composes them as Middleware
--                of middleware.go does: account bucket, key bucket, concurrency slot.
--   Store        internal/store. Amounts has the rounding of its columns. Sql is what
--                the methods use of the database: tables as maps, statements that may fail,
--                transactions that roll back. Ledger is credits.go:
--                AddCredits, ReserveCredits, SettleHold, ReleaseHold, SweepStaleHolds,
--                CleanupSettledHolds and GetAccountCreditStatus. Balances is GetCreditBalance,
--                InitCreditBalance and BackfillCreditBalances.
--                Nodes, NodeChecks and NodeTable are nodes.go: the row, what is accepted of a node,
--                and the methods. Requests is credit_requests.go: FileCreditRequest,
--                ResolveCreditRequest and the expiry. Directory has the rows of users, sessions,
--                keys, tokens and identities. Users is the part of store.go on users and sessions,
--                Keys that on API keys, Registration the transactions that open accounts, of
--                store.go and credits.go, and Federated is federated.go with the accounts of
--                store.go. Leads and Keeps are the two logics in which the methods are proved: what
--                a method that answers no error leads to, and what it keeps whatever fails.
--   UserApi      internal/user and internal/auth: Sessions is SessionMiddleware of middleware.go and
--                Middleware of auth.go, Login, Account and Keys are the handlers of handler.go.
--   Registry     internal/registry: New, SetNodes, SetNodeState, SetNodeProbe, Resolve,
--                Snapshot and
--                publishLocked.
--   Poller       internal/poller/poller.go: Poller itself is load, reconcile and apply, Probe is
--                probe with readCapped and parseModels, Schedule is nextDue, intervalFor,
--                pollCycle, SweepOnce and RefreshNode.
--   NodeSource   internal/nodesource: Expand is expandEnv, Merge is SyncDeclaredNodes and the loading
--                of the declared nodes.
--   AuthLimit    internal/authlimit: Keyed is keyedLimiter, AuthLimit itself is Guard and the choice
--                of Middleware, Bcrypt the semaphore.
--   Admin        internal/admin: SessionLimiter is session_limiter.go, Nodes is nodes.go.
--   Billing      internal/billing: Middleware of billing.go.
--   Credits      internal/credits: Estimator is estimator.go, Gate is CreditGate of middleware.go,
--                Sweeper the ticks of sweeper.go.
--   Proxy        internal/proxy/proxy.go: Models is handleModels, Admission is
--                handleChatCompletions up to the call of the node, Proxy itself what settleCredits,
--                settleStreamCredits and the error paths of the two handlers do with the hold.
--   Entities     the records of internal/store and internal/billing that several parts read.
--   Prelude      Boolean tests, lists, integers, maps and sums over the rows of a table.
--
-- How they interact: the middleware reads the account that billing resolved and asks the limiters;
-- the proxy resolves a model in the registry, reserves credits for a request, and settles or
-- releases the hold when the answer is complete. A login opens a session in the store, which the
-- session middleware looks up; the guarded updates of a user and a change of the password delete
-- sessions, and so reach the middleware. The poller loads the nodes from the store into the
-- registry and publishes what it concludes from its probes; the admin handlers write the table of
-- nodes and have the poller refresh the node; a start merges the declared nodes into the table.
--
-- State and time. Each operation is a function from the state to its answer and the next state. The
-- code holds a mutex over each operation of the limiters, the registry and the poller's state, and a
-- transaction with its row locks over those of the ledger and the guarded updates: an interleaving of
-- these is a sequence of operations, and the theorems speak of arbitrary sequences. A method or a
-- handler with several statements outside one transaction, such as a login, a session check or the
-- resolution of an end user, is one step of the model too, so what other requests do between its
-- statements is left out. Resolve reads its snapshot before it
-- takes the mutex, so a step of the registry picks among candidates that may be stale. A reading of
-- the clock is an argument, in nanoseconds.
--
-- Numbers. Tokens are counted in parts of 1 / (60 * 10^9), in which the refill of a limit per minute
-- is a whole number for every nanosecond: the arithmetic is exact where the code rounds float64. IDs
-- are natural numbers. Credits are integers in units of the database's last decimal place; a
-- computed cost is exact, and the float64 that the code has for it is a parameter of the proxy. Of a
-- float64 amount the model keeps what the database's rounding depends on (the whole units, and whether
-- what is beyond them is nothing, less than half a unit, half or more) and, as a parameter, the
-- comparison with a balance in float64 (Store/Amounts). A balance has at most fifteen digits, which
-- pass through float64 unchanged; the overflow of a column is left out. The round-robin counter wraps
-- at 2^64.
--
-- The database. A call of the driver takes the next element of a list of faults, which says whether
-- the call fails; an exhausted list is a database that answers. A transaction that does not commit
-- leaves the tables as they were, but sequences have advanced.
--
-- Reloads of the poller. A load, SetNodes and reconcile together, is one step: between the two locks
-- another reload could come in, which the model leaves out. Outcomes of probes come as late as they
-- like, also after a reload that has changed or removed the node.
--
-- Fuel. Only the loop of expandEnv runs on fuel, which is the length of its text and one more: each
-- round leaves a shorter text. Every other loop of the models is structural.
--
-- Users. The advisory lock of the guarded updates makes each one step. bcrypt, SHA-256 and crypto/rand
-- are parameters: the comparison of a password, the hash of one or its failure, and the hash of a
-- token. Names, prefixes and dates that are only shown are not columns of the tables.
--
-- Not modelled: HTTP, metrics, logs and the texts of messages; the goroutines' timers; the admin
-- handlers but those for nodes; the log of usage with the analytics on it; the prices, the listings
-- and the backfills of the store; of the credit requests, the listing and the webhook; of the chat
-- proxy, the relay of the answer and the usage log; the configuration.
pub mod Prelude
pub mod Entities
pub mod RateLimit
pub mod Store
pub mod UserApi
pub mod Registry
pub mod AuthLimit
pub mod Credits
pub mod Admin
pub mod Proxy
pub mod Billing
pub mod Poller
pub mod NodeSource
