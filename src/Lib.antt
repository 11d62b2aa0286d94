-- ===== src/Lib.antt =====
-- A model of the parts of go-rest-api-service-template that decide on a request before it is
-- handled, of sessions and the limits on what an account may do, and of the cursors of its lists,
-- with proofs about them.
--
-- The service limits requests by rules that stand in a database. A replica holds a copy of them, the
-- mirror, and for each request resolves which rules apply, makes the buckets of their windows, and
-- charges one request against each: first against a limiter of its own, then against a counter that
-- all replicas share, in front of which stands a circuit breaker. This happens once before
-- authentication and once after it. Requests are told apart by the client's address, which is read
-- from forwarding headers behind trusted proxies only; some requests are exempt.
--
-- Behind that a request passes the middlewares that verify its token, ask whether the token is
-- revoked and the account active, and ask for its permission. A session is an access token and a
-- refresh token; a refresh spends the refresh token and issues the next, and the denylist holds a row
-- for each token that is spent, which names its successor. A logout revokes the tokens of the session
-- in the denylist and in the replica's mirror, which the middlewares ask.
--
-- Base             Shared names; Base/Tests Boolean tests, Base/Lists lists and membership, Base/Texts
--                  and Base/Split texts, Base/Int integers with a sign, Base/Sort orders and sorting.
-- RateLimit        internal/core/domain/rate_limits.go: RateLimit/Rule the record and its methods,
--                  RateLimit/Windows SortedWindows.
-- RateLimit/Resolve internal/core/domain/rate_limits_resolution.go, ResolveRateLimits: candidate and
--                  round are the body of its loop, resolve_rate_limits the whole. The order in which
--                  Go ranges over the map of the best matches is the argument walk. The lemmas stand
--                  in Resolve/Best, the theorems in Resolve/Answer, Resolve/Ladder
--                  (verbs, routes and tiers) and Resolve/Candidate (a rule as a whole).
-- RateLimit/Mirror internal/core/usecase/rate_limits_mirror.go: the state RateLimitRules, Reload,
--                  Apply, Resolve, and Run as a run over ticks and change notices.
-- RateLimit/Charge internal/adapter/driving/http/middleware/ratelimit.go, charge and spend, over the
--                  port of internal/core/port/driven/ratelimit/ratelimit.go.
-- RateLimit/Stage  The same file: budgetsFor, appliesInThisStage, scopeKey, windowKey, the pattern
--                  helpers, and the handler RateLimit as rate_limit. Stage/Scopes and Stage/Due describe
--                  what a request is charged for, Stage/Requests the handler as a whole.
-- RateLimit/Breaker internal/adapter/driven/ratelimitbreaker/breaker.go: admit and record are one step
--                  each, since they hold the mutex and the call of the limiter stands between them.
-- RateLimit/Shared internal/adapter/driven/ratelimitvalkey/adapter.go: the counter of a fixed window.
-- RateLimit/Local  internal/adapter/driven/ratelimitmemory/adapter.go: the map of a replica's buckets over a
--                  library of limiters; Local/Charged, Local/Idle and Local/Unspent hold its theorems.
-- RateLimit/Validate internal/core/domain/rate_limits.go, validateRateLimitCommon and its parts: Validate
--                  /Accepted the verbs, Validate/Budgets the windows and the rule as a whole.
-- ClientIp         internal/adapter/driving/http/middleware/clientip.go, and in ClientIp/Exemption
--                  ratelimit_exempt.go.
-- Paging           internal/core/domain/paginator.go: the tokens of a page and what is read from them.
-- Revoked          internal/core/usecase/revoked_access_tokens.go: the tokens that a replica refuses.
-- Session          The claims, errors and the port RevokedTokens. Session/Denylist is the repository
--                  internal/adapter/driven/repositorypg/revoked_tokens.go, its statements on a table of
--                  rows; Session/Chain and Session/Denial are about the chain of rotations in it.
--                  Session/Refresh, Session/Logout and Session/Login are RefreshAccessToken,
--                  LogoutUser, the single-use tokens and LoginUser of internal/core/usecase/authn.go;
--                  Session/Renewal, Session/Replay, Session/Ending, Session/SingleUse and
--                  Session/Secrecy hold their theorems.
--                  Session/Throttles is internal/adapter/driven/throttlememory/adapter.go.
-- Lifetimes        internal/core/domain/token_lifetimes.go, internal/core/usecase/token_lifetimes.go and
--                  token_lifetimes_mirror.go.
-- Access           internal/adapter/driving/http/middleware/middlewares.go and project_membership.go, and the
--                  chains of internal/app/server.go.
-- Grants           internal/core/usecase/grant_guard.go: who may hand out a policy or a role.
-- Usage            The counters of internal/adapter/driven/repositorypg/resources_limits.go and CheckUsage of
--                  internal/core/usecase/resources_limits.go.
-- Accounts         internal/core/usecase/users.go and administrator_account.go, the checks of roles.go, and
--                  the statements of internal/adapter/driven/repositorypg/users.go that they use.
-- Recovery         The mails and links of internal/core/usecase/authn.go: registration, verification,
--                  password recovery and reset.
-- Identities       UnlinkIdentity of internal/core/usecase/authn_idp.go, and of
--                  internal/adapter/driven/repositorypg the statements of users_identities.go and of the
--                  deletion in idps.go.
-- Validation       ValidateString, ValidateEmail, ValidatePassword, ValidateLoginPassword and
--                  ValidatePagination of internal/core/domain/validation.go.
-- Tests            Runs on data that is written out.
--
-- Bounds. Numbers are natural numbers, or integers where the source may hold a negative one. The one
-- sum that may leave 64 bits, in secondsCeil, is written with its wrap-around. Loops are recursion
-- on their lists, but for two: the walk of RevokeChain has fuel for one row more than the table has,
-- which is enough for any table, and the pages of a role in CheckRoles come from an argument and
-- have fuel that is compared with their number.
--
-- Arguments of the definitions stand for what is not in the repository: the Valkey server, net/netip,
-- base64, UUIDs, the printing and reading of numbers, the mux, the signer of tokens, bcrypt, the policy
-- engine, the library of limiters. What is asked of them is a record of
-- laws beside the theorem that needs it.
--
-- The statements of the repositories above are written as functions of their rows: each holds the lock that
-- PostgreSQL gives it, so that one statement, or one transaction that locks a row, is one step.
--
-- Not modelled: logs, metrics and spans; the other repositories, whose behaviour is that of their
-- SQL; the network; mail, caches and notifications; the use cases that only call a repository, and
-- the handlers. A mirror's loads are not interleaved with each other, and the breaker's clock
-- may be any sequence of instants.
pub mod Base
pub mod RateLimit
pub mod Paging
pub mod ClientIp
pub mod Tests
pub mod Revoked
pub mod Session
pub mod Grants
pub mod Identities
pub mod Access
pub mod Lifetimes
pub mod Usage
pub mod Validation
pub mod Accounts
pub mod Recovery
