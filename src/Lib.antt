-- ===== src/Lib.antt =====
-- NEXIUM Storage: a service that stores files in buckets of projects, in PostgreSQL (rows) and in
-- Cloudflare R2 (objects), with paid plans, API keys and hooks. The development follows the Go code.
--
-- The state. `World` (World/Tables, World/Actions) has the rows of the tables of migrations/*.sql
-- and a log of every call to the outside. An operation is an `Action`: it reads the answers of the
-- outside from `Ext`, which is a parameter and may answer as it likes depending on the whole log,
-- changes the state, and returns a value or an error. Each SQL statement is one step, which changes
-- nothing where it fails; there are no transactions, as in the code, so what was written before an
-- error stays. The `UNIQUE` columns that the code relies on are tests of the statement
-- (`exec_unique`); any other constraint that a statement would break is a statement that fails.
--
-- The parts:
--   Files        internal/files/service.go, store.go and model.go. Operations has one function per
--                method (`upload` is `Upload`, `confirm_upload` is `ConfirmUpload`, ...), Store one
--                per statement; Quota, Confirm and Access have the lemmas.
--   Billing      internal/billing/service.go and store.go: Subscriptions, Checkout (plans and the
--                polling of payments), Addons, Webhook (`HandleWebhook`, `HandleSaspayWebhook`),
--                Gateway (statuses, channels, currencies; `NormaliseStatus` of pkg/saspay/client.go).
--   Gateways     pkg/saspay/client.go and pkg/adullam/client.go: what the clients make of an answer
--                (`unmarshalPayment`, `extractErrorMsg`). Billing takes the result from `Ext`.
--   Receipts     internal/billing/email.go, the receipt in PDF: Texts (numbers and dates), Escapes
--                (`pdfStr`), Document (`buildPDF`), Lines (`generateReceiptPDF`). A text is the list of
--                its bytes.
--   Storage      internal/storage/r2.go: Client has what the client itself does around the library.
--   Middleware   pkg/middleware: RateLimit (rate_limit.go), Scope (auth.go, admin.go and
--                super_admin.go), ApiQuota (api_quota.go).
--   Webhooks     internal/webhooks/service.go and store.go: Service (the API), Delivery (`deliver`,
--                `Fire`).
--   Apikeys      internal/apikeys/service.go and store.go.
--   Buckets      internal/buckets/service.go and store.go.
--   Expiry       internal/expiry/job.go: Job has the passes of one run.
--   Server       cmd/server/main.go: Wiring has the functions that are injected into Files and Billing.
--                These two take them as a record of operations with a record of laws; Server/Laws fills
--                it. Routes has the guards in the order in which a request meets them, and the promotion
--                of the super administrator at the start.
--   Auth         internal/auth/service.go and store.go. Signing has Register, Login, Refresh, Logout,
--                VerifyEmail and ResendVerification, Recovery the reset of a password, Profiles the
--                profile and the change of the e-mail, Passwords and Tokens the hashes, the token
--                pair and the codes; Requests is the interface as one type.
--   Mailer       internal/mailer/mailer.go: `Send` and `SendWithAttachment`.
--   Projects     internal/projects/service.go and store.go: Slugs (`slugify`), Operations, Store.
--   Usage        internal/usage: Joins is the statement of `GetSummary`, row by row.
--   Database     pkg/database/migrate.go: `RunMigrations`.
--   Config       pkg/config/config.go: `Load`.
--   Logs         internal/logs/store.go: the rows of the activity log, and their list (`List`, with
--                `listLogs` of internal/admin/handler.go).
--   Admin        internal/admin/handler.go: Accounts and Platform (roles, quotas, the lock), Plans,
--                Countries (with the rates of exchange), Channels (with the logos), Listings.
--   Http         the handlers: Files, Accounts (internal/auth/handler.go), Billing, Quotas, Events
--                and Signatures (internal/billing/handler.go), Projects (also internal/usage/handler.go),
--                Buckets, Keys and Hooks; Responses (pkg/response/json.go). A route is composed with the service and the guards it calls.
--   Calendar     `time.AddDate(0, 1, 0)` and the month of a date, on seconds since 1970.
--   Examples     a small database, and each result at a concrete input.
--
-- Numbers. Identifiers (UUIDs), times (in seconds) and sizes are natural numbers; a sum of bytes is
-- an int64 that wraps around (`add_int64`), as is a quota in gigabytes (`mul_int64`), and a quota is an integer, as -1 stands for no quota.
-- Loops are recursive on their list; the retry loop of a delivery runs on the number of rounds that
-- are left, which starts at `max_attempts`, so that it always ends.
--
-- Outside: SQL, R2, the gateways, HTTP, JSON, HMAC, SHA-256, Argon2, JWT, the package unicode,
-- strings.TrimSpace, ToLower and ToUpper, the HTML of the mails, what a migration does, the clock and
-- the random source are fields of `Ext` or arguments. A text that a message only quotes is left out
-- of the error. Hexadecimal, strings.Split and `%06d` are modelled.
--
-- Not modelled: the locale of a request, the HTML of the mails, the methods of the R2 client that are
-- one call of its library, the requests of the gateways' clients, the paths of the routes, CORS and
-- time-outs, the tickers of the two jobs, and the connection to the database. Two statements of concurrent requests interleave in the code; an
-- operation here runs without another one in between, but for the rate limiter and for the increments
-- of the monthly quota, whose steps come in any order (Middleware/RateLimit, Server/Metering).
--
-- Goroutines. One that is started is an event of the log (`spawn`), and what it writes is a function of
-- its own: `insert_log` of Logs/Store for the activity log, `write_increment` of Server/Routes for the
-- monthly quota, which `enforce_api_quota` hands on. The UPDATE that `TrackActivity` starts is run in
-- its place. Requests that the HTTP client sends to follow a redirect are not in the log.
--
-- Rows. A query whose loop looks at no `rows.Err()` may give fewer rows and no error (`query_rows`): the
-- names of the applied migrations, the list of the users, and the files that the job deletes. Any other
-- query gives all of its rows or an error.
pub mod Shared
pub mod World
pub mod Calendar
pub mod Files
pub mod Billing
pub mod Gateways
pub mod Receipts
pub mod Storage
pub mod Middleware
pub mod Webhooks
pub mod Apikeys
pub mod Buckets
pub mod Expiry
pub mod Server
pub mod Mailer
pub mod Auth
pub mod Projects
pub mod Usage
pub mod Database
pub mod Config
pub mod Logs
pub mod Admin
pub mod Http
pub mod Examples
