-- ===== src/Lib.antt =====
-- Goldfish, a web front end to HashiCorp Vault, written in Go.
--
-- The program. A browser talks to HTTP routes (server.go). A handler (handlers/) takes the user's
-- credentials out of an encrypted cookie, lets Vault's transit backend decrypt the token, acts on
-- Vault with that token (vault/), and clears the credentials. A change of a policy is different: it
-- is stored as a request in the cubbyhole of the server's own token, or comes from a folder of a
-- GitHub commit (github/); users enter unseal keys until there are enough, and then the server
-- generates a root token, writes the policies and revokes the token (handlers/policy.go). Requests
-- are announced on Slack (slack/). Two goroutines reload the run-time settings and renew the
-- server's token (vault/vault.go).
--
-- Prelude, Prelude/*: shared names, Boolean tests and lists on the native numbers, Go's `int`, and the
--   functions of `strings`, `strconv` and `fmt` that the program uses.
-- Json: values of `interface{}` and maps of texts to them.
-- Types: vault/vault.go `AuthInfo`, vault/config.go `Config`, handlers/policy.go `PolicyRequest` and
--   `PolicyDiff`, vault/user.go `User` and `Role`.
-- World, World/Api: everything outside. The API clients of Vault and GitHub, HTTP, clock, random
--   numbers, base64, JSON, hashes, cookies and the HCL parser are fields of the record `World`; what
--   acts on the outside is an `Effect`, whose answer may depend on all effects before it.
-- Exec, Exec/*: how Go functions run. State is `Server` (the package variables of vault/), the handler's
--   variable `auth`, the response's headers, and the trace of effects. A function returns (`done`),
--   returns an error or answers early (`exit`), or panics. `defer` runs on all three.
-- Vault/*: one file for each file of vault/. Clients: `NewVaultClient`, `Client`; Settings: config.go;
--   Start: `StartGoldfishWrapper`, `LoadRuntimeConfig` and the goroutines as sequences of wake-ups.
-- Github, Slack: github/github.go `GetHCLFilesFromPath`, slack/slack.go `PostMessageWebhook`.
-- Handlers/*: one file for each file of handlers/. Session: `getSession` and what nearly every handler
--   begins with; Responses: `parseError`; Accounts: the rest of handlers.go, and bulletins.go.
-- Handlers/Requests/*: handlers/policy.go but for `GetPolicy` and `DeletePolicy`. Add, View, Update,
--   Commit and Remove are its handlers; Tokens, Verify, Root and Diffs are the parts that they share,
--   Root being the block that generates a root token in both updates.
-- Server: the API routes of `main`, and one request. Server/Launch: `main` from the command line to the
--   listener. Server/Run: the server behind it, a relation whose steps are requests and wake-ups of the
--   two goroutines, in any order.
-- Config, Config/*: config/. Parse: `LoadConfigFile`, `ParseConfig`, `checkHCLKeys`, `parseListener` and
--   `parseVault`; Dev: config/dev.go and `LoadConfigDev`; Spec: which configuration a text describes.
--   The record `Library` stands for hashicorp/hcl and what else is called; an `Outcome` is a value, an
--   error, a panic, or a send that nobody receives.
-- Exec/Trace, Exec/Keeps, Exec/Ends, Exec/Fails, Exec/Runs: rules for what an action does on every way
--   out, when it returns, and when it does not.
-- Trust/*, Server/Access, Server/Cleared, what stands below Server/Run and below Handlers/Requests/
--   {Memory, Pending, Quorum, Diffs}, and the modules Laws, Pages, Listings, Deletion, Ready, Granted,
--   Failure, Pieces, RoundTrip, Ids, Cleanup, Progress, Cookie, Outcomes, Sections, Correct, Blocks, Setup,
--   Wrapped, Tied, Source and Exposure below the code that they are about: theorems. Vault/Clients/Runs
--   and Prelude/Text/Hex are lemmas that several of them use. Tests: runs at concrete data.
--
-- Memory reads what the server's cubbyhole holds off the effects; Pending is a request that waits there,
-- and its theorems assume of the outside what the record `IsReliable` says.
--
-- Every loop of the program runs over a list or a computed number of rounds and is structural
-- recursion; the bounds are the sixteen digits of a `uint64` in `format_hex`, which are enough
-- (Prelude/Text/Hex), and the page of 300 accessors, which is the program's own.
--
-- Not modelled: the parsing of command line flags, what echo does with its middleware, the
-- goroutine that waits for a signal (server.go), log lines, the lock of the settings (loads and
-- reads are single steps), requests that interleave inside a handler, the front end, and vendored
-- libraries, which are parameters. CSRF tokens are sent, and checked by the middleware. Texts are
-- sequences of characters; Go's of bytes. The error of `SetAddress`, which the code ignores, is
-- that of an address that is no URL; it does not occur here. The name and the type of a file of
-- GitHub are texts, not pointers that may be nil. The integers of a request of a policy are natural
-- numbers.
pub mod Prelude
pub mod Json
pub mod Config
pub mod Types
pub mod World
pub mod Exec
pub mod Vault
pub mod Slack
pub mod Github
pub mod Handlers
pub mod Server
pub mod Trust
pub mod Tests
