-- ===== src/Lib.antt =====
-- 21pins: the authorization of SSH access and of paid requests. A model of the program's Go code,
-- and the theorems that make it correct.
--
-- The program gives agents temporary SSH access. `sshaccess.Service`
-- (internal/sshaccess/lease.go) keeps leases in a file: a lease is opened for a host and a role,
-- approved, and closed or expired; while it is active, certificates of a few minutes are signed
-- for it. A role may be gated: then the certificate forces the command `21pins gate`, and
-- `sshcommand.Run` (internal/sshcommand/gate.go) decides on the host, from a policy file that
-- root owns, whether the line that the client sent is a literal command of the role. The client
-- (cmd/21pins/ssh.go) quotes the words of that line.
--
-- Its gateway checks a request to a model provider that names a grant: the engine
-- (internal/policy) evaluates the pins of the grant, and the store (internal/store) keeps grants,
-- receipts and approvals, and the keys of the providers.
--
-- Its network tools (internal/netpolicy) keep a registry of networks, services and rules in a
-- file, and give a verdict on what was observed. A question to the registry resolves to rules and
-- to the properties that they need; the verdict compares these with the facts.
--
-- The files:
--   Prelude (Tests, Lists, Int): Boolean tests, `if`, Option, lists and Go's int64.
--   Go (Text, Utf8, Path, Map, Fold, Sort, Wire): what the code uses of Go's standard library. A
--     string is the list of its bytes, and a map the list of its entries.
--   Command.Words: `Parse`, and the client's `shellQuote`. Its proofs are in Words.Quoting.
--   Command.Rules: `Rule`, `Authority`, `validateRules`, `Authorize`. Its proofs are in
--     Rules.Exact.
--   Command.Roles: `Policy.Validate`, `Policy.Role`, `Authority.ForcedCommand`.
--   Command.Gate: `trustedOpen`, `Load` and `Run`, over a record `World` of what the system says.
--     Its proofs are in Gate.Closed. Command.Delivery: from the client to the gate.
--   Lease.Types, Lease.Config: the data, `validateConfig`, `scopeDigest`, `Service.role`.
--   Lease.Transaction: `transaction` and `expire`. Lease.Service: `Get`, `List`, `Approve` and
--     `Close`. Lease.Opening: `Open`. Each takes the state on disk to the state on disk after it,
--     with the reply or the error.
--   Lease.Issue: `Issue`, with what it meets while it signs.
--   Lease.Calls: a call of any of the six operations as a step, and histories of calls.
--   Lease.Effect, Evolution, Ledger, History: what any history keeps of a lease. Lease.Serials,
--     Quiet, Audit: the recorded certificates. Lease.Signers: which serials are signed.
--     Lease.Certificates: what a certificate that `Issue` gives says.
--   Command.Samples, Lease.Samples, Lease.Trials: runs on concrete inputs.
--   Providers, Providers.Store: the keys of the model providers and their rotation, of
--     internal/store/store.go, on one set of keys and on the store. Providers.Updates,
--     Consistent, Preserved, Added, Sound, Secrets, History: what any history of calls keeps.
--     Providers.Rotation: which key is given out. Providers.Samples: runs.
--   Certificate: `verifyCertificate` of internal/sshaccess/certificate.go, over the bytes that
--     Go.Wire reads. Its proofs are in Certificate.Fields, Extensions, Exact and Complete, with
--     runs in Samples.
--   Net, Net.Objects: the data of internal/netpolicy, and which objects are valid. Net.Registry,
--     Rules, Mutate: registry.go and policy.go, a call as a function from the file before it to
--     the file after it. Net.Distinct, Invariant, Resolve, Rebind: what calls keep and give, with
--     runs in Net.Trials.
--   Net.Evidence, Net.Verify: which facts count, and `Evaluate`. Its proofs are in Verify.Exact,
--     Verify.Meaning and Net.Fresh, with runs in Net.Samples.
--   Net.Dns: `dnsName` and `parseDNS` of internal/netpolicy/dns.go. Its proofs are in Dns.Safe,
--     with runs in Dns.Samples.
--   Policy.Types, Policy.Engine: the data of internal/policy/types.go, and `EvaluateAction` of
--     engine.go. Its proofs are in Engine.Exact.
--   Policy.Receipts: the signed documents of receipt.go, attestation.go and export.go. Its proofs
--     are in Receipts.Signed.
--   Policy.Store: grants, receipts and approvals of internal/store/policy_store.go, in memory and
--     in the file. Policy.History: histories of its calls. Policy.Approvals: how an approval is
--     resolved.
--   Policy.Enforce: `enforcePolicy` of internal/gateway/server.go, with what other requests do
--     between its calls of the store. Policy.Admission: what it lets through. Policy.Budget: what
--     it spends.
--   Tokens: `ValidateSSHToken` of internal/store/ssh_auth.go. Its proofs are in Tokens.Ssh.
--   Policy.Samples, Policy.Trials, Tokens.Samples: runs on concrete inputs.
--
-- Choices. A time is a count of nanoseconds (ℕ), and a clock that is read several times in a call
-- is a function of the reading. The lease service holds a lock on its file during a transaction,
-- so calls are a sequence of steps; what `save` and the lock may do wrong is a Boolean of the
-- moment, and where the last save of a call fails, what the call has saved before stays on disk.
-- The policy store is locked for one call only, so `enforcePolicy` takes what other requests do
-- between its calls as a function. Every loop is structural: the loop over words counts the words
-- that are still allowed, and those that decode or trim a text have its length as fuel, of which
-- each round takes one and at least one byte. Hashes, base64, JSON, the parser of durations and
-- of SSH keys, the certificate signer and the file system are not the program's code: they are
-- fields of `Env`, `World`, `Moment`, `Signing`, `Crypto` and `NetEnv`, arbitrary in each theorem
-- but for the hypotheses that it names. The store writes its state as a whole or not at all;
-- after a failure the memory is restored from the file, or keeps what was not written, and both
-- are covered. The reader of DNS messages makes at most 128 rounds for a name, as in the source;
-- its loop over options has their number of bytes as fuel, which is shown to be enough.
--
-- Not modelled: the command line, files and JSON encoding of the lease service (`Load`, `save`,
-- `AtomicPrivate`), the signers, the rest of the HTTP gateway, the tokens, catalogs and usage
-- events of the store, the usage ledger, the hosted service, the probes of the network and its
-- DNS tools, the npm package, the website and the scripts.
pub mod Prelude
pub mod Go
pub mod Command
pub mod Lease
pub mod Certificate
pub mod Net
pub mod Policy
pub mod Providers
pub mod Tokens
