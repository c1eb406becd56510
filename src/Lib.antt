-- ===== src/Lib.antt =====
-- Tillit: a server that keeps signed decisions about packages, and a command line client that
-- resolves them along a web of trust. This library models the part that decides.
--
-- A user signs payloads: a decision on one version, a decision on the step between two versions (a
-- delta), a connection to another user, and the revocation of an earlier payload. The server stores
-- what it has verified; the client caches the rows of its peers and computes, for a package and a
-- viewer, the signers that the viewer trusts, their signatures that apply, and the verdict.
--
-- - Base: shared types (ℤ and byte strings on the native ℕ), lists, sorting, texts, and Base.Order,
--   the interface `IsOrder` of comparisons with the ways to build one, as Base.Release is.
-- - Models.Payload (models/payload.go), Models.AuthToken (models/authtoken.go), Models.Signature
--   (models/signature.go): the signed data, Validate, and the frame that SignatureID hashes.
-- - Resolver.Version (resolver/version.go): CompareVersions.
-- - Resolver.TrustSet (resolver/trustset.go): buildTrustSet as a loop over its queue and its map.
--   Walk is the specification: walks along active connections with depth budgets.
-- - Resolver.Verdict (resolver/resolver.go, resolver/query.go): resolveVersion with its memo table
--   and its set of versions under way. Chain is the specification, two inductive predicates.
-- - Resolver.Spans: the raw spans of Package and mergeSpans.
-- - Resolver.Collect: collectMatching, Version and Package over the client's store.
-- - Localstore (localstore/): the client's tables as lists of rows. Localstore.Settings (localstore.go,
--   peers.go): keys, the active key, servers. Localstore.Listing: whole tables, and the lookup by a
--   prefix. Localstore.Revocation: IsCachedSignatureRevoked and GetActiveConnection. Localstore.Pushes
--   and Localstore.Rows: lemmas on push_state.go and on the rows that queries find.
-- - Server.Database (db/sqliteconnector/): the server's tables as lists of rows.
-- - Server.Signatures (handlers/signaturehandler.go), Server.Connections
--   (handlers/connectionhandler.go): the handlers as functions from a database and a request to a
--   response and a database, every early return included, but for errors of the database.
-- - Server.Auth (middleware/auth.go): Authenticate.
-- - Sync (cmd/tillit/commands/sync.go, verify.go and store.go): Sync, with the answers of the servers
--   as parameters.
-- - Commands (cmd/tillit/commands/): functions from a store to a store, or to `none` on an error.
--   Commands.Snapshot (export.go): buildExportDoc and applyImport, table by table. Commands.Check (check.go): from
--   the arguments to the exit status. Commands.Tree (checktree.go): the graph of packages, with
--   its walk on fuel. Commands.Publish (sync.go): Publish, with all that was sent.
--   Commands.Signing (signing.go, store.go): the active key, signPayload. Commands.Sign (sign.go):
--   signing and revoking. Commands.Trust (trust.go, delete.go): Trust, Distrust, Forget, Delete.
-- - Ecosystems.Gosum (ecosystems/gosum/version.go): compareGoVersion. Ecosystems.Semver
--   (ecosystems/internal/semver/semver.go), Ecosystems.Pypi (ecosystems/pypi/version.go),
--   Ecosystems.Rubygems (ecosystems/rubygems/version.go): parsing, validation and comparison.
--   Ecosystems.Requirements (ecosystems/pypi/requirements_parse.go): requirements.txt.
--
-- The modules named Examples run the definitions on concrete inputs.
--
-- Bounds. A Go `int` of a trust depth is an integer without bound; strconv.Atoi keeps its 64 bits.
-- The recursion of resolveVersion takes as fuel the number of signatures and two more: nested calls
-- are for distinct first versions of deltas. The loop of buildTrustSet takes the number of direct
-- edges and of cached connections: a round takes one frontier off the queue, and a signer's
-- connections are added once. The walk of Commands.Tree takes the number of direct packages and of
-- all targets of edges, and one more: it enters a package once. That all this is enough is among the
-- results. Instants are nanoseconds, and
-- a row keeps whole seconds. A Go map is a list with its keys in the order of insertion.
--
-- Parameters: json.Unmarshal and json.Marshal, base64, time.Parse, strings.ToLower, TrimSpace and
-- Fields, the hash, the signers and verifiers of keys, the adapters of ecosystems, the file system,
-- the database's LIKE, and the answers of servers. They are arguments of the definitions. The theorems on revoking
-- and on trust changes name what they assume of them for the one revocation that is signed: that it
-- signs, that its kind is read back from its JSON, and that a row that is cached under its id is the
-- same revocation.
--
-- Not modelled: errors of the databases themselves, HTTP and its encodings, flags and printing of most
-- commands, the clients of package registries, and so far the other parsers of
-- lockfiles, key management and mirroring.
pub mod Base
pub mod Models
pub mod Resolver
pub mod Localstore
pub mod Server
pub mod Sync
pub mod Commands
pub mod Ecosystems
