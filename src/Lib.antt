-- ===== src/Lib.antt =====
-- kVDI, a virtual desktop server on Kubernetes: who may do what through its API, how a user gets
-- and keeps a session, the user file of its local authentication provider, and the one-time
-- passwords of its users.
--
-- The program's parts and how they interact. A request to the API passes DecodeRequest
-- (pkg/api/api_decoder.go), which reads and validates its object, then ValidateUserSession
-- (pkg/api/api_validate_user_session.go), which verifies its token, then ValidateUserGrants
-- (pkg/api/api_validate_perms.go), which looks up what its route and method need, asks the role
-- rules of the user (apis/rbac/v1, pkg/util/rbac), and for the requests that hand out rules also
-- the privilege check (pkg/api/api_validate_privilege_escalation.go). The handlers of the users
-- then call the local provider (pkg/auth/providers/local), which keeps one line per user, and the
-- MFA manager (pkg/auth/mfa), which keeps one line per OTP secret. Both keep their lines in the
-- secrets engine (pkg/secrets), under its lock. The handlers of a login (pkg/api/post_login.go and
-- its siblings) ask the provider and the MFA manager, sign a token with the secret that the engine
-- keeps, and store a refresh token there. The files of a desktop are moved by the client of
-- pkg/proxyproto, which asks the proxy that runs beside each desktop. The reconciler of the sessions
-- (pkg/resources/desktop) gives each user a volume that outlives the sessions.
--
-- Files.
--   Prelude              library names, tests on numbers and bytes, lists of propositions, sorting
--                        of texts, strings.Split and strings.Join, the lines of a bufio.Scanner
--   Rbac/Rule            apis/rbac/v1/rules.go and constants.go
--   Rbac/Types           VDIUser, VDIUserRole and APIAction of pkg/types/auth_types.go
--   Rbac/Evaluate        pkg/util/rbac/evaluate.go
--   Rbac/Filters         pkg/util/rbac/filters.go
--   Rbac/Includes        pkg/util/rbac/rule_includes.go
--   Rbac/Permits, Filtered, Equality, Escalation, Grantable, Tests: proofs about these
--   Api/Request          the request types of pkg/types/api_requests.go and the readers of
--                        pkg/util/apiutil/requests.go
--   Api/Validation       their Validate methods, and pkg/api/api_decoder.go
--   Api/Cluster          pkg/api/resource_getter.go and what the checks read of the cluster
--   Api/Grants           the table RouterGrantRequirements of pkg/api/api_validate_perms.go
--   Api/Privilege        pkg/api/api_validate_privilege_escalation.go and
--                        api_validate_perms_helpers.go
--   Api/Permission       ValidateUserGrants, and auditLog of pkg/api/api_audit.go
--   Api/Session          pkg/api/api_validate_user_session.go
--   Api/Routes           the protected routes of pkg/api/api_router.go against the table
--   Api/Served, Audit, Built, Decoded, Elevation, OwnUser, SessionLaws, Tests: proofs about these
--   Local/User           pkg/auth/providers/local/types.go
--   Local/Passwd         pkg/auth/providers/local/passwd_util.go
--   Local/Provider       util.go, secret_util.go, api.go and auth.go there, and
--                        FilterUserRolesByNames of pkg/util/apiutil
--   Local/Setup          pkg/auth/providers/local/reconcile.go
--   Local/Encoding, Refinement, Changes, Service, Injection, Tests: proofs about these
--   Secrets              the answers and the calls of the secrets engine, as its callers see them
--   Secrets/Store        the interface of pkg/secrets/common and pkg/secrets/providers/k8secret
--   Secrets/Engine       the cache, the reads and the writes of pkg/secrets/secrets_engine.go
--   Secrets/Mutex        its Lock and Release, and the goroutines that call them
--   Secrets/Lock         pkg/util/lock/lock.go, with Retry of pkg/util/common/util.go
--   Secrets/Coherent, Kept, Acquired, Tests: proofs about these
--   Mfa/Manager          the lines of pkg/auth/mfa/mfa.go and the operations on them
--   Mfa/Service          its exported methods, with their calls of the secrets engine
--   Mfa/Scanned, Rewritten, Found, Status, Stored, Tests: proofs about these
--   Login/Types          what the login handlers of pkg/api take and answer
--   Login/Tokens         pkg/api/api_common.go, and GenerateJWT of pkg/util/apiutil/jwt.go
--   Login/Handlers       post_login.go, post_authorize.go, get_refresh_token.go, post_logout.go
--   Login/Mfa            get_user_mfa.go, put_user_mfa.go and put_user_mfa_verify.go
--   Login/Jwt            DecodeAndVerifyJWT of pkg/util/apiutil/jwt.go
--   Login/Trace          sequences of requests to the four login routes
--   Login/Sealed, Bypass, Kept, Spent, Enrolment, Lifetime, Tests: proofs about these
--   Desktop/Types        what the functions on volumes see of the cluster, for one session
--   Desktop/Volumes      volumes.go and volume_util.go of pkg/resources/desktop
--   Desktop/Reclaim      volume_reclaim.go there, and the finalizers of its reconciler.go
--   Desktop/Keyed, Freed, Finalized, Mapped, Kept, Returned, Tests: proofs about these
--   Reconcile/Types      the checksum annotation of pkg/util/k8sutil/util.go
--   Reconcile/Kinds      pkg/util/reconcile
--   Reconcile/Roles      post_role.go, put_role.go and delete_role.go of pkg/api, and their meeting
--                        with VDIRole of pkg/util/reconcile
--   Reconcile/Settled, Recreated, Tests: proofs about these
--   Groups/Mapping       the roles of groups in pkg/auth/providers/ldap, and the claims of
--                        pkg/auth/providers/oidc
--   Groups/Webmesh       pkg/auth/providers/webmesh/provider.go
--   Groups/Login, Tests: proofs about these
--   Proxy/Wire           reading from a TLS connection: io.ReadFull and bufio.Scanner over records
--   Proxy/Integers       the int64 of pkg/proxyproto/conn.go
--   Proxy/Conn           pkg/proxyproto/conn.go
--   Proxy/Requests       pkg/proxyproto/requests.go
--   Proxy/Paths          getLocalPathFromRequest of pkg/proxyproto/server/util.go
--   Proxy/Host           what the proxy's handlers call outside of the package
--   Proxy/Server         pkg/proxyproto/server/handlers.go, and the dispatch of server.go
--   Proxy/Client         pkg/proxyproto/client/client.go
--   Proxy/Lines, Delivery, RoundTrip, Spec, Exchange, Download, Copied, Upload, PathLaws, Faults,
--                        Tests: proofs about these
--
-- How the state is modelled. The roles, templates and session labels that the checks read are the
-- record DesktopApi, which does not change while one request is checked; none stands for an error of
-- the client. EvaluateRule rewrites the action that it gets by pointer, so the evaluation returns
-- the action, and the later rules, the later roles and the audit log see it as the source's do. A
-- type assertion that fails is the answer `panicked`. The operations on the passwd file are
-- functions from bytes to bytes or an error, with an accumulator for the buffer they write. The methods
-- that use the secrets engine take its answers during the call and return their result with the list
-- of their calls, in order. A connection is a record with the records that are still to be read, the
-- Writes that were made, the two byte counts, and whether it is closed; an Action takes it and
-- returns a result or the text of an error with the connection after it. The bytes that are to come
-- end where the other side has closed the connection. A call of the client has a part before the
-- proxy answers and a part that reads the answer. The cache of the secrets engine is a function from
-- names to items, and the time is an argument. The config map of the lock is an optional record; an
-- attempt to acquire it gets what the other pods do to it before the attempt and between its calls.
--
-- A login handler takes the request with what surrounds it (the clock, the next random token, the
-- lock, the provider's answers) and the engine, and gives its reply and the engine after it.
-- The functions on volumes take the state of the cluster for one session and its user, and which
-- calls the API server answers, and give their result and the state after them. The functions of
-- pkg/util/reconcile take what the API server has under the name of their object in the same way.
--
-- Bounds. Loops over finite lists are structural recursion, without fuel. Retry of
-- pkg/util/common/util.go, which Acquire calls without a limit, runs on fuel, one for each attempt;
-- Secrets.Acquired proves that one attempt more than the doubled sleeps need to pass the timeout is
-- enough (six for the 15 seconds of the callers), if the API server answers. The rounds of the
-- finalizers run on fuel too; four are enough (for the pod, the claim, the volume, and a last one),
-- if the API server answers. A bufio.Scanner stops at
-- a line of 65536 bytes or more: the theorems on the passwd file and on the protocol of the proxy ask
-- of each line that it is shorter and has no newline or carriage return. An int64 is an integer from
-- -2^63 to 2^63 - 1, written out as its eight bytes.
--
-- Parameters. The regexp package is `compile`, from a pattern to its match function, none for a
-- pattern that does not compile. The JWT library, mapstructure, the library of one-time codes, the
-- secret that signs the tokens, json.Unmarshal and the two functions that hash and compare
-- passwords are parameters too. So is what the proxy calls (the record Host): the file system, the
-- sanitizer of file names, the sniffing of a content type and json.MarshalIndent.
--
-- Not modelled: the texts of most answers and of log lines, the annotations of requests, the contents
-- of templates, the handlers other than those of the login, of MFA and of the writes of roles, the
-- Vault provider of the secrets, the connections of the LDAP and OIDC providers, the streams of the
-- display and the sound between a desktop and its proxy, the tarball of a directory, the reconcilers
-- of the app and of sessions but for the volumes of desktops, the accessors of the custom resources,
-- and the parts that only call Kubernetes, TLS or audio libraries.
pub mod Prelude
pub mod Rbac
pub mod Api
pub mod Local
pub mod Secrets
pub mod Mfa
pub mod Login
pub mod Desktop
pub mod Reconcile
pub mod Proxy
pub mod Groups
