-- ===== src/Login/Tests.antt =====
-- Runs of the login, token and MFA handlers, and each theorem about them at an input.
use webmesh_vdi.Prelude.{
  ◌≡◌, ◌≢◌, refl, eq_iff, inl, inr, ℕ, ◌*◌, String, Bool, true, false, Option, none, some, List, [],
  ◌∷◌, ◌++◌, arith, All, Any, leb, if◌then◌else◌,
}
use webmesh_vdi.Prelude.Bytes.{Bytes, codes, bytes_eq, bytes_eq_iff, lacks, Free-of_lacks}
use webmesh_vdi.Prelude.Lines.{newline, carriage_return, scan}
use webmesh_vdi.Rbac.Types.{User}
use webmesh_vdi.Secrets.{secret, SecretEngine, locked, write_back}
use webmesh_vdi.Secrets.Store.{ReadResult, found, absent, stored_as, Backend, IsStore}
use webmesh_vdi.Secrets.Engine.{
  Engine, cached, read_cache, fetched, read_secret, fetched_map, read_cache_map, read_secret_map,
  write_cache, write_cache_map, write_secret_map,
}
use webmesh_vdi.Secrets.Lock.{second}
use webmesh_vdi.Prelude.Bytes.{split_on, cons_head, has_prefix}
use webmesh_vdi.Prelude.Lines.{lines, tokens, drop_cr}
use webmesh_vdi.Mfa.Manager.{
  ok, colon, bool_text, parse_bool, status_line, find_line, read_fields, finish_status,
  get_user_status_from_reader, update_statuses, finish_update, update_user_status_in_reader,
}
use webmesh_vdi.Mfa.Service.{get_user_mfa_status, set_user_mfa_status, set_locked, store}
use webmesh_vdi.Api.Request.{Request, AuthorizeRequest, UpdateMfaRequest}
use webmesh_vdi.Login.Types.{
  AuthResult, TokenClaims, session, Tokens, otp_users_secret_key, Deployment, Env, mfa_status,
  user_anonymous, lookup_token, delete_token, put_token,
}
use webmesh_vdi.Login.Tokens.{
  new_claims, generate_jwt, session_response, write_tokens, add_token, generate_refresh_token,
  remove_token, take_token, lookup_refresh_token, with_cookie, with_token, with_secret,
  return_new_jwt,
}
use webmesh_vdi.Login.Handlers.{
  is_user_not_found_error, anonymous_result, session_result, refreshed_result, read_mfa_status,
  by_mfa_status, check_mfa_and_return_jwt, authenticated, post_login, login_callback, check_otp,
  post_authorize, refreshed, for_owner, get_refresh_token, post_logout,
}
use webmesh_vdi.Login.Mfa.{
  OtpLibrary, mfa_verified, put_user_mfa, known_user, change_mfa, answer_done, put_user_mfa_verify,
  verify_code, mark_verified,
}
use webmesh_vdi.Login.Enrolment.{
  IsWrite, left_by, IsEnrolled, Serves, put_user_mfa_verify-needs_code, enrols,
}
use webmesh_vdi.Api.Session.{unauthorized_token, validate_user_session}
use webmesh_vdi.Login.Jwt.{Token, error_expired}
use webmesh_vdi.Login.Lifetime.{IsJwtLibrary, IsDecoder, decode_at, validate-generate_jwt}
use webmesh_vdi.Login.Kept.{env_of}
use webmesh_vdi.Login.Spent.{lookup_refresh_token-once, lookup-generate_refresh_token}
use webmesh_vdi.Login.Sealed.{IsMapStore, Sealed}
use webmesh_vdi.Login.Trace.{Event, login, authorize, handle, replies, engine_after}
use webmesh_vdi.Login.Bypass.{IsAuthorizedAs, GivesOtp, AnswersByName, needs_otp}

login_run : Unit {0}
unfolding bytes_eq split_on cons_head has_prefix lines scan tokens drop_cr bool_text parse_bool
    status_line find_line read_fields finish_status get_user_status_from_reader update_statuses
    finish_update update_user_status_in_reader get_user_mfa_status stored_as cached read_cache
    fetched read_secret fetched_map read_cache_map read_secret_map write_cache write_cache_map
    write_secret_map lookup_token delete_token put_token new_claims generate_jwt session_response
    write_tokens add_token generate_refresh_token remove_token take_token lookup_refresh_token
    with_cookie with_token with_secret return_new_jwt is_user_not_found_error anonymous_result
    session_result refreshed_result read_mfa_status by_mfa_status check_mfa_and_return_jwt
    authenticated post_login login_callback check_otp post_authorize refreshed for_owner
    get_refresh_token post_logout handle replies engine_after
login_run = tt

mfa_routes_run : Unit {0}
unfolding put_user_mfa known_user change_mfa answer_done put_user_mfa_verify verify_code
    mark_verified left_by set_user_mfa_status locked set_locked store write_back
mfa_routes_run = tt

-- A backend in memory.
record Memory : Type 0 where
  values : Bytes → ReadResult Bytes
  maps : Bytes → ReadResult Tokens

abbrev memory : Backend Memory Tokens
memory = record {
  read = λ name st. st.values name;
  write = λ name c st. (
    true,
    record st { values = λ other. if bytes_eq other name then stored_as c else st.values other },
  );
  read_map = λ name st. st.maps name;
  write_map = λ name m st. (
    true,
    record st { maps = λ other. if bytes_eq other name then stored_as m else st.maps other },
  );
}

bytes_eq-same : (s : Bytes) → bytes_eq s s ≡ true
bytes_eq-same s = (bytes_eq_iff s s).1 refl

memory-IsStore : IsStore memory
memory-IsStore = record {
  read_write = λ name c st h. rw (bytes_eq-same name) refl;
  read_other = λ name other c st h. rw h refl;
  write_failed = λ name c st h. absurd (cc h);
  read_other_map = λ name other m st h. refl;
  write_map_failed = λ name m st h. absurd (cc h);
}

memory-IsMapStore : IsMapStore memory
memory-IsMapStore = record { read_map_write = λ name m st h. rw (bytes_eq-same name) refl }

abbrev alice : User
alice = record { name = "alice"; roles = [] }

-- "alice:S:true", and no refresh tokens yet.
abbrev start_values : Bytes → ReadResult Bytes
start_values name =
    if bytes_eq name otp_users_secret_key
    then found (codes "alice:S:true" ++ newline ∷ [])
    else found (codes "key")

abbrev start : Engine Memory Tokens
start = record {
  state = record { values = start_values; maps = λ name. absent };
  cache = λ name. none;
  cache_ttl = 3600;
}

-- The code of every secret is 123456.
abbrev deployment : Deployment
deployment = record {
  anonymous_allowed = false;
  launch_templates_role = record { name = "launch"; rules = [] };
  is_using_oidc_auth = false;
  token_duration = 900 * second;
  sign = λ s claims. some "token";
  totp_at = λ s now. "123456";
  bytes_of = codes;
}

abbrev env : Env
env = record {
  now = 5 * second;
  new_uuid = "r1";
  lock_ok = true;
  authenticate = λ req.
      some (record { user = alice; redirect_url = ""; extra = []; refresh_not_supported = false });
  callback_ok = true;
  get_user = λ name. absent;
}

abbrev alice_claims : TokenClaims
alice_claims = record {
  user = alice;
  authorized = false;
  renewable = true;
  extra = [];
  expires_at = 905;
  issued_at = 5;
}

abbrev visit : List Event
visit =
    login env (record { username = "alice"; password = "pw"; state = "s" })
    ∷ authorize env alice_claims (record { otp = "123456"; state = "s" })
    ∷ []

abbrev later : Env
later = record env { new_uuid = "r2" }

abbrev later_visit : List Event
later_visit = authorize later alice_claims (record { otp = "123456"; state = "s" }) ∷ []

-- The token r1 is alice's.
abbrev holding : Engine Memory Tokens
holding = record start {
  state = record { values = start_values; maps = λ name. found (("r1", "alice") ∷ []) };
}

start-Sealed : Sealed memory codes "alice" (codes "S") start.state
unfolding login_run
start-Sealed = record { status = refl; no_token = λ ts h. absurd (cc h) }

-- The login alone gives no authorized session.
visit-replies :
    replies memory deployment visit start
    ≡ session none (record {
      token = "token";
      expires_at = 905;
      renewable = true;
      user = alice;
      authorized = false;
      state = "s";
    })
      ∷ session (some "r1") (record {
        token = "token";
        expires_at = 905;
        renewable = true;
        user = alice;
        authorized = true;
        state = "s";
      })
      ∷ []
unfolding login_run
visit-replies = refl

visit-IsAuthorizedAs : Any (IsAuthorizedAs "alice") (replies memory deployment visit start)
unfolding login_run IsAuthorizedAs
visit-IsAuthorizedAs = inr (inl (refl, refl))

visit-AnswersByName : All AnswersByName visit
unfolding AnswersByName
visit-AnswersByName = (tt, (tt, tt))

alice-named : alice.name ≢ user_anonymous
alice-named h = ground (arith, eq_iff "alice" "anonymous", h)

needs_otp_example : Any (GivesOtp deployment "alice" (codes "S")) visit
needs_otp_example =
    needs_otp memory deployment "alice" (codes "S") memory-IsStore memory-IsMapStore visit start
      alice-named visit-AnswersByName start-Sealed visit-IsAuthorizedAs

found_once : (lookup_refresh_token memory env "r1" holding).0 ≡ some "alice"
unfolding login_run
found_once = refl

visit-Fresh : All (λ (ev : Event). (env_of ev).new_uuid ≢ "r1") later_visit
visit-Fresh = ((λ h. ground (arith, eq_iff "r2" "r1", h)), tt)

lookup_refresh_token-once_example :
    (lookup_refresh_token memory env "r1" (
      engine_after memory deployment later_visit
        (lookup_refresh_token memory env "r1" holding).1)).0
    ≡ none
lookup_refresh_token-once_example =
    lookup_refresh_token-once memory deployment memory-IsStore memory-IsMapStore "r1" "alice" env
      env later_visit holding found_once visit-Fresh

generated : (generate_refresh_token memory env "alice" start).0 ≡ some "r1"
unfolding login_run
generated = refl

lookup-generate_refresh_token_example :
    (lookup_refresh_token memory env "r1" (generate_refresh_token memory env "alice" start).1).0
    ≡ some "alice"
lookup-generate_refresh_token_example =
    lookup-generate_refresh_token memory deployment memory-IsStore memory-IsMapStore "r1" "alice"
      env env start generated refl (λ ts. refl)

abbrev otp_library : OtpLibrary
otp_library = record { code_at = λ s now. "123456"; provisioning_uri = λ s name. "otpauth://totp" }

abbrev asked_code : AuthorizeRequest
asked_code = record { otp = "123456"; state = "" }

abbrev enabling : UpdateMfaRequest
enabling = record { enabled = true }

abbrev bob : Bytes
bob = codes "bob"

abbrev secret_text : Bytes
secret_text = codes "T"

abbrev engine : SecretEngine
engine = record { lock_ok = true; read = secret []; write_ok = true }

-- "bob:T:false"
abbrev enrolling : SecretEngine
enrolling = record engine { read = secret (codes "bob:T:false" ++ newline ∷ []) }

bob-IsEnrolled : IsEnrolled otp_library bob secret_text
unfolding login_run lacks
bob-IsEnrolled = record {
  name_free = Free-of_lacks colon bob refl;
  otp_free = Free-of_lacks colon secret_text refl;
  unverified_line = record {
    one_line = Free-of_lacks newline (status_line bob secret_text false) refl;
    no_cr = Free-of_lacks carriage_return (status_line bob secret_text false) refl;
    fits = omega arith;
  };
  verified_line = record {
    one_line = Free-of_lacks newline (status_line bob secret_text true) refl;
    no_cr = Free-of_lacks carriage_return (status_line bob secret_text true) refl;
    fits = omega arith;
  };
}

engine-Serves : Serves otp_library engine []
unfolding login_run
engine-Serves = record { lock_given = refl; written = refl; held = inl refl; scans = refl }

still_stored :
    enrolling.read
    ≡ left_by
        (put_user_mfa otp_library false (found alice) engine bob enabling secret_text).1
        engine.read
unfolding login_run mfa_routes_run
still_stored = refl

enrols_example :
    (get_user_mfa_status enrolling.read bob ≡ ok (secret_text, false))
    × ((put_user_mfa_verify otp_library enrolling.read enrolling 5 bob asked_code).0
        ≡ mfa_status mfa_verified)
    × (get_user_mfa_status
          (left_by
            (put_user_mfa_verify otp_library enrolling.read enrolling 5 bob asked_code).1
            enrolling.read)
          bob
        ≡ ok (secret_text, true))
enrols_example =
    enrols otp_library alice engine enrolling [] bob secret_text 5 enabling asked_code refl
      engine-Serves bob-IsEnrolled refl refl refl still_stored

code_written :
    Any IsWrite (put_user_mfa_verify otp_library enrolling.read enrolling 5 bob asked_code).1
unfolding login_run mfa_routes_run
code_written = inr (inr (inr (inl tt)))

put_user_mfa_verify-needs_code_example :
    (held : Bytes) × (verified : Bool) × (get_user_mfa_status enrolling.read bob
      ≡ ok (held, verified))
    × ("123456" ≡ asked_code.otp)
put_user_mfa_verify-needs_code_example =
    put_user_mfa_verify-needs_code otp_library enrolling.read enrolling 5 bob asked_code
      (inl code_written)

abbrev alice_result : AuthResult
alice_result = record { user = alice; redirect_url = ""; extra = []; refresh_not_supported = false }

-- A library for the one token that is signed, of the claims of alice at second 5. Its claims map is
-- the claims themselves, and its decoder leaves the times at zero.
abbrev alice_token : TokenClaims
alice_token = record alice_claims { authorized = true }

abbrev parse_alice : Bytes → ℕ → String → Option (Token TokenClaims)
parse_alice s now t =
    if leb now 905
    then some (record { is_valid = true; errors = none; claims = some alice_token })
    else some (record { is_valid = false; errors = some error_expired; claims = some alice_token })

abbrev without_times : TokenClaims → Option TokenClaims
without_times claims = some (record claims { expires_at = 0; issued_at = 0 })

abbrev same_claims : TokenClaims → TokenClaims
same_claims claims = claims

alice-IsJwtLibrary :
    IsJwtLibrary deployment.sign parse_alice same_claims
      (codes "key")
      (new_claims deployment alice_result true (5 * second))
unfolding login_run
alice-IsJwtLibrary = record {
  signed_in_time =
      λ token now s i h. let fits : leb now 905 ≡ true = ground (arith, h) in rw fits refl;
  signed_expired =
      λ token now s i h. let late : leb now 905 ≡ false = ground (arith, h) in rw late refl;
}

alice-IsDecoder :
    IsDecoder without_times same_claims (new_claims deployment alice_result true (5 * second))
alice-IsDecoder = record { session = _; decodes = refl; same_user = refl; same_flag = refl }

abbrev whoami : Request
whoami = record { path = "/api/whoami"; method = "GET"; vars = []; object = none }

alice_signed :
    (generate_jwt deployment (codes "key") alice_result true (5 * second)).1 ≡ some "token"
unfolding login_run
alice_signed = refl

validate-generate_jwt_example :
    validate_user_session
      (some (codes "key"))
      (decode_at deployment parse_alice without_times same_claims 906)
      whoami
      "token"
      none
    ≡ unauthorized_token
validate-generate_jwt_example =
    validate-generate_jwt deployment parse_alice without_times same_claims (codes "key")
      alice_result true (5 * second) 906 "token" whoami none alice-IsJwtLibrary alice-IsDecoder
      alice_signed (omega arith) refl
