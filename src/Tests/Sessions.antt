-- ===== src/Tests/Sessions.antt =====
-- The theorems on accounts and sessions, at Ann's.
use Prim.Native.String as S
use mathlib.Core.Option.{some-injective}
use secure_chess.Prelude.{
  ◌+◌, ◌<◌, ℕ, suc, ◌≡◌, refl, sym, ap, String, false, true, some, none, exists, arith, eq_iff,
  eq_refl,
}
use secure_chess.Exec.{Result, ok, err, is_ok}
use secure_chess.Platform.{Platform, World}
use secure_chess.Auth.{SignInReply, refresh, signup_handler, signin_handler, start_session, logout}
use secure_chess.Auth.Spent.{has_hash}
use secure_chess.Service.{Steps, stop, more, served, serve, call_startup, call_shutdown}
use secure_chess.Service.Spent.{refresh_once, refresh-logout}
use secure_chess.Auth.Session.{start_session-ok, token_row}
use secure_chess.Jwt.{create_access_token, days}
use secure_chess.Sql.{select_active}
use secure_chess.Auth.Accounts.{account_of, account_reply}
use secure_chess.Service.Accounts.{signup-signin}
use secure_chess.Sample.Values.{sample_laws, sample, start}
use secure_chess.Tests.Scene.{
  started, started_reply, request, value_or, signed_in, session, refreshed, second_session,
  signed_up, ann, ann_row, ann_signs_in,
}

ok-value_or :
    {A : Type 0} {W : Type 0} (a : A) (r : Result A × W)
    → is_ok r.0 ≡ true
    → r ≡ (ok (value_or a r.0), r.1)
ok-value_or a (ok b, w) h = refl
ok-value_or a (err e, w) h = ground arith

signed_in_ok : is_ok signed_in.0 ≡ true
unfolding secure_chess.RateLimit.rate_limit secure_chess.RateLimit.find_identifier
    secure_chess.Sample.Tokens.check signed_in secure_chess.Auth.signin_handler
    secure_chess.Platform.Calls.connect secure_chess.Sql.select_user secure_chess.Prelude.find_first
    signed_up secure_chess.Auth.signup_handler secure_chess.Auth.hash_password
    secure_chess.Auth.insert_new_user secure_chess.Sql.insert_user secure_chess.Prelude.exists
    secure_chess.Audit.write_audit_event secure_chess.Audit.insert_event
    secure_chess.Auth.check_password secure_chess.Auth.issue_pair secure_chess.Auth.refresh_handler
    secure_chess.Auth.reject_login secure_chess.Auth.rotate secure_chess.Auth.start_session
    secure_chess.Jwt.create_access_token secure_chess.Jwt.create_refresh_token
    secure_chess.Jwt.decode_token secure_chess.Platform.Calls.execute
    secure_chess.Platform.Calls.redis_call secure_chess.Platform.Calls.utc_now
    secure_chess.Platform.Calls.uuid4 secure_chess.Prelude.add_row secure_chess.Prelude.update_where
    secure_chess.Prelude.first_part secure_chess.Prelude.split secure_chess.Prelude.is_space
    secure_chess.Prelude.left_strip secure_chess.Prelude.right_strip secure_chess.Prelude.strip
    secure_chess.RateLimit.check_rate_limit secure_chess.RateLimit.count_request
    secure_chess.RateLimit.get_client_ip secure_chess.RateLimit.user_or_ip
    secure_chess.RedisClient.get_redis_client secure_chess.Sample.Store.find
    secure_chess.Sample.Store.without secure_chess.Sample.Tokens.sign
    secure_chess.Sample.Values.marks secure_chess.Sample.Values.marks_in
    secure_chess.Sql.insert_audit_log secure_chess.Sql.insert_refresh_token secure_chess.Sql.revoke
    secure_chess.Sql.select_active
signed_in_ok = refl

refreshed_ok : is_ok refreshed.0 ≡ true
unfolding session refreshed refresh secure_chess.RateLimit.rate_limit
    secure_chess.RateLimit.find_identifier secure_chess.Sample.Tokens.check signed_in
    secure_chess.Auth.signin_handler secure_chess.Platform.Calls.connect
    secure_chess.Sql.select_user secure_chess.Prelude.find_first signed_up
    secure_chess.Auth.signup_handler secure_chess.Auth.hash_password
    secure_chess.Auth.insert_new_user secure_chess.Sql.insert_user secure_chess.Prelude.exists
    secure_chess.Audit.write_audit_event secure_chess.Audit.insert_event
    secure_chess.Auth.check_password secure_chess.Auth.issue_pair secure_chess.Auth.refresh_handler
    secure_chess.Auth.reject_login secure_chess.Auth.rotate secure_chess.Auth.start_session
    secure_chess.Jwt.create_access_token secure_chess.Jwt.create_refresh_token
    secure_chess.Jwt.decode_token secure_chess.Platform.Calls.execute
    secure_chess.Platform.Calls.redis_call secure_chess.Platform.Calls.utc_now
    secure_chess.Platform.Calls.uuid4 secure_chess.Prelude.add_row secure_chess.Prelude.update_where
    secure_chess.Prelude.first_part secure_chess.Prelude.split secure_chess.Prelude.is_space
    secure_chess.Prelude.left_strip secure_chess.Prelude.right_strip secure_chess.Prelude.strip
    secure_chess.RateLimit.check_rate_limit secure_chess.RateLimit.count_request
    secure_chess.RateLimit.get_client_ip secure_chess.RateLimit.user_or_ip
    secure_chess.RedisClient.get_redis_client secure_chess.Sample.Store.find
    secure_chess.Sample.Store.without secure_chess.Sample.Tokens.sign
    secure_chess.Sample.Values.marks secure_chess.Sample.Values.marks_in
    secure_chess.Sql.insert_audit_log secure_chess.Sql.insert_refresh_token secure_chess.Sql.revoke
    secure_chess.Sql.select_active
refreshed_ok = refl

refreshed_is : refresh session.refresh_token request signed_in.1 ≡ (ok second_session, refreshed.1)
unfolding second_session refreshed
refreshed_is = ok-value_or _ (refresh session.refresh_token request signed_in.1) refreshed_ok

-- after the refresh, the server is restarted
abbrev later : Steps refreshed.1 (serve call_startup (serve call_shutdown refreshed.1).1).1
later = more (served call_shutdown) (more (served call_startup) stop)

refresh_once_example :
    is_ok
      (refresh session.refresh_token request
        (serve call_startup (serve call_shutdown refreshed.1).1).1).0
    ≡ false
refresh_once_example =
    refresh_once session.refresh_token request request signed_in.1 refreshed.1
      (serve call_startup (serve call_shutdown refreshed.1).1).1 second_session refreshed_is later

logged_out : Result String × World sample
logged_out = logout session.refresh_token request signed_in.1

logged_out_ok : is_ok logged_out.0 ≡ true
unfolding session logged_out logout secure_chess.Auth.logout_handler
    secure_chess.RateLimit.rate_limit secure_chess.RateLimit.find_identifier
    secure_chess.Sample.Tokens.check signed_in secure_chess.Auth.signin_handler
    secure_chess.Platform.Calls.connect secure_chess.Sql.select_user secure_chess.Prelude.find_first
    signed_up secure_chess.Auth.signup_handler secure_chess.Auth.hash_password
    secure_chess.Auth.insert_new_user secure_chess.Sql.insert_user secure_chess.Prelude.exists
    secure_chess.Audit.write_audit_event secure_chess.Audit.insert_event
    secure_chess.Auth.check_password secure_chess.Auth.issue_pair secure_chess.Auth.refresh_handler
    secure_chess.Auth.reject_login secure_chess.Auth.rotate secure_chess.Auth.start_session
    secure_chess.Jwt.create_access_token secure_chess.Jwt.create_refresh_token
    secure_chess.Jwt.decode_token secure_chess.Platform.Calls.execute
    secure_chess.Platform.Calls.redis_call secure_chess.Platform.Calls.utc_now
    secure_chess.Platform.Calls.uuid4 secure_chess.Prelude.add_row secure_chess.Prelude.update_where
    secure_chess.Prelude.first_part secure_chess.Prelude.split secure_chess.Prelude.is_space
    secure_chess.Prelude.left_strip secure_chess.Prelude.right_strip secure_chess.Prelude.strip
    secure_chess.RateLimit.check_rate_limit secure_chess.RateLimit.count_request
    secure_chess.RateLimit.get_client_ip secure_chess.RateLimit.user_or_ip
    secure_chess.RedisClient.get_redis_client secure_chess.Sample.Store.find
    secure_chess.Sample.Store.without secure_chess.Sample.Tokens.sign
    secure_chess.Sample.Values.marks secure_chess.Sample.Values.marks_in
    secure_chess.Sql.insert_audit_log secure_chess.Sql.insert_refresh_token secure_chess.Sql.revoke
    secure_chess.Sql.select_active
logged_out_ok = refl

logged_out_is :
    logout session.refresh_token request signed_in.1 ≡ (ok (value_or "" logged_out.0), logged_out.1)
unfolding logged_out
logged_out_is = ok-value_or "" (logout session.refresh_token request signed_in.1) logged_out_ok

stored :
    exists (has_hash (sample.sha256 session.refresh_token)) signed_in.1.db.refresh_tokens ≡ true
unfolding session secure_chess.RateLimit.rate_limit secure_chess.RateLimit.find_identifier
    secure_chess.Sample.Tokens.check signed_in secure_chess.Auth.signin_handler
    secure_chess.Platform.Calls.connect secure_chess.Sql.select_user secure_chess.Prelude.find_first
    signed_up secure_chess.Auth.signup_handler secure_chess.Auth.hash_password
    secure_chess.Auth.insert_new_user secure_chess.Sql.insert_user secure_chess.Prelude.exists
    secure_chess.Audit.write_audit_event secure_chess.Audit.insert_event
    secure_chess.Auth.check_password secure_chess.Auth.issue_pair secure_chess.Auth.refresh_handler
    secure_chess.Auth.reject_login secure_chess.Auth.rotate secure_chess.Auth.start_session
    secure_chess.Jwt.create_access_token secure_chess.Jwt.create_refresh_token
    secure_chess.Jwt.decode_token secure_chess.Platform.Calls.execute
    secure_chess.Platform.Calls.redis_call secure_chess.Platform.Calls.utc_now
    secure_chess.Platform.Calls.uuid4 secure_chess.Prelude.add_row secure_chess.Prelude.update_where
    secure_chess.Prelude.first_part secure_chess.Prelude.split secure_chess.Prelude.is_space
    secure_chess.Prelude.left_strip secure_chess.Prelude.right_strip secure_chess.Prelude.strip
    secure_chess.RateLimit.check_rate_limit secure_chess.RateLimit.count_request
    secure_chess.RateLimit.get_client_ip secure_chess.RateLimit.user_or_ip
    secure_chess.RedisClient.get_redis_client secure_chess.Sample.Store.find
    secure_chess.Sample.Store.without secure_chess.Sample.Tokens.sign
    secure_chess.Sample.Values.marks secure_chess.Sample.Values.marks_in
    secure_chess.Sql.insert_audit_log secure_chess.Sql.insert_refresh_token secure_chess.Sql.revoke
    secure_chess.Sql.select_active
stored = refl

refresh-logout_example : is_ok (refresh session.refresh_token request logged_out.1).0 ≡ false
refresh-logout_example =
    refresh-logout session.refresh_token request request signed_in.1 logged_out.1 logged_out.1
      (value_or "" logged_out.0) stored logged_out_is stop

signup_runs : signup_handler ann request start ≡ (ok (account_reply ann start), signed_up)
unfolding secure_chess.RateLimit.rate_limit secure_chess.RateLimit.find_identifier
    secure_chess.Sample.Tokens.check signed_in secure_chess.Auth.signin_handler
    secure_chess.Platform.Calls.connect secure_chess.Sql.select_user secure_chess.Prelude.find_first
    signed_up secure_chess.Auth.signup_handler secure_chess.Auth.hash_password
    secure_chess.Auth.insert_new_user secure_chess.Sql.insert_user secure_chess.Prelude.exists
    secure_chess.Audit.write_audit_event secure_chess.Audit.insert_event
    secure_chess.Auth.check_password secure_chess.Auth.issue_pair secure_chess.Auth.refresh_handler
    secure_chess.Auth.reject_login secure_chess.Auth.rotate secure_chess.Auth.start_session
    secure_chess.Jwt.create_access_token secure_chess.Jwt.create_refresh_token
    secure_chess.Jwt.decode_token secure_chess.Platform.Calls.execute
    secure_chess.Platform.Calls.redis_call secure_chess.Platform.Calls.utc_now
    secure_chess.Platform.Calls.uuid4 secure_chess.Prelude.add_row secure_chess.Prelude.update_where
    secure_chess.Prelude.first_part secure_chess.Prelude.split secure_chess.Prelude.is_space
    secure_chess.Prelude.left_strip secure_chess.Prelude.right_strip secure_chess.Prelude.strip
    secure_chess.RateLimit.check_rate_limit secure_chess.RateLimit.count_request
    secure_chess.RateLimit.get_client_ip secure_chess.RateLimit.user_or_ip
    secure_chess.RedisClient.get_redis_client secure_chess.Sample.Store.find
    secure_chess.Sample.Store.without secure_chess.Sample.Tokens.sign
    secure_chess.Sample.Values.marks secure_chess.Sample.Values.marks_in
    secure_chess.Sql.insert_audit_log secure_chess.Sql.insert_refresh_token secure_chess.Sql.revoke
    secure_chess.Sql.select_active
signup_runs = refl

hash_verifies :
    (password hash : String) (salt : ℕ)
    → sample.hash password salt ≡ some hash
    → sample.verify password hash ≡ some true
hash_verifies password hash salt h =
    ap some ((eq_iff hash (S.◌∷◌ "#" password)).1 (sym (some-injective _ _ h)))

signup-signin_example :
    (hash : String) × (signin_handler ann_signs_in request (serve call_shutdown signed_up).1
      ≡ start_session
          (account_of ann hash start)
          request
          (record (serve {p = sample} call_shutdown signed_up).1 {
            connections = suc (serve {p = sample} call_shutdown signed_up).1.connections;
          }))
signup-signin_example =
    signup-signin hash_verifies ann request request start signed_up
      (serve call_shutdown signed_up).1 (account_reply ann start) refl signup_runs
      (more (served call_shutdown) stop) refl

started_ok : is_ok started.0 ≡ true
unfolding started secure_chess.RateLimit.rate_limit secure_chess.RateLimit.find_identifier
    secure_chess.Sample.Tokens.check secure_chess.Auth.signin_handler
    secure_chess.Platform.Calls.connect secure_chess.Sql.select_user secure_chess.Prelude.find_first
    signed_up secure_chess.Auth.signup_handler secure_chess.Auth.hash_password
    secure_chess.Auth.insert_new_user secure_chess.Sql.insert_user secure_chess.Prelude.exists
    secure_chess.Audit.write_audit_event secure_chess.Audit.insert_event
    secure_chess.Auth.check_password secure_chess.Auth.issue_pair secure_chess.Auth.refresh_handler
    secure_chess.Auth.reject_login secure_chess.Auth.rotate secure_chess.Auth.start_session
    secure_chess.Jwt.create_access_token secure_chess.Jwt.create_refresh_token
    secure_chess.Jwt.decode_token secure_chess.Platform.Calls.execute
    secure_chess.Platform.Calls.redis_call secure_chess.Platform.Calls.utc_now
    secure_chess.Platform.Calls.uuid4 secure_chess.Prelude.add_row secure_chess.Prelude.update_where
    secure_chess.Prelude.first_part secure_chess.Prelude.split secure_chess.Prelude.is_space
    secure_chess.Prelude.left_strip secure_chess.Prelude.right_strip secure_chess.Prelude.strip
    secure_chess.RateLimit.check_rate_limit secure_chess.RateLimit.count_request
    secure_chess.RateLimit.get_client_ip secure_chess.RateLimit.user_or_ip
    secure_chess.RedisClient.get_redis_client secure_chess.Sample.Store.find
    secure_chess.Sample.Store.without secure_chess.Sample.Tokens.sign
    secure_chess.Sample.Values.marks secure_chess.Sample.Values.marks_in
    secure_chess.Sql.insert_audit_log secure_chess.Sql.insert_refresh_token secure_chess.Sql.revoke
    secure_chess.Sql.select_active
started_ok = refl

started_is : start_session ann_row request signed_up ≡ (ok started_reply, started.1)
unfolding started started_reply
started_is = ok-value_or _ (start_session ann_row request signed_up) started_ok

in_time : 0 < signed_up.clock + days 1
unfolding secure_chess.RateLimit.rate_limit secure_chess.RateLimit.find_identifier
    secure_chess.Sample.Tokens.check secure_chess.Auth.signin_handler
    secure_chess.Platform.Calls.connect secure_chess.Sql.select_user secure_chess.Prelude.find_first
    signed_up secure_chess.Auth.signup_handler secure_chess.Auth.hash_password
    secure_chess.Auth.insert_new_user secure_chess.Sql.insert_user secure_chess.Prelude.exists
    secure_chess.Audit.write_audit_event secure_chess.Audit.insert_event
    secure_chess.Auth.check_password secure_chess.Auth.issue_pair secure_chess.Auth.refresh_handler
    secure_chess.Auth.reject_login secure_chess.Auth.rotate secure_chess.Auth.start_session
    secure_chess.Jwt.create_access_token secure_chess.Jwt.create_refresh_token
    secure_chess.Jwt.decode_token secure_chess.Platform.Calls.execute
    secure_chess.Platform.Calls.redis_call secure_chess.Platform.Calls.utc_now
    secure_chess.Platform.Calls.uuid4 secure_chess.Prelude.add_row secure_chess.Prelude.update_where
    secure_chess.Prelude.first_part secure_chess.Prelude.split secure_chess.Prelude.is_space
    secure_chess.Prelude.left_strip secure_chess.Prelude.right_strip secure_chess.Prelude.strip
    secure_chess.RateLimit.check_rate_limit secure_chess.RateLimit.count_request
    secure_chess.RateLimit.get_client_ip secure_chess.RateLimit.user_or_ip
    secure_chess.RedisClient.get_redis_client secure_chess.Sample.Store.find
    secure_chess.Sample.Store.without secure_chess.Sample.Tokens.sign
    secure_chess.Sample.Values.marks secure_chess.Sample.Values.marks_in
    secure_chess.Sql.insert_audit_log secure_chess.Sql.insert_refresh_token secure_chess.Sql.revoke
    secure_chess.Sql.select_active
in_time = omega arith

start_session-ok_example :
    (create_access_token (sample.str_uuid 1) signed_up ≡ (ok started_reply.access_token, signed_up))
    × (select_active (sample.sha256 started_reply.refresh_token) 0 started.1.db
        ≡ some (token_row ann_row started_reply.refresh_token signed_up))
start_session-ok_example =
    start_session-ok sample_laws ann_row request signed_up started.1 started_reply 0 started_is
      in_time
