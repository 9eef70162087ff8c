-- ===== src/Tests/Renewal.antt =====
-- Ann's session is renewed.
use secure_chess.Prelude.{
  ℕ, suc, ◌+◌, ◌<◌, ◌≡◌, refl, String, Bool, true, false, Option, none, some, exists, arith,
}
use secure_chess.Exec.{Result, ok, err}
use secure_chess.Platform.{World, Claims}
use secure_chess.Jwt.{
  create_access_token, create_refresh_token, decode_token, days, refresh_payload,
}
use secure_chess.Sql.{select_active, has_user}
use secure_chess.Auth.{refresh_handler}
use secure_chess.Auth.Session.{token_row}
use secure_chess.Auth.Renewal.{refresh_handler-ok, has_id_or_hash}
use secure_chess.Sample.Values.{sample}
use secure_chess.Tests.Scene.{request, started, started_reply, signed_up, ann_row, value_or}

access : String
access = value_or "" (create_access_token {p = sample} "u" started.1).0

first_of : Result (String × ℕ × ℕ) → String
first_of (ok (t, _, _)) = t
first_of (err e) = ""

new : String
new = first_of (create_refresh_token {p = sample} "u" started.1).0

decoded :
    decode_token started_reply.refresh_token "refresh" started.1
    ≡ (ok (refresh_payload "uuu" "u" 0 (days 1)), started.1)
unfolding started started_reply secure_chess.RateLimit.rate_limit
    secure_chess.RateLimit.find_identifier secure_chess.Sample.Tokens.check
    secure_chess.Auth.signin_handler secure_chess.Platform.Calls.connect
    secure_chess.Sql.select_user secure_chess.Prelude.find_first secure_chess.Tests.Scene.signed_up
    secure_chess.Auth.signup_handler secure_chess.Auth.hash_password
    secure_chess.Auth.insert_new_user secure_chess.Sql.insert_user secure_chess.Prelude.exists
    secure_chess.Audit.write_audit_event secure_chess.Audit.insert_event
    secure_chess.Auth.check_password secure_chess.Auth.issue_pair secure_chess.Auth.refresh_handler
    secure_chess.Auth.reject_login secure_chess.Auth.rotate secure_chess.Auth.start_session
    secure_chess.Jwt.create_access_token secure_chess.Jwt.create_refresh_token
    secure_chess.Jwt.decode_token secure_chess.Platform.Calls.execute
    secure_chess.Platform.Calls.redis_call secure_chess.Platform.Calls.utc_now
    secure_chess.Platform.Calls.uuid4 secure_chess.Prelude.add_row secure_chess.Prelude.update_where
    secure_chess.Prelude.first_part secure_chess.Prelude.split secure_chess.Prelude.is_space
    secure_chess.Prelude.left_strip secure_chess.Prelude.right_strip secure_chess.Prelude.strip
    secure_chess.RateLimit.check_rate_limit secure_chess.RateLimit.count_request
    secure_chess.RateLimit.get_client_ip secure_chess.RateLimit.user_or_ip
    secure_chess.RedisClient.get_redis_client secure_chess.Sample.Store.find
    secure_chess.Sample.Store.without secure_chess.Sample.Tokens.sign
    secure_chess.Sample.Values.marks secure_chess.Sample.Values.marks_in
    secure_chess.Sql.insert_audit_log secure_chess.Sql.insert_refresh_token secure_chess.Sql.revoke
    secure_chess.Sql.select_active
decoded = refl

active_now :
    select_active (sample.sha256 started_reply.refresh_token) started.1.clock started.1.db
    ≡ some (token_row ann_row started_reply.refresh_token signed_up)
unfolding started started_reply secure_chess.RateLimit.rate_limit
    secure_chess.RateLimit.find_identifier secure_chess.Sample.Tokens.check
    secure_chess.Auth.signin_handler secure_chess.Platform.Calls.connect
    secure_chess.Sql.select_user secure_chess.Prelude.find_first secure_chess.Tests.Scene.signed_up
    secure_chess.Auth.signup_handler secure_chess.Auth.hash_password
    secure_chess.Auth.insert_new_user secure_chess.Sql.insert_user secure_chess.Prelude.exists
    secure_chess.Audit.write_audit_event secure_chess.Audit.insert_event
    secure_chess.Auth.check_password secure_chess.Auth.issue_pair secure_chess.Auth.refresh_handler
    secure_chess.Auth.reject_login secure_chess.Auth.rotate secure_chess.Auth.start_session
    secure_chess.Jwt.create_access_token secure_chess.Jwt.create_refresh_token
    secure_chess.Jwt.decode_token secure_chess.Platform.Calls.execute
    secure_chess.Platform.Calls.redis_call secure_chess.Platform.Calls.utc_now
    secure_chess.Platform.Calls.uuid4 secure_chess.Prelude.add_row secure_chess.Prelude.update_where
    secure_chess.Prelude.first_part secure_chess.Prelude.split secure_chess.Prelude.is_space
    secure_chess.Prelude.left_strip secure_chess.Prelude.right_strip secure_chess.Prelude.strip
    secure_chess.RateLimit.check_rate_limit secure_chess.RateLimit.count_request
    secure_chess.RateLimit.get_client_ip secure_chess.RateLimit.user_or_ip
    secure_chess.RedisClient.get_redis_client secure_chess.Sample.Store.find
    secure_chess.Sample.Store.without secure_chess.Sample.Tokens.sign
    secure_chess.Sample.Values.marks secure_chess.Sample.Values.marks_in
    secure_chess.Sql.insert_audit_log secure_chess.Sql.insert_refresh_token secure_chess.Sql.revoke
    secure_chess.Sql.select_active
active_now = refl

access_is : create_access_token "u" started.1 ≡ (ok access, started.1)
unfolding started access secure_chess.RateLimit.rate_limit secure_chess.RateLimit.find_identifier
    secure_chess.Sample.Tokens.check secure_chess.Auth.signin_handler
    secure_chess.Platform.Calls.connect secure_chess.Sql.select_user secure_chess.Prelude.find_first
    secure_chess.Tests.Scene.signed_up secure_chess.Auth.signup_handler
    secure_chess.Auth.hash_password secure_chess.Auth.insert_new_user secure_chess.Sql.insert_user
    secure_chess.Prelude.exists secure_chess.Audit.write_audit_event secure_chess.Audit.insert_event
    secure_chess.Auth.check_password secure_chess.Auth.issue_pair secure_chess.Auth.refresh_handler
    secure_chess.Auth.reject_login secure_chess.Auth.rotate secure_chess.Auth.start_session
    secure_chess.Jwt.create_access_token secure_chess.Jwt.create_refresh_token
    secure_chess.Jwt.decode_token secure_chess.Platform.Calls.execute
    secure_chess.Platform.Calls.redis_call secure_chess.Platform.Calls.utc_now
    secure_chess.Platform.Calls.uuid4 secure_chess.Prelude.add_row secure_chess.Prelude.update_where
    secure_chess.Prelude.first_part secure_chess.Prelude.split secure_chess.Prelude.is_space
    secure_chess.Prelude.left_strip secure_chess.Prelude.right_strip secure_chess.Prelude.strip
    secure_chess.RateLimit.check_rate_limit secure_chess.RateLimit.count_request
    secure_chess.RateLimit.get_client_ip secure_chess.RateLimit.user_or_ip
    secure_chess.RedisClient.get_redis_client secure_chess.Sample.Store.find
    secure_chess.Sample.Store.without secure_chess.Sample.Tokens.sign
    secure_chess.Sample.Values.marks secure_chess.Sample.Values.marks_in
    secure_chess.Sql.insert_audit_log secure_chess.Sql.insert_refresh_token secure_chess.Sql.revoke
    secure_chess.Sql.select_active
access_is = refl

new_is :
    create_refresh_token "u" started.1
    ≡ (ok (new, 5, days 1), (create_refresh_token "u" started.1).1)
unfolding started new first_of secure_chess.RateLimit.rate_limit
    secure_chess.RateLimit.find_identifier secure_chess.Sample.Tokens.check
    secure_chess.Auth.signin_handler secure_chess.Platform.Calls.connect
    secure_chess.Sql.select_user secure_chess.Prelude.find_first secure_chess.Tests.Scene.signed_up
    secure_chess.Auth.signup_handler secure_chess.Auth.hash_password
    secure_chess.Auth.insert_new_user secure_chess.Sql.insert_user secure_chess.Prelude.exists
    secure_chess.Audit.write_audit_event secure_chess.Audit.insert_event
    secure_chess.Auth.check_password secure_chess.Auth.issue_pair secure_chess.Auth.refresh_handler
    secure_chess.Auth.reject_login secure_chess.Auth.rotate secure_chess.Auth.start_session
    secure_chess.Jwt.create_access_token secure_chess.Jwt.create_refresh_token
    secure_chess.Jwt.decode_token secure_chess.Platform.Calls.execute
    secure_chess.Platform.Calls.redis_call secure_chess.Platform.Calls.utc_now
    secure_chess.Platform.Calls.uuid4 secure_chess.Prelude.add_row secure_chess.Prelude.update_where
    secure_chess.Prelude.first_part secure_chess.Prelude.split secure_chess.Prelude.is_space
    secure_chess.Prelude.left_strip secure_chess.Prelude.right_strip secure_chess.Prelude.strip
    secure_chess.RateLimit.check_rate_limit secure_chess.RateLimit.count_request
    secure_chess.RateLimit.get_client_ip secure_chess.RateLimit.user_or_ip
    secure_chess.RedisClient.get_redis_client secure_chess.Sample.Store.find
    secure_chess.Sample.Store.without secure_chess.Sample.Tokens.sign
    secure_chess.Sample.Values.marks secure_chess.Sample.Values.marks_in
    secure_chess.Sql.insert_audit_log secure_chess.Sql.insert_refresh_token secure_chess.Sql.revoke
    secure_chess.Sql.select_active
new_is = refl

known : has_user 1 started.1.db.users ≡ true
unfolding started secure_chess.RateLimit.rate_limit secure_chess.RateLimit.find_identifier
    secure_chess.Sample.Tokens.check secure_chess.Auth.signin_handler
    secure_chess.Platform.Calls.connect secure_chess.Sql.select_user secure_chess.Prelude.find_first
    secure_chess.Tests.Scene.signed_up secure_chess.Auth.signup_handler
    secure_chess.Auth.hash_password secure_chess.Auth.insert_new_user secure_chess.Sql.insert_user
    secure_chess.Prelude.exists secure_chess.Audit.write_audit_event secure_chess.Audit.insert_event
    secure_chess.Auth.check_password secure_chess.Auth.issue_pair secure_chess.Auth.refresh_handler
    secure_chess.Auth.reject_login secure_chess.Auth.rotate secure_chess.Auth.start_session
    secure_chess.Jwt.create_access_token secure_chess.Jwt.create_refresh_token
    secure_chess.Jwt.decode_token secure_chess.Platform.Calls.execute
    secure_chess.Platform.Calls.redis_call secure_chess.Platform.Calls.utc_now
    secure_chess.Platform.Calls.uuid4 secure_chess.Prelude.add_row secure_chess.Prelude.update_where
    secure_chess.Prelude.first_part secure_chess.Prelude.split secure_chess.Prelude.is_space
    secure_chess.Prelude.left_strip secure_chess.Prelude.right_strip secure_chess.Prelude.strip
    secure_chess.RateLimit.check_rate_limit secure_chess.RateLimit.count_request
    secure_chess.RateLimit.get_client_ip secure_chess.RateLimit.user_or_ip
    secure_chess.RedisClient.get_redis_client secure_chess.Sample.Store.find
    secure_chess.Sample.Store.without secure_chess.Sample.Tokens.sign
    secure_chess.Sample.Values.marks secure_chess.Sample.Values.marks_in
    secure_chess.Sql.insert_audit_log secure_chess.Sql.insert_refresh_token secure_chess.Sql.revoke
    secure_chess.Sql.select_active
known = refl

free : exists (has_id_or_hash 5 (sample.sha256 new)) started.1.db.refresh_tokens ≡ false
unfolding started new first_of secure_chess.RateLimit.rate_limit
    secure_chess.RateLimit.find_identifier secure_chess.Sample.Tokens.check
    secure_chess.Auth.signin_handler secure_chess.Platform.Calls.connect
    secure_chess.Sql.select_user secure_chess.Prelude.find_first secure_chess.Tests.Scene.signed_up
    secure_chess.Auth.signup_handler secure_chess.Auth.hash_password
    secure_chess.Auth.insert_new_user secure_chess.Sql.insert_user secure_chess.Prelude.exists
    secure_chess.Audit.write_audit_event secure_chess.Audit.insert_event
    secure_chess.Auth.check_password secure_chess.Auth.issue_pair secure_chess.Auth.refresh_handler
    secure_chess.Auth.reject_login secure_chess.Auth.rotate secure_chess.Auth.start_session
    secure_chess.Jwt.create_access_token secure_chess.Jwt.create_refresh_token
    secure_chess.Jwt.decode_token secure_chess.Platform.Calls.execute
    secure_chess.Platform.Calls.redis_call secure_chess.Platform.Calls.utc_now
    secure_chess.Platform.Calls.uuid4 secure_chess.Prelude.add_row secure_chess.Prelude.update_where
    secure_chess.Prelude.first_part secure_chess.Prelude.split secure_chess.Prelude.is_space
    secure_chess.Prelude.left_strip secure_chess.Prelude.right_strip secure_chess.Prelude.strip
    secure_chess.RateLimit.check_rate_limit secure_chess.RateLimit.count_request
    secure_chess.RateLimit.get_client_ip secure_chess.RateLimit.user_or_ip
    secure_chess.RedisClient.get_redis_client secure_chess.Sample.Store.find
    secure_chess.Sample.Store.without secure_chess.Sample.Tokens.sign
    secure_chess.Sample.Values.marks secure_chess.Sample.Values.marks_in
    secure_chess.Sql.insert_audit_log secure_chess.Sql.insert_refresh_token secure_chess.Sql.revoke
    secure_chess.Sql.select_active
free = refl

clock_is : started.1.clock ≡ 0
unfolding started secure_chess.RateLimit.rate_limit secure_chess.RateLimit.find_identifier
    secure_chess.Sample.Tokens.check secure_chess.Auth.signin_handler
    secure_chess.Platform.Calls.connect secure_chess.Sql.select_user secure_chess.Prelude.find_first
    secure_chess.Tests.Scene.signed_up secure_chess.Auth.signup_handler
    secure_chess.Auth.hash_password secure_chess.Auth.insert_new_user secure_chess.Sql.insert_user
    secure_chess.Prelude.exists secure_chess.Audit.write_audit_event secure_chess.Audit.insert_event
    secure_chess.Auth.check_password secure_chess.Auth.issue_pair secure_chess.Auth.refresh_handler
    secure_chess.Auth.reject_login secure_chess.Auth.rotate secure_chess.Auth.start_session
    secure_chess.Jwt.create_access_token secure_chess.Jwt.create_refresh_token
    secure_chess.Jwt.decode_token secure_chess.Platform.Calls.execute
    secure_chess.Platform.Calls.redis_call secure_chess.Platform.Calls.utc_now
    secure_chess.Platform.Calls.uuid4 secure_chess.Prelude.add_row secure_chess.Prelude.update_where
    secure_chess.Prelude.first_part secure_chess.Prelude.split secure_chess.Prelude.is_space
    secure_chess.Prelude.left_strip secure_chess.Prelude.right_strip secure_chess.Prelude.strip
    secure_chess.RateLimit.check_rate_limit secure_chess.RateLimit.count_request
    secure_chess.RateLimit.get_client_ip secure_chess.RateLimit.user_or_ip
    secure_chess.RedisClient.get_redis_client secure_chess.Sample.Store.find
    secure_chess.Sample.Store.without secure_chess.Sample.Tokens.sign
    secure_chess.Sample.Values.marks secure_chess.Sample.Values.marks_in
    secure_chess.Sql.insert_audit_log secure_chess.Sql.insert_refresh_token secure_chess.Sql.revoke
    secure_chess.Sql.select_active
clock_is = refl

refresh_handler-ok_example :
    let (r, v) = refresh_handler started_reply.refresh_token request started.1 in
    (r ≡ ok (record { access_token = access; refresh_token = new }))
    × (select_active (sample.sha256 new) 0 v.db
        ≡ some (record {
          token_id = 5;
          user_id = 1;
          token_hash = sample.sha256 new;
          expiration_date = days 1;
          revoked_date = none;
          created_at = started.1.clock;
        }))
unfolding secure_chess.Sample.Values.marks_in
refresh_handler-ok_example =
    refresh_handler-ok started_reply.refresh_token "u" "uuu" access new
      (refresh_payload "uuu" "u" 0 (days 1))
      (token_row ann_row started_reply.refresh_token signed_up) 5 1 (days 1) 0 request started.1
      (create_refresh_token "u" started.1).1 decoded refl refl refl active_now access_is new_is refl
      known free (omega arith)
