-- ===== src/Tests/Scene.antt =====
-- Ann signs up, signs in and refreshes her session on the sample platform.
use secure_chess.Prelude.{some, none}
use secure_chess.Exec.{Result, ok, err}
use secure_chess.Platform.{World}
use secure_chess.Platform.Tables.{User}
use secure_chess.UserHelpers.{Request}
use secure_chess.Auth.{
  SignupBody, SignInBody, SignInReply, RefreshReply, signup_handler, signin_handler, start_session,
  refresh,
}
use secure_chess.Sample.Values.{sample, start}

abbrev pub value_or : {A : Type 0} → A → Result A → A
value_or a (ok b) = b
value_or a (err e) = a

abbrev pub request : Request
request = record { forwarded_for = none; authorization = none; client_host = some "192.0.2.7" }

abbrev pub ann : SignupBody
ann = record { username = "ann"; email = "ann@example.org"; password = "secret" }

abbrev pub ann_signs_in : SignInBody
ann_signs_in = record { username = "ann"; password = "secret" }

abbrev pub ann_row : User
ann_row = record {
  user_id = 1;
  username = "ann";
  email = "ann@example.org";
  password_hash = "#secret";
  created_at = 0;
}

unfoldable pub signed_up : World sample
signed_up = (signup_handler ann request start).1

unfoldable pub signed_in : Result SignInReply × World sample
signed_in = signin_handler ann_signs_in request signed_up

unfoldable pub session : SignInReply
session =
    value_or (record { user_id = ""; username = ""; access_token = ""; refresh_token = "" })
      signed_in.0

unfoldable pub refreshed : Result RefreshReply × World sample
refreshed = refresh session.refresh_token request signed_in.1

unfoldable pub second_session : RefreshReply
second_session = value_or (record { access_token = ""; refresh_token = "" }) refreshed.0

unfoldable pub started : Result SignInReply × World sample
started = start_session ann_row request signed_up

unfoldable pub started_reply : SignInReply
started_reply =
    value_or (record { user_id = ""; username = ""; access_token = ""; refresh_token = "" })
      started.0
