-- ===== src/Tests/Users.antt =====
-- backend/routes/users.py from the module's start.
use minima_pi_net_os.Prelude.{
  keep, str_beq, any, nat_eq, str_eq, ◌≡◌, refl, codes, false, none, some, List, [], ◌∷◌, ◌++◌, ok,
  raise, http,
}
use minima_pi_net_os.Dict.{remove, has, put, get}
use minima_pi_net_os.RateLimiter.{auth_login_limiter, check}
use minima_pi_net_os.Users.{
  first_named, Session, Store, Body, initial, default_account, new_user, create_user, delete_user,
  login, auth_login,
}
use minima_pi_net_os.Users.Orderly.{step, Operation, create, delete, log_in, run, run-IsConsistent}
use minima_pi_net_os.Users.Consistent.{IsConsistent}
use minima_pi_net_os.Users.Login.{auth_login-any_password}

abbrev ada : Body
ada = record {
  username = codes "ada";
  full_name = codes "Ada L";
  password = codes "difference";
  shell = none;
  groups = some (codes "pi" ∷ []);
  sudoer = false;
}

abbrev calls : List Operation
calls = create 5 ada ∷ log_in 6 (codes "ada") (codes "x") ∷ delete 1000 ∷ create 7 ada ∷ []

abbrev after : Store
after = run calls (initial 4)

ada_twice : (create_user 7 ada after).0 ≡ raise (http 409)
unfolding create_user any run step delete_user has login first_named initial str_beq default_account
    put new_user remove
ada_twice = refl

ada_is_kept : get 1001 after.users ≡ some (new_user 1001 5 ada)
unfolding get run step create_user any delete_user has login first_named initial str_beq
    default_account put new_user remove
ada_is_kept = refl

pi_is_gone : get 1000 after.users ≡ none
unfolding get run step create_user any delete_user has login first_named initial str_beq
    default_account put new_user remove
pi_is_gone = refl

run-IsConsistent_example : IsConsistent after
run-IsConsistent_example = run-IsConsistent 4 calls

auth_login-any_password_example :
    let session : Session = record { uid = 1001; username = codes "ada"; login_at = 9 } in
    auth_login (some "10.0.0.7") 9 (codes "ada") (codes "wrong") after auth_login_limiter ≡ (
      ok (some session),
      record after { sessions = after.sessions ++ session ∷ [] },
      (check auth_login_limiter "10.0.0.7" 9).1,
    )
unfolding new_user check keep get
auth_login-any_password_example =
    auth_login-any_password (some "10.0.0.7") 9 1001 (codes "wrong") after auth_login_limiter
      (new_user 1001 5 ada) run-IsConsistent_example ada_is_kept refl refl refl
