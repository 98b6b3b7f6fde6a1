-- ===== src/Users.antt =====
-- backend/routes/users.py: the users, their sessions and the login behind its limiter. Users are kept
-- under their numbers, a clock's reading is an argument, and a body has texts where the web
-- interface sends texts.
pub mod Consistent
pub mod Orderly
pub mod Login
use minima_pi_net_os.Prelude.{
  nat_eq, str_eq, ℕ, zero, suc, ◌+◌, String, Str, codes, Bool, true, false, not, ◌||◌, Option, none,
  some, List, [], ◌∷◌, ◌++◌, map, length, any, ltb, Result, ok, raise, http, ◌==◌, if◌then◌else◌,
}
use minima_pi_net_os.Dict.{Dict, get, put, has, remove, values, is_some}
use minima_pi_net_os.Dict.Distinct.{mem}
use minima_pi_net_os.RateLimiter.{RateLimiter, rate_limit_dependency}

abbrev pub default_user : Str
default_user = codes "pi"

abbrev pub default_uid : ℕ
default_uid = 1000

abbrev pub default_shell : Str
default_shell = codes "/bin/bash"

abbrev pub password_min_length : ℕ
password_min_length = 8

pub record User : Type 0 where
  pub uid : ℕ
  pub username : Str
  pub full_name : Str
  pub shell : Str
  pub home : Str
  pub groups : List Str
  pub sudoer : Bool
  pub created_at : ℕ

pub record Session : Type 0 where
  pub uid : ℕ
  pub username : Str
  pub login_at : ℕ

-- The globals `_users`, `_next_uid` and `_sessions`.
pub record Store : Type 0 where
  pub users : Dict ℕ User
  pub next_uid : ℕ
  pub sessions : List Session

unfoldable pub default_account : ℕ → User
default_account now = record {
  uid = default_uid;
  username = default_user;
  full_name = codes "Default Pi User";
  shell = default_shell;
  home = codes "/home/" ++ default_user;
  groups = codes "pi" ∷ codes "sudo" ∷ codes "audio" ∷ codes "video" ∷ [];
  sudoer = true;
  created_at = now;
}

-- The globals as the module is loaded at the time given.
unfoldable pub initial : ℕ → Store
initial now = record {
  users = (default_uid, default_account now) ∷ [];
  next_uid = default_uid + 1;
  sessions = [];
}

-- The body of a creation: a missing text reads as the empty one, and `groups` is none where it is
-- missing or no list.
pub record Body : Type 0 where
  pub username : Str
  pub full_name : Str
  pub password : Str
  pub shell : Option Str
  pub groups : Option (List Str)
  pub sudoer : Bool

abbrev pub or_default {ℓ} : {A : Type ℓ} → A → Option A → A
or_default d none = d
or_default d (some a) = a

-- `not text`
abbrev pub is_blank : Str → Bool
is_blank [] = true
is_blank (c ∷ s) = false

-- `u["username"] == username`
abbrev pub is_named : Str → User → Bool
is_named username u = u.username == username

unfoldable pub new_user : ℕ → ℕ → Body → User
new_user uid now b = record {
  uid = uid;
  username = b.username;
  full_name = b.full_name;
  shell = or_default default_shell b.shell;
  home = codes "/home/" ++ b.username;
  groups = or_default [] b.groups;
  sudoer = b.sudoer;
  created_at = now;
}

abbrev pub with_user : User → Store → Store
with_user u s = record s { users = put s.next_uid u s.users; next_uid = s.next_uid + 1 }

unfoldable pub create_user : ℕ → Body → Store → Result User × Store
create_user now b s =
    if is_blank b.username || (is_blank b.full_name || is_blank b.password)
    then (raise (http 400), s)
    else if ltb (length b.password) password_min_length
    then (raise (http 400), s)
    else if any (is_named b.username) (values s.users)
    then (raise (http 409), s)
    else (ok (new_user s.next_uid now b), with_user (new_user s.next_uid now b) s)

unfoldable pub get_user : ℕ → Store → Result User
get_user uid s = elim (get uid s.users) [ none ↦ raise (http 404) | some u ↦ ok u ]

unfoldable pub delete_user : ℕ → Store → Result (Unit {0}) × Store
delete_user uid s =
    if has uid s.users
    then (ok tt, record s { users = remove uid s.users })
    else (raise (http 404), s)

-- `{g for u in users for g in u["groups"]}`: a set has no order, the model's list is in that of the
-- first occurrences from the end.
unfoldable pub add_groups : List Str → List Str → List Str
add_groups [] gs = gs
add_groups (h ∷ hs) gs = let rest = add_groups hs gs in if mem h rest then rest else h ∷ rest

unfoldable pub all_groups : List User → List Str
all_groups [] = []
all_groups (u ∷ us) = add_groups u.groups (all_groups us)

unfoldable pub list_users : Store → List User × List Str × List Session
list_users s = (values s.users, all_groups (values s.users), s.sessions)

-- `next((u for u in users if ...), None)`
unfoldable pub first_named : Str → List User → Option User
first_named username [] = none
first_named username (u ∷ us) = if is_named username u then some u else first_named username us

-- The answer to a login that is no error has a session, or none with "Invalid credentials".
abbrev pub opened : ℕ → Str → Option User → Store → Option Session × Store
opened now username none s = (none, s)
opened now username (some u) s =
    let session : Session = record { uid = u.uid; username = username; login_at = now } in
    (some session, record s { sessions = s.sessions ++ session ∷ [] })

unfoldable pub login : ℕ → Str → Str → Store → Result (Option Session) × Store
login now username password s =
    if is_blank username || is_blank password
    then (raise (http 400), s)
    else let (session, after) = opened now username (first_named username (values s.users)) s in
      (ok session, after)

-- The route: `login` where the limiter's dependency does not raise.
abbrev pub limited_login :
    ℕ
    → Str
    → Str
    → Store
    → Result (Unit {0}) × RateLimiter
    → Result (Option Session) × Store × RateLimiter
limited_login now username password s (raise e, l) = (raise e, s, l)
limited_login now username password s (ok u, l) =
    let (answer, after) = login now username password s in (answer, after, l)

unfoldable pub auth_login :
    Option String
    → ℕ
    → Str
    → Str
    → Store
    → RateLimiter
    → Result (Option Session) × Store × RateLimiter
auth_login client now username password s l =
    limited_login now username password s (rate_limit_dependency l client now)
