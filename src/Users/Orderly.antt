-- ===== src/Users/Orderly.antt =====
-- What holds of the store of backend/routes/users.py however its handlers are called.
use minima_pi_net_os.Prelude.{
  nat_eq, str_eq, ℕ, refl, Str, ◌||◌, Option, List, Result, [], ◌∷◌, length, any, ltb, arith,
  Bool-cases, Option-cases, inl, inr, if-both,
}
use minima_pi_net_os.Dict.{get, put, has, values}
use minima_pi_net_os.Dict.Distinct.{IsDistinct-remove}
use minima_pi_net_os.Users.{
  User, Session, Store, Body, default_uid, default_account, initial, is_named, is_blank,
  password_min_length, new_user, create_user, delete_user, first_named, opened, login,
}
use minima_pi_net_os.Users.Consistent.{
  AllIssued-append, IsConsistent, first_named-get, left, with_user-IsConsistent,
}

pub data Operation : Type 0 where
  create : ℕ → Body → Operation
  delete : ℕ → Operation
  log_in : ℕ → Str → Str → Operation

unfoldable pub step : Operation → Store → Store
step (create now b) s = (create_user now b s).1
step (delete uid) s = (delete_user uid s).1
step (log_in now username password) s = (login now username password s).1

unfoldable pub run : List Operation → Store → Store
run [] s = s
run (op ∷ ops) s = run ops (step op s)

create_user-IsConsistent :
    (now : ℕ) (b : Body) (s : Store) → IsConsistent s → IsConsistent (create_user now b s).1
unfolding create_user new_user
create_user-IsConsistent now b s h =
    if-both (λ (r : Result User × Store). IsConsistent r.1)
      (is_blank b.username || (is_blank b.full_name || is_blank b.password)) h
      (if-both (λ (r : Result User × Store). IsConsistent r.1)
        (ltb (length b.password) password_min_length) h
        (elim (Bool-cases (any (is_named b.username) (values s.users))) [
          | inl taken ↦ rw taken h
          | inr free ↦ rw free (with_user-IsConsistent (new_user s.next_uid now b) s refl free h)
        ]))

delete_user-IsConsistent :
    (uid : ℕ) (s : Store) → IsConsistent s → IsConsistent (delete_user uid s).1
unfolding delete_user
delete_user-IsConsistent uid s h =
    if-both (λ (r : Result (Unit {0}) × Store). IsConsistent r.1) (has uid s.users)
      (record {
        distinct = IsDistinct-remove uid s.users h.distinct;
        known = λ j w at. h.known j w (left uid j w s.users at);
        named = λ i j v w at_i at_j same.
            h.named i j v w (left uid i v s.users at_i) (left uid j w s.users at_j) same;
        issued = h.issued;
      })
      h

login-IsConsistent :
    (now : ℕ) (username password : Str) (s : Store)
    → IsConsistent s
    → IsConsistent (login now username password s).1
unfolding login
login-IsConsistent now username password s h =
    if-both (λ (r : Result (Option Session) × Store). IsConsistent r.1)
      (is_blank username || is_blank password) h
      (elim (Option-cases (first_named username (values s.users))) [
        | inl unknown ↦ rw (unknown, opened) h
        | inr (u, found) ↦
            let (k, at, as_named) = first_named-get username s.users u h.distinct found in
            let (own, below) = h.known k u at in
            rw (found, opened)
              (record {
                distinct = h.distinct;
                known = h.known;
                named = h.named;
                issued =
                    AllIssued-append s.next_uid s.sessions
                      (record { uid = u.uid; username = username; login_at = now }) h.issued
                      (omega (arith, own, below));
              })
      ])

step-IsConsistent : (op : Operation) (s : Store) → IsConsistent s → IsConsistent (step op s)
unfolding step
step-IsConsistent (create now b) s h = create_user-IsConsistent now b s h
step-IsConsistent (delete uid) s h = delete_user-IsConsistent uid s h
step-IsConsistent (log_in now username password) s h = login-IsConsistent now username password s h

run_from : (ops : List Operation) (s : Store) → IsConsistent s → IsConsistent (run ops s)
unfolding run
run_from [] s h = h
run_from (op ∷ ops) s h = run_from ops (step op s) (step-IsConsistent op s h)

-- The module starts as if the default user had been created in an empty store.
abbrev empty : Store
empty = record { users = []; next_uid = default_uid; sessions = [] }

empty-IsConsistent : IsConsistent empty
unfolding get
empty-IsConsistent = record {
  distinct = tt;
  known = λ uid u at. absurd (cc);
  named = λ i j u w at_i at_j same. absurd (cc);
  issued = tt;
}

initial-IsConsistent : (now : ℕ) → IsConsistent (initial now)
unfolding initial put any default_account
initial-IsConsistent now =
    with_user-IsConsistent (default_account now) empty refl refl empty-IsConsistent

pub run-IsConsistent : (now : ℕ) (ops : List Operation) → IsConsistent (run ops (initial now))
run-IsConsistent now ops = run_from ops (initial now) (initial-IsConsistent now)
