-- ===== src/Users/Login.antt =====
-- Whom the login of backend/routes/users.py lets in.
use minima_pi_net_os.Prelude.{
  nat_eq, str_eq, ℕ, ◌≡◌, refl, Str, String, true, false, Option, some, [], ◌∷◌, ◌++◌, ok, sym, ◌∙◌,
  arith, beq_iff, ◌==◌, Bool-cases, inl, inr,
}
use minima_pi_net_os.Dict.{Dict, get, values}
use minima_pi_net_os.RateLimiter.{RateLimiter, check, client_ip, rate_limit_dependency}
use minima_pi_net_os.Users.{
  User, Session, Store, is_blank, first_named, opened, login, limited_login, auth_login,
}
use minima_pi_net_os.Users.Consistent.{IsConsistent, first_named-get}

-- A kept user is found by its name.
first_named-some :
    (k : ℕ) (d : Dict ℕ User) (u : User)
    → get k d ≡ some u
    → (w : User) × (first_named u.username (values d) ≡ some w)
unfolding first_named get
first_named-some k [] u at = absurd (cc)
first_named-some k ((j, w) ∷ d) u at = elim (Bool-cases (w.username == u.username)) [
  | inl same ↦ (w, rw same refl)
  | inr other ↦ elim (Bool-cases (j == k)) [
    | inl here ↦
        let e : some w ≡ some u = rw here at at in
        absurd (ground (arith, beq_iff w.username u.username))
    | inr there ↦
        let rest : get k d ≡ some u = rw there at at in
        let (v, found) = first_named-some k d u rest in (v, rw other found)
  ]
]

-- Of the users of an orderly store it is that user itself.
first_named_kept :
    (k : ℕ) (s : Store) (u : User)
    → IsConsistent s
    → get k s.users ≡ some u
    → first_named u.username (values s.users) ≡ some u
first_named_kept k s u h at =
    let (w, found) = first_named-some k s.users u at in
    let (j, there, as_named) = first_named-get u.username s.users w h.distinct found in
    let same = h.named k j u w at there (sym as_named) in
    let again : get k s.users ≡ some w = rw same there in found ∙ sym again ∙ at

-- Where the limiter admits the client, the name of a kept user and any password that is not blank
-- open a session of that user, whatever password the user was created with.
pub auth_login-any_password :
    (client : Option String) (now k : ℕ) (password : Str) (s : Store) (l : RateLimiter) (u : User)
    → IsConsistent s
    → get k s.users ≡ some u
    → is_blank u.username ≡ false
    → is_blank password ≡ false
    → (check l (client_ip client) now).0 ≡ true
    → let session : Session = record { uid = k; username = u.username; login_at = now } in
      auth_login client now u.username password s l ≡ (
        ok (some session),
        record s { sessions = s.sessions ++ session ∷ [] },
        (check l (client_ip client) now).1,
      )
unfolding auth_login rate_limit_dependency login
auth_login-any_password client now k password s l u h at name given_password admitted =
    let own = (h.known k u at).0 in
    let found = first_named_kept k s u h at in
    rw (admitted, limited_login, name, given_password, found, opened, own) refl
