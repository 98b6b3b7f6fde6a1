-- ===== src/Users/Consistent.antt =====
-- What it is for the store of backend/routes/users.py to be consistent, and that a new user keeps it so.
use minima_pi_net_os.Prelude.{
  nat_eq, str_eq, ℕ, ◌+◌, ◌<◌, ◌≡◌, Str, false, none, some, List, [], ◌∷◌, ◌++◌, any, arith,
  beq_iff, ◌==◌, Bool-cases, ◌⊎◌, ◌≢◌, inl, inr, sym, ap, ◌∙◌,
}
use minima_pi_net_os.Dict.{Dict, get, put, has, remove, values, get-put, get-remove}
use minima_pi_net_os.Dict.Distinct.{IsDistinct, IsDistinct-put}
use minima_pi_net_os.Users.{User, Session, Store, is_named, with_user, first_named}

-- Every session is of a number below the one given.
abbrev pub AllIssued : ℕ → List Session → Type 0
AllIssued n [] = Unit
AllIssued n (x ∷ xs) = (x.uid < n) × AllIssued n xs

AllIssued-weaken : (n : ℕ) (xs : List Session) → AllIssued n xs → AllIssued (n + 1) xs
AllIssued-weaken n [] h = tt
AllIssued-weaken n (x ∷ xs) h = (omega (arith, h.0), AllIssued-weaken n xs h.1)

pub AllIssued-append :
    (n : ℕ) (xs : List Session) (x : Session)
    → AllIssued n xs
    → x.uid < n
    → AllIssued n (xs ++ x ∷ [])
AllIssued-append n [] x h p = (p, tt)
AllIssued-append n (y ∷ xs) x h p = (h.0, AllIssued-append n xs x h.1 p)

-- Users are kept under their own numbers, which are below the next one, and no two have one name.
pub record IsConsistent (s : Store) : Type 0 where
  pub distinct : IsDistinct s.users
  pub known : (uid : ℕ) (u : User) → get uid s.users ≡ some u → (u.uid ≡ uid) × (uid < s.next_uid)
  pub named :
      (i j : ℕ) (u w : User)
      → get i s.users ≡ some u
      → get j s.users ≡ some w
      → u.username ≡ w.username
      → i ≡ j
  pub issued : AllIssued s.next_uid s.sessions

-- A name that no user has is that of no entry.
unnamed :
    (name : Str) (d : Dict ℕ User) (k : ℕ) (u : User)
    → any (is_named name) (values d) ≡ false
    → get k d ≡ some u
    → (u.username == name) ≡ false
unfolding any get
unnamed name [] k u h at = absurd (cc)
unnamed name ((j, w) ∷ d) k u h at = elim (Bool-cases (j == k)) [
  | inl same ↦ elim (Bool-cases (w.username == name)) [
    | inl found ↦ absurd (ground arith)
    | inr lacking ↦ let e : some w ≡ some u = rw same at at in ground arith
  ]
  | inr other ↦
      let rest : get k d ≡ some u = rw other at at in
      let free : any (is_named name) (values d) ≡ false = ground arith in
      unnamed name d k u free rest
]

-- The user that is found by name is kept, and has that name.
pub first_named-get :
    (name : Str) (d : Dict ℕ User) (u : User)
    → IsDistinct d
    → first_named name (values d) ≡ some u
    → (k : ℕ) × (get k d ≡ some u) × (u.username ≡ name)
unfolding first_named get has
first_named-get name [] u h at = absurd (cc)
first_named-get name ((j, w) ∷ d) u h at = elim (Bool-cases (w.username == name)) [
  | inl same ↦
      let e : some w ≡ some u = rw same at at in
      (j, ground (arith, beq_iff j j), ground (arith, beq_iff w.username name))
  | inr other ↦
      let rest : first_named name (values d) ≡ some u = rw other at at in
      let (k, there, as_named) = first_named-get name d u h.1 rest in
      (k, ground (arith, beq_iff j k), as_named)
]

-- What is read after a write was written or was there before.
written :
    (k j : ℕ) (u w : User) (d : Dict ℕ User)
    → get j (put k u d) ≡ some w
    → ((k ≡ j) × (u ≡ w)) ⊎ (get j d ≡ some w)
written k j u w d at = elim (Bool-cases (k == j)) [
  | inl same ↦
      let e : some u ≡ some w = rw (get-put, same) at at in
      inl (ground (arith, beq_iff k j), ok_of e)
  | inr other ↦ inr (rw (get-put, other) at at)
]
  where
    ok_of : some u ≡ some w → u ≡ w
    ok_of e = cc

pub left : (k j : ℕ) (w : User) (d : Dict ℕ User) → get j (remove k d) ≡ some w → get j d ≡ some w
left k j w d at = elim (Bool-cases (k == j)) [
  | inl same ↦ let e : none ≡ some w = rw (get-remove, same) at at in absurd (cc)
  | inr other ↦ rw (get-remove, other) at at
]

pub with_user-IsConsistent :
    (u : User) (s : Store)
    → u.uid ≡ s.next_uid
    → any (is_named u.username) (values s.users) ≡ false
    → IsConsistent s
    → IsConsistent (with_user u s)
with_user-IsConsistent u s own free h =
    let n = s.next_uid in
    record {
      distinct = IsDistinct-put n u s.users h.distinct;
      known = λ uid w at. elim (written n uid u w s.users at) [
        | inl (here, same) ↦ (ap (λ x. x.uid) (sym same) ∙ (own ∙ here), omega (arith, here))
        | inr before ↦ let k = h.known uid w before in (k.0, omega (arith, k.1))
      ];
      named = λ i j v w at_i at_j same. elim (written n i u v s.users at_i) [
        | inl (here, p) ↦ elim (written n j u w s.users at_j) [
          | inl (there, q) ↦ sym here ∙ there
          | inr before ↦ absurd (not_named w j before (sym same ∙ ap (λ x. x.username) (sym p)))
        ]
        | inr old ↦ elim (written n j u w s.users at_j) [
          | inl (there, q) ↦ absurd (not_named v i old (same ∙ ap (λ x. x.username) (sym q)))
          | inr before ↦ h.named i j v w old before same
        ]
      ];
      issued = AllIssued-weaken n s.sessions h.issued;
    }
  where
    not_named : (w : User) (j : ℕ) → get j s.users ≡ some w → w.username ≢ u.username
    not_named w j at same =
        ground (arith, beq_iff w.username u.username, unnamed u.username s.users j w free at)
