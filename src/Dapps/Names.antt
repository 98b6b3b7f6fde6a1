-- ===== src/Dapps/Names.antt =====
-- The identifiers that backend/routes/dapps.py accepts, and what its pages escape.
use minima_pi_net_os.Prelude.{nat_eq, ◌≡◌, refl, ap, Str, codes, true, [], ◌∷◌, ◌++◌}
use minima_pi_net_os.Dapps.Entries.{matches_id, is_dapp_id}
use minima_pi_net_os.Prelude.Text.{without_newline}

without_newline-append : (s : Str) → without_newline (s ++ b'\n' ∷ []) ≡ s
unfolding without_newline
without_newline-append [] = refl
without_newline-append (c ∷ []) = refl
without_newline-append (c ∷ d ∷ s) = ap (λ t. c ∷ t) (without_newline-append (d ∷ s))

-- A newline behind an identifier is let through.
pub is_dapp_id-newline : (s : Str) → matches_id s ≡ true → is_dapp_id (s ++ codes "\n") ≡ true
unfolding is_dapp_id
is_dapp_id-newline s h = rw without_newline-append h
