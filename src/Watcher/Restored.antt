-- ===== src/Watcher/Restored.antt =====
-- The rollback of backend/cpip_watcher.py after the rewriting of backend/cpip_updater.py: config.py is
-- as it was.
use minima_pi_net_os.Prelude.{
  str_eq, nat_eq, ℕ, suc, ◌+◌, ◌-◌, ◌≤◌, ◌≡◌, refl, sym, ap, ◌∙◌, ◌&&◌, subst, Str, codes, false,
  some, [], ◌∷◌, ◌++◌, append-nil, append_assoc, length, length-append, drop, arith, ◌==◌,
}
use minima_pi_net_os.Prelude.Text.{starts_with, starts_with_self, replace, replace_from}
use minima_pi_net_os.Prelude.TextLaws.{AllNot}
use minima_pi_net_os.Updater.Application.{config_line}
use minima_pi_net_os.Watcher.Rollback.{assignment, to_quote, match_here, sub_from}

-- The text `p` begins nowhere in the text, where `rest` follows it.
abbrev pub Lacks : Str → Str → Str → Type 0
Lacks p [] rest = Unit
Lacks p (c ∷ s) rest = (starts_with p (c ∷ s ++ rest) ≡ false) × Lacks p s rest

-- Only as much of the text counts as the prefix is long.
starts_with-within :
    (p q x y : Str) → length p ≤ length q → starts_with p (q ++ x) ≡ starts_with p (q ++ y)
unfolding starts_with
starts_with-within [] q x y h = refl
starts_with-within (c ∷ p) [] x y h = absurd (omega arith)
starts_with-within (c ∷ p) (d ∷ q) x y h =
    ap (λ b. (c == d) && b) (starts_with-within p q x y (omega arith))

Lacks-within : (p s x : Str) → Lacks p s p → Lacks p s (p ++ x)
Lacks-within p [] x h = tt
Lacks-within p (c ∷ s) x h = (
  ap (starts_with p) (sym (append_assoc (c ∷ s) p x))
      ∙ starts_with-within p (c ∷ s ++ p) x [] (omega (arith, length-append {0} s p))
      ∙ ap (starts_with p) (append-nil (c ∷ s ++ p))
      ∙ h.0,
  Lacks-within p s x h.1,
)

-- What begins with more, begins with less.
starts_with-append : (p q s : Str) → starts_with p s ≡ false → starts_with (p ++ q) s ≡ false
unfolding starts_with
starts_with-append [] q s h = absurd (cc)
starts_with-append (c ∷ p) q [] h = refl
starts_with-append (c ∷ p) q (d ∷ s) h = ground (arith, starts_with-append p q s)

Lacks-append : (p q s rest : Str) → Lacks p s rest → Lacks (p ++ q) s rest
Lacks-append p q [] rest h = tt
Lacks-append p q (c ∷ s) rest h =
    (starts_with-append p q (c ∷ s ++ rest) h.0, Lacks-append p q s rest h.1)

to_quote-AllNot : (v post : Str) → AllNot b'"' v → to_quote (v ++ b'"' ∷ post) ≡ some (length v)
unfolding to_quote
to_quote-AllNot [] post h = refl
to_quote-AllNot (c ∷ v) post h = rw (h.0, to_quote, to_quote-AllNot v post h.1) refl

sub_skip : (new a b : Str) → sub_from new (length a) (a ++ b) ≡ sub_from new 0 b
unfolding sub_from
sub_skip new [] b = refl
sub_skip new (c ∷ a) b = sub_skip new a b

replace_skip :
    (old new a b : Str) → replace_from old new (length a) (a ++ b) ≡ replace_from old new 0 b
unfolding replace_from
replace_skip old new [] b = refl
replace_skip old new (c ∷ a) b = replace_skip old new a b

module _ (new : Str) where
  sub-Lacks :
      (s rest : Str)
      → Lacks assignment s rest
      → sub_from new 0 (s ++ rest) ≡ s ++ sub_from new 0 rest
  unfolding sub_from match_here
  sub-Lacks [] rest h = refl
  sub-Lacks (c ∷ s) rest h = rw (h.0, match_here, sub_from) (ap (λ t. c ∷ t) (sub-Lacks s rest h.1))

  replace-Lacks :
      (old s rest : Str)
      → Lacks old s rest
      → replace_from old new 0 (s ++ rest) ≡ s ++ replace_from old new 0 rest
  unfolding replace_from
  replace-Lacks old [] rest h = refl
  replace-Lacks old (c ∷ s) rest h = rw h.0 (ap (λ t. c ∷ t) (replace-Lacks old s rest h.1))

  sub_here :
      (c : ℕ) (s : Str) (n : ℕ)
      → match_here (c ∷ s) ≡ some n
      → sub_from new 0 (c ∷ s) ≡ new ++ sub_from new n s
  unfolding sub_from
  sub_here c s n h = rw (h, sub_from) refl

  replace_here :
      (c : ℕ) (old post : Str)
      → replace_from (c ∷ old) new 0 (c ∷ old ++ post) ≡ new ++ replace_from (c ∷ old) new 0 post
  unfolding replace_from
  replace_here c old post =
      let less : suc (length old) - 1 ≡ length old = omega arith in
      rw (starts_with_self (c ∷ old) post, less)
        (ap (λ t. new ++ t) (replace_skip (c ∷ old) new old post))

drop-append : (a b : Str) → drop (length a) (a ++ b) ≡ b
drop-append [] b = refl
drop-append (c ∷ a) b = drop-append a b

match_assignment :
    (x : Str) {n : ℕ}
    → to_quote x ≡ some n
    → match_here (assignment ++ x) ≡ some (length assignment + n)
unfolding match_here
match_assignment x h =
    rw (starts_with_self assignment x, drop-append assignment x, h, match_here) refl

line_split : (v : Str) → config_line v ≡ assignment ++ (v ++ codes "\"")
unfolding assignment
line_split v = refl

-- Behind its first character.
line_tail : Str → Str
line_tail v = codes "PIP_VERSION = \"" ++ (v ++ codes "\"")

length-line_tail : (v : Str) → length (line_tail v) ≡ length assignment + length v
unfolding line_tail assignment
length-line_tail v = omega (arith, length-append {0} v (codes "\""))

match_line :
    (v post : Str)
    → AllNot b'"' v
    → match_here (config_line v ++ post) ≡ some (length assignment + length v)
match_line v post h =
    ap (λ t. match_here (t ++ post)) (line_split v)
    ∙ ap match_here (
        append_assoc assignment (v ++ codes "\"") post
        ∙ ap (λ t. assignment ++ t) (append_assoc v (codes "\"") post))
    ∙ match_assignment (v ++ b'"' ∷ post) (to_quote-AllNot v post h)

sub_line :
    (new v post : Str)
    → AllNot b'"' v
    → sub_from new 0 (config_line v ++ post) ≡ new ++ sub_from new 0 post
unfolding line_tail
sub_line new v post h =
    sub_here new b'C' (line_tail v ++ post) (length assignment + length v) (match_line v post h)
    ∙ ap (λ t. new ++ t)
        (ap (λ k. sub_from new k (line_tail v ++ post)) (sym (length-line_tail v))
          ∙ sub_skip new (line_tail v) post)

replace_line :
    (new v post : Str)
    → replace_from (config_line v) new 0 (config_line v ++ post)
      ≡ new ++ replace_from (config_line v) new 0 post
unfolding line_tail
replace_line new v post = replace_here new b'C' (line_tail v) post

-- The one assignment of a version stands between two texts that have none.
pub record IsConfig (before after : Str) : Type 0 where
  pub none_before : Lacks assignment before assignment
  pub none_after : Lacks assignment after []

module _ (before after : Str) (c : IsConfig before after) where
  abbrev pub config_of : Str → Str
  config_of v = before ++ (config_line v ++ after)

  clear_before : (v : Str) → Lacks assignment before (config_line v ++ after)
  clear_before v =
      subst (λ t. Lacks assignment before t)
        (sym
          (ap (λ t. t ++ after) (line_split v) ∙ append_assoc assignment (v ++ codes "\"") after))
        (Lacks-within assignment before ((v ++ codes "\"") ++ after) c.none_before)

  config_line-Lacks : (v s rest : Str) → Lacks assignment s rest → Lacks (config_line v) s rest
  config_line-Lacks v s rest h =
      subst (λ p. Lacks p s rest) (sym (line_split v))
        (Lacks-append assignment (v ++ codes "\"") s rest h)

  pub replace-config :
      (v w : Str) → replace (config_line v) (config_line w) (config_of v) ≡ config_of w
  unfolding replace_from
  replace-config v w =
      replace-Lacks (config_line w) (config_line v) before (config_line v ++ after)
        (config_line-Lacks v before _ (clear_before v))
      ∙ ap (λ t. before ++ t)
          (replace_line (config_line w) v after
            ∙ ap (λ t. config_line w ++ t)
                (ap (replace_from (config_line v) (config_line w) 0) (sym (append-nil after))
                  ∙ replace-Lacks (config_line w) (config_line v) after []
                      (config_line-Lacks v after [] c.none_after)
                  ∙ append-nil after))

  pub sub-config :
      (v w : Str) → AllNot b'"' w → sub_from (config_line v) 0 (config_of w) ≡ config_of v
  unfolding sub_from
  sub-config v w h =
      sub-Lacks (config_line v) before (config_line w ++ after) (clear_before w)
      ∙ ap (λ t. before ++ t)
          (sub_line (config_line v) w after h
            ∙ ap (λ t. config_line v ++ t)
                (ap (sub_from (config_line v) 0) (sym (append-nil after))
                  ∙ sub-Lacks (config_line v) after [] c.none_after
                  ∙ append-nil after))
