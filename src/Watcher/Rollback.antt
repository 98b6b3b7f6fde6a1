-- ===== src/Watcher/Rollback.antt =====
-- `_rollback_version` of backend/cpip_watcher.py: `re.sub(r'CPIP_VERSION = "[^"]*"', …)` on config.py.
use minima_pi_net_os.Prelude.{
  str_eq, nat_eq, ℕ, zero, suc, ◌+◌, Str, codes, true, false, Option, none, some, [], ◌∷◌, ◌++◌,
  drop, length, ◌==◌, if◌then◌else◌,
}
use minima_pi_net_os.Prelude.Text.{starts_with}
use minima_pi_net_os.Updater.{World, Disk}
use minima_pi_net_os.Updater.Application.{config_line}

unfoldable pub assignment : Str
assignment = codes "CPIP_VERSION = \""

-- How many characters stand before the next quotation mark.
unfoldable pub to_quote : Str → Option ℕ
to_quote [] = none
to_quote (c ∷ s) = elim (c == b'"') [
  | true ↦ some 0
  | false ↦ elim (to_quote s) [ none ↦ none | some n ↦ some (suc n) ]
]

-- The length of the match that begins here, less one.
unfoldable pub match_here : Str → Option ℕ
match_here s = elim (starts_with assignment s) [
  | true ↦ elim (to_quote (drop (length assignment) s)) [
    | none ↦ none
    | some n ↦ some (length assignment + n)
  ]
  | false ↦ none
]

-- `skip` is what is left of a match.
unfoldable pub sub_from : Str → ℕ → Str → Str
sub_from new skip [] = []
sub_from new (suc skip) (c ∷ s) = sub_from new skip s
sub_from new zero (c ∷ s) = elim (match_here (c ∷ s)) [
  | none ↦ c ∷ sub_from new 0 s
  | some n ↦ new ++ sub_from new n s
]

-- The version has no backslash, which a replacement text would give a meaning of its own.
unfoldable pub rollback_version : World → Str → Disk → Disk
rollback_version w target d =
    if w.config_access
    then record d { config_text = sub_from (config_line target) 0 d.config_text }
    else d
