-- ===== src/Watcher/Moves.antt =====
-- What an iteration of backend/cpip_watcher.py can change.
use minima_pi_net_os.Prelude.{ℕ, ◌+◌, ◌≤◌, ◌≡◌, ◌∙◌, List, [], ◌∷◌, ◌++◌, arith}
use minima_pi_net_os.Watcher.{Event, watcher_stopped, Watcher}

-- The event is not that of an end.
abbrev pub Goes : Event → Type 0
Goes watcher_stopped = ⊥
Goes _ = Unit

abbrev pub NeverStopped : List Event → Type 0
NeverStopped [] = Unit
NeverStopped (e ∷ es) = Goes e × NeverStopped es

pub NeverStopped-append :
    (es : List Event) (e : Event) → NeverStopped es → Goes e → NeverStopped (es ++ e ∷ [])
NeverStopped-append [] e h g = (g, tt)
NeverStopped-append (f ∷ es) e h g = (h.0, NeverStopped-append es e h.1 g)

-- From `s` to `t` at most `n` updates and errors are counted, and no end is announced.
pub record Moves (n : ℕ) (s t : Watcher) : Type 0 where
  pub running : t.running ≡ s.running
  pub checks : t.check_count ≡ s.check_count
  pub spent : t.update_count + t.error_count ≤ s.update_count + s.error_count + n
  pub clean : NeverStopped s.broadcast_log → NeverStopped t.broadcast_log

-- A move that counts nothing may come first, or last.
pub after_quiet : {n : ℕ} {s t u : Watcher} → Moves 0 s t → Moves n t u → Moves n s u
after_quiet a b = record {
  running = b.running ∙ a.running;
  checks = b.checks ∙ a.checks;
  spent = omega (arith, a.spent, b.spent);
  clean = λ h. b.clean (a.clean h);
}

pub then_quiet : {n : ℕ} {s t u : Watcher} → Moves n s t → Moves 0 t u → Moves n s u
then_quiet a b = record {
  running = b.running ∙ a.running;
  checks = b.checks ∙ a.checks;
  spent = omega (arith, a.spent, b.spent);
  clean = λ h. b.clean (a.clean h);
}

pub quiet_then_one : {s t : Watcher} → Moves 0 s t → Moves 1 s t
quiet_then_one a = record {
  running = a.running;
  checks = a.checks;
  spent = omega (arith, a.spent);
  clean = a.clean;
}
