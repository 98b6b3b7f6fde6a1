-- ===== src/Cluster/Allowed.antt =====
-- The commands that `cluster_exec_local` of backend/routes/cluster.py runs, and the addresses that a
-- request to join may name.
use minima_pi_net_os.Prelude.{
  str_eq, ℕ, ◌≤◌, ◌≡◌, refl, ap, sym, Str, codes, true, Option, none, some, [], length,
  length-take-le, ok, raise, http, arith, bind-ok, ok-injective, ◌==◌, Bool-cases, inl, inr,
}
use minima_pi_net_os.Prelude.Int.{ℤ, pos, negsuc}
use minima_pi_net_os.Dict.Distinct.{mem}
use minima_pi_net_os.Json.{
  Value, Fields, null, bool, int, float, str, obj, arr, cons, nil, get, get_or,
}
use minima_pi_net_os.Cluster.Requests.{
  Host, ExecResult, Outcome, completed, timed_out, failed, allowed_commands, member, int_value,
  clamped, checked_command, checked_args,
}
use minima_pi_net_os.Cluster.Handlers.{looked_up, started, exec_result, cluster_exec_local}

clamped-bounds : (n : ℤ) → (1000 ≤ clamped n) × (clamped n ≤ 60000)
clamped-bounds (pos n) = (ground arith, ground arith)
clamped-bounds (negsuc n) = (ground arith, ground arith)

checked_command-ok :
    (v : Value) (cmd : Str)
    → checked_command v ≡ ok cmd
    → (v ≡ str cmd) × (mem cmd allowed_commands ≡ true)
unfolding checked_command
checked_command-ok (str s) cmd h = elim (Bool-cases (mem s allowed_commands)) [
  | inl allowed ↦
      let e : ok s ≡ ok cmd = rw allowed at h in
      let same = ok-injective e in (ap str same, rw (sym same) allowed)
  | inr foreign ↦ let e : raise (http 403) ≡ ok cmd = rw foreign at h in absurd (cc)
]
checked_command-ok null cmd h = absurd (cc)
checked_command-ok (bool b) cmd h = absurd (cc)
checked_command-ok (int i) cmd h = absurd (cc)
checked_command-ok (float t) cmd h = absurd (cc)
checked_command-ok (obj fs) cmd h = absurd (cc)
checked_command-ok (arr xs) cmd h = absurd (cc)

-- A program that is started
pub record IsStarted (h : Host) (body : Fields) (executable : Str) (timeout : ℕ) : Type 0 where
  pub cmd : Str
  pub named : member "command" (str []) body ≡ str cmd
  pub allowed : mem cmd allowed_commands ≡ true
  pub no_args : member "args" (arr nil) body ≡ arr nil
  pub found : h.which cmd ≡ some executable
  pub least : 1000 ≤ timeout
  pub most : timeout ≤ 60000

checked_args-ok : (v : Value) (u : Unit {0}) → checked_args v ≡ ok u → v ≡ arr nil
unfolding checked_args
checked_args-ok (arr nil) u h = refl
checked_args-ok (arr (cons x xs)) u h = absurd (cc)
checked_args-ok null u h = absurd (cc)
checked_args-ok (bool b) u h = absurd (cc)
checked_args-ok (int i) u h = absurd (cc)
checked_args-ok (float t) u h = absurd (cc)
checked_args-ok (obj fs) u h = absurd (cc)
checked_args-ok (str s) u h = absurd (cc)

looked_up-ok :
    (h : Host) (found : Option Str) (timeout : ℕ) (c : Str × ℕ)
    → looked_up h found timeout ≡ ok c
    → (found ≡ some c.0) × (timeout ≡ c.1)
looked_up-ok h none timeout c g = absurd (cc)
looked_up-ok h (some executable) timeout c g = elim (Bool-cases (executable == [])) [
  | inl empty ↦ let e : raise (http 404) ≡ ok c = rw empty at g in absurd (cc)
  | inr there ↦
      let e : ok (executable, timeout) ≡ ok c = rw there at g in
      let same = ok-injective e in (ap (λ x. some x.0) same, ap (λ x. x.1) same)
]

started-IsStarted :
    (h : Host) (body : Fields) (c : Str × ℕ) → started h body ≡ ok c → IsStarted h body c.0 c.1
unfolding started
started-IsStarted h body c g =
    let (n, read, g1) = bind-ok (int_value h (member "timeout" (int (pos 30000)) body)) _ g in
    let (cmd, checked, g2) = bind-ok (checked_command (member "command" (str []) body)) _ g1 in
    let (u, plain, g3) = bind-ok (checked_args (member "args" (arr nil) body)) _ g2 in
    let (named, allowed) = checked_command-ok (member "command" (str []) body) cmd checked in
    let (found, same) = looked_up-ok h (h.which cmd) (clamped n) c g3 in
    let (least, most) = clamped-bounds n in
    record {
      cmd = cmd;
      named = named;
      allowed = allowed;
      no_args = checked_args-ok (member "args" (arr nil) body) u plain;
      found = found;
      least = rw (sym same) least;
      most = rw (sym same) most;
    }

exec_result-short :
    (h : Host) (workload_id : Value) (o : Outcome)
    → let r = exec_result h workload_id o in (length r.stdout ≤ 10000) × (length r.stderr ≤ 10000)
exec_result-short h workload_id (completed code stdout stderr) =
    (length-take-le 10000 stdout, length-take-le 10000 stderr)
exec_result-short h workload_id timed_out = (omega arith, omega arith)
exec_result-short h workload_id failed = (omega arith, omega arith)

-- An answer is of a program that was started for a command of the list, without arguments, under the
-- path that the host has for it, and with a timeout between one second and a minute; of each output
-- it has 10000 characters at most.
pub cluster_exec_local-allowed :
    (h : Host) (body : Fields) (r : ExecResult)
    → cluster_exec_local h body ≡ ok r
    → (executable : Str) × (timeout : ℕ) × IsStarted h body executable timeout
      × (r ≡ exec_result h (get_or (get (codes "workloadId") body) null) (h.run executable timeout))
      × (length r.stdout ≤ 10000)
      × (length r.stderr ≤ 10000)
unfolding cluster_exec_local
cluster_exec_local-allowed h body r g =
    let (c, began, g1) = bind-ok (started h body) _ g in
    let same = ok-injective g1 in
    let (out, err) =
      exec_result-short h (get_or (get (codes "workloadId") body) null) (h.run c.0 c.1) in
    (c.0, c.1, started-IsStarted h body c began, sym same, rw (sym same) out, rw (sym same) err)
