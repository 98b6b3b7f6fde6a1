-- ===== src/Cluster/Requests.antt =====
-- The state of backend/routes/cluster.py, and the checks of what a request says.
use minima_pi_net_os.Prelude.{
  str_eq, nat_eq, ℕ, String, Str, codes, Bool, not, ◌&&◌, ◌||◌, Option, none, some, List, [], ◌∷◌,
  length, any, leb, ltb, Result, ok, raise, http, type_error, value_error, ◌==◌, if◌then◌else◌,
}
use minima_pi_net_os.Prelude.Int.{ℤ, pos, max_ℤ, min_ℤ, pos_part}
use minima_pi_net_os.Dict.Distinct.{mem}
use minima_pi_net_os.Json.{
  Value, bool, int, float, str, arr, obj, nil, Fields, end, field, get, get_or, is_falsy,
}
use minima_pi_net_os.Encoding.IntText.{int_of}
use minima_pi_net_os.Provenance.{Event}
use minima_pi_net_os.Prelude.Text.{without_newline, is_alnum}

-- What an entry of the log says of its event in the store
pub data Recorded : Type 0 where
  recorded : Str → Str → Recorded
  validation_failed : Recorded

pub record ClusterEvent : Type 0 where
  pub kind : Str
  pub target : Value
  pub command : Option Value
  pub time : ℕ
  pub provenance : Recorded

pub record State : Type 0 where
  pub log : List ClusterEvent
  pub store : List Event

-- What a program that was started gives
pub data Outcome : Type 0 where
  completed : ℤ → Str → Str → Outcome
  timed_out : Outcome
  failed : Outcome

pub record Host : Type 0 where
  pub sha256 : Str → Str
  pub version : Str
  pub py_str : Value → Str
  pub now : ℕ
  -- `int(float)`
  pub truncated : Str → Result ℤ
  pub which : Str → Option Str
  -- an executable without arguments, with its timeout in milliseconds
  pub run : Str → ℕ → Outcome
  pub duration_ms : ℤ
  -- an address, and the fields of a join request; whether the answer is not None
  pub maxima_send : Str → Fields → Bool
  pub hostname : Str
  pub platform : Str
  pub nonce : Str

-- The answer to a command that was run, or that was not in time
pub record ExecResult : Type 0 where
  pub workload_id : Value
  pub exit_code : ℤ
  pub stdout : Str
  pub stderr : Str
  pub duration_ms : ℤ

abbrev pub allowed_commands : List Str
allowed_commands =
    codes "ls"
    ∷ codes "cat"
    ∷ codes "echo"
    ∷ codes "date"
    ∷ codes "uname"
    ∷ codes "hostname"
    ∷ codes "whoami"
    ∷ codes "df"
    ∷ codes "free"
    ∷ codes "uptime"
    ∷ codes "ps"
    ∷ codes "top"
    ∷ codes "ping"
    ∷ codes "ip"
    ∷ codes "ifconfig"
    ∷ codes "systemctl"
    ∷ codes "journalctl"
    ∷ codes "vcgencmd"
    ∷ codes "lsblk"
    ∷ codes "lscpu"
    ∷ codes "docker"
    ∷ codes "lxc"
    ∷ codes "minima"
    ∷ []

abbrev pub member : String → Value → Fields → Value
member key default body = get_or (get (codes key) body) default

-- `^[a-zA-Z0-9.:@_-]+$`, with the newline that `$` lets through
abbrev pub is_address_char : ℕ → Bool
is_address_char c = is_alnum c || any (λ d. d == c) (codes ".:@_-")

unfoldable pub is_safe_address : Str → Bool
is_safe_address s =
    let body = without_newline s in
    leb 1 (length body) && not (any (λ c. not (is_address_char c)) body)

abbrev pub checked_address : Value → Result Str
checked_address (str s) =
    if not (is_safe_address s) || ltb 256 (length s) then raise (http 400) else ok s
checked_address v = raise (http 400)

unfoldable pub master_address : Fields → Result Str
master_address body =
    let v = member "masterAddress" (str []) body in
    if is_falsy v then raise (http 400) else checked_address v

-- The message; its text, with blanks replaced, is left to `maxima_send`.
unfoldable pub join_message : Host → Fields
join_message h = field (codes "type") (str (codes "CLUSTER_JOIN_REQUEST")) (
    field (codes "sender") (str (codes "local-node")) (
      field (codes "senderAddress") (str []) (
        field (codes "timestamp") (int (pos h.now)) (
          field (codes "nonce") (str h.nonce) (
            field (codes "clusterId") (str []) (
              field (codes "payload")
                (obj (
                  field (codes "nodeId") (str (codes "local-node")) (
                    field (codes "hostname") (str h.hostname) (
                      field (codes "platform") (str h.platform) (
                        field (codes "version") (str h.version)
                          (field (codes "capabilities") (arr nil) end))))))
                end))))))

-- `int(body.get("timeout", 30000))`
unfoldable pub int_value : Host → Value → Result ℤ
int_value h (int i) = ok i
int_value h (bool b) = ok (if b then pos 1 else pos 0)
int_value h (float t) = h.truncated t
int_value h (str s) = elim (int_of s) [ none ↦ raise value_error | some i ↦ ok i ]
int_value h _ = raise type_error

-- `min(max(n, 1000), 60000)`, which is no negative number
abbrev pub clamped : ℤ → ℕ
clamped n = pos_part (min_ℤ (max_ℤ n (pos 1000)) (pos 60000))

-- `isinstance(cmd, str) and cmd in ALLOWED_COMMANDS`
unfoldable pub checked_command : Value → Result Str
checked_command (str cmd) = if mem cmd allowed_commands then ok cmd else raise (http 403)
checked_command v = raise (http 403)

unfoldable pub checked_args : Value → Result (Unit {0})
checked_args (arr nil) = ok tt
checked_args v = raise (http 400)
