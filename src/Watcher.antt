-- ===== src/Watcher.antt =====
-- backend/cpip_watcher.py: the state of the watcher, its subscribers and the version file. A
-- subscriber is a number, since the code compares callbacks by identity; what it does with a message,
-- GitHub's answer, the webhook's and the clock are the record `Surroundings`.
pub mod Broadcast
pub mod Rollback
pub mod Restored
pub mod Iteration
pub mod Counted
pub mod Repeats
pub mod Loop
pub mod Moves
pub mod Ends
pub mod Reached
use minima_pi_net_os.Prelude.{
  str_eq, nat_eq, ℕ, ◌+◌, Str, codes, Bool, true, false, not, ◌&&◌, Option, none, some, List, [],
  ◌∷◌, ◌++◌, keep, ◌==◌, if◌then◌else◌,
}
use minima_pi_net_os.Dict.Distinct.{mem}
use minima_pi_net_os.Updater.{World, Disk}
use minima_pi_net_os.Updater.Application.{Applied}

-- The events, with their data.
pub data Event : Type 0 where
  version_changed : Str → Str → Event
  check_complete : Str → Str → Bool → Event
  update_available : Str → Str → Str → Event
  update_starting : Str → Str → Event
  update_complete : Str → Str → Applied → Event
  update_failed : Str → Str → Str → Event
  watcher_started : Str → ℕ → Event
  watcher_error watcher_stopped : Event

pub record Surroundings : Type 0 where
  pub world : World
  pub auto_update : Bool
  pub rollback_on_fail : Bool
  pub webhook_configured : Bool
  pub version_writable : Bool
  pub poll_interval : ℕ
  -- A subscriber takes the message, or raises.
  pub takes : ℕ → Event → Bool

-- `WatcherState`, with the files and with what was sent: to whom, and to the webhook.
pub record Watcher : Type 0 where
  pub running : Bool
  pub last_check : ℕ
  pub last_update : ℕ
  pub last_version : Str
  pub check_count : ℕ
  pub update_count : ℕ
  pub error_count : ℕ
  pub last_error : Str
  pub subscribers : List ℕ
  pub disk : Disk
  -- the version in the file, where there is a file that can be read and it has one
  pub version_file : Option Str
  pub broadcast_log : List Event
  pub delivered : List (ℕ × Event)
  pub webhooks : List Event

unfoldable pub subscribe_sse : ℕ → Watcher → Watcher
subscribe_sse callback s = record s { subscribers = s.subscribers ++ callback ∷ [] }

unfoldable pub unsubscribe_sse : ℕ → Watcher → Watcher
unsubscribe_sse callback s = record s {
  subscribers = keep (λ c. not (c == callback)) s.subscribers;
}

-- `for d in dead: subscribers = [s for s in subscribers if s is not d]`
unfoldable pub without : List ℕ → List ℕ → List ℕ
without [] subscribers = subscribers
without (d ∷ dead) subscribers = without dead (keep (λ c. not (c == d)) subscribers)

abbrev pub sent_to : Event → List ℕ → List (ℕ × Event)
sent_to event [] = []
sent_to event (c ∷ cs) = (c, event) ∷ sent_to event cs

module _ (w : Surroundings) where
  unfoldable pub broadcast_event : Event → Watcher → Watcher
  broadcast_event event s =
      let dead = keep (λ c. not (w.takes c event)) s.subscribers in
      record s {
        subscribers = without dead s.subscribers;
        broadcast_log = s.broadcast_log ++ event ∷ [];
        delivered = s.delivered ++ sent_to event (keep (λ c. w.takes c event) s.subscribers);
      }

  unfoldable pub send_webhook_notification : Event → Watcher → Watcher
  send_webhook_notification event s =
      if w.webhook_configured then record s { webhooks = s.webhooks ++ event ∷ [] } else s

  unfoldable pub write_version_file : Str → Watcher → Watcher
  write_version_file version s =
      if w.version_writable then record s { version_file = some version } else s

-- A version that is given, and not the last one.
abbrev pub changed_from : Str → Option Str → Option Str
changed_from last none = none
changed_from last (some []) = none
changed_from last (some (c ∷ version)) = if (c ∷ version) == last then none else some (c ∷ version)

unfoldable pub check_version_file_changed : Watcher → Option Str
check_version_file_changed s = changed_from s.last_version s.version_file
