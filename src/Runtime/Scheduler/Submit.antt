-- ===== src/Runtime/Scheduler/Submit.antt =====
-- AgentScheduler of src/thorn/runtime/_scheduler.py: its map of drivers, by session key.
use thorn.Prelude.Dict.{Dict, get, get-put, put}
use thorn.Prelude.{
  ==_refl, Bool, Option, Text, [], arith, false, if◌then◌else◌, list_eq, ltb, nat_eq, none,
  option_eq, refl, some, true, ℕ, ◌==◌, ◌∷◌, ◌≡◌,
}
use thorn.Errors.{Result, err, ok, runtime_error, value_error}
use thorn.Runtime.Queue.{DurableQueue}

-- `wake` is the event, `is_done` that the task has ended.
pub record SessionDriver : Type 0 where
  pub inbox : DurableQueue
  pub wake : Bool
  pub stop : Bool
  pub is_done : Bool

pub record AgentScheduler : Type 0 where
  pub concurrency : ℕ
  pub drivers : Dict Text SessionDriver
  pub closed : Bool

-- __init__; the threshold of the strikes is a number that is never below zero here.
unfoldable pub create : ℕ → Result AgentScheduler
create concurrency =
    if ltb concurrency 1
    then err value_error
    else ok (record { concurrency = concurrency; drivers = []; closed = false })

unfoldable pub kick : SessionDriver → SessionDriver
kick driver = record driver { wake = true }

unfoldable pub request_stop : SessionDriver → SessionDriver
request_stop driver = record driver { stop = true; wake = true }

abbrev fresh : DurableQueue → SessionDriver
fresh inbox = record { inbox = inbox; wake = false; stop = false; is_done = false }

-- The driver that a submission goes to: a new one where there is none or its task has ended.
unfoldable pub driver_for : Option SessionDriver → DurableQueue → SessionDriver
driver_for none inbox = fresh inbox
driver_for (some driver) inbox = if driver.is_done then fresh inbox else driver

unfoldable pub submit : AgentScheduler → Option Text → DurableQueue → Result AgentScheduler
submit s key inbox = if s.closed then err runtime_error else elim key [
  | none ↦ err value_error
  | some k ↦ ok (record s { drivers = put s.drivers k (kick (driver_for (get s.drivers k) inbox)) })
]

abbrev stop_all : Dict Text SessionDriver → Dict Text SessionDriver
stop_all [] = []
stop_all ((k, driver) ∷ rest) = (k, request_stop driver) ∷ stop_all rest

-- shutdown, up to its wait for the tasks: the flags that it sets.
unfoldable pub shutdown : AgentScheduler → AgentScheduler
shutdown s = if s.closed then s else record s { closed = true; drivers = stop_all s.drivers }

driver_for-is_done :
    (o : Option SessionDriver) (inbox : DurableQueue) → (driver_for o inbox).is_done ≡ false
unfolding driver_for
driver_for-is_done none inbox = refl
driver_for-is_done (some driver) inbox = ground arith

-- A submission that succeeds wakes one driver: that of the key, which keeps the inbox it has
-- unless its task has ended or there is none; every other driver stays as it is, and the same
-- submission once more changes no inbox and no driver.
pub submit-driver :
    (s s' : AgentScheduler) (k j : Text) (inbox other : DurableQueue)
    → submit s (some k) inbox ≡ ok s'
    → (get s'.drivers j
        ≡ (if k == j then some (kick (driver_for (get s.drivers k) inbox)) else get s.drivers j))
      × (driver_for (get s'.drivers k) other ≡ kick (driver_for (get s.drivers k) inbox))
unfolding submit driver_for kick
submit-driver s s' k j inbox other h =
    let woken = kick (driver_for (get s.drivers k) inbox) in
    let put_eq : s'.drivers ≡ put s.drivers k woken = ground (arith, h) in
    let running : woken.is_done ≡ false = driver_for-is_done (get s.drivers k) inbox in
    rw (put_eq, get-put s.drivers k woken j, get-put s.drivers k woken k, ==_refl k)
      (refl, rw (running) refl)

get-stop_all :
    (drivers : Dict Text SessionDriver) (k : Text)
    → get (stop_all drivers) k
      ≡ elim (get drivers k) [ none ↦ none | some driver ↦ some (request_stop driver) ]
unfolding get
get-stop_all [] k = refl
get-stop_all ((j, driver) ∷ rest) k = ground (arith, get-stop_all rest k)

-- After a shutdown of an open scheduler every driver is told to stop and is awake, with the inbox
-- it had, and every submission is refused; a second shutdown changes nothing.
pub shutdown-submit :
    (s : AgentScheduler) (k : Text) (key : Option Text) (inbox : DurableQueue)
    → s.closed ≡ false
    → (get (shutdown s).drivers k
        ≡ elim (get s.drivers k) [ none ↦ none | some driver ↦ some (request_stop driver) ])
      × (submit (shutdown s) key inbox ≡ err runtime_error)
      × (shutdown (shutdown s) ≡ shutdown s)
unfolding submit shutdown
shutdown-submit s k key inbox h = rw (h) (get-stop_all s.drivers k, refl, refl)
