-- ===== src/Collector/Schedule.antt =====
-- The workers of `Collector.Collect` in collector/collector.go: goroutines that take modules from a
-- channel without a buffer, and the goroutine that sends them. A step is one action of one of these,
-- and the scheduler picks any. What `collect` does with a module is one step at its end. A panic in it
-- ends the process, and with it all steps; it is no step of this relation.
pub mod Weight
pub mod Progress
pub mod Account
use snmp_exporter.Common.{
  ℕ, zero, suc, ◌+◌, ◌*◌, ◌≡◌, refl, Bool, true, false, List, [], ◌∷◌, ◌++◌, ◌==◌, if◌then◌else◌,
  replicate, length, All,
}
use snmp_exporter.Common.Int.{ℤ, pos, negsuc}

-- Where a worker stands.
pub data Worker (M : Type 0) : Type 0 where
  starting : Worker M  -- before its client is connected
  reporting : Worker M  -- has cancelled after `NewGoSNMP` failed, and sends an error to `ch`
  cancelling : Worker M  -- has sent the error of `Connect` to `ch`, and will cancel
  ready : Worker M  -- at the receive of `for m := range workerChan`
  busy : M → Worker M  -- in `collect`
  exited : Worker M

-- What a worker's action changes outside of it.
pub data Effect (M : Type 0) : Type 0 where
  nothing cancels : Effect M
  collects : M → Effect M

-- Where the loop over the modules stands, with those not sent.
pub data Sender (M : Type 0) : Type 0 where
  sending : List M → Sender M
  waiting : List M → Sender M  -- `workerChan` is closed: at `wg.Wait()`
  returned : List M → Sender M

-- With the modules that workers have received, and those whose `collect` has ended, in order.
pub record System (M : Type 0) : Type 0 where
  pub sender : Sender M
  pub workers : List (Worker M)
  pub cancelled : Bool
  pub received : List M
  pub collected : List M

-- `max(c.concurrency, 1)`.
unfoldable pub worker_count : ℤ → ℕ
worker_count (pos n) = if n == 0 then 1 else n
worker_count (negsuc n) = 1

module _ {M : Type 0} where
  unfoldable pub init : ℤ → List M → System M
  init concurrency modules = record {
    sender = sending modules;
    workers = replicate (worker_count concurrency) starting;
    cancelled = false;
    received = [];
    collected = [];
  }

  abbrev pub is_closed : Sender M → Bool
  is_closed (sending ms) = false
  is_closed _ = true

  abbrev pub is_returned : Sender M → Bool
  is_returned (returned ms) = true
  is_returned _ = false

  abbrev pub IsExited : Worker M → Type 0
  IsExited exited = Unit
  IsExited _ = ⊥

  -- The actions of a worker by itself, where `closed` tells whether `workerChan` is.
  pub data Act (closed : Bool) : Worker M → Effect M → Worker M → Type 0 where
    create_fails : Act closed starting cancels reporting
    report : Act closed reporting nothing exited
    engine_id_fails : Act closed starting cancels exited
    connect_fails : Act closed starting nothing cancelling
    cancel : Act closed cancelling cancels exited
    connect : Act closed starting nothing ready
    collect : {m : M} → Act closed (busy m) (collects m) ready
    finish : closed ≡ true → Act closed ready nothing exited

  unfoldable pub cancelled_after : Effect M → Bool → Bool
  cancelled_after cancels cancelled = true
  cancelled_after _ cancelled = cancelled

  unfoldable pub collected_after : Effect M → List M → List M
  collected_after (collects m) collected = collected ++ m ∷ []
  collected_after _ collected = collected

  abbrev pub apply : Effect M → System M → System M
  apply e s = record s {
    cancelled = cancelled_after e s.cancelled;
    collected = collected_after e s.collected;
  }

  pub data Step (s : System M) : System M → Type 0 where
    act :
        (before after : List (Worker M)) {p q : Worker M} {e : Effect M}
        → s.workers ≡ before ++ (p ∷ after)
        → Act (is_closed s.sender) p e q
        → Step s (apply e (record s { workers = before ++ (q ∷ after) }))
    hand_over :
        (before after : List (Worker M)) (m : M) (ms : List M)
        → s.workers ≡ before ++ (ready ∷ after)
        → s.sender ≡ sending (m ∷ ms)
        → Step s (record s {
          sender = sending ms;
          workers = before ++ (busy m ∷ after);
          received = s.received ++ m ∷ [];
        })
    see_cancel :
        (m : M) (ms : List M)
        → s.sender ≡ sending (m ∷ ms)
        → s.cancelled ≡ true
        → Step s (record s { sender = waiting (m ∷ ms) })
    close : s.sender ≡ sending [] → Step s (record s { sender = waiting [] })
    wait :
        (ms : List M)
        → s.sender ≡ waiting ms
        → All IsExited s.workers
        → Step s (record s { sender = returned ms })

  -- Any number of steps of the program.
  pub data Steps : System M → System M → Type 0 where
    here : {s : System M} → Steps s s
    next : {s t u : System M} → Step s t → Steps t u → Steps s u

  -- The states of a run, in which the context of the request may end at any time.
  pub data Reach (s : System M) : System M → Type 0 where
    start : Reach s s
    step : {t u : System M} → Reach s t → Step t u → Reach s u
    request_ends : {t : System M} → Reach s t → Reach s (record t { cancelled = true })
