-- ===== src/Collector/Schedule/Weight.antt =====
-- The steps that are left of a schedule.
use snmp_exporter.Common.{
  ℕ, ◌+◌, ◌*◌, ◌≤◌, ◌<◌, ◌≡◌, refl, ap, Bool, List, [], ◌∷◌, ◌++◌, arith, if◌then◌else◌, length,
}
use snmp_exporter.Collector.Schedule.{
  Worker, starting, ready, busy, exited, Sender, sending, waiting, returned, Effect, nothing,
  cancels, collects, System, Act, create_fails, report, engine_id_fails, connect_fails, cancel,
  connect, collect, finish, apply, cancelled_after, Step, act, hand_over, see_cancel, close, wait,
}

unfoldable pub cancel_weight : Bool → ℕ
cancel_weight cancelled = if cancelled then 0 else 1

module _ {M : Type 0} where
  -- The actions that are left for a worker, at most.
  unfoldable pub worker_weight : Worker M → ℕ
  worker_weight exited = 0
  worker_weight ready = 1
  worker_weight (busy m) = 2
  worker_weight starting = 3
  worker_weight _ = 2

  unfoldable pub total : List (Worker M) → ℕ
  total [] = 0
  total (w ∷ ws) = worker_weight w + total ws

  unfoldable pub sender_weight : Sender M → ℕ
  sender_weight (sending ms) = 2 * length ms + 2
  sender_weight (waiting ms) = 1
  sender_weight (returned ms) = 0

  unfoldable pub steps_left : System M → ℕ
  steps_left s = total s.workers + sender_weight s.sender + cancel_weight s.cancelled

  total-append : (b a : List (Worker M)) → total (b ++ a) ≡ total b + total a
  unfolding total
  total-append [] a = omega arith
  total-append (w ∷ b) a = omega (arith, total-append b a)

  total_at :
      (b : List (Worker M)) (w : Worker M) (a : List (Worker M))
      → total (b ++ (w ∷ a)) ≡ total b + worker_weight w + total a
  unfolding total
  total_at b w a = omega (arith, total-append b (w ∷ a))

  Act-weight :
      {closed : Bool} {p q : Worker M} {e : Effect M}
      → Act closed p e q
      → worker_weight q < worker_weight p
  unfolding worker_weight
  Act-weight create_fails = omega arith
  Act-weight report = omega arith
  Act-weight engine_id_fails = omega arith
  Act-weight connect_fails = omega arith
  Act-weight cancel = omega arith
  Act-weight connect = omega arith
  Act-weight collect = omega arith
  Act-weight (finish h) = omega arith

  apply_weight : (e : Effect M) (s : System M) → steps_left (apply e s) ≤ steps_left s
  unfolding steps_left cancel_weight cancelled_after
  apply_weight nothing s = omega arith
  apply_weight cancels s = ground arith
  apply_weight (collects m) s = omega arith

  ready_weight : (m : M) → worker_weight (busy m) ≡ worker_weight ready + 1
  unfolding worker_weight
  ready_weight m = refl

  sending_weight :
      (m : M) (ms : List M) → sender_weight (sending (m ∷ ms)) ≡ sender_weight (sending ms) + 2
  unfolding sender_weight
  sending_weight m ms = omega arith

  -- Every step leaves fewer.
  pub Step-steps_left : {s t : System M} → Step s t → steps_left t < steps_left s
  unfolding steps_left
  Step-steps_left {s} (act b a {p} {q} {e} at mv) = omega (
    arith,
    apply_weight e (record s { workers = b ++ (q ∷ a) }),
    total_at b q a,
    total_at b p a,
    Act-weight mv,
    ap total at,
  )
  Step-steps_left {s} (hand_over b a m ms at to) = omega (
    arith,
    total_at b (busy m) a,
    total_at b ready a,
    ready_weight m,
    sending_weight m ms,
    ap total at,
    ap sender_weight to,
  )
  Step-steps_left {s} (see_cancel m ms to c) =
      unfold sender_weight in omega (arith, ap sender_weight to)
  Step-steps_left {s} (close to) = unfold sender_weight in omega (arith, ap sender_weight to)
  Step-steps_left {s} (wait ms to ex) = unfold sender_weight in omega (arith, ap sender_weight to)
