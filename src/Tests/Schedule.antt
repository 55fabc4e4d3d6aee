-- ===== src/Tests/Schedule.antt =====
-- The theorems on the workers of `Collect` at a run.
use snmp_exporter.Common.{ℕ, ◌≤◌, ◌≡◌, refl, false, true, List, [], ◌∷◌, ◌++◌}
use snmp_exporter.Common.Int.{pos}
use snmp_exporter.Collector.Schedule.{
  starting, ready, busy, exited, sending, returned, System, worker_count, init, is_returned,
  connect, engine_id_fails, collect, finish, collected_after, cancelled_after, act, hand_over,
  close, wait, Steps, Reach, start, step,
}
use snmp_exporter.Collector.Schedule.Weight.{steps_left}
use snmp_exporter.Collector.Schedule.Progress.{Next, count, Collect_returns}
use snmp_exporter.Collector.Schedule.Account.{sum, Collect-modules}

abbrev modules : List ℕ
modules = 5 ∷ []

-- Two workers, of which the second fails only after the module is sent.
abbrev connected : System ℕ
connected = record {
  sender = sending modules;
  workers = ready ∷ starting ∷ [];
  cancelled = false;
  received = [];
  collected = [];
}

connected-Reach : Reach (init (pos 2) modules) connected
unfolding init worker_count collected_after cancelled_after
connected-Reach = step start (act [] (starting ∷ []) refl connect)

Collect_returns_example :
    ((t : System ℕ) × Steps connected t × (is_returned t.sender ≡ true))
    × ((t : System ℕ) → Steps connected t → is_returned t.sender ≡ false → Next t)
    × ((t : System ℕ) (sts : Steps connected t) → count sts ≤ steps_left connected)
Collect_returns_example = Collect_returns (pos 2) modules connected connected-Reach

abbrev ended : System ℕ
ended = record {
  sender = returned [];
  workers = exited ∷ exited ∷ [];
  cancelled = true;
  received = modules;
  collected = modules;
}

ended-Reach : Reach (init (pos 2) modules) ended
unfolding init worker_count collected_after cancelled_after
ended-Reach =
    step
      (step
        (step
          (step
            (step (step connected-Reach (hand_over [] (starting ∷ []) 5 [] refl refl))
              (act (busy 5 ∷ []) [] refl engine_id_fails))
            (close refl))
          (act [] _ refl collect))
        (act [] _ refl (finish refl)))
      (wait [] refl (tt, (tt, tt)))

Collect-modules_example :
    (ended.received ++ [] ≡ modules)
    × ((f : ℕ → ℕ) → sum f ended.received ≡ sum f ended.collected)
    × (ended.cancelled ≡ false → ◌≡◌ {A = List ℕ} [] [])
Collect-modules_example = Collect-modules (pos 2) modules ended [] ended-Reach refl
