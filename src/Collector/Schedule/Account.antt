-- ===== src/Collector/Schedule/Account.antt =====
-- What has become of the modules when `Collect` returns.
use snmp_exporter.Common.{
  ℕ, zero, suc, ◌+◌, ◌≡◌, refl, ap, ◌∙◌, Bool, true, false, List, [], ◌∷◌, ◌++◌, arith, replicate,
  All, All-back, append_assoc,
}
use snmp_exporter.Common.Int.{ℤ}
use snmp_exporter.Collector.Schedule.{
  Worker, starting, reporting, cancelling, ready, busy, exited, Sender, sending, waiting, returned,
  Effect, nothing, cancels, collects, System, worker_count, init, IsExited, Act, create_fails,
  report, engine_id_fails, connect_fails, cancel, connect, collect, finish, cancelled_after,
  collected_after, Step, act, hand_over, see_cancel, close, wait, Reach, start, step, request_ends,
}

module _ {M : Type 0} where
  abbrev unsent : Sender M → List M
  unsent (sending ms) = ms
  unsent (waiting ms) = ms
  unsent (returned ms) = ms

  -- Modules are left unsent only after a cancel, and `Collect` returns only when all workers have.
  abbrev Ends : Sender M → Bool → List (Worker M) → Type 0
  Ends (sending ms) cancelled ws = Unit
  Ends (waiting []) cancelled ws = Unit
  Ends (waiting (m ∷ ms)) cancelled ws = cancelled ≡ true
  Ends (returned []) cancelled ws = All IsExited ws
  Ends (returned (m ∷ ms)) cancelled ws = (cancelled ≡ true) × All IsExited ws

  -- A sum over modules, and over those that workers are at.
  abbrev pub sum : (M → ℕ) → List M → ℕ
  sum f [] = 0
  sum f (m ∷ ms) = f m + sum f ms

  abbrev load : (M → ℕ) → Worker M → ℕ
  load f (busy m) = f m
  load f _ = 0

  abbrev loads : (M → ℕ) → List (Worker M) → ℕ
  loads f [] = 0
  loads f (w ∷ ws) = load f w + loads f ws

  sum-append : (f : M → ℕ) (a b : List M) → sum f (a ++ b) ≡ sum f a + sum f b
  sum-append f [] b = omega arith
  sum-append f (m ∷ a) b = omega (arith, sum-append f a b)

  loads_at :
      (f : M → ℕ) (b : List (Worker M)) (w : Worker M) (a : List (Worker M))
      → loads f (b ++ w ∷ a) ≡ loads f b + load f w + loads f a
  loads_at f [] w a = omega arith
  loads_at f (x ∷ b) w a = omega (arith, loads_at f b w a)

  loads_exited : (f : M → ℕ) (ws : List (Worker M)) → All IsExited ws → loads f ws ≡ 0
  loads_exited f [] h = refl
  loads_exited f (exited ∷ ws) (x, h) = omega (arith, loads_exited f ws h)
  loads_exited f (starting ∷ ws) (x, h) = absurd x
  loads_exited f (reporting ∷ ws) (x, h) = absurd x
  loads_exited f (cancelling ∷ ws) (x, h) = absurd x
  loads_exited f (ready ∷ ws) (x, h) = absurd x
  loads_exited f (busy m ∷ ws) (x, h) = absurd x

  record Account (modules : List M) (s : System M) : Type 0 where
    in_order : s.received ++ unsent s.sender ≡ modules
    tally : (f : M → ℕ) → sum f s.received ≡ sum f s.collected + loads f s.workers
    ends : Ends s.sender s.cancelled s.workers

  Act-tally :
      (f : M → ℕ) {closed : Bool} {p q : Worker M} {e : Effect M} (collected : List M)
      → Act closed p e q
      → sum f (collected_after e collected) + load f q ≡ sum f collected + load f p
  unfolding collected_after
  Act-tally f collected create_fails = refl
  Act-tally f collected report = refl
  Act-tally f collected engine_id_fails = refl
  Act-tally f collected connect_fails = refl
  Act-tally f collected cancel = refl
  Act-tally f collected connect = refl
  Act-tally f collected (collect {m}) = omega (arith, sum-append f collected (m ∷ []))
  Act-tally f collected (finish h) = refl

  weaken_cancelled :
      (sender : Sender M) (c : Bool) (ws : List (Worker M)) → Ends sender c ws → Ends sender true ws
  weaken_cancelled (sending ms) c ws h = tt
  weaken_cancelled (waiting []) c ws h = tt
  weaken_cancelled (waiting (m ∷ ms)) c ws h = refl
  weaken_cancelled (returned []) c ws h = h
  weaken_cancelled (returned (m ∷ ms)) c ws h = (refl, h.1)

  after_effect :
      (sender : Sender M) (e : Effect M) (c : Bool) (ws : List (Worker M))
      → Ends sender c ws
      → Ends sender (cancelled_after e c) ws
  unfolding cancelled_after
  after_effect sender nothing c ws h = h
  after_effect sender cancels c ws h = weaken_cancelled sender c ws h
  after_effect sender (collects m) c ws h = h

  Act-live : {closed : Bool} {p q : Worker M} {e : Effect M} → Act closed p e q → IsExited p → ⊥
  Act-live create_fails x = x
  Act-live report x = x
  Act-live engine_id_fails x = x
  Act-live connect_fails x = x
  Act-live cancel x = x
  Act-live connect x = x
  Act-live collect x = x
  Act-live (finish h) x = x

  returned-Ends :
      (ms : List M) (c : Bool) (ws : List (Worker M))
      → Ends (waiting ms) c ws
      → All IsExited ws
      → Ends (returned ms) c ws
  returned-Ends [] c ws h x = x
  returned-Ends (m ∷ ms) c ws h x = (h, x)

  -- A worker that acts has not exited, so `Collect` has not returned.
  act-Ends :
      (sender : Sender M) (c : Bool) (b a : List (Worker M)) {closed : Bool} {p q : Worker M}
      {e : Effect M}
      → Act closed p e q
      → Ends sender c (b ++ p ∷ a)
      → Ends sender c (b ++ q ∷ a)
  act-Ends (sending ms) c b a mv h = tt
  act-Ends (waiting []) c b a mv h = tt
  act-Ends (waiting (m ∷ ms)) c b a mv h = h
  act-Ends (returned []) c b a {p} mv h = absurd (Act-live mv (All-back IsExited b (p ∷ a) h).0)
  act-Ends (returned (m ∷ ms)) c b a {p} mv h =
      absurd (Act-live mv (All-back IsExited b (p ∷ a) h.1).0)

  Step-Account :
      (modules : List M) {s t : System M} → Step s t → Account modules s → Account modules t
  Step-Account modules {s} (act b a {p} {q} {e} there mv) v = record {
    in_order = v.in_order;
    tally = λ f. omega (
      arith,
      v.tally f,
      ap (loads f) there,
      loads_at f b p a,
      loads_at f b q a,
      Act-tally f s.collected mv,
    );
    ends =
        after_effect s.sender e s.cancelled _
          (act-Ends s.sender s.cancelled b a mv (rw there at v.ends));
  }
  Step-Account modules {s} (hand_over b a m ms there to) v = record {
    in_order = append_assoc s.received (m ∷ []) ms ∙ (rw to at v.in_order);
    tally = λ f. omega (
      arith,
      v.tally f,
      ap (loads f) there,
      loads_at f b ready a,
      loads_at f b (busy m) a,
      sum-append f s.received (m ∷ []),
    );
    ends = tt;
  }
  Step-Account modules {s} (see_cancel m ms to c) v = record {
    in_order = rw to at v.in_order;
    tally = v.tally;
    ends = c;
  }
  Step-Account modules {s} (close to) v = record {
    in_order = rw to at v.in_order;
    tally = v.tally;
    ends = tt;
  }
  Step-Account modules {s} (wait ms to ex) v = record {
    in_order = rw to at v.in_order;
    tally = v.tally;
    ends = returned-Ends ms s.cancelled s.workers (rw to at v.ends) ex;
  }

  loads_starting : (f : M → ℕ) (n : ℕ) → loads f (replicate n starting) ≡ 0
  loads_starting f zero = refl
  loads_starting f (suc n) = omega (arith, loads_starting f n)

  Reach-Account :
      (concurrency : ℤ) (modules : List M) {s : System M}
      → Reach (init concurrency modules) s
      → Account modules s
  unfolding init
  Reach-Account concurrency modules start = record {
    in_order = refl;
    tally = λ f. omega (arith, loads_starting f (worker_count concurrency));
    ends = tt;
  }
  Reach-Account concurrency modules (step r st) =
      Step-Account modules st (Reach-Account concurrency modules r)
  Reach-Account concurrency modules (request_ends {t} r) =
      let v = Reach-Account concurrency modules r in
      record {
        in_order = v.in_order;
        tally = v.tally;
        ends = weaken_cancelled t.sender t.cancelled t.workers v.ends;
      }

  returned_lem :
      (modules : List M) (s : System M) (ms : List M)
      → Account modules s
      → s.sender ≡ returned ms
      → (s.received ++ ms ≡ modules)
        × ((f : M → ℕ) → sum f s.received ≡ sum f s.collected)
        × (s.cancelled ≡ false → ms ≡ [])
  returned_lem modules s [] v e =
      let x = rw e at v.ends in
      (rw e at v.in_order, λ f. omega (arith, v.tally f, loads_exited f s.workers x), λ c. refl)
  returned_lem modules s (m ∷ ms) v e =
      let x = rw e at v.ends in
      (
        rw e at v.in_order,
        λ f. omega (arith, v.tally f, loads_exited f s.workers x.1),
        λ c. cc (x.0),
      )

  -- When `Collect` returns, the workers have received the first modules in order, each once; every
  -- module received has been collected, as often as it was received, whatever is counted; and the
  -- rest is empty unless a worker failed to start or the request has ended.
  pub Collect-modules :
      (concurrency : ℤ) (modules : List M) (s : System M) (ms : List M)
      → Reach (init concurrency modules) s
      → s.sender ≡ returned ms
      → (s.received ++ ms ≡ modules)
        × ((f : M → ℕ) → sum f s.received ≡ sum f s.collected)
        × (s.cancelled ≡ false → ms ≡ [])
  Collect-modules concurrency modules s ms r e =
      returned_lem modules s ms (Reach-Account concurrency modules r) e
