-- ===== src/Collector/Schedule/Progress.antt =====
-- No schedule of the workers is stuck before `Collect` returns, and every one ends.
use snmp_exporter.Common.{
  ℕ, zero, suc, ◌+◌, ◌≤◌, ◌<◌, ◌≡◌, refl, ap, Bool, true, false, ◌||◌, List, [], ◌∷◌, ◌++◌, arith,
  length, length-append, length-replicate, All, All-replicate, All-back, All-replace, All-map, ◌⊎◌,
  inl, inr, Bool-cases,
}
use snmp_exporter.Common.Int.{ℤ, pos, negsuc}
use snmp_exporter.Collector.Schedule.{
  Worker, starting, reporting, cancelling, ready, busy, exited, Sender, sending, waiting, returned,
  Effect, System, worker_count, init, is_closed, is_returned, IsExited, Act, create_fails, report,
  engine_id_fails, connect_fails, cancel, connect, collect, finish, cancelled_after, Step, act,
  hand_over, see_cancel, close, wait, Steps, here, next, Reach, start, step, request_ends,
}
use snmp_exporter.Collector.Schedule.Weight.{steps_left, Step-steps_left}

worker_count-pos : (concurrency : ℤ) → 0 < worker_count concurrency
unfolding worker_count
worker_count-pos (pos n) = ground arith
worker_count-pos (negsuc n) = omega arith

module _ {M : Type 0} where
  -- A worker reports only after it has cancelled, and exits only then or when the channel is closed.
  abbrev pub IsAccounted : Bool → Bool → Worker M → Type 0
  IsAccounted closed cancelled reporting = cancelled ≡ true
  IsAccounted closed cancelled exited = (closed || cancelled) ≡ true
  IsAccounted closed cancelled _ = Unit

  pub record Inv (s : System M) : Type 0 where
    pub accounted : All (IsAccounted (is_closed s.sender) s.cancelled) s.workers
    pub some_worker : 0 < length s.workers

  weaken_cancel :
      (closed c : Bool) (w : Worker M) → IsAccounted closed c w → IsAccounted closed true w
  weaken_cancel closed c reporting h = refl
  weaken_cancel closed c exited h = ground arith
  weaken_cancel closed c starting h = tt
  weaken_cancel closed c cancelling h = tt
  weaken_cancel closed c ready h = tt
  weaken_cancel closed c (busy m) h = tt

  weaken_closed : (closed c : Bool) (w : Worker M) → IsAccounted closed c w → IsAccounted true c w
  weaken_closed closed c reporting h = h
  weaken_closed closed c exited h = refl
  weaken_closed closed c starting h = tt
  weaken_closed closed c cancelling h = tt
  weaken_closed closed c ready h = tt
  weaken_closed closed c (busy m) h = tt

  workers_left :
      (b : List (Worker M)) (p q : Worker M) (a : List (Worker M))
      → 0 < length (b ++ (p ∷ a))
      → 0 < length (b ++ (q ∷ a))
  workers_left b p q a h = omega (arith, length-append b (q ∷ a))

  act-Inv :
      (s : System M) (b a : List (Worker M)) {p q : Worker M} {e : Effect M}
      → All (IsAccounted (is_closed s.sender) s.cancelled) (b ++ (p ∷ a))
      → Act (is_closed s.sender) p e q
      → All (IsAccounted (is_closed s.sender) (cancelled_after e s.cancelled)) (b ++ (q ∷ a))
  unfolding cancelled_after
  act-Inv s b a h create_fails =
      All-replace _ b starting reporting a (All-map (weaken_cancel _ s.cancelled) _ h) refl
  act-Inv s b a h report =
      let cancelled : s.cancelled ≡ true = (All-back _ b (reporting ∷ a) h).0 in
      All-replace _ b reporting exited a h (ground arith)
  act-Inv s b a h engine_id_fails =
      All-replace _ b starting exited a (All-map (weaken_cancel _ s.cancelled) _ h) (ground arith)
  act-Inv s b a h connect_fails = All-replace _ b starting cancelling a h tt
  act-Inv s b a h cancel =
      All-replace _ b cancelling exited a (All-map (weaken_cancel _ s.cancelled) _ h) (ground arith)
  act-Inv s b a h connect = All-replace _ b starting ready a h tt
  act-Inv s b a h (collect {m}) = All-replace _ b (busy m) ready a h tt
  act-Inv s b a h (finish c) = All-replace _ b ready exited a h (ground arith)

  Step-Inv : {s t : System M} → Step s t → Inv s → Inv t
  Step-Inv {s} (act b a {p} {q} {e} there mv) v = record {
    accounted = act-Inv s b a (rw there at v.accounted) mv;
    some_worker = workers_left b p q a (rw there at v.some_worker);
  }
  Step-Inv {s} (hand_over b a m ms there to) v =
      let open_ : is_closed s.sender ≡ false = ap is_closed to in
      record {
        accounted = All-replace _ b ready (busy m) a (rw (open_, there) at v.accounted) tt;
        some_worker = workers_left b ready (busy m) a (rw there at v.some_worker);
      }
  Step-Inv {s} (see_cancel m ms to c) v = record {
    accounted = All-map (weaken_closed (is_closed s.sender) s.cancelled) s.workers v.accounted;
    some_worker = v.some_worker;
  }
  Step-Inv {s} (close to) v = record {
    accounted = All-map (weaken_closed (is_closed s.sender) s.cancelled) s.workers v.accounted;
    some_worker = v.some_worker;
  }
  Step-Inv {s} (wait ms to ex) v = record {
    accounted = All-map (weaken_closed (is_closed s.sender) s.cancelled) s.workers v.accounted;
    some_worker = v.some_worker;
  }

  init-Inv : (concurrency : ℤ) (modules : List M) → Inv (init concurrency modules)
  unfolding init
  init-Inv concurrency modules = record {
    accounted = All-replicate _ starting (worker_count concurrency) tt;
    some_worker = omega (
      arith,
      length-replicate (let w : Worker M = starting in w) (worker_count concurrency),
      worker_count-pos concurrency,
    );
  }

  pub Reach-Inv :
      (concurrency : ℤ) (modules : List M) {s : System M}
      → Reach (init concurrency modules) s
      → Inv s
  Reach-Inv concurrency modules start = init-Inv concurrency modules
  Reach-Inv concurrency modules (step r st) = Step-Inv st (Reach-Inv concurrency modules r)
  Reach-Inv concurrency modules (request_ends {t} r) =
      let v = Reach-Inv concurrency modules r in
      record {
        accounted = All-map (weaken_cancel (is_closed t.sender) t.cancelled) t.workers v.accounted;
        some_worker = v.some_worker;
      }

  -- A worker that has not exited, with those before and after it.
  record Live (ws : List (Worker M)) : Type 0 where
    before : List (Worker M)
    worker : Worker M
    after : List (Worker M)
    split : ws ≡ before ++ (worker ∷ after)
    is_live : IsExited worker → ⊥

  Live-cases : (ws : List (Worker M)) → All IsExited ws ⊎ Live ws
  Live-cases [] = inl tt
  Live-cases (exited ∷ ws) = elim (Live-cases ws) [
    | inl all_exited ↦ inl (tt, all_exited)
    | inr l ↦ inr (record {
      before = exited ∷ l.before;
      worker = l.worker;
      after = l.after;
      split = ap (λ x. exited ∷ x) l.split;
      is_live = l.is_live;
    })
  ]
  Live-cases (w ∷ ws) =
      inr (record { before = []; worker = w; after = ws; split = refl; is_live = λ h. h })

  abbrev pub Next : System M → Type 0
  Next s = (t : System M) × Step s t

  live-Next :
      (s : System M) (b : List (Worker M)) (w : Worker M) (a : List (Worker M)) (sender : Sender M)
      → s.workers ≡ b ++ (w ∷ a)
      → s.sender ≡ sender
      → is_returned sender ≡ false
      → (IsExited w → ⊥)
      → Next s
  live-Next s b starting a sender e f r l = (_, act b a e connect)
  live-Next s b reporting a sender e f r l = (_, act b a e report)
  live-Next s b cancelling a sender e f r l = (_, act b a e cancel)
  live-Next s b (busy m) a sender e f r l = (_, act b a e collect)
  live-Next s b exited a sender e f r l = absurd (l tt)
  live-Next s b ready a (sending (m ∷ ms)) e f r l = (_, hand_over b a m ms e f)
  live-Next s b ready a (sending []) e f r l = (_, close f)
  live-Next s b ready a (waiting ms) e f r l = (_, act b a e (finish (ap is_closed f)))
  live-Next s b ready a (returned ms) e f r l = cc

  exited-cancelled :
      {cancelled : Bool} (ws : List (Worker M))
      → All IsExited ws
      → All (IsAccounted false cancelled) ws
      → 0 < length ws
      → cancelled ≡ true
  exited-cancelled [] x h n = absurd (omega arith)
  exited-cancelled (exited ∷ ws) x (h, hs) n = h
  exited-cancelled (starting ∷ ws) x h n = absurd x.0
  exited-cancelled (reporting ∷ ws) x h n = absurd x.0
  exited-cancelled (cancelling ∷ ws) x h n = absurd x.0
  exited-cancelled (ready ∷ ws) x h n = absurd x.0
  exited-cancelled (busy m ∷ ws) x h n = absurd x.0

  exited-Next :
      (s : System M) (sender : Sender M)
      → s.sender ≡ sender
      → is_returned sender ≡ false
      → All IsExited s.workers
      → Inv s
      → Next s
  exited-Next s (sending (m ∷ ms)) f r x v = (
    _,
    see_cancel m ms f
        (exited-cancelled s.workers x (rw (ap is_closed f) at v.accounted) v.some_worker),
  )
  exited-Next s (sending []) f r x v = (_, close f)
  exited-Next s (waiting ms) f r x v = (_, wait ms f x)
  exited-Next s (returned ms) f r x v = cc

  -- A schedule is never stuck before `Collect` has returned.
  Inv-Next : (s : System M) → Inv s → is_returned s.sender ≡ false → Next s
  Inv-Next s v r = elim (Live-cases s.workers) [
    | inl x ↦ exited-Next s s.sender refl r x v
    | inr l ↦ live-Next s l.before l.worker l.after s.sender l.split refl r l.is_live
  ]

  Inv-returns :
      (n : ℕ) (s : System M)
      → Inv s
      → steps_left s < n
      → (t : System M) × Steps s t × (is_returned t.sender ≡ true)
  Inv-returns zero s v h = absurd (omega arith)
  Inv-returns (suc n) s v h = elim (Bool-cases (is_returned s.sender)) [
    | inl r ↦ (s, here, r)
    | inr r ↦
        let (t, st) = Inv-Next s v r in
        let (u, sts, e) = Inv-returns n t (Step-Inv st v) (omega (arith, Step-steps_left st)) in
        (u, next st sts, e)
  ]

  Steps-Inv : {s t : System M} → Steps s t → Inv s → Inv t
  Steps-Inv here v = v
  Steps-Inv (next st sts) v = Steps-Inv sts (Step-Inv st v)

  unfoldable pub count : {s t : System M} → Steps s t → ℕ
  count here = 0
  count (next st sts) = suc (count sts)

  -- A schedule of program steps is never longer than the steps that were left.
  pub count-le : {s t : System M} (sts : Steps s t) → count sts + steps_left t ≤ steps_left s
  unfolding count
  count-le here = omega arith
  count-le (next st sts) = omega (arith, count-le sts, Step-steps_left st)

  -- In whatever state the workers have got, whether or not clients failed to connect or the request
  -- has ended, `Collect` can return by steps of the program alone; no schedule of such steps from
  -- there is stuck before `Collect` has returned; and none is longer than `steps_left`.
  pub Collect_returns :
      (concurrency : ℤ) (modules : List M) (s : System M)
      → Reach (init concurrency modules) s
      → ((t : System M) × Steps s t × (is_returned t.sender ≡ true))
        × ((t : System M) → Steps s t → is_returned t.sender ≡ false → Next t)
        × ((t : System M) (sts : Steps s t) → count sts ≤ steps_left s)
  Collect_returns concurrency modules s r =
      let v = Reach-Inv concurrency modules r in
      (
        Inv-returns (suc (steps_left s)) s v (omega arith),
        λ t sts e. Inv-Next t (Steps-Inv sts v) e,
        λ t sts. omega (arith, count-le sts),
      )
