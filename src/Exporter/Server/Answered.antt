-- ===== src/Exporter/Server/Answered.antt =====
-- A POST to main.go that waits can be answered.
use snmp_exporter.Common.{
  ℕ, ◌≡◌, refl, sym, ap, ◌∙◌, Bool, true, false, arith, Option, none, ==_iff,
}
use snmp_exporter.Exporter.Request.{Values, Config}
use snmp_exporter.Exporter.Server.{
  Method, Poster, asked, sending, waiting, answered, not_post, on_signal, on_post, Reloader,
  at_select, loading, locking, replying, Server, load_succeeds, swap_config, reply, ServerReach,
  start, step, set, holds, init_server,
}
use snmp_exporter.Exporter.Server.Replies.{is_waiting, serves_post, waiting-eq-served}

is_waiting-waiting : {E : Type 0} (p : Poster E) → is_waiting p ≡ true → p ≡ waiting
is_waiting-waiting (asked m) e = cc
is_waiting-waiting sending e = cc
is_waiting-waiting waiting e = refl
is_waiting-waiting (answered a) e = cc
is_waiting-waiting not_post e = cc

module _ {A M E : Type 0} (debug : Bool) (i : ℕ) where
  -- There is a run from here to an answer.
  abbrev pub CanBeAnswered : Server A M E → Type 0
  CanBeAnswered t =
      (u : Server A M E) × ((e : Option E) × (ServerReach debug t u × (u.posters i ≡ answered e)))

  abbrev replied_to : Option E → Server A M E → Server A M E
  replied_to e t = record t { reloader = at_select; posters = set i (answered e) t.posters }

  replied_to-posters : (e : Option E) (t : Server A M E) → (replied_to e t).posters i ≡ answered e
  replied_to-posters e t = rw ((==_iff i i).1 refl) refl

  abbrev swapped : Config A M → Server A M E → Server A M E
  swapped conf t = record t { config = conf; reloader = replying i none }

  abbrev loaded : Config A M → Server A M E → Server A M E
  loaded conf t = record t { reloader = locking (on_post i) conf }

  module _ (t : Server A M E) (waits : t.posters i ≡ waiting)
      (free : (j : ℕ) → holds (t.readers j) ≡ false) where
    from_replying : (e : Option E) → t.reloader ≡ replying i e → CanBeAnswered t
    from_replying e p =
        (replied_to e t, (e, (step start (reply i e p waits), replied_to-posters e t)))

    from_locking : (conf : Config A M) → t.reloader ≡ locking (on_post i) conf → CanBeAnswered t
    from_locking conf p =
        let s = swapped conf t in
        (
          replied_to none s,
          (
            none,
            (
              step (step start (swap_config (on_post i) conf p free)) (reply i none refl waits),
              replied_to-posters none s,
            ),
          ),
        )

    from_loading : t.reloader ≡ loading (on_post i) → CanBeAnswered t
    from_loading p =
        let s = swapped t.config (loaded t.config t) in
        (
          replied_to none s,
          (
            none,
            (
              step
                  (step (step start (load_succeeds (on_post i) t.config p))
                    (swap_config (on_post i) t.config refl free))
                  (reply i none refl waits),
              replied_to-posters none s,
            ),
          ),
        )

    from_reloader : (r : Reloader A M E) → t.reloader ≡ r → serves_post i r ≡ true → CanBeAnswered t
    from_reloader at_select p e = absurd (ground arith)
    from_reloader (loading on_signal) p e = absurd (ground arith)
    from_reloader (loading (on_post j)) p e =
        from_loading (p ∙ ap (λ n. loading (on_post n)) (sym ((==_iff i j).0 e)))
    from_reloader (locking on_signal conf) p e = absurd (ground arith)
    from_reloader (locking (on_post j) conf) p e =
        from_locking conf (p ∙ ap (λ n. locking (on_post n) conf) (sym ((==_iff i j).0 e)))
    from_reloader (replying j a) p e =
        from_replying a (p ∙ ap (λ n. replying n a) (sym ((==_iff i j).0 e)))

-- Whenever a POST waits for its answer while no request holds the lock of the configuration, there is a
-- run of the goroutines in which it gets its answer.
pub waiting-CanBeAnswered :
    {A M E : Type 0} (debug : Bool) (config : Config A M) (queries : ℕ → Values)
    (methods : ℕ → Method) (t : Server A M E) (i : ℕ)
    → ServerReach debug (init_server config queries methods) t
    → is_waiting (t.posters i) ≡ true
    → ((j : ℕ) → holds (t.readers j) ≡ false)
    → CanBeAnswered debug i t
waiting-CanBeAnswered debug config queries methods t i reach w free =
    from_reloader debug i t (is_waiting-waiting (t.posters i) w) free t.reloader refl
      (sym (waiting-eq-served debug config queries methods t i reach) ∙ w)
