-- ===== src/Exporter/Server/Replies.antt =====
-- A POST in main.go waits exactly while the reloader works for it.
use snmp_exporter.Common.{
  ℕ, ◌≡◌, refl, sym, ap, ◌∙◌, Bool, true, false, ◌==◌, arith, Option, some, none, Bool-cases, inl,
  inr, ==_iff,
}
use mathlib.Core.Path.{subst}
use snmp_exporter.Exporter.Request.{Values, Config}
use snmp_exporter.Exporter.Server.{
  Method, post, other_method, Poster, waiting, answered, after_method, Cause, on_signal, on_post,
  Reloader, at_select, loading, locking, replying, after_reload, Server, ServerStep, check,
  lock_read, read_auth, read_module, unlock, switch_method, receive_signal, take_signal, take_post,
  load_fails, load_succeeds, swap_config, reply, ServerReach, start, step, set, init_server,
}

abbrev pub is_waiting : {E : Type 0} → Poster E → Bool
is_waiting waiting = true
is_waiting _ = false

abbrev pub is_for : ℕ → Cause → Bool
is_for i on_signal = false
is_for i (on_post j) = i == j

-- The reloader works for the request with the number.
abbrev pub serves_post : {A M E : Type 0} → ℕ → Reloader A M E → Bool
serves_post i at_select = false
serves_post i (loading c) = is_for i c
serves_post i (locking c conf) = is_for i c
serves_post i (replying j e) = i == j

is_waiting-after_method : (E : Type 0) (m : Method) → is_waiting (after_method {E = E} m) ≡ false
is_waiting-after_method E post = refl
is_waiting-after_method E other_method = refl

serves_post-after_reload :
    (A M : Type 0) {E : Type 0} (i : ℕ) (c : Cause) (e : Option E)
    → serves_post i (after_reload {A = A} {M = M} c e) ≡ is_for i c
serves_post-after_reload A M i on_signal e = refl
serves_post-after_reload A M i (on_post j) e = refl

module _ {A M E : Type 0} where
  abbrev Matched : Server A M E → Type 0
  Matched t = (i : ℕ) → is_waiting (t.posters i) ≡ serves_post i t.reloader

  -- The answer or the method of one request, and what the reloader does next.
  Matched-set :
      (f : ℕ → Poster E) (x : Poster E) (i : ℕ) (r q : Reloader A M E)
      → ((j : ℕ) → is_waiting (f j) ≡ serves_post j r)
      → is_waiting x ≡ serves_post i q
      → ((j : ℕ) → (j == i) ≡ false → serves_post j q ≡ serves_post j r)
      → (j : ℕ) → is_waiting (set i x f j) ≡ serves_post j q
  Matched-set f x i r q h p e j = elim (Bool-cases (j == i)) [
    | inl same ↦ rw same (subst (λ k. is_waiting x ≡ serves_post k q) (sym ((==_iff j i).0 same)) p)
    | inr other ↦ rw other (h j ∙ sym (e j other))
  ]

  module _ (debug : Bool) where
    ServerStep-Matched : (t u : Server A M E) → Matched t → ServerStep debug t u → Matched u
    ServerStep-Matched t u h (check i query p) = h
    ServerStep-Matched t u h (lock_read i query names p) = h
    ServerStep-Matched t u h (read_auth i query names p) = h
    ServerStep-Matched t u h (read_module i query auth m names nmodules p) = h
    ServerStep-Matched t u h (unlock i query auth nmodules p) = h
    ServerStep-Matched t u h (switch_method i method p) =
        Matched-set t.posters (after_method method) i t.reloader t.reloader h
          (is_waiting-after_method E method ∙ (ap is_waiting (sym p) ∙ h i)) (λ j e. refl)
    ServerStep-Matched t u h receive_signal = h
    ServerStep-Matched t u h (take_signal p q) = λ j. h j ∙ ap (serves_post j) p
    ServerStep-Matched t u h (take_post i p q) =
        Matched-set t.posters waiting i t.reloader (loading (on_post i)) h (ground arith)
          (λ j e. e ∙ ap (serves_post j) (sym p))
    ServerStep-Matched t u h (load_fails c e p) =
        λ j. h j ∙ (ap (serves_post j) p ∙ sym (serves_post-after_reload A M j c (some e)))
    ServerStep-Matched t u h (load_succeeds c conf p) = λ j. h j ∙ ap (serves_post j) p
    ServerStep-Matched t u h (swap_config c conf p free) =
        λ j. h j ∙ (ap (serves_post j) p ∙ sym (serves_post-after_reload A M j c none))
    ServerStep-Matched t u h (reply i e p q) =
        Matched-set t.posters (answered e) i t.reloader at_select h refl
          (λ j other. sym (ap (serves_post j) p ∙ other))

    ServerReach-Matched : (s t : Server A M E) → Matched s → ServerReach debug s t → Matched t
    ServerReach-Matched s t h start = h
    ServerReach-Matched s t h (step reach last) =
        ServerStep-Matched _ t (ServerReach-Matched s _ h reach) last

-- At any time a POST waits for its answer exactly if the reloader loads, swaps or answers for it.
pub waiting-eq-served :
    {A M E : Type 0} (debug : Bool) (config : Config A M) (queries : ℕ → Values)
    (methods : ℕ → Method) (t : Server A M E) (i : ℕ)
    → ServerReach debug (init_server config queries methods) t
    → is_waiting (t.posters i) ≡ serves_post i t.reloader
unfolding init_server
waiting-eq-served debug config queries methods t i reach =
    ServerReach-Matched debug (init_server config queries methods) t (λ j. refl) reach i
