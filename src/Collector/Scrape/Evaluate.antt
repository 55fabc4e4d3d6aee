-- ===== src/Collector/Scrape/Evaluate.antt =====
-- The evaluation of all filters: what each answer of the device adds.
use snmp_exporter.Common.{
  ◌≡◌, refl, sym, ap, ◌∙◌, Bool, true, false, ◌&&◌, List, [], ◌∷◌, ◌++◌, arith, some, none, all,
  Option-cases, inl, inr, >>=-eq-some,
}
use mathlib.Core.Path.{subst}
use snmp_exporter.Common.Text.{Bytes}
use snmp_exporter.Collector.Pdu.{Pdu, Host}
use snmp_exporter.Collector.Scrape.{
  DynamicFilter, Request, walk_request, Device, Filtering, filter_allowed_indices, evaluate_filter,
  evaluate_filters, update_walk_config, allow_targets,
}
use snmp_exporter.Collector.Scrape.Filter.{admits, filter_admits, admits-allow_targets}

and_true : (b : Bool) → (b && true) ≡ b
and_true true = refl
and_true false = refl

and_step : (p q r a : Bool) → p ≡ (q && r) → (p && a) ≡ (q && (r && a))
and_step p q r a e = ground arith

module _ {F32 F64 : Type 0} (host : Host F32 F64) (device : Device F32 F64) where
  -- Each filter in order is walked; it counts, with the indices that it allows, where its walk
  -- succeeds.
  pub data Evaluated
      : List DynamicFilter
        → List Request
        → List (List Bytes × List Bytes)
        → List Request
        → Type 0 where
    end : {h : List Request} → Evaluated [] h [] h
    failed :
        {f : DynamicFilter} {fs : List DynamicFilter} {h h' : List Request}
        {outs : List (List Bytes × List Bytes)}
        → device.on_walk h f.oid ≡ none
        → Evaluated fs (h ++ walk_request f.oid ∷ []) outs h'
        → Evaluated (f ∷ fs) h outs h'
    counted :
        {f : DynamicFilter} {fs : List DynamicFilter} {h h' : List Request}
        {outs : List (List Bytes × List Bytes)} {pdus : List (Pdu F32 F64)} {l : List Bytes}
        → device.on_walk h f.oid ≡ some pdus
        → filter_allowed_indices host f pdus [] ≡ some l
        → Evaluated fs (h ++ walk_request f.oid ∷ []) outs h'
        → Evaluated (f ∷ fs) h ((f.targets, l) ∷ outs) h'

  -- The filters that counted, and what they admit together.
  pub record Combined (fs : List DynamicFilter) (s s' : Filtering) : Type 0 where
    pub outcomes : List (List Bytes × List Bytes)
    pub evaluated : Evaluated fs s.history outcomes s'.history
    pub admitted :
        (t x : Bytes)
        → admits s'.allowed t x ≡ (admits s.allowed t x && all (filter_admits t x) outcomes)

  evaluate_failed :
      (f : DynamicFilter) (s : Filtering) {s' : Filtering}
      → device.on_walk s.history f.oid ≡ none
      → evaluate_filter host device f s ≡ some s'
      → s' ≡ record s { history = s.history ++ walk_request f.oid ∷ [] }
  unfolding evaluate_filter
  evaluate_failed f s w e = cc (rw (w, evaluate_filter) at e)

  evaluate_counted :
      (f : DynamicFilter) (s : Filtering) {s' : Filtering} {pdus : List (Pdu F32 F64)}
      → device.on_walk s.history f.oid ≡ some pdus
      → evaluate_filter host device f s ≡ some s'
      → (l : List Bytes) × (filter_allowed_indices host f pdus [] ≡ some l)
        × (s' ≡ record {
          history = s.history ++ walk_request f.oid ∷ [];
          walks = update_walk_config s.walks f;
          allowed = allow_targets f.targets l s.allowed;
        })
  unfolding evaluate_filter
  evaluate_counted f s {s'} {pdus} w e =
      let (l, el, es) =
        >>=-eq-some (filter_allowed_indices host f pdus []) _ (rw (w, evaluate_filter) at e) in
      (l, el, cc es)

  failed_step :
      (f : DynamicFilter) (fs : List DynamicFilter) (s t : Filtering) {s' : Filtering}
      → device.on_walk s.history f.oid ≡ none
      → t ≡ record s { history = s.history ++ walk_request f.oid ∷ [] }
      → Combined fs t s'
      → Combined (f ∷ fs) s s'
  failed_step f fs s t {s'} w e c = record {
    outcomes = c.outcomes;
    evaluated =
        failed w
          (subst (λ (r : Filtering). Evaluated fs r.history c.outcomes s'.history) e c.evaluated);
    admitted = λ u x.
        c.admitted u x
        ∙ ap (λ (r : Filtering). admits r.allowed u x && all (filter_admits u x) c.outcomes) e;
  }

  counted_step :
      (f : DynamicFilter) (fs : List DynamicFilter) (s t : Filtering) {s' : Filtering}
      {pdus : List (Pdu F32 F64)}
      → device.on_walk s.history f.oid ≡ some pdus
      → (l : List Bytes) × (filter_allowed_indices host f pdus [] ≡ some l)
        × (t ≡ record {
          history = s.history ++ walk_request f.oid ∷ [];
          walks = update_walk_config s.walks f;
          allowed = allow_targets f.targets l s.allowed;
        })
      → Combined fs t s'
      → Combined (f ∷ fs) s s'
  counted_step f fs s t {s'} w (l, el, e) c = record {
    outcomes = (f.targets, l) ∷ c.outcomes;
    evaluated =
        counted w el
          (subst (λ (r : Filtering). Evaluated fs r.history c.outcomes s'.history) e c.evaluated);
    admitted = λ u x.
        c.admitted u x
        ∙ ap (λ (r : Filtering). admits r.allowed u x && all (filter_admits u x) c.outcomes) e
        ∙ and_step _ _ _ _ (admits-allow_targets f.targets l s.allowed u x);
  }

  -- Where the evaluation of the filters ends, an index of a target is admitted exactly if it was
  -- before and every filter that counted and names the target allows it; a filter counts exactly if
  -- its walk succeeds, with the indices that its variables allow.
  pub evaluate_filters-Combined :
      (fs : List DynamicFilter) (s : Filtering) {s' : Filtering}
      → evaluate_filters host device fs s ≡ some s'
      → Combined fs s s'
  unfolding evaluate_filters
  evaluate_filters-Combined [] s {s'} e =
      let same : s ≡ s' = cc e in
      subst (Combined [] s) same (record {
        outcomes = [];
        evaluated = end;
        admitted = λ t x. sym (and_true (admits s.allowed t x));
      })
  evaluate_filters-Combined (f ∷ fs) s e =
      let (t, et, rest) = >>=-eq-some (evaluate_filter host device f s) _ e in
      let ih = evaluate_filters-Combined fs t rest in
      elim (Option-cases (device.on_walk s.history f.oid)) [
        | inl w ↦ failed_step f fs s t w (evaluate_failed f s w et) ih
        | inr (pdus, w) ↦ counted_step f fs s t w (evaluate_counted f s w et) ih
      ]
