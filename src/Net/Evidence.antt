-- ===== src/Net/Evidence.antt =====
-- internal/netpolicy/evidence.go: which facts count. A time of 0 is the zero time.
use pins.Prelude.{
  ◌+◌, ◌*◌, Bool, true, false, not, ◌&&◌, ◌||◌, List, [], ◌∷◌, leb, ◌==◌, any, all, length,
}
use pins.Go.Text.{Str, codes, text_eq}
use pins.Go.Sort.{sort_by}
use pins.Lease.Types.{Time, minute}
use pins.Net.{Ref, ref_eq, NetEnv, ObserverWindow, Fact, ObservationRequest}

-- The loop over the two sorted lists, after their lengths are seen to be equal.
unfoldable pub same_order : List Ref → List Ref → Bool
same_order [] [] = true
same_order (a ∷ as') (b ∷ bs) = ref_eq a b && same_order as' bs
same_order _ _ = false

-- `!f.WindowEnd.IsZero() && ...`
unfoldable pub window_ok : Fact → Bool
window_ok f =
    f.window_end == 0
    || (not (f.window_start == 0)
        && leb f.window_start f.window_end
        && leb f.window_end f.observed_at)

-- A round of the loop over the windows of the observers.
unfoldable pub observer_ok : Fact → ObservationRequest → ObserverWindow → Bool
observer_ok f q w =
    not (w.start == 0)
    && leb w.start w.end_time
    && leb w.end_time f.observed_at
    && any (λ r. ref_eq r w.target) q.objects

unfoldable pub assurance_ok : Bool → Str → Bool
assurance_ok fixture assurance =
    text_eq assurance (codes "runtime_validated")
    || (text_eq assurance (codes "synthetic_runtime") && fixture)
    || text_eq assurance (codes "operator_attested")

module _ (h : NetEnv) where
  -- `sameRefs`
  unfoldable pub same_refs : List Ref → List Ref → Bool
  same_refs a b = length a == length b && same_order (sort_by h.hash_ref a) (sort_by h.hash_ref b)

  -- `validFact`
  unfoldable pub valid_fact : Fact → ObservationRequest → Time → Bool → Bool
  valid_fact f q now fixture =
      f.validated
      && ref_eq f.target q.target
      && same_refs f.scope q.objects
      && same_refs f.policies q.policies
      && leb f.observed_at now
      && leb now f.valid_until
      && leb f.valid_until (f.observed_at + 10 * minute)
      && assurance_ok fixture f.assurance
      && window_ok f
      && all (observer_ok f q) f.observer_windows
