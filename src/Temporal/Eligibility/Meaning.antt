-- ===== src/Temporal/Eligibility/Meaning.antt =====
-- What the tests of Eligibility mean: an independent account of when an extent holds.
use stacks.Base.{◌≤◌, ◌<◌, ◌&&◌, ◌≡◌, ◌↔◌, refl, Bool, true, Option, none, some, arith}
use Prim.Native.Nat.{max}
use stacks.Timepoint.{Time}
use stacks.Observation.Extents.{TemporalExtent, unknown, instant_at, interval, window}
use stacks.Temporal.Eligibility.{
  valid_time_eligibility, interval_contains, point_valid_time_eligibility, starts_before_end,
  temporal_extents_overlap,
}

abbrev AtLeast : Option Time → Time → Type 0
AtLeast none t = Unit
AtLeast (some s) t = s ≤ t

abbrev Under : Option Time → Time → Type 0
Under none t = Unit
Under (some e) t = t < e

-- The instants that an extent may cover: the instant, the half-open interval or window, and any
-- instant at all for an unknown extent.
abbrev pub Covers : TemporalExtent → Time → Type 0
Covers unknown t = Unit
Covers (instant_at i) t = t ≡ i
Covers (interval s e) t = AtLeast s t × Under e t
Covers (window s e) t = (s ≤ t) × (t < e)

-- The bounds leave room for an instant; no instant is before the earliest one, which is 0.
abbrev pub BoundsNonempty : Option Time → Option Time → Type 0
BoundsNonempty s none = Unit
BoundsNonempty none (some e) = 0 < e
BoundsNonempty (some s) (some e) = s < e

-- An extent that the constructors of core/observation make is not empty.
abbrev pub IsNonempty : TemporalExtent → Type 0
IsNonempty (interval s e) = BoundsNonempty s e
IsNonempty (window s e) = s < e
IsNonempty _ = Unit

-- What is asserted of an extent: that it holds wherever it covers, or only that it may hold.
abbrev pub IsDefinite : TemporalExtent → Type 0
IsDefinite unknown = ⊥
IsDefinite (window s e) = ⊥
IsDefinite _ = Unit

abbrev pub IsIndefinite : TemporalExtent → Type 0
IsIndefinite unknown = Unit
IsIndefinite (window s e) = Unit
IsIndefinite _ = ⊥

-- What a pair `eligible, uncertain` should say, where `C` tells whether the extent is in range.
abbrev pub Says : Bool × Bool → TemporalExtent → Type 0 → Type 0
Says r x C = ((r.0 ≡ true) ↔ (IsDefinite x × C)) × ((r.1 ≡ true) ↔ (IsIndefinite x × C))

interval_contains_iff :
    (s e : Option Time) (p : Time)
    → (interval_contains (interval s e) p ≡ true) ↔ (AtLeast s p × Under e p)
unfolding interval_contains
interval_contains_iff none none p = (λ h. (tt, tt), λ h. refl)
interval_contains_iff none (some e) p = (λ h. ground arith, λ h. ground arith)
interval_contains_iff (some s) none p = (λ h. ground arith, λ h. ground arith)
interval_contains_iff (some s) (some e) p = (λ h. ground arith, λ h. ground arith)

-- The point test: eligible exactly when a definite extent covers the point, uncertain exactly when
-- an indefinite extent does.
pub point_valid_time_eligibility_lem :
    (p : Time) (x : TemporalExtent) → Says (point_valid_time_eligibility p x) x (Covers x p)
unfolding point_valid_time_eligibility
point_valid_time_eligibility_lem p unknown =
    ((λ h. cc, λ h. absurd h.0), (λ h. (tt, tt), λ h. refl))
point_valid_time_eligibility_lem p (instant_at i) =
    ((λ h. (tt, ground arith), λ h. ground arith), (λ h. cc, λ h. absurd h.0))
point_valid_time_eligibility_lem p (interval s e) = (
  (λ h. (tt, (interval_contains_iff s e p).0 h), λ h. (interval_contains_iff s e p).1 h.1),
  (λ h. cc, λ h. absurd h.0),
)
point_valid_time_eligibility_lem p (window s e) =
    ((λ h. ground arith, λ h. absurd h.0), (λ h. ground arith, λ h. ground arith))

abbrev pub Meets : TemporalExtent → Time → Time → Type 0
Meets x a b = (t : Time) × (a ≤ t) × (t < b) × Covers x t

-- The window test, for a nonempty window and a nonempty extent: eligible exactly when a definite
-- extent covers an instant of the half-open window, uncertain exactly when an indefinite one does.
pub valid_time_eligibility_lem :
    (a b : Time) (x : TemporalExtent)
    → a < b
    → IsNonempty x
    → Says (valid_time_eligibility a b x) x (Meets x a b)
unfolding valid_time_eligibility
valid_time_eligibility_lem a b unknown w n =
    ((λ h. cc, λ h. absurd h.0), (λ h. (tt, (a, omega arith, w, tt)), λ h. refl))
valid_time_eligibility_lem a b (instant_at i) w n = (
  (λ h. (tt, (i, ground arith, ground arith, refl)), λ (u, (t, k, l, e)). ground arith),
  (λ h. cc, λ h. absurd h.0),
)
valid_time_eligibility_lem a b (interval none none) w n =
    ((λ h. (tt, (a, omega arith, w, (tt, tt))), λ h. refl), (λ h. cc, λ h. absurd h.0))
valid_time_eligibility_lem a b (interval none (some e)) w n = (
  (λ h. (tt, (a, omega arith, w, (tt, ground arith))), λ (u, (t, k, l, c)). ground arith),
  (λ h. cc, λ h. absurd h.0),
)
valid_time_eligibility_lem a b (interval (some s) none) w n = (
  (
    λ h. (tt, (max a s, ground arith, ground arith, (ground arith, tt))),
    λ (u, (t, k, l, c)). ground arith,
  ),
  (λ h. cc, λ h. absurd h.0),
)
valid_time_eligibility_lem a b (interval (some s) (some e)) w n = (
  (
    λ h. (tt, (max a s, ground arith, ground arith, (ground arith, ground arith))),
    λ (u, (t, k, l, c)). ground arith,
  ),
  (λ h. cc, λ h. absurd h.0),
)
valid_time_eligibility_lem a b (window s e) w n = (
  (λ h. ground arith, λ h. absurd h.0),
  (
    λ h. (tt, (max a s, ground arith, ground arith, (ground arith, ground arith))),
    λ (u, (t, k, l, c)). ground arith,
  ),
)

abbrev lower : Option Time → Time
lower none = 0
lower (some s) = s

bounds_meet_iff :
    (s e u f : Option Time)
    → BoundsNonempty s e
    → BoundsNonempty u f
    → ((starts_before_end s f && starts_before_end u e) ≡ true)
      ↔ ((t : Time) × (AtLeast s t × Under e t) × (AtLeast u t × Under f t))
bounds_meet_iff none none none none m n = (λ h. (0, (tt, tt), (tt, tt)), λ h. refl)
bounds_meet_iff s e u f m n =
    (λ h. (max (lower s) (lower u), ground arith, ground arith), λ (t, c, d). ground arith)

-- An instant and an extent that is none.
instant_meets_iff :
    {Q : Time → Type 0} (i : Time) (s e : Option Time)
    → ((t : Time) → (AtLeast s t × Under e t) ↔ Q t)
    → (interval_contains (interval s e) i ≡ true) ↔ ((t : Time) × (t ≡ i) × Q t)
instant_meets_iff i s e q = (
  λ h. (i, refl, (q i).0 ((interval_contains_iff s e i).0 h)),
  λ (t, p, c). (interval_contains_iff s e i).1 ((q i).1 (rw p at c)),
)

-- Two extents that are no instants.
spans_meet_iff :
    {P Q : Time → Type 0} (s e u f : Option Time)
    → BoundsNonempty s e
    → BoundsNonempty u f
    → ((t : Time) → (AtLeast s t × Under e t) ↔ P t)
    → ((t : Time) → (AtLeast u t × Under f t) ↔ Q t)
    → ((starts_before_end s f && starts_before_end u e) ≡ true) ↔ ((t : Time) × P t × Q t)
spans_meet_iff s e u f m n p q = (
  λ h. let (t, c, d) = (bounds_meet_iff s e u f m n).0 h in (t, (p t).0 c, (q t).0 d),
  λ (t, c, d). (bounds_meet_iff s e u f m n).1 (t, (p t).1 c, (q t).1 d),
)

everywhere : (t : Time) → (Unit {0} × Unit {0}) ↔ Unit {0}
everywhere t = (λ h. tt, λ h. (tt, tt))

within_bounds :
    (s e : Option Time) (t : Time) → (AtLeast s t × Under e t) ↔ (AtLeast s t × Under e t)
within_bounds s e t = (λ h. h, λ h. h)

abbrev swap_parts : {P Q : Time → Type 0} → ((t : Time) × P t × Q t) → (t : Time) × Q t × P t
swap_parts (t, c, d) = (t, d, c)

-- Two nonempty extents overlap, in the sense of the conflict test, exactly when both cover one
-- instant.
pub temporal_extents_overlap_lem :
    (x y : TemporalExtent)
    → IsNonempty x
    → IsNonempty y
    → (temporal_extents_overlap x y ≡ true) ↔ ((t : Time) × Covers x t × Covers y t)
unfolding temporal_extents_overlap
temporal_extents_overlap_lem (instant_at i) (instant_at j) m n =
    (λ h. (i, refl, ground arith), λ (t, e, f). ground arith)
temporal_extents_overlap_lem (instant_at i) unknown m n = instant_meets_iff i none none everywhere
temporal_extents_overlap_lem (instant_at i) (interval s e) m n =
    instant_meets_iff i s e (within_bounds s e)
temporal_extents_overlap_lem (instant_at i) (window s e) m n =
    instant_meets_iff i (some s) (some e) (within_bounds (some s) (some e))
temporal_extents_overlap_lem unknown (instant_at i) m n =
    let (to, from) = instant_meets_iff i none none everywhere in
    (λ h. swap_parts (to h), λ c. from (swap_parts c))
temporal_extents_overlap_lem (interval s e) (instant_at i) m n =
    let (to, from) = instant_meets_iff i s e (within_bounds s e) in
    (λ h. swap_parts (to h), λ c. from (swap_parts c))
temporal_extents_overlap_lem (window s e) (instant_at i) m n =
    let (to, from) = instant_meets_iff i (some s) (some e) (within_bounds (some s) (some e)) in
    (λ h. swap_parts (to h), λ c. from (swap_parts c))
temporal_extents_overlap_lem unknown unknown m n =
    spans_meet_iff none none none none m n everywhere everywhere
temporal_extents_overlap_lem unknown (interval u f) m n =
    spans_meet_iff none none u f m n everywhere (within_bounds u f)
temporal_extents_overlap_lem unknown (window u f) m n =
    spans_meet_iff none none (some u) (some f) m n everywhere (within_bounds (some u) (some f))
temporal_extents_overlap_lem (interval s e) unknown m n =
    spans_meet_iff s e none none m n (within_bounds s e) everywhere
temporal_extents_overlap_lem (interval s e) (interval u f) m n =
    spans_meet_iff s e u f m n (within_bounds s e) (within_bounds u f)
temporal_extents_overlap_lem (interval s e) (window u f) m n =
    spans_meet_iff s e (some u) (some f) m n (within_bounds s e) (within_bounds (some u) (some f))
temporal_extents_overlap_lem (window s e) unknown m n =
    spans_meet_iff (some s) (some e) none none m n (within_bounds (some s) (some e)) everywhere
temporal_extents_overlap_lem (window s e) (interval u f) m n =
    spans_meet_iff (some s) (some e) u f m n (within_bounds (some s) (some e)) (within_bounds u f)
temporal_extents_overlap_lem (window s e) (window u f) m n =
    spans_meet_iff (some s) (some e) (some u) (some f) m n (within_bounds (some s) (some e))
      (within_bounds (some u) (some f))
