-- ===== src/Sales/History/Counts.antt =====
-- What the loops of `_compute_variant` in sales/history.py count: each snapshot once.
use mathlib.Core.List.{List, [], ◌∷◌, ◌++◌, foldl}
use price_intelligence_india.Base.{
  suc, ◌≡◌, refl, ap, sym, ◌∙◌, Bool, true, false, ◌||◌, not, filter, any, all, length, ◌==◌, arith,
  Bool-cases, inl, inr,
}
use price_intelligence_india.Base.Members.{distinct_by, all-filter, all-of_filter}
use price_intelligence_india.Base.Sort.{sort_by}
use price_intelligence_india.Base.Distinct.{
  all-sort_by, distinct-filter, distinct-sort_by, any-sort_by,
}
use price_intelligence_india.Domain.{Uuid}
use price_intelligence_india.Pricing.History.Points.{
  HistoricalObservationPoint, qualifies_for_calculations, qualifying_observations, comes_before,
}
use price_intelligence_india.Sales.Models.{SaleEventRecord, SalePricePoint}
use price_intelligence_india.Sales.Applicability.{belongs_to, observations_during_event}
use price_intelligence_india.Sales.Lifecycle.{starts_sooner}
use price_intelligence_india.Sales.History.Engine.{
  Points, is_in, snapshot_ids, observations_of, qualifying_sale_points, Gathered, add_unseen,
  nothing_seen, gather,
}

abbrev snapshot : HistoricalObservationPoint → Uuid
snapshot p = p.snapshot_id

is_in-same :
    (seen : List Uuid) (p o : HistoricalObservationPoint)
    → (p.snapshot_id == o.snapshot_id) ≡ true
    → is_in seen p ≡ is_in seen o
is_in-same [] p o h = refl
is_in-same (id ∷ ids) p o h = ground (arith, is_in-same ids p o)

-- One point more

add_unseen-seen :
    (g : Gathered) (p o : HistoricalObservationPoint)
    → is_in (add_unseen g p).seen o ≡ (is_in g.seen o || (p.snapshot_id == o.snapshot_id))
unfolding add_unseen
add_unseen-seen g p o = elim (Bool-cases (is_in g.seen p)) [
  | inl e ↦ rw e (ground (arith, is_in-same g.seen p o))
  | inr e ↦ rw e (ground arith)
]

not_extended :
    (seen : List Uuid) (p : HistoricalObservationPoint) (rest : Points)
    → all (λ q. not (p.snapshot_id == q.snapshot_id)) rest ≡ true
    → length (filter (is_in (p.snapshot_id ∷ seen)) rest) ≡ length (filter (is_in seen) rest)
not_extended seen p [] h = refl
not_extended seen p (q ∷ rest) h = ground (arith, not_extended seen p rest)

renamed :
    (p q : HistoricalObservationPoint) (rest : Points)
    → (q.snapshot_id == p.snapshot_id) ≡ true
    → all (λ r. not (q.snapshot_id == r.snapshot_id)) rest ≡ true
    → all (λ r. not (p.snapshot_id == r.snapshot_id)) rest ≡ true
renamed p q [] h k = refl
renamed p q (r ∷ rest) h k = ground (arith, renamed p q rest)

-- A member that is not seen counts for one.
extended :
    (seen : List Uuid) (p : HistoricalObservationPoint) (qs : Points)
    → is_in seen p ≡ false
    → distinct_by snapshot qs ≡ true
    → is_in (snapshot_ids qs) p ≡ true
    → length (filter (is_in (p.snapshot_id ∷ seen)) qs) ≡ suc (length (filter (is_in seen) qs))
extended seen p [] n d m = cc
extended seen p (q ∷ rest) n d m = elim (Bool-cases (q.snapshot_id == p.snapshot_id)) [
  | inl e ↦
      ground
        (arith, is_in-same seen q p e, not_extended seen p rest (renamed p q rest e (ground arith)))
  | inr e ↦ ground (arith, extended seen p rest n)
]

length-append :
    (ps : Points) (p : HistoricalObservationPoint) → length (ps ++ p ∷ []) ≡ suc (length ps)
length-append [] p = refl
length-append (x ∷ ps) p = omega (arith, length-append ps p)

all-observations :
    (test : HistoricalObservationPoint → Bool) (points : List SalePricePoint)
    → all (λ p. test p.observation) points ≡ true
    → all test (observations_of points) ≡ true
all-observations test [] m = refl
all-observations test (p ∷ points) m = ground (arith, all-observations test points)

during-members :
    (test : HistoricalObservationPoint → Bool) (event : SaleEventRecord)
    (points : List SalePricePoint)
    → all (λ p. test p.observation) points ≡ true
    → all test (observations_during_event event points) ≡ true
unfolding observations_during_event
during-members test event points m =
    all-sort_by comes_before test (observations_of (filter (belongs_to event) points)) (
      all-observations test (filter (belongs_to event) points)
        (all-of_filter (λ (p : SalePricePoint). test p.observation) (belongs_to event) points m))

-- The loops, over the qualifying observations `qs`
module _ (qs : Points) (distinct : distinct_by snapshot qs ≡ true) where
  abbrev Counted : Gathered → Type 0
  Counted g = length g.in_any_event ≡ length (filter (is_in g.seen) qs)

  add_unseen-Counted :
      (g : Gathered) (p : HistoricalObservationPoint)
      → is_in (snapshot_ids qs) p ≡ true
      → Counted g
      → Counted (add_unseen g p)
  unfolding add_unseen
  add_unseen-Counted g p m c = elim (Bool-cases (is_in g.seen p)) [
    | inl e ↦ rw e c
    | inr e ↦
        rw e (length-append g.in_any_event p ∙ ap suc c ∙ sym (extended g.seen p qs e distinct m))
  ]

  window-Counted :
      (g : Gathered) (during : Points)
      → all (is_in (snapshot_ids qs)) during ≡ true
      → Counted g
      → Counted (foldl add_unseen g during)
  window-Counted g [] m c = c
  window-Counted g (p ∷ ps) m c =
      window-Counted (add_unseen g p) ps (ground arith) (add_unseen-Counted g p (ground arith) c)

  events-Counted :
      (points : List SalePricePoint) (g : Gathered) (events : List SaleEventRecord)
      → all (λ p. is_in (snapshot_ids qs) p.observation) points ≡ true
      → Counted g
      → Counted
          (foldl (λ h event. foldl add_unseen h (observations_during_event event points)) g events)
  events-Counted points g [] m c = c
  events-Counted points g (e ∷ events) m c =
      events-Counted points (foldl add_unseen g (observations_during_event e points)) events m (
        window-Counted g (observations_during_event e points)
          (during-members (is_in (snapshot_ids qs)) e points m) c)

-- What the loops have seen

window-seen :
    (g : Gathered) (during : Points) (o : HistoricalObservationPoint)
    → is_in (foldl add_unseen g during).seen o ≡ (is_in g.seen o || is_in (snapshot_ids during) o)
window-seen g [] o = ground arith
window-seen g (p ∷ ps) o = ground (arith, window-seen (add_unseen g p) ps o, add_unseen-seen g p o)

-- The window of some event has the observation.
abbrev pub is_in_some_window :
    List SaleEventRecord → List SalePricePoint → HistoricalObservationPoint → Bool
is_in_some_window events points o =
    any (λ event. is_in (snapshot_ids (observations_during_event event points)) o) events

events-seen :
    (points : List SalePricePoint) (g : Gathered) (events : List SaleEventRecord)
    (o : HistoricalObservationPoint)
    → is_in
        (foldl
          (λ h event. foldl add_unseen h (observations_during_event event points))
          g
          events).seen
        o
      ≡ (is_in g.seen o || is_in_some_window events points o)
events-seen points g [] o = ground arith
events-seen points g (e ∷ events) o =
    let during = observations_during_event e points in
    ground (arith, events-seen points (foldl add_unseen g during) events o, window-seen g during o)

qualifying-distinct :
    (ps : Points)
    → distinct_by snapshot ps ≡ true
    → distinct_by snapshot (qualifying_observations ps) ≡ true
unfolding qualifying_observations
qualifying-distinct ps d =
    distinct-sort_by snapshot comes_before (filter qualifies_for_calculations ps)
      (distinct-filter snapshot qualifies_for_calculations ps d)

pub none_kept : (ps : Points) → 0 ≡ length (filter (λ p. false) ps)
none_kept [] = refl
none_kept (p ∷ ps) = none_kept ps

pub gather-Counted :
    (points : List SalePricePoint) (events : List SaleEventRecord)
    → distinct_by snapshot (observations_of points) ≡ true
    → let qs = qualifying_observations (observations_of points) in
      let g = gather (qualifying_sale_points points) events in
      length g.in_any_event ≡ length (filter (is_in g.seen) qs)
unfolding gather
gather-Counted points events d =
    let qs = qualifying_observations (observations_of points) in
    events-Counted qs (qualifying-distinct (observations_of points) d)
      (qualifying_sale_points points) nothing_seen events
      (all-filter (λ (p : SalePricePoint). is_in (snapshot_ids qs) p.observation) points)
      (none_kept qs)

pub gather-seen :
    (points : List SalePricePoint) (events : List SaleEventRecord) (o : HistoricalObservationPoint)
    → is_in (gather points (sort_by starts_sooner events)).seen o
      ≡ is_in_some_window events points o
unfolding gather
gather-seen points events o =
    events-seen points nothing_seen (sort_by starts_sooner events) o
    ∙ any-sort_by starts_sooner
        (λ (event : SaleEventRecord).
          is_in (snapshot_ids (observations_during_event event points)) o)
        events
