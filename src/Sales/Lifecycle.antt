-- ===== src/Sales/Lifecycle.antt =====
-- backend/app/sales/lifecycle.py and the views of engine.py: the state of a sale event at a time.
use price_intelligence_india.Base.{
  ◌≡◌, refl, Bool, true, false, List, [], ◌∷◌, ◌++◌, map, filter, all, compare, leb, ltb,
  if◌then◌else◌, arith, Bool-cases, inl, inr,
}
use price_intelligence_india.Base.Compare.{compare_list, is_le}
use price_intelligence_india.Base.Sort.{sort_by}
use price_intelligence_india.Domain.{
  Datetime, SaleEventStatus, before_event, during_event, after_event,
}
use price_intelligence_india.Validation.Outcome.{SaleEventFault, Validated, ok, ◌>>=◌}
use price_intelligence_india.Validation.SaleEvents.{
  Moment, fault, require_aware, validate_sale_event_dates,
}
use price_intelligence_india.Sales.Models.{SaleEventRecord, SaleEventView}

-- The comparisons of `event_status`
abbrev pub status_between : (start end at : Datetime) → SaleEventStatus
status_between start end at =
    if ltb at start then before_event else if ltb end at then after_event else during_event

unfoldable pub event_status : (start_date end_date at : Moment) → Validated SaleEventStatus
unfolding validate_sale_event_dates
event_status start_date end_date at = do
  (start, end) ← validate_sale_event_dates start_date end_date
  now ← require_aware at SaleEventFault.naive_comparison
  ok (status_between start end now)

abbrev pub record_status : SaleEventRecord → Moment → Validated SaleEventStatus
record_status event at =
    event_status (Moment.aware event.start_date) (Moment.aware event.end_date) at

abbrev pub instant : Moment → Datetime
instant (Moment.aware at) = at
instant (Moment.naive at) = at

unfoldable pub view_at : SaleEventRecord → Moment → Validated SaleEventView
unfolding event_status
view_at event at = do
  status ← record_status event at
  ok (record { event = event; status = status; as_of = instant at })

-- `[f(x) for x in xs]`, where `f` may raise
abbrev pub collect {ℓ κ} :
    {A : Type ℓ} {B : Type κ} → (A → Validated B) → List A → Validated (List B)
collect f [] = ok []
collect f (x ∷ xs) = do y ← f x; ys ← collect f xs; ok (y ∷ ys)

-- `SaleEventEngine.views`
unfoldable pub views : List SaleEventRecord → Moment → Validated (List SaleEventView)
unfolding view_at
views records at = collect (λ event. view_at event at) records

abbrev is_before_event : SaleEventStatus → Bool
is_before_event before_event = true
is_before_event _ = false

-- The view of a record of the comprehension in `upcoming`, if its test lets it through
abbrev view_if_upcoming : Moment → SaleEventRecord → Validated (List SaleEventView)
view_if_upcoming at event = do
  status ← record_status event at
  if is_before_event status then collect (λ e. view_at e at) (event ∷ []) else ok []

-- `(item.event.start_date, item.event.id)`
abbrev pub starts_sooner : SaleEventRecord → SaleEventRecord → Bool
starts_sooner a b =
    is_le (compare_list compare (a.start_date ∷ a.id ∷ []) (b.start_date ∷ b.id ∷ []))

abbrev pub view_starts_sooner : SaleEventView → SaleEventView → Bool
view_starts_sooner a b = starts_sooner a.event b.event

abbrev pub flatten {ℓ} : {A : Type ℓ} → List (List A) → List A
flatten [] = []
flatten (xs ∷ rest) = xs ++ flatten rest

-- `SaleEventEngine.upcoming`
unfoldable pub upcoming : List SaleEventRecord → Moment → Validated (List SaleEventView)
unfolding view_at
upcoming records at = do
  matching ← collect (view_if_upcoming at) records
  ok (sort_by view_starts_sooner (flatten matching))

-- An event does not end before it starts.
abbrev pub is_ordered : SaleEventRecord → Bool
is_ordered event = leb event.start_date event.end_date

abbrev pub upcoming_view : Datetime → SaleEventRecord → SaleEventView
upcoming_view now event = record { event = event; status = before_event; as_of = now }

pub record_status-ordered :
    (event : SaleEventRecord) (now : Datetime)
    → is_ordered event ≡ true
    → record_status event (Moment.aware now)
      ≡ ok (status_between event.start_date event.end_date now)
unfolding event_status
record_status-ordered event now h = ground arith

-- At an aware time, events with ordered dates have views, each with the status of its dates.
pub views-ordered :
    (records : List SaleEventRecord) (now : Datetime)
    → all is_ordered records ≡ true
    → views records (Moment.aware now)
      ≡ ok (
          map
            (λ e. record {
              event = e;
              status = status_between e.start_date e.end_date now;
              as_of = now;
            })
            records)
unfolding views
views-ordered [] now h = refl
views-ordered (e ∷ rest) now h =
    rw (record_status-ordered e now (ground arith), views-ordered rest now (ground arith)) refl

view_if_upcoming-ordered :
    (event : SaleEventRecord) (now : Datetime)
    → is_ordered event ≡ true
    → view_if_upcoming (Moment.aware now) event
      ≡ ok (if ltb now event.start_date then upcoming_view now event ∷ [] else [])
unfolding view_at
view_if_upcoming-ordered event now h = elim (Bool-cases (ltb now event.start_date)) [
  | inl t ↦ rw (record_status-ordered event now h, t) refl
  | inr t ↦ rw (record_status-ordered event now h, t) (ground arith)
]

upcoming-collected :
    (records : List SaleEventRecord) (now : Datetime)
    → all is_ordered records ≡ true
    → (found : List (List SaleEventView)) × (collect (view_if_upcoming (Moment.aware now)) records
        ≡ ok found)
      × (flatten found ≡ map (upcoming_view now) (filter (λ e. ltb now e.start_date) records))
upcoming-collected [] now h = ([], refl, refl)
upcoming-collected (e ∷ rest) now h =
    let (found, c, f) = upcoming-collected rest now (ground arith) in
    let first = view_if_upcoming-ordered e now (ground arith) in
    elim (Bool-cases (ltb now e.start_date)) [
      | inl t ↦ ((upcoming_view now e ∷ []) ∷ found, rw (first, c, t) refl, rw (t, f) refl)
      | inr t ↦ ([] ∷ found, rw (first, c, t) refl, rw (t, f) refl)
    ]

-- At an aware time, events with ordered dates are upcoming exactly if they start later; they are
-- given by their start and identity, as not begun, and nothing is raised.
pub upcoming-eq :
    (records : List SaleEventRecord) (now : Datetime)
    → all is_ordered records ≡ true
    → upcoming records (Moment.aware now)
      ≡ ok (
          sort_by view_starts_sooner
            (map (upcoming_view now) (filter (λ e. ltb now e.start_date) records)))
unfolding upcoming
upcoming-eq records now h = let (found, c, f) = upcoming-collected records now h in rw (c, f) refl

-- At a time without a timezone, the first event raises the error of the comparison.
pub upcoming-naive :
    (event : SaleEventRecord) (rest : List SaleEventRecord) (at : Datetime)
    → is_ordered event ≡ true
    → upcoming (event ∷ rest) (Moment.naive at) ≡ fault SaleEventFault.naive_comparison
unfolding upcoming
upcoming-naive event rest at h = ground arith
