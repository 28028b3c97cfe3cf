-- ===== src/Analytics/Totals.antt =====
-- The totals of the reports of src/modules/analytics, against an independent count.
use incident_api.Base.{
  ℕ, ◌+◌, ◌≤◌, ◌≡◌, refl, sym, ap, ◌∙◌, Bool, true, false, ◌&&◌, List, [], ◌∷◌, map, arith, ltb,
  leb, if◌then◌else◌, filter, find_where, count_where, Option,
}
use incident_api.Model.Enums.{
  Severity, IncidentType, low, medium, high, critical, severity_values, severity_rank,
  same_severity, same_stage,
}
use incident_api.Model.Rows.{Incident}
use incident_api.Policy.{visible_severities, visibility_scope}
use incident_api.Policy.Visibility.{visibility_scope-eq}
use incident_api.Base.{and_first, fun_ext}
use incident_api.Incidents.Queries.{AnalyticsPeriodFilters, one_of, same_type}
use incident_api.Incidents.Counts.{
  TypeSeverityCount, incident_type_values, flat_map, in_cell, group_rows, analytics_period_where,
}
use incident_api.Model.Rows.{Actor}
use incident_api.Model.World.{World}
use incident_api.Model.Exec.{ok}
use incident_api.Analytics.{
  PeriodQuery, TypeSeverityMatrix, Overview, matrix, overview, matrix_grand_total_cross_check,
  to_filters, raw_where, TypeCount, sum_of, count_of, count_by_key, matrix_cells, row_total,
  to_matrix_response,
}
use incident_api.Analytics.Sums.{
  sum-map, sum-append, sum-add, sum-zero, sum-congr, sum-filter, filter-append, find_absent,
}

abbrev counted : TypeSeverityCount → Bool
counted r = ltb 0 r.count

-- A row left out because it counts nothing reads as 0 all the same.
find_counted :
    (p : TypeSeverityCount → Bool) (rows : List TypeSeverityCount)
    → count_where p rows ≤ 1
    → count_of (find_where p (filter counted rows)) ≡ count_of (find_where p rows)
find_counted p [] h = refl
find_counted p (r ∷ rows) h = ground (arith, find_counted p rows, find_absent p counted rows)

abbrev cell : (IncidentType → Severity → ℕ) → IncidentType → Severity → TypeSeverityCount
cell f t s = record { type = t; severity = s; count = f t s }

abbrev table : (IncidentType → Severity → ℕ) → List Severity → List TypeSeverityCount
table f sevs = flat_map (λ t. map (cell f t) sevs) incident_type_values

abbrev at_key : IncidentType → Severity → TypeSeverityCount → Bool
at_key t s r = same_type r.type t && same_severity r.severity s

key_once :
    (f : IncidentType → Severity → ℕ) (t : IncidentType) (s : Severity)
    → count_where (at_key t s) (table f severity_values) ≡ 1
key_once f IncidentType.safety low = refl
key_once f t low = refl
key_once f IncidentType.safety medium = refl
key_once f t medium = refl
key_once f IncidentType.safety high = refl
key_once f t high = refl
key_once f IncidentType.safety critical = refl
key_once f t critical = refl

key_count :
    (f : IncidentType → Severity → ℕ) (t : IncidentType) (s : Severity)
    → count_of (find_where (at_key t s) (table f severity_values)) ≡ f t s
key_count f IncidentType.safety low = refl
key_count f t low = refl
key_count f IncidentType.safety medium = refl
key_count f t medium = refl
key_count f IncidentType.safety high = refl
key_count f t high = refl
key_count f IncidentType.safety critical = refl
key_count f t critical = refl

abbrev in_cell_count : (Incident → Bool) → List Incident → IncidentType → Severity → ℕ
in_cell_count p rows t s = count_where (λ row. in_cell t s row && p row) rows

group-count :
    (p : Incident → Bool) (rows : List Incident) (t : IncidentType) (s : Severity)
    → count_by_key (group_rows p rows) t s ≡ in_cell_count p rows t s
unfolding group_rows
group-count p rows t s =
    find_counted (at_key t s) (table (in_cell_count p rows) severity_values)
      (omega (arith, key_once (in_cell_count p rows) t s))
    ∙ key_count (in_cell_count p rows) t s

-- The cells of one type, in the rows of another.
block_sum :
    (f : IncidentType → Severity → ℕ) (t u : IncidentType) (sevs : List Severity)
    → sum_of
        (λ (c : TypeSeverityCount). c.count)
        (filter (λ (c : TypeSeverityCount). same_type c.type t) (map (cell f u) sevs))
      ≡ (if same_type u t then sum_of (f u) sevs else 0)
block_sum f t u [] = ground arith
block_sum f t u (s ∷ sevs) = ground (arith, block_sum f t u sevs)

-- The total of a row of the matrix.
row_sum :
    (f : IncidentType → Severity → ℕ) (t : IncidentType) (sevs : List Severity)
    → (row_total (table f sevs) t).count ≡ sum_of (f t) sevs
unfolding row_total
row_sum f t sevs = blocks incident_type_values ∙ alone t
  where
    blocks :
        (types : List IncidentType)
        → sum_of
            (λ (c : TypeSeverityCount). c.count)
            (filter
              (λ (c : TypeSeverityCount). same_type c.type t)
              (flat_map (λ u. map (cell f u) sevs) types))
          ≡ sum_of (λ u. if same_type u t then sum_of (f u) sevs else 0) types
    blocks [] = refl
    blocks (u ∷ types) =
        rw
          (
            filter-append,
            sum-append (λ (c : TypeSeverityCount). c.count),
            block_sum f t u sevs,
            blocks types,
          )
          refl

    alone :
        (v : IncidentType)
        → sum_of (λ u. if same_type u v then sum_of (f u) sevs else 0) incident_type_values
          ≡ sum_of (f v) sevs
    alone IncidentType.safety = omega arith
    alone v = omega arith

abbrev sum_cells : (IncidentType → Severity → ℕ) → List Severity → ℕ
sum_cells f sevs = sum_of (λ t. sum_of (f t) sevs) incident_type_values

abbrev one_if : Bool → ℕ
one_if b = if b then 1 else 0

none_of : (clearance : ℕ) → sum_of (λ s. 0) (visible_severities clearance) ≡ 0
none_of clearance = sum-zero (λ s. 0) (visible_severities clearance) (λ _. refl)

-- An incident lies in one cell of the severities that are shown.
severity_once :
    (clearance : ℕ) (v : Severity) (b : Bool)
    → sum_of (λ s. one_if (same_severity v s && b)) (visible_severities clearance)
      ≡ one_if (leb (severity_rank v) clearance && b)
unfolding visible_severities
severity_once clearance low b =
    sum-filter (λ s. one_if (same_severity low s && b)) (λ s. leb (severity_rank s) clearance)
      severity_values
    ∙ ground arith
severity_once clearance v b =
    sum-filter (λ s. one_if (same_severity v s && b)) (λ s. leb (severity_rank s) clearance)
      severity_values
    ∙ ground arith

cell_once :
    (clearance : ℕ) (u : IncidentType) (v : Severity) (b : Bool)
    → sum_cells
        (λ t s. one_if ((same_type u t && same_severity v s) && b))
        (visible_severities clearance)
      ≡ one_if (leb (severity_rank v) clearance && b)
cell_once clearance IncidentType.safety v b =
    omega (arith, none_of clearance, severity_once clearance v b)
cell_once clearance u v b = omega (arith, none_of clearance, severity_once clearance v b)

implied : (b q : Bool) → (b ≡ true → q ≡ true) → one_if (q && b) ≡ one_if b
implied true q h = rw (h refl) refl
implied false true h = refl
implied false false h = refl

-- The cells that are shown count every incident of the period once.
cells_total :
    (clearance : ℕ) (p : Incident → Bool) (rows : List Incident)
    → ((row : Incident) → p row ≡ true → leb (severity_rank row.severity) clearance ≡ true)
    → sum_cells (in_cell_count p rows) (visible_severities clearance) ≡ count_where p rows
cells_total clearance p [] shown =
    sum-zero (λ t. sum_of (λ s. 0) (visible_severities clearance)) incident_type_values
      (λ _. none_of clearance)
cells_total clearance p (row ∷ rows) shown =
    let here : IncidentType → Severity → ℕ = λ t s. one_if (in_cell t s row && p row) in
    let split =
      sum-congr (λ t. sum_of (in_cell_count p (row ∷ rows) t) (visible_severities clearance))
        (λ t.
          sum_of (here t) (visible_severities clearance)
          + sum_of (in_cell_count p rows t) (visible_severities clearance))
        incident_type_values
        (λ t. sum-add (here t) (in_cell_count p rows t) (visible_severities clearance)) in
    let added =
      sum-add (λ t. sum_of (here t) (visible_severities clearance))
        (λ t. sum_of (in_cell_count p rows t) (visible_severities clearance))
        incident_type_values in
    let once = cell_once clearance row.type row.severity (p row) in
    let rest = cells_total clearance p rows shown in
    let same = implied (p row) (leb (severity_rank row.severity) clearance) (shown row) in
    omega (arith, split, added, once, same, rest)

-- The grand total of the matrix over grouped rows.
pub grand_total_lem :
    (clearance : ℕ) (p : Incident → Bool) (rows : List Incident)
    → ((row : Incident) → p row ≡ true → leb (severity_rank row.severity) clearance ≡ true)
    → (to_matrix_response (visible_severities clearance) (group_rows p rows)).grand_total
      ≡ count_where p rows
unfolding to_matrix_response matrix_cells
grand_total_lem clearance p rows shown =
    let sevs : List Severity = visible_severities clearance in
    let key : IncidentType → Severity → ℕ = count_by_key (group_rows p rows) in
    sum-map (λ (r : TypeCount). r.count) (row_total (table key sevs)) incident_type_values
    ∙ sum-congr (λ t. (row_total (table key sevs) t).count) (λ t. sum_of (key t) sevs)
        incident_type_values (λ t. row_sum key t sevs)
    ∙ sum-congr (λ t. sum_of (key t) sevs) (λ t. sum_of (in_cell_count p rows t) sevs)
        incident_type_values
        (λ t. sum-congr (key t) (in_cell_count p rows t) sevs (group-count p rows t))
    ∙ cells_total clearance p rows shown

-- The condition of the raw queries is that of the grouped one.
rotate_and : (a b c : Bool) → (b && c && a) ≡ (a && b && c)
rotate_and a b c = ground arith

raw-period :
    (actor : Actor) (filters : AnalyticsPeriodFilters) (row : Incident)
    → raw_where (visible_severities actor.clearance_level) filters row
      ≡ analytics_period_where actor filters row
unfolding raw_where analytics_period_where visibility_scope
raw-period actor filters row =
    ap
      (λ (b : Bool).
        b
        && one_of (λ t. same_type row.type t) filters.type
        && one_of (λ s. same_stage row.stage s) filters.stage)
      (rotate_and (visibility_scope actor row) (leb filters.from_time row.created_at)
        (ltb row.created_at filters.to_time))

period-visible :
    (actor : Actor) (filters : AnalyticsPeriodFilters) (row : Incident)
    → analytics_period_where actor filters row ≡ true
    → leb (severity_rank row.severity) actor.clearance_level ≡ true
unfolding analytics_period_where
period-visible actor filters row h =
    let scoped = and_first _ _ (and_first _ _ (and_first _ _ (and_first _ _ h))) in
    sym (visibility_scope-eq actor row) ∙ scoped

-- For every actor and period, the overview's number of incidents, the grand total of the type by
-- severity matrix and the count of the cross check are the same number.
pub reports_agree :
    (percentile : ℕ → List (ℕ × ℕ) → Option ℕ) (actor : Actor) (query : PeriodQuery) (w : World)
    → (m : TypeSeverityMatrix) × (o : Overview) × (matrix actor query w ≡ (ok m, w))
      × (overview percentile actor query w ≡ (ok o, w))
      × (matrix_grand_total_cross_check actor query w ≡ (ok m.grand_total, w))
      × (o.total_incidents ≡ m.grand_total)
unfolding matrix overview matrix_grand_total_cross_check
reports_agree percentile actor query w =
    let p : Incident → Bool = analytics_period_where actor (to_filters query) in
    let total =
      grand_total_lem actor.clearance_level p w.db.incidents
        (period-visible actor (to_filters query)) in
    (
      _,
      _,
      refl,
      refl,
      ap (λ (n : ℕ). (ok n, w)) (sym total),
      ap (λ (q : Incident → Bool). count_where q w.db.incidents)
            (fun_ext (raw-period actor (to_filters query)))
          ∙ sym total,
    )
