-- ===== src/Incidents/Lists/Pages.antt =====
-- The pages of the list of incidents, `list` of src/modules/incidents/incident.service.ts.
use incident_api.Base.{
  ℕ, ◌-◌, ◌*◌, ◌≤◌, ◌≡◌, ◌≢◌, ◌⊎◌, inl, inr, Bool, true, false, List, [], map, length, length-map,
  map-map, fun_ext, ap, sym, ◌∙◌, sort_by, filter, take, drop, Unique, IsWeakOrder,
  ascending-IsWeakOrder, filter-sort, sort_twice, arith,
}
use incident_api.Model.Rows.{Actor, Incident}
use incident_api.Model.World.{World}
use incident_api.Model.Exec.{Result, ok, err}
use incident_api.Pagination.{OffsetPage, count_and_find, by_place}
use incident_api.Pagination.Offset.{read_pages, query_pages, page-le-size}
use incident_api.Incidents.Queries.{
  Search, Direction, asc, desc, by_column, column_of, list_row, build_where,
}
use incident_api.Incidents.Lists.{
  ListIncidentsQuery, IncidentListItem, to_incident_list_item, to_repository_filters, list,
}

abbrev pub items_of : {A : Type 0} → Result (OffsetPage A) × World → List A
items_of (ok page, w) = page.items
items_of (err e, w) = []

abbrev pub total_pages_of : {A : Type 0} → Result (OffsetPage A) × World → ℕ
total_pages_of (ok page, w) = page.total_pages
total_pages_of (err e, w) = 0

by_column-IsWeakOrder : (column : Incident → ℕ) (d : Direction) → IsWeakOrder (by_column column d)
by_column-IsWeakOrder column asc = ascending-IsWeakOrder column
by_column-IsWeakOrder column desc = record {
  asym = λ x y h. ground (arith, h);
  trans = λ x y z h k. ground (arith, h, k);
}

by_column-total :
    (column : Incident → ℕ) (d : Direction) (x y : Incident)
    → column y ≢ column x
    → by_column column d x y ≡ false
    → by_column column d y x ≡ true
by_column-total column asc x y n h = ground (arith, n, h)
by_column-total column desc x y n h = ground (arith, n, h)

-- A reader asks for one page after another. `places p` is where the query for page `p` puts the rows
-- that the column asked for does not tell apart.
module _ (search : Search) (updated : Incident → ℕ) (actor : Actor) (query : ListIncidentsQuery)
    (w : World) (places : (page id : ℕ) → ℕ) where
  -- The answer for one page of the query.
  abbrev pub page_answer : ℕ → Result (OffsetPage IncidentListItem) × World
  page_answer page =
      list updated search actor (record query { page = page }) (record w { place = places page })

  abbrev pub column : Incident → ℕ
  column = column_of updated query.sort

  abbrev order : Incident → Incident → Bool
  order = by_column column query.order

  abbrev passes : Incident → Bool
  passes = build_where search actor (to_repository_filters query)

  -- Every incident that the query matches.
  abbrev pub matching : List Incident
  matching = filter passes w.db.incidents

  abbrev page_place : ℕ → Incident → ℕ
  page_place page row = places page row.id

  -- The matching incidents in the order asked for, as the query for a page arranges them.
  abbrev pub arranged : ℕ → List Incident
  arranged page =
      sort_by order (filter passes (sort_by (by_place (page_place page)) w.db.incidents))

  -- Without ties the arrangement does not depend on the places.
  arranged_alike : (page : ℕ) → Unique column matching → arranged page ≡ sort_by order matching
  arranged_alike page u =
      ap (sort_by order) (
        filter-sort (by_place (page_place page)) (ascending-IsWeakOrder (page_place page)) passes
          w.db.incidents)
      ∙ sort_twice order (by_column-IsWeakOrder column query.order) column
          (by_column-total column query.order) (by_place (page_place page)) matching u

  arranged_first :
      Unique column matching ⊎ ((page : ℕ) → places page ≡ places 1)
      → (page : ℕ) → arranged page ≡ arranged 1
  arranged_first (inl u) page = arranged_alike page u ∙ sym (arranged_alike 1 u)
  arranged_first (inr same) page =
      ap
        (λ (place : ℕ → ℕ).
          sort_by order
            (filter passes (sort_by (by_place (λ (row : Incident). place row.id)) w.db.incidents)))
        (same page)

  abbrev page_rows_at : (place : ℕ) → ℕ → List Incident
  unfolding count_and_find
  page_rows_at place page =
      (count_and_find (page_place place) order passes w.db.incidents page query.page_size).1

  page_rows_alike :
      Unique column matching ⊎ ((page : ℕ) → places page ≡ places 1)
      → (page : ℕ) → page_rows_at page page ≡ page_rows_at 1 page
  unfolding count_and_find
  page_rows_alike settled page =
      ap (λ (rows : List Incident). take query.page_size (drop ((page - 1) * query.page_size) rows))
        (arranged_first settled page)

  -- With a page size of at least one, and if no two matching incidents have the same value in the
  -- column asked for, or every page's query arranges those that have alike, the pages 1 to
  -- totalPages of the incident list, one after another, are the matching incidents in the order
  -- asked for, each once; no page is longer than the page size.
  pub list_pages :
      (page : ℕ)
      → 1 ≤ query.page_size
      → Unique column matching ⊎ ((p : ℕ) → places p ≡ places 1)
      → (read_pages (λ p. items_of (page_answer p)) (total_pages_of (page_answer 1)) 1
          ≡ map (λ row. to_incident_list_item updated (list_row w.db.users row)) (arranged 1))
        × (length (items_of (page_answer page)) ≤ query.page_size)
  unfolding list count_and_find to_repository_filters
  list_pages page h settled =
      let item = to_incident_list_item updated in
      let shown : Incident → IncidentListItem = λ row. item (list_row w.db.users row) in
      let fused = fun_ext (λ p.
        map-map item (list_row w.db.users) (page_rows_at p p)
        ∙ ap (map shown) (page_rows_alike settled p)) in
      (
        ap (λ (f : ℕ → List IncidentListItem). read_pages f (total_pages_of (page_answer 1)) 1)
              fused
            ∙ query_pages shown (page_place 1) order passes w.db.incidents query.page_size h,
        rw (length-map item, length-map (list_row w.db.users))
            (page-le-size query.page_size (arranged page) page),
      )
