-- ===== src/Incidents/Lists/Scope.antt =====
-- The clearance scope of the lists of incidents.
use incident_api.Base.{
  ℕ, ◌-◌, ◌*◌, ◌≤◌, ◌≡◌, ◌∙◌, sym, Bool, true, List, map, sort_by, All, All-map, All-mono,
  All-filter, All-always, All-sort, All-take, All-drop, leb→le, and_first, filter,
}
use incident_api.Model.Enums.{severity_rank}
use incident_api.Model.Rows.{Actor, Incident}
use incident_api.Model.World.{World}
use incident_api.Policy.{visibility_scope}
use incident_api.Policy.Visibility.{visibility_scope-eq}
use incident_api.Pagination.{count_and_find, by_place}
use incident_api.Incidents.Queries.{
  Search, IncidentListRow, list_row, build_where, mine_where, triage_queue_where,
  my_investigations_where, closures_pending_where, by_column, column_of, newest, queue_before, asc,
  count_and_join,
}
use incident_api.Incidents.Lists.{
  ListIncidentsQuery, IncidentListItem, to_incident_list_item, to_repository_filters, list, mine,
  get_triage_queue, my_investigations, get_closures_pending,
}
use incident_api.Incidents.Lists.Pages.{items_of}

abbrev pub InScope : Actor → IncidentListItem → Type 0
InScope actor item = severity_rank item.severity ≤ actor.clearance_level

module _ (updated : Incident → ℕ) (actor : Actor) (w : World) where
  scope-le :
      (row : Incident)
      → visibility_scope actor row ≡ true
      → severity_rank row.severity ≤ actor.clearance_level
  scope-le row h = leb→le _ _ (sym (visibility_scope-eq actor row) ∙ h)

  -- The table as a query reads it.
  abbrev read : World → List Incident
  read v = sort_by (by_place (λ (row : Incident). v.place row.id)) v.db.incidents

  -- A query whose condition implies the scope.
  rows-InScope :
      (before : Incident → Incident → Bool) (p : Incident → Bool) (page size : ℕ)
      → ((row : Incident) → p row ≡ true → visibility_scope actor row ≡ true)
      → All
          (InScope actor)
          (map (to_incident_list_item updated) ((count_and_join before p page size w).1))
  unfolding count_and_join count_and_find to_incident_list_item
  rows-InScope before p page size implies =
      let matching =
        All-mono _ (λ (row : Incident). severity_rank row.severity ≤ actor.clearance_level)
          (filter p (read w)) (λ row h. scope-le row (implies row h.1))
          (All-filter (λ _. Unit {0}) p (read w) (All-always _ (read w) (λ _. tt))) in
      All-map (InScope actor) (to_incident_list_item updated) _ (
        All-map (λ (row : IncidentListRow). InScope actor (to_incident_list_item updated row))
          (list_row w.db.users) _
          (All-take _ size _ (
            All-drop _ ((page - 1) * size) _ (
              All-sort before
                (λ (row : Incident). severity_rank row.severity ≤ actor.clearance_level)
                (filter p (read w)) matching))))

  -- Whatever the filters, every item of the five incident lists (search, mine, triage queue, my
  -- investigations, pending closures) is of a severity that the actor's clearance covers.
  pub lists-InScope :
      (text : Search) (query : ListIncidentsQuery) (page size : ℕ)
      → All (InScope actor) (items_of (list updated text actor query w))
        × All (InScope actor) (items_of (mine updated actor page size w))
        × All (InScope actor) (items_of (get_triage_queue updated actor page size w))
        × All (InScope actor) (items_of (my_investigations updated actor page size w))
        × All (InScope actor) (items_of (get_closures_pending updated actor page size w))
  unfolding list mine get_triage_queue my_investigations get_closures_pending build_where mine_where
      triage_queue_where my_investigations_where closures_pending_where
  lists-InScope text query page size = (
    rows-InScope (by_column (column_of updated query.sort) query.order)
        (build_where text actor (to_repository_filters query)) query.page query.page_size
        (λ row h. and_first _ _ h),
    rows-InScope newest (mine_where actor) page size (λ row h. and_first _ _ h),
    rows-InScope queue_before (triage_queue_where actor) page size (λ row h. and_first _ _ h),
    rows-InScope newest (my_investigations_where actor) page size (λ row h. and_first _ _ h),
    rows-InScope (by_column updated asc) (closures_pending_where actor) page size
        (λ row h. and_first _ _ h),
  )
