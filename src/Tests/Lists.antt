-- ===== src/Tests/Lists.antt =====
-- Pages of lists, and reports, over the database of the fixtures.
use incident_api.Base.{
  ℕ, ◌-◌, ◌≤◌, ◌≡◌, refl, true, none, some, inl, List, [], ◌∷◌, map, arith, All, Unique, length,
  ltb, if◌then◌else◌,
}
use incident_api.Model.Enums.{reported, investigation, pending_closure}
use incident_api.Model.Rows.{Actor, Incident}
use incident_api.Model.Exec.{ok}
use incident_api.Pagination.{date_only}
use incident_api.Pagination.Tokens.{
  given, encode_created_at_id_cursor, decode_created_at_id_cursor, encode_occurred_at_id_cursor,
  decode_occurred_at_id_cursor, encode_escalation_feed_cursor, decode_escalation_feed_cursor,
}
use incident_api.Pagination.Cursors.{cursor_tags, mismatch}
use incident_api.Pagination.Offset.{read_pages}
use incident_api.Policy.{visibility_scope, visible_severities, effective_severities}
use incident_api.Incidents.Queries.{build_where, Search, severity, desc, list_row}
use incident_api.Incidents.Lists.{
  ListIncidentsQuery, IncidentListItem, to_repository_filters, to_incident_list_item, list, mine,
  get_triage_queue, my_investigations, get_closures_pending,
}
use incident_api.Incidents.Lists.Pages.{
  items_of, total_pages_of, page_answer, column, matching, list_pages,
}
use incident_api.Incidents.Lists.Scope.{InScope, lists-InScope}
use incident_api.Analytics.{
  PeriodQuery, TypeSeverityMatrix, Overview, matrix, overview, matrix_grand_total_cross_check,
}
use incident_api.Analytics.Totals.{reports_agree}
use incident_api.Tests.Fixtures.{
  long_text, manager, low_manager, fresh, urgent, awaiting, start, users,
}
use incident_api.Tests.Codecs.{plain_codec}

cursor_tags_example :
    ((decode_created_at_id_cursor plain_codec (encode_created_at_id_cursor plain_codec 50 7)
        ≡ ok (record { time = some 50; id = given 7 }))
      × (decode_occurred_at_id_cursor plain_codec (encode_occurred_at_id_cursor plain_codec 50 7)
          ≡ ok (record { time = some 50; id = given 7 }))
      × (decode_escalation_feed_cursor plain_codec
            (encode_escalation_feed_cursor plain_codec 2 50 7)
          ≡ ok (record { level = given 2; since = some 50; id = given 7 })))
    × ((decode_created_at_id_cursor plain_codec (encode_occurred_at_id_cursor plain_codec 50 7)
          ≡ mismatch)
        × (decode_created_at_id_cursor plain_codec
              (encode_escalation_feed_cursor plain_codec 2 50 7)
            ≡ mismatch)
        × (decode_occurred_at_id_cursor plain_codec (encode_created_at_id_cursor plain_codec 50 7)
            ≡ mismatch)
        × (decode_occurred_at_id_cursor plain_codec
              (encode_escalation_feed_cursor plain_codec 2 50 7)
            ≡ mismatch)
        × (decode_escalation_feed_cursor plain_codec (encode_created_at_id_cursor plain_codec 50 7)
            ≡ mismatch)
        × (decode_escalation_feed_cursor plain_codec (encode_occurred_at_id_cursor plain_codec 50 7)
            ≡ mismatch))
    × ((decode_created_at_id_cursor plain_codec (9 ∷ []) ≡ mismatch)
        × (decode_occurred_at_id_cursor plain_codec (9 ∷ []) ≡ mismatch)
        × (decode_escalation_feed_cursor plain_codec (9 ∷ []) ≡ mismatch))
cursor_tags_example = cursor_tags plain_codec 2 50 7 (9 ∷ []) refl

-- A search in which every text contains every other, and rows that were never updated.
abbrev no_search : Search
no_search = record { contains_insensitive = λ s q. true; to_upper = λ s. s }

abbrev never : Incident → ℕ
never row = 0

abbrev severest_first : ListIncidentsQuery
severest_first = record {
  page = 1;
  page_size = 2;
  severity = none;
  stage = none;
  type = none;
  assigned_to_me = none;
  reported_by_me = some true;
  unacknowledged = none;
  escalated_only = none;
  from_date = none;
  to_date = none;
  q = none;
  sort = severity;
  order = desc;
}

abbrev reporter_with_clearance : Actor
reporter_with_clearance = record low_manager { id = 4; clearance_level = 4 }

-- The queries of two pages may arrange ties differently: by id, and against it from page 3 on.
abbrev turning : (page id : ℕ) → ℕ
turning page id = if ltb page 3 then id else 100 - id

-- Open incidents only: no two of these are of the same severity.
abbrev open_only : ListIncidentsQuery
open_only = record severest_first { stage = some (reported ∷ investigation ∷ pending_closure ∷ []) }

open_only-Unique :
    Unique
      (column no_search never reporter_with_clearance open_only (start long_text) turning)
      (matching no_search never reporter_with_clearance open_only (start long_text) turning)
unfolding build_where visibility_scope visible_severities effective_severities to_repository_filters
open_only-Unique = ground arith

list_pages_example :
    (read_pages
        (λ p. items_of (
          page_answer no_search never reporter_with_clearance open_only
            (start long_text)
            turning
            p))
        (total_pages_of (
          page_answer no_search never reporter_with_clearance open_only
            (start long_text)
            turning
            1))
        1
      ≡ map
          (λ row. to_incident_list_item never (list_row users row))
          (urgent ∷ awaiting long_text ∷ fresh ∷ []))
    × (length (
          items_of (
            page_answer no_search never reporter_with_clearance open_only
              (start long_text)
              turning
              2))
        ≤ 2)
unfolding build_where visibility_scope visible_severities effective_severities to_repository_filters
list_pages_example =
    list_pages no_search never reporter_with_clearance open_only (start long_text) turning 2
      (omega arith) (inl open_only-Unique)

-- With a tie and pages of one, the awaiting incident is shown twice and the finished one never.
abbrev single : ListIncidentsQuery
single = record severest_first { page_size = 1 }

abbrev shown : (page : ℕ) → List IncidentListItem
unfolding list
shown page =
    items_of
      (page_answer no_search never reporter_with_clearance single (start long_text) turning page)

tied_row_twice :
    (shown 2 ≡ to_incident_list_item never (list_row users (awaiting long_text)) ∷ [])
    × (shown 3 ≡ to_incident_list_item never (list_row users (awaiting long_text)) ∷ [])
unfolding shown list build_where visibility_scope visible_severities effective_severities
    to_repository_filters
tied_row_twice = (refl, refl)

lists-InScope_example :
    All
      (InScope low_manager)
      (items_of (list never no_search low_manager severest_first (start long_text)))
    × All (InScope low_manager) (items_of (mine never low_manager 1 5 (start long_text)))
    × All
        (InScope low_manager)
        (items_of (get_triage_queue never low_manager 1 5 (start long_text)))
    × All
        (InScope low_manager)
        (items_of (my_investigations never low_manager 1 5 (start long_text)))
    × All
        (InScope low_manager)
        (items_of (get_closures_pending never low_manager 1 5 (start long_text)))
lists-InScope_example =
    lists-InScope never low_manager (start long_text) no_search severest_first 1 5

abbrev first_day : PeriodQuery
first_day = record { from_date = date_only 0; to_date = date_only 0; type = none; stage = none }

reports_agree_example :
    (m : TypeSeverityMatrix) × (o : Overview) × (matrix manager first_day (start long_text)
      ≡ (ok m, start long_text))
    × (overview (λ k ts. none) manager first_day (start long_text) ≡ (ok o, start long_text))
    × (matrix_grand_total_cross_check manager first_day (start long_text)
        ≡ (ok m.grand_total, start long_text))
    × (o.total_incidents ≡ m.grand_total)
reports_agree_example = reports_agree (λ k ts. none) manager first_day (start long_text)
