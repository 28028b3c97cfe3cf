-- ===== src/Investigation/Pages.antt =====
-- `listNotes` of src/modules/investigation/investigation.service.ts and its query.
use incident_api.Base.{ℕ, suc, ◌&&◌, Option, some, List, map}
use incident_api.Model.Text.{Text}
use incident_api.Model.Rows.{Actor, User, InvestigationNote}
use incident_api.Model.Exec.{Exec, pure, gets, lift, ◌>>=◌}
use incident_api.Pagination.{CursorPage, cursor_page, find_first_rows}
use incident_api.Pagination.Tokens.{
  Codec, TimeIdWhere, time_id_bound, optional_cursor, encode_created_at_id_cursor,
  decode_created_at_id_cursor,
}
use incident_api.Pagination.Cursors.{newest_first}
use incident_api.Incidents.Repository.{find_user}
use incident_api.Incidents.Mapper.{UserRef, user_ref}
use incident_api.Investigation.{assert_read_access, note_scope}

-- `NoteRow`: the note with its author.
pub record NoteRow : Type 0 where
  pub note : InvestigationNote
  pub author : Option UserRef

-- `InvestigationNote` of the contract.
pub record NoteItem : Type 0 where
  pub id : ℕ
  pub incident_id : ℕ
  pub author : Option UserRef
  pub body : Text
  pub created_at : ℕ

unfoldable pub to_investigation_note : NoteRow → NoteItem
to_investigation_note row = record {
  id = row.note.id;
  incident_id = row.note.incident_id;
  author = row.author;
  body = row.note.body;
  created_at = row.note.created_at;
}

abbrev pub note_time : InvestigationNote → ℕ
note_time note = note.created_at

abbrev pub note_id : InvestigationNote → ℕ
note_id note = note.id

abbrev pub note_row : List User → InvestigationNote → NoteRow
note_row users note = record {
  note = note;
  author = user_ref (find_user (some note.author_id) users);
}

unfoldable pub find_notes_page :
    Actor → (incident_id : ℕ) → TimeIdWhere → (page_size : ℕ) → Exec (List NoteRow)
unfolding note_scope
find_notes_page actor incident_id bound page_size = gets (λ w. map (note_row w.db.users) (
    find_first_rows (newest_first note_time note_id)
      (λ note. note_scope actor incident_id w.db.incidents note && bound (note_time note) note.id)
      (suc page_size) w.db.notes))

module _ (codec : Codec) where
  abbrev pub note_cursor : NoteRow → Text
  unfolding encode_created_at_id_cursor
  note_cursor row = encode_created_at_id_cursor codec row.note.created_at row.note.id

  unfoldable pub notes_after :
      Actor → (incident_id : ℕ) → Option Text → (page_size : ℕ) → Exec (CursorPage NoteItem)
  unfolding optional_cursor decode_created_at_id_cursor time_id_bound find_notes_page cursor_page
      to_investigation_note note_cursor
  notes_after actor incident_id cursor_raw page_size = do
    cursor ← lift (optional_cursor (decode_created_at_id_cursor codec) cursor_raw)
    bound ← lift (time_id_bound cursor)
    rows ← find_notes_page actor incident_id bound page_size
    pure (cursor_page to_investigation_note note_cursor page_size rows)

  unfoldable pub list_notes :
      Actor
      → (incident_id : ℕ) → (cursor_raw : Option Text) → (page_size : ℕ)
      → Exec (CursorPage NoteItem)
  unfolding assert_read_access notes_after
  list_notes actor incident_id cursor_raw page_size = do
    row ← assert_read_access actor incident_id
    notes_after actor incident_id cursor_raw page_size
