-- ===== src/Notes/Listing.antt =====
-- What `findAll` returns.
use mathlib.Core.List.Permᴰ
use kan_pad.Base.{ℕ, List, select, get_or}
use kan_pad.Base.Int.{ℤ, pos, ◌-ℤ◌, ◌*ℤ◌}
use kan_pad.Notes.Query.{ListNotesDto, matches, limit_of}
use kan_pad.Store.Entities.{Note, Db}
use kan_pad.Store.Laws.{IsLawful}
use kan_pad.Store.Repository.{Orm}

module _ (o : Orm) (laws : IsLawful o) (user_id : ℕ) (query : ListNotesDto) (db : Db) where
  abbrev rows_at : ℤ → ℤ → List Note
  rows_at limit skip = o.notes.find_page limit skip (matches o user_id query) db.notes

  abbrev rows : List Note
  rows = rows_at (limit_of o query) ((get_or query.page (pos 1) -ℤ pos 1) *ℤ limit_of o query)

  -- the rows that the query is about
  abbrev wanted : List Note
  wanted = select (matches o user_id query) db.notes
