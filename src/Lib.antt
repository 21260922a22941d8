-- ===== src/Lib.antt =====
-- KanPad: the backend in TypeScript (backend/src), a NestJS application over TypeORM and MariaDB
-- that keeps boards of columns of cards, with checklists, labels, projects, notes and tags; and the
-- client (frontend/src), a React application that shows them and sends requests.
--
-- A request passes the guard of auth/guards/session.guard.ts, which reads the session that the
-- service of auth wrote at login; the controller passes it to a method of a service; the method
-- looks up the row that it is about, checks that the user owns it through the board that it hangs
-- on, and reads and writes tables. The services share the entities and the helpers of common.
--
-- What models which part:
--   Base         Booleans, lists, integers (the positions), texts as lists of UTF-16 code units,
--                and the `Map` of JavaScript with numeric keys
--   Store        the entities of backend/src/*/entities as records and the tables as lists (Entities);
--                TypeORM as a parameter (Repository) with its documented behaviour as hypotheses
--                (Repository/Documented, Laws); a method as a function from the tables to a result or
--                an HTTP exception and the tables after it (Action); `onDelete` (Cascade); loaded
--                relations (Relations); and lemmas on tables (Keyed, Distinct, Bulk, SaveAll, Rooted)
--   Summary      backend/src/common/card-summary.helpers.ts
--   Cards        backend/src/cards/cards.service.ts: findCardById, findColumnById and the queries
--                (Access), reorderWithinColumn, removeFromColumn and insertIntoColumn (Order), the
--                methods (Service), assignLabel and removeLabel (Assignment). The loops are set
--                beside one pass over the table (Passes); a column in order has the positions 0 … n-1,
--                each once (Dense), and a move is described by a function on rows (Moving, Transfer).
--   Columns      backend/src/columns/columns.service.ts (View, Service)
--   Boards, Projects, Checklists, Labels, Tags, Users    backend/src/<name>/<name>.service.ts
--   Notes        backend/src/notes/notes.service.ts: findAll (Query, and Wanted for what it looks
--                for), the checks (Links), the rest (Service)
--   Auth         backend/src/auth: the guard, the decorator and `me` (Session), auth.service.ts
--                (Service)
--   Api          backend/src/*/*.controller.ts, a module for each controller (Accounts is auth), what
--                the answers are made of, with cards/dto/card-response.dto.ts (Content), and the
--                controllers behind the guard (Server)
--   Scripts      backend/src/scripts/create-admin.ts (CreateAdmin)
--   Filters      frontend/src/features/boards/board-view: filter-cards-by-title.ts and
--                filter-columns-by-filters.ts, with the engine's `Date` as a parameter; when a card
--                meets the filters (Meets)
--   Frontend     what the client keeps and decides: dragging a card, features/cards/
--                drag-drop-context.tsx (Drag: the parts of its events; Drop: the handlers; Kept:
--                what the user sees during a drag; Places, Board, Lookup, Agreement: the client and
--                the server after a drop); the optimistic updates of features/cards/use-cards.ts and
--                features/checklists/use-checklists.ts (Queries); the messages of components/ui/toast-provider (Toasts);
--                lib/api/client.ts and lib/error-messages.ts (Client); features/boards/board-view/
--                board-list-sort.ts (ListSort, and Order for what its keys and directions mean); features/notes/note-editor.tsx (NoteEditor: Marked,
--                what it knows to be unsaved; Forgotten, an auto-save that fails)
--   Tests        the parameters filled by a database in memory, and the theorems at small tables
-- A method keeps its name, in snake case: `moveAllCards` is `move_all_cards`.
--
-- Parameters: `Orm` is what the services call of TypeORM and MariaDB, one repository an entity;
-- `AuthEnv` is bcryptjs, the lower case of the engine and the environment. `IsLawful` says what the
-- proofs rely on: a find gives the rows of its test, ordered if it asks for that; a page with a
-- `take` from 1 on and a `skip` from 0 on gives no more of them than its `take`, and a first page
-- that is long enough gives them all; a save replaces
-- the row with the key or adds it; a new row has an id that no row has; a transaction that throws is
-- undone; save() takes a foreign key from the row of the relation, if that is loaded; the collation
-- is an equivalence. `IsKeyed` says that ids are primary keys. A database in
-- memory (Tests) fills the parameters. What is said of a theorem takes both as given.
--
-- Parameters of the client: `Host` is what drag-drop-context.tsx calls of @dnd-kit and the engine,
-- `QueryClient` is the cache of @tanstack/react-query, where `IsDocumented` says that what is set
-- under a key is read there and nowhere else, and `Locale` is the engine's dates and
-- `localeCompare`. `CliHost` is the environment of create-admin.ts. The clock and the pending
-- timers of the host are part of the state of Toasts.
--
-- Every loop of the services is over a list that was read before it, and is recursion on that list.
-- The one fuel is that of `decimal`, which prints a number n with n + 1 rounds; Api/Content/Numerals
-- shows that more rounds print the same.
--
-- Not modelled: validation of request bodies, migrations, and the script that runs them; the times
-- that answers carry and the column updated_at; the rate limits; the route api/health; the
-- interleaving of two requests, and of the saves that reorderWithinColumn issues together (they
-- are taken in the order of the loop); the range of the INT columns, and positions, pages and
-- limits that are not integers; errors of the database but for that of an INSERT into users; the
-- id that the message on a foreign tag names; of the frontend what only renders, the other forms,
-- and the hooks that only send a request and fetch again; the backend in Rust.
pub mod Base
pub mod Store
pub mod Summary
pub mod Cards
pub mod Columns
pub mod Boards
pub mod Projects
pub mod Checklists
pub mod Labels
pub mod Tags
pub mod Notes
pub mod Users
pub mod Auth
pub mod Api
pub mod Scripts
pub mod Filters
pub mod Frontend
pub mod Tests
