-- ===== src/Lib.antt =====
-- The web client of the core banking system (web/src), the part of the backend's contract that it relies
-- on, and the backend's general ledger (service.go), deposit register (deposit) and clearing (payment).
--
-- The client is a React application over a REST API. Its parts, from the wire up:
--   - Enums models web/src/lib/enums.ts and web/src/components/enum-badge.tsx: each union is a data type,
--     with its wire texts.
--   - Types models the records and request bodies of web/src/lib/types.ts. An amount is an integer number
--     of cents (Prelude/Int). A field that may be left out or be null is an `Optional`.
--   - Json is the part of JSON that a body uses, and Json/Bodies encodes each request body.
--   - Client models web/src/lib/api/client.ts (`request`, `qs`) and web/src/lib/api/errors.ts. `fetch`,
--     `JSON.parse` and percent-encoding are arguments. Client/Target reads a target back.
--   - Endpoints has one function for each function of web/src/lib/api/endpoints.ts; Endpoints/Endpoint
--     makes one data type of them, so that a statement can range over all.
--   - Backend is the contract: Routes are the patterns that the files api/handlers_*.go register, with
--     the choice that `http.ServeMux` makes; Decode is the strict decoding of bodies of api/respond.go
--     with the request types of api/dto.go; Posting has the checks of `PostTransaction` in service.go
--     that depend on the entries alone, with int64 totals.
--     Backend/Book models service.go with types.go, the general ledger: the book with its methods, with
--     amounts modulo 2 ^ 64 where the code has int64. An id is the number behind its prefix, which
--     `nextID` never gives twice; the counter is not bounded.
--     Backend/Register models deposit/register.go with deposit/types.go: the accounts, holds and snapshots
--     over such a book, with its methods, which post to the book. Backend/Clearing models the clearing
--     cycles of payment/system.go: banks with a register each, the central bank's book, and a settlement
--     that posts in all of them and keeps what it posted where it fails. The texts of ids, which key the
--     postings, are an argument.
--   - QueryKeys models web/src/lib/api/query-keys.ts; Hooks models web/src/lib/api/hooks.ts: for each query
--     hook its key and its request, for each mutation hook its call and its invalidations. The query
--     cache is a record of operations with the documented law of `invalidateQueries` (Hooks/Cache).
--     Hooks/Changed has, for each mutation, the queries whose answers its handler in service.go,
--     deposit/register.go or payment/system.go can change, and which of them the mutation leaves out.
--   - Money models web/src/lib/money.ts and the state of `MoneyInput` (web/src/components/money.tsx).
--     Floating-point numbers are an argument; an amount is a whole number of cents.
--   - Forms models the dialogs of web/src/components/forms: each has its state, its events, its guard,
--     the request that it submits and what it does when the request settles. Forms/PostTransaction has
--     the rounding of its sums as an argument, and the rows that the form shows; React's reconciliation
--     of children keyed by their index is a record of its documented laws. Forms/Form makes one data type of the dialogs, with the mutation
--     that each sends. Forms/PartyRefFields has the two pickers of a party. Forms/Field and Forms/Dialogs
--     have what each dialog shows in a state: its fields with their controls, and its button;
--     Forms/PostTransaction/View has that of the form that posts a transaction.
--   - Ui is what the screens are made of: Ui/Node is the tree that a component shows, without markup and
--     styles; Ui/Dates models web/src/lib/dates.ts, Ui/Table web/src/components/data-table.tsx, Ui/Combobox
--     web/src/components/ui/combobox.tsx with the pickers of web/src/components/pickers, Ui/Hints
--     web/src/components/hint-content.ts with hint.tsx, and Ui/Parts the small components of
--     web/src/components. The answer of a query hook is a record of its data, its
--     loading flag and its error.
--   - Pages models the pages of web/src/app. Pages/Actions has the actions that they offer in each status;
--     Backend/Lifecycle has the guards of deposit/register.go, payment/system.go and service.go that
--     those actions meet. Pages/NetPositions has the rows of web/src/components/net-positions-table.tsx.
--     Pages/Home, Pages/Lists, Pages/Details, Pages/Participant and Pages/DepositAccount have what each
--     page shows for each answer; Pages/Shell has web/src/components/app-shell.tsx and
--     web/src/components/participant-switcher.tsx; Pages/Screen makes one data type of the pages.
--     Pages/Sitemap lists the paths of the files page.tsx; Pages/Links compares the links with them.
--   - Proxy models the route handler web/src/app/api/[...path]/route.ts between the client and the
--     backend, with the methods that it is exported for; the framework's splitting of a URL, its own
--     answers and `fetch` on the server are arguments.
--   - Tests has concrete instances of the parameters and the models at concrete inputs.
--
-- Every definition is structurally recursive, except `decimal`, whose fuel is one more than the number:
-- each step divides the number by ten.
--
-- Not modelled: markup and styles, the components of web/src/components/ui (copies of a component library)
-- except the combobox's own state, the parts of payment/system.go before a cycle is closed (participants,
-- deposits of cash, mandates, and initiating, rejecting and returning a payment), the backend's listings
-- and its HTTP server, the promises' timing: a request that settles is an event; and amounts that are not finite: `parseDollars`
-- accepts the text Infinity. Backend/Book and Backend/Register make one type of a client's calls (Command)
-- to range over; the code has no such type.
pub mod Prelude
pub mod Enums
pub mod Types
pub mod Json
pub mod Client
pub mod Endpoints
pub mod Backend
pub mod QueryKeys
pub mod Hooks
pub mod Forms
pub mod Money
pub mod Tests
pub mod Pages
pub mod Proxy
pub mod Ui
