-- ===== src/Lib.antt =====
-- Formal model of the NeuralVyuha browser client (the AngularJS application under
-- nv-ui/app/scripts): how it builds queries, pages through lists, keeps its filters, its live
-- connection, its dashboards and the nodes of its integrations.
--
-- The parts, and the files that model them (paths from the repository's root):
--
-- - Query: the filters of a list become criteria. nv-ui/app/scripts/services/common/
--   QueryBuilderSrv.js is Query/Builder and Query/Dispatch (the builders `_buildQueryFrom...Filter` are
--   `build_query_from_..._filter`, `_buildQueryFromFilter` and `buildFiltersQuery` keep their names)
--   over the data of Query; its date ranges are `getDateRange` of
--   nv-ui/app/scripts/services/common/UtilsSrv.js. Query/Meaning reads the criteria over any server,
--   Query/Dates and Query/Throwing look at date filters and exceptions. Query/Pipeline is
--   nv-ui/app/scripts/services/common/QuerySrv.js (`call`, `count`): the requests that it sends.
-- - Paging: nv-ui/app/scripts/services/common/data/PaginatedQuerySrv.js, which sends the requests of
--   QuerySrv. An answer of the server is a function of its own (`on_list`, `on_count` and those of
--   the errors).
-- - Filtering: nv-ui/app/scripts/services/common/ui/FilteringSrv.js, which keeps the filters that
--   QueryBuilderSrv reads. That the context shares the array of the default filters is part of the
--   model, and so is what JSON makes of the filters in local storage.
-- - Tabs: nv-ui/app/scripts/services/ui/CaseTabsSrv.js.
-- - Tasks: nv-ui/app/scripts/controllers/case/CaseTasksCtrl.js (loading, selection, menu, groups and
--   the buttons of the status; Tasks/Bulk has the form of a new task and the bulk changes).
-- - Incidents: nv-ui/app/scripts/controllers/nv/nvGroupListController.js (filters, pages, timers).
-- - Alerts: nv-ui/app/scripts/controllers/nv/nvAlertListController.js (filters, sorting, pages,
--   selection, bulk actions and live alerts; Alerts/Search has the search that waits for the text to
--   settle, with the timers of the browser, Alerts/SideBar the actions of a single row and the
--   bar that shows one alert).
-- - AlertPage: nv-ui/app/scripts/controllers/alert/AlertListCtrl.js with the part of
--   nv-ui/app/scripts/services/api/AlertingSrv.js that it calls. Its list is a PaginatedQuerySrv
--   (Paging) or the adapter of AlertingSrv (`V5ListAdapter`), its filters are those of Filtering, and
--   its menu is in AlertPage, the loading, sorting and filtering in AlertPage/Feeds.
-- - CasePage: nv-ui/app/scripts/controllers/case/CaseListCtrl.js with the lists of
--   nv-ui/app/scripts/services/api/CaseSrv.js (CasePage/Service has what that file says of the
--   nv-query service, CasePage/Feeds the loading and sorting, CasePage/Presets the named filters).
-- - Integrations: nv-ui/app/scripts/controllers/nv/nvIntegrationsCtrl.js (the nodes on the server and
--   in local storage); Integrations/Saving has the dialog and the removal, Integrations/Importing the
--   export and the import.
-- - Dashboard: nv-ui/app/scripts/services/api/DashboardSrv.js (the queries of charts, and in
--   Dashboard/Fields the metadata), nv-ui/app/scripts/controllers/dashboard/DashboardViewCtrl.js
--   (Dashboard/View) and the search of nv-ui/app/scripts/directives/dashboard/counter.js.
-- - Observables: nv-ui/app/scripts/controllers/case/CaseObservablesCtrl.js, and in Observables/Dialog
--   the bulk edit of nv-ui/app/scripts/controllers/case/ObservableUpdateCtrl.js with its requests.
-- - Ingestion: nv-ui/app/scripts/controllers/nv/nvIngestionControlController.js: the switches and the
--   dialog that asks (Ingestion, Ingestion/Rules), the sources (Ingestion/Sources) and the forms
--   (Ingestion/Forms). Ingestion/Sharing runs the switches of the sources with a server that accepts
--   or refuses each of the requests that it has not answered, in any order.
-- - CaseView: nv-ui/app/scripts/controllers/case/CaseMainCtrl.js, the page around the tabs of a case.
--   CaseView/Closing joins it to the removal of tasks (Tasks/Bulk) and to Tabs.
-- - Fanging: `fangValue`, `fang` and `unfang` of nv-ui/app/scripts/services/common/UtilsSrv.js, with the
--   regular expressions as lists of tests on characters.
-- - CaseRows: nv-ui/app/scripts/controllers/nv/nvCaseListController.js, the short list of cases.
-- - Session: nv-ui/app/scripts/services/api/AuthenticationSrv.js, with the permissions of
--   nv-ui/app/scripts/services/common/SecuritySrv.js and the cache of
--   nv-ui/app/scripts/services/api/UserSrv.js.
-- - Socket: nv-ui/app/scripts/services/nvSocketSrv.js, with the sockets and timers of the browser;
--   what can happen is a step relation.
-- - Stream: nv-ui/app/scripts/services/common/data/StreamSrv.js, the groups of updates and who is
--   called with them.
--
-- Common holds what they share, and Uniq `_.uniq` as the menus use it. Each part has its concrete
-- examples in a module Examples.
--
-- An operation takes the state and gives the new one, with the requests that it sends where it sends
-- any; promises are two functions, up to the request and from the answer on. Code that may throw
-- gives a Result. Parameters stand for what is not part of the client: a server's reading of criteria
-- (Server, of which only the connectives are fixed; the repository's own endpoint in
-- nv-core/nv-query/app/main.py reads none), dates as the browser and moment.js compute them (Engine)
-- and JSON writes them (`to_iso`), the hash of a filter, and the small letters of a text
-- (`toLowerCase`). All functions are total by structural recursion; no fuel is used. Numbers are
-- natural numbers where
-- the source only has such (pages, sizes, totals, severities), integers where it subtracts, and NaN
-- is kept in the values of filters. Page sizes are taken to be positive where a theorem says so.
--
-- Not modelled: the server (nv-core), the REST client nv-ui/app/scripts/services/nvApiSrv.js (one HTTP
-- call per function), charts, dialogs, the texts of the pages, and the controllers that only connect
-- forms with the services above. The server's endpoint `/query` does not run the lists of operations
-- that QuerySrv sends, and its `describe/_all` names no attributes: what is said of attributes that
-- are known does not happen with this server.
pub mod Common
pub mod Uniq
pub mod Query
pub mod Paging
pub mod Filtering
pub mod Tabs
pub mod Tasks
pub mod Incidents
pub mod Session
pub mod Socket
pub mod AlertPage
pub mod CasePage
pub mod Alerts
pub mod Stream
pub mod Integrations
pub mod Dashboard
pub mod Observables
pub mod Ingestion
pub mod CaseView
pub mod Fanging
pub mod CaseRows
