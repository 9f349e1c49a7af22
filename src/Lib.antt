-- ===== src/Lib.antt =====
-- The web interface of mantis-dns, apps/ui/src: what it sends to the control plane, what it keeps, and
-- what it shows. The paths below are under apps/ui/src.
--
-- The parts and how they interact. A page calls the data hooks of api/hooks.ts. A hook is a request,
-- the key of its cache entry, and for a mutation the entries that it makes stale. Its request goes
-- through api/client.ts, which adds the CSRF token of the browser's cookie, reports a 401 to
-- auth/sessionEvents.ts, and throws an error that api/errors.ts makes readable. The provider of
-- auth/AuthContext.tsx listens for that report and forgets the user; auth/RequireAuth.tsx then leads to
-- pages/LoginPage.tsx, with the way back. The pages keep their filters in the URL
-- (hooks/useUrlFilters.ts) and guard unsaved edits (hooks/useUnsavedChangesGuard.ts).
--
-- The files.
--   Base: numbers, lists, text as UTF-16 code units, JSON values, sorting, and the browser's functions as
--     a record of parameters (Base.Platform). Base.Json.Codec shows that its laws can hold.
--   Api.Hooks.*: one definition for each hook of api/hooks.ts, named as there (useZones is use_zones).
--     Api.Queries and Api.Mutations name all of them, Api.Cache is the interface of the query cache with
--     the documented behaviour of TanStack Query, Api.Cache.Memory a cache that meets it, and
--     Api.Coherence compares the cache keys of the hooks with the URLs of their requests.
--   Api.Client: api/client.ts. fetch and openapi-fetch are arguments, an exchange is a value that tells
--     what was sent, whether the session was reported as expired, and the result or the thrown error.
--   Api.Errors: api/errors.ts.
--   Auth.Session, Auth.Roles, Auth.Login: the session as a state with one step for each callback, the
--     roles, and the sign-in page.
--   Navigation.UrlFilters, Navigation.UnsavedGuard: the two hooks.
--   Dashboard: pages/dashboard/widgetConfig.ts, the queries and the layout of
--     pages/DashboardPage.tsx, and in Dashboard.Widgets the rows and links of pages/dashboard/widgets.
--   Logs.QueryLog, Logs.AuditLog: pages/QueryLogPage.tsx and pages/AuditPage.tsx.
--   Analytics: pages/AnalyticsPage.tsx.
--   Shell: app/Shell.tsx and app/ErrorBoundary.tsx.
--   Policy: pages/PolicyPage.tsx, and in Policy.BlockPage pages/BlockPageCard.tsx, in Policy.Duplicate
--     pages/DuplicatePolicyModal.tsx.
--   Feeds: pages/FeedsPage.tsx, with the groups, the selection and the bulk actions as child modules.
--     The bulk actions wait for all their requests, Api.Client.Settled.
--   Zones: pages/ZonesPage.tsx and, in Zones.Records and Zones.Detail, pages/ZoneDetailPage.tsx.
--   Upstream: the tabs of pages/upstream. What these tabs and those of DHCP share is Forms.CrudTab, with
--     the hooks and the messages of a tab as an argument; Resolvers, Pools and Routes, Dhcp.Tabs and
--     Dhcp.V6 give these arguments.
--   Accounts: pages/UsersPage.tsx, TenantsPage.tsx, GroupsPage.tsx, ClientsPage.tsx and SettingsPage.tsx.
--   Forms: what forms share, and the life of a modal that edits a row, with and without a key.
--   Dhcp: pages/dhcp/helpers.ts, format.ts, pages/dhcp/ReservationsTab.tsx, pages/dhcp/ScopesTab.tsx, and
--     in Dhcp.Page pages/DhcpPage.tsx with the searches of the leases. Dhcp.V6: pages/dhcp/dhcpv6.
--   Tests: the theorems at concrete inputs.
--
-- Bounds and fuel. Numbers are not bounded, as the values here stay far below 2^53. Decimal digits are
-- written with as much fuel as the number plus one, which number-show of Base.Text.Decimal shows to be
-- enough; every other recursion is structural.
--
-- Not modelled. Rendering and translation; the interfaces of the answers where no modelled code reads
-- them; floating-point results (formatLatency, the deltas of the dashboard, the shares of the analytics);
-- the page of the DHCP status; the routes of App.tsx; the types of the paths and operations in
-- api/schema.ts; the services in Python and Rust. So nothing is said of what the control plane changes
-- beyond the resource that a URL names (what the deletion of a tenant takes with it, the audit log): the
-- entries of such resources may be stale. A localStorage.setItem that throws. toLowerCase is that of ASCII.
-- localeCompare, toLocaleString, new URL and Date are arguments where a definition needs them. The
-- requests that a page sends at once are listed in the order in which it starts them. React itself,
-- react-router, TanStack Query and Mantine are taken at their documentation: an effect runs when its
-- dependencies have changed, and useForm reads its initial values when it is mounted.
pub mod Base
pub mod Api
pub mod Auth
pub mod Navigation
pub mod Shell
pub mod Analytics
pub mod Dashboard
pub mod Logs
pub mod Policy
pub mod Dhcp
pub mod Upstream
pub mod Forms
pub mod Zones
pub mod Accounts
pub mod Feeds
pub mod Tests
