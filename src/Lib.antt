-- ===== src/Lib.antt =====
-- Verification of the notification platform's administration client, notification-admin-ui/src: a
-- React application in TypeScript that talks to notification-core-api over HTTP.
--
-- The parts of the program, and the modules on them. Paths are below notification-admin-ui/src.
--   Base: what the others share. Base/Tests has Boolean tests on numbers, Base/Lists the array
--     methods, Base/Texts trim, length and white space of JavaScript, Base/Records an object used as
--     a map, as a list of its keys and values in insertion order.
--   Auth: auth/AuthContext.tsx. Auth/Permissions is GRANULAR_TO_BROAD and hasPermission; Auth/Grants
--     compares them with the rule that they stand for.
--   Api: api/client.ts. Api/Errors is ApiError and the wording of errors; Api/Session is apiRequest,
--     shouldRefresh, refreshAccessToken and clearAuthAndRedirect for one call at a time, against a
--     server given as a function from requests and its own state to replies; Api/Retry and
--     Api/Endless say how the calls end, or do not; Api/Query is listPage.
--   Session: the same client with many calls at once. Session/Provider is the state of AuthProvider
--     and its login, logout and syncLogout; Session/Flight splits apiRequest at each await, with the
--     shared refreshRequest; Session/Reach has the interleavings as a step relation, and Session/Races
--     the ones that cross a login or a logout.
--   Shell: app/main.tsx, layouts/AppLayout.tsx and the redirect of pages/login/LoginPage.tsx:
--     the routes, the guard of each and the sidebar, and the form that signs a user in (Shell/SignIn).
--     The router's matching is a parameter.
--   Widgets: components/Toast.tsx, ConfirmDialog.tsx, TablePagination.tsx with hooks/usePagination.ts,
--     StatusBadge.tsx and SearchSelect.tsx (Widgets/Select).
--   Send: pages/notifications/SendNotificationPage.tsx. Send/Template reads the placeholders of a
--     template and fills them in, and Send/Template/Matching and Matches state on the text what it
--     reads; Send/Sms counts segments; Send/Form is the state with its handlers and effects; Send/Validate is validateForm; Send/Submit is buildTarget and submit; Send/Channels
--     has the runs of the form as a step relation; Send/Tenancy is the choice of a tenant, and
--     Send/Shown the errors that the page draws.
--   Providers: pages/providers/ProvidersPage.tsx. Providers/Schemas is its tables,
--     Providers/Config builds a configuration from the form, Providers/Rows edits the rows of a
--     provider without a schema, and Providers/Page has the state of the page and its handlers,
--     each cut at its await.
--   Roles: pages/roles/RolesPage.tsx. Roles/Grouping sorts permissions into categories, Roles/Page has
--     the state and the handlers, Roles/Toolbar the buttons above the list, and Roles/Edits what is
--     written back.
--   Users: pages/users/UsersPage.tsx. Users/Page has the state and the handlers, Users/Creation the
--     runs of the form that creates a user, Users/Query the query of the list,
--     Users/Editing the dialogs that show and edit a user, and Users/Editing/Fits the role that is
--     assigned there.
--   Templates: pages/templates/TemplatesPage.tsx. Templates/Page has the state and the handlers,
--     Templates/Saving what is saved, Templates/Markdown renderMarkdownLite, and Templates/Preview what
--     is drawn of a template.
--   TenantDetail: pages/tenants/TenantDetailPage.tsx. TenantDetail/Page has the state and the handlers,
--     TenantDetail/Rows whose rows they show, TenantDetail/Tabs the tabs with their requests as a step
--     relation, and TenantDetail/Cards the cards with their switches. TenantDetail/Guide is the state of
--     pages/integration/IntegrationGuide.tsx, and TenantDetail/Guide/Examples its examples, with a
--     reader for a shell's words and for the literals of a language (Examples/Reading).
--   Listing: the list that every page of rows asks for and shows. Listing/Rows is the state that a
--     page's `load` and hooks/usePagination.ts keep, Listing/Order compares it with what a table
--     promises, Listing/Asked is on the pages that it asks for, and Listing/Screens has the
--     parameters that each page sends.
--   Tenants: pages/tenants/TenantsPage.tsx. Tenants/Provision is TenantProvisionModal and payload,
--     Tenants/Page the state and the handlers, Tenants/Dialogs the question of the status switch and the
--     text fields, and Tenants/Edits what is saved.
--   Groups: pages/groups/GroupsPage.tsx. Groups/Page has the state and the handlers, Groups/Members
--     and Groups/Runs whose members are shown.
--   Settings: pages/settings/SettingsPage.tsx. Settings/Page has the state and the handlers,
--     Settings/Saving what is saved and for whom.
--   Catalogs: pages/channels/ChannelsPage.tsx, pages/features/FeaturesPage.tsx and
--     pages/queues/QueueControlsPage.tsx, one module for each; Catalogs/Toggles is on their switches,
--     filters and buttons.
--   Audience: pages/contacts/ContactsPage.tsx with Audience/Saving on what it saves, and
--     pages/campaigns/CampaignsPage.tsx with the buttons of its rows.
--   Access: pages/api-keys/ApiKeysPage.tsx. Access/Page has the state and the handlers, Access/Naming
--     the name that a new key gets.
--   Logs: pages/audit-logs/AuditLogsPage.tsx, pages/notifications/NotificationsPage.tsx,
--     pages/dashboard/DashboardPage.tsx and pages/permissions/PermissionsPage.tsx, one module for
--     each; Logs/Shown is on what they show.
-- How they interact: the pages and the provider call the server through apiRequest alone; apiRequest
-- keeps the tokens in local storage and tells the provider of a forced logout by a window event; the
-- routes read the provider's token, and the sidebar its permissions.
--
-- State is passed explicitly: a handler is a function from a record to a record, and a reply that
-- comes later is a step of its own. Effects are run where their dependencies change.
--
-- Fuel: api_request takes the number of rounds it may run, and answers none when it is still calling
-- itself; how many rounds a call takes is up to the server. scan, which cuts a template, and
-- replace_from, which takes marks out of a text, take as
-- many rounds as the text has characters, and each round uses up at least one.
--
-- Parameters: the server, fetch and the JSON functions; atob; the printing of numbers; lower-casing;
-- the router's match of a path. Not represented: lone surrogates in texts, properties that objects
-- inherit, what the browser keeps across tabs.
--
-- Not modelled: the markup and styles of the pages, and components that only draw; toasts that
-- a handler shows, and text fields that only store what is typed, except where a theorem is about them; and
-- notification-core-api, the Go services behind the HTTP interface, another program.
pub mod Base
pub mod Api
pub mod Auth
pub mod Session
pub mod Shell
pub mod Widgets
pub mod Send
pub mod Providers
pub mod Roles
pub mod Users
pub mod Templates
pub mod TenantDetail
pub mod Listing
pub mod Groups
pub mod Settings
pub mod Catalogs
pub mod Audience
pub mod Tenants
pub mod Access
pub mod Logs
