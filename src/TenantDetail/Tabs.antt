-- ===== src/TenantDetail/Tabs.antt =====
-- TenantDetailPage.tsx: the tabs of one tenant, the requests that opening them sends, and what a tab
-- shows. The page of another tenant is opened anew, since the links to it are in the directory.
pub mod Crossed
pub mod Life
use Prim.Native.String
use notification_platform.Base.{
  String, Bool, true, false, not, ◌&&◌, ◌||◌, Option, none, some, List, [], ◌∷◌, ◌++◌, ◌===◌,
  truthy, if◌then◌else◌,
}
use notification_platform.TenantDetail.Page.{
  OwnedRow, AuditLog, Overview, DetailPage, initial, SubData, contacts_data, groups_data,
  templates_data, campaigns_data, api_keys_data, audit_data, sub_loaded,
}

-- `tabs`
unfoldable pub tabs : Bool → List String
tabs is_platform =
    let of_platform = if is_platform then "features" ∷ "channels" ∷ "providers" ∷ [] else [] in
    ("overview" ∷ "integration" ∷ [])
    ++ (of_platform
        ++ "contacts" ∷ "groups" ∷ "templates" ∷ "campaigns" ∷ "api-keys" ∷ "audit" ∷ [])

-- The tabs for which the effect returns at once.
unfoldable pub loads_nothing : String → Bool
loads_nothing tab =
    tab === "overview"
    || tab === "integration"
    || tab === "features"
    || tab === "channels"
    || tab === "providers"

-- The page of the tenant `id` with the requests for rows that have no reply yet, oldest first: each is
-- the tab and the tenant that it is for.
pub record View : Type 0 where
  pub id : String
  pub tab : String
  pub page : DetailPage
  pub pending : List (String × String)

unfoldable pub opened : String → View
unfolding initial
opened id = record { id = id; tab = "overview"; page = initial; pending = [] }

-- `loadSubData` up to its `await`.
abbrev pub load_sub_data : String → String → View → View
load_sub_data tab tenant_id v = record v {
  page = record v.page { sub_loading = true };
  pending = v.pending ++ (tab, tenant_id) ∷ [];
}

-- The effect on `id` and `tab`.
unfoldable pub tab_effect : View → View
unfolding loads_nothing
tab_effect v = if not (truthy v.id) || loads_nothing v.tab then v else load_sub_data v.tab v.id v

-- The buttons of the tabs. The same tab again sets off no effect.
unfoldable pub open_tab : String → View → View
unfolding tab_effect
open_tab tab v = if tab === v.tab then v else tab_effect (record v { tab = tab })

-- The tab that a reply is for.
abbrev pub tab_of : SubData → String
tab_of (contacts_data rows) = "contacts"
tab_of (groups_data rows) = "groups"
tab_of (templates_data rows) = "templates"
tab_of (campaigns_data rows) = "campaigns"
tab_of (api_keys_data rows) = "api-keys"
tab_of (audit_data rows) = "audit"

-- The end of a request; `before` and `after` are those that stay on the way.
unfoldable pub replied :
    List (String × String) → String → List (String × String) → Option SubData → View → View
unfolding sub_loaded
replied before tenant_id after reply v = record v {
  page = sub_loaded tenant_id reply v.page;
  pending = before ++ after;
}

-- What `renderTabContent` shows.
pub data Content : Type 0 where
  spinner nothing : Content
  section : String → Content
  table : List OwnedRow → Content
  sessions : List AuditLog → Content

abbrev pub tab_content : DetailPage → String → Content
tab_content p tab =
    if loads_nothing tab
    then section tab
    else if tab === "contacts"
    then table p.contacts
    else if tab === "groups"
    then table p.groups
    else if tab === "templates"
    then table p.templates
    else if tab === "campaigns"
    then table p.campaigns
    else if tab === "api-keys"
    then table p.api_keys
    else if tab === "audit"
    then sessions p.audit_logs
    else nothing

unfoldable pub render_tab_content : View → Content
unfolding loads_nothing
render_tab_content v = if v.page.sub_loading then spinner else tab_content v.page v.tab

-- The early returns of the page, and the page.
pub data Shown : Type 0 where
  loading missing : Shown
  failure : String → Shown
  workspace : Overview → Content → Shown

unfoldable pub shown : View → Shown
unfolding render_tab_content
shown v =
    if v.page.loading
    then loading
    else if truthy v.page.error
    then failure v.page.error
    else elim v.page.overview [
      | none ↦ missing
      | some overview ↦ workspace overview (render_tab_content v)
    ]
