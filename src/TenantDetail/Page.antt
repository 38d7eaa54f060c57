-- ===== src/TenantDetail/Page.antt =====
-- TenantDetailPage.tsx: the state of the page and its handlers. Toasts and dates that are only drawn
-- are left out; what follows a reply is a function of its own, and `none` is a failed request.
use notification_platform.Base.{
  ℕ, String, Bool, true, false, Option, none, some, List, [], map, filter, length, Dict, or_text,
  if◌then◌else◌, ◌===◌,
}
use notification_platform.Roles.Grouping.{group_by}

pub record Feature : Type 0 where
  pub id : String
  pub identifier : String
  pub feature_key : String
  pub name : String
  pub description : String
  pub category : String
  pub enabled : Bool

pub record Channel : Type 0 where
  pub id : String
  pub channel : String
  pub enabled : Bool
  pub direction : String
  pub rate_limit_per_second : ℕ
  pub daily_quota : ℕ

pub record Provider : Type 0 where
  pub id : String
  pub channel : String
  pub provider : String
  pub is_default : Bool
  pub status : String

pub record Overview : Type 0 where
  pub tenant_id : String
  pub tenant_name : String
  pub features : List Feature
  pub channels : List Channel
  pub providers : List Provider

-- A contact, group, template, campaign or API key, of which the handlers read the tenant only.
pub record OwnedRow : Type 0 where
  pub id : String
  pub tenant_id : String
  pub name : String
  pub status : String

pub record AuditLog : Type 0 where
  pub id : String
  pub action : String
  pub session_id : String

pub record DetailPage : Type 0 where
  pub overview : Option Overview
  pub loading : Bool
  pub error : String
  pub contacts : List OwnedRow
  pub groups : List OwnedRow
  pub templates : List OwnedRow
  pub campaigns : List OwnedRow
  pub api_keys : List OwnedRow
  pub audit_logs : List AuditLog
  pub sub_loading : Bool
  pub selected_audit_session : String
  pub selected_audit_logs : List AuditLog
  pub audit_session_loading : Bool

unfoldable pub initial : DetailPage
initial = record {
  overview = none;
  loading = true;
  error = "";
  contacts = [];
  groups = [];
  templates = [];
  campaigns = [];
  api_keys = [];
  audit_logs = [];
  sub_loading = false;
  selected_audit_session = "";
  selected_audit_logs = [];
  audit_session_loading = false;
}

-- The end of the request for the overview: it, or the message of the error.
unfoldable pub overview_loaded : Overview → DetailPage → DetailPage
overview_loaded overview p = record p { overview = some overview; error = ""; loading = false }

unfoldable pub overview_failed : String → DetailPage → DetailPage
overview_failed message p = record p { error = message; loading = false }

-- What `loadSubData` receives for a tab.
pub data SubData : Type 0 where
  contacts_data groups_data templates_data campaigns_data api_keys_data : List OwnedRow → SubData
  audit_data : List AuditLog → SubData

-- `res.data.filter((c) => c.tenant_id === tenantId)`
unfoldable pub owned_by : String → List OwnedRow → List OwnedRow
owned_by tenant_id rows = filter (λ c. c.tenant_id === tenant_id) rows

abbrev pub store : String → SubData → DetailPage → DetailPage
store t (contacts_data rows) p = record p { contacts = owned_by t rows }
store t (groups_data rows) p = record p { groups = owned_by t rows }
store t (templates_data rows) p = record p { templates = owned_by t rows }
store t (campaigns_data rows) p = record p { campaigns = owned_by t rows }
store t (api_keys_data rows) p = record p { api_keys = owned_by t rows }
store t (audit_data rows) p = record p { audit_logs = rows }

-- `loadSubData`, after the reply to a request for the tenant with this id.
unfoldable pub sub_loaded : String → Option SubData → DetailPage → DetailPage
sub_loaded tenant_id none p = record p { sub_loading = false }
sub_loaded tenant_id (some reply) p = record (store tenant_id reply p) { sub_loading = false }

abbrev pub in_overview : (Overview → Overview) → DetailPage → DetailPage
in_overview change p = elim p.overview [
  | none ↦ p
  | some o ↦ record p { overview = some (change o) }
]

-- `toggleFeature`, `toggleChannelFn` and `toggleProviderFn`, after their requests.
unfoldable pub feature_toggled : String → Bool → DetailPage → DetailPage
feature_toggled id enabled p =
    in_overview
      (λ o. record o {
        features = map (λ f. if f.id === id then record f { enabled = enabled } else f) o.features;
      })
      p

unfoldable pub channel_toggled : String → Bool → DetailPage → DetailPage
channel_toggled id enabled p =
    in_overview
      (λ o. record o {
        channels = map (λ c. if c.id === id then record c { enabled = enabled } else c) o.channels;
      })
      p

unfoldable pub provider_toggled : String → Bool → DetailPage → DetailPage
provider_toggled id active p =
    in_overview
      (λ o. record o {
        providers =
            map
              (λ q.
                if q.id === id
                then record q { status = if active then "active" else "disabled" }
                else q)
              o.providers;
      })
      p

-- `row.session_id || 'No session'`
abbrev pub session_of : AuditLog → String
session_of row = or_text row.session_id "No session"

-- `grouped` of `TenantAuditTable`.
unfoldable pub grouped_logs : List AuditLog → Dict (List AuditLog)
unfolding group_by
grouped_logs rows = group_by session_of rows

-- `viewAuditSession` up to its `await`, and after it.
unfoldable pub view_audit_session : String → DetailPage → DetailPage
view_audit_session session_id p = record p {
  selected_audit_session = session_id;
  audit_session_loading = true;
}

unfoldable pub audit_session_viewed : String → Option (List AuditLog) → DetailPage → DetailPage
audit_session_viewed session_id none p = record p {
  selected_audit_logs = [];
  audit_session_loading = false;
}
audit_session_viewed session_id (some rows) p = record p {
  selected_audit_logs = filter (λ row. session_of row === session_id) rows;
  audit_session_loading = false;
}

-- The three counts of `OverviewSection`.
pub record Health : Type 0 where
  pub enabled_features : ℕ
  pub enabled_channels : ℕ
  pub active_providers : ℕ

unfoldable pub health : Overview → Health
health o = record {
  enabled_features = length (filter (λ f. f.enabled) o.features);
  enabled_channels = length (filter (λ c. c.enabled) o.channels);
  active_providers = length (filter (λ q. q.status === "active") o.providers);
}
