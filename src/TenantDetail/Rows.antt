-- ===== src/TenantDetail/Rows.antt =====
-- Whose rows TenantDetailPage.tsx shows.
use notification_platform.Base.{
  String, Option, none, some, List, ◌≡◌, sym, eq_iff, get, Member, Member-filter, ◌===◌,
}
use notification_platform.Roles.Grouping.{rows_of, group_by_rows}
use notification_platform.TenantDetail.Page.{
  OwnedRow, AuditLog, DetailPage, SubData, contacts_data, groups_data, templates_data,
  campaigns_data, api_keys_data, audit_data, owned_by, sub_loaded, session_of, grouped_logs,
  audit_session_viewed,
}

-- Every row is of the tenant.
abbrev pub IsOwned : String → List OwnedRow → Type 0
IsOwned t rows = (r : OwnedRow) → Member r rows → r.tenant_id ≡ t

-- The lists of the page that show rows of one tenant.
pub record IsOwnPage (t : String) (p : DetailPage) : Type 0 where
  pub contacts : IsOwned t p.contacts
  pub groups : IsOwned t p.groups
  pub templates : IsOwned t p.templates
  pub campaigns : IsOwned t p.campaigns
  pub api_keys : IsOwned t p.api_keys

owned : (t : String) (rows : List OwnedRow) → IsOwned t (owned_by t rows)
unfolding owned_by
owned t rows r m = (eq_iff r.tenant_id t).0 ((Member-filter (λ c. c.tenant_id === t) rows r).0 m).1

-- Whatever the server answers to a request of any tab, and whether it fails, a page whose lists show
-- rows of one tenant shows rows of that tenant only after the reply to a request for it.
pub sub_loaded-IsOwnPage :
    (t : String) (reply : Option SubData) (p : DetailPage)
    → IsOwnPage t p
    → IsOwnPage t (sub_loaded t reply p)
unfolding sub_loaded
sub_loaded-IsOwnPage t none p o = record {
  contacts = o.contacts;
  groups = o.groups;
  templates = o.templates;
  campaigns = o.campaigns;
  api_keys = o.api_keys;
}
sub_loaded-IsOwnPage t (some (contacts_data rows)) p o = record {
  contacts = owned t rows;
  groups = o.groups;
  templates = o.templates;
  campaigns = o.campaigns;
  api_keys = o.api_keys;
}
sub_loaded-IsOwnPage t (some (groups_data rows)) p o = record {
  contacts = o.contacts;
  groups = owned t rows;
  templates = o.templates;
  campaigns = o.campaigns;
  api_keys = o.api_keys;
}
sub_loaded-IsOwnPage t (some (templates_data rows)) p o = record {
  contacts = o.contacts;
  groups = o.groups;
  templates = owned t rows;
  campaigns = o.campaigns;
  api_keys = o.api_keys;
}
sub_loaded-IsOwnPage t (some (campaigns_data rows)) p o = record {
  contacts = o.contacts;
  groups = o.groups;
  templates = o.templates;
  campaigns = owned t rows;
  api_keys = o.api_keys;
}
sub_loaded-IsOwnPage t (some (api_keys_data rows)) p o = record {
  contacts = o.contacts;
  groups = o.groups;
  templates = o.templates;
  campaigns = o.campaigns;
  api_keys = owned t rows;
}
sub_loaded-IsOwnPage t (some (audit_data rows)) p o = record {
  contacts = o.contacts;
  groups = o.groups;
  templates = o.templates;
  campaigns = o.campaigns;
  api_keys = o.api_keys;
}

-- The events shown for a session are the group that the audit table would show for it among the rows
-- of the reply, in the same order, also for rows without a session.
pub audit_session_viewed-grouped_logs :
    (session_id : String) (rows : List AuditLog) (p : DetailPage)
    → (audit_session_viewed session_id (some rows) p).selected_audit_logs
      ≡ rows_of (get session_id (grouped_logs rows))
unfolding audit_session_viewed grouped_logs
audit_session_viewed-grouped_logs session_id rows p =
    sym ((group_by_rows session_of rows).0 session_id)
