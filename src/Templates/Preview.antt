-- ===== src/Templates/Preview.antt =====
-- TemplatesPage.tsx: what is drawn of a template: the preview in its three modes, the panel that shows a
-- template, the rows of the table and the clearing of the filters. TenantDetailPage.tsx has a preview of
-- its own with the same modes.
use notification_platform.Base.{
  String, Bool, ◌||◌, Option, none, some, List, [], ◌∷◌, filter, truthy, or_text, if◌then◌else◌,
  ◌===◌,
}
use notification_platform.Templates.Page.{Template, TemplatesPage}
use notification_platform.Templates.Markdown.{render_markdown_lite}

pub data PreviewMode : Type 0 where
  text markdown html : PreviewMode

-- A document of its own, or text.
pub data Preview : Type 0 where
  frame : String → Preview
  block : String → Preview

-- The content that `TemplatePreviewPanel` draws; the subject is drawn above it if there is one.
unfoldable pub preview : PreviewMode → String → Preview
unfolding render_markdown_lite
preview html body = frame (or_text body "<p></p>")
preview markdown body = block (or_text (render_markdown_lite body) "No body content")
preview text body = block (or_text body "No body content")

unfoldable pub preview_subject : String → Option String
preview_subject subject = if truthy subject then some subject else none

-- The body of the table.
pub data Rows : Type 0 where
  waiting none_found : Rows
  listed : List Template → Rows

abbrev listed_rows : List Template → Rows
listed_rows [] = none_found
listed_rows (t ∷ ts) = listed (t ∷ ts)

unfoldable pub table_body : TemplatesPage → Rows
table_body p = if p.loading then waiting else listed_rows p.items

-- The Clear filters button, and when it is drawn.
unfoldable pub has_filters : TemplatesPage → Bool
has_filters p = truthy p.search || truthy p.channel_filter || truthy p.tenant_filter

unfoldable pub clear_filters : TemplatesPage → TemplatesPage
clear_filters p = record p { search = ""; channel_filter = ""; tenant_filter = "" }

-- A tenant that may own a template: the options of the form are the active ones.
pub record Tenant : Type 0 where
  pub id : String
  pub name : String
  pub status : String

unfoldable pub tenant_options : List Tenant → List Tenant
tenant_options tenants = filter (λ t. t.status === "active") tenants
