-- ===== src/Send/Channels.antt =====
-- SendNotificationPage.tsx: the runs of the form, and which channels it can have selected.
pub mod Selection
pub mod Kept
use notification_platform.Base.{
  ℕ, String, Bool, true, false, not, ◌&&◌, Option, none, some, List, [], ◌∷◌, ◌++◌, ◌≡◌, refl, sym,
  ◌≢◌, ◌⊎◌, inl, inr, arith, filter, contains, contains-Member, Member, Member-filter,
  Member-append_left, Member-append_right, ◌===◌, eq_iff, if◌then◌else◌, truthy, Bool-cases,
  Option-cases, get, text_or_nil, map, length, ◌==◌,
}
use notification_platform.Api.Errors.{Thrown}
use notification_platform.Send.Template.{dedupe}
use notification_platform.Send.Template.Laws.{Distinct, dedupe_iff, dedupe-Distinct}
use notification_platform.Send.Form.{
  ChannelOption, TemplateOption, Form, Edit, opened, mounted_form, selected_template,
  keep_available, reset_values, follow_template, add_channel, load_channels, lose_channels,
  load_templates, clear_field_error, choose_template, type_event, toggle_channel, toggle_all, edit,
}
use notification_platform.Send.Validate.{validate_form}
use notification_platform.Send.Submit.{submit, SendReply, sent}

-- What the user and the replies do; the switch of a channel is shown only for an available one.
pub data Step (f : Form) : Form → Type 0 where
  loads_channels : (options : List ChannelOption) → Step f (load_channels options f)
  loses_channels : Step f (lose_channels f)
  loads_templates : (templates : List TemplateOption) → Step f (load_templates templates f)
  chooses : (key : String) → Step f (choose_template key f)
  types : (event : String) → Step f (type_event event f)
  toggles : (ch : String) → Member ch f.available_channels → Step f (toggle_channel ch f)
  toggles_all : Step f (toggle_all f)
  edits : (e : Edit) → Step f (edit e f)
  submits : Step f (submit f).1
  replies : (show : ℕ → String) (reply : SendReply) → Step f (sent show reply f).1

pub data Reach (is_platform : Bool) (my_tenant_id : String) : Form → Type 0 where
  here : Reach is_platform my_tenant_id (mounted_form is_platform my_tenant_id)
  next :
      {f g : Form} → Reach is_platform my_tenant_id f → Step f g → Reach is_platform my_tenant_id g
