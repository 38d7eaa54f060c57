-- ===== src/Settings/Tests.antt =====
-- Settings with JSON values that are Booleans, and the theorems on them.
use notification_platform.Base.{
  String, Bool, true, false, not, Option, none, some, ◌≡◌, refl, inr, arith, eq_iff, blank, trim,
  ◌===◌, if◌then◌else◌,
}
use notification_platform.Settings.Page.{
  SettingsPage, Settings, initial, select, load, loaded, load_failed, body_of, submit,
}
use notification_platform.Settings.Saving.{IsTidy, submit-loaded, submit-crossed}

abbrev print : Bool → String
print true = "true"
print false = "false"

abbrev parse : String → Option Bool
parse s = if s === "true" then some true else if s === "false" then some false else none

print-parses : (v : Bool) → (blank (print v) ≡ false) × (parse (print v) ≡ some v)
unfolding trim
print-parses true = (refl, refl)
print-parses false = (refl, refl)

abbrev page : SettingsPage
page = initial false "t1"

abbrev stored : Settings Bool
stored = record {
  timezone = some "Asia/Kathmandu";
  country = none;
  default_sender = none;
  default_sms = some "ACME";
  branding_logo = none;
  metadata = some true;
}

stored-IsTidy : IsTidy not print parse stored
stored-IsTidy = record {
  timezone = λ e. ground (arith, eq_iff "Asia/Kathmandu" "");
  country = λ e. ground arith;
  default_sender = λ e. ground arith;
  default_sms = λ e. ground (arith, eq_iff "ACME" "");
  branding_logo = λ e. ground arith;
  metadata = inr (true, refl, refl);
}

submit-loaded_example :
    (submit parse (loaded not print stored page)).0
    ≡ some (record { tenant_id = "t1"; body = stored })
unfolding initial
submit-loaded_example = submit-loaded not print parse stored page print-parses stored-IsTidy refl

abbrev filled : SettingsPage
filled = record page { timezone = "UTC" }

abbrev utc : Settings Bool
utc = record {
  timezone = some "UTC";
  country = none;
  default_sender = none;
  default_sms = none;
  branding_logo = none;
  metadata = none;
}

submit-crossed_example :
    let q = (load (select "t2" filled)).1 in
    ((load (select "t2" filled)).0 ≡ some "t2")
    × ((submit parse (load_failed q)).0 ≡ some (record { tenant_id = "t2"; body = utc }))
    × ((submit parse (loaded not print stored (loaded not print utc q))).0
        ≡ some (record { tenant_id = "t2"; body = stored }))
unfolding initial body_of trim
submit-crossed_example =
    submit-crossed not print parse "t2" filled utc stored utc print-parses stored-IsTidy refl refl
