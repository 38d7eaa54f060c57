-- ===== src/TenantDetail/Tests.antt =====
-- A tenant with two contacts and three audit rows, and the theorems on them.
use notification_platform.Base.{
  arith, eq_iff, true, false, none, ◌≡◌, refl, inl, inr, some, [], ◌∷◌,
}
use notification_platform.TenantDetail.Guide.{Guide, initial_guide, guide_loaded, choose_tab}
use notification_platform.TenantDetail.Guide.Examples.{
  payload, php_array_payload, python_payload, curl_example,
}
use notification_platform.TenantDetail.Guide.Examples.Reading.{all_codes, literals, shell_words}
use notification_platform.TenantDetail.Guide.Examples.Words.{
  request_literals, literals-payload, curl_words, shell_words-curl_example,
}
use notification_platform.TenantDetail.Guide.Tabs
use notification_platform.TenantDetail.Guide.Tabs.{
  IntegrationData, tab_keys, shown_code, Reach, next, reply, picks, Reach-shown_code,
}
use notification_platform.TenantDetail.Page.{
  OwnedRow, Feature, Overview, contacts_data, initial, overview_loaded,
}
use notification_platform.TenantDetail.Tabs.{
  View, opened, loads_nothing, tabs, open_tab, replied, tab_content, render_tab_content,
}
use notification_platform.TenantDetail.Tabs.Life
use notification_platform.TenantDetail.Tabs.Crossed.{replied-crossed}
use notification_platform.TenantDetail.Cards.Counts.{Counted, switched, feature, health-switched}

abbrev ann : OwnedRow
ann = record { id = "c1"; tenant_id = "t1"; name = "Ann"; status = "active" }

abbrev stranger : OwnedRow
stranger = record ann { id = "c2"; tenant_id = "t2" }

-- The guide of a tenant, once its reply has come and a tab is chosen.
literals-payload_example :
    (literals 34 (payload "acme") ≡ request_literals "acme")
    × (literals 39 (php_array_payload "acme") ≡ request_literals "acme")
    × (literals 39 (python_payload "acme") ≡ request_literals "acme")
unfolding all_codes
literals-payload_example = literals-payload "acme" refl refl

shell_words-curl_example_example :
    shell_words (curl_example "https://api.example.com/notifications" "acme")
    ≡ curl_words (payload "acme") "https://api.example.com/notifications"
unfolding all_codes
shell_words-curl_example_example =
    shell_words-curl_example "https://api.example.com/notifications" "acme" refl refl

abbrev acme : IntegrationData
acme = record { api_base_url = "https://api.example.com"; slug = "acme" }

abbrev acme_guide : Guide IntegrationData
acme_guide = choose_tab "Go" (guide_loaded acme initial_guide)

acme_guide_reached : Reach acme_guide
unfolding tab_keys guide_loaded initial_guide
acme_guide_reached =
    next (next Tabs.opened (reply acme)) (picks "Go" (inr (inr (inr (inr (inr (inr (inl refl))))))))

-- The page of the tenant t1, whose contacts are opened and answered.
abbrev contacts_view : View
contacts_view =
    replied [] "t1" [] (some (contacts_data (ann ∷ stranger ∷ [])))
      (open_tab "contacts" (opened "t1"))

contacts_view-Reach : Life.Reach false "t1" contacts_view
unfolding open_tab opened tabs
contacts_view-Reach =
    Life.reply [] [] "contacts" "t1" (some (contacts_data (ann ∷ stranger ∷ [])))
      (Life.click "contacts" Life.here (inr (inr (inl refl)))) refl (λ s e. ground arith)

Reach-IsSound_example : Life.IsSound false "t1" contacts_view
Reach-IsSound_example = Life.Reach-IsSound contacts_view-Reach

replied-crossed_example :
    (open_tab "groups" (open_tab "contacts" (opened "t1"))).pending
      ≡ ("contacts", "t1") ∷ ("groups", "t1") ∷ []
    × (render_tab_content (
          replied [] "t1"
            (("groups", "t1") ∷ [])
            none
            (open_tab "groups" (open_tab "contacts" (opened "t1"))))
        ≡ tab_content initial "groups")
unfolding opened loads_nothing
replied-crossed_example =
    replied-crossed (opened "t1") "contacts" "groups" none refl refl refl
      (ground (arith, eq_iff "contacts" "overview")) (ground (arith, eq_iff "groups" "contacts"))
      refl (λ s e. cc)

abbrev sms : Feature
sms = record {
  id = "f1";
  identifier = "sms";
  feature_key = "sms";
  name = "SMS";
  description = "Text messages";
  category = "channels";
  enabled = true;
}

abbrev overview_of_t1 : Overview
overview_of_t1 = record {
  tenant_id = "t1";
  tenant_name = "Acme";
  features = sms ∷ [];
  channels = [];
  providers = [];
}

health-switched_example :
    Counted overview_of_t1
      (switched (feature sms) (overview_loaded overview_of_t1 initial))
      (feature sms)
unfolding overview_loaded
health-switched_example =
    health-switched overview_of_t1 (overview_loaded overview_of_t1 initial) (feature sms) refl
      (((λ m. m), tt), inl refl)
