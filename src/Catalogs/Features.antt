-- ===== src/Catalogs/Features.antt =====
-- pages/features/FeaturesPage.tsx: the state of the page and its handlers, with the confirmation and
-- the toasts left out. What follows the reply to a request is a function of its own.
use notification_platform.Base.{
  ℕ, String, Bool, true, false, not, Option, none, some, List, [], map, ◌===◌, if◌then◌else◌,
}
use notification_platform.Widgets.Paging.{PaginationMeta}
use notification_platform.Send.Template.{dedupe}

pub record FeatureCatalogItem : Type 0 where
  pub identifier : String
  pub feature_key : String
  pub name : String
  pub description : String
  pub category : String
  pub tenant_count : ℕ
  pub status : Option String
  pub enabled : Bool

pub record FeaturesPage : Type 0 where
  pub items : List FeatureCatalogItem
  pub loading : Bool
  pub search : String
  pub category : String
  pub meta : Option PaginationMeta

unfoldable pub initial : FeaturesPage
initial = record { items = []; loading = true; search = ""; category = ""; meta = none }

-- The effect that loads the list, and its two ends.
unfoldable pub load : FeaturesPage → FeaturesPage
load p = record p { loading = true }

unfoldable pub loaded :
    List FeatureCatalogItem → Option PaginationMeta → FeaturesPage → FeaturesPage
loaded items meta p = record p { items = items; meta = meta; loading = false }

unfoldable pub load_failed : FeaturesPage → FeaturesPage
load_failed p = record p { loading = false }

-- `categories`, the choices of the filter after `All categories`.
unfoldable pub categories : FeaturesPage → List String
unfolding dedupe
categories p = dedupe (map (λ item. item.category) p.items)

-- The choice of a category.
unfoldable pub choose_category : String → FeaturesPage → FeaturesPage
choose_category value p = record p { category = value }

-- The body of the request for a feature.
pub record SetFeature : Type 0 where
  pub identifier : String
  pub enabled : Bool

-- `toggleFeature`: its request, and its end, for the value that was sent; a failure changes nothing.
unfoldable pub toggle_feature : FeatureCatalogItem → SetFeature
toggle_feature item = record { identifier = item.identifier; enabled = not item.enabled }

abbrev pub with_enabled : SetFeature → FeatureCatalogItem → FeatureCatalogItem
with_enabled sent x =
    if x.identifier === sent.identifier
    then record x {
      enabled = sent.enabled;
      status = some (if sent.enabled then "active" else "disabled");
    }
    else x

unfoldable pub feature_toggled : SetFeature → FeaturesPage → FeaturesPage
feature_toggled sent p = record p { items = map (with_enabled sent) p.items }
