-- ===== src/TenantDetail/Tabs/Crossed.antt =====
-- TenantDetailPage.tsx: two tabs opened one after the other, before the rows of the first have come.
use notification_platform.Base.{
  String, true, false, Option, none, some, List, [], ◌∷◌, ◌++◌, ◌≡◌, ◌≢◌, refl, ◌∙◌, ap, arith,
  eq_iff, ◌===◌, truthy,
}
use notification_platform.TenantDetail.Page.{
  DetailPage, SubData, contacts_data, groups_data, templates_data, campaigns_data, api_keys_data,
  audit_data, sub_loaded,
}
use notification_platform.TenantDetail.Tabs.Life.{sub_loaded-ready}
use notification_platform.TenantDetail.Tabs.{
  loads_nothing, View, tab_effect, open_tab, load_sub_data, tab_of, replied, tab_content,
  render_tab_content,
}

-- A reply for one tab leaves what the others show.
tab_content-sub_loaded :
    (t : String) (r : Option SubData) (p : DetailPage) (tab : String)
    → ((s : SubData) → r ≡ some s → tab ≢ tab_of s)
    → tab_content (sub_loaded t r p) tab ≡ tab_content p tab
unfolding sub_loaded loads_nothing
tab_content-sub_loaded t none p tab h = refl
tab_content-sub_loaded t (some (contacts_data rows)) p tab h =
    ground (arith, eq_iff tab "contacts", h (contacts_data rows) refl)
tab_content-sub_loaded t (some (groups_data rows)) p tab h =
    ground (arith, eq_iff tab "groups", h (groups_data rows) refl)
tab_content-sub_loaded t (some (templates_data rows)) p tab h =
    ground (arith, eq_iff tab "templates", h (templates_data rows) refl)
tab_content-sub_loaded t (some (campaigns_data rows)) p tab h =
    ground (arith, eq_iff tab "campaigns", h (campaigns_data rows) refl)
tab_content-sub_loaded t (some (api_keys_data rows)) p tab h =
    ground (arith, eq_iff tab "api-keys", h (api_keys_data rows) refl)
tab_content-sub_loaded t (some (audit_data rows)) p tab h =
    ground (arith, eq_iff tab "audit", h (audit_data rows) refl)

-- Opening another tab that loads rows sends its request.
open_tab-loads :
    (v : View) (tab : String)
    → truthy v.id ≡ true
    → loads_nothing tab ≡ false
    → tab ≢ v.tab
    → open_tab tab v ≡ load_sub_data tab v.id (record v { tab = tab })
unfolding open_tab tab_effect
open_tab-loads v tab known loads other =
    let e : tab === v.tab ≡ false = ground (arith, eq_iff tab v.tab) in rw e (ground arith)

open_twice :
    (v : View) (a b : String)
    → truthy v.id ≡ true
    → loads_nothing a ≡ false
    → loads_nothing b ≡ false
    → a ≢ v.tab
    → b ≢ a
    → open_tab b (open_tab a v)
      ≡ load_sub_data b v.id (record (load_sub_data a v.id (record v { tab = a })) { tab = b })
open_twice v a b known la lb oa ob =
    ap (λ (w : View). open_tab b w) (open_tab-loads v a known la oa)
    ∙ open_tab-loads (load_sub_data a v.id (record v { tab = a })) b known lb ob

-- While no request is on its way, two tabs that load rows are opened one after the other, and the request
-- of the first ends first, in whatever way. Then that of the second is still on its way, and yet the page
-- shows in its tab what it had there before, and not that it is loading.
pub replied-crossed :
    (v : View) (a b : String) (r : Option SubData)
    → truthy v.id ≡ true
    → loads_nothing a ≡ false
    → loads_nothing b ≡ false
    → a ≢ v.tab
    → b ≢ a
    → v.pending ≡ []
    → ((s : SubData) → r ≡ some s → tab_of s ≡ a)
    → let w = replied [] v.id ((b, v.id) ∷ []) r (open_tab b (open_tab a v)) in
      (open_tab b (open_tab a v)).pending ≡ (a, v.id) ∷ (b, v.id) ∷ []
      × (render_tab_content w ≡ tab_content v.page b)
unfolding replied render_tab_content
replied-crossed v a b r known la lb oa ob quiet reply =
    let page = record v.page { sub_loading = true } in
    rw (open_twice v a b known la lb oa ob) (
      ap (λ (l : List (String × String)). (l ++ (a, v.id) ∷ []) ++ (b, v.id) ∷ []) quiet,
      rw (sub_loaded-ready v.id r page)
          (tab_content-sub_loaded v.id r page b (λ s e h. ob (h ∙ reply s e))),
    )
