-- ===== src/TenantDetail/Tabs/Life.antt =====
-- The states of the tenant page over its life: clicks on its tabs and replies in any order.
use notification_platform.Base.{
  String, Bool, true, false, Option, none, some, List, [], ◌∷◌, ◌++◌, ◌≡◌, ◌≢◌, refl, ◌∙◌, inl, inr,
  arith, Member, Bool-cases, ◌===◌, truthy, All, not, ◌||◌,
}
use notification_platform.TenantDetail.Page.{
  Overview, AuditLog, DetailPage, initial, SubData, sub_loaded, overview_loaded, overview_failed,
  feature_toggled, channel_toggled, provider_toggled, view_audit_session, audit_session_viewed,
}
use notification_platform.TenantDetail.Rows.{IsOwnPage, sub_loaded-IsOwnPage}
use notification_platform.TenantDetail.Tabs.{
  tabs, loads_nothing, View, opened, tab_effect, open_tab, load_sub_data, tab_of, replied,
}

-- What changes the page besides its tabs.
pub data Change : DetailPage → DetailPage → Type 0 where
  overview_reply : (o : Overview) {p : DetailPage} → Change p (overview_loaded o p)
  overview_failure : (message : String) {p : DetailPage} → Change p (overview_failed message p)
  toggles_feature :
      (id : String) (enabled : Bool) {p : DetailPage} → Change p (feature_toggled id enabled p)
  toggles_channel :
      (id : String) (enabled : Bool) {p : DetailPage} → Change p (channel_toggled id enabled p)
  toggles_provider :
      (id : String) (active : Bool) {p : DetailPage} → Change p (provider_toggled id active p)
  views_session : (session : String) {p : DetailPage} → Change p (view_audit_session session p)
  session_reply :
      (session : String) (rows : Option (List AuditLog)) {p : DetailPage}
      → Change p (audit_session_viewed session rows p)

-- The life of the page of the tenant `t`, for a platform administrator or another user.
pub data Reach (is_platform : Bool) (t : String) : View → Type 0 where
  here : Reach is_platform t (opened t)
  click :
      {v : View} (tab : String)
      → Reach is_platform t v
      → Member tab (tabs is_platform)
      → Reach is_platform t (open_tab tab v)
  reply :
      {v : View} (before after : List (String × String)) (tab tenant_id : String)
      (r : Option SubData)
      → Reach is_platform t v
      → v.pending ≡ before ++ (tab, tenant_id) ∷ after
      → ((s : SubData) → r ≡ some s → tab_of s ≡ tab)
      → Reach is_platform t (replied before tenant_id after r v)
  change :
      {v : View} {p : DetailPage}
      → Reach is_platform t v
      → Change v.page p
      → Reach is_platform t (record v { page = p })

abbrev IsRequest : Bool → String → String × String → Type 0
IsRequest is_platform t r = (r.1 ≡ t) × Member r.0 (tabs is_platform) × (loads_nothing r.0 ≡ false)

-- The contacts, groups, templates, campaigns and API keys that are kept are those of the tenant, the tab
-- is one of those offered, the requests on their way are for the tenant and for tabs that load rows,
-- and while the page waits for rows there is such a request.
pub record IsSound (is_platform : Bool) (t : String) (v : View) : Type 0 where
  pub id : v.id ≡ t
  pub rows : IsOwnPage t v.page
  pub tab : Member v.tab (tabs is_platform)
  pub requests : All (IsRequest is_platform t) v.pending
  pub waits : v.page.sub_loading ≡ true → v.pending ≢ []

-- The lists of rows are the same.
abbrev SameRows : DetailPage → DetailPage → Type 0
SameRows p q =
    (p.contacts ≡ q.contacts)
    × (p.groups ≡ q.groups)
    × (p.templates ≡ q.templates)
    × (p.campaigns ≡ q.campaigns)
    × (p.api_keys ≡ q.api_keys)

same : (p : DetailPage) → SameRows p p × (p.sub_loading ≡ p.sub_loading)
same p = ((refl, refl, refl, refl, refl), refl)

Change-SameRows : {p q : DetailPage} → Change p q → SameRows p q × (p.sub_loading ≡ q.sub_loading)
unfolding overview_loaded overview_failed feature_toggled channel_toggled provider_toggled
    view_audit_session audit_session_viewed
Change-SameRows (overview_reply o {p}) = same p
Change-SameRows (overview_failure message {p}) = same p
Change-SameRows (toggles_feature id enabled {p}) = ground arith
Change-SameRows (toggles_channel id enabled {p}) = ground arith
Change-SameRows (toggles_provider id active {p}) = ground arith
Change-SameRows (views_session session {p}) = same p
Change-SameRows (session_reply session none {p}) = same p
Change-SameRows (session_reply session (some rows) {p}) = same p

SameRows-IsOwnPage : (t : String) {p q : DetailPage} → SameRows p q → IsOwnPage t p → IsOwnPage t q
SameRows-IsOwnPage t s o = record {
  contacts = rw (← s.0) o.contacts;
  groups = rw (← s.1) o.groups;
  templates = rw (← s.2) o.templates;
  campaigns = rw (← s.3) o.campaigns;
  api_keys = rw (← s.4) o.api_keys;
}

nothing_shown : (t : String) → IsOwnPage t initial
unfolding initial
nothing_shown t = record {
  contacts = λ r m. absurd m;
  groups = λ r m. absurd m;
  templates = λ r m. absurd m;
  campaigns = λ r m. absurd m;
  api_keys = λ r m. absurd m;
}

module _ (P : String × String → Type 0) where
  All-concat :
      (xs : List (String × String)) (y : String × String) → All P xs → P y → All P (xs ++ y ∷ [])
  All-concat [] y a p = (p, tt)
  All-concat (x ∷ xs) y a p = (a.0, All-concat xs y a.1 p)

  All-without :
      (xs : List (String × String)) (y : String × String) (zs : List (String × String))
      → All P (xs ++ y ∷ zs)
      → All P (xs ++ zs)
  All-without [] y zs a = a.1
  All-without (x ∷ xs) y zs a = (a.0, All-without xs y zs a.1)

  All-middle :
      (xs : List (String × String)) (y : String × String) (zs : List (String × String))
      → All P (xs ++ y ∷ zs)
      → P y
  All-middle [] y zs a = a.0
  All-middle (x ∷ xs) y zs a = All-middle xs y zs a.1

-- A reply ends the wait, whatever it brings.
pub sub_loaded-ready :
    (tenant_id : String) (r : Option SubData) (p : DetailPage)
    → (sub_loaded tenant_id r p).sub_loading ≡ false
unfolding sub_loaded
sub_loaded-ready tenant_id none p = refl
sub_loaded-ready tenant_id (some r) p = refl

concat-ne-nil : (xs : List (String × String)) (y : String × String) → xs ++ y ∷ [] ≢ []
concat-ne-nil [] y h = cc
concat-ne-nil (x ∷ xs) y h = cc

module _ (is_platform : Bool) (t : String) where
  opened-IsSound : IsSound is_platform t (opened t)
  unfolding opened tabs initial
  opened-IsSound = record {
    id = refl;
    rows = nothing_shown t;
    tab = inl refl;
    requests = tt;
    waits = λ e. cc;
  }

  load_sub_data-IsSound :
      (v : View)
      → loads_nothing v.tab ≡ false
      → IsSound is_platform t v
      → IsSound is_platform t (load_sub_data v.tab v.id v)
  load_sub_data-IsSound v h s = record {
    id = s.id;
    rows = SameRows-IsOwnPage t {p = v.page} (refl, refl, refl, refl, refl) s.rows;
    tab = s.tab;
    requests =
        All-concat (IsRequest is_platform t) v.pending (v.tab, v.id) s.requests (s.id, s.tab, h);
    waits = λ e. concat-ne-nil v.pending (v.tab, v.id);
  }

  tab_effect-IsSound : (v : View) → IsSound is_platform t v → IsSound is_platform t (tab_effect v)
  unfolding tab_effect
  tab_effect-IsSound v s = elim (Bool-cases (not (truthy v.id) || loads_nothing v.tab)) [
    | inl e ↦ rw e s
    | inr e ↦ rw e (load_sub_data-IsSound v (ground arith) s)
  ]

  open_tab-IsSound :
      (v : View) (tab : String)
      → Member tab (tabs is_platform)
      → IsSound is_platform t v
      → IsSound is_platform t (open_tab tab v)
  unfolding open_tab
  open_tab-IsSound v tab m s = elim (Bool-cases (tab === v.tab)) [
    | inl e ↦ rw e s
    | inr e ↦ rw e (
        tab_effect-IsSound (record v { tab = tab })
          (record { id = s.id; rows = s.rows; tab = m; requests = s.requests; waits = s.waits }))
  ]

  replied-IsSound :
      (v : View) (before after : List (String × String)) (tab tenant_id : String)
      (r : Option SubData)
      → v.pending ≡ before ++ (tab, tenant_id) ∷ after
      → IsSound is_platform t v
      → IsSound is_platform t (replied before tenant_id after r v)
  unfolding replied
  replied-IsSound v before after tab tenant_id r e s =
      let requests : All (IsRequest is_platform t) (before ++ (tab, tenant_id) ∷ after) =
        rw e at s.requests in
      let (own, _, _) =
        All-middle (IsRequest is_platform t) before (tab, tenant_id) after requests in
      record {
        id = s.id;
        rows = rw own (sub_loaded-IsOwnPage t r v.page s.rows);
        tab = s.tab;
        requests = All-without (IsRequest is_platform t) before (tab, tenant_id) after requests;
        waits = λ h. absurd (ground (arith, sub_loaded-ready tenant_id r v.page, h));
      }

-- In every state that the page of a tenant reaches, the contacts, groups, templates, campaigns and API
-- keys that it keeps are those of that tenant, its tab is one of those offered, the requests on their
-- way are for that tenant and for tabs that load rows, and while it waits for rows there is such a
-- request.
pub Reach-IsSound :
    {is_platform : Bool} {t : String} {v : View} → Reach is_platform t v → IsSound is_platform t v
Reach-IsSound here = opened-IsSound _ _
Reach-IsSound (click {v} tab r m) = open_tab-IsSound _ _ v tab m (Reach-IsSound r)
Reach-IsSound (reply {v} before after tab tenant_id d r e k) =
    replied-IsSound _ _ v before after tab tenant_id d e (Reach-IsSound r)
Reach-IsSound {is_platform} {t} (change {v} r c) =
    let s = Reach-IsSound r in
    let same = Change-SameRows c in
    record {
      id = s.id;
      rows = SameRows-IsOwnPage t same.0 s.rows;
      tab = s.tab;
      requests = s.requests;
      waits = λ e. s.waits (same.1 ∙ e);
    }
