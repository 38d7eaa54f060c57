-- ===== src/Shell/Guards.antt =====
-- What the routes of main.tsx show to a visitor with and without a token.
use notification_platform.Base.{
  String, Bool, true, false, not, ◌&&◌, Option, none, some, List, [], ◌∷◌, ◌++◌, map, ◌≡◌, refl,
  ◌≢◌, ◌⊎◌, inl, inr, arith, ◌===◌, truthy, text_or_nil, Member, All, every, every-Member,
  Member-append_left, Member-append_right, Member-map, Member-of_map, Member-filter, Option-cases,
  Bool-cases,
}
use notification_platform.Auth.Permissions.{Principal, has_permission}
use notification_platform.Shell.Routes.{
  Page, redirect, bare, framed, Route, private_routes, private_route, login_route, select_route,
  app,
}
use notification_platform.Shell.Nav.{
  NavItem, NavGroup, platform_nav, tenant_nav, nav_of, permitted_items, sidebar,
}

-- The patterns of the route table, and the locations that the program itself leads to.
abbrev pub patterns : List String
patterns = "/login" ∷ map (λ r. r.path) private_routes

abbrev pub paths_of : List NavGroup → List String
paths_of [] = []
paths_of (g ∷ gs) = map (λ i. i.to) g.items ++ paths_of gs

abbrev pub links : List String
links = "/login" ∷ "/" ∷ paths_of platform_nav ++ paths_of tenant_nav

-- The router library's documented behaviour at those locations: a pattern matches such a location
-- exactly when they are the same text.
abbrev pub RouterIsExact : (String → String → Bool) → Type 0
RouterIsExact matches = (l : String) → Member l links → All (λ p. matches p l ≡ (p === l)) patterns

-- Without a token no location shows a page inside the console's frame.
pub app-ne-framed :
    (matches : String → String → Bool) (token : Option String) (location : String) (page : Page)
    → truthy (text_or_nil token) ≡ false
    → app matches token location ≢ framed page
unfolding app login_route private_route
app-ne-framed matches token location page h = ground arith

-- With a token no location shows the login page.
pub app-ne-bare :
    (matches : String → String → Bool) (token : Option String) (location : String) (page : Page)
    → truthy (text_or_nil token) ≡ true
    → app matches token location ≢ bare page
unfolding app login_route private_route
app-ne-bare matches token location page h = ground arith

module _ (matches : String → String → Bool) where
  select-exact :
      (rs : List Route) (l : String)
      → All (λ p. matches p l ≡ (p === l)) (map (λ r. r.path) rs)
      → select_route matches rs l ≡ select_route ◌===◌ rs l
  unfolding select_route
  select-exact [] l h = refl
  select-exact (r ∷ rs) l h = rw (h.0, select-exact rs l h.1)

module _ (matches : String → String → Bool) (exact : RouterIsExact matches) where
  redirect_cases :
      (token : Option String) (location target : String)
      → app matches token location ≡ redirect target
      → ((target ≡ "/") × (truthy (text_or_nil token) ≡ true))
        ⊎ ((target ≡ "/login") × (truthy (text_or_nil token) ≡ false))
  unfolding app login_route private_route
  redirect_cases token location target h = ground arith

  app-root :
      (token : Option String) (target : String)
      → truthy (text_or_nil token) ≡ true
      → app matches token "/" ≢ redirect target
  unfolding app private_route private_routes select_route
  app-root token target h = let m = exact "/" (inr (inl refl)) in ground (arith, m.0, m.1.0)

  app-login :
      (token : Option String) (target : String)
      → truthy (text_or_nil token) ≡ false
      → app matches token "/login" ≢ redirect target
  unfolding app login_route
  app-login token target h = let m = exact "/login" (inl refl) in ground (arith, m.0)

-- Where the router is exact at the program's own links, a redirect leads to a location that does
-- not redirect again: no redirect loops, signed in or not.
pub app_settles :
    (matches : String → String → Bool) (exact : RouterIsExact matches) (token : Option String)
    (location target next : String)
    → app matches token location ≡ redirect target
    → app matches token target ≢ redirect next
app_settles matches exact token location target next h =
    elim (redirect_cases matches exact token location target h) [
      | inl (e, t) ↦ rw e (app-root matches exact token next t)
      | inr (e, t) ↦ rw e (app-login matches exact token next t)
    ]

abbrev is_some {ℓ} : {A : Type ℓ} → Option A → Bool
is_some none = false
is_some (some _) = true

abbrev routed : String → Bool
routed l = not ("/login" === l) && is_some (select_route ◌===◌ private_routes l)

nav-routed : every routed (paths_of platform_nav ++ paths_of tenant_nav) ≡ true
unfolding private_routes select_route platform_nav tenant_nav
nav-routed = refl

Member-paths_of :
    (i : NavItem) (g : NavGroup) (gs : List NavGroup)
    → Member g gs
    → Member i g.items
    → Member i.to (paths_of gs)
Member-paths_of i g [] m n = absurd m
Member-paths_of i g (h ∷ gs) (inl e) n =
    Member-append_left i.to _ _ (Member-map (λ j. j.to) h.items i (rw e n))
Member-paths_of i g (h ∷ gs) (inr m) n = Member-append_right i.to _ _ (Member-paths_of i g gs m n)

nav-Member :
    (user : Option Principal) (i : NavItem) (g : NavGroup)
    → Member g (nav_of user)
    → Member i g.items
    → Member i.to (paths_of platform_nav ++ paths_of tenant_nav)
unfolding nav_of
nav-Member none i g m n = Member-append_right i.to _ _ (Member-paths_of i g _ m n)
nav-Member (some u) i g m n = elim (Bool-cases u.is_platform_admin) [
  | inl e ↦ Member-append_left i.to _ _ (Member-paths_of i g _ (rw e at m) n)
  | inr e ↦ Member-append_right i.to _ _ (Member-paths_of i g _ (rw e at m) n)
]

sidebar_sound :
    (user : Option Principal) (g : NavGroup) (i : NavItem)
    → Member g (sidebar user)
    → Member i g.items
    → (has_permission user i.permission ≡ true)
      × Member i.to (paths_of platform_nav ++ paths_of tenant_nav)
unfolding sidebar
sidebar_sound user g i m n =
    let (h, hm, e) = Member-of_map (permitted_items user) (nav_of user) g m in
    let q = (Member-filter (λ j. has_permission user j.permission) h.items i).0 (rw (← e) at n) in
    (q.1, nav-Member user i h hm q.0)

framed_of_routed :
    (matches : String → String → Bool) (token : Option String) (l : String)
    → truthy (text_or_nil token) ≡ true
    → All (λ p. matches p l ≡ (p === l)) patterns
    → routed l ≡ true
    → (page : Page) × (app matches token l ≡ framed page)
unfolding app private_route
framed_of_routed matches token l t e r = elim (Option-cases (select_route ◌===◌ private_routes l)) [
  | inl q ↦ absurd (ground arith)
  | inr (page, q) ↦ (page, ground (arith, select-exact matches private_routes l e.1))
]

-- Each entry that the side bar shows is one that the user may open, and, where the router is exact
-- at the program's links and there is a token, its link shows a page inside the console's frame.
pub sidebar_opens :
    (matches : String → String → Bool) (exact : RouterIsExact matches) (token : Option String)
    (user : Option Principal) (g : NavGroup) (i : NavItem)
    → truthy (text_or_nil token) ≡ true
    → Member g (sidebar user)
    → Member i g.items
    → (has_permission user i.permission ≡ true)
      × (page : Page) × (app matches token i.to ≡ framed page)
sidebar_opens matches exact token user g i t m n =
    let (may, link) = sidebar_sound user g i m n in
    let r =
      every-Member routed (paths_of platform_nav ++ paths_of tenant_nav) i.to nav-routed link in
    let (page, e) = framed_of_routed matches token i.to t (exact i.to (inr (inr link))) r in
    (may, page, e)

-- Each entry of the user's own menu that the user may open stands in the side bar, in a group of
-- the same title.
pub sidebar_complete :
    (user : Option Principal) (h : NavGroup) (i : NavItem)
    → Member h (nav_of user)
    → Member i h.items
    → has_permission user i.permission ≡ true
    → (g : NavGroup) × Member g (sidebar user) × (g.section ≡ h.section) × Member i g.items
unfolding sidebar
sidebar_complete user h i m n may = (
  permitted_items user h,
  Member-map (permitted_items user) (nav_of user) h m,
  refl,
  (Member-filter (λ j. has_permission user j.permission) h.items i).1 (n, may),
)
