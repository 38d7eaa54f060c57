-- ===== src/Listing/Rows.antt =====
-- The listing of a page (hooks/usePagination.ts and the `load` of each page, as in
-- pages/tenants/TenantsPage.tsx, below notification-admin-ui/src): the filters and the paging that
-- it is asked with, the requests under way in the order they were sent, and the reply it shows.
use notification_platform.Base.{
  ℕ, Bool, true, false, Option, none, some, List, [], ◌∷◌, ◌++◌, ◌==◌, if◌then◌else◌,
}
use notification_platform.Widgets.Paging.{Paging, first_page, set_page, set_per_page, reset_page}

-- `F` is the page's filters, `R` the server's reply.
pub record Listing (F R : Type 0) : Type 0 where
  pub filter : F
  pub paging : Paging
  pub pending : List (F × Paging)
  pub shown : Option R
  pub loading : Bool

module _ {F R : Type 0} where
  abbrev pub query : Listing F R → F × Paging
  query l = (l.filter, l.paging)

  -- `load`: a request for the query of this render.
  unfoldable pub load : Listing F R → Listing F R
  load l = record l { pending = l.pending ++ query l ∷ []; loading = true }

  -- The page as it is first drawn, after its effects.
  unfoldable pub opened : F → Listing F R
  unfolding load first_page
  opened f =
      load (record { filter = f; paging = first_page; pending = []; shown = none; loading = true })

  -- The next render, in which the effect of `load` runs if the paging is another one.
  unfoldable pub turned : Paging → Listing F R → Listing F R
  unfolding load
  turned p l =
      if p.page == l.paging.page
      then (if p.per_page == l.paging.per_page then l else load (record l { paging = p }))
      else load (record l { paging = p })

  -- A press of a page button, and a choice of the rows menu.
  unfoldable pub to_page : ℕ → Listing F R → Listing F R
  unfolding turned set_page
  to_page n l = turned (set_page n l.paging) l

  unfoldable pub to_per_page : ℕ → Listing F R → Listing F R
  unfolding turned set_per_page
  to_per_page n l = turned (set_per_page n l.paging) l

  -- A filter takes another value. The effect of `usePagination` asks for page 1, which the next
  -- render has; the effect of `load` runs in this render and, if the page changes, in the next.
  unfoldable pub refiltered : F → Listing F R → Listing F R
  unfolding load turned reset_page
  refiltered f l = turned (reset_page l.paging) (load (record l { filter = f }))

  -- The reply to a request, and its failure. The toast of a failure is left out.
  unfoldable pub arrived : R → List (F × Paging) → Listing F R → Listing F R
  arrived reply rest l = record l { pending = rest; shown = some reply; loading = false }

  unfoldable pub failed : List (F × Paging) → Listing F R → Listing F R
  failed rest l = record l { pending = rest; loading = false }
