-- ===== src/Listing/Tests.antt =====
-- A listing of names that is filtered on its third page, and the theorems on it.
use notification_platform.Base.{
  ℕ, String, true, false, if◌then◌else◌, ◌==◌, some, List, [], ◌∷◌, ◌≡◌, refl, ◌≢◌, arith, ap, get,
  truthy, inl, inr, Bool-cases,
}
use notification_platform.Widgets.Paging.{
  PaginationMeta, window, following, Paging, first_page, set_page, reset_page,
}
use notification_platform.Api.Query.{apply_params}
use notification_platform.Listing.Rows.{
  Listing, query, load, opened, turned, to_page, refiltered, arrived,
}
use notification_platform.Listing.Order.{
  Event, turns, answers, Reach, here, next, page, reply, Promise, awaited, Keeps, Runs, Reach-Runs,
  refiltered-overtaken,
}
use notification_platform.Listing.Asked as Asked
use notification_platform.Listing.Asked.{Moves, start, turn, AsksValid, Moves-AsksValid}
use notification_platform.Listing.Screens.{
  queue_controls, screen_params, read_screen, read_screen-params,
}

-- The rows of a query, as the text of its filter.
abbrev rows_of : String × Paging → String
rows_of q = q.0

abbrev third : Paging
third = record { page = 3; per_page = 25 }

abbrev shown_third : Listing String String
shown_third = record { filter = ""; paging = third; pending = []; shown = some ""; loading = false }

-- The last first.
abbrev to_third : List (Event (String × Paging))
to_third = answers ∷ turns ("", third) ∷ answers ∷ []

third_reached : Reach rows_of "" to_third shown_third
unfolding opened load turned to_page set_page first_page arrived
third_reached =
    next (next (next here (reply ("", first_page) [] refl)) (page 3)) (reply ("", third) [] refl)

Reach-Runs_example :
    (s : Promise (String × Paging)) × Runs rows_of (awaited ("", first_page)) to_third s
    × Keeps rows_of shown_third s
Reach-Runs_example = Reach-Runs rows_of third_reached

refiltered-overtaken_example :
    let m = refiltered "acme" shown_third in
    let late : String × Paging = ("acme", third) in
    let k = arrived (rows_of late) [] (arrived (rows_of (query m)) (late ∷ []) m) in
    (m.pending ≡ late ∷ query m ∷ [])
    × (k.filter ≡ "acme")
    × (k.paging ≡ reset_page third)
    × (k.pending ≡ [])
    × (k.loading ≡ false)
    × (k.shown ≡ some (rows_of late))
refiltered-overtaken_example = refiltered-overtaken rows_of "acme" shown_third refl (ground arith)

-- Enough digits for the pages below.
abbrev digits : ℕ → String
digits n = if n == 25 then "25" else "3"

digits_shown : (n : ℕ) → digits n ≢ ""
digits_shown n = elim (Bool-cases (n == 25)) [
  | inl e ↦ rw e (λ h. ground (arith, ap truthy h))
  | inr e ↦ rw e (λ h. ground (arith, ap truthy h))
]

read_screen-params_example :
    let s = queue_controls "t7" "" "sms" "" in
    let query = apply_params digits (screen_params s third) [] in
    (read_screen s query ≡ s)
    × (get "page" query ≡ some "3")
    × (get "per_page" query ≡ some "25")
    × ((key : String) → get key query ≢ some "")
read_screen-params_example =
    read_screen-params digits (queue_controls "t7" "" "sms" "") third digits_shown

abbrev sixty : PaginationMeta
sixty = record { page = 1; per_page = 25; total = 60; total_pages = 3 }

-- The first page is shown, and the second is asked for.
abbrev turning : Listing String String
turning = record {
  filter = "";
  paging = record { page = 2; per_page = 25 };
  pending = ("", record { page = 2; per_page = 25 }) ∷ [];
  shown = some "";
  loading = true;
}

turning_reached : Moves "" turning
unfolding opened load turned first_page arrived set_page window
turning_reached =
    Asked.next (Asked.next start (Asked.reply "" ("", first_page) [] [] refl))
      (turn (set_page 2 first_page) (following (some sixty) refl))

Moves-AsksValid_example : AsksValid turning
Moves-AsksValid_example = Moves-AsksValid turning_reached
