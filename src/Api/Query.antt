-- ===== src/Api/Query.antt =====
-- notification-admin-ui/src/api/client.ts: `list` and `listPage`, which compose the query of a
-- list request. A `URLSearchParams` is the list of its pairs; the browser's parser and printer of
-- queries, and the printing of a number, are parameters.
pub mod Laws
use Prim.Native.Char.{code}
use Prim.Native.String
use notification_platform.Base.{
  ℕ, String, ◌==◌, ◌===◌, if◌then◌else◌, truthy, Dict, [], ◌∷◌, remove,
}

pub data Param : Type 0 where
  text : String → Param
  number : ℕ → Param
  undefined : Param

-- What stands before the first `?`.
unfoldable pub before_mark : String → String
before_mark String.[] = ""
before_mark (String.◌∷◌ c s) =
    let rest = before_mark s in if code c == b'?' then "" else String.◌∷◌ c rest

-- What stands after the first `?`.
unfoldable pub after_mark : String → String
after_mark String.[] = ""
after_mark (String.◌∷◌ c s) = if code c == b'?' then s else after_mark s

-- The first two parts of `path.split('?')`, the second '' where there is none.
abbrev pub query_base : String → String
query_base path = before_mark path

abbrev pub query_existing : String → String
query_existing path = before_mark (after_mark path)

-- `query.set(key, value)`: the first pair of the key takes the value, the others go.
unfoldable pub set_query : String → String → Dict String → Dict String
set_query key value [] = (key, value) ∷ []
set_query key value ((k, v) ∷ q) =
    if k === key then (k, value) ∷ remove key q else (k, v) ∷ set_query key value q

module _ (show : ℕ → String) where
  -- One round of the loop over the parameters.
  unfoldable pub apply_param : String → Param → Dict String → Dict String
  apply_param key (text value) q = if truthy value then set_query key value q else q
  apply_param key (number n) q = set_query key (show n) q
  apply_param key undefined q = q

  unfoldable pub apply_params : Dict Param → Dict String → Dict String
  unfolding apply_param
  apply_params [] q = q
  apply_params ((key, value) ∷ params) q = apply_params params (apply_param key value q)

-- `listPage`: the path of the request.
module _ (show : ℕ → String) (parse : String → Dict String) (print : Dict String → String) where
  abbrev with_query : String → String → String
  with_query base qs = String.◌++◌ base (if truthy qs then String.◌++◌ "?" qs else "")

  unfoldable pub list_page_path : String → Dict Param → String
  list_page_path path params =
      with_query (query_base path) (print (apply_params show params (parse (query_existing path))))
