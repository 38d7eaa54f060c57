-- ===== src/Widgets/Select.antt =====
-- notification-admin-ui/src/components/SearchSelect.tsx: the state of the select and its options.
-- The placing of the menu is left out; lower-casing is a parameter.
use notification_platform.Base.{
  String, Bool, true, false, not, Option, List, filter, find, includes, ◌===◌, ◌≡◌, ◌↔◌, Member,
  Member-filter,
}

pub record SelectOption : Type 0 where
  pub value : String
  pub label : String
  pub disabled : Bool

pub record Select : Type 0 where
  pub is_open : Bool
  pub query : String

unfoldable pub closed : Select
closed = record { is_open = false; query = "" }

-- The button, the search field, a choice, and a press of the mouse outside.
unfoldable pub press : Select → Select
press s = record { is_open = not s.is_open; query = "" }

unfoldable pub search : String → Select → Select
search query s = record s { query = query }

unfoldable pub choose : SelectOption → Select → String × Select
choose option s = (option.value, record s { is_open = false })

unfoldable pub press_outside : Select → Select
press_outside s = record s { is_open = false }

-- `selected`
unfoldable pub selected_option : String → List SelectOption → Option SelectOption
unfolding find
selected_option value options = find (λ option. option.value === value) options

module _ (lower : String → String) where
  -- `filtered`
  unfoldable pub filtered : Select → List SelectOption → List SelectOption
  filtered s options = filter (λ option. includes (lower option.label) (lower s.query)) options

  -- The options shown are those whose label has the query in it, whatever the case.
  pub filtered_iff :
      (s : Select) (options : List SelectOption) (o : SelectOption)
      → Member o (filtered s options)
        ↔ (Member o options × (includes (lower o.label) (lower s.query) ≡ true))
  unfolding filtered
  filtered_iff s options o =
      Member-filter (λ option. includes (lower option.label) (lower s.query)) options o
