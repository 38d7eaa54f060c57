-- ===== src/Providers/Rows.antt =====
-- ProvidersPage.tsx: the rows of a provider without a schema, which `ProviderConfigEditor` edits, and
-- the question asked before a provider type is switched. `number` is that of an action.
use notification_platform.Base.{
  ℕ, zero, suc, String, List, [], ◌∷◌, ◌++◌, Dict, if◌then◌else◌, ◌≡◌, refl, trim,
}
use notification_platform.Widgets.Confirm.{ConfirmIntent, primary, danger}
use notification_platform.Providers.Config.{CustomRow, Setting, fill_rows}
use notification_platform.Providers.Page.{ProviderTypeItem}

-- The two inputs of the row at an index.
unfoldable pub row_at : ℕ → (CustomRow → CustomRow) → List CustomRow → List CustomRow
row_at n change [] = []
row_at zero change (r ∷ rows) = change r ∷ rows
row_at (suc n) change (r ∷ rows) = r ∷ row_at n change rows

unfoldable pub key_row : ℕ → String → List CustomRow → List CustomRow
unfolding row_at
key_row n key = row_at n (λ r. record r { key = key })

unfoldable pub value_row : ℕ → String → List CustomRow → List CustomRow
unfolding row_at
value_row n value = row_at n (λ r. record r { value = value })

-- `Remove`, which leaves out the row at an index, and `Add field`.
unfoldable pub remove_row : ℕ → List CustomRow → List CustomRow
remove_row n [] = []
remove_row zero (r ∷ rows) = rows
remove_row (suc n) (r ∷ rows) = r ∷ remove_row n rows

unfoldable pub add_row : List CustomRow → List CustomRow
add_row rows = rows ++ record { key = ""; value = "" } ∷ []

-- The question of the switch of a provider type.
unfoldable pub ask_toggle : (String → ℕ) → ProviderTypeItem → ConfirmIntent
ask_toggle number i = record {
  title = if i.enabled then "Disable provider globally" else "Enable provider globally";
  confirm_label = if i.enabled then "Disable globally" else "Enable globally";
  variant = if i.enabled then danger else primary;
  on_confirm = number i.provider;
}

-- A row that was added and not yet named changes nothing in the configuration that is sent.
pub fill_rows-add_row :
    (rows : List CustomRow) (out : Dict Setting) → fill_rows (add_row rows) out ≡ fill_rows rows out
unfolding fill_rows add_row trim
fill_rows-add_row [] out = refl
fill_rows-add_row (r ∷ rows) out = fill_rows-add_row rows _

-- A value typed into a row without a name is not sent.
pub fill_rows-value_row :
    (n : ℕ) (value : String) (rows : List CustomRow) (out : Dict Setting)
    → fill_rows (value_row n value (key_row n "" rows)) out ≡ fill_rows (key_row n "" rows) out
unfolding fill_rows value_row key_row row_at trim
fill_rows-value_row n value [] out = refl
fill_rows-value_row zero value (r ∷ rows) out = refl
fill_rows-value_row (suc n) value (r ∷ rows) out = fill_rows-value_row n value rows _

-- Without its name, a row counts as little as if it were removed.
pub fill_rows-remove_row :
    (n : ℕ) (rows : List CustomRow) (out : Dict Setting)
    → fill_rows (key_row n "" rows) out ≡ fill_rows (remove_row n rows) out
unfolding fill_rows key_row row_at remove_row trim
fill_rows-remove_row n [] out = refl
fill_rows-remove_row zero (r ∷ rows) out = refl
fill_rows-remove_row (suc n) (r ∷ rows) out = fill_rows-remove_row n rows _
