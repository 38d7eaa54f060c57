-- ===== src/Roles/Grouping.antt =====
-- RolesPage.tsx: `permissionCategory` and `groupedPerms`. The grouping of audit logs by session in
-- pages/tenants/TenantDetailPage.tsx is the same loop with another key.
use notification_platform.Base.{
  String, Bool, true, false, Option, none, some, List, [], ◌∷◌, ◌++◌, ◌≡◌, refl, ap, ◌∙◌, sym, inl,
  inr, arith, eq_iff, Dict, get, set, get-set, has_key, distinct_keys, ◌||◌, filter, has_prefix,
  if◌then◌else◌, ◌===◌, Bool-cases,
}

pub record Permission : Type 0 where
  pub id : String
  pub key : String
  pub description : String

-- `CATEGORIES`
abbrev pub categories : List String
categories =
    "users" ∷ "roles" ∷ "permissions" ∷ "tenants" ∷ "providers" ∷ "contacts" ∷ "campaigns"
    ∷ "templates" ∷ "notifications" ∷ "audit" ∷ "api_keys" ∷ "channels" ∷ "queue_controls"
    ∷ "features" ∷ "settings" ∷ "groups" ∷ []

unfoldable pub category_from : List String → String → String
unfolding has_prefix
category_from [] key = "other"
category_from (cat ∷ cats) key =
    let later = category_from cats key in if has_prefix key cat then cat else later

unfoldable pub permission_category : String → String
unfolding category_from
permission_category key = category_from categories key

abbrev pub rows_of {ℓ} : {A : Type ℓ} → Option (List A) → List A
rows_of none = []
rows_of (some rows) = rows

module _ {A : Type 0} (key_of : A → String) where
  -- `if (!groups[k]) groups[k] = []; groups[k].push(row);` for each row.
  unfoldable pub group_into : List A → Dict (List A) → Dict (List A)
  group_into [] groups = groups
  group_into (row ∷ rows) groups =
      group_into rows (set (key_of row) (rows_of (get (key_of row) groups) ++ row ∷ []) groups)

  unfoldable pub group_by : List A → Dict (List A)
  unfolding group_into
  group_by rows = group_into rows []

-- `groupedPerms`
unfoldable pub grouped_perms : List Permission → Dict (List Permission)
unfolding group_by permission_category
grouped_perms all_perms = group_by (λ p. permission_category p.key) all_perms

module _ {A : Type 0} (key_of : A → String) where
  append_assoc : (xs : List A) (y : A) (zs : List A) → (xs ++ y ∷ []) ++ zs ≡ xs ++ y ∷ zs
  append_assoc [] y zs = refl
  append_assoc (x ∷ xs) y zs = ap (λ l. x ∷ l) (append_assoc xs y zs)

  append_nil : (xs : List A) → xs ++ [] ≡ xs
  append_nil [] = refl
  append_nil (x ∷ xs) = ap (λ l. x ∷ l) (append_nil xs)

  rows_of_if :
      (b : Bool) (xs : List A) (o : Option (List A))
      → rows_of (if b then some xs else o) ≡ (if b then xs else rows_of o)
  rows_of_if true xs o = refl
  rows_of_if false xs o = refl

  group_into_rows :
      (rows : List A) (groups : Dict (List A)) (k : String)
      → rows_of (get k (group_into key_of rows groups))
        ≡ rows_of (get k groups) ++ filter (λ r. key_of r === k) rows
  unfolding group_into filter
  group_into_rows [] groups k = sym (append_nil (rows_of (get k groups)))
  group_into_rows (row ∷ rows) groups k = elim (Bool-cases (key_of row === k)) [
    | inl e ↦
        let same : key_of row ≡ k = (eq_iff (key_of row) k).0 e in
        group_into_rows rows _ k
        ∙ rw
            (get-set (key_of row) k (rows_of (get (key_of row) groups) ++ row ∷ []) groups, e, same)
            (append_assoc (rows_of (get k groups)) row (filter (λ r. key_of r === k) rows))
    | inr e ↦
        group_into_rows rows _ k
        ∙ rw (get-set (key_of row) k (rows_of (get (key_of row) groups) ++ row ∷ []) groups, e) refl
  ]

  has_key-set :
      (k j : String) (v : List A) (m : Dict (List A))
      → has_key j (set k v m) ≡ (k === j || has_key j m)
  unfolding set
  has_key-set k j v [] = refl
  has_key-set k j v ((i, w) ∷ m) =
      ground (arith, eq_iff i k, eq_iff i j, eq_iff k j, has_key-set k j v m)

  distinct_keys-set :
      (k : String) (v : List A) (m : Dict (List A))
      → distinct_keys m ≡ true
      → distinct_keys (set k v m) ≡ true
  unfolding set
  distinct_keys-set k v [] d = refl
  distinct_keys-set k v ((i, w) ∷ m) d =
      ground (arith, eq_iff i k, eq_iff k i, has_key-set k i v m, distinct_keys-set k v m)

  distinct_keys-group_into :
      (rows : List A) (groups : Dict (List A))
      → distinct_keys groups ≡ true
      → distinct_keys (group_into key_of rows groups) ≡ true
  unfolding group_into
  distinct_keys-group_into [] groups d = d
  distinct_keys-group_into (row ∷ rows) groups d =
      distinct_keys-group_into rows _ (distinct_keys-set _ _ groups d)

  no_group : (k : String) → rows_of {A = A} (get k []) ≡ []
  unfolding get
  no_group k = refl

  -- Each group holds the rows with its key, all of them, in the order that they have; no group is
  -- there twice.
  pub group_by_rows :
      (rows : List A)
      → ((k : String) → rows_of (get k (group_by key_of rows)) ≡ filter (λ r. key_of r === k) rows)
        × (distinct_keys (group_by key_of rows) ≡ true)
  unfolding group_by
  group_by_rows rows = (
    (λ k.
        group_into_rows rows [] k
        ∙ ap (λ xs. xs ++ filter (λ r. key_of r === k) rows) (no_group k)),
    distinct_keys-group_into rows [] refl,
  )

-- The permissions shown under a category are all those of that category, in the order that the server
-- lists them, and no category is shown twice.
pub grouped_perms_rows :
    (all_perms : List Permission)
    → ((cat : String)
        → rows_of (get cat (grouped_perms all_perms))
          ≡ filter (λ p. permission_category p.key === cat) all_perms)
      × (distinct_keys (grouped_perms all_perms) ≡ true)
unfolding grouped_perms
grouped_perms_rows all_perms = group_by_rows (λ p. permission_category p.key) all_perms
