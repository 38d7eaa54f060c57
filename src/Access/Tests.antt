-- ===== src/Access/Tests.antt =====
-- A platform administrator who names a key, and the theorem on it.
use notification_platform.Base.{true, [], ◌∷◌}
use notification_platform.Access.Page.{KeyTenant, ApiKeysPage, initial}

abbrev acme : KeyTenant
acme = record { id = "t1"; name = "Acme"; slug = "acme"; status = "active" }

abbrev globex : KeyTenant
globex = record { id = "t2"; name = "Globex"; slug = "globex"; status = "active" }

abbrev page : ApiKeysPage
page = record (initial true) { tenants = acme ∷ globex ∷ [] }
