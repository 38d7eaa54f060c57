-- ===== src/Session/Provider.antt =====
-- notification-admin-ui/src/auth/AuthContext.tsx: the state of `AuthProvider` and its handlers.
use notification_platform.Base.{String, Option, none, some}
use notification_platform.Auth.Permissions.{Principal}
use notification_platform.Api.Session.{Storage, no_storage}

-- `storage` is the browser's; `token` and `user` are the provider's own state.
pub record Provider : Type 0 where
  pub storage : Storage
  pub token : Option String
  pub user : Option Principal

-- The state that a new page starts in.
unfoldable pub mounted : Storage → Provider
mounted s = record { storage = s; token = s.token; user = s.user }

-- The reply of the login call.
pub record LoginReply : Type 0 where
  pub access_token : String
  pub refresh_token : String
  pub user : Principal

-- `login`, once its call has returned.
unfoldable pub login : LoginReply → Provider → Provider
login res p = record {
  storage = record {
    token = some res.access_token;
    refresh_token = some res.refresh_token;
    user = some res.user;
  };
  token = some res.access_token;
  user = some res.user;
}

-- `logout`
unfoldable pub logout : Provider → Provider
logout p = record { storage = no_storage; token = none; user = none }

-- `syncLogout`, which hears the logout event.
unfoldable pub sync_logout : Provider → Provider
sync_logout p = record p { token = none; user = none }

-- The effect on `token`, once `/auth/me` has returned.
unfoldable pub refresh_user : Principal → Provider → Provider
refresh_user user p = record p { storage = record s { user = some user }; user = some user }
  where
    open p use {storage as s}
