-- ===== src/Model.antt =====
-- internal/model: the rows of the tables. `int8` codes and ids are natural numbers; times are
-- nanoseconds. `Device` stands in internal/service/data_service.go.
use clip_sync_admin.Prelude.{ℕ, String, Bool, Option, List}
use clip_sync_admin.Prelude.Int.{ℤ}

-- A value of the JSON body of `UpdateMenu`: a text, a whole number, or any other one, as it stands in
-- the body (null, true, false, a fraction, a list, an object).
pub data Field : Type 0 where
  words : String → Field
  number : ℤ → Field
  other : (json : String) → Field

pub record BaseColumns : Type 0 where
  pub remark : String
  pub status : ℕ
  pub sort : ℤ
  pub is_del : ℕ
  pub c_by : ℕ
  pub u_by : ℕ
  pub created_at : ℕ
  pub updated_at : ℕ

pub record RbacAdmin : Type 0 where
  pub id : ℕ
  pub name : String
  pub account : String
  pub password : String
  pub is_lock : ℕ
  pub avatar : String
  pub validity_period : Option ℕ
  pub last_update_password_time : Option ℕ
  pub last_login_time : Option ℕ
  pub base : BaseColumns
  pub open base use *

pub record RbacRole : Type 0 where
  pub id : ℕ
  pub name : String
  pub type : ℕ
  pub base : BaseColumns
  pub open base use *

pub record RbacAdminRole : Type 0 where
  pub id : ℕ
  pub admin_id : ℕ
  pub role_id : ℕ
  pub base : BaseColumns
  pub open base use *

pub record RbacMenu : Type 0 where
  pub id : ℕ
  pub name : String
  pub parent_id : ℕ
  pub path : String
  pub icon : String
  pub is_link : ℕ
  pub title : String
  pub code : String
  pub include : String
  pub type : ℕ
  pub field_value_key : String
  pub field_value_width : String
  pub field_value_ellipsis : ℕ
  pub base : BaseColumns
  pub open base use *

pub record RbacPerm : Type 0 where
  pub id : ℕ
  pub name : String
  pub parent_id : ℕ
  pub method : ℕ
  pub route : String
  pub is_intercept : ℕ
  pub base : BaseColumns
  pub open base use *

pub record RbacRoleMenu : Type 0 where
  pub id : ℕ
  pub role_id : ℕ
  pub menu_id : ℕ
  pub base : BaseColumns
  pub open base use *

pub record RbacMenuPerm : Type 0 where
  pub id : ℕ
  pub menu_id : ℕ
  pub perm_id : ℕ
  pub base : BaseColumns
  pub open base use *

-- A row of the Server's table `users`.
pub record User : Type 0 where
  pub id : ℕ
  pub username : String
  pub nickname : String
  pub password_hash : String
  pub disabled : ℕ
  pub created_at : ℕ
  pub updated_at : ℕ

-- A row of the Server's table `devices`; `Username` and `Online` of the source are no columns.
pub record Device : Type 0 where
  pub user_id : ℕ
  pub device_id : String
  pub role : String
  pub platform : String
  pub name : String
  pub last_ip : String
  pub disabled : Bool
  pub last_seen_at : ℕ
  pub created_at : ℕ

-- What the Server tells of a device, of a user that it has created and of its keys: `ServerDevice`,
-- `CreatedUser`, `APIKeyView` and `CreatedAPIKey` of internal/service/server_notifier.go.
pub record ServerDevice : Type 0 where
  pub user_id : ℕ
  pub username : String
  pub device_id : String
  pub role : String
  pub platform : String
  pub name : String
  pub last_ip : String
  pub disabled : Bool
  pub online : Bool
  pub last_seen_at : String
  pub created_at : String

pub record CreatedUser : Type 0 where
  pub id : ℕ
  pub username : String
  pub nickname : String

pub record ApiKeyView : Type 0 where
  pub id : ℕ
  pub user_id : ℕ
  pub username : String
  pub key_prefix : String
  pub name : String
  pub device_id : String
  pub expires_at : String
  pub disabled : Bool
  pub expired : Bool
  pub last_used_at : String
  pub created_at : String

pub record CreatedApiKey : Type 0 where
  pub id : ℕ
  pub api_key : String
  pub key_prefix : String
  pub name : String
  pub device_id : String
  pub expires_at : String
  pub created_at : String
  pub hint : String

-- The contents of the database.
pub record Db : Type 0 where
  pub admins : List RbacAdmin
  pub roles : List RbacRole
  pub admin_roles : List RbacAdminRole
  pub menus : List RbacMenu
  pub perms : List RbacPerm
  pub role_menus : List RbacRoleMenu
  pub menu_perms : List RbacMenuPerm
  pub users : List User
  pub devices : List Device
