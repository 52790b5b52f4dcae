-- ===== src/Tests/Sample.antt =====
-- A small database, a Redis with some keys, and an environment, for the runs.
use Prim.Native.Char.{code}
use Prim.Native.String.{◌++◌, len, ◌∷◌ as push, [] as empty}
use clip_sync_admin.Prelude.{
  ℕ, zero, suc, ◌*◌, true, false, String, some, none, List, [], ◌∷◌, length, ◌==◌, nat_eq,
  string_eq, if◌then◌else◌,
}
use clip_sync_admin.Prelude.Int.{pos}
use clip_sync_admin.Reply.{raw, ok, err}
use clip_sync_admin.Config.{Config, minute, second}
use clip_sync_admin.Model.{RbacAdmin, RbacAdminRole, RbacPerm, RbacRoleMenu, RbacMenuPerm, Db}
use clip_sync_admin.World.{
  Env, World, Claims, Contents, num, text, parsed, refused, answered, no_base,
}
use clip_sync_admin.Tests.Redis.{memory}

abbrev pub config : Config
config = record {
  app = record { name = "admin"; addr = ":8080"; mode = "release" };
  mysql = record {
    dsn = "dsn";
    max_idle_conns = pos 5;
    max_open_conns = pos 0;
    conn_max_lifetime = pos 60;
  };
  redis = record { addr = "redis"; password = ""; db = pos 0 };
  cors = record { allow_origins = []; allow_credentials = true };
  log = record { level = "info"; format = "console" };
  upload = record { dir = ""; url_prefix = ""; max_size = pos 0; allow_ext = [] };
  jwt = record {
    secret = "jwt";
    header = "Authorization";
    scheme = "Bearer";
    ttl = 3600;
    refresh_on_access = true;
  };
  security = record {
    bcrypt_cost = 10;
    login_error_limit = 5;
    login_error_ttl = 900;
    sign_static_secret = "static";
  };
  server = record { key_prefix = "clipsync:"; addr = "http://server"; http_admin_token = "t" };
  bootstrap = record {
    super_admin_account = "root";
    super_admin_password = "pw";
    super_admin_name = "";
  };
}

abbrev pub admin_claims : ℕ → Claims
admin_claims id = record {
  admin_id = id;
  account = "op";
  id = "jti";
  issued_at = 0;
  expires_at = 3600 * second;
}

-- As many equal bytes as a number says.
abbrev pub copies : ℕ → ℕ → List ℕ
copies zero b = []
copies (suc n) b = b ∷ copies n b

-- A code that texts can carry: each byte in unary, and a point behind it.
abbrev pub byte_in_unary : ℕ → String → String
byte_in_unary zero s = push "." s
byte_in_unary (suc n) s = push "1" (byte_in_unary n s)

abbrev pub in_unary : List ℕ → String
in_unary [] = ""
in_unary (b ∷ l) = byte_in_unary b (in_unary l)

abbrev pub unary_from : ℕ → String → List ℕ
unary_from n empty = []
unary_from n (push c s) =
    let more = unary_from (suc n) s in
    let next = unary_from 0 s in if code c == b'1' then more else n ∷ next

abbrev pub out_of_unary : String → List ℕ
out_of_unary s = unary_from 0 s

abbrev pub env : Env
env = record {
  cfg = config;
  fault = λ _. none;
  affected = λ _ n. n;
  auto_id = λ _ ids. suc (length ids);
  redis = memory;
  bcrypt = λ _ plain _. ok ("#" ++ plain);
  bcrypt_matches = λ plain hash. hash == ("#" ++ plain);
  random_bytes = λ _ n. ok (copies n 1);
  scrypt = λ plain _ _ _ _ n. ok (copies n (len plain));
  encode_bytes = in_unary;
  decode_bytes = λ s. some (out_of_unary s);
  uuid = λ _. "new";
  random_hex = λ _. ok "secret";
  random_below = λ _ _. ok 0;
  sign_token = λ c. ok ("jwt:" ++ c.id);
  parse_token = λ _ token.
      if token == "jwt:root"
      then parsed (admin_claims 1) true
      else if token == "jwt:op"
      then parsed (admin_claims 2) true
      else refused;
  hmac_sha256_hex = λ secret payload. secret ++ payload;
  md5_hex = λ s. s;
  http_do = λ _ _. answered 200 "";
  decode = record {
    devices = λ _. ok [];
    device_page = λ _. ok ([], 0);
    created_user = λ _. ok (record { id = 9; username = "ann"; nickname = "" });
    created_key = λ _. err (raw "no key");
    api_keys = λ _. ok [];
  };
  hget_all = λ _ _. ok (("mac-1", "pc") ∷ []);
  parse_time = λ _. none;
  format_time = λ _. "";
  path_escape = λ s. s;
  query_escape = λ s. s;
  text_as_number = λ _. pos 0;
  json_as_number = λ _. pos 0;
  json_as_text = λ s. s;
  refuses = λ _ _. none;
  number_as_text = λ _. "0";
  like = λ _ _. false;
}

abbrev admin_row : ℕ → String → RbacAdmin
admin_row id account = record {
  id = id;
  name = account;
  account = account;
  password = "#pw";
  is_lock = 0;
  avatar = "";
  validity_period = none;
  last_update_password_time = none;
  last_login_time = none;
  base = no_base;
}

abbrev pub root : RbacAdmin
root = admin_row 1 "root"

abbrev pub op : RbacAdmin
op = admin_row 2 "op"

abbrev pub users_perm : RbacPerm
users_perm = record {
  id = 7;
  name = "";
  parent_id = 0;
  method = 1;
  route = "/api/admin/users";
  is_intercept = 1;
  base = no_base;
}

abbrev pub role_menu : RbacRoleMenu
role_menu = record { id = 1; role_id = 2; menu_id = 5; base = no_base }

abbrev pub menu_perm : RbacMenuPerm
menu_perm = record { id = 1; menu_id = 5; perm_id = 7; base = no_base }

abbrev pub op_role : RbacAdminRole
op_role = record { id = 2; admin_id = 2; role_id = 2; base = no_base }

abbrev pub database : Db
database = record {
  admins = root ∷ op ∷ [];
  roles =
      record { id = 1; name = "super"; type = 1; base = no_base }
      ∷ record { id = 2; name = "staff"; type = 2; base = no_base }
      ∷ [];
  admin_roles = record { id = 1; admin_id = 1; role_id = 1; base = no_base } ∷ op_role ∷ [];
  menus = [];
  perms = users_perm ∷ [];
  role_menus = role_menu ∷ [];
  menu_perms = menu_perm ∷ [];
  users =
      record {
        id = 3;
        username = "u";
        nickname = "u";
        password_hash = "";
        disabled = 0;
        created_at = 0;
        updated_at = 0;
      }
      ∷ [];
  devices = [];
}

abbrev pub keys : Contents
keys k =
    if k == "admin:token:jti"
    then some (record { value = num 2; deadline = none })
    else if k == "admin:sign_secret:2"
    then some (record { value = text "secret"; deadline = none })
    else if k == "admin:login_err:op"
    then some (record { value = num 1; deadline = none })
    else if k == "admin:login_err:locked"
    then some (record { value = num 5; deadline = none })
    else none

-- Twenty minutes after the epoch.
abbrev pub world : World
world = record { now = 20 * minute; calls = 0; db = database; redis = keys; sent = [] }
