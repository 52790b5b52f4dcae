-- ===== src/Seed/Tree.antt =====
-- internal/bootstrap/seed_rbac.go: the data of the built-in menus and permissions.
use clip_sync_admin.Prelude.{ℕ, String, List, [], ◌∷◌, ◌++◌}
use clip_sync_admin.Prelude.Int.{ℤ, pos}

-- `permSeed`
pub record PermSeed : Type 0 where
  pub name : String
  pub route : String
  pub method : ℕ
  pub is_intercept : ℕ
  pub sort : ℤ

-- The fields of `menuSeed` besides its permissions and children.
pub record MenuFields : Type 0 where
  pub code : String
  pub title : String
  pub name : String
  pub path : String
  pub icon : String
  pub type : ℕ
  pub sort : ℤ

-- `menuSeed`, with the slice of its children.
mutual
  pub data MenuSeed : Type 0 where
    menu : MenuFields → List PermSeed → MenuSeeds → MenuSeed

  pub data MenuSeeds : Type 0 where
    nil : MenuSeeds
    cons : MenuSeed → MenuSeeds → MenuSeeds

-- `collectCodes`
unfoldable mutual
  pub codes_of : MenuSeed → List String
  codes_of (menu f perms children) = f.code ∷ collect_codes children

  pub collect_codes : MenuSeeds → List String
  collect_codes nil = []
  collect_codes (cons s tree) = codes_of s ++ collect_codes tree

-- The codes of the methods: `mGET`, `mPOST`, `mPUT` and `mDEL`.
abbrev pub m_get : ℕ
m_get = 1

abbrev pub m_post : ℕ
m_post = 2

abbrev pub m_put : ℕ
m_put = 3

abbrev pub m_del : ℕ
m_del = 4

-- The two literals of the tree; no permission of it names a sort.
abbrev perm : String → String → ℕ → ℕ → PermSeed
perm name route method is_intercept = record {
  name = name;
  route = route;
  method = method;
  is_intercept = is_intercept;
  sort = pos 0;
}

abbrev fields : (code title name path icon : String) → (type sort : ℕ) → MenuFields
fields code title name path icon type sort = record {
  code = code;
  title = title;
  name = name;
  path = path;
  icon = icon;
  type = type;
  sort = pos sort;
}

abbrev dashboard_menu : MenuSeed
dashboard_menu =
    menu (fields "dashboard" "首页" "dashboard" "/dashboard" "HomeFilled" 2 0)
      ((perm "查看首页数据" "/api/admin/dashboard" m_get 0) ∷ []) nil

abbrev user_mgmt_menu : MenuSeed
user_mgmt_menu = menu (fields "user-mgmt" "用户管理" "user-mgmt" "/user-mgmt" "User" 2 20) [] (
    cons
      (menu (fields "biz:users" "用户列表" "users" "/users" "" 2 21)
        ((perm "用户列表" "/api/admin/users" m_get 1)
          ∷ (perm "用户详情" "/api/admin/users/:id" m_get 1)
          ∷ [])
        (cons
          (menu (fields "biz:users:create" "新增用户" "" "" "" 3 0)
            ((perm "新增用户" "/api/admin/users" m_post 1) ∷ []) nil)
          (cons
            (menu (fields "biz:users:update" "编辑用户" "" "" "" 3 1)
              ((perm "更新用户" "/api/admin/users/:id" m_put 1) ∷ []) nil)
            (cons
              (menu (fields "biz:users:status" "启用/禁用用户" "" "" "" 3 2)
                ((perm "更新用户状态" "/api/admin/users/:id/status" m_put 1) ∷ []) nil)
              (cons
                (menu (fields "biz:users:reset-pwd" "重置密码" "" "" "" 3 3)
                  ((perm "重置密码" "/api/admin/users/:id/reset-password" m_post 1) ∷ []) nil)
                (cons
                  (menu (fields "biz:users:delete" "删除用户" "" "" "" 3 4)
                    ((perm "删除用户" "/api/admin/users/:id" m_del 1) ∷ []) nil)
                  (cons
                    (menu (fields "biz:users:kick" "踢用户下线" "" "" "" 3 5)
                      ((perm "踢用户下线" "/api/admin/users/:id/kick" m_post 1) ∷ []) nil)
                    (cons
                      (menu (fields "biz:users:devices" "用户设备列表" "" "" "" 3 6)
                        ((perm "用户设备列表" "/api/admin/users/:id/devices" m_get 1) ∷ []) nil)
                      (nil)))))))))
      (nil))

abbrev device_mgmt_menu : MenuSeed
device_mgmt_menu =
    menu (fields "device-mgmt" "设备管理" "device-mgmt" "/device-mgmt" "Monitor" 2 30) [] (
      cons
        (menu (fields "biz:devices" "设备列表" "devices" "/devices" "" 2 31)
          ((perm "设备列表" "/api/admin/devices" m_get 1)
            ∷ (perm "更新设备状态" "/api/admin/users/:id/devices/:did" m_put 1)
            ∷ (perm "重命名设备" "/api/admin/users/:id/devices/:did/name" m_put 1)
            ∷ (perm "踢设备下线" "/api/admin/users/:id/devices/:did/kick" m_post 1)
            ∷ (perm "删除设备" "/api/admin/users/:id/devices/:did" m_del 1)
            ∷ (perm "批量启用禁用设备" "/api/admin/devices/batch-status" m_post 1)
            ∷ (perm "批量删除设备" "/api/admin/devices/batch-delete" m_post 1)
            ∷ [])
          nil)
        (nil))

abbrev openapi_mgmt_menu : MenuSeed
openapi_mgmt_menu =
    menu (fields "openapi-mgmt" "开放接口" "openapi-mgmt" "/openapi-mgmt" "Key" 2 40) [] (
      cons
        (menu (fields "biz:apikeys" "ApiKey 管理" "apikeys" "/api-keys" "" 2 41)
          ((perm "ApiKey 列表" "/api/admin/api-keys" m_get 1)
            ∷ (perm "用户 ApiKey 列表" "/api/admin/users/:id/api-keys" m_get 1)
            ∷ (perm "签发 ApiKey" "/api/admin/users/:id/api-keys" m_post 1)
            ∷ (perm "吊销 ApiKey" "/api/admin/api-keys/:keyId" m_del 1)
            ∷ [])
          nil)
        (nil))

abbrev rbac_admins_menu : MenuSeed
rbac_admins_menu =
    menu (fields "rbac:admins" "管理员" "rbac-admins" "/rbac/admins" "" 2 51)
      ((perm "管理员列表" "/api/admin/rbac/admins" m_get 1)
        ∷ (perm "查看管理员角色" "/api/admin/rbac/admins/:id/roles" m_get 1)
        ∷ [])
      (cons
        (menu (fields "rbac:admins:create" "新增管理员" "" "" "" 3 0)
          ((perm "新增管理员" "/api/admin/rbac/admins" m_post 1) ∷ []) nil)
        (cons
          (menu (fields "rbac:admins:update" "编辑管理员" "" "" "" 3 0)
            ((perm "更新管理员" "/api/admin/rbac/admins/:id" m_put 1) ∷ []) nil)
          (cons
            (menu (fields "rbac:admins:reset-pass" "重置密码" "" "" "" 3 0)
              ((perm "重置密码" "/api/admin/rbac/admins/:id/password" m_put 1) ∷ []) nil)
            (cons
              (menu (fields "rbac:admins:delete" "删除管理员" "" "" "" 3 0)
                ((perm "删除管理员" "/api/admin/rbac/admins/:id" m_del 1) ∷ []) nil)
              (nil)))))

abbrev rbac_roles_menu : MenuSeed
rbac_roles_menu =
    menu (fields "rbac:roles" "角色" "rbac-roles" "/rbac/roles" "" 2 52)
      ((perm "角色列表" "/api/admin/rbac/roles" m_get 1)
        ∷ (perm "查看角色菜单" "/api/admin/rbac/roles/:id/menus" m_get 1)
        ∷ [])
      (cons
        (menu (fields "rbac:roles:create" "新增角色" "" "" "" 3 0)
          ((perm "新增角色" "/api/admin/rbac/roles" m_post 1) ∷ []) nil)
        (cons
          (menu (fields "rbac:roles:update" "编辑角色" "" "" "" 3 0)
            ((perm "更新角色" "/api/admin/rbac/roles/:id" m_put 1) ∷ []) nil)
          (cons
            (menu (fields "rbac:roles:assign-menu" "分配菜单" "" "" "" 3 0)
              ((perm "分配菜单" "/api/admin/rbac/roles/:id/menus" m_put 1) ∷ []) nil)
            (cons
              (menu (fields "rbac:roles:delete" "删除角色" "" "" "" 3 0)
                ((perm "删除角色" "/api/admin/rbac/roles/:id" m_del 1) ∷ []) nil)
              (nil)))))

abbrev rbac_menus_menu : MenuSeed
rbac_menus_menu =
    menu (fields "rbac:menus" "菜单" "rbac-menus" "/rbac/menus" "" 2 53)
      ((perm "菜单列表" "/api/admin/rbac/menus" m_get 1) ∷ [])
      (cons
        (menu (fields "rbac:menus:create" "新增菜单" "" "" "" 3 0)
          ((perm "新增菜单" "/api/admin/rbac/menus" m_post 1) ∷ []) nil)
        (cons
          (menu (fields "rbac:menus:update" "编辑菜单" "" "" "" 3 0)
            ((perm "更新菜单" "/api/admin/rbac/menus/:id" m_put 1) ∷ []) nil)
          (cons
            (menu (fields "rbac:menus:assign-perm" "分配权限" "" "" "" 3 0)
              ((perm "分配权限" "/api/admin/rbac/menus/:id/perms" m_put 1) ∷ []) nil)
            (cons
              (menu (fields "rbac:menus:delete" "删除菜单" "" "" "" 3 0)
                ((perm "删除菜单" "/api/admin/rbac/menus/:id" m_del 1) ∷ []) nil)
              (nil)))))

abbrev rbac_perms_menu : MenuSeed
rbac_perms_menu =
    menu (fields "rbac:perms" "权限接口" "rbac-perms" "/rbac/perms" "" 2 54)
      ((perm "接口列表" "/api/admin/rbac/perms" m_get 1) ∷ [])
      (cons
        (menu (fields "rbac:perms:create" "新增接口" "" "" "" 3 0)
          ((perm "新增接口" "/api/admin/rbac/perms" m_post 1) ∷ []) nil)
        (cons
          (menu (fields "rbac:perms:update" "编辑接口" "" "" "" 3 0)
            ((perm "更新接口" "/api/admin/rbac/perms/:id" m_put 1) ∷ []) nil)
          (cons
            (menu (fields "rbac:perms:delete" "删除接口" "" "" "" 3 0)
              ((perm "删除接口" "/api/admin/rbac/perms/:id" m_del 1) ∷ []) nil)
            (nil))))

abbrev rbac_menu : MenuSeed
rbac_menu = menu (fields "rbac" "权限管理" "rbac" "/rbac" "Lock" 2 50) [] (
    cons rbac_admins_menu
      (cons rbac_roles_menu (cons rbac_menus_menu (cons rbac_perms_menu (nil)))))

abbrev profile_menu : MenuSeed
profile_menu = menu (fields "profile" "个人中心" "profile" "/profile" "User" 2 90) [] (
    cons
      (menu (fields "profile:password" "修改密码" "profile-password" "/profile/password" "" 2 91)
        ((perm "修改自己密码" "/api/admin/auth/password" m_put 0) ∷ []) nil)
      (nil))

-- `rbacMenuTree`
abbrev pub rbac_menu_tree : MenuSeeds
rbac_menu_tree = cons dashboard_menu (
    cons user_mgmt_menu
      (cons device_mgmt_menu (cons openapi_mgmt_menu (cons rbac_menu (cons profile_menu (nil))))))
