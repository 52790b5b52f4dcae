-- ===== src/World/Tables.antt =====
-- The tables of the database as the statements see them, and the columns that all RBAC tables share
-- (`model.BaseColumns`). The unique indexes are the `uniqueIndex` tags of internal/model.
use clip_sync_admin.Prelude.{if◌then◌else◌, ℕ, Bool, false, ◌&&◌, ◌==◌, nat_eq, string_eq}
use clip_sync_admin.Prelude.Int.{pos}
use clip_sync_admin.Model.{
  BaseColumns, RbacAdmin, RbacRole, RbacAdminRole, RbacMenu, RbacPerm, RbacRoleMenu, RbacMenuPerm,
  Device, User,
}
use clip_sync_admin.World.Sql.{Table}

abbrev pub admins : Table RbacAdmin
admins = record {
  rows = λ db. db.admins;
  put = λ xs db. record db { admins = xs };
  key = λ r. r.id;
  with_key = λ k r. record r { id = k };
  clash = λ a b. a.account == b.account;
}

abbrev pub roles : Table RbacRole
roles = record {
  rows = λ db. db.roles;
  put = λ xs db. record db { roles = xs };
  key = λ r. r.id;
  with_key = λ k r. record r { id = k };
  clash = λ a b. false;
}

abbrev pub admin_roles : Table RbacAdminRole
admin_roles = record {
  rows = λ db. db.admin_roles;
  put = λ xs db. record db { admin_roles = xs };
  key = λ r. r.id;
  with_key = λ k r. record r { id = k };
  clash = λ a b. false;
}

abbrev pub menus : Table RbacMenu
menus = record {
  rows = λ db. db.menus;
  put = λ xs db. record db { menus = xs };
  key = λ r. r.id;
  with_key = λ k r. record r { id = k };
  clash = λ a b. false;
}

abbrev pub perms : Table RbacPerm
perms = record {
  rows = λ db. db.perms;
  put = λ xs db. record db { perms = xs };
  key = λ r. r.id;
  with_key = λ k r. record r { id = k };
  clash = λ a b. false;
}

abbrev pub role_menus : Table RbacRoleMenu
role_menus = record {
  rows = λ db. db.role_menus;
  put = λ xs db. record db { role_menus = xs };
  key = λ r. r.id;
  with_key = λ k r. record r { id = k };
  clash = λ a b. false;
}

abbrev pub menu_perms : Table RbacMenuPerm
menu_perms = record {
  rows = λ db. db.menu_perms;
  put = λ xs db. record db { menu_perms = xs };
  key = λ r. r.id;
  with_key = λ k r. record r { id = k };
  clash = λ a b. false;
}

abbrev pub users : Table User
users = record {
  rows = λ db. db.users;
  put = λ xs db. record db { users = xs };
  key = λ r. r.id;
  with_key = λ k r. record r { id = k };
  clash = λ a b. a.username == b.username;
}

-- The primary key of `devices` is the pair of user and device; the services create no device.
abbrev pub devices : Table Device
devices = record {
  rows = λ db. db.devices;
  put = λ xs db. record db { devices = xs };
  key = λ r. r.user_id;
  with_key = λ k r. record r { user_id = k };
  clash = λ a b. a.user_id == b.user_id && a.device_id == b.device_id;
}

-- The base columns of a row, read and changed.
pub record HasBase (Row : Type 0) : Type 0 where
  pub base_of : Row → BaseColumns
  pub map_base : (BaseColumns → BaseColumns) → Row → Row

instance abbrev pub admin_base : HasBase RbacAdmin
admin_base = record { base_of = λ r. r.base; map_base = λ f r. record r { base = f r.base } }

instance abbrev pub role_base : HasBase RbacRole
role_base = record { base_of = λ r. r.base; map_base = λ f r. record r { base = f r.base } }

instance abbrev pub admin_role_base : HasBase RbacAdminRole
admin_role_base = record { base_of = λ r. r.base; map_base = λ f r. record r { base = f r.base } }

instance abbrev pub menu_base : HasBase RbacMenu
menu_base = record { base_of = λ r. r.base; map_base = λ f r. record r { base = f r.base } }

instance abbrev pub perm_base : HasBase RbacPerm
perm_base = record { base_of = λ r. r.base; map_base = λ f r. record r { base = f r.base } }

instance abbrev pub role_menu_base : HasBase RbacRoleMenu
role_menu_base = record { base_of = λ r. r.base; map_base = λ f r. record r { base = f r.base } }

instance abbrev pub menu_perm_base : HasBase RbacMenuPerm
menu_perm_base = record { base_of = λ r. r.base; map_base = λ f r. record r { base = f r.base } }

-- The base columns of a row that the code builds, before `Create` sets its times.
abbrev pub no_base : BaseColumns
no_base = record {
  remark = "";
  status = 0;
  sort = pos 0;
  is_del = 0;
  c_by = 0;
  u_by = 0;
  created_at = 0;
  updated_at = 0;
}

module _ {Row : Type 0} ⦃h : HasBase Row⦄ where
  -- `scopeActive`: status = 0 AND is_del = 0
  abbrev pub scope_active : Row → Bool
  scope_active r = (h.base_of r).status == 0 && (h.base_of r).is_del == 0

  -- `notDel`: is_del = 0
  abbrev pub not_del : Row → Bool
  not_del r = (h.base_of r).is_del == 0

  -- What gorm adds to an UPDATE: the time.
  abbrev pub touch : ℕ → Row → Row
  touch now r = h.map_base (λ b. record b { updated_at = now }) r

  -- `Update("is_del", 1)`
  abbrev pub soft_delete : ℕ → Row → Row
  soft_delete now r = h.map_base (λ b. record b { is_del = 1; updated_at = now }) r

  -- `Updates(map[string]any{"is_del": 1, "u_by": operator})`
  abbrev pub soft_delete_by : ℕ → ℕ → Row → Row
  soft_delete_by now operator r =
      h.map_base (λ b. record b { is_del = 1; u_by = operator; updated_at = now }) r

  -- `c_by` of a row that is created, and the times that gorm sets where the row has none.
  abbrev pub created_by : ℕ → ℕ → Row → Row
  created_by now operator r =
      h.map_base
        (λ b. record b {
          c_by = operator;
          created_at = if b.created_at == 0 then now else b.created_at;
          updated_at = if b.updated_at == 0 then now else b.updated_at;
        })
        r
