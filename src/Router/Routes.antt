-- ===== src/Router/Routes.antt =====
-- internal/router/router.go: the table of the routes that the middleware `RBAC` guards, and what the
-- seeding of internal/bootstrap/seed_rbac.go registers of it.
pub mod Seeded
use Prim.Native.String.{◌++◌}
use clip_sync_admin.Prelude.{String, Bool, ◌&&◌, List, [], ◌∷◌, ◌==◌, string_eq}

-- A route: its method and its pattern.
pub record Route : Type 0 where
  pub method : String
  pub pattern : String

abbrev pub same_route : Route → Route → Bool
same_route a b = a.method == b.method && a.pattern == b.pattern

abbrev route : String → String → Route
route method path = record { method = method; pattern = "/api/admin" ++ path }

-- The routes of `rbacGroup`, in order.
abbrev pub checked_routes : List Route
checked_routes =
    route "GET" "/dashboard"
    ∷ route "GET" "/users"
    ∷ route "POST" "/users"
    ∷ route "GET" "/users/:id"
    ∷ route "PUT" "/users/:id"
    ∷ route "PUT" "/users/:id/status"
    ∷ route "POST" "/users/:id/reset-password"
    ∷ route "DELETE" "/users/:id"
    ∷ route "POST" "/users/:id/kick"
    ∷ route "GET" "/users/:id/devices"
    ∷ route "PUT" "/users/:id/devices/:did"
    ∷ route "PUT" "/users/:id/devices/:did/name"
    ∷ route "POST" "/users/:id/devices/:did/kick"
    ∷ route "DELETE" "/users/:id/devices/:did"
    ∷ route "GET" "/devices"
    ∷ route "POST" "/devices/batch-status"
    ∷ route "POST" "/devices/batch-delete"
    ∷ route "GET" "/api-keys"
    ∷ route "GET" "/users/:id/api-keys"
    ∷ route "POST" "/users/:id/api-keys"
    ∷ route "DELETE" "/api-keys/:keyId"
    ∷ route "GET" "/rbac/admins"
    ∷ route "POST" "/rbac/admins"
    ∷ route "PUT" "/rbac/admins/:id"
    ∷ route "PUT" "/rbac/admins/:id/status"
    ∷ route "PUT" "/rbac/admins/:id/password"
    ∷ route "GET" "/rbac/admins/:id/roles"
    ∷ route "DELETE" "/rbac/admins/:id"
    ∷ route "GET" "/rbac/roles"
    ∷ route "POST" "/rbac/roles"
    ∷ route "PUT" "/rbac/roles/:id"
    ∷ route "DELETE" "/rbac/roles/:id"
    ∷ route "PUT" "/rbac/roles/:id/menus"
    ∷ route "GET" "/rbac/roles/:id/menus"
    ∷ route "GET" "/rbac/menus"
    ∷ route "POST" "/rbac/menus"
    ∷ route "PUT" "/rbac/menus/:id"
    ∷ route "DELETE" "/rbac/menus/:id"
    ∷ route "PUT" "/rbac/menus/:id/perms"
    ∷ route "GET" "/rbac/perms"
    ∷ route "POST" "/rbac/perms"
    ∷ route "PUT" "/rbac/perms/:id"
    ∷ route "DELETE" "/rbac/perms/:id"
    ∷ []

-- `rbacGroup.PUT("/rbac/admins/:id/status", ...)`
abbrev pub admin_status_route : Route
admin_status_route = route "PUT" "/rbac/admins/:id/status"
