-- ===== src/Lib.antt =====
-- ClipSync-Admin: the backend with which administrators manage the users and devices of
-- ClipSync.
--
-- The program (module github.com/clipsync/admin, in Go) is a chain of middlewares before
-- handlers, which call services on MySQL (by gorm) and Redis, and send commands to the
-- ClipSync Server.
--
-- Reply: internal/result (codes, messages, the response) and `bizError` of
--   internal/service/auth_service.go.
-- Model, Config: internal/model and internal/config/config.go, as records.
-- Start: main.go with `Load` of internal/config/config.go, internal/db/db.go and
--   internal/logger/logger.go: the start of the program up to the point where it listens; a
--   message that ends it is the text of its stage with the error.
-- Service: the operations of internal/service/auth_service.go and rbac_service.go that may
--   write, as data, and the system whose steps they are, in any order, with failed calls;
--   other steps leave the rows of the administrators.
-- World: what the services act on. `World` is the state (time, database, Redis, messages sent
--   to the Server); `Env` is what the code calls and does not implement. An action `M A` is a
--   method with a result: it returns a result or an error, and a new state also where it
--   fails. World/Sql has the gorm statements the services build, as filters and maps of lists
--   of rows, World/Cache the commands of Redis, World/Laws the meaning of these commands that
--   theorems rely on (`IsRedis`).
-- Auth: internal/auth (jwt.go, password.go, sign.go), with the hashes of users' passwords in
--   Auth/Password.
-- Session: the part of internal/service/auth_service.go on logins, tokens, secrets and nonces.
-- Access: the part of it on roles, permissions, menus, and the administrator's own account.
-- Rbac: internal/service/rbac_service.go, with a file each for administrators, roles, menus,
--   permissions, and the bindings between them.
-- Users, Paging: internal/service/data_service.go: rows and permissions of bindings in Users,
--   the lists of users and devices with the Server's presence keys in Users/Lists and
--   Users/Devices, and in Users/Forward the operations that check an input and ask the
--   Server's HTTP interface.
-- Notifier: internal/service/server_notifier.go, the messages on Redis; Notifier/Server has
--   its requests to the Server's HTTP interface, with each way in which one fails.
-- Seed: internal/bootstrap/bootstrap.go. Seed/Tree and Seed/Menus are seed_rbac.go beside it:
--   the menu tree (two data types in a mutual block) and the upserts of its menus by their
--   codes.
-- Middleware: internal/middleware/sign.go (Signature), `JWTAuth` (Token) and `RBAC`
--   (Permission) of internal/middleware/rbac.go, `StripBearer` (Header), `TraceID` and `CORS`
--   (Common) of internal/middleware/common.go.
-- Handler: internal/handler/common.go (Respond, Params), auth_handler.go (Login),
--   data_handler.go and apikey_handler.go (Data, Batch), rbac_handler.go (Rbac),
--   upload_handler.go (Upload, whose state is the list of the files, whole or in part, that it
--   leaves).
-- Router: the three chains of internal/router/router.go; Router/Routes is its table of the
--   routes that check a permission.
-- Prelude, Text: numbers, lists and texts that all files share. Tests: a Redis that keeps its
--   laws, a small database, and the theorems at concrete inputs.
--
-- What the model takes as given. `Env` holds a fault for each call to MySQL or Redis, by the
-- number of the call: a call that fails returns the error's text and changes nothing. It also
-- holds the rows that MySQL counts as affected, the ids it assigns, bcrypt, scrypt, base64,
-- HMAC, MD5, JWT signing and parsing, random values, the answers of the Server, the decoders
-- of JSON, the answers of HGETALL, the parsing and printing of times, and the escapes of URLs,
-- what MySQL stores for a value of another type in the body of UpdateMenu, and which of these
-- it refuses; the file system of the uploads is a parameter of Handler/Upload, and what viper,
-- zap and the drivers answer, and what AutoMigrate does, is one of Start (`Drivers`). One
-- request runs at one instant, and its calls one after the other. Texts are compared exactly,
-- as Go does and a binary collation of MySQL does; rows that ORDER BY does not tell apart keep
-- the table's order. Ids and `int8` codes are natural numbers (a user id of a path and a
-- status of a body that are negative are not considered; `sort` is an integer), times are
-- nanoseconds, and a time that is not parsed is 0; `int` arithmetic of a page's offset wraps
-- at 64 bits. `strings.ToLower` is given for the letters that are or become ASCII. Loops run
-- over lists and the menu tree, so no fuel is needed. A Go map of query parameters is the list
-- of its keys with their values.
--
-- Not modelled: how gin finds a route and binds a request's body (the bound body is an
-- argument, `Bound`), what gin-contrib/cors does with the policy of `CORS`, `AccessLog` and
-- the other logs, which change no state, the serving of HTTP and the shutdown in main.go, and
-- the files for building and deployment. The operations on users and devices write no row that
-- Service speaks of, and are not steps of their own in it.
pub mod Prelude
pub mod Text
pub mod Reply
pub mod Model
pub mod Config
pub mod World
pub mod Auth
pub mod Session
pub mod Access
pub mod Paging
pub mod Notifier
pub mod Users
pub mod Rbac
pub mod Middleware
pub mod Handler
pub mod Router
pub mod Seed
pub mod Service
pub mod Start
pub mod Tests
