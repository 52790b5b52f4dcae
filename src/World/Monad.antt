-- ===== src/World/Monad.antt =====
-- The state, the environment, and actions that read the one and change the other.
use clip_sync_admin.Prelude.{ℕ, ◌+◌, String, Bool, if◌then◌else◌, Option, List, ◌++◌, [], ◌∷◌}
use clip_sync_admin.Prelude.Int.{ℤ}
use clip_sync_admin.Reply.{Error, Outcome, ok, err}
use clip_sync_admin.Model.{Db, Field, ServerDevice, CreatedUser, CreatedApiKey, ApiKeyView}
use clip_sync_admin.Config.{Config}

-- A value of Redis, and what stands under a key: a value and the time from which it is gone.
pub data Value : Type 0 where
  num : ℕ → Value
  text : String → Value

pub record Entry : Type 0 where
  pub value : Value
  pub deadline : Option ℕ

abbrev pub Contents : Type 0
Contents = String → Option Entry

-- The commands of Redis, each at a time.
pub record Redis : Type 0 where
  pub get : ℕ → String → Contents → Option Value
  pub set : ℕ → String → Value → ℕ → Contents → Contents
  pub set_nx : ℕ → String → Value → ℕ → Contents → Bool × Contents
  pub del : String → Contents → Contents
  pub incr : ℕ → String → Contents → ℕ × Contents
  pub expire : ℕ → String → ℕ → Contents → Contents

-- The claims of a token: `auth.Claims` with the registered claims that the code sets; the time of
-- expiry is 0 for a token that has none.
pub record Claims : Type 0 where
  pub admin_id : ℕ
  pub account : String
  pub id : String
  pub issued_at : ℕ
  pub expires_at : ℕ

-- What `jwt.ParseWithClaims` answers, for a key function that admits HMAC methods alone.
pub data JwtAnswer : Type 0 where
  expired : JwtAnswer
  refused : JwtAnswer
  parsed : Claims → (valid : Bool) → JwtAnswer

-- A control command for the Server (`AdminCommand`), and what goes to the Server.
pub data AdminAction : Type 0 where
  kick_user kick_device disable_device enable_device delete_device : AdminAction

pub record AdminCommand : Type 0 where
  pub action : AdminAction
  pub user_id : ℕ
  pub device_id : String
  pub reason : String

-- A request is its method, its address, the token that it shows, and the fields of its JSON body.
pub data Message : Type 0 where
  published : (channel : String) → AdminCommand → Message
  posted : (url : String) → (token : String) → AdminCommand → Message
  requested : (method url token : String) → (body : List (String × String)) → Message

-- What an HTTP request brings: an error of `http.NewRequest`, a transport error, a status and a
-- body, or a status with what there is of a body whose reading fails.
pub data HttpAnswer : Type 0 where
  unbuilt : (message : String) → HttpAnswer
  unreachable : (message : String) → HttpAnswer
  answered : (status : ℕ) → (body : String) → HttpAnswer
  cut : (status : ℕ) → (body : String) → (message : String) → HttpAnswer

-- What `json.Unmarshal` reads of the bodies of the Server.
pub record Decoders : Type 0 where
  pub devices : String → Outcome (List ServerDevice)
  pub device_page : String → Outcome (List ServerDevice × ℕ)
  pub created_user : String → Outcome CreatedUser
  pub created_key : String → Outcome CreatedApiKey
  pub api_keys : String → Outcome (List ApiKeyView)

pub record Env : Type 0 where
  pub cfg : Config
  -- the error text of a call to MySQL or Redis that fails, by the number of the call
  pub fault : ℕ → Option String
  -- the rows affected by an UPDATE or DELETE, from the rows that its condition selects
  pub affected : ℕ → ℕ → ℕ
  -- the AUTO_INCREMENT id of an INSERT, from the ids in the table
  pub auto_id : ℕ → List ℕ → ℕ
  pub redis : Redis
  -- `bcrypt.GenerateFromPassword` and `bcrypt.CompareHashAndPassword`
  pub bcrypt : ℕ → String → ℕ → Outcome String
  pub bcrypt_matches : String → String → Bool
  -- `rand.Read` into a slice of a length, `scrypt.Key`, and `base64.RawStdEncoding`
  pub random_bytes : ℕ → (length : ℕ) → Outcome (List ℕ)
  pub scrypt :
      (password : String) → (salt : List ℕ) → (n r p : ℤ) → (key_len : ℕ) → Outcome (List ℕ)
  pub encode_bytes : List ℕ → String
  pub decode_bytes : String → Option (List ℕ)
  -- `uuid.NewString`, 32 random bytes in hex, and a random index below a bound
  pub uuid : ℕ → String
  pub random_hex : ℕ → Outcome String
  pub random_below : ℕ → ℕ → Outcome ℕ
  -- `jwt.Token.SignedString` and `jwt.ParseWithClaims`, with the secret of the manager
  pub sign_token : Claims → Outcome String
  pub parse_token : ℕ → String → JwtAnswer
  pub hmac_sha256_hex : (secret : String) → (payload : String) → String
  pub md5_hex : String → String
  -- the answer of the Server to a request, by the number of the call
  pub http_do : ℕ → Message → HttpAnswer
  pub decode : Decoders
  -- `HGETALL`: the fields of a hash that the Server keeps, by the number of the call
  pub hget_all : ℕ → String → Outcome (List (String × String))
  -- `time.Parse` and `Format` for RFC 3339, and the two escapes of `net/url`
  pub parse_time : String → Option ℕ
  pub format_time : ℕ → String
  pub path_escape : String → String
  pub query_escape : String → String
  -- what MySQL stores for a text in a column of numbers, for a number in a column of texts, and for
  -- the other values of a JSON body
  pub text_as_number : String → ℤ
  pub number_as_text : ℤ → String
  pub json_as_number : String → ℤ
  pub json_as_text : String → String
  -- the error of gorm or MySQL for the values of an UPDATE that a row matches, or that none matches
  pub refuses : List (String × Field) → (matched : Bool) → Option String
  -- `text LIKE pattern`
  pub like : (pattern : String) → (text : String) → Bool

pub record World : Type 0 where
  pub now : ℕ
  pub calls : ℕ
  pub db : Db
  pub redis : Contents
  pub sent : List Message

-- An action: a method of a service, which changes the world also where it returns an error.
abbrev pub M : Type 0 → Type 0
M A = Env → World → Outcome A × World

module _ {A : Type 0} where
  abbrev pub pure : A → M A
  pure a env w = (ok a, w)

  abbrev pub raise : Error → M A
  raise e env w = (err e, w)

  abbrev pub lift : Outcome A → M A
  lift r env w = (r, w)

infixl 5 ◌>>=◌ ◌>>◌
abbrev pub ◌>>=◌ : {A B : Type 0} → M A → (A → M B) → M B
◌>>=◌ m f env w = let (r, w') = m env w in elim r [ ok a ↦ f a env w' | err e ↦ (err e, w') ]

abbrev pub ◌>>◌ : {A B : Type 0} → M A → M B → M B
m >> k = m >>= λ _. k

-- `_ = m`: the error is dropped, and what `m` did stays done.
abbrev pub ignore : {A : Type 0} → M A → M (Unit {0})
ignore m env w = (ok tt, (m env w).1)

-- `x, _ := m`: on an error `x` has its zero value.
abbrev pub or_zero : {A : Type 0} → A → M A → M A
or_zero zero_value m env w =
    let (r, w') = m env w in (elim r [ ok a ↦ ok a | err _ ↦ ok zero_value ], w')

-- `m` with its result as a value, for code that goes on after an error.
abbrev pub attempt : {A : Type 0} → M A → M (Outcome A)
attempt m env w = let (r, w') = m env w in (ok r, w')

abbrev pub fail_if : Bool → Error → M (Unit {0})
fail_if bad e env w = (if bad then err e else ok tt, w)

abbrev pub asks : {A : Type 0} → (Env → A) → M A
asks f env w = (ok (f env), w)

abbrev pub gets : {A : Type 0} → (World → A) → M A
gets f env w = (ok (f w), w)

abbrev pub tick : World → World
tick w = record w { calls = w.calls + 1 }

-- Sends a message to the outside.
abbrev pub send : Message → World → World
send m w = record w { sent = w.sent ++ m ∷ [] }
