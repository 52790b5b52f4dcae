-- ===== src/Session/Keys.antt =====
-- The Redis keys of internal/service/auth_service.go.
use Prim.Native.String.{◌++◌, count}
use text.Mathlib.TextLemmas.{append_assoc, append_inj, append_cancel_left}
use clip_sync_admin.Prelude.{ℕ, String, ◌≡◌, ◌≢◌, refl, sym, ◌∙◌, arith, eq_iff}
use clip_sync_admin.Text.{decimal}

unfoldable pub token_key : String → String
token_key jti = "admin:token:" ++ jti

unfoldable pub login_err_key : String → String
login_err_key account = "admin:login_err:" ++ account

unfoldable pub sign_secret_key : ℕ → String
unfolding decimal
sign_secret_key admin_id = "admin:sign_secret:" ++ decimal admin_id

-- Texts that begin with two different texts of one length are different.
pub apart :
    (s₁ s₂ r₁ r₂ t₁ t₂ : String)
    → s₁ ≢ s₂
    → count s₁ ≡ count s₂
    → (s₁ ++ r₁) ++ t₁ ≢ (s₂ ++ r₂) ++ t₂
apart s₁ s₂ r₁ r₂ t₁ t₂ ne same e =
    ne
      (append_inj {s₁ = s₁} {s₂ = s₂} {t₁ = r₁ ++ t₁} {t₂ = r₂ ++ t₂}
        (sym (append_assoc s₁ r₁ t₁) ∙ e ∙ append_assoc s₂ r₂ t₂) same).0

pub token_key-ne-sign_secret_key : (jti : String) (id : ℕ) → token_key jti ≢ sign_secret_key id
unfolding token_key sign_secret_key
token_key-ne-sign_secret_key jti id =
    apart "admin:t" "admin:s" "oken:" "ign_secret:" jti (decimal id)
      (ground (arith, eq_iff "admin:t" "admin:s")) refl

pub token_key-ne-login_err_key : (jti account : String) → token_key jti ≢ login_err_key account
unfolding token_key login_err_key
token_key-ne-login_err_key jti account =
    apart "admin:t" "admin:l" "oken:" "ogin_err:" jti account
      (ground (arith, eq_iff "admin:t" "admin:l")) refl

pub sign_secret_key-ne-login_err_key :
    (id : ℕ) (account : String) → sign_secret_key id ≢ login_err_key account
unfolding sign_secret_key login_err_key
sign_secret_key-ne-login_err_key id account =
    apart "admin:s" "admin:l" "ign_secret:" "ogin_err:" (decimal id) account
      (ground (arith, eq_iff "admin:s" "admin:l")) refl

pub token_key_injective : (i j : String) → token_key i ≡ token_key j → i ≡ j
unfolding token_key
token_key_injective i j e = append_cancel_left "admin:token:" i j e
