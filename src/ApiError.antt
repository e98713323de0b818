-- ===== src/ApiError.antt =====
-- error.rs: the error every handler answers with, and the body it is sent as.
pub mod Body
use hydra_server.Shared.{ℕ, String, ◌≡◌, refl, ap, ◌⊎◌, inl, inr, Option, none, some}
use hydra_server.Json.{Json, str, obj, Members, empty, insert, extend}

pub record ApiError : Type 0 where
  pub status : ℕ
  pub message : String
  pub extra : Option Json

pub data Result {ℓ} (A : Type ℓ) : Type ℓ where
  ok : A → Result A
  err : ApiError → Result A

-- The answer of a request that succeeded, or `d`.
abbrev ok_or {ℓ} : {A : Type ℓ} → A → Result A → A
ok_or d (ok a) = a
ok_or d (err e) = d

pub ok-injective {ℓ} : {A : Type ℓ} {a b : A} → Path (Result A) (ok a) (ok b) → a ≡ b
ok-injective {a = a} p = ap (ok_or a) p

abbrev error_or {ℓ} : {A : Type ℓ} → ApiError → Result A → ApiError
error_or d (ok a) = d
error_or d (err e) = e

pub err-injective {ℓ} : {A : Type ℓ} {a b : ApiError} → Path (Result A) (err a) (err b) → a ≡ b
err-injective {a = a} p = ap (error_or a) p

pub Result-cases {ℓ} :
    {A : Type ℓ} (r : Result A)
    → ((e : ApiError) × Path (Result A) r (err e)) ⊎ ((a : A) × Path (Result A) r (ok a))
Result-cases (ok a) = inr (a, refl)
Result-cases (err e) = inl (e, refl)

abbrev pub new : ℕ → String → ApiError
new status message = record { status = status; message = message; extra = none }

abbrev pub with_extra : ApiError → Json → ApiError
with_extra e extra = record e { extra = some extra }

abbrev pub not_found : String → ApiError
not_found message = new 404 message

abbrev pub bad_request : String → ApiError
bad_request message = new 400 message

abbrev pub unauthorized : String → ApiError
unauthorized message = new 401 message

abbrev pub forbidden : String → ApiError
forbidden message = new 403 message

abbrev pub internal : String → ApiError
internal message = new 500 message

-- `From<sqlx::Error>` and `From<std::io::Error>`
abbrev pub database_error : ApiError
database_error = internal "database error"

abbrev pub storage_error : ApiError
storage_error = internal "storage error"

-- `Value::as_object` of the extra fields
abbrev pub extra_members : Option Json → Members
extra_members (some (obj m)) = m
extra_members _ = empty

unfoldable pub body : ApiError → Json
unfolding insert extend
body e = obj (insert "message" (str e.message) (extend empty (extra_members e.extra)))
