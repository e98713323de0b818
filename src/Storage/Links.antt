-- ===== src/Storage/Links.antt =====
-- storage.rs: the quota check of a presign, the links of a key given as text, and what a link's
-- token has to be before its key is used. `jsonwebtoken::decode` is a parameter.
use hydra_server.Shared.{
  ℕ, String, ◌+◌, ◌*◌, ◌/◌, ◌^◌, ◌-◌, Bool, not, ◌&&◌, ◌||◌, Option, none, some, List,
  if◌then◌else◌, ltb, leb, nat_eq, ◌==◌,
}
use hydra_server.Shared.Int.{ℤ, pos}
use hydra_server.Shared.Texts.{is_empty, contains, starts_with, all_chars}
use hydra_server.ApiError.{ApiError, Result, ok, err, unauthorized, forbidden, bad_request}
use hydra_server.Limits.{UserRow, RuntimeSettings, for_user}
use hydra_server.Storage.{
  exceeds_quota, quota_error, upload_token_ttl, download_token_ttl, nanos_per_second,
}

-- `check_quota`, where the account's `used_bytes` are `used`: the refusal, if there is one.
unfoldable pub check_quota : List UserRow → RuntimeSettings → String → ℤ → ℤ → Option ApiError
unfolding for_user exceeds_quota
check_quota users settings user used incoming =
    let quota = (for_user users settings user).max_bytes_per_user in
    if nat_eq quota 0
    then none
    else if exceeds_quota quota used incoming
    then some quota_error
    else none

-- `upload_limit`
abbrev pub upload_limit : ℤ → Option ℕ
upload_limit (pos n) = if nat_eq n 0 then none else some n
upload_limit _ = none

-- What the token of a link to `key` carries.
pub record Claims : Type 0 where
  pub op : String
  pub key : String
  pub max : ℕ
  pub exp : ℕ
  pub sha256 : Option String

unfoldable pub sign_url : ℕ → String → String → ℕ → ℕ → Claims
sign_url now op key max ttl = record {
  op = op;
  key = key;
  max = max;
  exp = now / nanos_per_second + ttl;
  sha256 = none;
}

unfoldable pub sign_upload_url : ℕ → String → ℕ → Claims
unfolding sign_url
sign_upload_url now key max = sign_url now "put" key max upload_token_ttl

unfoldable pub sign_download_url : ℕ → String → Claims
unfolding sign_url
sign_download_url now key = sign_url now "get" key 0 download_token_ttl

abbrev pub u64_max : ℕ
u64_max = 2 ^ 64 - 1

-- `u64::saturating_add`
abbrev pub add_u64 : ℕ → ℕ → ℕ
add_u64 a b = if ltb u64_max (a + b) then u64_max else a + b

unfoldable pub size_limit : ℕ → ℕ
size_limit declared = add_u64 (add_u64 declared (declared / 10)) (1024 * 1024)

-- `c.is_ascii_alphanumeric() || matches!(c, '/' | '-' | '_' | '.')`
abbrev pub is_key_char : ℕ → Bool
is_key_char c =
    (leb b'0' c && leb c b'9')
    || ((leb b'A' c && leb c b'Z')
        || ((leb b'a' c && leb c b'z')
            || (nat_eq c b'/' || (nat_eq c b'-' || (nat_eq c b'_' || nat_eq c b'.')))))

unfoldable pub is_safe_key : String → Bool
is_safe_key key =
    not (is_empty key)
    && (not (contains ".." key) && (not (starts_with "/" key) && all_chars is_key_char key))

unfoldable pub decode_token : (String → Option Claims) → String → String → Result Claims
unfolding is_safe_key
decode_token decode token expected_op = elim (decode token) [
  | none ↦ err (unauthorized "invalid or expired storage token")
  | some claims ↦
      if not (claims.op == expected_op)
      then err (forbidden "wrong storage operation")
      else if not (is_safe_key claims.key)
      then err (bad_request "invalid storage key")
      else ok claims
]
