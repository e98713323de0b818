-- ===== src/ApiError/Body.antt =====
-- What a client reads in the body of an error.
use hydra_server.Shared.{String, ◌≡◌, refl, Option, none, some, arith, if◌then◌else◌, ◌==◌, str-eq}
use hydra_server.Json.{
  Json, str, obj, Members, empty, member, lookup, insert, extend, lookup-insert,
}
use hydra_server.ApiError.{ApiError, body, extra_members}

abbrev pub member_of : Json → String → Option Json
member_of (obj m) k = lookup k m
member_of _ k = none

-- The last member of a key wins where an object is folded into another.
abbrev last_of : String → Members → Option Json → Option Json
last_of k empty found = found
last_of k (member j v m) found = last_of k m (if j == k then some v else found)

lookup-extend :
    (k : String) (m into : Members) → lookup k (extend into m) ≡ last_of k m (lookup k into)
unfolding extend lookup
lookup-extend k empty into = refl
lookup-extend k (member j v m) into =
    rw (lookup-extend k m (insert j v into)) (rw (lookup-insert j k v into))

-- The body's `message` is the error's own, whatever the extra fields hold, and every other key
-- reads as the extra fields have it.
pub body_lem :
    (e : ApiError) (k : String)
    → member_of (body e) k
      ≡ (if k == "message" then some (str e.message) else last_of k (extra_members e.extra) none)
unfolding body lookup
body_lem e k =
    let kept = extend empty (extra_members e.extra) in
    rw (lookup-insert "message" k (str e.message) kept) (
      rw (lookup-extend k (extra_members e.extra) empty)
        (ground (arith, str-eq k "message", str-eq "message" k)))
