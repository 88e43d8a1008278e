-- ===== src/Vision.antt =====
-- backend/vision_grant.py: `RemoteVisionGrant`, the consent of one request to send one image. The
-- canonical form of a UUID is a parameter.
pub mod Consent
mod Tests
use amit_ai.Common.{
  ltb, leb, ◌==◌, if◌then◌else◌, ==_iff, Bool-cases, Option-cases, is_some, is_nil, length, take,
  drop, any, keep, find, count, All, length-append, length-keep-le, count-append, All-append,
  All-weaken, ℕ, zero, suc, ◌+◌, ◌-◌, ◌*◌, ◌≤◌, ◌<◌, min, String, ◌≡◌, refl, sym, ap, ◌∙◌, fun_ext,
  ◌≢◌, ◌↔◌, ◌⊎◌, inl, inr, Bool, true, false, not, ◌&&◌, ◌||◌, Option, none, some, List, [], ◌∷◌,
  ◌++◌, map, reverse, append-nil, append_assoc, reverse-append, reverse-reverse, arith, ℕ_discrete,
  str_eq, str_eq_iff,
}
use amit_ai.Common.Texts.{
  Text, codes, is_space, eqb, starts_with, lstrip, rstrip, strip, is_empty, eqb→eq, eqb_refl, split,
  join, contains, is_member,
}

-- `RemoteVisionGrant`: `cancelled` is none without a cancel event, and both events by whether they
-- are set
pub record Grant : Type 0 where
  pub asset_id : Text
  pub explicit_consent : Bool
  pub purpose : Text
  pub cancelled : Option Bool
  pub revoked : Bool

abbrev pub is_set : Option Bool → Bool
is_set none = false
is_set (some b) = b

-- `asset_id is not None and asset_id != self.asset_id`
abbrev pub is_another : Option Text → Text → Bool
is_another none id = false
is_another (some asset) id = not (eqb asset id)

-- `require`: whether it returns, where it raises a PermissionError otherwise
unfoldable pub require : Grant → Option Text → Bool
require g asset = not (
    not g.explicit_consent
    || not (eqb g.purpose (codes "vision"))
    || g.revoked
    || is_set g.cancelled
    || is_another asset g.asset_id)

-- `require_remote_vision_grant`
unfoldable pub require_remote_vision_grant : Option Grant → Option Text → Bool
unfolding require
require_remote_vision_grant none asset = false
require_remote_vision_grant (some g) asset = require g asset

-- `__post_init__`, where `canonical` is `str(UUID(text))`, or none where it raises
unfoldable pub is_granted : (Text → Option Text) → Grant → Bool
unfolding require
is_granted canonical g = elim (canonical g.asset_id) [
  | none ↦ false
  | some id ↦ eqb id g.asset_id && require g (some g.asset_id)
]

-- what happens to a grant: it is revoked, or its request is cancelled
pub data Happens : Type 0 where
  revoke cancel : Happens

abbrev set : Option Bool → Option Bool
set none = none
set (some _) = some true

unfoldable pub after : List Happens → Grant → Grant
after [] g = g
after (revoke ∷ events) g = after events (record g { revoked = true })
after (cancel ∷ events) g = after events (record g { cancelled = set g.cancelled })
