-- ===== src/Vision/Consent.antt =====
-- When a grant lets an image be sent.
use amit_ai.Common.{
  any, is_some, ap, ◌∙◌, not, ◌&&◌, ◌||◌, Bool, Option-cases, inl, inr, ◌≡◌, refl, true, false,
  Option, none, some, List, [], ◌∷◌, arith,
}
use amit_ai.Common.Texts.{Text, codes, eqb}
use amit_ai.Vision.{
  is_another, is_granted, Grant, is_set, require, require_remote_vision_grant, Happens, revoke,
  cancel, after, set,
}

abbrev pub is_revoke : Happens → Bool
is_revoke revoke = true
is_revoke cancel = false

abbrev pub is_cancel : Happens → Bool
is_cancel revoke = false
is_cancel cancel = true

-- Revocation, and a cancellation where there is a cancel event, are final.
abbrev pub is_over : Option Bool → List Happens → Bool
is_over cancelled events = any is_revoke events || is_some cancelled && any is_cancel events

cancel-is_over :
    (cancelled : Option Bool) (events : List Happens)
    → (is_set (set cancelled) || is_over (set cancelled) events)
      ≡ (is_set cancelled || is_over cancelled (cancel ∷ events))
cancel-is_over none events = refl
cancel-is_over (some true) events = refl
cancel-is_over (some false) events = ground arith

require-after :
    (events : List Happens) (g : Grant) (asset : Option Text)
    → require (after events g) asset
      ≡ not (
          not g.explicit_consent
          || not (eqb g.purpose (codes "vision"))
          || g.revoked
          || (is_set g.cancelled || is_over g.cancelled events)
          || is_another asset g.asset_id)
unfolding require after
require-after [] g asset = elim (Option-cases g.cancelled) [
  | inl e ↦ rw e refl
  | inr (b, e) ↦ rw e (ground arith)
]
require-after (revoke ∷ events) g asset =
    require-after events (record g { revoked = true }) asset ∙ ground arith
require-after (cancel ∷ events) g asset =
    require-after events (record g { cancelled = set g.cancelled }) asset
    ∙ ap
        (λ over. not (
          not g.explicit_consent
          || not (eqb g.purpose (codes "vision"))
          || g.revoked
          || over
          || is_another asset g.asset_id))
        (cancel-is_over g.cancelled events)

granted-passes :
    (canonical : Text → Option Text) (g : Grant)
    → is_granted canonical g ≡ true
    → (g.explicit_consent ≡ true)
      × (eqb g.purpose (codes "vision") ≡ true)
      × (g.revoked ≡ false)
      × (is_set g.cancelled ≡ false)
unfolding is_granted require
granted-passes canonical g h = elim (Option-cases (canonical g.asset_id)) [
  | inl e ↦ ground (arith, e, h)
  | inr (id, e) ↦
      (ground (arith, e, h), ground (arith, e, h), ground (arith, e, h), ground (arith, e, h))
]

-- A grant that was constructed lets its own asset through and no other, until the first revocation,
-- or the first cancellation where it has a cancel event, and nothing from then on.
pub granted-require :
    (canonical : Text → Option Text) (g : Grant) (events : List Happens) (asset : Text)
    → is_granted canonical g ≡ true
    → require_remote_vision_grant (some (after events g)) (some asset)
      ≡ (eqb asset g.asset_id && not (is_over g.cancelled events))
unfolding require_remote_vision_grant
granted-require canonical g events asset h =
    let passes = granted-passes canonical g h in
    require-after events g (some asset) ∙ ground (arith, passes)

revoked-after :
    (events : List Happens) (g : Grant) → g.revoked ≡ true → (after events g).revoked ≡ true
unfolding after
revoked-after [] g e = e
revoked-after (revoke ∷ events) g e = revoked-after events (record g { revoked = true }) refl
revoked-after (cancel ∷ events) g e =
    revoked-after events (record g { cancelled = set g.cancelled }) e

revoked-refuses : (g : Grant) (asset : Option Text) → g.revoked ≡ true → require g asset ≡ false
unfolding require
revoked-refuses g asset e = ground arith

-- A grant that was revoked refuses every asset, whatever happened before and happens after.
pub revoke-refuses :
    (g : Grant) (before later : List Happens) (asset : Option Text)
    → require_remote_vision_grant (some (after later (after (revoke ∷ []) (after before g)))) asset
      ≡ false
unfolding require_remote_vision_grant after
revoke-refuses g before later asset =
    revoked-refuses (after later (after (revoke ∷ []) (after before g))) asset
      (revoked-after later (record (after before g) { revoked = true }) refl)
