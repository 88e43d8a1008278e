-- ===== src/Vision/Tests.antt =====
-- The theorems on a grant.
use amit_ai.Common.{not, ◌&&◌, ◌≡◌, refl, true, false, some, [], ◌∷◌}
use amit_ai.Common.Texts.{Text, codes, eqb}
use amit_ai.Vision.{is_granted, require, Grant, require_remote_vision_grant, revoke, cancel, after}
use amit_ai.Vision.Consent.{is_over, granted-require, revoke-refuses}

abbrev image : Text
image = codes "a1"

abbrev consent : Grant
consent = record {
  asset_id = image;
  explicit_consent = true;
  purpose = codes "vision";
  cancelled = some false;
  revoked = false;
}

consent-granted : is_granted some consent ≡ true
unfolding is_granted require
consent-granted = refl

granted-require_example :
    require_remote_vision_grant (some (after (cancel ∷ []) consent)) (some image)
    ≡ (eqb image image && not (is_over (some false) (cancel ∷ [])))
granted-require_example = granted-require some consent (cancel ∷ []) image consent-granted

revoke-refuses_example :
    require_remote_vision_grant
      (some (after (cancel ∷ []) (after (revoke ∷ []) (after [] consent))))
      (some image)
    ≡ false
revoke-refuses_example = revoke-refuses consent [] (cancel ∷ []) (some image)
