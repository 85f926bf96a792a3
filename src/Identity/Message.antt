-- ===== src/Identity/Message.antt =====
-- The canonical payload that is signed fixes every field that it names.
use agy_identity_bridge.Base.{◌≡◌, refl, sym, ap, ◌∙◌, true, List, [], ◌∷◌, all, All}
use agy_identity_bridge.Text.{Text, text, trim_space, split, join}
use agy_identity_bridge.Text.Splitting.{
  IsFree, split-join, is_free, tagged, tagged-injective, tagged-IsFree,
}
use agy_identity_bridge.Identity.{ClientIdentityContext, identity_signature_message}

-- The fields in the order of the payload, trimmed.
abbrev pub signed_fields : ClientIdentityContext → Text → Text → List Text
signed_fields identity method path =
    trim_space identity.principal
    ∷ trim_space identity.timestamp
    ∷ trim_space identity.client_app
    ∷ trim_space identity.client_instance
    ∷ trim_space identity.capability_profile
    ∷ trim_space identity.connector_id
    ∷ trim_space method
    ∷ trim_space path
    ∷ []

abbrev labels : List Text
labels =
    text "principal="
    ∷ text "timestamp="
    ∷ text "client_app="
    ∷ text "client_instance="
    ∷ text "capability_profile="
    ∷ text "connector_id="
    ∷ text "method="
    ∷ text "path="
    ∷ []

labels-is_free : all (is_free 10) labels ≡ true
unfolding text
labels-is_free = refl

message-tagged :
    (a : ClientIdentityContext) (method path : Text)
    → identity_signature_message a method path
      ≡ join (10 ∷ []) (tagged labels (signed_fields a method path))
unfolding identity_signature_message
message-tagged a method path = refl

-- No field holds a line break.
abbrev pub IsOneLine : ClientIdentityContext → Text → Text → Type 0
IsOneLine a method path = All (IsFree 10) (signed_fields a method path)

split-message :
    (a : ClientIdentityContext) (method path : Text)
    → IsOneLine a method path
    → split 10 (identity_signature_message a method path)
      ≡ tagged labels (signed_fields a method path)
split-message a method path h =
    let free = tagged-IsFree 10 labels (signed_fields a method path) labels-is_free h in
    ap (split 10) (message-tagged a method path) ∙ split-join 10 _ _ free.0 free.1

-- Two requests whose fields hold no line break have the same payload only if all eight fields
-- agree.
pub identity_signature_message-injective :
    (a b : ClientIdentityContext) (method path method' path' : Text)
    → IsOneLine a method path
    → IsOneLine b method' path'
    → identity_signature_message a method path ≡ identity_signature_message b method' path'
    → signed_fields a method path ≡ signed_fields b method' path'
identity_signature_message-injective a b method path method' path' h k e =
    tagged-injective labels _ _ refl refl
      (sym (split-message a method path h) ∙ ap (split 10) e ∙ split-message b method' path' k)
