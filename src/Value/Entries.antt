-- ===== src/Value/Entries.antt =====
-- Laws of `put` and `get` on a map with texts as keys.
use agy_identity_bridge.Base.{
  ◌≡◌, refl, sym, ap, ◌∙◌, inl, inr, true, false, none, some, List, [], ◌∷◌, Bool-cases,
}
use agy_identity_bridge.Text.{Text, ◌==◌}
use agy_identity_bridge.Text.Equality.{==_iff, ==_refl}
use agy_identity_bridge.Value.{put, get}

module _ {ℓ} {A : Type ℓ} (key : Text) where
  pub get-here :
      (k : Text) (v : A) (m : List (Text × A)) → (k == key) ≡ true → get key ((k, v) ∷ m) ≡ some v
  unfolding get
  get-here k v m h = rw h refl

  pub get-there :
      (k : Text) (v : A) (m : List (Text × A))
      → (k == key) ≡ false
      → get key ((k, v) ∷ m) ≡ get key m
  unfolding get
  get-there k v m h = rw h refl

  pub get-put : (value : A) (m : List (Text × A)) → get key (put key value m) ≡ some value
  unfolding put
  get-put value [] = get-here key value [] (==_refl key)
  get-put value ((k, v) ∷ m) = elim (Bool-cases (k == key)) [
    | inl h ↦ rw h (get-here k value m h)
    | inr h ↦ rw h (get-there k v (put key value m) h ∙ get-put value m)
  ]

  pub get-put_other :
      (other : Text) (value : A) (m : List (Text × A))
      → (other == key) ≡ false
      → get key (put other value m) ≡ get key m
  unfolding put
  get-put_other other value [] h = get-there other value [] h
  get-put_other other value ((k, v) ∷ m) h = elim (Bool-cases (k == other)) [
    | inl same ↦
        let k-other : (k == key) ≡ false = ap (λ l. l == key) ((==_iff k other).0 same) ∙ h in
        rw same (get-there k value m k-other ∙ sym (get-there k v m k-other))
    | inr other_key ↦ rw other_key (elim (Bool-cases (k == key)) [
      | inl here ↦ get-here k v _ here ∙ sym (get-here k v m here)
      | inr there ↦
          get-there k v _ there ∙ get-put_other other value m h ∙ sym (get-there k v m there)
    ])
  ]

pub get-nil {ℓ} : {A : Type ℓ} (key : Text) → get {A = A} key [] ≡ none
unfolding get
get-nil key = refl
