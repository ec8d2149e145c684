-- ===== src/Base/Filter.antt =====
-- Occurrences in filtered and mapped lists.
use mathlib.Core.Path.{◌≡◌, refl, ap, ◌∙◌, subst}
use mathlib.Core.Logic.{◌↔◌, ◌⊎◌, inl, inr}
use mathlib.Core.Bool.{Bool, true, false}
use mathlib.Core.List.{List, [], ◌∷◌, ◌++◌}
use native.Mathlib.Omega.{arith}
use immich_doctor.Base.Tests.{Bool-cases, if◌then◌else◌}
use immich_doctor.Base.Lists.{All, In, filter_by, is_empty}

pub In-cases {ℓ} : {A : Type ℓ} {x y : A} {ys : List A} → In x (y ∷ ys) → (x ≡ y) ⊎ In x ys
In-cases In.here = inl refl
In-cases (In.there at) = inr at

module _ {ℓ} {A : Type ℓ} (p : A → Bool) where
  filter_by-at :
      (y : A) (ys : List A) (b : Bool)
      → p y ≡ b
      → filter_by p (y ∷ ys) ≡ (if b then y ∷ filter_by p ys else filter_by p ys)
  filter_by-at y ys b e = ap (λ b. if b then y ∷ filter_by p ys else filter_by p ys) e

  pub In-filter_by : {x : A} (xs : List A) → In x (filter_by p xs) → In x xs × (p x ≡ true)
  In-filter_by [] at = elim at [ ]
  In-filter_by {x} (y ∷ ys) at = elim (Bool-cases (p y)) [
    | inl e ↦ elim (In-cases (subst (In x) (filter_by-at y ys true e) at)) [
      | inl same ↦ (subst (λ z. In x (z ∷ ys)) same In.here, ap p same ∙ e)
      | inr at ↦ let (h, t) = In-filter_by ys at in (In.there h, t)
    ]
    | inr e ↦
        let (h, t) = In-filter_by ys (subst (In x) (filter_by-at y ys false e) at) in
        (In.there h, t)
  ]

  pub filter_by-In : {x : A} {xs : List A} → In x xs → p x ≡ true → In x (filter_by p xs)
  filter_by-In (In.here {xs = xs}) e = rw e In.here
  filter_by-In (In.there {y = y} at) e = elim (Bool-cases (p y)) [
    | inl f ↦ rw f (In.there (filter_by-In at e))
    | inr f ↦ rw f (filter_by-In at e)
  ]

  pub filter_by-empty :
      (xs : List A) → (is_empty (filter_by p xs) ≡ true) ↔ All (λ x. p x ≡ false) xs
  filter_by-empty [] = (λ _. tt, λ _. refl)
  filter_by-empty (x ∷ xs) = elim (Bool-cases (p x)) [
    | inl e ↦ (λ h. absurd (ground arith), λ h. absurd (ground arith))
    | inr e ↦ rw e (λ h. (refl, (filter_by-empty xs).0 h), λ h. (filter_by-empty xs).1 h.1)
  ]

pub All-In {ℓ κ} :
    {A : Type ℓ} (P : A → Type κ) (xs : List A) → ((x : A) → In x xs → P x) → All P xs
All-In P [] h = tt
All-In P (x ∷ xs) h = (h x In.here, All-In P xs (λ y at. h y (In.there at)))

pub All-snoc {ℓ κ} :
    {A : Type ℓ} (P : A → Type κ) (l : List A) (x : A) → All P l → P x → All P (l ++ (x ∷ []))
All-snoc P [] x h p = (p, tt)
All-snoc P (y ∷ l) x h p = (h.0, All-snoc P l x h.1 p)
