-- ===== src/Effects/Within.antt =====
-- What a method may change: a relation between the world before and after, one rule for each way to
-- build a method.
use mathlib.Core.Path.{subst}
use immich_doctor.Base.{
  ◌≡◌, refl, ap, arith, all, All, ◌∙◌, Bool, true, false, List, [], ◌∷◌, if◌then◌else◌,
}
use immich_doctor.Effects.Result.{PyError, Result, ok, raised}
use immich_doctor.Effects.World.{World, M, pure, raise, lift, attempt, for_each, ◌>>=◌, continue}

pub record IsPreorder (R : World → World → Type 0) : Type 0 where
  pub stay : (w : World) → R w w
  pub chain : (u v w : World) → R u v → R v w → R u w

pub record Within {A : Type 0} (R : World → World → Type 0) (m : M A) : Type 0 where
  pub at : (w : World) → R w (m w).1

abbrev pub Unchanged : World → World → Type 0
Unchanged w w' = w' ≡ w

pub Unchanged-IsPreorder : IsPreorder Unchanged
Unchanged-IsPreorder = record { stay = λ w. refl; chain = λ u v w p q. q ∙ p }

module _ {R : World → World → Type 0} (pre : IsPreorder R) {A : Type 0} where
  pub Within-pure : (a : A) → Within R (pure a)
  unfolding pure
  Within-pure a = record { at = pre.stay }

  pub Within-raise : (e : PyError) → Within R (raise {A = A} e)
  unfolding raise
  Within-raise e = record { at = pre.stay }

  pub Within-lift : (r : Result A) → Within R (lift r)
  unfolding lift
  Within-lift r = record { at = pre.stay }

  pub Within-attempt : (m : M A) → Within R m → Within R (attempt m)
  unfolding attempt
  Within-attempt m h = record { at = h.at }

  pub Within-if : (b : Bool) (m n : M A) → Within R m → Within R n → Within R (if b then m else n)
  Within-if true m n h k = h
  Within-if false m n h k = k

module _ {R : World → World → Type 0} (pre : IsPreorder R) {A B : Type 0} where
  Within-continue :
      (r : Result A) (f : A → M B) → ((a : A) → Within R (f a)) → Within R (continue r f)
  Within-continue (ok a) f h = h a
  Within-continue (raised e) f h = record { at = pre.stay }

  pub Within-bind :
      (m : M A) (f : A → M B) → Within R m → ((a : A) → Within R (f a)) → Within R (m >>= f)
  Within-bind m f h k = record {
    at = λ w. pre.chain w (m w).1 _ (h.at w) ((Within-continue (m w).0 f k).at (m w).1);
  }

module _ {R : World → World → Type 0} (pre : IsPreorder R) {A B : Type 0} where
  pub Within-for_each :
      (f : A → M B) (l : List A) → ((x : A) → Within R (f x)) → Within R (for_each f l)
  unfolding for_each
  Within-for_each f [] h = Within-pure pre []
  Within-for_each f (x ∷ l) h =
      Within-bind pre (f x) _ (h x)
        λ y. Within-bind pre (for_each f l) _ (Within-for_each f l h) λ ys. Within-pure pre (y ∷ ys)

-- The same, where the bound holds for the items of the list only.
module _ {R : World → World → Type 0} (pre : IsPreorder R) {A B : Type 0} where
  pub Within-for_each-All :
      (f : A → M B) (l : List A) → All (λ x. Within R (f x)) l → Within R (for_each f l)
  unfolding for_each
  Within-for_each-All f [] h = Within-pure pre []
  Within-for_each-All f (x ∷ l) (h, hs) = Within-bind pre (f x) _ h λ y.
      Within-bind pre (for_each f l) _ (Within-for_each-All f l hs) λ ys. Within-pure pre (y ∷ ys)

pub attempt-ends :
    {A : Type 0} (m : M A) (w : World) {v : World} {r : Result A}
    → m w ≡ (r, v)
    → attempt m w ≡ (ok r, v)
unfolding attempt
attempt-ends m w h = ap (λ x. (ok x.0, x.1)) h

module _ {A B : Type 0} where
  continue-ok :
      (r : Result A) (f : A → M B) (w : World) {b : B}
      → (continue r f w).0 ≡ ok b
      → (a : A) × (r ≡ ok a) × ((f a w).0 ≡ ok b)
  continue-ok (ok a) f w h = (a, refl, h)
  continue-ok (raised e) f w h = cc

  pub bind-returns :
      (m : M A) (f : A → M B) (w : World) {v : World} {a : A}
      → m w ≡ (ok a, v)
      → (m >>= f) w ≡ f a v
  bind-returns m f w h = ap (λ (x : Result A × World). continue x.0 f x.1) h

  -- What returned did not raise on the way.
  pub bind-ok :
      (m : M A) (f : A → M B) (w : World) {b : B}
      → ((m >>= f) w).0 ≡ ok b
      → (a : A) × ((m w).0 ≡ ok a) × ((f a (m w).1).0 ≡ ok b)
  bind-ok m f w h = continue-ok (m w).0 f (m w).1 h

  -- The same, where the first part only reads.
  pub bind-ok_reads :
      (m : M A) (f : A → M B) (w : World) {b : B}
      → Within Unchanged m
      → ((m >>= f) w).0 ≡ ok b
      → (a : A) × ((m w).0 ≡ ok a) × ((f a w).0 ≡ ok b)
  bind-ok_reads m f w {b} reads h =
      let (a, p, q) = bind-ok m f w {b = b} h in
      (a, p, subst (λ v. (f a v).0 ≡ ok b) (reads.at w) q)

module _ {A B : Type 0} where
  -- A loop of readers that returned: what each result shows of its item holds of all items.
  pub for_each-All :
      (f : A → M B) (good : B → Bool) (P : A → Type 0) (w : World)
      → ((x : A) → Within Unchanged (f x))
      → ((x : A) (b : B) → (f x w).0 ≡ ok b → good b ≡ true → P x)
      → (l : List A) (bs : List B) → (for_each f l w).0 ≡ ok bs
      → all good bs ≡ true
      → All P l
  unfolding for_each pure
  for_each-All f good P w reads shows [] bs h g = tt
  for_each-All f good P w reads shows (x ∷ l) bs h g =
      let (b, p, q) = bind-ok_reads (f x) _ w {b = bs} (reads x) h in
      let (cs, r, s) =
        bind-ok_reads (for_each f l) (λ ys. pure (b ∷ ys)) w {b = bs}
          (Within-for_each Unchanged-IsPreorder f l reads) q in
      (shows x b p (ground arith), for_each-All f good P w reads shows l cs r (ground arith))
