-- ===== src/Effects/World.antt =====
-- The state outside the process: the files of the library, and the manifest files of the repair
-- store. A method is a function from this state that returns or raises, and what was written
-- before an exception stays written.
use immich_doctor.Base.{ℕ, ◌+◌, String, Bool, Option, List, [], ◌∷◌, Dict}
use immich_doctor.Core.Value.{Value, Fields}
use immich_doctor.Effects.Result.{PyError, Result, ok, raised}

-- What the standard library and the platform supply. `now k` and `uuid4_hex k` are the answers to
-- the k-th question; `sort_items` is `sorted(d.items(), key=str)`.
pub record Platform : Type 0 where
  pub now : ℕ → ℕ
  pub uuid4_hex : ℕ → String
  pub isoformat : ℕ → String
  pub fromisoformat : String → Option ℕ
  pub sort_items : Fields → Fields
  pub dumps : Value → String
  pub sha256_hex : String → String
  pub int_of_text : String → Option ℕ
  pub str_of : Value → String
  pub str_of_path : String → String

-- A path as `stat` and `chmod` find it: `present mode chmod_allowed`.
pub data Node : Type 0 where
  absent inaccessible : Node
  faulty : ℕ → Node
  present : ℕ → Bool → Node

pub record World : Type 0 where
  pub files : String → Node
  pub runs : Dict Fields
  pub plan_tokens : Dict Fields
  pub journals : Dict (List Fields)
  pub quarantine_items : Dict (List Fields)
  pub quarantine_index : List Fields
  pub questions : ℕ

abbrev pub M {ℓ} : Type ℓ → Type ℓ
M A = World → Result A × World

module _ {ℓ} {A : Type ℓ} where
  unfoldable pub pure : A → M A
  pure a w = (ok a, w)

  unfoldable pub raise : PyError → M A
  raise e w = (raised e, w)

  unfoldable pub lift : Result A → M A
  lift r w = (r, w)

  unfoldable pub gets : (World → A) → M A
  gets f w = (ok (f w), w)

-- The body of a `try`: what it raised is a value for the handlers.
unfoldable pub attempt {ℓ} : {A : Type ℓ} → M A → M (Result A)
attempt m w = let (r, w') = m w in (ok r, w')

module _ {ℓ κ} {A : Type ℓ} {B : Type κ} where
  abbrev pub continue : Result A → (A → M B) → M B
  continue (ok a) f w = f a w
  continue (raised e) f w = (raised e, w)

  infixl 5 ◌>>=◌ ◌>>◌
  abbrev pub ◌>>=◌ : M A → (A → M B) → M B
  ◌>>=◌ m f w = let (r, w') = m w in continue r f w'

  abbrev pub ◌>>◌ : M A → M B → M B
  m >> k = m >>= λ _. k

-- `[f(x) for x in xs]`, where `f` has effects: an exception ends the loop.
unfoldable pub for_each {ℓ κ} : {A : Type ℓ} {B : Type κ} → (A → M B) → List A → M (List B)
unfolding pure
for_each f [] = pure []
for_each f (x ∷ xs) = do y ← f x; ys ← for_each f xs; pure (y ∷ ys)

module _ (platform : Platform) where
  -- `datetime.now(UTC).isoformat()`
  unfoldable pub current_instant : M ℕ
  current_instant w = (ok (platform.now w.questions), record w { questions = w.questions + 1 })

  -- `uuid4().hex`
  unfoldable pub fresh_id : M String
  fresh_id w = (ok (platform.uuid4_hex w.questions), record w { questions = w.questions + 1 })
