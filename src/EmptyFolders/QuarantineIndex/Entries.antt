-- ===== src/EmptyFolders/QuarantineIndex/Entries.antt =====
-- The entries of a quarantine index by their identifiers
-- (immich_doctor/storage/empty_folders/quarantine_manager.py).
use immich_doctor.Base.{
  ◌≡◌, eq_iff, sym, arith, String, Bool, true, false, inl, inr, List, [], ◌∷◌, All, All-In, In-All,
  Bool-cases, ◌==◌, string_eq,
}
use mathlib.Core.Path.{subst}
use immich_doctor.EmptyFolders.Items.{EmptyDirQuarantineItem}
use immich_doctor.EmptyFolders.QuarantineIndex.{
  item_first, insert_item, sort_items, put_item, put_items, is_active,
}

abbrev pub Item : Type 0
Item = EmptyDirQuarantineItem

abbrev pub same_id : String → Item → Bool
same_id id i = i.quarantine_item_id == id

-- An entry of the identifier is not active.
abbrev pub IsSettled : String → Item → Type 0
IsSettled id i = (i.quarantine_item_id == id) ≡ true → is_active i ≡ false

-- No two entries have the same identifier.
abbrev pub Unique : List Item → Type 0
Unique [] = Unit
Unique (i ∷ l) = All (λ j. same_id i.quarantine_item_id j ≡ false) l × Unique l

module _ (P : Item → Type 0) where
  pub put_item-All : (i : Item) (l : List Item) → P i → All P l → All P (put_item i l)
  put_item-All i [] p h = (p, tt)
  put_item-All i (j ∷ l) p h = elim (Bool-cases (same_id i.quarantine_item_id j)) [
    | inl e ↦ rw e (p, h.1)
    | inr e ↦ rw e (h.0, put_item-All i l p h.1)
  ]

  pub insert_item-All : (i : Item) (l : List Item) → P i → All P l → All P (insert_item i l)
  insert_item-All i [] p h = (p, tt)
  insert_item-All i (j ∷ l) p h = elim (Bool-cases (item_first i j)) [
    | inl e ↦ rw e (p, h)
    | inr e ↦ rw e (h.0, insert_item-All i l p h.1)
  ]

  pub sort_items-All : (l : List Item) → All P l → All P (sort_items l)
  sort_items-All [] h = tt
  sort_items-All (i ∷ l) h = insert_item-All i (sort_items l) h.0 (sort_items-All l h.1)

pub same_sym : (a b : String) → (a == b) ≡ false → (b == a) ≡ false
same_sym a b e = elim (Bool-cases (b == a)) [
  | inl t ↦ let f = (eq_iff a b).1 (sym ((eq_iff b a).0 t)) in absurd (ground arith)
  | inr f ↦ f
]

-- Of two identifiers that are the same, none differs from a third that the other is.
pub same_trans : (a b c : String) → (a == b) ≡ true → (c == a) ≡ false → (c == b) ≡ false
same_trans a b c e f = subst (λ x. (c == x) ≡ false) ((eq_iff a b).0 e) f

module _ (i : Item) (inactive : is_active i ≡ false) where
  pub put_item-settles :
      (l : List Item) → Unique l → All (IsSettled i.quarantine_item_id) (put_item i l)
  put_item-settles [] u = (λ _. inactive, tt)
  put_item-settles (j ∷ l) u = elim (Bool-cases (same_id i.quarantine_item_id j)) [
    | inl e ↦ rw e (
      λ _. inactive,
      All-In (IsSettled i.quarantine_item_id) l λ k at t.
          let f =
            same_trans j.quarantine_item_id i.quarantine_item_id k.quarantine_item_id e
              (In-All _ u.0 at) in
          absurd (ground arith),
    )
    | inr e ↦ rw e (λ t. absurd (ground arith), put_item-settles l u.1)
  ]

pub put_item-Unique : (i : Item) (l : List Item) → Unique l → Unique (put_item i l)
put_item-Unique i [] u = (tt, tt)
put_item-Unique i (j ∷ l) u = elim (Bool-cases (same_id i.quarantine_item_id j)) [
  | inl e ↦ rw e (
    subst (λ id. All (λ k. same_id id k ≡ false) l)
        ((eq_iff j.quarantine_item_id i.quarantine_item_id).0 e) u.0,
    u.1,
  )
  | inr e ↦ rw e (
    put_item-All (λ k. same_id j.quarantine_item_id k ≡ false) i l
        (same_sym j.quarantine_item_id i.quarantine_item_id e) u.0,
    put_item-Unique i l u.1,
  )
]

pub put_items-Unique : (l d : List Item) → Unique d → Unique (put_items l d)
put_items-Unique [] d u = u
put_items-Unique (i ∷ l) d u = put_items-Unique l (put_item i d) (put_item-Unique i d u)
