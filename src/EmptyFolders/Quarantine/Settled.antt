-- ===== src/EmptyFolders/Quarantine/Settled.antt =====
-- What is restored or deleted is not offered again
-- (immich_doctor/storage/empty_folders/quarantine_manager.py).
use immich_doctor.Base.{
  ◌≡◌, refl, sym, arith, String, Bool, true, false, inl, inr, none, some, List, [], ◌∷◌, All,
  All-snoc, All-In, In-All, In-filter_by, Bool-cases, filter_by, is_empty, string_eq,
}
use mathlib.Core.Path.{subst}
use immich_doctor.Effects.Result.{Result, ok, raised}
use immich_doctor.EmptyFolders.QuarantineIndex.{
  sort_items, put_item, by_id, is_active, list_quarantined, select_quarantine_items,
}
use immich_doctor.EmptyFolders.Moves.{
  Calls, ItemOutcome, settled, refused, interrupted, is_os_error, settled_unless, restore_to,
  restore_item, delete_item, Progress, advance, round, rounds, begun,
}
use immich_doctor.EmptyFolders.Quarantine.{
  QuarantineState, restored_report, deleted_report, written, restore, finalize_delete,
}
use immich_doctor.EmptyFolders.QuarantineIndex.Entries.{
  Item, same_id, IsSettled, Unique, put_item-All, sort_items-All, put_item-settles, put_item-Unique,
  put_items-Unique,
}

-- The entries are those of a dictionary, and what is settled is not active in it.
abbrev IsGood : Progress → Type 0
IsGood p =
    Unique p.updated × All (λ i. All (IsSettled i.quarantine_item_id) p.updated) p.settled_items

abbrev IsGoodResult : {D : Type 0} → Result Progress × D → Type 0
IsGoodResult (ok p, d) = IsGood p
IsGoodResult (raised e, d) = Unit

abbrev IsInactive : {D : Type 0} → ItemOutcome × D → Type 0
IsInactive (settled i, d) = is_active i ≡ false
IsInactive (refused f, d) = Unit
IsInactive (interrupted e, d) = Unit

module _ {D : Type 0} where
  advance-IsGood :
      (p : Progress) (o : ItemOutcome × D) → IsGood p → IsInactive o → IsGoodResult (advance p o)
  advance-IsGood p (settled i, d) g h = (
    put_item-Unique i p.updated g.0,
    All-snoc (λ s. All (IsSettled s.quarantine_item_id) (put_item i p.updated)) p.settled_items i
        (All-In _ p.settled_items λ s at.
          put_item-All (IsSettled s.quarantine_item_id) i p.updated (λ _. h) (In-All _ g.1 at))
        (put_item-settles i h p.updated g.0),
  )
  advance-IsGood p (refused f, d) g h = g
  advance-IsGood p (interrupted e, d) g h = tt

  module _ {X : Type 0} (step : X → D → ItemOutcome × D)
      (inactive : (x : X) (d : D) → IsInactive (step x d)) where
    round-IsGood :
        (x : X) (r : Result Progress × D) → IsGoodResult r → IsGoodResult (round step x r)
    round-IsGood x (ok p, d) g = advance-IsGood p (step x d) g (inactive x d)
    round-IsGood x (raised e, d) g = tt

    rounds-IsGood :
        (l : List X) (r : Result Progress × D) → IsGoodResult r → IsGoodResult (rounds step l r)
    rounds-IsGood [] r g = g
    rounds-IsGood (x ∷ l) r g = rounds-IsGood l (round step x r) (round-IsGood x r g)

-- No entry of the index that `list_quarantined` offers is this item.
abbrev pub IsNotOffered : List Item → Item → Type 0
IsNotOffered index i =
    All (λ j. same_id i.quarantine_item_id j ≡ false) (list_quarantined none false index)

settled-IsNotOffered :
    (index : List Item) (i : Item)
    → All (IsSettled i.quarantine_item_id) (sort_items index)
    → IsNotOffered (sort_items index) i
unfolding list_quarantined
settled-IsNotOffered index i h =
    sort_items-All (λ j. same_id i.quarantine_item_id j ≡ false)
      (filter_by is_active (sort_items index))
      (All-In _ (filter_by is_active (sort_items index)) λ j at.
        let (within, active) = In-filter_by is_active (sort_items index) at in
        elim (Bool-cases (same_id i.quarantine_item_id j)) [
          | inl e ↦ let f = In-All _ h within e in absurd (ground arith)
          | inr e ↦ e
        ])

-- After a call that returns, none of these items is offered; one that raises leaves the index.
abbrev pub IsDone :
    {D R : Type 0} → (R → List Item) → QuarantineState D → Result R × QuarantineState D → Type 0
IsDone items s (ok r, t) = All (IsNotOffered t.index) (items r)
IsDone items s (raised e, t) = t.index ≡ s.index

module _ {D : Type 0} (calls : Calls D) where
  written-IsDone :
      {R : Type 0} (items : R → List Item) (report : Progress → R) (s : QuarantineState D)
      (same : (p : Progress) → items (report p) ≡ p.settled_items) (r : Result Progress × D)
      → IsGoodResult r
      → IsDone items s (written calls report s r)
  written-IsDone items report s same (ok p, d) g =
      subst (All (IsNotOffered (sort_items p.updated))) (sym (same p)) (
        All-In _ p.settled_items
          λ i at. settled-IsNotOffered p.updated i (sort_items-All _ p.updated (In-All _ g.1 at)))
  written-IsDone items report s same (raised e, d) g = refl

  settled_unless-IsInactive :
      (path : String) (made : D → Item) (r : Result (Unit {0}) × D)
      → ((d : D) → is_active (made d) ≡ false)
      → IsInactive (settled_unless calls path made r)
  settled_unless-IsInactive path made (ok u, d) h = h d
  settled_unless-IsInactive path made (raised e, d) h = elim (Bool-cases (is_os_error e)) [
    | inl t ↦ rw t tt
    | inr f ↦ rw f tt
  ]

  delete_item-IsInactive : (i : Item) (d : D) → IsInactive (delete_item calls i d)
  unfolding delete_item
  delete_item-IsInactive i d = settled_unless-IsInactive i.quarantine_path _ _ λ d. refl

  restore_to-IsInactive :
      (i : Item) (q r : Result Bool) (d : D) → IsInactive (restore_to calls i q r d)
  restore_to-IsInactive i (raised e) r d = tt
  restore_to-IsInactive i (ok false) r d = tt
  restore_to-IsInactive i (ok true) (raised e) d = tt
  restore_to-IsInactive i (ok true) (ok true) d = tt
  restore_to-IsInactive i (ok true) (ok false) d =
      settled_unless-IsInactive i.original_path _ _ λ d. refl

  restore_item-IsInactive : (i : Item) (d : D) → IsInactive (restore_item calls i d)
  unfolding restore_item
  restore_item-IsInactive i d = restore_to-IsInactive i _ _ d

  loop-IsGood :
      (step : Item → D → ItemOutcome × D) (inactive : (i : Item) (d : D) → IsInactive (step i d))
      (items index : List Item) (d : D)
      → IsGoodResult (rounds step items (ok (begun (by_id index)), d))
  loop-IsGood step inactive items index d =
      rounds-IsGood step inactive items _ (put_items-Unique index [] tt, tt)

  restore-IsDone :
      (session_id : String) (paths : List String) (all_items : Bool) (s : QuarantineState D)
      → IsDone (λ r. r.restored) s (restore calls session_id paths all_items false s)
  unfolding restore
  restore-IsDone session_id paths all_items s =
      let items =
        select_quarantine_items paths all_items
          (list_quarantined (some session_id) false s.index) in
      elim (Bool-cases (is_empty items)) [
        | inl e ↦ rw e tt
        | inr e ↦ rw e (
            written-IsDone (λ r. r.restored) (restored_report calls) s (λ p. refl) _
              (loop-IsGood (restore_item calls) restore_item-IsInactive items s.index
                s.directories))
      ]

  finalize_delete-IsDone :
      (session_id : String) (paths : List String) (all_items : Bool) (s : QuarantineState D)
      → IsDone (λ r. r.deleted) s (finalize_delete calls session_id paths all_items false s)
  unfolding finalize_delete
  finalize_delete-IsDone session_id paths all_items s =
      let items =
        select_quarantine_items paths all_items
          (list_quarantined (some session_id) false s.index) in
      elim (Bool-cases (is_empty items)) [
        | inl e ↦ rw e tt
        | inr e ↦ rw e (
            written-IsDone (λ r. r.deleted) (deleted_report calls) s (λ p. refl) _
              (loop-IsGood (delete_item calls) delete_item-IsInactive items s.index s.directories))
      ]

  -- When a restore or a deletion that is no dry run returns, no active item of any session that
  -- `list_quarantined` then offers has the identifier of an item that it reports as restored or
  -- deleted; when it raises, the index is as before.
  pub settled-IsNotOffered_again :
      (session_id : String) (paths : List String) (all_items : Bool) (s : QuarantineState D)
      → IsDone (λ r. r.restored) s (restore calls session_id paths all_items false s)
        × IsDone (λ r. r.deleted) s (finalize_delete calls session_id paths all_items false s)
  settled-IsNotOffered_again session_id paths all_items s = (
    restore-IsDone session_id paths all_items s,
    finalize_delete-IsDone session_id paths all_items s,
  )
