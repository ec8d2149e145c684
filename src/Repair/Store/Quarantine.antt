-- ===== src/Repair/Store/Quarantine.antt =====
-- The collapsed quarantine index holds the latest row of each item.
use immich_doctor.Base.{
  String, ◌≡◌, refl, ap, ◌∙◌, Option, none, some, List, [], ◌∷◌, Dict, lookup, insert, values, ◌==◌,
  string_eq, if◌then◌else◌, arith, eq_iff, lookup-insert,
}
use immich_doctor.Repair.Items.{QuarantineItem}
use immich_doctor.Repair.Store.{latest_by_id, collapse_quarantine_items}

-- The first item of a list with the given id, and the last.
abbrev pub item_with_id : String → List QuarantineItem → Option QuarantineItem
item_with_id k [] = none
item_with_id k (x ∷ l) = if x.quarantine_item_id == k then some x else item_with_id k l

abbrev pub or_else : Option QuarantineItem → Option QuarantineItem → Option QuarantineItem
or_else (some x) o = some x
or_else none o = o

abbrev pub last_with_id : String → List QuarantineItem → Option QuarantineItem
last_with_id k [] = none
last_with_id k (x ∷ l) =
    or_else (last_with_id k l) (if x.quarantine_item_id == k then some x else none)

abbrev KeyedById : Dict QuarantineItem → Type 0
KeyedById [] = Unit {0}
KeyedById ((k, x) ∷ d) = (x.quarantine_item_id ≡ k) × KeyedById d

insert-KeyedById :
    (x : QuarantineItem) (d : Dict QuarantineItem)
    → KeyedById d
    → KeyedById (insert x.quarantine_item_id x d)
insert-KeyedById x [] h = (refl, tt)
insert-KeyedById x ((k, y) ∷ d) h =
    ground (arith, insert-KeyedById x d h.1, eq_iff k x.quarantine_item_id)

latest_by_id-KeyedById :
    (d : Dict QuarantineItem) (l : List QuarantineItem) → KeyedById d → KeyedById (latest_by_id d l)
unfolding latest_by_id
latest_by_id-KeyedById d [] h = h
latest_by_id-KeyedById d (x ∷ l) h =
    latest_by_id-KeyedById (insert x.quarantine_item_id x d) l (insert-KeyedById x d h)

item_with_id-values :
    (k : String) (d : Dict QuarantineItem) → KeyedById d → item_with_id k (values d) ≡ lookup k d
item_with_id-values k [] h = refl
item_with_id-values k ((j, x) ∷ d) h = ground (arith, item_with_id-values k d h.1)

lookup-latest_by_id :
    (k : String) (d : Dict QuarantineItem) (l : List QuarantineItem)
    → lookup k (latest_by_id d l) ≡ or_else (last_with_id k l) (lookup k d)
unfolding latest_by_id
lookup-latest_by_id k d [] = refl
lookup-latest_by_id k d (x ∷ l) = ground (
  arith,
  lookup-latest_by_id k (insert x.quarantine_item_id x d) l,
  lookup-insert x.quarantine_item_id k x d,
)

or_else-none : (o : Option QuarantineItem) → or_else o none ≡ o
or_else-none none = refl
or_else-none (some x) = refl

-- No two items of the list have the same id.
abbrev pub HasDistinctIds : List QuarantineItem → Type 0
HasDistinctIds [] = Unit
HasDistinctIds (x ∷ l) = (item_with_id x.quarantine_item_id l ≡ none) × HasDistinctIds l

abbrev HasDistinctKeys : Dict QuarantineItem → Type 0
HasDistinctKeys [] = Unit
HasDistinctKeys ((k, x) ∷ d) = (lookup k d ≡ none) × HasDistinctKeys d

insert-HasDistinctKeys :
    (k : String) (x : QuarantineItem) (d : Dict QuarantineItem)
    → HasDistinctKeys d
    → HasDistinctKeys (insert k x d)
insert-HasDistinctKeys k x [] h = (refl, tt)
insert-HasDistinctKeys k x ((j, y) ∷ d) h =
    ground (arith, insert-HasDistinctKeys k x d h.1, lookup-insert k j x d, eq_iff j k, eq_iff k j)

latest_by_id-HasDistinctKeys :
    (d : Dict QuarantineItem) (l : List QuarantineItem)
    → HasDistinctKeys d
    → HasDistinctKeys (latest_by_id d l)
unfolding latest_by_id
latest_by_id-HasDistinctKeys d [] h = h
latest_by_id-HasDistinctKeys d (x ∷ l) h =
    latest_by_id-HasDistinctKeys (insert x.quarantine_item_id x d) l
      (insert-HasDistinctKeys x.quarantine_item_id x d h)

values-HasDistinctIds :
    (d : Dict QuarantineItem) → KeyedById d → HasDistinctKeys d → HasDistinctIds (values d)
values-HasDistinctIds [] k u = tt
values-HasDistinctIds ((j, x) ∷ d) k u = (
  ap (λ i. item_with_id i (values d)) k.0 ∙ item_with_id-values j d k.1 ∙ u.0,
  values-HasDistinctIds d k.1 u.1,
)

-- In the collapsed list an item stands with the fields of its latest row, an id stands there exactly
-- when a row has it, and no id stands there twice.
pub collapse-latest :
    (k : String) (rows : List QuarantineItem)
    → (item_with_id k (collapse_quarantine_items rows) ≡ last_with_id k rows)
      × HasDistinctIds (collapse_quarantine_items rows)
unfolding collapse_quarantine_items
collapse-latest k rows =
    let keyed = latest_by_id-KeyedById [] rows tt in
    (
      item_with_id-values k (latest_by_id [] rows) keyed
          ∙ lookup-latest_by_id k [] rows
          ∙ or_else-none (last_with_id k rows),
      values-HasDistinctIds (latest_by_id [] rows) keyed (latest_by_id-HasDistinctKeys [] rows tt),
    )
