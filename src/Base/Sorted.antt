-- ===== src/Base/Sorted.antt =====
-- `sorted` of Python for texts.
use Prim.Native.String.{String, compare}
use text.Mathlib.Text.{is_le}
use mathlib.Core.List.{List, [], ◌∷◌}
use immich_doctor.Base.Tests.{if◌then◌else◌}

abbrev pub insert_sorted : String → List String → List String
insert_sorted s [] = s ∷ []
insert_sorted s (t ∷ l) =
    let rest = insert_sorted s l in if is_le (compare s t) then s ∷ t ∷ l else t ∷ rest

-- `sorted(texts)`: texts are ordered by their code points.
abbrev pub sorted : List String → List String
sorted [] = []
sorted (s ∷ l) = insert_sorted s (sorted l)
