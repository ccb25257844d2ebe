-- ===== src/Base/Maps.antt =====
-- The concurrent map of the `dashmap` package, which the program only calls, as an interface: `M` is
-- a map from `K` to `V` at one moment. The laws are its documented behaviour. An association list
-- shows that they can be met.
use mathlib.Core.Path.{◌≡◌, refl}
use mathlib.Core.Option.{Option, none, some}
use mathlib.Core.List.{List, [], ◌∷◌}
use native.Mathlib.Omega.{arith}
use ferrotunnel.Base.Tests.{Key, ◌==◌, if◌then◌else◌}

-- The value of the first entry with a key.
abbrev pub assoc_get : {K V : Type 0} ⦃key : Key K⦄ → List (K × V) → K → Option V
assoc_get [] j = none
assoc_get ((k, v) ∷ m) j = if k == j then some v else assoc_get m j

-- No two entries have one key.
abbrev pub Distinct : {K V : Type 0} ⦃key : Key K⦄ → List (K × V) → Type 0
Distinct [] = Unit {0}
Distinct ((k, v) ∷ m) = (assoc_get m k ≡ none) × Distinct m

-- `entries` is what `iter` goes through.
pub record DashMap (K V M : Type 0) ⦃key : Key K⦄ : Type 0 where
  pub empty : M
  pub get : M → K → Option V
  pub insert : M → K → V → M
  pub remove : M → K → M
  pub entries : M → List (K × V)
  pub get-empty : (k : K) → get empty k ≡ none
  pub get-insert :
      (m : M) (k : K) (v : V) (j : K) → get (insert m k v) j ≡ (if k == j then some v else get m j)
  pub get-remove : (m : M) (k j : K) → get (remove m k) j ≡ (if k == j then none else get m j)
  pub get-entries : (m : M) (k : K) → assoc_get (entries m) k ≡ get m k
  pub entries-Distinct : (m : M) → Distinct (entries m)

module _ {K V : Type 0} ⦃key : Key K⦄ where
  abbrev pub assoc_remove : List (K × V) → K → List (K × V)
  assoc_remove [] j = []
  assoc_remove ((k, v) ∷ m) j = if k == j then assoc_remove m j else (k, v) ∷ assoc_remove m j

  -- The entries that no earlier one hides.
  abbrev pub assoc_entries : List (K × V) → List (K × V)
  assoc_entries [] = []
  assoc_entries ((k, v) ∷ m) = (k, v) ∷ assoc_remove (assoc_entries m) k

  pub assoc_get-remove :
      (m : List (K × V)) (k j : K)
      → assoc_get (assoc_remove m k) j ≡ (if k == j then none else assoc_get m j)
  assoc_get-remove [] k j = ground arith
  assoc_get-remove ((i, v) ∷ m) k j =
      ground (arith, assoc_get-remove m k j, key.same_iff i k, key.same_iff i j, key.same_iff k j)

  pub assoc_get-insert :
      (m : List (K × V)) (k : K) (v : V) (j : K)
      → assoc_get ((k, v) ∷ assoc_remove m k) j ≡ (if k == j then some v else assoc_get m j)
  assoc_get-insert m k v j = ground (arith, assoc_get-remove m k j)

  pub assoc_get-entries : (m : List (K × V)) (k : K) → assoc_get (assoc_entries m) k ≡ assoc_get m k
  assoc_get-entries [] k = refl
  assoc_get-entries ((i, v) ∷ m) k =
      ground (arith, assoc_get-entries m k, assoc_get-remove (assoc_entries m) i k)

  assoc_remove-Distinct : (m : List (K × V)) (k : K) → Distinct m → Distinct (assoc_remove m k)
  assoc_remove-Distinct [] k d = tt
  assoc_remove-Distinct ((i, v) ∷ m) k d =
      ground (arith, assoc_remove-Distinct m k d.1, assoc_get-remove m k i)

  pub assoc_entries-Distinct : (m : List (K × V)) → Distinct (assoc_entries m)
  assoc_entries-Distinct [] = tt
  assoc_entries-Distinct ((i, v) ∷ m) = (
    ground (arith, assoc_get-remove (assoc_entries m) i i, key.same_iff i i),
    assoc_remove-Distinct (assoc_entries m) i (assoc_entries-Distinct m),
  )

-- A map as a list of its entries.
abbrev pub assoc_map : {K V : Type 0} ⦃key : Key K⦄ → DashMap K V (List (K × V))
assoc_map = record {
  empty = [];
  get = assoc_get;
  insert = λ m k v. (k, v) ∷ assoc_remove m k;
  remove = assoc_remove;
  entries = assoc_entries;
  get-empty = λ k. refl;
  get-insert = assoc_get-insert;
  get-remove = assoc_get-remove;
  get-entries = assoc_get-entries;
  entries-Distinct = assoc_entries-Distinct;
}
