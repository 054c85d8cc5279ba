-- ===== src/Base/Dict.antt =====
-- A Python dict with text keys, in insertion order.
use Prim.Native.String.{String}
use mathlib.Core.Path.{◌≡◌, refl}
use mathlib.Core.Logic.{◌≢◌}
use mathlib.Core.Bool.{Bool, true, false, ◌||◌}
use mathlib.Core.Option.{Option, none, some}
use mathlib.Core.List.{List, [], ◌∷◌}
use native.Mathlib.Omega.{arith}
use text.Mathlib.TextEquality.{eq_iff}
use sira_seil_cockroach_aws.Base.Tests.{◌==◌, if◌then◌else◌, text_eq_self}
use sira_seil_cockroach_aws.Base.Lists.{elem, Distinct}

abbrev pub Dict {ℓ} : Type ℓ → Type ℓ
Dict V = List (String × V)

module _ {ℓ} {V : Type ℓ} where
  -- `d.get(k)`
  abbrev pub lookup : String → Dict V → Option V
  lookup k [] = none
  lookup k ((j, v) ∷ d) = if j == k then some v else lookup k d

  -- `k in d`
  abbrev pub contains : String → Dict V → Bool
  contains k [] = false
  contains k ((j, v) ∷ d) = j == k || contains k d

  -- `d[k] = v`
  abbrev pub insert : String → V → Dict V → Dict V
  insert k v [] = (k, v) ∷ []
  insert k v ((j, w) ∷ d) = if j == k then (j, v) ∷ d else (j, w) ∷ insert k v d

  -- `del d[k]`
  abbrev pub erase : String → Dict V → Dict V
  erase k [] = []
  erase k ((j, w) ∷ d) = if j == k then d else (j, w) ∷ erase k d

  -- `d.values()`
  abbrev pub values : Dict V → List V
  values [] = []
  values ((j, v) ∷ d) = v ∷ values d

  -- `set(d)`
  abbrev pub keys : Dict V → List String
  keys [] = []
  keys ((j, v) ∷ d) = j ∷ keys d

  -- `{key(x): x for x in xs}`, the entries of an earlier dict first
  abbrev pub index_onto : (V → String) → Dict V → List V → Dict V
  index_onto key d [] = d
  index_onto key d (x ∷ xs) = index_onto key (insert (key x) x d) xs

  abbrev pub index_by : (V → String) → List V → Dict V
  index_by key xs = index_onto key [] xs

  pub lookup-insert :
      (k j : String) (v : V) (d : Dict V)
      → lookup j (insert k v d) ≡ (if k == j then some v else lookup j d)
  lookup-insert k j v [] = refl
  lookup-insert k j v ((i, w) ∷ d) =
      ground (arith, eq_iff k j, eq_iff i k, eq_iff i j, lookup-insert k j v d)

  pub lookup-insert_self : (k : String) (v : V) (d : Dict V) → lookup k (insert k v d) ≡ some v
  lookup-insert_self k v d = ground (arith, lookup-insert k k v d, text_eq_self k)

  pub contains-eq-lookup :
      (k : String) (d : Dict V) → contains k d ≡ elim (lookup k d) [ none ↦ false | some _ ↦ true ]
  contains-eq-lookup k [] = refl
  contains-eq-lookup k ((j, v) ∷ d) = ground (arith, contains-eq-lookup k d)

  pub contains-eq-elem : (k : String) (d : Dict V) → contains k d ≡ elem k (keys d)
  contains-eq-elem k [] = refl
  contains-eq-elem k ((j, v) ∷ d) = ground (arith, contains-eq-elem k d)

  pub elem-keys-insert :
      (j k : String) (v : V) (d : Dict V)
      → elem j (keys (insert k v d)) ≡ (k == j || elem j (keys d))
  elem-keys-insert j k v [] = refl
  elem-keys-insert j k v ((i, w) ∷ d) =
      ground (arith, eq_iff i k, eq_iff i j, eq_iff k j, elem-keys-insert j k v d)

  -- Writing keeps the keys distinct.
  pub insert-Distinct :
      (k : String) (v : V) (d : Dict V) → Distinct (keys d) → Distinct (keys (insert k v d))
  insert-Distinct k v [] h = (refl, tt)
  insert-Distinct k v ((i, w) ∷ d) h =
      ground (arith, eq_iff i k, eq_iff k i, elem-keys-insert i k v d, insert-Distinct k v d h.1)

  pub lookup-erase_ne : (j k : String) (d : Dict V) → k ≢ j → lookup j (erase k d) ≡ lookup j d
  lookup-erase_ne j k [] h = refl
  lookup-erase_ne j k ((i, w) ∷ d) h =
      ground (arith, eq_iff i k, eq_iff i j, lookup-erase_ne j k d h)

  elem-keys-erase :
      (j k : String) (d : Dict V) → elem j (keys d) ≡ false → elem j (keys (erase k d)) ≡ false
  elem-keys-erase j k [] h = refl
  elem-keys-erase j k ((i, w) ∷ d) h = ground (arith, elem-keys-erase j k d)

  -- Deleting keeps the keys distinct.
  pub erase-Distinct : (k : String) (d : Dict V) → Distinct (keys d) → Distinct (keys (erase k d))
  erase-Distinct k [] h = tt
  erase-Distinct k ((i, w) ∷ d) h = ground (arith, elem-keys-erase i k d, erase-Distinct k d h.1)

  lookup_absent : (k : String) (d : Dict V) → elem k (keys d) ≡ false → lookup k d ≡ none
  lookup_absent k [] h = refl
  lookup_absent k ((j, v) ∷ d) h = ground (arith, lookup_absent k d)

  pub lookup-erase_self :
      (k : String) (d : Dict V) → Distinct (keys d) → lookup k (erase k d) ≡ none
  lookup-erase_self k [] h = refl
  lookup-erase_self k ((j, v) ∷ d) h =
      ground
        (arith, eq_iff j k, lookup_absent j d h.0, lookup_absent k d, lookup-erase_self k d h.1)
