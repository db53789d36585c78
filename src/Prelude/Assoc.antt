-- ===== src/Prelude/Assoc.antt =====
-- Go maps as association lists, with at most one entry for a key that was inserted.
use mathlib.Core.Path.{◌≡◌, refl}
use mathlib.Core.Option.{Option, none, some}
use mathlib.Core.List.{List, [], ◌∷◌}
use native.Mathlib.Omega.{arith}
use multi_raft_storage.Prelude.Tests.{Eq, ◌==◌, if◌then◌else◌}

module _ {ℓ κ} {K : Type ℓ} {V : Type κ} ⦃e : Eq K⦄ where
  unfoldable pub lookup : K → List (K × V) → Option V
  lookup key [] = none
  lookup key ((probe, value) ∷ entries) = if probe == key then some value else lookup key entries

  unfoldable pub insert : K → V → List (K × V) → List (K × V)
  insert key value [] = (key, value) ∷ []
  insert key value ((probe, stale) ∷ entries) =
      if probe == key then (key, value) ∷ entries else (probe, stale) ∷ insert key value entries

  unfoldable pub delete : K → List (K × V) → List (K × V)
  delete key [] = []
  delete key ((probe, value) ∷ entries) =
      let rest = delete key entries in if probe == key then rest else (probe, value) ∷ rest

  pub lookup-insert :
      (key probe : K) (value : V) (entries : List (K × V))
      → lookup probe (insert key value entries)
        ≡ (if key == probe then some value else lookup probe entries)
  unfolding lookup insert
  lookup-insert key probe value [] = refl
  lookup-insert key probe value ((head, stale) ∷ entries) = ground (
    arith,
    e.same_iff key probe,
    e.same_iff head key,
    e.same_iff head probe,
    lookup-insert key probe value entries,
  )

  pub lookup-delete :
      (key probe : K) (entries : List (K × V))
      → lookup probe (delete key entries) ≡ (if key == probe then none else lookup probe entries)
  unfolding lookup delete
  lookup-delete key probe [] = ground arith
  lookup-delete key probe ((head, stale) ∷ entries) = ground (
    arith,
    e.same_iff key probe,
    e.same_iff head key,
    e.same_iff head probe,
    lookup-delete key probe entries,
  )
