-- ===== src/Controller/Statuses/Followers.antt =====
-- The comparison of two lists of followers is equality up to order, where the first has no
-- duplicates.
use mathlib.Core.List.{Mem, Nodup, Subset, Perm, mem-cons, not-mem-nil, cons-subset, nil-subset}
use mathlib.Core.List
use mathlib.Core.List.Perm
use mathlib.Core.List.Nodup
use mathlib.Core.List.Subperm
use mathlib.Core.Logic.Or
use native.Mathlib.Bridge.{from_ℕ, from_le⁻¹}
use multi_raft_storage.Prelude.{
  inl, inr, suc, ◌≡◌, refl, sym, ap, ◌↔◌, String, true, List, [], ◌∷◌, arith, length, every,
  contains, str_eq, str_eq_iff, string_Eq, Bool-cases,
}
use multi_raft_storage.Controller.Statuses.{same_followers}

length-from : (xs : List String) → from_ℕ (List.length xs) ≡ length xs
length-from [] = refl
length-from (x ∷ xs) = ap suc (length-from xs)

pub Mem-contains : (xs : List String) (a : String) → Mem a xs → contains xs a ≡ true
Mem-contains [] a m = absurd (not-mem-nil m)
Mem-contains (x ∷ xs) a m =
    Or.elim (hlevel) (mem-cons.0 m) (λ e. ground (arith, str_eq_iff x a, sym e))
      (λ k. ground (arith, Mem-contains xs a k))

contains-Mem : (xs : List String) (a : String) → contains xs a ≡ true → Mem a xs
contains-Mem [] a h = cc
contains-Mem (x ∷ xs) a h = elim (Bool-cases (str_eq x a)) [
  | inl e ↦ mem-cons.1 (Or.inl (sym ((str_eq_iff x a).0 e)))
  | inr e ↦ mem-cons.1 (Or.inr (contains-Mem xs a (ground arith)))
]

every-Subset : (xs ys : List String) → every (contains ys) xs ≡ true → Subset xs ys
every-Subset [] ys h = nil-subset ys
every-Subset (x ∷ xs) ys h =
    cons-subset.1 (contains-Mem ys x (ground arith), every-Subset xs ys (ground arith))

Subset-every : (xs ys : List String) → Subset xs ys → every (contains ys) xs ≡ true
Subset-every [] ys h = refl
Subset-every (x ∷ xs) ys h =
    let k = cons-subset.0 h in ground (arith, Mem-contains ys x k.0, Subset-every xs ys k.1)

pub same_followers_iff :
    (xs ys : List String) → Nodup xs → (same_followers xs ys ≡ true) ↔ Perm xs ys
unfolding same_followers
same_followers_iff xs ys nodup = (
  λ h. Subperm.perm_of_length_le (Nodup.subperm nodup (every-Subset xs ys (ground arith))) (
      from_le⁻¹ _ _ (
        omega (
          arith,
          length-from xs,
          length-from ys,
          (let k : length xs ≡ length ys = ground arith in k),
        ))),
  λ p. ground (
    arith,
    Subset-every xs ys (Perm.subset p),
    ap from_ℕ (Perm.length-eq p),
    length-from xs,
    length-from ys,
  ),
)
