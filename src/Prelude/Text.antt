-- ===== src/Prelude/Text.antt =====
-- `fmt.Sprintf` with `%s`, `%d`, and `strconv.Itoa`, over the native texts.
use Prim.Native.Nat.{ℕ, zero, suc, ◌/◌, ◌%◌, ◌<◌}
use Prim.Native.String.{String}
use Prim.Native.String
use mathlib.Core.Path.{◌≡◌, refl}
use mathlib.Core.Logic.{dite}
use mathlib.Core.WellFounded.{Acc}
use native.Mathlib.Decide.{dec_lt}
use native.Mathlib.Omega.{arith}
use multi_raft_storage.Prelude.Int.{ℤ, pos, negsuc}
use multi_raft_storage.Prelude.Tests.{nat_eq, str_eq, if◌then◌else◌}
use mathlib.Core.Option.{Option, none, some}
use Prim.Native.Char.{code}

infixr 60 ◌⊕◌
abbrev pub ◌⊕◌ : String → String → String
s ⊕ t = String.◌++◌ s t

digit : ℕ → String
digit zero = "0"
digit (suc zero) = "1"
digit (suc (suc zero)) = "2"
digit (suc (suc (suc zero))) = "3"
digit (suc (suc (suc (suc zero)))) = "4"
digit (suc (suc (suc (suc (suc zero))))) = "5"
digit (suc (suc (suc (suc (suc (suc zero)))))) = "6"
digit (suc (suc (suc (suc (suc (suc (suc zero))))))) = "7"
digit (suc (suc (suc (suc (suc (suc (suc (suc zero)))))))) = "8"
digit _ = "9"

Acc-below : (k n : ℕ) → n < k → Acc ◌<◌ n
Acc-below zero n h = elim h [ ]
Acc-below (suc k) n h = Acc.intro n (λ m hm. Acc-below k m (omega arith))

decimal : (n : ℕ) → Acc ◌<◌ n → String
decimal n (Acc.intro _ smaller) =
    dite (dec_lt 9 n) (λ h. decimal (n / 10) (smaller (n / 10) (omega arith)) ⊕ digit (n % 10))
      (λ _. digit n)

-- `%d` of a number that is not negative.
unfoldable pub itoa : ℕ → String
unfolding decimal digit Acc-below dec_lt
itoa n = decimal n (Acc-below (suc n) n (omega arith))

itoa_runs : itoa 5678 ≡ "5678"
unfolding itoa
itoa_runs = refl

-- `%d` of a signed number.
unfoldable pub show_int : ℤ → String
unfolding itoa
show_int (pos n) = itoa n
show_int (negsuc n) = "-" ⊕ itoa (suc n)

-- `strings.TrimPrefix`: the text itself where it does not begin with the prefix.
strip : String → String → Option String
strip String.[] s = some s
strip (String.◌∷◌ c p) String.[] = none
strip (String.◌∷◌ c p) (String.◌∷◌ d s) =
    let rest = strip p s in if nat_eq (code c) (code d) then rest else none

unfoldable pub trim_prefix : String → String → String
unfolding strip
trim_prefix s prefix = elim (strip prefix s) [ none ↦ s | some rest ↦ rest ]

-- `strings.TrimSuffix`: the text up to where what is left is the suffix.
unfoldable pub trim_suffix : String → String → String
trim_suffix String.[] suffix = String.[]
trim_suffix (String.◌∷◌ c s) suffix =
    let rest = trim_suffix s suffix in
    if str_eq (String.◌∷◌ c s) suffix then String.[] else String.◌∷◌ c rest

trim_runs :
    trim_suffix (trim_prefix "kubernetes.default.svc.cluster.local." "kubernetes.default.svc.") "."
    ≡ "cluster.local"
unfolding trim_suffix trim_prefix
trim_runs = refl
