-- ===== src/Node/Wire/Skipping.antt =====
-- `skipProtocol` on any bytes: every round goes on from a later index that is not negative, so its loop
-- ends and reads no byte outside the message.
use Prim.Native.Nat.{bit_and, bit_or}
use multi_raft_storage.Prelude.{
  ℕ, zero, suc, ◌+◌, ◌-◌, ◌*◌, ◌%◌, ◌^◌, ◌<◌, ◌≤◌, ◌≡◌, refl, arith, [], ◌∷◌, inl, inr, true, false,
  Bool, ok, err, Exec, ◌>>=◌, continue, length, ltb, leb, nat_eq, if◌then◌else◌, Bool-cases, Result,
  not, ◌||◌,
}
use multi_raft_storage.Prelude.Int.{u64}
use multi_raft_storage.Node.Partition.{Bytes}
use multi_raft_storage.Node.Wire.{drop}
use multi_raft_storage.Node.Wire.Reading.{
  WireError, index_out_of_range, out_of_rounds, invalid_length, unexpected_end_of_group,
  read_groups, read_varint, check, is_negative, is_past, is_at_end, skip_value, skip_field,
  skip_loop, skip_on, skip_to,
}

-- An error that the code returns.
abbrev pub IsReported : WireError → Type 0
IsReported index_out_of_range = ⊥
IsReported out_of_rounds = ⊥
IsReported _ = Unit

-- A reader's result: its value and what it leaves, or an error of the code.
abbrev pub Ends : {A : Type 0} → (A → Bytes → Type 0) → Result WireError A × Bytes → Type 0
Ends P (ok a, rest) = P a rest
Ends P (err e, rest) = IsReported e

module _ {A B : Type 0} (P : A → Bytes → Type 0) (Q : B → Bytes → Type 0) where
  -- A first reader, then one that goes on from what it leaves.
  pub then_ends :
      (m : Exec Bytes WireError A) (f : A → Exec Bytes WireError B) (before : Bytes)
      → Ends P (m before)
      → ((a : A) (rest : Bytes) → P a rest → Ends Q (f a rest))
      → Ends Q ((m >>= f) before)
  then_ends m f before h next = go (m before) h
    where
      go : (r : Result WireError A × Bytes) → Ends P r → Ends Q (continue r.0 f r.1)
      go (ok a, rest) p = next a rest p
      go (err e, rest) p = p

module _ {A : Type 0} (P Q : A → Bytes → Type 0)
    (weaker : (a : A) (rest : Bytes) → P a rest → Q a rest) where
  weaken : (r : Result WireError A × Bytes) → Ends P r → Ends Q r
  weaken (ok a, rest) h = weaker a rest h
  weaken (err e, rest) h = h

pub check_ends :
    {B : Type 0} (Q : B → Bytes → Type 0) (b : Bool) (e : WireError)
    (f : Unit {0} → Exec Bytes WireError B) (before : Bytes)
    → IsReported e
    → (b ≡ true → Ends Q (f tt before))
    → Ends Q ((check b e >>= f) before)
check_ends Q true e f before other next = next refl
check_ends Q false e f before other next = other

-- A test that holds.
pub check_holds :
    {B : Type 0} (Q : B → Bytes → Type 0) (b : Bool) (e : WireError)
    (f : Unit {0} → Exec Bytes WireError B) (before : Bytes)
    → b ≡ true
    → Ends Q (f tt before)
    → Ends Q ((check b e >>= f) before)
check_holds Q true e f before h next = next
check_holds Q false e f before h next = absurd (ground arith)

module _ {B : Type 0} (Q : B → Bytes → Type 0) where
  pub if_ends :
      (b : Bool) (f g : Exec Bytes WireError B) (before : Bytes)
      → Ends Q (f before)
      → Ends Q (g before)
      → Ends Q ((if b then f else g) before)
  if_ends true f g before p q = p
  if_ends false f g before p q = q

abbrev pub Shorter : {A : Type 0} → Bytes → A → Bytes → Type 0
Shorter before a rest = length rest < length before

read_groups_ends :
    (shift acc : ℕ) (before : Bytes) → Ends (Shorter before) (read_groups shift acc before)
unfolding read_groups
read_groups_ends shift acc [] = elim (Bool-cases (leb 64 shift)) [
  | inl over ↦ rw over tt
  | inr under ↦ rw under tt
]
read_groups_ends shift acc (b ∷ rest) =
    let acc' = bit_or acc (bit_and b 0x7f * 2 ^ shift % 2 ^ 64) in
    let more : Ends (Shorter (b ∷ rest)) (read_groups (shift + 7) acc' rest) =
      weaken (Shorter rest) (Shorter (b ∷ rest)) (λ a r h. omega arith)
        (read_groups (shift + 7) acc' rest) (read_groups_ends (shift + 7) acc' rest) in
    elim (Bool-cases (leb 64 shift)) [
      | inl over ↦ rw over tt
      | inr under ↦ elim (Bool-cases (ltb b 0x80)) [
        | inl last ↦ rw (under, last) (omega arith)
        | inr marked ↦ rw (under, marked) more
      ]
    ]

pub read_varint_ends : (before : Bytes) → Ends (Shorter before) (read_varint before)
unfolding read_varint
read_varint_ends before = read_groups_ends 0 0 before

pub not_negative : (n : ℕ) → not (is_negative n) ≡ true → n < 2 ^ 63
not_negative n h = ground arith

-- The index that `skip_value` returns is not before the value.
abbrev Past : ℕ → ℕ × ℕ → Bytes → Type 0
Past i r rest = i ≤ r.0

skip_value_ends :
    (l wire_type depth : ℕ) (before : Bytes)
    → l < 2 ^ 63
    → Ends (Past (l - length before)) (skip_value l wire_type depth before)
unfolding skip_value
skip_value_ends l wire_type depth before word =
    let Q = Past (l - length before) in
    let read = λ (f : ℕ → Exec Bytes WireError (ℕ × ℕ)).
      then_ends (Shorter before) Q read_varint f before (read_varint_ends before) in
    if_ends Q (nat_eq wire_type 0) _ _ before (read _ (λ n rest h. omega arith)) (
      if_ends Q (nat_eq wire_type 1) _ _ before (omega arith) (
        if_ends Q (nat_eq wire_type 2) _ _ before
          (read _ (λ n rest h.
            check_ends Q (not (is_negative n)) invalid_length _ rest tt
              (λ small. omega (arith, not_negative n small))))
          (if_ends Q (nat_eq wire_type 3) _ _ before (omega arith) (
            if_ends Q (nat_eq wire_type 4) _ _ before
              (check_ends Q (ltb 0 depth) unexpected_end_of_group _ before tt (λ _. omega arith))
              (if_ends Q (nat_eq wire_type 5) _ _ before (omega arith) tt)))))

pub length-drop : (i : ℕ) (b : Bytes) → length (drop i b) ≡ length b - i
length-drop zero b = omega arith
length-drop (suc i) [] = omega arith
length-drop (suc i) (x ∷ b) = omega (arith, length-drop i b)

-- An index that is neither before `i` nor negative.
abbrev From : ℕ → ℕ × ℕ → Bytes → Type 0
From i r rest = (i ≤ r.0) × (r.0 < 2 ^ 63)

-- A round of `skipProtocol` goes on from a later index.
skip_field_ends :
    (i depth : ℕ) (message : Bytes)
    → length message < 2 ^ 63
    → i < length message
    → Ends (From (suc i)) (skip_field (length message) depth (drop i message))
unfolding skip_field
skip_field_ends i depth message word inside =
    let Q = From (suc i) in
    then_ends (Shorter (drop i message)) Q read_varint _ (drop i message)
      (read_varint_ends (drop i message))
      (λ wire rest h.
        then_ends (Past (length message - length rest)) Q
          (skip_value (length message) (bit_and wire 7) depth) _ rest
          (skip_value_ends (length message) (bit_and wire 7) depth rest word)
          (λ r rest' past.
            check_ends Q (not (is_negative r.0)) invalid_length _ rest' tt
              (λ small. (omega (arith, length-drop i message), ground arith))))

-- The index that `skipProtocol` returns is past the key and not negative.
abbrev Skips : ℕ → Result WireError ℕ → Type 0
Skips i (ok j) = (i < j) × (j < 2 ^ 63)
Skips i (err e) = IsReported e

index_later : (i j : ℕ) (r : Result WireError ℕ) → i < j → Skips j r → Skips i r
index_later i j (ok k) h s = (omega arith, s.1)
index_later i j (err e) h s = s

skip_on_ends :
    (next : ℕ → ℕ → Result WireError ℕ) (i : ℕ) (r : Result WireError (ℕ × ℕ) × Bytes)
    → Ends (From (suc i)) r
    → ((j depth : ℕ) → i < j → j < 2 ^ 63 → Skips j (next j depth))
    → Skips i (skip_on next r.0)
skip_on_ends next i (err e, rest) h later = h
skip_on_ends next i (ok (j, depth), rest) h later = elim (Bool-cases (nat_eq depth 0)) [
  | inl done ↦ rw done (omega arith, h.1)
  | inr inside ↦
      rw inside (index_later i j (next j depth) (omega arith) (later j depth (omega arith) h.1))
]

pub skip_loop_ends :
    (rounds : ℕ) (message : Bytes) (i depth : ℕ)
    → length message < 2 ^ 63
    → i < 2 ^ 63
    → length message ≤ rounds + i
    → Skips i (skip_loop rounds message i depth)
unfolding skip_loop
skip_loop_ends zero message i depth word small enough =
    let over : is_at_end (length message) i ≡ true = ground arith in rw over tt
skip_loop_ends (suc rounds) message i depth word small enough =
    elim (Bool-cases (is_at_end (length message) i)) [
      | inl over ↦ rw (over, Skips) tt
      | inr inside ↦
          let positive : is_negative i ≡ false = ground arith in
          rw (inside, positive, Skips)
            (skip_on_ends (skip_loop rounds message) i _
              (skip_field_ends i depth message word (ground arith))
              (λ j d later small'. skip_loop_ends rounds message j d word small' (omega arith)))
    ]

pub skip_to_ends :
    (l : ℕ) (before : Bytes) (r : Result WireError ℕ)
    → l < 2 ^ 63
    → 0 < length before
    → Skips 0 r
    → Ends (Shorter before) (skip_to l before r)
skip_to_ends l before (err e) word filled s = s
skip_to_ends l before (ok n) word filled s =
    let index = u64 (l - length before + n) in
    elim (Bool-cases (is_negative n || is_negative index)) [
      | inl over ↦ rw over tt
      | inr under ↦ elim (Bool-cases (is_past l index)) [
        | inl beyond ↦ rw (under, beyond) tt
        | inr within ↦
            let positive : is_negative index ≡ false = ground arith in
            rw (under, within, positive) (omega (arith, length-drop n before))
      ]
    ]
