-- ===== src/Threads/Slugs.antt =====
-- The ids that a new thread may take, and why one of them is free: `base`, `base-2`, `base-3` and
-- so on are distinct, and only finitely many are taken.
use the_watcher.Prelude.{
  ℕ, zero, suc, ◌+◌, ◌-◌, ◌*◌, ◌/◌, ◌%◌, ◌≤◌, ◌<◌, ◌≡◌, ◌≢◌, refl, ap, sym, ◌∙◌, ◌⊎◌, inl, inr,
  true, not,
}
use the_watcher.Prelude.{
  List, [], ◌∷◌, ◌++◌, arith, length, if◌then◌else◌, ◌==◌, Comparable, nat_is_eq, list_is_eq,
  nat_eq, ltb, contains, keep_if, length-keep_if, contains-keep_if, Distinct, Bool-cases,
}
use the_watcher.Text.{Text}

-- `str(n)`: at most `fuel` digits.
unfoldable pub digits_in : ℕ → ℕ → Text → Text
digits_in zero n rest = rest
digits_in (suc fuel) n rest =
    let more = digits_in fuel (n / 10) ((48 + n % 10) ∷ rest) in
    if ltb n 10 then (48 + n) ∷ rest else more

unfoldable pub digits : ℕ → Text
digits n = digits_in (suc n) n []

-- The number that digits stand for, after those that `acc` stands for.
unfoldable pub value_of : ℕ → Text → ℕ
value_of acc [] = acc
value_of acc (d ∷ t) = value_of (acc * 10 + (d - 48)) t

value_of_acc : {m n : ℕ} (t : Text) → m ≡ n → value_of m t ≡ value_of n t
value_of_acc t h = ap (λ k. value_of k t) h

-- What `digits_in` writes before `rest` stands for `n`.
value_of-digits_in :
    (fuel n : ℕ) (rest : Text) → n < fuel → value_of 0 (digits_in fuel n rest) ≡ value_of n rest
unfolding digits_in value_of
value_of-digits_in zero n rest lt = absurd (omega arith)
value_of-digits_in (suc fuel) n rest lt = elim (Bool-cases (ltb n 10)) [
  | inl e ↦ rw e (value_of_acc rest (omega arith))
  | inr e ↦ rw e (
      value_of-digits_in fuel (n / 10) ((48 + n % 10) ∷ rest) (ground arith)
      ∙ value_of_acc rest (omega arith))
]

pub value_of-digits : (n : ℕ) → value_of 0 (digits n) ≡ n
unfolding digits value_of
value_of-digits n = value_of-digits_in (suc n) n [] (omega arith)

-- A suffix is none, or a number.
unfoldable pub candidate : Text → ℕ → Text
candidate base n = let numbered = base ++ (45 ∷ digits n) in if nat_eq n 1 then base else numbered

append-injective_right : (base s t : Text) → base ++ s ≡ base ++ t → s ≡ t
append-injective_right [] s t h = h
append-injective_right (c ∷ base) s t h = append-injective_right base s t (cc h)

append-ne_self : (base : Text) (c : ℕ) (t : Text) → base ++ (c ∷ t) ≢ base
append-ne_self [] c t h = cc h
append-ne_self (d ∷ base) c t h = append-ne_self base c t (cc h)

abbrev numbered : Text → ℕ → Text
numbered base n = base ++ (45 ∷ digits n)

candidate-cases :
    (base : Text) (n : ℕ)
    → ((n ≡ 1) × (candidate base n ≡ base)) ⊎ (candidate base n ≡ numbered base n)
unfolding candidate
candidate-cases base n = elim (Bool-cases (nat_eq n 1)) [
  | inl e ↦ inl (ground arith, rw e refl)
  | inr e ↦ inr (rw e refl)
]

numbered-injective : (base : Text) (m n : ℕ) → numbered base m ≡ numbered base n → m ≡ n
numbered-injective base m n h =
    let same_digits : digits m ≡ digits n =
      cc (append-injective_right base (45 ∷ digits m) (45 ∷ digits n) h) in
    sym (value_of-digits m) ∙ ap (value_of 0) same_digits ∙ value_of-digits n

-- Different suffixes make different ids.
pub candidate-injective : (base : Text) (m n : ℕ) → candidate base m ≡ candidate base n → m ≡ n
candidate-injective base m n h = elim (candidate-cases base m) [
  | inl (e, p) ↦ elim (candidate-cases base n) [
    | inl (f, q) ↦ e ∙ sym f
    | inr q ↦ absurd (append-ne_self base 45 (digits n) (sym q ∙ sym h ∙ p))
  ]
  | inr p ↦ elim (candidate-cases base n) [
    | inl (f, q) ↦ absurd (append-ne_self base 45 (digits m) (sym p ∙ h ∙ q))
    | inr q ↦ numbered-injective base m n (sym p ∙ h ∙ q)
  ]
]

module _ {ℓ} {A : Type ℓ} ⦃e : Comparable A⦄ where
  length-keep_if_lt :
      (ys : List A) (x : A)
      → contains ys x ≡ true
      → length (keep_if (λ y. not (y == x)) ys) < length ys
  unfolding keep_if
  length-keep_if_lt [] x h = absurd (cc h)
  length-keep_if_lt (y ∷ ys) x h =
      ground (arith, length-keep_if_lt ys x, length-keep_if (λ y. not (y == x)) ys)

  -- Distinct items that all stand in a list are no more than its items.
  pub length-Distinct :
      (xs ys : List A)
      → Distinct xs
      → ((a : A) → contains xs a ≡ true → contains ys a ≡ true)
      → length xs ≤ length ys
  length-Distinct [] ys d h = omega arith
  length-Distinct (x ∷ xs) ys d h =
      let kept = keep_if (λ y. not (y == x)) ys in
      let fewer : length kept < length ys =
        length-keep_if_lt ys x (h x (ground (arith, e.equals_iff x x))) in
      let all_kept : (a : A) → contains xs a ≡ true → contains kept a ≡ true = λ a g. ground (
        arith,
        contains-keep_if (λ y. not (y == x)) ys a,
        h a,
        e.equals_iff a x,
        e.equals_iff x a,
      ) in
      omega (arith, fewer, length-Distinct xs kept d.1 all_kept)
