-- ===== src/Prelude/Sorting.antt =====
-- Python's stable sort, and what it keeps of a list.
use Prim.Native.Nat.{ℕ, zero, suc, ◌≤◌}
use mathlib.Core.Path.{◌≡◌, refl, sym, subst, ap}
use mathlib.Core.Logic.{◌≢◌, inl, inr}
use mathlib.Core.Bool.{Bool, true, false}
use mathlib.Core.Option.{Option, none, some}
use mathlib.Core.List.{List, [], ◌∷◌}
use native.Mathlib.Omega.{arith}
use web_scraping_event_appli.Prelude.Tests.{if◌then◌else◌, Bool-cases}
use web_scraping_event_appli.Prelude.Lists.{length, select, All, In, DistinctBy}

module _ {A : Type 0} where
  -- `before x y` is `key(x) < key(y)`.
  abbrev pub insert_sorted : (A → A → Bool) → A → List A → List A
  insert_sorted before x [] = x ∷ []
  insert_sorted before x (y ∷ ys) =
      let rest = insert_sorted before x ys in if before y x then y ∷ rest else x ∷ y ∷ ys

  abbrev pub sort : (A → A → Bool) → List A → List A
  sort before [] = []
  sort before (x ∷ xs) = insert_sorted before x (sort before xs)

  -- `xs[:n]`.
  abbrev pub take : ℕ → List A → List A
  take zero xs = []
  take (suc n) [] = []
  take (suc n) (x ∷ xs) = x ∷ take n xs

  abbrev pub first : List A → Option A
  first [] = none
  first (x ∷ xs) = some x

module _ {A : Type 0} (before : A → A → Bool) where
  pub All-insert_sorted :
      (P : A → Type 0) (x : A) (xs : List A) → P x → All P xs → All P (insert_sorted before x xs)
  All-insert_sorted P x [] p h = (p, tt)
  All-insert_sorted P x (y ∷ ys) p h = elim (Bool-cases (before y x)) [
    | inl e ↦ rw e (h.0, All-insert_sorted P x ys p h.1)
    | inr e ↦ rw e (p, h)
  ]

  pub All-sort : (P : A → Type 0) (xs : List A) → All P xs → All P (sort before xs)
  All-sort P [] h = h
  All-sort P (x ∷ xs) h = All-insert_sorted P x (sort before xs) h.0 (All-sort P xs h.1)

  insert_sorted-All :
      (P : A → Type 0) (x : A) (xs : List A) → All P (insert_sorted before x xs) → P x × All P xs
  insert_sorted-All P x [] h = h
  insert_sorted-All P x (y ∷ ys) h = elim (Bool-cases (before y x)) [
    | inl e ↦
        let k : P y × All P (insert_sorted before x ys) = rw e at h in
        let r = insert_sorted-All P x ys k.1 in (r.0, (k.0, r.1))
    | inr e ↦ let k : P x × (P y × All P ys) = rw e at h in k
  ]

  pub sort-All : (P : A → Type 0) (xs : List A) → All P (sort before xs) → All P xs
  sort-All P [] h = h
  sort-All P (x ∷ xs) h =
      let r = insert_sorted-All P x (sort before xs) h in (r.0, sort-All P xs r.1)

  length-insert_sorted :
      (x : A) (xs : List A) → length (insert_sorted before x xs) ≡ suc (length xs)
  length-insert_sorted x [] = refl
  length-insert_sorted x (y ∷ ys) = ground (arith, length-insert_sorted x ys)

  pub length-sort : (xs : List A) → length (sort before xs) ≡ length xs
  length-sort [] = refl
  length-sort (x ∷ xs) = ground (arith, length-insert_sorted x (sort before xs), length-sort xs)

  DistinctBy-insert_sorted :
      (key : A → ℕ) (x : A) (xs : List A)
      → All (λ y. key x ≢ key y) xs
      → DistinctBy key xs
      → DistinctBy key (insert_sorted before x xs)
  DistinctBy-insert_sorted key x [] a d = (tt, tt)
  DistinctBy-insert_sorted key x (y ∷ ys) a d = elim (Bool-cases (before y x)) [
    | inl e ↦ rw e (
      All-insert_sorted (λ z. key y ≢ key z) x ys (λ q. a.0 (sym q)) d.0,
      DistinctBy-insert_sorted key x ys a.1 d.1,
    )
    | inr e ↦ rw e (a, d)
  ]

  pub DistinctBy-sort :
      (key : A → ℕ) (xs : List A) → DistinctBy key xs → DistinctBy key (sort before xs)
  DistinctBy-sort key [] d = d
  DistinctBy-sort key (x ∷ xs) d =
      DistinctBy-insert_sorted key x (sort before xs) (All-sort (λ y. key x ≢ key y) xs d.0)
        (DistinctBy-sort key xs d.1)

module _ {A : Type 0} (before : A → A → Bool) (p : A → Bool) where
  select-insert_sorted :
      (x : A) (xs : List A)
      → length (select p (insert_sorted before x xs)) ≡ length (select p (x ∷ xs))
  select-insert_sorted x [] = refl
  select-insert_sorted x (y ∷ ys) = ground (arith, select-insert_sorted x ys)

  pub length-select-sort : (xs : List A) → length (select p (sort before xs)) ≡ length (select p xs)
  length-select-sort [] = refl
  length-select-sort (x ∷ xs) =
      ground (arith, select-insert_sorted x (sort before xs), length-select-sort xs)

module _ {A : Type 0} where
  pub All-select : (P : A → Type 0) (p : A → Bool) (xs : List A) → All P xs → All P (select p xs)
  All-select P p [] h = h
  All-select P p (x ∷ xs) h = elim (Bool-cases (p x)) [
    | inl e ↦ rw e (h.0, All-select P p xs h.1)
    | inr e ↦ rw e (All-select P p xs h.1)
  ]

  pub select-passes : (p : A → Bool) (xs : List A) → All (λ x. p x ≡ true) (select p xs)
  select-passes p [] = tt
  select-passes p (x ∷ xs) = elim (Bool-cases (p x)) [
    | inl e ↦ rw e (e, select-passes p xs)
    | inr e ↦ rw e (select-passes p xs)
  ]

  pub DistinctBy-select :
      (key : A → ℕ) (p : A → Bool) (xs : List A) → DistinctBy key xs → DistinctBy key (select p xs)
  DistinctBy-select key p [] d = d
  DistinctBy-select key p (x ∷ xs) d = elim (Bool-cases (p x)) [
    | inl e ↦ rw e (All-select (λ y. key x ≢ key y) p xs d.0, DistinctBy-select key p xs d.1)
    | inr e ↦ rw e (DistinctBy-select key p xs d.1)
  ]

  pub All-take : (P : A → Type 0) (n : ℕ) (xs : List A) → All P xs → All P (take n xs)
  All-take P zero xs h = tt
  All-take P (suc n) [] h = tt
  All-take P (suc n) (x ∷ xs) h = (h.0, All-take P n xs h.1)

  pub DistinctBy-take :
      (key : A → ℕ) (n : ℕ) (xs : List A) → DistinctBy key xs → DistinctBy key (take n xs)
  DistinctBy-take key zero xs d = tt
  DistinctBy-take key (suc n) [] d = tt
  DistinctBy-take key (suc n) (x ∷ xs) d =
      (All-take (λ y. key x ≢ key y) n xs d.0, DistinctBy-take key n xs d.1)

  -- `min(n, len(xs))` elements are taken.
  pub length-take-le : (n : ℕ) (xs : List A) → n ≤ length xs → length (take n xs) ≡ n
  length-take-le zero xs h = refl
  length-take-le (suc n) [] h = absurd (omega (arith, h))
  length-take-le (suc n) (x ∷ xs) h = ap suc (length-take-le n xs (omega (arith, h)))

  pub length-take-ge : (n : ℕ) (xs : List A) → length xs ≤ n → length (take n xs) ≡ length xs
  length-take-ge zero [] h = refl
  length-take-ge zero (x ∷ xs) h = absurd (omega (arith, h))
  length-take-ge (suc n) [] h = refl
  length-take-ge (suc n) (x ∷ xs) h = ap suc (length-take-ge n xs (omega (arith, h)))

  pub All-each : (P : A → Type 0) (xs : List A) → ((a : A) → In a xs → P a) → All P xs
  All-each P [] h = tt
  All-each P (x ∷ xs) h = (h x (inl refl), All-each P xs λ a i. h a (inr i))

  -- Every element of a list is in it.
  pub All-self : (xs : List A) → All (λ x. In x xs) xs
  All-self xs = All-each (λ x. In x xs) xs λ a i. i

  pub All-both : (P Q : A → Type 0) (xs : List A) → All P xs → All Q xs → All (λ x. P x × Q x) xs
  All-both P Q [] h k = tt
  All-both P Q (x ∷ xs) h k = ((h.0, k.0), All-both P Q xs h.1 k.1)

  pub All-weaken : (P Q : A → Type 0) → ((a : A) → P a → Q a) → (xs : List A) → All P xs → All Q xs
  All-weaken P Q f [] h = tt
  All-weaken P Q f (x ∷ xs) h = (f x h.0, All-weaken P Q f xs h.1)

-- A sorted list starts with a least element.
module _ {A : Type 0} (before : A → A → Bool)
    (asym : (x y : A) → before x y ≡ true → before y x ≡ false)
    (cotrans : (x y z : A) → before x y ≡ false → before y z ≡ false → before x z ≡ false) where
  abbrev IsOrdered : List A → Type 0
  IsOrdered [] = Unit
  IsOrdered (x ∷ xs) = All (λ y. before y x ≡ false) xs × IsOrdered xs

  insert_sorted-IsOrdered :
      (x : A) (xs : List A) → IsOrdered xs → IsOrdered (insert_sorted before x xs)
  insert_sorted-IsOrdered x [] o = (tt, tt)
  insert_sorted-IsOrdered x (y ∷ ys) o = elim (Bool-cases (before y x)) [
    | inl e ↦ rw e (
      All-insert_sorted before (λ z. before z y ≡ false) x ys (asym y x e) o.0,
      insert_sorted-IsOrdered x ys o.1,
    )
    | inr e ↦ rw e (
      (
        e,
        All-weaken (λ z. before z y ≡ false) (λ z. before z x ≡ false) (λ z q. cotrans z y x q e) ys
            o.0,
      ),
      o,
    )
  ]

  pub sort-IsOrdered : (xs : List A) → IsOrdered (sort before xs)
  sort-IsOrdered [] = tt
  sort-IsOrdered (x ∷ xs) = insert_sorted-IsOrdered x (sort before xs) (sort-IsOrdered xs)

  pub first-least :
      (xs : List A) (m : A) → first (sort before xs) ≡ some m → All (λ y. before y m ≡ false) xs
  first-least xs m e =
      sort-All before (λ y. before y m ≡ false) xs (least (sort before xs) (sort-IsOrdered xs) e)
    where
      itself : (x : A) → before x x ≡ false
      itself x = elim (Bool-cases (before x x)) [
        | inl t ↦ absurd (let f : before x x ≡ false = asym x x t in cc)
        | inr f ↦ f
      ]

      least : (l : List A) → IsOrdered l → first l ≡ some m → All (λ y. before y m ≡ false) l
      least [] o q = tt
      least (y ∷ ys) o q =
          let same : y ≡ m = cc in
          subst (λ (k : A). All (λ z. before z k ≡ false) (y ∷ ys)) same (itself y, o.0)
