-- ===== src/Jobs/Rows.antt =====
-- The job table as a map from ids to rows.
use web_scraping_event_appli.Prelude.{
  ℕ, ◌+◌, Bool, true, false, some, List, [], ◌∷◌, length, select, All, In, All-In, DistinctBy, ◌==◌,
  ==_iff, ◌≡◌, ◌≢◌, refl, sym, ap, ◌∙◌, subst, arith, Bool-cases, inl, inr,
}
use web_scraping_event_appli.Jobs.{Job, save_into, find_job}

pub save-save :
    (j k : Job) (js : List Job) → j.id ≡ k.id → save_into j (save_into k js) ≡ save_into j js
save-save j k [] e = refl
save-save j k (x ∷ xs) e = ground (arith, save-save j k xs e)

pub find-save :
    (j : Job) (js : List Job) (k : Job)
    → In k js
    → k.id ≡ j.id
    → find_job j.id (save_into j js) ≡ some j
find-save j [] k i e = absurd i
find-save j (x ∷ xs) k (inl p) e = ground (arith, p)
find-save j (x ∷ xs) k (inr i) e = ground (arith, find-save j xs k i e)

pub find-save_ne :
    (j : Job) (id : ℕ) (js : List Job) → j.id ≢ id → find_job id (save_into j js) ≡ find_job id js
find-save_ne j id [] n = refl
find-save_ne j id (x ∷ xs) n = ground (arith, find-save_ne j id xs n)

pub In-save_ne : (j k : Job) (js : List Job) → k.id ≢ j.id → In k js → In k (save_into j js)
In-save_ne j k [] n i = absurd i
In-save_ne j k (x ∷ xs) n (inl e) = inl (ground (arith, e, n))
In-save_ne j k (x ∷ xs) n (inr i) = inr (In-save_ne j k xs n i)

pub In-find : (id : ℕ) (js : List Job) (j : Job) → find_job id js ≡ some j → In j js × (j.id ≡ id)
In-find id [] j e = cc
In-find id (x ∷ xs) j e = elim (Bool-cases (x.id == id)) [
  | inl t ↦ let same : x ≡ j = ground (arith, t, e) in (inl (sym same), ground (arith, t, same))
  | inr f ↦ let r = In-find id xs j (ground (arith, f, e)) in (inr r.0, r.1)
]

absent-save : (j : Job) (js : List Job) → All (λ k. j.id ≢ k.id) js → save_into j js ≡ js
absent-save j [] a = refl
absent-save j (x ∷ xs) a = ground (arith, a.0, absent-save j xs a.1)

-- Saving a row that no longer passes a test takes one from those that pass.
pub count-save :
    (p : Job → Bool) (j k : Job) (js : List Job)
    → DistinctBy (λ (x : Job). x.id) js
    → In k js
    → k.id ≡ j.id
    → p k ≡ true
    → p j ≡ false
    → length (select p (save_into j js)) + 1 ≡ length (select p js)
count-save p j k [] d i e t f = absurd i
count-save p j k (x ∷ xs) d (inl q) e t f =
    let rest : save_into j xs ≡ xs =
      absent-save j xs
        (subst (λ (n : ℕ). All (λ y. n ≢ y.id) xs) (ap (λ (y : Job). y.id) (sym q) ∙ e) d.0) in
    let here : (x.id == j.id) ≡ true = ground (arith, q, e) in
    let passes : p x ≡ true = cc in rw (here, rest, f, passes) (omega arith)
count-save p j k (x ∷ xs) d (inr i) e t f =
    let other : x.id ≢ k.id = All-In (λ (y : Job). x.id ≢ y.id) k xs d.0 i in
    let differ : (x.id == j.id) ≡ false = ground (arith, other, e) in
    let ih : length (select p (save_into j xs)) + 1 ≡ length (select p xs) =
      count-save p j k xs d.1 i e t f in
    rw differ (ground (arith, ih))

-- Saving a row that passes a test as the row before it did leaves their number.
pub count-save_same :
    (p : Job → Bool) (j k : Job) (js : List Job)
    → DistinctBy (λ (x : Job). x.id) js
    → In k js
    → k.id ≡ j.id
    → p j ≡ p k
    → length (select p (save_into j js)) ≡ length (select p js)
count-save_same p j k [] d i e t = absurd i
count-save_same p j k (x ∷ xs) d (inl q) e t =
    let rest : save_into j xs ≡ xs =
      absent-save j xs
        (subst (λ (n : ℕ). All (λ y. n ≢ y.id) xs) (ap (λ (y : Job). y.id) (sym q) ∙ e) d.0) in
    let here : (x.id == j.id) ≡ true = ground (arith, q, e) in
    let passes : p j ≡ p x = t ∙ ap p q in rw (here, rest, passes) (ground (arith, passes))
count-save_same p j k (x ∷ xs) d (inr i) e t =
    let other : x.id ≢ k.id = All-In (λ (y : Job). x.id ≢ y.id) k xs d.0 i in
    let differ : (x.id == j.id) ≡ false = ground (arith, other, e) in
    rw differ (ground (arith, count-save_same p j k xs d.1 i e t))

-- Saving a row under an id of the table keeps the ids.
pub All-save :
    (P : Job → Type 0) (j : Job) (js : List Job) → P j → All P js → All P (save_into j js)
All-save P j [] p a = tt
All-save P j (x ∷ xs) p a = elim (Bool-cases (x.id == j.id)) [
  | inl e ↦ rw e (p, All-save P j xs p a.1)
  | inr e ↦ rw e (a.0, All-save P j xs p a.1)
]

All-ids-save :
    (n : ℕ) (j : Job) (js : List Job)
    → All (λ (k : Job). n ≢ k.id) js
    → All (λ (k : Job). n ≢ k.id) (save_into j js)
All-ids-save n j [] a = tt
All-ids-save n j (x ∷ xs) a = elim (Bool-cases (x.id == j.id)) [
  | inl e ↦ rw e ((λ q. a.0 (q ∙ sym ((==_iff x.id j.id).0 e))), All-ids-save n j xs a.1)
  | inr e ↦ rw e (a.0, All-ids-save n j xs a.1)
]

pub DistinctBy-save :
    (j : Job) (js : List Job)
    → DistinctBy (λ (k : Job). k.id) js
    → DistinctBy (λ (k : Job). k.id) (save_into j js)
DistinctBy-save j [] d = tt
DistinctBy-save j (x ∷ xs) d = elim (Bool-cases (x.id == j.id)) [
  | inl e ↦ rw e (
    All-ids-save j.id j xs (subst (λ (n : ℕ). All (λ y. n ≢ y.id) xs) ((==_iff x.id j.id).0 e) d.0),
    DistinctBy-save j xs d.1,
  )
  | inr e ↦ rw e (All-ids-save x.id j xs d.0, DistinctBy-save j xs d.1)
]
