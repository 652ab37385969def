-- ===== src/Decision/Asks.antt =====
-- A group of rules asks for a property: it leaves no failure exactly if the property holds and
-- there was none before.
use web_scraping_event_appli.Prelude.{
  ℕ, ◌≤◌, String, Bool, true, false, List, [], ◌∷◌, ◌++◌, is_empty, leb, ◌≡◌, refl, arith, leb→le,
}
use web_scraping_event_appli.Decision.{
  Rule, Rules, Bound, Value, check, measured, at_least, at_most, when,
}

abbrev pub clean : {F : Type 0} → Rules F → Bool
clean rs = is_empty rs.failed

infixl 3 ◌and◌
pub record ◌and◌ (P Q : Type 0) : Type 0 where
  pub former : P
  pub latter : Q

infixl 3 ◌both◌
abbrev pub ◌both◌ : {P Q : Type 0} → P → Q → P and Q
p both q = record { former = p; latter = q }

pub record Asks {F : Type 0} (group : Rules F → Rules F) (P : Type 0) : Type 0 where
  pub needed : (rs : Rules F) → clean (group rs) ≡ true → P and (clean rs ≡ true)
  pub enough : (rs : Rules F) → P → clean rs ≡ true → clean (group rs) ≡ true

append-one_not_empty : {A : Type 0} (xs : List A) (x : A) → is_empty (xs ++ x ∷ []) ≡ false
append-one_not_empty [] x = refl
append-one_not_empty (y ∷ ys) x = refl

module _ {F : Type 0} where
  check_needed :
      (ok : Bool) (rule : Rule) (rs : Rules F)
      → clean (check ok rule rs) ≡ true
      → (ok ≡ true) and (clean rs ≡ true)
  unfolding check
  check_needed true rule rs h = record { former = refl; latter = h }
  check_needed false rule rs h = absurd (cc (h, append-one_not_empty rs.failed rule))

  check_enough :
      (ok : Bool) (rule : Rule) (rs : Rules F)
      → ok ≡ true
      → clean rs ≡ true
      → clean (check ok rule rs) ≡ true
  unfolding check
  check_enough true rule rs h k = k
  check_enough false rule rs h k = cc

  pub asks-check : (ok : Bool) (rule : Rule) → Asks {F = F} (check ok rule) (ok ≡ true)
  asks-check ok rule = record { needed = check_needed ok rule; enough = check_enough ok rule }

  pub asks-measured :
      (b : Bound) (name : String) (value threshold : Value F) (ok : Bool)
      → Asks (measured b name value threshold ok) (ok ≡ true)
  unfolding measured
  asks-measured b name value threshold ok = record {
    needed = λ rs. check_needed ok (Rule.bound b name) _;
    enough = λ rs. check_enough ok (Rule.bound b name) _;
  }

  pub asks-map : {g : Rules F → Rules F} {P Q : Type 0} → (P → Q) → (Q → P) → Asks g P → Asks g Q
  asks-map to from a = record {
    needed = λ rs h. let b = a.needed rs h in record { former = to b.former; latter = b.latter };
    enough = λ rs q. a.enough rs (from q);
  }

  pub asks-at_least : (name : String) (v t : ℕ) → Asks {F = F} (at_least name v t) (t ≤ v)
  asks-at_least name v t =
      asks-map (leb→le t v) (λ h. ground arith) (asks-measured _ name _ _ (leb t v))

  pub asks-at_most : (name : String) (v t : ℕ) → Asks {F = F} (at_most name v t) (v ≤ t)
  asks-at_most name v t =
      asks-map (leb→le v t) (λ h. ground arith) (asks-measured _ name _ _ (leb v t))

  -- A group that is run under a condition.
  pub asks-when :
      {g : Rules F → Rules F} {P : Type 0} (b : Bool) → Asks g P → Asks (when b g) (b ≡ true → P)
  asks-when true a = asks-map (λ p _. p) (λ f. f refl) a
  asks-when false a = record {
    needed = λ rs h. record { former = λ e. absurd cc; latter = h };
    enough = λ rs p k. k;
  }

  infixl 2 ◌then◌
  pub ◌then◌ :
      {g h : Rules F → Rules F} {P Q : Type 0}
      → Asks g P
      → Asks h Q
      → Asks (λ rs. h (g rs)) (P and Q)
  a then b = record {
    needed = λ rs k.
        let k1 = b.needed _ k in
        let k2 = a.needed rs k1.latter in
        record { former = record { former = k2.former; latter = k1.former }; latter = k2.latter };
    enough = λ rs pq k. b.enough _ pq.latter (a.enough rs pq.former k);
  }
