-- ===== src/Events/Dedup.antt =====
-- extraction/dedup.py: candidates of one run that share a fingerprint are kept once.
use web_scraping_event_appli.Prelude.{
  ℕ, suc, ◌+◌, String, str_eq, eq_iff, eq_refl, ◌||◌, Bool, true, false, Option, List, [], ◌∷◌,
  ◌++◌, map, if◌then◌else◌, any, length, length-append, All, In, DistinctBy, ◌≡◌, ◌≢◌, refl, ap,
  ◌∙◌, subst, sym, arith, inl, inr,
}
use web_scraping_event_appli.Events.{Text, EventCandidate, candidate_fingerprint}

-- The dictionary `seen`, in its order of insertion.
abbrev pub Seen : Type 0
Seen = List (String × EventCandidate)

pub record DedupOutcome : Type 0 where
  pub kept : List EventCandidate
  pub duplicates_skipped : ℕ

abbrev pub has_key : String → Seen → Bool
has_key k = any (λ entry. str_eq entry.0 k)

abbrev pub collect : (fingerprint : EventCandidate → String) → EventCandidate → Seen × ℕ → Seen × ℕ
collect fingerprint c (seen, duplicates) =
    if has_key (fingerprint c) seen
    then (seen, duplicates + 1)
    else (seen ++ (fingerprint c, c) ∷ [], duplicates)

abbrev pub collapse :
    (fingerprint : EventCandidate → String) → Seen × ℕ → List EventCandidate → Seen × ℕ
collapse fingerprint state [] = state
collapse fingerprint state (c ∷ cs) = collapse fingerprint (collect fingerprint c state) cs

unfoldable pub dedupe_within_run :
    Text → List EventCandidate → (website_id : ℕ) → (city_id : Option ℕ) → DedupOutcome
dedupe_within_run t candidates website_id city =
    let (seen, duplicates) =
      collapse (λ c. candidate_fingerprint t c website_id city) ([], 0) candidates in
    record { kept = map (λ entry. entry.1) seen; duplicates_skipped = duplicates }

module _ (fingerprint : EventCandidate → String) where
  length-map : (seen : Seen) → length (map (λ entry. entry.1) seen) ≡ length seen
  length-map [] = refl
  length-map (s ∷ ss) = ap suc (length-map ss)

  abbrev counted : Seen × ℕ → ℕ
  counted state = length state.0 + state.1

  collect-counted :
      (c : EventCandidate) (state : Seen × ℕ)
      → counted (collect fingerprint c state) ≡ suc (counted state)
  collect-counted c (seen, d) = ground (arith, length-append seen ((fingerprint c, c) ∷ []))

  collapse-counted :
      (cs : List EventCandidate) (state : Seen × ℕ)
      → counted (collapse fingerprint state cs) ≡ counted state + length cs
  collapse-counted [] state = omega arith
  collapse-counted (c ∷ cs) state =
      omega (arith, collapse-counted cs (collect fingerprint c state), collect-counted c state)

  -- The entries have their fingerprints as keys, and the keys differ.
  abbrev pub IsKeyed : Seen → Type 0
  IsKeyed = All (λ entry. entry.0 ≡ fingerprint entry.1)

  has_key-All :
      (k : String) (seen : Seen) → has_key k seen ≡ false → All (λ entry. entry.0 ≢ k) seen
  has_key-All k [] h = tt
  has_key-All k (s ∷ ss) h =
      (λ e. ground (arith, e, (eq_iff s.0 k).1 e, h), has_key-All k ss (ground arith))

  All-append_one :
      (P : String × EventCandidate → Type 0) (seen : Seen) (entry : String × EventCandidate)
      → All P seen
      → P entry
      → All P (seen ++ entry ∷ [])
  All-append_one P [] entry h p = (p, tt)
  All-append_one P (s ∷ ss) entry (h, hs) p = (h, All-append_one P ss entry hs p)

  distinct-append :
      (seen : Seen) (k : String) (c : EventCandidate)
      → All (λ entry. entry.0 ≢ k) seen
      → DistinctBy (λ entry. entry.0) seen
      → DistinctBy (λ entry. entry.0) (seen ++ (k, c) ∷ [])
  distinct-append [] k c h d = (tt, tt)
  distinct-append (s ∷ ss) k c (new, news) (apart, d) =
      (All-append_one (λ y. s.0 ≢ y.0) ss (k, c) apart new, distinct-append ss k c news d)

  pub record IsDictionary (seen : Seen) : Type 0 where
    pub keyed : IsKeyed seen
    pub distinct : DistinctBy (λ entry. entry.0) seen

  either-IsDictionary :
      (b : Bool) (x y : Seen × ℕ)
      → (b ≡ true → IsDictionary x.0)
      → (b ≡ false → IsDictionary y.0)
      → IsDictionary (if b then x else y).0
  either-IsDictionary true x y h k = h refl
  either-IsDictionary false x y h k = k refl

  collect-IsDictionary :
      (c : EventCandidate) (state : Seen × ℕ)
      → IsDictionary state.0
      → IsDictionary (collect fingerprint c state).0
  collect-IsDictionary c (seen, d) h =
      either-IsDictionary (has_key (fingerprint c) seen) _ _ (λ _. h)
        (λ new. record {
          keyed = All-append_one _ seen (fingerprint c, c) h.keyed refl;
          distinct = distinct-append seen (fingerprint c) c (has_key-All _ seen new) h.distinct;
        })

  collapse-IsDictionary :
      (cs : List EventCandidate) (state : Seen × ℕ)
      → IsDictionary state.0
      → IsDictionary (collapse fingerprint state cs).0
  collapse-IsDictionary [] state h = h
  collapse-IsDictionary (c ∷ cs) state h =
      collapse-IsDictionary cs _ (collect-IsDictionary c state h)

  has_key-append :
      (k : String) (seen : Seen) (entry : String × EventCandidate)
      → has_key k (seen ++ entry ∷ []) ≡ (has_key k seen || str_eq entry.0 k)
  has_key-append k [] entry = ground arith
  has_key-append k (s ∷ ss) entry = ground (arith, has_key-append k ss entry)

  collect-keeps :
      (k : String) (c : EventCandidate) (state : Seen × ℕ)
      → has_key k state.0 ≡ true
      → has_key k (collect fingerprint c state).0 ≡ true
  collect-keeps k c (seen, d) h = ground (arith, h, has_key-append k seen (fingerprint c, c))

  collapse-keeps :
      (k : String) (cs : List EventCandidate) (state : Seen × ℕ)
      → has_key k state.0 ≡ true
      → has_key k (collapse fingerprint state cs).0 ≡ true
  collapse-keeps k [] state h = h
  collapse-keeps k (c ∷ cs) state h = collapse-keeps k cs _ (collect-keeps k c state h)

  collect-adds :
      (c : EventCandidate) (state : Seen × ℕ)
      → has_key (fingerprint c) (collect fingerprint c state).0 ≡ true
  collect-adds c (seen, d) =
      ground
        (arith, has_key-append (fingerprint c) seen (fingerprint c, c), eq_refl (fingerprint c))

  collapse-adds :
      (c : EventCandidate) (cs : List EventCandidate) (state : Seen × ℕ)
      → In c cs
      → has_key (fingerprint c) (collapse fingerprint state cs).0 ≡ true
  collapse-adds c [] state i = absurd i
  collapse-adds c (x ∷ cs) state (inl e) = collapse-keeps (fingerprint c) cs _ (
      subst (λ y. has_key (fingerprint y) (collect fingerprint x state).0 ≡ true) (sym e)
        (collect-adds x state))
  collapse-adds c (x ∷ cs) state (inr i) = collapse-adds c cs _ i

  -- From the dictionary to its values.
  abbrev pub values : Seen → List EventCandidate
  values = map (λ entry. entry.1)

  values-apart :
      (k : String) (seen : Seen)
      → IsKeyed seen
      → All (λ entry. k ≢ entry.0) seen
      → All (λ c. k ≢ fingerprint c) (values seen)
  values-apart k [] key h = tt
  values-apart k (s ∷ ss) (key, keys) (h, hs) = (λ e. h (e ∙ sym key), values-apart k ss keys hs)

  values-distinct : (seen : Seen) → IsDictionary seen → DistinctBy fingerprint (values seen)
  values-distinct [] h = tt
  values-distinct (s ∷ ss) h = (
    subst (λ k. All (λ c. k ≢ fingerprint c) (values ss)) h.keyed.0
        (values-apart s.0 ss h.keyed.1 h.distinct.0),
    values-distinct ss (record { keyed = h.keyed.1; distinct = h.distinct.1 }),
  )

  values-has :
      (k : String) (seen : Seen)
      → IsKeyed seen
      → has_key k seen ≡ any (λ c. str_eq (fingerprint c) k) (values seen)
  values-has k [] h = refl
  values-has k (s ∷ ss) (key, keys) = ground (arith, ap (λ f. str_eq f k) key, values-has k ss keys)

-- What a run makes of its candidates.
pub record IsCollapsed (fingerprint : EventCandidate → String) (candidates : List EventCandidate)
    (outcome : DedupOutcome) : Type 0 where
  pub counted : length outcome.kept + outcome.duplicates_skipped ≡ length candidates
  pub distinct : DistinctBy fingerprint outcome.kept
  pub covered :
      (c : EventCandidate)
      → In c candidates
      → any (λ k. str_eq (fingerprint k) (fingerprint c)) outcome.kept ≡ true

-- Every candidate is either kept or counted as a duplicate; no two that are kept share a
-- fingerprint; and each candidate has one that is kept with its fingerprint.
pub dedupe-IsCollapsed :
    (t : Text) (candidates : List EventCandidate) (website_id : ℕ) (city_id : Option ℕ)
    → IsCollapsed
        (λ c. candidate_fingerprint t c website_id city_id)
        candidates
        (dedupe_within_run t candidates website_id city_id)
unfolding dedupe_within_run
dedupe-IsCollapsed t candidates website_id city_id =
    let fingerprint = λ (c : EventCandidate). candidate_fingerprint t c website_id city_id in
    let state = collapse fingerprint ([], 0) candidates in
    let dictionary =
      collapse-IsDictionary fingerprint candidates ([], 0) (record { keyed = tt; distinct = tt }) in
    record {
      counted =
          omega (
            arith,
            collapse-counted fingerprint candidates ([], 0),
            length-map fingerprint state.0,
          );
      distinct = values-distinct fingerprint state.0 dictionary;
      covered = λ c i.
          sym (values-has fingerprint (fingerprint c) state.0 dictionary.keyed)
          ∙ collapse-adds fingerprint c candidates ([], 0) i;
    }
