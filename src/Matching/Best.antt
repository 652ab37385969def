-- ===== src/Matching/Best.antt =====
-- Which match repositories/onboarding.py picks: a least one by lifecycle, match type and id.
use web_scraping_event_appli.Prelude.{
  String, str_eq, eq_iff, true, false, Option, none, some, List, [], ◌∷◌, sort, first, first-least,
  sort-All, All, All-sort, In, All-weaken, All-self, subst, ap, ◌≡◌, refl, arith, Bool-cases, inl,
  inr, ◌⊎◌,
}
use web_scraping_event_appli.Website.{Website}
use web_scraping_event_appli.Matching.{
  Urls, MatchType, Priority, WebsiteMatch, before, by_id, by_priority, match_of, match_type_for,
  add_match, canonical_origin, matches_among, find_website_matches, find_website_match,
  lifecycle_rank, match_type_rank,
}

before-asym : (a b : Priority) → before a b ≡ true → before b a ≡ false
before-asym a b h = ground arith

before-cotrans : (a b c : Priority) → before a b ≡ false → before b c ≡ false → before a c ≡ false
before-cotrans a b c h k = ground arith

-- Where a website stands, matched by a rule: by lifecycle, then by the rule, then by id.
abbrev pub rank : Website → MatchType → Priority
rank w t = record {
  lifecycle = lifecycle_rank w;
  match_type = match_type_rank t;
  website_id = w.id;
}

module _ (u : Urls) (websites : List Website) (url : String) where
  -- The rule by which the URL belongs to the website.
  abbrev pub rule : Website → Option MatchType
  rule w = match_type_for u w url (canonical_origin u url)

  -- The match is of a website of the table, under its rule.
  abbrev pub IsMatch : WebsiteMatch → Type 0
  IsMatch m =
      In m.website websites
      × (rule m.website ≡ some m.match_type)
      × (m ≡ match_of m.website m.match_type)

  add-IsMatch :
      (w : Website) (o : Option MatchType) (matches : List WebsiteMatch)
      → In w websites
      → rule w ≡ o
      → All IsMatch matches
      → All IsMatch (add_match w o matches)
  unfolding match_of
  add-IsMatch w none matches i e h = h
  add-IsMatch w (some t) matches i e h = ((i, e, refl), h)

  matches-IsMatch :
      (ws : List Website)
      → All (λ w. In w websites) ws
      → All IsMatch (matches_among u url (canonical_origin u url) ws)
  matches-IsMatch [] h = tt
  matches-IsMatch (w ∷ ws) h = add-IsMatch w (rule w) _ h.0 refl (matches-IsMatch ws h.1)

  -- The predicate holds of the website's match, if it has one.
  abbrev pub IfMatched : (WebsiteMatch → Type 0) → Website → Option MatchType → Type 0
  IfMatched P w none = Unit
  IfMatched P w (some t) = P (match_of w t)

  add-All :
      (P : WebsiteMatch → Type 0) (w : Website) (o : Option MatchType) (matches : List WebsiteMatch)
      → All P (add_match w o matches)
      → IfMatched P w o × All P matches
  add-All P w none matches h = (tt, h)
  add-All P w (some t) matches h = h

  matches-All :
      (P : WebsiteMatch → Type 0) (ws : List Website)
      → All P (matches_among u url (canonical_origin u url) ws)
      → All (λ w. IfMatched P w (rule w)) ws
  matches-All P [] h = tt
  matches-All P (w ∷ ws) h = let r = add-All P w (rule w) _ h in (r.0, matches-All P ws r.1)

  unmatched : (w : Website) (o : Option MatchType) → IfMatched (λ m. ⊥) w o → o ≡ none
  unmatched w none h = refl
  unmatched w (some t) h = absurd h

  nothing : (ms : List WebsiteMatch) → first ms ≡ none → All (λ m. ⊥) ms
  nothing [] e = tt
  nothing (m ∷ ms) e = cc

  start :
      (P : WebsiteMatch → Type 0) (ms : List WebsiteMatch) (m : WebsiteMatch)
      → first ms ≡ some m
      → All P ms
      → P m
  start P [] m e h = cc
  start P (n ∷ ms) m e h = let same : n ≡ m = cc in subst P same h.0

  -- The website, matched by the rule, does not rank before the match.
  abbrev pub IsNoBetter : WebsiteMatch → Website → Option MatchType → Type 0
  IsNoBetter m w none = Unit
  IsNoBetter m w (some t) = before (rank w t) (rank m.website m.match_type) ≡ false

  abbrev pub IsBest : Option WebsiteMatch → Type 0
  IsBest none = (u.canonical_url url ≡ "") ⊎ All (λ w. rule w ≡ none) websites
  IsBest (some m) = IsMatch m × All (λ w. IsNoBetter m w (rule w)) websites

  ranked :
      (m : WebsiteMatch)
      → m ≡ match_of m.website m.match_type
      → (w : Website) (o : Option MatchType)
      → IfMatched (λ k. before k.priority m.priority ≡ false) w o
      → IsNoBetter m w o
  unfolding match_of
  ranked m e w none h = tt
  ranked m e w (some t) h =
      subst (λ q. before (rank w t) q ≡ false) (ap (λ (k : WebsiteMatch). k.priority) e) h

  -- A match is of a website that the URL belongs to, and none that the URL belongs to comes before
  -- it by lifecycle, match type and id; there is none only if the URL has no canonical form or
  -- belongs to no website.
  pub find_website_match-IsBest : IsBest (find_website_match u websites url)
  unfolding find_website_match find_website_matches
  find_website_match-IsBest = elim (Bool-cases (str_eq (u.canonical_url url) "")) [
    | inl e ↦ rw e (inl (ground (arith, eq_iff (u.canonical_url url) "")))
    | inr e ↦ rw e (go (first (sort by_priority found)) refl)
  ]
    where
      found : List WebsiteMatch
      found = matches_among u url (canonical_origin u url) (sort by_id websites)

      go : (o : Option WebsiteMatch) → first (sort by_priority found) ≡ o → IsBest o
      go none e = inr (
          sort-All by_id (λ w. rule w ≡ none) websites
            (All-weaken (λ w. IfMatched (λ m. ⊥) w (rule w)) (λ w. rule w ≡ none)
              (λ w. unmatched w (rule w)) (sort by_id websites)
              (matches-All (λ m. ⊥) (sort by_id websites)
                (sort-All by_priority (λ m. ⊥) found (nothing (sort by_priority found) e)))))
      go (some m) e =
          let is_match : IsMatch m = start IsMatch (sort by_priority found) m e (
            All-sort by_priority IsMatch found (
              matches-IsMatch (sort by_id websites)
                (All-sort by_id (λ w. In w websites) websites (All-self websites)))) in
          (
            is_match,
            sort-All by_id (λ w. IsNoBetter m w (rule w)) websites
                (All-weaken (λ w. IfMatched (λ k. before k.priority m.priority ≡ false) w (rule w))
                  (λ w. IsNoBetter m w (rule w)) (λ w. ranked m is_match.2 w (rule w))
                  (sort by_id websites)
                  (matches-All (λ k. before k.priority m.priority ≡ false) (sort by_id websites)
                    (first-least by_priority (λ a b. before-asym a.priority b.priority)
                      (λ a b c. before-cotrans a.priority b.priority c.priority) found m e))),
          )
