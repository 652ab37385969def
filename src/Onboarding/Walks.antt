-- ===== src/Onboarding/Walks.antt =====
-- core/onboarding.py: what any sequence of allowed moves can and cannot do.
use web_scraping_event_appli.Prelude.{
  Bool, true, false, List, [], ◌∷◌, In, ◌≡◌, ◌≢◌, ◌⊎◌, inl, inr, refl, sym, subst, arith,
}
use web_scraping_event_appli.Onboarding.{
  Status, draft, detecting, detected, needs_review, approved, active, inactive, unsupported,
  failing, archived, can_transition,
}

-- A walk through the states, each move allowed by the table.
pub data Walk : Status → List Status → Status → Type 0 where
  stay : {s : Status} → Walk s [] s
  move :
      {s t u : Status} {ts : List Status}
      → can_transition s t ≡ true
      → Walk t ts u
      → Walk s (t ∷ ts) u

-- The states before an approval.
abbrev pub is_pre_approval : Status → Bool
is_pre_approval draft = true
is_pre_approval detecting = true
is_pre_approval detected = true
is_pre_approval needs_review = true
is_pre_approval unsupported = true
is_pre_approval _ = false

-- A move out of the states before approval goes to another of them, to approved or to archived.
leave_pre :
    (s t : Status)
    → is_pre_approval s ≡ true
    → can_transition s t ≡ true
    → (is_pre_approval t ≡ true) ⊎ ((t ≡ approved) ⊎ (t ≡ archived))
unfolding can_transition
leave_pre draft t p h = ground arith
leave_pre detecting t p h = ground arith
leave_pre detected t p h = ground arith
leave_pre needs_review t p h = ground arith
leave_pre unsupported t p h = ground arith
leave_pre approved t p h = cc
leave_pre active t p h = cc
leave_pre inactive t p h = cc
leave_pre failing t p h = cc
leave_pre archived t p h = cc

archived_stuck : (t : Status) → can_transition archived t ≡ true → ⊥
unfolding can_transition
archived_stuck t h = cc

-- Nothing follows archived.
pub archived_final :
    {s t : Status} {path : List Status}
    → Walk s path t
    → s ≡ archived
    → (path ≡ []) × (t ≡ archived)
archived_final stay e = (refl, e)
archived_final (move {s} {t} h w) e =
    absurd (archived_stuck t (subst (λ x. can_transition x t ≡ true) e h))

-- A website that starts before approval becomes active only after it was approved: every walk of
-- allowed moves that ends in active, however long, visits approved.
pub active_needs_approved :
    {s : Status} {path : List Status}
    → is_pre_approval s ≡ true
    → Walk s path active
    → In approved path
active_needs_approved p w = go w refl p
  where
    go :
        {s u : Status} {path : List Status}
        → Walk s path u
        → u ≡ active
        → is_pre_approval s ≡ true
        → In approved path
    go stay e p = cc
    go (move {s} {t} h w) e p = elim (leave_pre s t p h) [
      | inl before ↦ inr (go w e before)
      | inr (inl now) ↦ inl (sym now)
      | inr (inr gone) ↦ cc (archived_final w gone).1
    ]

stay_post :
    (s t : Status)
    → is_pre_approval s ≡ false
    → can_transition s t ≡ true
    → is_pre_approval t ≡ false
unfolding can_transition
stay_post draft t p h = cc
stay_post _ t p h = ground arith

Walk-post :
    {s t : Status} {path : List Status}
    → Walk s path t
    → is_pre_approval s ≡ false
    → is_pre_approval t ≡ false
Walk-post stay p = p
Walk-post (move {s} {t} h w) p = Walk-post w (stay_post s t p h)

-- No walk leads back to the states before approval, and every state but archived can be archived
-- in one move.
pub approval_is_final :
    ((s t : Status) (path : List Status)
      → Walk s path t
      → is_pre_approval s ≡ false
      → is_pre_approval t ≡ false)
    × ((s : Status) → s ≢ archived → can_transition s archived ≡ true)
approval_is_final = (λ s t path w p. Walk-post w p, retire)
  where
    retire : (s : Status) → s ≢ archived → can_transition s archived ≡ true
    retire archived ne = absurd (ne refl)
    retire _ ne = unfold can_transition in refl
