-- ===== src/Reports/Stamps.antt =====
-- When a report carries the time and the user of its closing.
use web_scraping_event_appli.Prelude.{
  ℕ, String, Bool, true, false, ◌||◌, Option, none, some, List, [], ◌∷◌, ◌≡◌, ◌⊎◌, refl, sym, ap,
  ◌∙◌, inl, inr, Bool-cases, arith,
}
use web_scraping_event_appli.Json.{is_some}
use web_scraping_event_appli.Reports.{
  ReportStatus, Report, Text, Outcome, done, raised, is_closed, change_report_status, change_status,
  can_transition_report, assign_report, add_note, seen_again, unless_user, account_deleted,
}

-- What an administrator, a detection or the deletion of an account does to a report.
pub data Edit : Type 0 where
  move : (target : ReportStatus) → (user now : ℕ) → Edit
  assign : Option ℕ → Edit
  note : String → Edit
  see_again : (run : Option ℕ) → (now : ℕ) → Edit
  delete_account : (user : ℕ) → Edit

abbrev pub apply : Text → Edit → Report → Outcome
apply t (move target user now) r = change_status r target user now
apply t (assign user) r = done (assign_report r user)
apply t (note text) r = add_note t r text
apply t (see_again run now) r = done (seen_again run now r)
apply t (delete_account user) r = done (account_deleted user r)

abbrev pub kept : Report → Outcome → Report
kept r (done s) = s
kept r (raised n e) = r

unfoldable pub apply_all : Text → List Edit → Report → Report
apply_all t [] r = r
apply_all t (e ∷ es) r = apply_all t es (kept r (apply t e r))

abbrev pub is_deletion : Edit → Bool
is_deletion (delete_account user) = true
is_deletion _ = false

-- The columns of the closing: the time is there exactly while the report is closed, the user never
-- while it is open, and always while it is closed unless an account was deleted.
pub record IsStamped (deleted : Bool) (r : Report) : Type 0 where
  pub time : is_some r.resolved_at ≡ is_closed r.status
  pub unsigned : (is_closed r.status ≡ true) ⊎ (r.resolved_by_user_id ≡ none)
  pub signed : (deleted ≡ true) ⊎ (is_some r.resolved_by_user_id ≡ is_closed r.status)

stamped :
    (b : Bool) (target : ReportStatus) (user now : ℕ) (r : Report)
    → IsStamped b (change_report_status r target (some user) now)
unfolding change_report_status
stamped b target user now r = elim (Bool-cases (is_closed target)) [
  | inl e ↦ rw e (record { time = sym e; unsigned = inl e; signed = inr (sym e) })
  | inr e ↦ rw e (record { time = sym e; unsigned = inr refl; signed = inr (sym e) })
]

change_status-IsStamped :
    (b : Bool) (t : Text) (target : ReportStatus) (user now : ℕ) (r : Report)
    → IsStamped b r
    → IsStamped b (kept r (change_status r target user now))
unfolding change_status
change_status-IsStamped b t target user now r h =
    elim (Bool-cases (can_transition_report r.status target)) [
      | inl e ↦ rw e (stamped b target user now r)
      | inr e ↦ rw e h
    ]

-- An edit other than the deletion of an account and a move keeps the three columns.
pub record SameStamp (r r' : Report) : Type 0 where
  pub same_status : r'.status ≡ r.status
  pub same_time : r'.resolved_at ≡ r.resolved_at
  pub same_user : r'.resolved_by_user_id ≡ r.resolved_by_user_id

SameStamp-IsStamped : (b : Bool) (r r' : Report) → SameStamp r r' → IsStamped b r → IsStamped b r'
SameStamp-IsStamped b r r' s h = record {
  time = ap is_some s.same_time ∙ h.time ∙ ap is_closed (sym s.same_status);
  unsigned = elim h.unsigned [
    | inl c ↦ inl (ap is_closed s.same_status ∙ c)
    | inr n ↦ inr (s.same_user ∙ n)
  ];
  signed = elim h.signed [
    | inl d ↦ inl d
    | inr e ↦ inr (ap is_some s.same_user ∙ e ∙ ap is_closed (sym s.same_status))
  ];
}

add_note-SameStamp :
    (t : Text) (text : String) (r : Report) → SameStamp r (kept r (add_note t r text))
unfolding add_note
add_note-SameStamp t text r = record {
  same_status = ground arith;
  same_time = ground arith;
  same_user = ground arith;
}

apply-IsStamped :
    (b : Bool) (t : Text) (e : Edit) (r : Report)
    → IsStamped b r
    → IsStamped (is_deletion e || b) (kept r (apply t e r))
unfolding account_deleted
apply-IsStamped b t (move target user now) r h = change_status-IsStamped b t target user now r h
apply-IsStamped b t (assign user) r h =
    SameStamp-IsStamped b r _ (record { same_status = refl; same_time = refl; same_user = refl }) h
apply-IsStamped b t (note text) r h = SameStamp-IsStamped b r _ (add_note-SameStamp t text r) h
apply-IsStamped b t (see_again run now) r h =
    SameStamp-IsStamped b r _ (record { same_status = refl; same_time = refl; same_user = refl }) h
apply-IsStamped b t (delete_account user) r h = record {
  time = h.time;
  unsigned = elim h.unsigned [ inl c ↦ inl c | inr n ↦ inr (ap (unless_user user) n) ];
  signed = inl refl;
}

-- Whether an account is deleted among the edits, or was before.
abbrev pub any_deletion : List Edit → Bool → Bool
any_deletion [] b = b
any_deletion (e ∷ es) b = any_deletion es (is_deletion e || b)

-- After any sequence of edits, refused ones included, a report that was so before carries the time of
-- its closing exactly while it is resolved or dismissed, and carries no user of a closing while it is
-- open. While it is closed it carries that user, unless an account was deleted meanwhile or before.
pub apply_all-IsStamped :
    (deleted : Bool) (t : Text) (es : List Edit) (r : Report)
    → IsStamped deleted r
    → IsStamped (any_deletion es deleted) (apply_all t es r)
unfolding apply_all
apply_all-IsStamped b t [] r h = h
apply_all-IsStamped b t (e ∷ es) r h =
    apply_all-IsStamped (is_deletion e || b) t es (kept r (apply t e r)) (apply-IsStamped b t e r h)
