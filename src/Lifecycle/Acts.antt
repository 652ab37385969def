-- ===== src/Lifecycle/Acts.antt =====
-- The operations on a site as actions, and sequences of them.
use web_scraping_event_appli.Prelude.{ℕ, String, Option, some, List, [], ◌∷◌}
use web_scraping_event_appli.Json.{Json}
use web_scraping_event_appli.Onboarding.{Status}
use web_scraping_event_appli.Result.{Result, ok, err}
use web_scraping_event_appli.Lifecycle.{
  PreviewRun, Site, transition_website, save_draft_configuration, Registry, Endpoint,
  select_pattern, approve_configuration, reject_configuration,
}

-- What an administrator or the system does to a site. A finished preview is stored as a run.
pub data Action : Type 0 where
  transition : Status → (now : ℕ) → Action
  save_draft : Json → Action
  select : (pattern_name : String) → Action
  approve : (user : Option ℕ) → (now : ℕ) → Action
  reject : (reason : String) → Action
  preview : PreviewRun → Action

-- The libraries and the registry that the actions consult.
pub record Services : Type 0 where
  pub registry : Registry
  pub build : String → Endpoint → Option Json
  pub pattern_of : Option Json → Option String
  pub default_schedule : Json

abbrev pub act : Services → Action → Site → Result Site
act v (transition target now) s = transition_website v.default_schedule s target now
act v (save_draft configuration) s = ok (save_draft_configuration configuration s)
act v (select pattern_name) s = select_pattern v.registry v.build s pattern_name
act v (approve user now) s = approve_configuration v.registry v.pattern_of s user now
act v (reject reason) s = reject_configuration s reason
act v (preview run) s = ok (record s { latest_preview = some run })

-- An action that raises has written nothing.
abbrev pub result_or : Site → Result Site → Site
result_or s (ok s') = s'
result_or s (err n e) = s

unfoldable pub act_all : Services → List Action → Site → Site
act_all v [] s = s
act_all v (a ∷ as') s = act_all v as' (result_or s (act v a s))
