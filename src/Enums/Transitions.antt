-- ===== src/Enums/Transitions.antt =====
-- What RUN_TRANSITIONS of src/incidentpilot/models/enums.py permits over many transitions.
use incidentpilot.Base.{◌≡◌, refl, true, ◌⊎◌, inl, inr, arith}
use incidentpilot.Enums.{RunStatus, status_eq, contains, run_transitions, terminal_run_statuses}

abbrev pub IsTerminal : RunStatus → Type 0
IsTerminal s = contains s terminal_run_statuses ≡ true

-- A history of permitted transitions.
pub data History (s : RunStatus) : RunStatus → Type 0 where
  here : History s s
  next : {t u : RunStatus} → History s t → contains u (run_transitions t) ≡ true → History s u

terminal_step : (s u : RunStatus) → IsTerminal s → contains u (run_transitions s) ≡ true → u ≡ s
terminal_step s u t h = ground arith

pub terminal_stays : {s t : RunStatus} → IsTerminal s → History s t → t ≡ s
terminal_stays h here = refl
terminal_stays {s} h (next {t = t} {u = u} p e) =
    let same = terminal_stays h p in terminal_step s u h (rw same at e)

ends_or_stops : (s : RunStatus) → IsTerminal s ⊎ History s RunStatus.needs_human_intervention
ends_or_stops RunStatus.pending = inr (next {t = RunStatus.running} (next here refl) refl)
ends_or_stops RunStatus.running = inr (next here refl)
ends_or_stops RunStatus.waiting_approval = inr (next here refl)
ends_or_stops s = inl refl
