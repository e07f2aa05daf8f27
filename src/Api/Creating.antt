-- ===== src/Api/Creating.antt =====
-- What a creator finds after create_incident of src/incidentpilot/api/app.py.
use incidentpilot.Base.{
  ℕ, ◌≡◌, refl, sym, ap, Bool, true, false, List, [], ◌∷◌, ==-refl, string_eq, if◌then◌else◌,
}
use incidentpilot.Store.{AgentRun, Incident}
use incidentpilot.Access.{Principal, access_own, require_role}
use incidentpilot.Jobs.Admission.{
  IncidentData, Fresh, Admitted, queue_full, admitted, create_incident_and_run, new_incident,
  new_run, create-admitted,
}
use incidentpilot.Api.Replies.{when_granted-answered, answered-injective}
use incidentpilot.Api.{
  Reply, answered, http_error, Created, accepted, taken, owned_data, create_incident, get_incident,
  get_run,
}

module _ (embedded_worker_enabled : Bool) (bound : ℕ) (incidents : List Incident)
    (runs : List AgentRun) (p : Principal) (body : IncidentData) (f : Fresh) where
  abbrev made : Incident
  made = new_incident (owned_data body p) f

  accepted-answered :
      (a : Admitted) (c : Created)
      → accepted embedded_worker_enabled made (new_run f) a ≡ answered c
      → (c.incident ≡ made) × (c.run ≡ new_run f) × (a ≡ admitted c.incidents c.runs)
  accepted-answered queue_full c h = cc
  accepted-answered (admitted is rs) c h =
      let e = answered-injective h in
      (
        ap (λ (x : Created). x.incident) (sym e),
        ap (λ (x : Created). x.run) (sym e),
        ap (λ (x : Created). admitted x.incidents x.runs) e,
      )

  untaken :
      (t : Bool) (r : Reply Created) (c : Created)
      → (if t then http_error 409 else r) ≡ answered c
      → r ≡ answered c
  untaken true r c h = cc
  untaken false r c h = h

  created :
      (c : Created)
      → create_incident embedded_worker_enabled bound incidents runs p body f ≡ answered c
      → (c.incident ≡ made)
        × (c.run ≡ new_run f)
        × (c.runs ≡ new_run f ∷ runs)
        × (c.incidents ≡ made ∷ incidents)
  unfolding create_incident
  created c h =
      let (_, h1) = when_granted-answered (require_role p ("initiator" ∷ [])) _ c h in
      let h2 = untaken (taken incidents body.incident_id) _ c h1 in
      let (i, r, a) =
        accepted-answered (create_incident_and_run incidents runs (owned_data body p) f bound) c
          h2 in
      let (rs, is) = create-admitted incidents runs (owned_data body p) f bound a in (i, r, rs, is)

  read_incident : get_incident (made ∷ incidents) p made.incident_id ≡ answered made
  unfolding get_incident
  read_incident = rw (==-refl made.incident_id, access_own p) refl

  read_run :
      get_run (made ∷ incidents) (new_run f ∷ runs) p f.run_id
      ≡ answered (new_run f, made.incident_id)
  unfolding get_run
  read_run = rw (==-refl f.run_id, ==-refl f.incident_pk, access_own p) refl

  -- What a creation answers can be read back by its creator: the incident under its identifier, and
  -- the run under its own, with the incident's identifier.
  pub create_incident-get :
      (c : Created)
      → create_incident embedded_worker_enabled bound incidents runs p body f ≡ answered c
      → (get_incident c.incidents p c.incident.incident_id ≡ answered c.incident)
        × (get_run c.incidents c.runs p c.run.run_id ≡ answered (c.run, c.incident.incident_id))
  create_incident-get c h =
      let (i, r, rs, is) = created c h in rw (i, r, rs, is) (read_incident, read_run)
