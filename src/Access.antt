-- ===== src/Access.antt =====
-- Principal and authenticate of src/incidentpilot/api/auth.py. A refusal is the HTTP status of the
-- HTTPException. `lower` is str.lower and `partition` splits a header at its first space.
use incidentpilot.Base.{
  ℕ, String, ◌≡◌, refl, sym, subst, Bool, true, false, ◌&&◌, not, Option, none, some, List, [], ◌∷◌,
  ◌⊎◌, inl, inr, ◌↔◌, ◌==◌, ==→eq, ==-refl, string_eq, if◌then◌else◌, Bool-cases, is_just, is_null,
}
use incidentpilot.Enums.{contains}

pub record Principal : Type 0 where
  pub subject : String
  pub role : String

pub data Answer : Type 0 where
  granted : Answer
  refused : ℕ → Answer

abbrev pub require_role : Principal → List String → Answer
require_role p roles =
    if not (contains p.role roles) && not (p.role == "admin") then refused 403 else granted

abbrev pub access : Principal → Option String → Answer
access p owner_id =
    if p.role == "initiator" && not (is_just owner_id p.subject)
    then refused 403
    else if is_null owner_id && not (p.role == "admin")
    then refused 403
    else granted

-- The configured identity of a token: its subject and its role, if they are set.
pub record Identity : Type 0 where
  pub subject : Option String
  pub role : Option String

abbrev pub known_roles : List String
known_roles = "initiator" ∷ "reviewer" ∷ "approver" ∷ "admin" ∷ []

abbrev pub principal_of : Identity → Option Principal
principal_of i = elim i.subject [
  | none ↦ none
  | some s ↦ elim i.role [
    | none ↦ none
    | some r ↦
        if not (s == "") && contains r known_roles
        then some (record { subject = s; role = r })
        else none
  ]
]

-- The loop over the configured tokens; a matching token without a usable identity is passed over.
abbrev pub identify : String → List (String × Identity) → Option Principal
identify token [] = none
identify token ((configured, i) ∷ rest) =
    if token == configured
    then elim (principal_of i) [ some p ↦ some p | none ↦ identify token rest ]
    else identify token rest

module _ (lower : String → String) (partition : String → String × String) where
  -- none stands for the status 401.
  abbrev pub authenticate : String → List (String × Identity) → Option Principal
  authenticate header api_tokens =
      let (scheme, token) = partition header in
      if lower scheme == "bearer" && not (token == "") then identify token api_tokens else none

-- Who may see a resource: an administrator may see every one, an initiator those of his own, and
-- any other role those that have an owner.
pub MayAccess : Principal → Option String → Type 0
MayAccess p owner_id =
    (p.role ≡ "admin")
    ⊎ ((owner : String) × (owner_id ≡ some owner) × (p.role ≡ "initiator" → owner ≡ p.subject))

decided : (initiator own absent admin : Bool) → Answer
decided initiator own absent admin =
    if initiator && not own
    then refused 403
    else if absent && not admin
    then refused 403
    else granted

granted_absent : (i a : Bool) → decided i false true a ≡ granted → a ≡ true
unfolding decided
granted_absent i true h = refl
granted_absent true false h = cc
granted_absent false false h = cc

granted_initiator : (own a : Bool) → decided true own false a ≡ granted → own ≡ true
unfolding decided
granted_initiator true a h = refl
granted_initiator false a h = cc

may_if_granted :
    (p : Principal) (owner_id : Option String) → access p owner_id ≡ granted → MayAccess p owner_id
unfolding MayAccess decided
may_if_granted p none h =
    inl (==→eq p.role "admin" (granted_absent (p.role == "initiator") (p.role == "admin") h))
may_if_granted p (some o) h = inr (o, refl, own)
  where
    own : p.role ≡ "initiator" → o ≡ p.subject
    own e =
        let i : (p.role == "initiator") ≡ true =
          subst (λ r. (r == "initiator") ≡ true) (sym e) refl in
        ==→eq o p.subject (
          granted_initiator (o == p.subject) (p.role == "admin")
            (subst (λ b. decided b (o == p.subject) false (p.role == "admin") ≡ granted) i h))

granted_if_may :
    (p : Principal) (owner_id : Option String) → MayAccess p owner_id → access p owner_id ≡ granted
unfolding MayAccess decided
granted_if_may p owner_id (inl e) = rw e (admin_granted owner_id p.subject)
  where
    admin_granted :
        (o : Option String) (s : String)
        → access (record { subject = s; role = "admin" }) o ≡ granted
    admin_granted none s = refl
    admin_granted (some o) s = refl
granted_if_may p owner_id (inr (o, e, own)) = rw e (elim (Bool-cases (p.role == "initiator")) [
  | inr other ↦ rw other refl
  | inl i ↦
      let mine : (o == p.subject) ≡ true =
        subst (λ s. (o == s) ≡ true) (own (==→eq p.role "initiator" i)) (==-refl o) in
      rw (i, mine) refl
])

-- A resource is granted exactly to an administrator, to an initiator who owns it, and to any other
-- role when it has an owner.
pub access_iff :
    (p : Principal) (owner_id : Option String)
    → (access p owner_id ≡ granted) ↔ MayAccess p owner_id
access_iff p owner_id = (may_if_granted p owner_id, granted_if_may p owner_id)

-- What a principal owns he may see.
pub access_own : (p : Principal) → access p (some p.subject) ≡ granted
unfolding MayAccess
access_own p = granted_if_may p (some p.subject) (inr (p.subject, refl, λ _. refl))
