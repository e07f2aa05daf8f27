-- ===== src/Tools/Redaction.antt =====
-- redact of src/incidentpilot/tools/data.py. The two compiled regular expressions are parameters:
-- `secret_field` is SECRET_FIELD.search, `scrub` is INLINE_SECRET.sub with its replacement.
use incidentpilot.Base.{
  ℕ, zero, suc, String, ◌+◌, ◌≡◌, refl, Bool, true, false, ◌&&◌, ◌||◌, not, ◌⊎◌, inl, inr, ◌==◌,
  string_eq, ltb, if◌then◌else◌, Bool-cases,
}
use incidentpilot.Json.{Json, null, bool, num, str, arr, obj, Items, nil, cons, Dict, end, field}

-- The token counters are no credentials.
abbrev pub exempt : String → Bool
exempt k =
    (k == "token_usage" || k == "prompt_tokens")
    || (k == "completion_tokens" || k == "total_tokens")

module _ (secret_field : String → Bool) (scrub : String → String) where
  abbrev pub hidden : String → Bool
  hidden k = secret_field k && not (exempt k)

  -- `if depth > 12: return "[depth limit]"`
  abbrev pub limited : ℕ → Json → Json
  limited depth v = if ltb 12 depth then str "[depth limit]" else v

  unfoldable mutual
    pub redact : ℕ → Json → Json
    redact depth null = limited depth null
    redact depth (bool b) = limited depth (bool b)
    redact depth (num n) = limited depth (num n)
    redact depth (str s) = limited depth (str (scrub s))
    redact depth (arr vs) = limited depth (arr (redact_items (depth + 1) 200 vs))
    redact depth (obj d) = limited depth (obj (redact_dict (depth + 1) 200 d))

    -- value[:200]
    pub redact_items : ℕ → ℕ → Items → Items
    redact_items depth zero nil = nil
    redact_items depth zero (cons v vs) = nil
    redact_items depth (suc left) nil = nil
    redact_items depth (suc left) (cons v vs) = cons (redact depth v) (redact_items depth left vs)

    -- list(value.items())[:200]
    pub redact_dict : ℕ → ℕ → Dict → Dict
    redact_dict depth zero end = end
    redact_dict depth zero (field k v d) = end
    redact_dict depth (suc left) end = end
    redact_dict depth (suc left) (field k v d) =
        field k (if hidden k then str "[REDACTED]" else redact depth v) (redact_dict depth left d)

  -- No credential is left: what stands under a secret key is the mark, and every other text has been
  -- scrubbed.
  mutual
    pub Clean : Json → Type 0
    Clean null = Unit
    Clean (bool b) = Unit
    Clean (num n) = Unit
    Clean (str s) = (s ≡ "[depth limit]") ⊎ ((t : String) × (s ≡ scrub t))
    Clean (arr vs) = CleanItems vs
    Clean (obj d) = CleanDict d

    pub CleanItems : Items → Type 0
    CleanItems nil = Unit
    CleanItems (cons v vs) = Clean v × CleanItems vs

    pub CleanDict : Dict → Type 0
    CleanDict end = Unit
    CleanDict (field k v d) =
        (hidden k ≡ true → v ≡ str "[REDACTED]") × (hidden k ≡ false → Clean v) × CleanDict d

  limited-Clean : (depth : ℕ) (v : Json) → Clean v → Clean (limited depth v)
  unfolding Clean
  limited-Clean depth v h = elim (Bool-cases (ltb 12 depth)) [
    | inl e ↦ rw e (inl refl)
    | inr e ↦ rw e h
  ]

  marked_entry :
      (b : Bool) (v : Json) → b ≡ true → (if b then str "[REDACTED]" else v) ≡ str "[REDACTED]"
  marked_entry b v e = rw e refl

  plain_entry :
      (b : Bool) (v : Json) → Clean v → b ≡ false → Clean (if b then str "[REDACTED]" else v)
  plain_entry b v h e = rw e h

  mutual
    unfolding redact Clean

    cleans : (depth : ℕ) (v : Json) → Clean (redact depth v)
    cleans depth null = limited-Clean depth null tt
    cleans depth (bool b) = limited-Clean depth (bool b) tt
    cleans depth (num n) = limited-Clean depth (num n) tt
    cleans depth (str s) = limited-Clean depth (str (scrub s)) (inr (s, refl))
    cleans depth (arr vs) =
        limited-Clean depth (arr (redact_items (depth + 1) 200 vs))
          (cleans_items (depth + 1) 200 vs)
    cleans depth (obj d) =
        limited-Clean depth (obj (redact_dict (depth + 1) 200 d)) (cleans_dict (depth + 1) 200 d)

    cleans_items : (depth left : ℕ) (vs : Items) → CleanItems (redact_items depth left vs)
    cleans_items depth zero nil = tt
    cleans_items depth zero (cons v vs) = tt
    cleans_items depth (suc left) nil = tt
    cleans_items depth (suc left) (cons v vs) = (cleans depth v, cleans_items depth left vs)

    cleans_dict : (depth left : ℕ) (d : Dict) → CleanDict (redact_dict depth left d)
    cleans_dict depth zero end = tt
    cleans_dict depth zero (field k v d) = tt
    cleans_dict depth (suc left) end = tt
    cleans_dict depth (suc left) (field k v d) = (
      marked_entry (hidden k) (redact depth v),
      plain_entry (hidden k) (redact depth v) (cleans depth v),
      cleans_dict depth left d,
    )

  -- Whatever value goes in, at whatever depth, the value that `redact` returns holds the mark under
  -- every key that names a secret and is no token counter, and each other text in it is a scrubbed
  -- text or the depth mark.
  pub redact-Clean : (depth : ℕ) (v : Json) → Clean (redact depth v)
  redact-Clean depth v = cleans depth v
