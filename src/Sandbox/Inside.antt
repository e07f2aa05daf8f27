-- ===== src/Sandbox/Inside.antt =====
-- Where a path that validate_patch_path of src/incidentpilot/sandbox/manager.py accepts can lead.
use incidentpilot.Base.{
  ◌≡◌, refl, Bool, true, false, ◌||◌, not, some, List, [], ◌∷◌, ◌++◌, arith, ltb, ◌==◌, ==→eq,
  nat_eq, All, if◌then◌else◌, ok, guard, guard-ok, or_raise-ok, >>=-eq-ok,
}
use incidentpilot.Base.Text.{Text, codes, text_eq, starts_with, split_on, pieces-Lacks, Lacks}
use incidentpilot.Enums.{contains}
use incidentpilot.Sandbox.Paths.{
  any, slashed, trims, rstrip, dot_parts, FileSystem, ambiguous, sensitive_path, is_device,
  walk_parts, validate_patch_path,
}

-- Lexical normalization of a path, innermost directory first: an empty part and `.` stay, `..` goes
-- up.
abbrev pub up : List Text → List Text
up [] = []
up (d ∷ ds) = ds

abbrev pub enter : Text → List Text → List Text
enter part stack =
    if contains part ([] ∷ codes "." ∷ [])
    then stack
    else if part == codes ".."
    then up stack
    else part ∷ stack

abbrev pub descend : List Text → List Text → List Text
descend stack [] = stack
descend stack (part ∷ parts) = descend (enter part stack) parts

abbrev pub onto : List Text → List Text → List Text
onto stack [] = stack
onto stack (part ∷ parts) = onto (part ∷ stack) parts

any-All : {A : Type 0} (p : A → Bool) (xs : List A) → any p xs ≡ false → All (λ x. p x ≡ false) xs
any-All p [] h = tt
any-All p (x ∷ xs) h = ground (arith, any-All p xs)

enter_plain :
    (part : Text) (stack : List Text)
    → contains part dot_parts ≡ false
    → enter part stack ≡ part ∷ stack
enter_plain part stack h = ground arith

descend-onto :
    (parts stack : List Text)
    → All (λ part. contains part dot_parts ≡ false) parts
    → descend stack parts ≡ onto stack parts
descend-onto [] stack h = refl
descend-onto (part ∷ parts) stack h =
    rw (enter_plain part stack h.0) (descend-onto parts (part ∷ stack) h.1)

or_false : (a b : Bool) → a || b ≡ false → (a ≡ false) × (b ≡ false)
or_false a b h = ground arith

not-false : (b : Bool) → not b ≡ true → b ≡ false
not-false b h = ground arith

module _ (lower upper : Text → Text) (fs : FileSystem) where
  -- Each part has no trailing space or dot and names no device, and no directory on the way is a
  -- link.
  abbrev pub Walked : (above : List Text) → List Text → Type 0
  Walked above [] = Unit
  Walked above (part ∷ parts) =
      (rstrip trims part ≡ part)
      × (is_device lower upper part ≡ false)
      × (fs.is_link (above ++ (part ∷ [])) ≡ false)
      × Walked (above ++ (part ∷ [])) parts

  walk_parts-Walked :
      (parts above : List Text) {u : Unit {0}}
      → walk_parts lower upper fs above parts ≡ ok u
      → Walked above parts
  unfolding walk_parts
  walk_parts-Walked [] above h = tt
  walk_parts-Walked (part ∷ parts) above h =
      let (_, h3, rest) = >>=-eq-ok _ _ h in
      let (_, h2, unlinked) = >>=-eq-ok _ _ h3 in
      let (_, trimmed, plain) = >>=-eq-ok _ _ h2 in
      (
        ==→eq _ _ (guard-ok _ _ trimmed),
        not-false _ (guard-ok _ _ plain),
        not-false _ (guard-ok _ _ unlinked),
        walk_parts-Walked parts (above ++ (part ∷ [])) rest,
      )

  -- What is known of an accepted path and of the parts it is walked by.
  pub record Inside (raw_path : Text) (parts resolved : List Text) : Type 0 where
    pub split : parts ≡ split_on b'/' (slashed raw_path)
    pub relative : starts_with (codes "/") (slashed raw_path) ≡ false
    pub no_home : starts_with (codes "~") (slashed raw_path) ≡ false
    pub no_drive : Lacks (λ c. c == b':') (slashed raw_path)
    pub no_control : Lacks (λ c. ltb c 32) (slashed raw_path)
    pub unseparated : All (Lacks (λ c. c == b'/')) parts
    pub beneath : (stack : List Text) → descend stack parts ≡ onto stack parts
    pub public_only : sensitive_path lower upper (slashed raw_path) ≡ false
    pub walked : Walked [] parts
    pub inside : fs.resolve parts ≡ some resolved

  -- A path that is accepted stays beneath the repository and away from secrets. It is relative and
  -- free of drive letters and control characters; normalizing it part by part only ever descends,
  -- whatever directory it starts from; no part has a trailing space or dot or names a device; no
  -- directory or file on the way is a link; no part is sensitive; and what it resolves to is inside.
  pub validate_patch_path-Inside :
      (raw_path : Text) (resolved : List Text)
      → validate_patch_path lower upper fs raw_path ≡ ok resolved
      → Inside raw_path (split_on b'/' (slashed raw_path)) resolved
  unfolding validate_patch_path
  validate_patch_path-Inside raw_path resolved h =
      let (_, clear, h1) = >>=-eq-ok (guard (not (ambiguous (slashed raw_path))) _) _ h in
      let (_, open_path, h2) =
        >>=-eq-ok (guard (not (sensitive_path lower upper (slashed raw_path))) _) _ h1 in
      let (_, steps, h3) =
        >>=-eq-ok (walk_parts lower upper fs [] (split_on b'/' (slashed raw_path))) _ h2 in
      let (a, _) = or_false _ _ (not-false _ (guard-ok _ _ clear)) in
      let (b, control) = or_false _ _ a in
      let (c, dots) = or_false _ _ b in
      let (d, drive) = or_false _ _ c in
      let (e, home) = or_false _ _ d in
      let (_, root) = or_false _ _ e in
      record {
        split = refl;
        relative = root;
        no_home = home;
        no_drive = any-All _ _ drive;
        no_control = any-All _ _ control;
        unseparated = pieces-Lacks (λ c. c == b'/') (slashed raw_path);
        beneath = λ stack.
            descend-onto (split_on b'/' (slashed raw_path)) stack
              (any-All (λ part. contains part dot_parts) (split_on b'/' (slashed raw_path)) dots);
        public_only = not-false _ (guard-ok _ _ open_path);
        walked = walk_parts-Walked _ [] steps;
        inside = or_raise-ok _ _ h3;
      }
