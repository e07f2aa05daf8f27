-- ===== src/Json.antt =====
-- The JSON values that the program passes around (Python's dict, list, str, int, bool, None), with
-- the dictionary operations it uses. A number is a natural
-- one: floats and negative numbers inside such values are not modelled.
use incidentpilot.Base.{
  ℕ, String, ◌+◌, ◌≡◌, refl, Bool, true, false, ◌&&◌, not, Option, none, some, arith, ◌==◌,
  string_eq, nat_eq, if◌then◌else◌,
}
use text.Mathlib.TextEquality.{eq_iff}

mutual
  pub data Json : Type 0 where
    null : Json
    bool : Bool → Json
    num : ℕ → Json
    str : String → Json
    arr : Items → Json
    obj : Dict → Json

  pub data Items : Type 0 where
    nil : Items
    cons : Json → Items → Items

  -- The entries of a dict, in insertion order.
  pub data Dict : Type 0 where
    end : Dict
    field : String → Json → Dict → Dict

-- d.get(k)
abbrev pub get : String → Dict → Option Json
get k end = none
get k (field j v d) = if j == k then some v else get k d

-- {**d, k: v} and d[k] = v
abbrev pub put : String → Json → Dict → Dict
put k v end = field k v end
put k v (field j w d) = if j == k then field k v d else field j w (put k v d)

-- len(d)
abbrev pub size : Dict → ℕ
size end = 0
size (field k v d) = 1 + size d

-- bool(v)
abbrev pub truthy : Json → Bool
truthy null = false
truthy (bool b) = b
truthy (num n) = not (n == 0)
truthy (str s) = not (s == "")
truthy (arr nil) = false
truthy (arr (cons v vs)) = true
truthy (obj end) = false
truthy (obj (field k v d)) = true

-- bool(d.get(k))
abbrev pub flag : String → Dict → Bool
flag k d = elim (get k d) [ none ↦ false | some v ↦ truthy v ]

abbrev bool_beq : Bool → Bool → Bool
bool_beq true b = b
bool_beq false b = not b

-- `==` on values. Dicts are compared by size and by key, whatever their order.
unfoldable mutual
  pub json_beq : Json → Json → Bool
  json_beq null null = true
  json_beq (bool a) (bool b) = bool_beq a b
  json_beq (num a) (num b) = a == b
  json_beq (str a) (str b) = a == b
  json_beq (arr a) (arr b) = items_beq a b
  json_beq (obj a) (obj b) = size a == size b && dict_within a b
  json_beq _ _ = false

  pub items_beq : Items → Items → Bool
  items_beq nil nil = true
  items_beq (cons a as') (cons b bs) = json_beq a b && items_beq as' bs
  items_beq _ _ = false

  -- every entry of the first is an entry of the second
  pub dict_within : Dict → Dict → Bool
  dict_within end e = true
  dict_within (field k v d) e =
      elim (get k e) [ none ↦ false | some w ↦ json_beq v w ] && dict_within d e

pub get-put :
    (k j : String) (v : Json) (d : Dict) → get j (put k v d) ≡ (if k == j then some v else get j d)
get-put k j v end = refl
get-put k j v (field i w d) = ground (arith, eq_iff k j, eq_iff i k, eq_iff i j, get-put k j v d)
