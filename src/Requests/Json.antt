-- ===== src/Requests/Json.antt =====
-- JSON as Python reads it: `dict`, `list`, `str`, `int`, `float`, `bool` and `None`.
use vfront.Common.{
  ◌≡◌, ◌↔◌, ◌⊎◌, inl, refl, str_eq_iff, arith, zero, suc, ℤ, pos, negsuc, Str, [], ◌∷◌, Bool, true,
  false, not, ◌&&◌, str_eq, if◌then◌else◌,
}

-- Python's `float`: the comparison, and the values of integer literals.
pub record Float : Type 1 where
  pub Number : Type 0
  pub le : Number → Number → Bool
  pub is_zero : Number → Bool
  pub literal : ℤ → Number

mutual
  pub data Json (F : Type 0) : Type 0 where
    null : Json F
    boolean : Bool → Json F
    integer : ℤ → Json F
    real : F → Json F
    text : Str → Json F
    array : Items F → Json F
    object : Members F → Json F

  pub data Items (F : Type 0) : Type 0 where
    nothing : Items F
    item : Json F → Items F → Items F

  pub data Members (F : Type 0) : Type 0 where
    end : Members F
    member : Str → Json F → Members F → Members F

module _ {F : Type 0} where
  -- `dict.get`: a missing key gives None
  unfoldable pub get : Members F → Str → Json F
  get end key = null
  get (member name value rest) key = if str_eq name key then value else get rest key

  abbrev pub is_null : Json F → Bool
  is_null null = true
  is_null _ = false

  abbrev pub is_int : Json F → Bool
  is_int (integer i) = true
  is_int _ = false

  abbrev pub is_text : Json F → Bool
  is_text (text s) = true
  is_text _ = false

  abbrev pub is_literal : Str → Json F → Bool
  is_literal s (text t) = str_eq s t
  is_literal s _ = false

  unfoldable pub all_items : (Json F → Bool) → Items F → Bool
  all_items test nothing = true
  all_items test (item x rest) = test x && all_items test rest

-- Python's truth value
unfoldable pub truthy : (F : Float) → Json F.Number → Bool
truthy F null = false
truthy F (boolean b) = b
truthy F (integer (pos zero)) = false
truthy F (integer (pos (suc n))) = true
truthy F (integer (negsuc n)) = true
truthy F (real x) = not (F.is_zero x)
truthy F (text []) = false
truthy F (text (c ∷ s)) = true
truthy F (array nothing) = false
truthy F (array (item x rest)) = true
truthy F (object end) = false
truthy F (object (member name value rest)) = true

module _ (F : Float) where
  -- Python's false values
  abbrev pub IsFalsy : Json F.Number → Type 0
  IsFalsy j =
      (j ≡ null)
      ⊎ (j ≡ boolean false)
      ⊎ (j ≡ integer (pos 0))
      ⊎ ((x : F.Number) × (j ≡ real x) × (F.is_zero x ≡ true))
      ⊎ (j ≡ text [])
      ⊎ (j ≡ array nothing)
      ⊎ (j ≡ object end)

  pub truthy_iff : (j : Json F.Number) → (truthy F j ≡ true) ↔ ¬ IsFalsy j
  unfolding truthy
  truthy_iff null = (λ h. absurd (cc), λ h. absurd (h (inl refl)))
  truthy_iff (boolean true) = ground arith
  truthy_iff (boolean false) = ground arith
  truthy_iff (integer (pos zero)) = ground arith
  truthy_iff (integer (pos (suc k))) = ground arith
  truthy_iff (integer (negsuc k)) = ground arith
  truthy_iff (real x) = ground arith
  truthy_iff (text []) = ground arith
  truthy_iff (text (c ∷ s)) = ground arith
  truthy_iff (array nothing) = ground arith
  truthy_iff (array (item x rest)) = ground arith
  truthy_iff (object end) = ground arith
  truthy_iff (object (member name value rest)) = ground arith

  pub is_literal_iff : (s : Str) (j : Json F.Number) → (is_literal s j ≡ true) ↔ (j ≡ text s)
  is_literal_iff s (text t) = ground (arith, str_eq_iff s t)
  is_literal_iff s j = ground arith
