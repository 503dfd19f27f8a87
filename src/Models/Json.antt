-- ===== src/Models/Json.antt =====
-- JSON documents (`dict[str, Any]`, `json.dumps` and `json.loads` of the standard library). The
-- stores keep the text that `json.dumps(..., sort_keys=True)` gives for a document; a row of the
-- model keeps the document itself. Numbers are integers: the program's floats are not modelled.
use ump.Prelude.{
  String, ◌≡◌, refl, ap, Bool, true, false, not, ◌&&◌, ◌||◌, Option, none, some, List, [], ◌∷◌,
  ◌==◌, if◌then◌else◌, arith, eq_iff, eq_refl, &&-left, &&-right,
}
use ump.Prelude.Int.{ℤ, eqb_ℤ, eqb_ℤ→eq}

mutual
  pub data Json : Type 0 where
    null : Json
    bool : Bool → Json
    num : ℤ → Json
    text : String → Json
    arr : Items → Json
    obj : Fields → Json

  pub data Items : Type 0 where
    nil : Items
    cons : Json → Items → Items

  pub data Fields : Type 0 where
    end : Fields
    field : String → Json → Fields → Fields

-- `==` of the texts of two documents
unfoldable mutual
  pub json_eq : Json → Json → Bool
  json_eq null null = true
  json_eq (bool a) (bool b) = (a && b) || (not a && not b)
  json_eq (num a) (num b) = eqb_ℤ a b
  json_eq (text a) (text b) = a == b
  json_eq (arr a) (arr b) = items_eq a b
  json_eq (obj a) (obj b) = fields_eq a b
  json_eq _ _ = false

  pub items_eq : Items → Items → Bool
  items_eq nil nil = true
  items_eq (cons a r) (cons b q) = json_eq a b && items_eq r q
  items_eq _ _ = false

  pub fields_eq : Fields → Fields → Bool
  fields_eq end end = true
  fields_eq (field k a r) (field j b q) = k == j && (json_eq a b && fields_eq r q)
  fields_eq _ _ = false

mutual
  unfolding json_eq items_eq fields_eq

  json_eq_self : (a : Json) → json_eq a a ≡ true
  json_eq_self null = refl
  json_eq_self (bool a) = ground arith
  json_eq_self (num a) = ground arith
  json_eq_self (text a) = eq_refl a
  json_eq_self (arr a) = items_eq_self a
  json_eq_self (obj a) = fields_eq_self a

  items_eq_self : (a : Items) → items_eq a a ≡ true
  items_eq_self nil = refl
  items_eq_self (cons a r) = rw (json_eq_self a, items_eq_self r)

  fields_eq_self : (a : Fields) → fields_eq a a ≡ true
  fields_eq_self end = refl
  fields_eq_self (field k a r) = rw (eq_refl k, json_eq_self a, fields_eq_self r)

pub json_eq_refl : (a : Json) → json_eq a a ≡ true
json_eq_refl a = json_eq_self a

mutual
  unfolding json_eq items_eq fields_eq

  json_eq_path : (a b : Json) → json_eq a b ≡ true → a ≡ b
  json_eq_path null null h = refl
  json_eq_path (bool a) (bool b) h = ground arith
  json_eq_path (num a) (num b) h = ap num (eqb_ℤ→eq a b h)
  json_eq_path (text a) (text b) h = ap text ((eq_iff a b).0 h)
  json_eq_path (arr a) (arr b) h = ap arr (items_eq_path a b h)
  json_eq_path (obj a) (obj b) h = ap obj (fields_eq_path a b h)
  json_eq_path _ _ h = cc

  items_eq_path : (a b : Items) → items_eq a b ≡ true → a ≡ b
  items_eq_path nil nil h = refl
  items_eq_path (cons a r) (cons b q) h = cc (
    json_eq_path a b (&&-left _ (items_eq r q) h),
    items_eq_path r q (&&-right (json_eq a b) _ h),
  )
  items_eq_path _ _ h = cc

  fields_eq_path : (a b : Fields) → fields_eq a b ≡ true → a ≡ b
  fields_eq_path end end h = refl
  fields_eq_path (field k a r) (field j b q) h =
      let rest = json_eq a b && fields_eq r q in
      let tail = &&-right (k == j) rest h in
      cc (
        (eq_iff k j).0 (&&-left (k == j) rest h),
        json_eq_path a b (&&-left (json_eq a b) (fields_eq r q) tail),
        fields_eq_path r q (&&-right (json_eq a b) (fields_eq r q) tail),
      )
  fields_eq_path _ _ h = cc

pub json_eq→eq : (a b : Json) → json_eq a b ≡ true → a ≡ b
json_eq→eq a b h = json_eq_path a b h

-- value.get(key)
unfoldable pub get : String → Fields → Option Json
get key end = none
get key (field k v rest) = let later = get key rest in if k == key then some v else later

-- a JSON array of strings, from a tuple
unfoldable pub texts : List String → Items
texts [] = nil
texts (s ∷ rest) = cons (text s) (texts rest)
