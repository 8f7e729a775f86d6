-- ===== src/Json.antt =====
-- What `json.loads` gives: the values that checkpoints, manifests and stage results are made of.
-- A number that is not a natural number is kept as its literal.
use clipgauge.Common.{
  ℕ, String, ◌≡◌, refl, Bool, false, Option, none, some, arith, eq_iff, ◌==◌, ◌=s=◌, if◌then◌else◌,
}

mutual
  pub data Value : Type 0 where
    obj : Fields → Value
    arr : Items → Value
    str : String → Value
    num : ℕ → Value
    number : String → Value
    bool : Bool → Value
    null : Value

  pub data Fields : Type 0 where
    end : Fields
    field : String → Value → Fields → Fields

  pub data Items : Type 0 where
    nil : Items
    cons : Value → Items → Items

-- `d.get(k)`
unfoldable pub get : Fields → String → Option Value
get end k = none
get (field j v fs) k = if j =s= k then some v else get fs k

-- `d[k] = v`: in place, or at the end.
unfoldable pub put : Fields → String → Value → Fields
put end k v = field k v end
put (field j w fs) k v = if j =s= k then field j v fs else field j w (put fs k v)

-- `{key: value for … if key != k}`
unfoldable pub without : Fields → String → Fields
without end k = end
without (field j v fs) k = let rest = without fs k in if j =s= k then rest else field j v rest

pub get-put :
    (fs : Fields) (k j : String) (v : Value)
    → get (put fs k v) j ≡ (if k =s= j then some v else get fs j)
unfolding get put
get-put end k j v = refl
get-put (field i w fs) k j v = ground (arith, eq_iff k j, eq_iff i k, eq_iff i j, get-put fs k j v)

pub get-without :
    (fs : Fields) (k j : String) → get (without fs k) j ≡ (if k =s= j then none else get fs j)
unfolding get without
get-without end k j = ground arith
get-without (field i w fs) k j =
    ground (arith, eq_iff k j, eq_iff i k, eq_iff i j, get-without fs k j)

abbrev pub as_object : Option Value → Option Fields
as_object (some (obj fs)) = some fs
as_object _ = none

abbrev pub as_text : Option Value → Option String
as_text (some (str s)) = some s
as_text _ = none

-- `xs.append(v)`
unfoldable pub append_item : Items → Value → Items
append_item nil v = cons v nil
append_item (cons w xs) v = cons w (append_item xs v)

-- `v == s` for a text `s`
abbrev pub is_text : Option Value → String → Bool
is_text (some (str t)) s = t =s= s
is_text _ s = false

-- `v == n` for a number `n`
abbrev pub is_num : Option Value → ℕ → Bool
is_num (some (num m)) n = m == n
is_num _ n = false
