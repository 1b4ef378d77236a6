-- ===== src/Extents/Layout.antt =====
-- The strides of a permuted order address every element once.
use underling.Common.{ℕ, zero, suc, ◌+◌, ◌*◌, ◌<◌, ◌≡◌, refl, sym, ◌∙◌, ◌≢◌, arith}
use underling.Extents.Defs.{Four, get, set, packed_strides}

-- The order names four different directions.
pub record IsOrder (o : Four) : Type 0 where
  pub lt0 : o.i0 < 4
  pub lt1 : o.i1 < 4
  pub lt2 : o.i2 < 4
  pub lt3 : o.i3 < 4
  pub ne01 : o.i0 ≢ o.i1
  pub ne02 : o.i0 ≢ o.i2
  pub ne03 : o.i0 ≢ o.i3
  pub ne12 : o.i1 ≢ o.i2
  pub ne13 : o.i1 ≢ o.i3
  pub ne23 : o.i2 ≢ o.i3

get-set_self : (a : Four) (k v : ℕ) → k < 4 → get (set a k v) k ≡ v
unfolding get set
get-set_self a k v h = ground arith

get-set_ne : (a : Four) (j k v : ℕ) → j ≢ k → get (set a k v) j ≡ get a j
unfolding get set
get-set_ne a j k v h = ground arith

pub get_order :
    (o : Four) → (get o 0 ≡ o.i0) × (get o 1 ≡ o.i1) × (get o 2 ≡ o.i2) × (get o 3 ≡ o.i3)
unfolding get
get_order o = (refl, refl, refl, refl)

module _ (o s t : Four) (h : IsOrder o) where
  -- Each stride is the product of the sizes that are faster.
  pub packed_strides-get :
      (get (packed_strides o s t) o.i0 ≡ 1)
      × (get (packed_strides o s t) o.i1 ≡ get s o.i0)
      × (get (packed_strides o s t) o.i2 ≡ get s o.i0 * get s o.i1)
      × (get (packed_strides o s t) o.i3 ≡ get s o.i0 * get s o.i1 * get s o.i2)
  unfolding packed_strides
  packed_strides-get = grind (arith, get-set_self, get-set_ne, get_order o)

-- A number below `a` and a multiple of `a` are read off their sum.
digits_unique : (a x x' y y' : ℕ) → x < a → x' < a → x + a * y ≡ x' + a * y' → (x ≡ x') × (y ≡ y')
digits_unique a x x' zero zero h h' e = omega arith
digits_unique a x x' zero (suc y') h h' e = absurd (omega arith)
digits_unique a x x' (suc y) zero h h' e = absurd (omega arith)
digits_unique a x x' (suc y) (suc y') h h' e =
    omega (arith, digits_unique a x x' y y' h h' (omega arith))

digits-lt : (a b x y : ℕ) → x < a → y < b → x + a * y < a * b
digits-lt a b x y h h' = grind arith

-- How many elements there are, and where one of them stands.
abbrev pub count : Four → Four → ℕ
count o s = get s o.i0 * (get s o.i1 * (get s o.i2 * get s o.i3))

abbrev pub address : Four → Four → Four → ℕ
address o t x =
    get x o.i0 * get t o.i0
    + get x o.i1 * get t o.i1
    + get x o.i2 * get t o.i2
    + get x o.i3 * get t o.i3

-- An index within the sizes.
pub record IsWithin (o s x : Four) : Type 0 where
  pub in0 : get x o.i0 < get s o.i0
  pub in1 : get x o.i1 < get s o.i1
  pub in2 : get x o.i2 < get s o.i2
  pub in3 : get x o.i3 < get s o.i3

abbrev nested : (a b c x y z u : ℕ) → ℕ
nested a b c x y z u = x + a * (y + b * (z + c * u))

module _ (o s t x : Four) (h : IsOrder o) where
  address-nested :
      address o (packed_strides o s t) x
      ≡ nested
          (get s o.i0)
          (get s o.i1)
          (get s o.i2)
          (get x o.i0)
          (get x o.i1)
          (get x o.i2)
          (get x o.i3)
  address-nested = let e = packed_strides-get o s t h in rw (e.0, e.1, e.2, e.3) (omega arith)

  -- With packed strides of an order, the address of an index within the sizes lies below the number of elements.
  pub address-lt-count : IsWithin o s x → address o (packed_strides o s t) x < count o s
  address-lt-count i =
      rw address-nested
        (digits-lt _ _ _ _ i.in0 (digits-lt _ _ _ _ i.in1 (digits-lt _ _ _ _ i.in2 i.in3)))

-- With packed strides of an order, two indices within the sizes have the same address only if they agree in every direction.
pub address-injective :
    (o s t x y : Four)
    → IsOrder o
    → IsWithin o s x
    → IsWithin o s y
    → address o (packed_strides o s t) x ≡ address o (packed_strides o s t) y
    → (get x o.i0 ≡ get y o.i0)
      × (get x o.i1 ≡ get y o.i1)
      × (get x o.i2 ≡ get y o.i2)
      × (get x o.i3 ≡ get y o.i3)
address-injective o s t x y h i j e =
    let p =
      digits_unique _ _ _ _ _ i.in0 j.in0
        (sym (address-nested o s t x h) ∙ e ∙ address-nested o s t y h) in
    let q = digits_unique _ _ _ _ _ i.in1 j.in1 p.1 in
    let r = digits_unique _ _ _ _ _ i.in2 j.in2 q.1 in (p.0, q.0, r.0, r.1)
