-- ===== src/Job/Linked/Keyed.antt =====
-- Keys and values of the items: a key is in the list once.
use librga_rockchip.Base.{
  ℕ, ◌≡◌, ◌≢◌, refl, [], ◌∷◌, ◌++◌, ◌==◌, arith, if◌then◌else◌, sym, ap, subst, Bool-cases, inl,
  inr,
}
use librga_rockchip.Job.Linked.Shape.{Items, Distinct}
use librga_rockchip.Job.Linked.Find.{address_of, value_of, without}

-- Every key once, and no job that is NULL.
abbrev pub Keyed : Items → Type 0
Keyed [] = Unit {0}
Keyed ((a, k, v) ∷ xs) = (v ≢ 0) × (value_of xs k ≡ 0) × Keyed xs

-- A key is found by address exactly when it is found by value.
pub value-address :
    (xs : Items) (key : ℕ) → Distinct xs → Keyed xs → address_of xs key ≡ 0 → value_of xs key ≡ 0
value-address [] key d f e = refl
value-address ((a, k, v) ∷ xs) key d f e = ground (arith, value-address xs key d.2 f.2)

pub address-value : (xs : Items) (key : ℕ) → Keyed xs → address_of xs key ≢ 0 → value_of xs key ≢ 0
address-value [] key f e = absurd (e refl)
address-value ((a, k, v) ∷ xs) key f e = ground (arith, address-value xs key f.2)

value_of-tail :
    (b i w : ℕ) (xs : Items) (k : ℕ)
    → w ≢ 0
    → value_of ((b, i, w) ∷ xs) k ≡ 0
    → (i ≢ k) × (value_of xs k ≡ 0)
value_of-tail b i w xs k f e = ground arith

pub value_of-append :
    (xs : Items) (a k v key : ℕ)
    → value_of xs k ≡ 0
    → Keyed xs
    → value_of (xs ++ (a, k, v) ∷ []) key ≡ (if k == key then v else value_of xs key)
value_of-append [] a k v key e f = ground arith
value_of-append ((b, i, w) ∷ xs) a k v key e f = ground (
  arith,
  f.0,
  (value_of-tail b i w xs k f.0 e).0,
  value_of-append xs a k v key (value_of-tail b i w xs k f.0 e).1 f.2,
)

pub Keyed-append :
    (xs : Items) (a k v : ℕ) → v ≢ 0 → value_of xs k ≡ 0 → Keyed xs → Keyed (xs ++ (a, k, v) ∷ [])
Keyed-append [] a k v f e g = (f, refl, tt)
Keyed-append ((b, i, w) ∷ xs) a k v f e g =
    let (apart, e') = value_of-tail b i w xs k g.0 e in
    (
      g.0,
      ground (arith, apart, g.1, value_of-append xs a k v i e' g.2),
      Keyed-append xs a k v f e' g.2,
    )

pub value_of-without :
    (xs : Items) (k key : ℕ)
    → Keyed xs
    → value_of (without xs k) key ≡ (if k == key then 0 else value_of xs key)
value_of-without [] k key f = ground arith
value_of-without ((a, i, v) ∷ xs) k key f = ground (arith, f.1, value_of-without xs k key f.2)

pub without-Keyed : (xs : Items) (k : ℕ) → Keyed xs → Keyed (without xs k)
without-Keyed [] k f = tt
without-Keyed ((a, i, v) ∷ xs) k f = elim (Bool-cases (i == k)) [
  | inl e ↦ subst Keyed (ap (λ b. if b then xs else (a, i, v) ∷ without xs k) (sym e)) f.2
  | inr e ↦
      subst Keyed (ap (λ b. if b then xs else (a, i, v) ∷ without xs k) (sym e))
        (f.0, ground (arith, f.1, value_of-without xs k i f.2), without-Keyed xs k f.2)
]
