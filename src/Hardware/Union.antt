-- ===== src/Hardware/Union.antt =====
-- What the table of several cores offers: the capabilities of each of them.
use librga_rockchip.Base.{ℕ, ◌≡◌, refl, List, [], ◌∷◌, some, Bool, ◌||◌, false, arith}
use librga_rockchip.Base.Bits.{bit_or, test_bit, test_bit-bit_or}
use librga_rockchip.Status.{success}
use librga_rockchip.Version.{Version}
use librga_rockchip.Hardware.{InfoEntry, merge_table}
use librga_rockchip.Hardware.Select.{select_entry}
use librga_rockchip.Hardware.Info.{rga_get_info, get_info_loop}

-- The rows of the recognised cores, merged into the table one after the other.
abbrev pub merge_all : InfoEntry → List InfoEntry → InfoEntry
merge_all t [] = t
merge_all t (e ∷ es) = merge_all (merge_table t e) es

-- Each core is recognised, by the row in the same place.
abbrev pub Recognised : List Version → List InfoEntry → Type 0
Recognised [] [] = Unit
Recognised [] (e ∷ es) = ⊥
Recognised (v ∷ vs) [] = ⊥
Recognised (v ∷ vs) (e ∷ es) = (select_entry v ≡ some e) × Recognised vs es

loop-merge_all :
    (first : Version) (vs : List Version) (es : List InfoEntry) (t : InfoEntry)
    → Recognised vs es
    → get_info_loop first vs t ≡ (success, merge_all t es)
unfolding get_info_loop
loop-merge_all first [] [] t h = refl
loop-merge_all first [] (e ∷ es) t h = absurd h
loop-merge_all first (v ∷ vs) [] t h = absurd h
loop-merge_all first (v ∷ vs) (e ∷ es) t h =
    rw (h.0, get_info_loop) (loop-merge_all first vs es (merge_table t e) h.1)

pub rga_get_info-merge_all :
    (vs : List Version) (es : List InfoEntry) (t : InfoEntry)
    → Recognised vs es
    → rga_get_info vs t ≡ (success, merge_all t es)
unfolding rga_get_info
rga_get_info-merge_all [] [] t h = refl
rga_get_info-merge_all [] (e ∷ es) t h = absurd h
rga_get_info-merge_all (v ∷ vs) es t h = loop-merge_all v (v ∷ vs) es t h

-- Some row of the list has the flag.
abbrev pub some_has : (InfoEntry → ℕ) → ℕ → List InfoEntry → Bool
some_has word k [] = false
some_has word k (e ∷ es) = test_bit (word e) k || some_has word k es

or_assoc : (a b c : Bool) → ((a || b) || c) ≡ (a || (b || c))
or_assoc a b c = ground arith

or_false : (a : Bool) → a ≡ (a || false)
or_false a = ground arith

words_union :
    (word : InfoEntry → ℕ)
    → ((d m : InfoEntry) → word (merge_table d m) ≡ bit_or (word d) (word m))
    → (es : List InfoEntry) (t : InfoEntry) (k : ℕ)
    → test_bit (word (merge_all t es)) k ≡ (test_bit (word t) k || some_has word k es)
words_union word law [] t k = or_false (test_bit (word t) k)
words_union word law (e ∷ es) t k =
    rw (words_union word law es (merge_table t e) k, law t e, test_bit-bit_or (word t) (word e) k)
      (or_assoc (test_bit (word t) k) (test_bit (word e) k) (some_has word k es))

-- When every core is recognised, rga_get_info succeeds, and the table has exactly the flags that
-- it had before or that the row of some core has: of the versions, the input formats, the output
-- formats and the features.
pub rga_get_info_union :
    (vs : List Version) (es : List InfoEntry) (t : InfoEntry) (k : ℕ)
    → Recognised vs es
    → let r = rga_get_info vs t in
      (r.0 ≡ success)
      × (test_bit r.1.version k ≡ (test_bit t.version k || some_has (λ e. e.version) k es))
      × (test_bit r.1.input_format k
          ≡ (test_bit t.input_format k || some_has (λ e. e.input_format) k es))
      × (test_bit r.1.output_format k
          ≡ (test_bit t.output_format k || some_has (λ e. e.output_format) k es))
      × (test_bit r.1.feature k ≡ (test_bit t.feature k || some_has (λ e. e.feature) k es))
unfolding merge_table
rga_get_info_union vs es t k h = rw (rga_get_info-merge_all vs es t h) (
  refl,
  words_union (λ e. e.version) (λ d m. refl) es t k,
  words_union (λ e. e.input_format) (λ d m. refl) es t k,
  words_union (λ e. e.output_format) (λ d m. refl) es t k,
  words_union (λ e. e.feature) (λ d m. refl) es t k,
)
