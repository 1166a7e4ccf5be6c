-- ===== src/Base/Bytes.antt =====
-- Byte arrays: `std::copy_n` into an array, and the big-endian words of llarp/util/endian.hpp.
use Prim.Native.Nat.{ℕ, zero, suc, ◌+◌, ◌*◌, ◌/◌, ◌%◌, ◌^◌, ◌≤◌, ◌<◌}
use mathlib.Core.Path.{◌≡◌, refl, ap, ◌∙◌, sym}
use mathlib.Core.List.{List, [], ◌∷◌, ◌++◌}
use native.Mathlib.Omega.{arith}
use native.Mathlib.Nat.{pow-suc, suc-add, zero-add}
use native.Mathlib.Decide.{dec_lt}
use lokinet.Base.Lists.{
  length, get_elem?, take, drop, length-append, get_elem?_ext, get_elem?-take, take_all,
  get_elem?-drop, length-drop, get_elem?-take_ge,
}

abbrev pub Bytes : Type 0
Bytes = List ℕ

module _ {ℓ} {A : Type ℓ} where
  -- `std::copy_n(src.data(), src.size(), dst.data() + off)`; what would land behind the array is cut.
  unfoldable pub copy_at : ℕ → List A → List A → List A
  copy_at off src [] = []
  copy_at zero [] (d ∷ ds) = d ∷ ds
  copy_at zero (s ∷ ss) (d ∷ ds) = s ∷ copy_at zero ss ds
  copy_at (suc n) src (d ∷ ds) = d ∷ copy_at n src ds

  pub length-copy_at : (off : ℕ) (src dst : List A) → length (copy_at off src dst) ≡ length dst
  unfolding copy_at
  length-copy_at off src [] = refl
  length-copy_at zero [] (d ∷ ds) = refl
  length-copy_at zero (s ∷ ss) (d ∷ ds) = ap suc (length-copy_at zero ss ds)
  length-copy_at (suc n) src (d ∷ ds) = ap suc (length-copy_at n src ds)

  -- Outside the copied range the array keeps its bytes.
  pub get_elem?-copy_at_outside :
      (off : ℕ) (src dst : List A) (p : ℕ)
      → (p < off → ⊥)
      → (off + length src ≤ p)
      → get_elem? (copy_at off src dst) p ≡ get_elem? dst p
  unfolding copy_at
  get_elem?-copy_at_outside off src [] p n h = refl
  get_elem?-copy_at_outside zero [] (d ∷ ds) p n h = refl
  get_elem?-copy_at_outside zero (s ∷ ss) (d ∷ ds) zero n h = absurd (omega arith)
  get_elem?-copy_at_outside zero (s ∷ ss) (d ∷ ds) (suc p) n h =
      get_elem?-copy_at_outside zero ss ds p (λ q. elim q [ ]) (omega arith)
  get_elem?-copy_at_outside (suc k) src (d ∷ ds) zero n h = refl
  get_elem?-copy_at_outside (suc k) src (d ∷ ds) (suc p) n h =
      get_elem?-copy_at_outside k src ds p (λ q. n (omega arith)) (omega arith)

  pub get_elem?-copy_at_before :
      (off : ℕ) (src dst : List A) (p : ℕ)
      → p < off
      → get_elem? (copy_at off src dst) p ≡ get_elem? dst p
  unfolding copy_at
  get_elem?-copy_at_before off src [] p h = refl
  get_elem?-copy_at_before zero src (d ∷ ds) p h = elim h [ ]
  get_elem?-copy_at_before (suc k) src (d ∷ ds) zero h = refl
  get_elem?-copy_at_before (suc k) src (d ∷ ds) (suc p) h =
      get_elem?-copy_at_before k src ds p (omega arith)

  pub get_elem?-copy_at :
      (off : ℕ) (src dst : List A) (i : ℕ)
      → i < length src
      → off + i < length dst
      → get_elem? (copy_at off src dst) (off + i) ≡ get_elem? src i
  unfolding copy_at
  get_elem?-copy_at off src [] i h b = absurd (omega arith)
  get_elem?-copy_at zero [] (d ∷ ds) i h b = absurd (omega arith)
  get_elem?-copy_at zero (s ∷ ss) (d ∷ ds) zero h b = refl
  get_elem?-copy_at zero (s ∷ ss) (d ∷ ds) (suc i) h b =
      ground (arith, get_elem?-copy_at zero ss ds i (omega arith) (omega arith))
  get_elem?-copy_at (suc k) src (d ∷ ds) i h b =
      ground (arith, suc-add k i, get_elem?-copy_at k src ds i h (omega arith))

  copy_at-nil : (dst : List A) → copy_at 0 [] dst ≡ dst
  unfolding copy_at
  copy_at-nil [] = refl
  copy_at-nil (d ∷ ds) = refl

  -- A copy over the middle of an array.
  pub copy_at-append :
      (pre mid src post : List A)
      → length mid ≡ length src
      → copy_at (length pre) src (pre ++ mid ++ post) ≡ pre ++ src ++ post
  unfolding copy_at
  copy_at-append [] [] [] post h = copy_at-nil post
  copy_at-append [] [] (s ∷ ss) post h = absurd (omega arith)
  copy_at-append [] (m ∷ ms) [] post h = absurd (omega arith)
  copy_at-append [] (m ∷ ms) (s ∷ ss) post h =
      ap (◌∷◌ s) (copy_at-append [] ms ss post (omega arith))
  copy_at-append (p ∷ ps) mid src post h = ap (◌∷◌ p) (copy_at-append ps mid src post h)

-- Ranges of an array after a copy into it.
module _ {ℓ} {A : Type ℓ} where
  slice_ext :
      (n off off' : ℕ) (xs ys : List A)
      → ((i : ℕ) → i < n → get_elem? xs (off + i) ≡ get_elem? ys (off' + i))
      → take n (drop off xs) ≡ take n (drop off' ys)
  slice_ext n off off' xs ys h = get_elem?_ext _ _ λ i. elim (dec_lt i n) [
    | yes lt ↦
        get_elem?-take n _ i lt
        ∙ get_elem?-drop off xs i
        ∙ h i lt
        ∙ sym (get_elem?-drop off' ys i)
        ∙ sym (get_elem?-take n _ i lt)
    | no ge ↦ get_elem?-take_ge n _ i (omega arith) ∙ sym (get_elem?-take_ge n _ i (omega arith))
  ]

  -- the range that was written
  pub slice-copy_at :
      (n off : ℕ) (src dst : List A)
      → length src ≡ n
      → off + n ≤ length dst
      → take n (drop off (copy_at off src dst)) ≡ src
  slice-copy_at n off src dst e b =
      slice_ext n off 0 _ src
        (λ i lt. rw zero-add (get_elem?-copy_at off src dst i (omega arith) (omega arith)))
      ∙ take_all n src (omega arith)

  -- a range before the written one
  pub slice-copy_at_before :
      (n off off' : ℕ) (src dst : List A)
      → off + n ≤ off'
      → take n (drop off (copy_at off' src dst)) ≡ take n (drop off dst)
  slice-copy_at_before n off off' src dst b =
      slice_ext n off off _ dst
        λ i lt. get_elem?-copy_at_before off' src dst (off + i) (omega arith)

  -- a range behind the written one
  pub drop-copy_at_after :
      (i off : ℕ) (src dst : List A)
      → off + length src ≤ i
      → drop i (copy_at off src dst) ≡ drop i dst
  drop-copy_at_after i off src dst b = get_elem?_ext _ _ λ j.
      get_elem?-drop i _ j
      ∙ get_elem?-copy_at_outside off src dst (i + j) (λ q. omega arith) (omega arith)
      ∙ sym (get_elem?-drop i dst j)

  copy_at-start :
      (src dst : List A)
      → length src ≤ length dst
      → copy_at 0 src dst ≡ src ++ drop (length src) dst
  unfolding copy_at
  copy_at-start [] [] h = refl
  copy_at-start [] (d ∷ ds) h = refl
  copy_at-start (s ∷ ss) [] h = absurd (omega arith)
  copy_at-start (s ∷ ss) (d ∷ ds) h = ap (◌∷◌ s) (copy_at-start ss ds (omega arith))

  -- what stands behind the offset of a copy
  pub drop-copy_at_rest :
      (off : ℕ) (src dst : List A)
      → off + length src ≤ length dst
      → drop off (copy_at off src dst) ≡ src ++ drop (off + length src) dst
  unfolding copy_at
  drop-copy_at_rest zero src dst h = rw zero-add (copy_at-start src dst (omega arith))
  drop-copy_at_rest (suc n) src [] h = absurd (omega arith)
  drop-copy_at_rest (suc n) src (d ∷ ds) h = rw suc-add (drop-copy_at_rest n src ds (omega arith))

  -- a copy up to the end of the array
  pub drop-copy_at :
      (off : ℕ) (src dst : List A)
      → off + length src ≡ length dst
      → drop off (copy_at off src dst) ≡ src
  drop-copy_at off src dst e =
      sym (
        take_all (length src) _
          (omega (arith, length-drop off (copy_at off src dst), length-copy_at off src dst)))
      ∙ slice-copy_at (length src) off src dst refl (omega arith)

-- `htobe16buf`, `htobe64buf`: the low `n` bytes of a word, the highest first
unfoldable pub to_be : ℕ → ℕ → Bytes
to_be zero v = []
to_be (suc n) v = to_be n (v / 256) ++ (v % 256) ∷ []

-- `bufbe16toh`, `bufbe64toh`
unfoldable pub of_be_from : ℕ → Bytes → ℕ
of_be_from acc [] = acc
of_be_from acc (b ∷ bs) = of_be_from (acc * 256 + b) bs

abbrev pub of_be : Bytes → ℕ
of_be = of_be_from 0

-- the word of `n` bytes that stands at `off`
abbrev pub word_at : ℕ → ℕ → Bytes → ℕ
word_at n off bs = of_be (take n (drop off bs))

of_be_from-append :
    (acc : ℕ) (bs : Bytes) (b : ℕ) → of_be_from acc (bs ++ b ∷ []) ≡ of_be_from acc bs * 256 + b
unfolding of_be_from
of_be_from-append acc [] b = refl
of_be_from-append acc (x ∷ xs) b = of_be_from-append (acc * 256 + x) xs b

pub length-to_be : (n v : ℕ) → length (to_be n v) ≡ n
unfolding to_be
length-to_be zero v = refl
length-to_be (suc n) v =
    omega (arith, length-append (to_be n (v / 256)) (v % 256 ∷ []), length-to_be n (v / 256))

pub of_be-to_be : (n v : ℕ) → v < 256 ^ n → of_be (to_be n v) ≡ v
unfolding to_be of_be_from
of_be-to_be zero v h = omega arith
of_be-to_be (suc n) v h = omega (
  arith,
  of_be_from-append 0 (to_be n (v / 256)) (v % 256),
  of_be-to_be n (v / 256) (omega (arith, pow-suc 256 n)),
)
