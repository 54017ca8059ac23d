-- ===== src/Controllers/HashPassword/Stretch.antt =====
-- The loop of doHashPassword ends, and hands the digest the salted password over and over.
use tor_controller.Base.{
  ℕ, zero, suc, ◌+◌, ◌-◌, ◌%◌, ◌≤◌, ◌<◌, ◌≡◌, refl, List, ◌++◌, Option, some, ◌⊎◌, inl, inr, arith,
  ltb, length, take, get_elem?, length-append, length-take, get_elem?-take, get_elem?-append_left,
  get_elem?-append_right, Bool-cases, sym, subst, [],
}
use native.Mathlib.Nat.{mod-eq_of_lt, add-mod_left}
use tor_controller.Controllers.HashPassword.{stretch}

-- `out` is the first `count` bytes of `tmp` repeated without end.
pub record IsCycle (tmp : List ℕ) (count : ℕ) (out : List ℕ) : Type 0 where
  pub size : length out ≡ count
  pub nth : (i : ℕ) → i < count → get_elem? out i ≡ get_elem? tmp (i % length tmp)

abbrev pub Ends : List ℕ → ℕ → Option (List ℕ) → Type 0
Ends tmp count r = (out : List ℕ) × (r ≡ some out) × IsCycle tmp count out

lt_or_add : (i n : ℕ) → (i < n) ⊎ ((j : ℕ) × (i ≡ n + j))
lt_or_add i n = elim (Bool-cases (ltb i n)) [
  | inl e ↦ inl (ground arith)
  | inr e ↦ inr (i - n, ground arith)
]

get_elem?-second_round :
    (tmp out : List ℕ) (count j : ℕ)
    → length tmp + j < count
    → IsCycle tmp (count - length tmp) out
    → get_elem? (tmp ++ out) (length tmp + j) ≡ get_elem? tmp ((length tmp + j) % length tmp)
get_elem?-second_round tmp out count j b h =
    rw (get_elem?-append_right tmp out j, add-mod_left (length tmp) j) (h.nth j (omega arith))

nth-more :
    (tmp out : List ℕ) (count i : ℕ)
    → i < count
    → IsCycle tmp (count - length tmp) out
    → get_elem? (tmp ++ out) i ≡ get_elem? tmp (i % length tmp)
nth-more tmp out count i b h = elim (lt_or_add i (length tmp)) [
  | inl small ↦ rw (mod-eq_of_lt small) (get_elem?-append_left tmp out i small)
  | inr (j, e) ↦ rw e (get_elem?-second_round tmp out count j (omega arith) h)
]

IsCycle-more :
    (tmp out : List ℕ) (count : ℕ)
    → length tmp < count
    → IsCycle tmp (count - length tmp) out
    → IsCycle tmp count (tmp ++ out)
IsCycle-more tmp out count lt h = record {
  size = omega (arith, length-append tmp out, h.size);
  nth = λ i b. nth-more tmp out count i b h;
}

IsCycle-last : (tmp : List ℕ) (count : ℕ) → count ≤ length tmp → IsCycle tmp count (take count tmp)
IsCycle-last tmp count le = record {
  size = length-take count tmp le;
  nth = λ i b.
      let small : i < length tmp = omega arith in
      rw (mod-eq_of_lt small) (get_elem?-take count tmp i b);
}

IsCycle-none : (tmp : List ℕ) → IsCycle tmp 0 []
IsCycle-none tmp = record { size = refl; nth = λ i b. absurd (omega arith) }

-- For a text that is not empty and fuel above the count the loop ends, and what it hands on has as
-- many bytes as the count, each the byte of the text at its index modulo the text's length.
pub stretch-IsCycle :
    (fuel : ℕ) (tmp : List ℕ) (count : ℕ)
    → 0 < length tmp
    → count < fuel
    → Ends tmp count (stretch fuel tmp count)
unfolding stretch
stretch-IsCycle zero tmp count pos lt = absurd (omega arith)
stretch-IsCycle (suc fuel) tmp count pos lt = elim (Bool-cases (ltb 0 count)) [
  | inr done ↦
      let z : count ≡ 0 = ground arith in
      ([], ground arith, subst (λ c. IsCycle tmp c []) (sym z) (IsCycle-none tmp))
  | inl more ↦ elim (Bool-cases (ltb (length tmp) count)) [
    | inl big ↦
        let (out, e, h) = stretch-IsCycle fuel tmp (count - length tmp) pos (ground arith) in
        (tmp ++ out, ground arith, IsCycle-more tmp out count (ground arith) h)
    | inr last ↦ (take count tmp, ground arith, IsCycle-last tmp count (ground arith))
  ]
]
