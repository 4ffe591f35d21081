-- ===== src/Session/Parallel.antt =====
-- Pages that are fetched at once: `fetch_parallel` of src/session/mod.rs. Each fetch is a function of its
-- URL; they end in any order, and each result is written to the place of its URL.
use plasmate.Common.{
  ℕ, zero, suc, ◌<◌, ◌≡◌, refl, ap, sym, ◌∙◌, false, Option, none, some, List, [], ◌∷◌, map, arith,
  length, ltb, All, Bool-cases, inl, inr, ◌⊎◌, ◌==◌, ==_iff, if◌then◌else◌, eq_of_some,
}
use plasmate.Text.{Text}

-- `concurrency.clamp(1, MAX_CONCURRENCY)`
unfoldable pub clamp_concurrency : ℕ → ℕ
clamp_concurrency n = if ltb n 1 then 1 else if ltb 20 n then 20 else n

module _ {A : Type 0} where
  unfoldable pub at : ℕ → List A → Option A
  at i [] = none
  at zero (x ∷ xs) = some x
  at (suc i) (x ∷ xs) = at i xs

  -- `results[i] = x`; the source panics out of range, where the list stays as it is here.
  unfoldable pub write_at : ℕ → A → List A → List A
  write_at i a [] = []
  write_at zero a (x ∷ xs) = a ∷ xs
  write_at (suc i) a (x ∷ xs) = x ∷ write_at i a xs

  unfoldable pub replicate : ℕ → A → List A
  replicate zero a = []
  replicate (suc n) a = a ∷ replicate n a

  unfoldable pub write_all : List (ℕ × A) → List A → List A
  unfolding write_at
  write_all [] results = results
  write_all ((i, a) ∷ indexed) results = write_all indexed (write_at i a results)

  -- The results, from what has ended in the order in which it ended.
  unfoldable pub collect_results : ℕ → A → List (ℕ × A) → List A
  unfolding write_all replicate
  collect_results total not_started indexed = write_all indexed (replicate total not_started)

  length-write_at : (i : ℕ) (a : A) (xs : List A) → length (write_at i a xs) ≡ length xs
  unfolding write_at
  length-write_at i a [] = refl
  length-write_at zero a (x ∷ xs) = refl
  length-write_at (suc i) a (x ∷ xs) = ap suc (length-write_at i a xs)

  length-write_all :
      (indexed : List (ℕ × A)) (xs : List A) → length (write_all indexed xs) ≡ length xs
  unfolding write_all
  length-write_all [] xs = refl
  length-write_all ((i, a) ∷ indexed) xs =
      length-write_all indexed (write_at i a xs) ∙ length-write_at i a xs

  length-replicate : (n : ℕ) (a : A) → length (replicate n a) ≡ n
  unfolding replicate
  length-replicate zero a = refl
  length-replicate (suc n) a = ap suc (length-replicate n a)

  at-write_at_same : (i : ℕ) (a : A) (xs : List A) → i < length xs → at i (write_at i a xs) ≡ some a
  unfolding at write_at
  at-write_at_same i a [] h = absurd (omega arith)
  at-write_at_same zero a (x ∷ xs) h = refl
  at-write_at_same (suc i) a (x ∷ xs) h = at-write_at_same i a xs (omega arith)

  at-write_at_other :
      (i j : ℕ) (a : A) (xs : List A) → (i == j) ≡ false → at j (write_at i a xs) ≡ at j xs
  unfolding at write_at
  at-write_at_other i j a [] h = refl
  at-write_at_other zero zero a (x ∷ xs) h = ground arith
  at-write_at_other zero (suc j) a (x ∷ xs) h = refl
  at-write_at_other (suc i) zero a (x ∷ xs) h = refl
  at-write_at_other (suc i) (suc j) a (x ∷ xs) h = at-write_at_other i j a xs (ground arith)

  at-bound : (i : ℕ) (a : A) (xs : List A) → at i xs ≡ some a → i < length xs
  unfolding at
  at-bound i a [] h = cc
  at-bound zero a (x ∷ xs) h = omega arith
  at-bound (suc i) a (x ∷ xs) h = omega (arith, at-bound i a xs h)

  at-eq :
      (xs ys : List A)
      → length xs ≡ length ys
      → ((i : ℕ) → i < length ys → at i xs ≡ at i ys)
      → xs ≡ ys
  unfolding at
  at-eq [] [] l h = refl
  at-eq [] (y ∷ ys) l h = absurd (omega (arith, l))
  at-eq (x ∷ xs) [] l h = absurd (omega (arith, l))
  at-eq (x ∷ xs) (y ∷ ys) l h =
      let head : x ≡ y = eq_of_some (h zero (omega arith)) in
      let tail : xs ≡ ys = at-eq xs ys (omega (arith, l)) (λ i k. h (suc i) (omega (arith, k))) in
      cc

  -- Which places were written.
  abbrev pub Written : ℕ → List (ℕ × A) → Type 0
  Written i [] = ⊥
  Written i ((j, a) ∷ indexed) = (j ≡ i) ⊎ Written i indexed

  write_all-keeps :
      (rs : List A) (indexed : List (ℕ × A)) (xs : List A) (i : ℕ)
      → All (λ p. at p.0 rs ≡ some p.1) indexed
      → length xs ≡ length rs
      → (at i xs ≡ at i rs) ⊎ Written i indexed
      → at i (write_all indexed xs) ≡ at i rs
  unfolding write_all
  write_all-keeps rs [] xs i c l (inl h) = h
  write_all-keeps rs [] xs i c l (inr h) = absurd h
  write_all-keeps rs ((j, a) ∷ indexed) xs i (ca, c) l h = elim (Bool-cases (j == i)) [
    | inl e ↦
        let same : j ≡ i = (==_iff j i).0 e in
        let here : at i rs ≡ some a = ap (λ k. at k rs) (sym same) ∙ ca in
        let bound : i < length xs = omega (arith, at-bound i a rs here, l) in
        let put : at i (write_at j a xs) ≡ some a =
          ap (λ k. at i (write_at k a xs)) same ∙ at-write_at_same i a xs bound in
        write_all-keeps rs indexed (write_at j a xs) i c (length-write_at j a xs ∙ l)
          (inl (put ∙ sym here))
    | inr e ↦
        write_all-keeps rs indexed (write_at j a xs) i c (length-write_at j a xs ∙ l)
          (still j i a xs rs indexed e h)
  ]
    where
      still :
          (j i : ℕ) (a : A) (xs rs : List A) (indexed : List (ℕ × A))
          → (j == i) ≡ false
          → (at i xs ≡ at i rs) ⊎ Written i ((j, a) ∷ indexed)
          → (at i (write_at j a xs) ≡ at i rs) ⊎ Written i indexed
      still j i a xs rs indexed e (inl h) = inl (at-write_at_other j i a xs e ∙ h)
      still j i a xs rs indexed e (inr (inl same)) =
          let t = (==_iff j i).1 same in absurd (ground arith)
      still j i a xs rs indexed e (inr (inr w)) = inr w

  -- The results of a parallel fetch stand in the order of the URLs, in whatever order the fetches end,
  -- where each that ends gives the result of its URL and each URL's fetch ends.
  pub collect_results-in_order :
      (fetch : Text → A) (urls : List Text) (not_started : A) (indexed : List (ℕ × A))
      → All (λ p. at p.0 (map fetch urls) ≡ some p.1) indexed
      → ((i : ℕ) → i < length urls → Written i indexed)
      → collect_results (length urls) not_started indexed ≡ map fetch urls
  unfolding collect_results
  collect_results-in_order fetch urls not_started indexed c w =
      let sized : length (replicate (length urls) not_started) ≡ length (map fetch urls) =
        length-replicate (length urls) not_started ∙ sym (length-map_of fetch urls) in
      at-eq (write_all indexed (replicate (length urls) not_started)) (map fetch urls)
        (length-write_all indexed (replicate (length urls) not_started) ∙ sized)
        (λ i k.
          write_all-keeps (map fetch urls) indexed (replicate (length urls) not_started) i c sized
            (inr (w i (omega (arith, k, length-map_of fetch urls)))))
    where
      length-map_of : (f : Text → A) (us : List Text) → length (map f us) ≡ length us
      length-map_of f [] = refl
      length-map_of f (u ∷ us) = ap suc (length-map_of f us)
