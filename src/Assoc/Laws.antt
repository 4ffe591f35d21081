-- ===== src/Assoc/Laws.antt =====
-- The laws of the maps.
use plasmate.Common.{
  suc, ◌+◌, ◌≤◌, ◌≡◌, ◌≢◌, refl, ap, sym, ◌∙◌, true, false, none, some, List, [], ◌∷◌, arith,
  length, All, Bool-cases, inl, inr, if◌then◌else◌,
}
use plasmate.Text.{Text, text_eq, text_eq_iff, text_eq_refl}
use plasmate.Assoc.{get, insert, remove}

module _ {V : Type 0} where
  -- No key stands twice.
  abbrev pub IsMap : List (Text × V) → Type 0
  IsMap [] = Unit
  IsMap ((k, v) ∷ m) = All (λ e. e.0 ≢ k) m × IsMap m

  pub get-insert :
      (k j : Text) (v : V) (m : List (Text × V))
      → get j (insert k v m) ≡ (if text_eq k j then some v else get j m)
  unfolding get insert
  get-insert k j v [] = refl
  get-insert k j v ((i, w) ∷ m) =
      ground (arith, text_eq_iff k j, text_eq_iff i k, text_eq_iff i j, get-insert k j v m)

  pub get-insert_self : (k : Text) (v : V) (m : List (Text × V)) → get k (insert k v m) ≡ some v
  get-insert_self k v m = get-insert k k v m ∙ rw (text_eq_refl k) refl

  pub get_absent : (k : Text) (m : List (Text × V)) → All (λ e. e.0 ≢ k) m → get k m ≡ none
  unfolding get
  get_absent k [] h = refl
  get_absent k ((j, v) ∷ m) (ne, h) = ground (arith, text_eq_iff j k, get_absent k m h)

  pub get-remove :
      (k j : Text) (m : List (Text × V))
      → IsMap m
      → get j (remove k m) ≡ (if text_eq k j then none else get j m)
  unfolding get remove
  get-remove k j [] u = ground arith
  get-remove k j ((i, w) ∷ m) (fresh, u) = elim (Bool-cases (text_eq i k)) [
    | inl e ↦
        let same : i ≡ k = (text_eq_iff i k).0 e in
        let gone : get i m ≡ none = get_absent i m fresh in
        ground (arith, text_eq_iff k j, text_eq_iff i j)
    | inr e ↦ ground (arith, text_eq_iff k j, text_eq_iff i j, text_eq_iff i k, get-remove k j m u)
  ]

  pub get-insert_same :
      (k j : Text) (v : V) (m : List (Text × V))
      → text_eq k j ≡ true
      → get j (insert k v m) ≡ some v
  get-insert_same k j v m e = get-insert k j v m ∙ rw e refl

  pub get-insert_other :
      (k j : Text) (v : V) (m : List (Text × V))
      → text_eq k j ≡ false
      → get j (insert k v m) ≡ get j m
  get-insert_other k j v m e = get-insert k j v m ∙ rw e refl

  pub get-remove_same :
      (k j : Text) (m : List (Text × V)) → IsMap m → text_eq k j ≡ true → get j (remove k m) ≡ none
  get-remove_same k j m u e = get-remove k j m u ∙ rw e refl

  pub get-remove_other :
      (k j : Text) (m : List (Text × V))
      → IsMap m
      → text_eq k j ≡ false
      → get j (remove k m) ≡ get j m
  get-remove_other k j m u e = get-remove k j m u ∙ rw e refl

  All-remove :
      (P : Text × V → Type 0) (k : Text) (m : List (Text × V)) → All P m → All P (remove k m)
  unfolding remove
  All-remove P k [] h = tt
  All-remove P k ((j, v) ∷ m) (p, h) = elim (Bool-cases (text_eq j k)) [
    | inl e ↦ rw e h
    | inr e ↦ rw e (p, All-remove P k m h)
  ]

  All-fresh-insert :
      (i k : Text) (v : V) (m : List (Text × V))
      → k ≢ i
      → All (λ e. e.0 ≢ i) m
      → All (λ e. e.0 ≢ i) (insert k v m)
  unfolding insert
  All-fresh-insert i k v [] ne h = (ne, tt)
  All-fresh-insert i k v ((j, w) ∷ m) ne (p, h) = elim (Bool-cases (text_eq j k)) [
    | inl e ↦ rw e (p, h)
    | inr e ↦ rw e (p, All-fresh-insert i k v m ne h)
  ]

  pub insert-IsMap : (k : Text) (v : V) (m : List (Text × V)) → IsMap m → IsMap (insert k v m)
  unfolding insert
  insert-IsMap k v [] u = (tt, tt)
  insert-IsMap k v ((j, w) ∷ m) (fresh, u) = elim (Bool-cases (text_eq j k)) [
    | inl e ↦ rw e (fresh, u)
    | inr e ↦
        let ne : k ≢ j = λ same. let t = (text_eq_iff j k).1 (sym same) in cc in
        rw e (All-fresh-insert j k v m ne fresh, insert-IsMap k v m u)
  ]

  pub remove-IsMap : (k : Text) (m : List (Text × V)) → IsMap m → IsMap (remove k m)
  unfolding remove
  remove-IsMap k [] u = tt
  remove-IsMap k ((j, w) ∷ m) (fresh, u) = elim (Bool-cases (text_eq j k)) [
    | inl e ↦ rw e u
    | inr e ↦ rw e (All-remove (λ e. e.0 ≢ j) k m fresh, remove-IsMap k m u)
  ]

  pub length-insert_new :
      (k : Text) (v : V) (m : List (Text × V))
      → get k m ≡ none
      → length (insert k v m) ≡ length m + 1
  unfolding get insert
  length-insert_new k v [] h = omega arith
  length-insert_new k v ((j, w) ∷ m) h = elim (Bool-cases (text_eq j k)) [
    | inl e ↦ let bad : some w ≡ none = rw e at h in cc
    | inr e ↦ rw e (omega (arith, length-insert_new k v m (rw e at h)))
  ]

  pub length-insert_old :
      (k : Text) (v w : V) (m : List (Text × V))
      → get k m ≡ some w
      → length (insert k v m) ≡ length m
  unfolding get insert
  length-insert_old k v w [] h = cc
  length-insert_old k v w ((j, x) ∷ m) h = elim (Bool-cases (text_eq j k)) [
    | inl e ↦ rw e refl
    | inr e ↦ rw e (ap suc (length-insert_old k v w m (rw e at h)))
  ]

  pub length-remove_old :
      (k : Text) (w : V) (m : List (Text × V))
      → get k m ≡ some w
      → length (remove k m) + 1 ≡ length m
  unfolding get remove
  length-remove_old k w [] h = cc
  length-remove_old k w ((j, x) ∷ m) h = elim (Bool-cases (text_eq j k)) [
    | inl e ↦ rw e (omega arith)
    | inr e ↦ rw e (omega (arith, length-remove_old k w m (rw e at h)))
  ]

  pub length-remove-le : (k : Text) (m : List (Text × V)) → length (remove k m) ≤ length m
  unfolding remove
  length-remove-le k [] = omega arith
  length-remove-le k ((j, x) ∷ m) = ground (arith, length-remove-le k m)
