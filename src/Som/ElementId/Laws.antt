-- ===== src/Som/ElementId/Laws.antt =====
-- Unique ids: `ElementIdTracker::register` of src/som/element_id.rs.
use plasmate.Common.{
  ℕ, ◌+◌, ◌≤◌, ◌≡◌, ◌≢◌, refl, ap, sym, ◌∙◌, true, List, [], ◌∷◌, ◌++◌, append-nil,
  append-cancel_left, arith, length, All, Bool-cases, ◌==◌, inl, inr, if◌then◌else◌,
}
use plasmate.Text.{Text, codes, text_eq, text_eq_iff}
use plasmate.Assoc.{get}
use plasmate.Assoc.Laws.{get-insert}
use plasmate.Som.ElementId.{ElementIdTracker, or_zero, register, register_all}
use plasmate.Som.ElementId.Decimal.{decimal, decimal-injective}

append-injective :
    (a b : Text) {s t : Text} → length a ≡ length b → a ++ s ≡ b ++ t → (a ≡ b) × (s ≡ t)
append-injective [] [] l e = (refl, e)
append-injective [] (y ∷ b) l e = absurd (omega (arith, l))
append-injective (x ∷ a) [] l e = absurd (omega (arith, l))
append-injective (x ∷ a) (y ∷ b) {s} {t} l e =
    let heads : x ≡ y = cc in
    let tails : a ++ s ≡ b ++ t = cc in
    let (p, q) = append-injective a b (omega (arith, l)) tails in (rw (heads, p) refl, q)

abbrev suffix : ℕ → Text
suffix n = if n == 1 then [] else codes "_" ++ decimal n

-- The id that is handed out for the occurrence `n` of `id`.
unfoldable pub numbered : Text → ℕ → Text
numbered id n = if n == 1 then id else id ++ (codes "_" ++ decimal n)

numbered-suffix : (id : Text) (n : ℕ) → numbered id n ≡ id ++ suffix n
unfolding numbered
numbered-suffix id n = elim (Bool-cases (n == 1)) [
  | inl e ↦ rw e (sym (append-nil id))
  | inr e ↦ rw e refl
]

suffix-injective : (m n : ℕ) → suffix m ≡ suffix n → m ≡ n
suffix-injective m n e = elim (Bool-cases (m == 1)) [
  | inl h ↦ elim (Bool-cases (n == 1)) [
    | inl k ↦ ground (arith, h, k)
    | inr k ↦ let bad : [] ≡ codes "_" ++ decimal n = rw (h, k) at e in cc
  ]
  | inr h ↦ elim (Bool-cases (n == 1)) [
    | inl k ↦ let bad : codes "_" ++ decimal m ≡ [] = rw (h, k) at e in cc
    | inr k ↦
        let same : codes "_" ++ decimal m ≡ codes "_" ++ decimal n = rw (h, k) at e in
        decimal-injective m n (append-cancel_left (codes "_") (decimal m) (decimal n) same)
  ]
]

numbered-injective :
    (a b : Text) (m n : ℕ) → length a ≡ length b → numbered a m ≡ numbered b n → (a ≡ b) × (m ≡ n)
numbered-injective a b m n l e =
    let same : a ++ suffix m ≡ b ++ suffix n =
      sym (numbered-suffix a m) ∙ e ∙ numbered-suffix b n in
    let (p, q) = append-injective a b l same in (p, suffix-injective m n q)

abbrev count : ElementIdTracker → Text → ℕ
count t id = or_zero (get id t.seen)

count-register :
    (t : ElementIdTracker) (id other : Text)
    → count (register t id).0 other ≡ (if text_eq id other then count t id + 1 else count t other)
unfolding register
count-register t id other = elim (Bool-cases (text_eq id other)) [
  | inl e ↦ rw (get-insert id other (count t id + 1) t.seen, e) refl
  | inr e ↦ rw (get-insert id other (count t id + 1) t.seen, e) refl
]

-- What the tracker may still hand out: a later occurrence of an id of the length `k`.
record IsFresh (t : ElementIdTracker) (k : ℕ) (out : Text) : Type 0 where
  id : Text
  n : ℕ
  is_numbered : out ≡ numbered id n
  is_long : length id ≡ k
  is_later : count t id + 1 ≤ n

abbrev pub IsDistinct : List Text → Type 0
IsDistinct [] = Unit
IsDistinct (x ∷ xs) = All (λ y. y ≢ x) xs × IsDistinct xs

register-numbered :
    (t : ElementIdTracker) (id : Text) → (register t id).1 ≡ numbered id (count t id + 1)
unfolding register numbered
register-numbered t id = refl

IsFresh-register :
    (t : ElementIdTracker) (id : Text) (k : ℕ) (out : Text)
    → length id ≡ k
    → IsFresh (register t id).0 k out
    → (out ≢ (register t id).1) × IsFresh t k out
IsFresh-register t id k out l f =
    let known = count-register t id f.id in
    (
      (λ same.
          let collide =
            numbered-injective f.id id f.n (count t id + 1) (f.is_long ∙ sym l)
              (sym f.is_numbered ∙ same ∙ register-numbered t id) in
          let seen : text_eq id f.id ≡ true = (text_eq_iff id f.id).1 (sym collide.0) in
          let bad = f.is_later in ground (arith, known, seen, bad, collide.1)),
      record {
        id = f.id;
        n = f.n;
        is_numbered = f.is_numbered;
        is_long = f.is_long;
        is_later = elim (Bool-cases (text_eq id f.id)) [
          | inl e ↦
              let same : count t f.id ≡ count t id =
                ap (count t) (sym ((text_eq_iff id f.id).0 e)) in
              let now : count (register t id).0 f.id ≡ count t id + 1 = known ∙ rw e refl in
              omega (arith, f.is_later, same, now)
          | inr e ↦
              let now : count (register t id).0 f.id ≡ count t f.id = known ∙ rw e refl in
              omega (arith, f.is_later, now)
        ];
      },
    )

All-IsFresh :
    (t : ElementIdTracker) (id : Text) (k : ℕ) (outs : List Text)
    → length id ≡ k
    → All (IsFresh (register t id).0 k) outs
    → All (λ y. y ≢ (register t id).1) outs × All (IsFresh t k) outs
All-IsFresh t id k [] l h = (tt, tt)
All-IsFresh t id k (out ∷ outs) l (f, h) =
    let (ne, g) = IsFresh-register t id k out l f in
    let (nes, gs) = All-IsFresh t id k outs l h in ((ne, nes), (g, gs))

register_all-IsFresh :
    (t : ElementIdTracker) (k : ℕ) (ids : List Text)
    → All (λ id. length id ≡ k) ids
    → All (IsFresh t k) (register_all t ids) × IsDistinct (register_all t ids)
unfolding register_all
register_all-IsFresh t k [] h = (tt, tt)
register_all-IsFresh t k (id ∷ ids) (l, h) =
    let (fs, ds) = register_all-IsFresh (register t id).0 k ids h in
    let (nes, gs) = All-IsFresh t id k (register_all (register t id).0 ids) l fs in
    (
      (
        record {
          id = id;
          n = count t id + 1;
          is_numbered = register-numbered t id;
          is_long = l;
          is_later = omega arith;
        },
        gs,
      ),
      (nes, ds),
    )

-- Of ids that are as long as each other, as those of `generate_element_id` are, the tracker of a page
-- hands out no id twice, whatever ids were registered before.
pub register_all-IsDistinct :
    (t : ElementIdTracker) (k : ℕ) (ids : List Text)
    → All (λ id. length id ≡ k) ids
    → IsDistinct (register_all t ids)
register_all-IsDistinct t k ids h = (register_all-IsFresh t k ids h).1
