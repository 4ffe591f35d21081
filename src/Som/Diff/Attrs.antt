-- ===== src/Som/Diff/Attrs.antt =====
-- The changes of attributes as a patch: `diff_attrs` of src/som/diff.rs.
use plasmate.Common.{
  ◌≡◌, ◌↔◌, refl, ap, sym, ◌∙◌, true, not, ◌&&◌, Option, none, some, List, [], ◌∷◌, ◌++◌, arith,
  Bool-cases, Option-cases, eq_of_some, inl, inr, if◌then◌else◌,
}
use plasmate.Text.{Text, text_eq, text_eq_iff}
use plasmate.Assoc.{get, insert, remove}
use plasmate.Assoc.Laws.{IsMap, get-insert, get-remove, get_absent, remove-IsMap}
use plasmate.Som.Diff.Types.{AttrChange, Json}
use plasmate.Som.Diff.Elements.{
  is_some, removed_keys, changed_keys, some_unless_empty, or_empty, diff_objects, diff_attrs,
}

module _ {J : Type 0} where
  -- An object after changes: a change without a new value removes its key.
  abbrev apply_change : AttrChange J → List (Text × J) → List (Text × J)
  apply_change c m = elim c.new [ none ↦ remove c.key m | some v ↦ insert c.key v m ]

  unfoldable pub apply_changes : List (AttrChange J) → List (Text × J) → List (Text × J)
  apply_changes [] m = m
  apply_changes (c ∷ cs) m = apply_changes cs (apply_change c m)

  abbrev pub changes_of : Option (List (AttrChange J)) → List (AttrChange J)
  changes_of none = []
  changes_of (some cs) = cs

  changes_of-some_unless_empty : (cs : List (AttrChange J)) → changes_of (some_unless_empty cs) ≡ cs
  changes_of-some_unless_empty [] = refl
  changes_of-some_unless_empty (c ∷ cs) = refl

  apply_changes-append :
      (cs ds : List (AttrChange J)) (m : List (Text × J))
      → apply_changes (cs ++ ds) m ≡ apply_changes ds (apply_changes cs m)
  unfolding apply_changes
  apply_changes-append [] ds m = refl
  apply_changes-append (c ∷ cs) ds m = apply_changes-append cs ds (apply_change c m)

  apply-removed_keys :
      (k : Text) (old new m : List (Text × J))
      → IsMap m
      → get k (apply_changes (removed_keys old new) m)
        ≡ (if is_some (get k old) && not (is_some (get k new)) then none else get k m)
  unfolding apply_changes removed_keys get
  apply-removed_keys k [] new m u = refl
  apply-removed_keys k ((j, v) ∷ old) new m u = elim (Option-cases (get j new)) [
    | inl h ↦
        let rest = apply-removed_keys k old new (remove j m) (remove-IsMap j m u) in
        let gone = get-remove j k m u in
        elim (Bool-cases (text_eq j k)) [
          | inl e ↦
              let same : j ≡ k = (text_eq_iff j k).0 e in
              let hk : get k new ≡ none = ap (λ i. get i new) (sym same) ∙ h in ground arith
          | inr e ↦ ground arith
        ]
    | inr (w, h) ↦
        let rest = apply-removed_keys k old new m u in
        elim (Bool-cases (text_eq j k)) [
          | inl e ↦
              let same : j ≡ k = (text_eq_iff j k).0 e in
              let hk : get k new ≡ some w = ap (λ i. get i new) (sym same) ∙ h in ground arith
          | inr e ↦ ground arith
        ]
  ]

  module _ (json : Json J) where
    -- What an entry of the new object leaves to do.
    abbrev after_change : Option J → J → Option J → Option J
    after_change none v before = some v
    after_change (some w) v before = if json.json_eq w v then before else some v

    abbrev after_changes : Option J → Option J → Option J → Option J
    after_changes old none before = before
    after_changes old (some v) before = after_change old v before

    apply-changed_keys :
        (k : Text) (old new m : List (Text × J))
        → IsMap new
        → get k (apply_changes (changed_keys json old new) m)
          ≡ after_changes (get k old) (get k new) (get k m)
    unfolding apply_changes changed_keys get
    apply-changed_keys k old [] m u = refl
    apply-changed_keys k old ((j, v) ∷ new) m (fresh, u) = elim (Bool-cases (text_eq j k)) [
      | inl e ↦
          let same : j ≡ k = (text_eq_iff j k).0 e in
          let absent : get k new ≡ none = ap (λ i. get i new) (sym same) ∙ get_absent j new fresh in
          elim (Option-cases (get j old)) [
            | inl h ↦
                let hk : get k old ≡ none = ap (λ i. get i old) (sym same) ∙ h in
                let rest = apply-changed_keys k old new (insert j v m) u in
                let put = get-insert j k v m in ground arith
            | inr (w, h) ↦
                let hk : get k old ≡ some w = ap (λ i. get i old) (sym same) ∙ h in
                let rest_put = apply-changed_keys k old new (insert j v m) u in
                let put = get-insert j k v m in
                let rest = apply-changed_keys k old new m u in ground arith
          ]
      | inr e ↦ elim (Option-cases (get j old)) [
        | inl h ↦
            let rest = apply-changed_keys k old new (insert j v m) u in
            let put = get-insert j k v m in ground arith
        | inr (w, h) ↦
            let rest_put = apply-changed_keys k old new (insert j v m) u in
            let put = get-insert j k v m in
            let rest = apply-changed_keys k old new m u in ground arith
      ]
    ]

    module _ (json_eq_iff : (v w : J) → (json.json_eq v w ≡ true) ↔ (v ≡ w)) where
      after_change-same : (w v : J) → after_change (some w) v (some w) ≡ some v
      after_change-same w v = elim (Bool-cases (json.json_eq w v)) [
        | inl h ↦ rw h (ap some ((json_eq_iff w v).0 h))
        | inr h ↦ rw h refl
      ]

      patch_objects :
          (k : Text) (o n : List (Text × J))
          → IsMap o
          → IsMap n
          → get k (apply_changes (removed_keys o n ++ changed_keys json o n) o) ≡ get k n
      patch_objects k o n uo un =
          let step = apply-changed_keys k o n (apply_changes (removed_keys o n) o) un in
          let gone = apply-removed_keys k o n o uo in
          let both = apply_changes-append (removed_keys o n) (changed_keys json o n) o in
          rw both (
            step ∙ elim (Option-cases (get k n)) [
              | inl h ↦
                  rw (gone, h)
                    (elim (Option-cases (get k o)) [ inl i ↦ rw i refl | inr (w, i) ↦ rw i refl ])
              | inr (v, h) ↦
                  rw (gone, h)
                    (elim (Option-cases (get k o)) [
                      | inl i ↦ rw i refl
                      | inr (w, i) ↦ rw i (after_change-same w v)
                    ])
            ])

      -- The changes of attributes that are reported are a patch: applied to the old object they give an
      -- object with the new value of every key, where both attributes are objects (or absent), no key
      -- stands twice in an object, and the test of equality of JSON values decides equality.
      pub diff_attrs-patch :
          (k : Text) (old new : Option J) (o n : List (Text × J))
          → json.as_object (or_empty json old) ≡ some o
          → json.as_object (or_empty json new) ≡ some n
          → IsMap o
          → IsMap n
          → get k (apply_changes (changes_of (diff_attrs json old new)) o) ≡ get k n
      unfolding diff_attrs diff_objects apply_changes
      diff_attrs-patch k old new o n ho hn uo un =
          elim (Bool-cases (json.json_eq (or_empty json old) (or_empty json new))) [
            | inl h ↦
                let same = (json_eq_iff (or_empty json old) (or_empty json new)).0 h in
                let objects : o ≡ n = eq_of_some (sym ho ∙ ap json.as_object same ∙ hn) in
                rw h (ap (get k) objects)
            | inr h ↦
                rw
                  (
                    h,
                    ho,
                    hn,
                    changes_of-some_unless_empty (removed_keys o n ++ changed_keys json o n),
                  )
                  (patch_objects k o n uo un)
          ]
