-- ===== src/Som/Diff/Counts.antt =====
-- What the comparison of elements reports: `diff_elements` of src/som/diff.rs.
use plasmate.Common.{
  ℕ, ◌≡◌, refl, ap, sym, subst, append-nil, ◌∙◌, Bool, true, false, not, Option, none, some, List,
  [], ◌∷◌, ◌++◌, arith, length, keep, Bool-cases, Option-cases, inl, inr, if◌then◌else◌, ◌||◌,
}
use plasmate.Text.{Text}
use plasmate.Som.Types.{ElementInfo, Element, element, Elements, nil, cons}
use plasmate.Som.Diff.Types.{
  ChangeType, added, removed, modified, ElementDiff, element_diff, Changes, Diffs, no_diffs,
  more_diffs, Json,
}
use plasmate.Som.Diff.Elements.{
  Counts, is_some, id_of, find_element, whole, has_child_changes, has_changes, info_diff, finish,
  removed_elements, append_diffs, push_added, push_modified, diff_single_element, new_elements,
  diff_elements,
}
use plasmate.Som.Diff.Lookup.{
  new_elements-found, new_elements-missing, has_id, ids, find_element-has_id,
}

abbrev pub same_change : ChangeType → ChangeType → Bool
same_change added added = true
same_change removed removed = true
same_change modified modified = true
same_change _ _ = false

-- The ids of the first list that the second lacks.
abbrev pub missing : List Text → List Text → List Text
missing xs ys = keep (λ id. not (has_id id ys)) xs

missing-present :
    (id : Text) (xs ys : List Text) → has_id id ys ≡ true → missing (id ∷ xs) ys ≡ missing xs ys
missing-present id xs ys h =
    ap (λ b. elim (not b) [ true ↦ id ∷ missing xs ys | false ↦ missing xs ys ]) h

missing-absent :
    (id : Text) (xs ys : List Text)
    → has_id id ys ≡ false
    → missing (id ∷ xs) ys ≡ id ∷ missing xs ys
missing-absent id xs ys h =
    ap (λ b. elim (not b) [ true ↦ id ∷ missing xs ys | false ↦ missing xs ys ]) h

module _ {J : Type 0} where
  -- The ids of the diffs of one type, in order.
  unfoldable pub ids_of : ChangeType → Diffs J → List Text
  ids_of change no_diffs = []
  ids_of change (more_diffs (element_diff d c) ds) =
      if same_change d.change_type change then d.id ∷ ids_of change ds else ids_of change ds

  -- What a list of diffs and its counts say of two lists of elements.
  pub record Reports (old new : Elements J) (out : Diffs J × Counts) : Type 0 where
    pub removed_ids : ids_of removed out.0 ≡ missing (ids old) (ids new)
    pub added_ids : ids_of added out.0 ≡ missing (ids new) (ids old)
    pub removed_counted : out.1.removed_count ≡ length (ids_of removed out.0)
    pub added_counted : out.1.added_count ≡ length (ids_of added out.0)
    pub modified_counted : out.1.modified_count ≡ length (ids_of modified out.0)

  ids_of-append :
      (change : ChangeType) (ds es : Diffs J)
      → ids_of change (append_diffs ds es) ≡ ids_of change ds ++ ids_of change es
  unfolding ids_of
  ids_of-append change no_diffs es = refl
  ids_of-append change (more_diffs (element_diff d c) ds) es =
      elim (Bool-cases (same_change d.change_type change)) [
        | inl h ↦ rw (h, ids_of-append change ds es) refl
        | inr h ↦ rw (h, ids_of-append change ds es) refl
      ]

  record Gone (old new : Elements J) (out : Diffs J × ℕ) : Type 0 where
    gone_removed : ids_of removed out.0 ≡ missing (ids old) (ids new)
    gone_added : ids_of added out.0 ≡ []
    gone_modified : ids_of modified out.0 ≡ []
    gone_counted : out.1 ≡ length (ids_of removed out.0)

  removed_elements-Gone : (old new : Elements J) → Gone old new (removed_elements old new)
  unfolding removed_elements ids ids_of whole
  removed_elements-Gone nil new = record {
    gone_removed = refl;
    gone_added = refl;
    gone_modified = refl;
    gone_counted = refl;
  }
  removed_elements-Gone (cons (element i c s) es) new =
      let rest = removed_elements-Gone es new in
      let here = find_element-has_id i.id new in
      elim (Bool-cases (has_id i.id (ids new))) [
        | inl h ↦ rw (here ∙ h) (record {
          gone_removed = rest.gone_removed ∙ sym (missing-present i.id (ids es) (ids new) h);
          gone_added = rest.gone_added;
          gone_modified = rest.gone_modified;
          gone_counted = rest.gone_counted;
        })
        | inr h ↦ rw (here ∙ h) (record {
          gone_removed =
              ap (λ is. i.id ∷ is) rest.gone_removed
              ∙ sym (missing-absent i.id (ids es) (ids new) h);
          gone_added = rest.gone_added;
          gone_modified = rest.gone_modified;
          gone_counted = omega (arith, rest.gone_counted);
        })
      ]

  module _ (json : Json J) where
    -- What is found in the new elements.
    record Stays (old new : Elements J) (out : Diffs J × Counts) : Type 0 where
      stays_removed : ids_of removed out.0 ≡ []
      stays_added : ids_of added out.0 ≡ missing (ids new) (ids old)
      stays_added_counted : out.1.added_count ≡ length (ids_of added out.0)
      stays_modified_counted : out.1.modified_count ≡ length (ids_of modified out.0)

    -- A pair of elements gives no diff, or one that is a modification.
    IsModification : Option (ElementDiff J) → Type 0
    IsModification none = Unit {0}
    IsModification (some (element_diff d c)) = d.change_type ≡ modified

    finish-IsModification :
        (old new : ElementInfo J) (c : Changes J)
        → IsModification (finish (info_diff json old new) c)
    unfolding finish info_diff IsModification
    finish-IsModification old new c =
        elim (Bool-cases (has_changes (info_diff json old new) || has_child_changes c)) [
          | inl h ↦ rw h refl
          | inr h ↦ rw h tt
        ]

    diff_single_element-IsModification :
        (old new : Element J) → IsModification (diff_single_element json old new)
    unfolding diff_single_element
    diff_single_element-IsModification (element j d t) (element i c s) = finish-IsModification j i _

    Stays-missing :
        (e : Element J) (old es : Elements J) (out : Diffs J × Counts)
        → has_id (id_of e) (ids old) ≡ false
        → Stays old es out
        → Stays old (cons e es) (push_added (whole added e) out)
    unfolding whole ids_of ids
    Stays-missing (element i c s) old es (ds, counts) h st = record {
      stays_removed = st.stays_removed;
      stays_added =
          ap (λ is. i.id ∷ is) st.stays_added ∙ sym (missing-absent i.id (ids es) (ids old) h);
      stays_added_counted = omega (arith, st.stays_added_counted);
      stays_modified_counted = st.stays_modified_counted;
    }

    Stays-found :
        (e : Element J) (old es : Elements J) (o : Option (ElementDiff J)) (out : Diffs J × Counts)
        → has_id (id_of e) (ids old) ≡ true
        → IsModification o
        → Stays old es out
        → Stays old (cons e es) (push_modified o out)
    unfolding ids_of ids IsModification
    Stays-found e old es none out h m st = record {
      stays_removed = st.stays_removed;
      stays_added = st.stays_added ∙ sym (missing-present (id_of e) (ids es) (ids old) h);
      stays_added_counted = st.stays_added_counted;
      stays_modified_counted = st.stays_modified_counted;
    }
    Stays-found e old es (some (element_diff d c)) (ds, counts) h m st = record {
      stays_removed = rw m st.stays_removed;
      stays_added = rw m (st.stays_added ∙ sym (missing-present (id_of e) (ids es) (ids old) h));
      stays_added_counted = rw m st.stays_added_counted;
      stays_modified_counted = rw m (omega (arith, st.stays_modified_counted));
    }

    new_elements-Stays : (old new : Elements J) → Stays old new (new_elements json old new)
    unfolding new_elements ids ids_of
    new_elements-Stays old nil = record {
      stays_removed = refl;
      stays_added = refl;
      stays_added_counted = refl;
      stays_modified_counted = refl;
    }
    new_elements-Stays old (cons e es) =
        let here = find_element-has_id (id_of e) old in
        elim (Option-cases (find_element (id_of e) old)) [
          | inl h ↦ subst (Stays old (cons e es)) (sym (new_elements-missing json old es e h)) (
              Stays-missing e old es (new_elements json old es) (sym here ∙ ap is_some h)
                (new_elements-Stays old es))
          | inr (o, h) ↦
              subst (Stays old (cons e es)) (sym (new_elements-found json old es e o h)) (
                Stays-found e old es (diff_single_element json o e) (new_elements json old es)
                  (sym here ∙ ap is_some h) (diff_single_element-IsModification o e)
                  (new_elements-Stays old es))
        ]

    -- Of two lists of elements, exactly the ids that the new list lacks are reported as removed and
    -- exactly those that the old one lacks as added, each in the order of its list, and the counts are
    -- the numbers of removals, additions and modifications that are reported.
    pub diff_elements-Reports :
        (old new : Elements J) → Reports old new (diff_elements json old new)
    unfolding diff_elements
    diff_elements-Reports old new =
        let gone = removed_elements-Gone old new in
        let stays = new_elements-Stays old new in
        let ds = (removed_elements old new).0 in
        let es = (new_elements json old new).0 in
        let all_removed = ids_of-append removed ds es ∙ rw stays.stays_removed (append-nil _) in
        let all_added = ids_of-append added ds es ∙ rw gone.gone_added refl in
        let all_modified = ids_of-append modified ds es ∙ rw gone.gone_modified refl in
        record {
          removed_ids = all_removed ∙ gone.gone_removed;
          added_ids = all_added ∙ stays.stays_added;
          removed_counted = gone.gone_counted ∙ sym (ap length all_removed);
          added_counted = stays.stays_added_counted ∙ sym (ap length all_added);
          modified_counted = stays.stays_modified_counted ∙ sym (ap length all_modified);
        }
