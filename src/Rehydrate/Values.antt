-- ===== src/Rehydrate/Values.antt =====
-- app/masking/rehydrator.py: what has no replacement in it stays as it is.
use maskgate.Base.{
  All, All-In, All_of_In, In-select, In-sort, List, Text, [], ap, arith, false, is_substring, refl,
  replace, replace_from_absent, select, sort, starts_with, true, ◌∙◌, ◌∷◌, ◌≡◌,
}
use maskgate.Vault.{MappingItem}
use maskgate.Rehydrate.{longer_first, restore_all, rehydrate_text}

-- The item's replacement does not occur in the text.
abbrev pub IsFree : Text → MappingItem → Type 0
IsFree text i = is_substring i.replacement text ≡ false

replace_absent : (old new text : Text) → is_substring old text ≡ false → replace old new text ≡ text
unfolding replace
replace_absent [] new [] h = absurd (unfold is_substring starts_with in ground arith)
replace_absent [] new (c ∷ text) h = absurd (unfold is_substring starts_with in ground arith)
replace_absent (o ∷ os) new text h = replace_from_absent (o ∷ os) new text h

restore_all_absent :
    (is : List MappingItem) (text : Text) → All (IsFree text) is → restore_all is text ≡ text
unfolding restore_all
restore_all_absent [] text h = refl
restore_all_absent (i ∷ is) text h =
    ap (restore_all is) (replace_absent i.replacement i.original text h.0)
    ∙ restore_all_absent is text h.1

-- A text in which no reversible replacement occurs is returned as it is.
pub rehydrate_text_absent :
    (text : Text) (mapping : List MappingItem)
    → All (λ (i : MappingItem). i.restore ≡ true → IsFree text i) mapping
    → rehydrate_text text mapping ≡ text
unfolding rehydrate_text
rehydrate_text_absent text mapping h =
    let items = select (λ (i : MappingItem). i.restore) mapping in
    restore_all_absent (sort longer_first items) text (
      All_of_In (IsFree text) (sort longer_first items) (λ i m.
        let (listed, reversible) =
          In-select (λ (j : MappingItem). j.restore) i mapping
            ((In-sort longer_first i items).0 m) in
        All-In (λ (j : MappingItem). j.restore ≡ true → IsFree text j) i mapping h listed
          reversible))
