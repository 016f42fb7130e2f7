-- ===== src/Vault/Keyed.antt =====
-- The indices of the vault (app/privacy/vault.py) as lists of keyed items.
use maskgate.Base.{
  Bool, false, none, some, List, [], ◌∷◌, ◌++◌, select, Text, Dict, get, nat_eq, list_eq, ◌≡◌, ◌≢◌,
  refl, arith, put_new, IsDistinct, In, ap, sym, ◌∙◌, list_beq, list_beq_iff,
}
use mathlib.Core.List.{append_assoc, append-nil}
use maskgate.Vault.{MappingItem, index_onto}

abbrev pub keyed : (MappingItem → Text) → List MappingItem → Dict Text MappingItem
keyed key [] = []
keyed key (i ∷ is) = (key i, i) ∷ keyed key is

-- In a distinct dict an entry's key is not among the entries before it.
get-append_mid :
    (j k : Text) (v : MappingItem) (d r : Dict Text MappingItem)
    → get j (d ++ (k, v) ∷ r) ≡ none
    → list_beq k j ≡ false
unfolding get
get-append_mid j k v [] r h = ground arith
get-append_mid j k v ((i, w) ∷ d) r h = ground (arith, get-append_mid j k v d r)

get_before :
    (k : Text) (v : MappingItem) (d r : Dict Text MappingItem)
    → IsDistinct (d ++ (k, v) ∷ r)
    → get k d ≡ none
unfolding get
get_before k v [] r h = refl
get_before k v ((i, w) ∷ d) r h = ground (
  arith,
  get_before k v d r h.1,
  get-append_mid i k v d r h.0,
  list_beq_iff i k,
  list_beq_iff k i,
)

module _ (key : MappingItem → Text) where
  pub keyed-append :
      (is js : List MappingItem) → keyed key (is ++ js) ≡ keyed key is ++ keyed key js
  keyed-append [] js = refl
  keyed-append (i ∷ is) js = ap (λ l. (key i, i) ∷ l) (keyed-append is js)

  -- Selecting items selects entries.
  pub keyed-select :
      (p : MappingItem → Bool) (is : List MappingItem)
      → keyed key (select p is) ≡ select (λ e. p e.1) (keyed key is)
  keyed-select p [] = refl
  keyed-select p (i ∷ is) = ground (arith, keyed-select p is)

  -- An item that is listed has an entry under its key.
  pub get-keyed_of_In :
      (r : MappingItem) (is : List MappingItem) → In r is → get (key r) (keyed key is) ≢ none
  unfolding get
  get-keyed_of_In r [] m = λ _. m
  get-keyed_of_In r (i ∷ is) m = ground (arith, get-keyed_of_In r is, list_beq_iff (key i) (key r))

  -- An entry that is found is a listed item, under its own key.
  pub In-of_get-keyed :
      (k : Text) (r : MappingItem) (is : List MappingItem)
      → get k (keyed key is) ≡ some r
      → In r is × (key r ≡ k)
  unfolding get
  In-of_get-keyed k r [] h = ground arith
  In-of_get-keyed k r (i ∷ is) h = ground (arith, In-of_get-keyed k r is, list_beq_iff (key i) k)

  -- With distinct keys the entry under an item's key is that item.
  pub get-keyed_self :
      (r : MappingItem) (is : List MappingItem)
      → IsDistinct (keyed key is)
      → In r is
      → get (key r) (keyed key is) ≡ some r
  unfolding get
  get-keyed_self r [] d m = elim m [ ]
  get-keyed_self r (i ∷ is) d m =
      ground (arith, list_beq_iff (key i) (key r), get-keyed_self r is d.1)

  -- Building an index by assignments lists the items under their keys.
  pub index_onto-keyed :
      (is : List MappingItem) (d : Dict Text MappingItem)
      → IsDistinct (d ++ keyed key is)
      → index_onto key is d ≡ d ++ keyed key is
  unfolding index_onto
  index_onto-keyed [] d h = sym (append-nil d)
  index_onto-keyed (i ∷ is) d h =
      let e = put_new (key i) i d (get_before (key i) i d (keyed key is) h) in
      rw e (
        index_onto-keyed is (d ++ (key i, i) ∷ [])
          (rw (append_assoc d ((key i, i) ∷ []) (keyed key is)) h)
        ∙ append_assoc d ((key i, i) ∷ []) (keyed key is))
